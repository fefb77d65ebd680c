-- ===== src/Nodata/Collecting.antt =====
-- nodata/collector/collector.go: the latest items of each counter. The limited list is of an outside
-- library, so that its operations are parameters; the judge reads `get_first_item`.
use ref_falcon.Prelude.{
  ℕ, ◌≡◌, List, Option, none, some, if◌then◌else◌, Bool-cases, Option-cases, inl, inr,
}
use ref_falcon.Prelude.Text.{String, str_eq, lookup, insert, delete, lookup-insert, lookup-delete}
use ref_falcon.Nodata.Judging.{DataItem}

-- `SafeListLimited` of the library.
pub record Limited (V : Type 0) : Type 1 where
  pub Queue : Type 0
  pub new_list : ℕ → Queue
  pub push_front_violently : DataItem V → Queue → Queue
  pub front : Queue → Option (DataItem V)

module _ {V : Type 0} (l : Limited V) where
  unfoldable pub get_first_item : String → List (String × l.Queue) → Option (DataItem V)
  get_first_item key m = elim (lookup key m) [ none ↦ none | some listv ↦ l.front listv ]

  unfoldable pub add_item : String → DataItem V → List (String × l.Queue) → List (String × l.Queue)
  add_item key val m = elim (lookup key m) [
    | none ↦ insert key (l.push_front_violently val (l.new_list 3)) m
    | some listv ↦ insert key (l.push_front_violently val listv) m
  ]

  unfoldable pub remove_item : String → List (String × l.Queue) → List (String × l.Queue)
  remove_item key m = delete key m

  get-insert :
      (key k : String) (q : l.Queue) (m : List (String × l.Queue))
      → get_first_item k (insert key q m) ≡ (if str_eq key k then l.front q else get_first_item k m)
  unfolding get_first_item
  get-insert key k q m = elim (Bool-cases (str_eq key k)) [
    | inl same ↦ rw (get_first_item, lookup-insert key k q m, same)
    | inr other ↦ rw (get_first_item, lookup-insert key k q m, other)
  ]

  get-delete :
      (key k : String) (m : List (String × l.Queue))
      → get_first_item k (delete key m) ≡ (if str_eq key k then none else get_first_item k m)
  unfolding get_first_item
  get-delete key k m = elim (Bool-cases (str_eq key k)) [
    | inl same ↦ rw (get_first_item, lookup-delete key k m, same)
    | inr other ↦ rw (get_first_item, lookup-delete key k m, other)
  ]

  -- When the limited list has in front what was pushed last, GetFirstItem gives the item that was
  -- added last under its key; an item that is added or removed changes no other key, and nothing
  -- is left under a key that is removed.
  pub get_first_item_lem :
      (front_push : (val : DataItem V) (q : l.Queue)
        → l.front (l.push_front_violently val q) ≡ some val)
      (key k : String) (val : DataItem V) (m : List (String × l.Queue))
      → (get_first_item k (add_item key val m)
          ≡ (if str_eq key k then some val else get_first_item k m))
        × (get_first_item k (remove_item key m)
            ≡ (if str_eq key k then none else get_first_item k m))
  unfolding add_item remove_item
  get_first_item_lem front_push key k val m = (
    elim (Option-cases (lookup key m)) [
      | inl absent ↦ rw (
        add_item,
        absent,
        get-insert key k (l.push_front_violently val (l.new_list 3)) m,
        front_push val (l.new_list 3),
      )
      | inr (q, found) ↦
          rw (add_item, found, get-insert key k (l.push_front_violently val q) m, front_push val q)
    ],
    get-delete key k m,
  )
