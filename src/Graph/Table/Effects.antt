-- ===== src/Graph/Table/Effects.antt =====
-- What the calls that receiving and flushing make do to the map of keys.
use mathlib.Core.List.{reverse}
use ref_falcon.Prelude.{
  ℕ, ◌≡◌, refl, ap, ◌∙◌, sym, ◌⊎◌, inl, inr, Bool, ◌&&◌, not, List, [], ◌∷◌, length, get_elem?,
  Option, none, some, if◌then◌else◌, ok, err, Returns, Option-cases, Bool-cases,
}
use ref_falcon.Prelude.Text.{String, str_eq, eq_iff, lookup, insert}
use ref_falcon.Transfer.Types.{GraphItem}
use ref_falcon.Graph.Linked.{SafeLinkedList, last}
use ref_falcon.Graph.Table
use ref_falcon.Graph.Table.{GraphItemMap, graph_f_miss}
use ref_falcon.Graph.Table.View.{WellFormed, view, bucket_lem, with_bucket-WellFormed, view-insert}
use ref_falcon.Graph.Table.Answers.{pop_absent, pop_present}

module _ {V : Type 0} where
  -- The items of a key, the newest first; a key with no list has none.
  abbrev pub waiting : Option (SafeLinkedList (GraphItem V)) → List (GraphItem V)
  waiting none = []
  waiting (some sl) = sl.items

  abbrev pub flag_of : Option (SafeLinkedList (GraphItem V)) → ℕ
  flag_of none = 0
  flag_of (some sl) = sl.flag

  abbrev pub emptied : Option (SafeLinkedList (GraphItem V)) → Option (SafeLinkedList (GraphItem V))
  emptied none = none
  emptied (some sl) = some (record sl { items = [] })

  abbrev pub pushed :
      GraphItem V → Bool → Option (SafeLinkedList (GraphItem V)) → SafeLinkedList (GraphItem V)
  pushed i missing none = record { flag = if missing then graph_f_miss else 0; items = i ∷ [] }
  pushed i missing (some sl) = record sl { items = i ∷ sl.items }

  -- The map of a store after a call: well-formed, and with this under a key.
  pub record After (m : GraphItemMap V) (key : String) (new : Option (SafeLinkedList (GraphItem V)))
      (m' : GraphItemMap V) : Type 0 where
    pub well_formed : WellFormed m'
    pub size : m'.size ≡ m.size
    pub seen : (k : String) → view m' k ≡ (if str_eq key k then new else view m k)

  After-insert :
      (key : String) (sl : SafeLinkedList (GraphItem V)) (b : Table.Bucket V) (m : GraphItemMap V)
      → WellFormed m
      → get_elem? m.a (Table.slot key m) ≡ some b
      → After m key (some sl) (Table.with_bucket key (insert key sl b) m)
  After-insert key sl b m w at = record {
    well_formed = with_bucket-WellFormed key _ m w;
    size = refl;
    seen = λ k. view-insert key k sl b m w at;
  }

  After-itself :
      (m : GraphItemMap V) (key : String) (new : Option (SafeLinkedList (GraphItem V)))
      → view m key ≡ new
      → WellFormed m
      → After m key new m
  After-itself m key new e w = record {
    well_formed = w;
    size = refl;
    seen = λ k. elim (Bool-cases (str_eq key k)) [
      | inl same ↦ rw same (ap (view m) (sym ((eq_iff key k).0 same)) ∙ e)
      | inr other ↦ rw other
    ];
  }

  -- What PopAll gives, and what it leaves.
  abbrev pub Popped : String → GraphItemMap V → List (GraphItem V) × GraphItemMap V → Type 0
  Popped k m r = (r.0 ≡ reverse (waiting (view m k))) × After m k (emptied (view m k)) r.1

  pub pop_all-Popped :
      (k : String) (m : GraphItemMap V) → WellFormed m → Returns (Popped k m) (Table.pop_all k m)
  pop_all-Popped k m w =
      let (b, at, e, seen) = bucket_lem k m w in
      elim (Option-cases (lookup k b)) [
        | inl n ↦
            let v : view m k ≡ none = seen ∙ n in
            rw (pop_absent k m b e n, v) (refl, After-itself m k none v w)
        | inr (sl, s) ↦
            let v : view m k ≡ some sl = seen ∙ s in
            rw (pop_present k m b sl e s, v) (refl, After-insert k _ b m w at)
      ]

  pub push_front-After :
      (k : String) (i : GraphItem V) (migrating on_disk : Bool) (m : GraphItemMap V)
      → WellFormed m
      → Returns
          (After m k (some (pushed i (migrating && not on_disk) (view m k))))
          (Table.push_front k i migrating on_disk m)
  unfolding Table.push_front Table.get Table.set_key
  push_front-After k i migrating on_disk m w =
      let (b, at, e, seen) = bucket_lem k m w in
      elim (Option-cases (lookup k b)) [
        | inl n ↦
            let v : view m k ≡ none = seen ∙ n in rw (e, n, v) (rw e (After-insert k _ b m w at))
        | inr (sl, s) ↦
            let v : view m k ≡ some sl = seen ∙ s in rw (e, s, v) (rw e (After-insert k _ b m w at))
      ]

  module _ (k : String) (m : GraphItemMap V) (w : WellFormed m) where
    pub first_lem : Table.first k m ≡ ok (get_elem? (waiting (view m k)) 0)
    unfolding Table.first
    first_lem =
        let (b, at, e, seen) = bucket_lem k m w in
        elim (Option-cases (lookup k b)) [
          | inl n ↦ (let v : view m k ≡ none = seen ∙ n in rw (e, n, v))
          | inr (sl, s) ↦ (let v : view m k ≡ some sl = seen ∙ s in rw (e, s, v))
        ]

    pub back_lem : Table.back k m ≡ ok (last (waiting (view m k)))
    unfolding Table.back
    back_lem =
        let (b, at, e, seen) = bucket_lem k m w in
        elim (Option-cases (lookup k b)) [
          | inl n ↦ (let v : view m k ≡ none = seen ∙ n in rw (e, n, v))
          | inr (sl, s) ↦ (let v : view m k ≡ some sl = seen ∙ s in rw (e, s, v))
        ]

    pub item_cnt_lem : Table.item_cnt k m ≡ ok (length (waiting (view m k)))
    unfolding Table.item_cnt
    item_cnt_lem =
        let (b, at, e, seen) = bucket_lem k m w in
        elim (Option-cases (lookup k b)) [
          | inl n ↦ (let v : view m k ≡ none = seen ∙ n in rw (e, n, v))
          | inr (sl, s) ↦ (let v : view m k ≡ some sl = seen ∙ s in rw (e, s, v))
        ]

    -- A key with no list has no flag, and the error is what says so.
    pub get_flag_lem : (Table.get_flag k m ≡ ok (flag_of (view m k))) ⊎ (Table.get_flag k m ≡ err)
    unfolding Table.get_flag
    get_flag_lem =
        let (b, at, e, seen) = bucket_lem k m w in
        elim (Option-cases (lookup k b)) [
          | inl n ↦ inr (rw (e, n))
          | inr (sl, s) ↦ (let v : view m k ≡ some sl = seen ∙ s in inl (rw (e, s, v)))
        ]
