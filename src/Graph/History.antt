-- ===== src/Graph/History.antt =====
-- graph/store/history.go: the latest three items of each counter. The limited list is of an outside
-- library, so that its operations are parameters.
pub mod Recent
use ref_falcon.Prelude.{List, [], ◌∷◌, Bool, true, Option, none, some, ℕ, if◌then◌else◌}
use ref_falcon.Prelude.Int.{ℤ, ltb_ℤ}
use ref_falcon.Prelude.Text.{String, lookup, insert}
use ref_falcon.Transfer.Types.{GraphItem}

-- `SafeListLimited` of the library; an item of the list may be nil.
pub record Histories (V : Type 0) : Type 1 where
  pub Queue : Type 0
  pub new_list : ℕ → Queue
  pub push_front_violently : GraphItem V → Queue → Queue
  pub front : Queue → Option (GraphItem V)
  pub front_all : Queue → List (Option (GraphItem V))

abbrev pub default_history_size : ℕ
default_history_size = 3

-- The items that are not nil.
unfoldable pub present_items : {V : Type 0} → List (Option (GraphItem V)) → List (GraphItem V)
present_items [] = []
present_items (none ∷ rest) = present_items rest
present_items (some item ∷ rest) = item ∷ present_items rest

-- Whether the first item of the list is older, or there is none.
abbrev pub is_latest : {V : Type 0} → Option (GraphItem V) → GraphItem V → Bool
is_latest none val = true
is_latest (some first) val = ltb_ℤ first.timestamp val.timestamp

module _ {V : Type 0} (h : Histories V) where
  -- `none` stands for the empty GraphItem that is returned when there is no item.
  unfoldable pub get_last_item : String → List (String × h.Queue) → Option (GraphItem V)
  get_last_item key m = elim (lookup key m) [ none ↦ none | some itemlist ↦ h.front itemlist ]

  unfoldable pub get_all_items : String → List (String × h.Queue) → List (GraphItem V)
  unfolding present_items
  get_all_items key m = elim (lookup key m) [
    | none ↦ []
    | some itemlist ↦ present_items (h.front_all itemlist)
  ]

  -- The list of a key, or a new one.
  abbrev pub list_of : Option h.Queue → h.Queue
  list_of none = h.new_list default_history_size
  list_of (some slist) = slist

  -- `slist` is in the map by its pointer, so that it is put back with or without the new item.
  unfoldable pub add_history_item :
      String → GraphItem V → List (String × h.Queue) → List (String × h.Queue)
  add_history_item key val m =
      let slist = list_of (lookup key m) in
      insert key (if is_latest (h.front slist) val then h.push_front_violently val slist else slist)
        m
