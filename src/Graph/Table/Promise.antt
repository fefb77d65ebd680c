-- ===== src/Graph/Table/Promise.antt =====
-- The contract of the store: a map from keys to lists, with no buckets and no loops. Every run of
-- calls gets the replies of the contract.
use mathlib.Core.List.{reverse}
use ref_falcon.Prelude.{
  ℕ, Bool, true, false, ◌&&◌, not, List, [], ◌∷◌, ◌++◌, length, get_elem?, Option, none, some,
  if◌then◌else◌, Run, ok, err, panic, ◌>>=◌,
}
use ref_falcon.Prelude.Text.{String, str_eq}
use ref_falcon.Transfer.Types.{GraphItem}
use ref_falcon.Graph.Linked.{SafeLinkedList, last}
use ref_falcon.Graph.Table
use ref_falcon.Graph.Table.{GraphItemMap, graph_f_miss}

-- The calls on a key. `push_front` has whether graph migrates and whether the file is there.
pub data Call (V : Type 0) : Type 0 where
  first back item_cnt get_flag fetch_all pop_all remove : String → Call V
  push_all : String → List (GraphItem V) → Call V
  set_flag : String → ℕ → Call V
  push_front : String → GraphItem V → Bool → Bool → Call V

-- The result of a call; `refused` is the error "not exist".
pub data Answer (V : Type 0) : Type 0 where
  item : Option (GraphItem V) → Answer V
  count : ℕ → Answer V
  items : List (GraphItem V) → Answer V
  flagged : List (GraphItem V) × ℕ → Answer V
  removed : Bool → Answer V
  done refused : Answer V

abbrev pub Keyed : Type 0 → Type 0
Keyed V = String → Option (SafeLinkedList (GraphItem V))

module _ {V : Type 0} where
  -- A read: its result, or an error.
  abbrev reads :
      {A : Type 0} → (A → Answer V) → Run A → GraphItemMap V → Run (Answer V × GraphItemMap V)
  reads f (ok x) m = ok (f x, m)
  reads f err m = ok (refused, m)
  reads f panic m = panic

  -- A change that has no result but an error.
  abbrev changes : Run (GraphItemMap V) → GraphItemMap V → Run (Answer V × GraphItemMap V)
  changes (ok m') m = ok (done, m')
  changes err m = ok (refused, m)
  changes panic m = panic

  unfoldable pub perform : Call V → GraphItemMap V → Run (Answer V × GraphItemMap V)
  perform (first k) m = reads item (Table.first k m) m
  perform (back k) m = reads item (Table.back k m) m
  perform (item_cnt k) m = reads count (Table.item_cnt k m) m
  perform (get_flag k) m = reads count (Table.get_flag k m) m
  perform (fetch_all k) m = reads flagged (Table.fetch_all k m) m
  perform (pop_all k) m = Table.pop_all k m >>= λ r. ok (items r.0, r.1)
  perform (remove k) m = Table.remove k m >>= λ r. ok (removed r.0, r.1)
  perform (push_all k l) m = changes (Table.push_all k l m) m
  perform (set_flag k n) m = changes (Table.set_flag k n m) m
  perform (push_front k i migrating on_disk) m =
      changes (Table.push_front k i migrating on_disk m) m

  abbrev pub with_key : String → Option (SafeLinkedList (GraphItem V)) → Keyed V → Keyed V
  with_key key new f k = if str_eq key k then new else f k

  -- The contract, for a key with no list and for a key with one.
  abbrev pub absent : Call V → Keyed V → Answer V × Keyed V
  absent (first k) f = (item none, f)
  absent (back k) f = (item none, f)
  absent (item_cnt k) f = (count 0, f)
  absent (get_flag k) f = (refused, f)
  absent (fetch_all k) f = (flagged ([], 0), f)
  absent (pop_all k) f = (items [], f)
  absent (remove k) f = (removed false, f)
  absent (push_all k l) f = (refused, f)
  absent (set_flag k n) f = (refused, f)
  absent (push_front k i migrating on_disk) f = (
    done,
    with_key k
        (some
          (record { flag = if migrating && not on_disk then graph_f_miss else 0; items = i ∷ [] }))
        f,
  )

  abbrev pub present : Call V → SafeLinkedList (GraphItem V) → Keyed V → Answer V × Keyed V
  present (first k) sl f = (item (get_elem? sl.items 0), f)
  present (back k) sl f = (item (last sl.items), f)
  present (item_cnt k) sl f = (count (length sl.items), f)
  present (get_flag k) sl f = (count sl.flag, f)
  present (fetch_all k) sl f = (flagged (reverse sl.items, sl.flag), f)
  present (pop_all k) sl f =
      (items (reverse sl.items), with_key k (some (record sl { items = [] })) f)
  present (remove k) sl f = (removed true, with_key k none f)
  present (push_all k l) sl f =
      (done, with_key k (some (record sl { items = sl.items ++ reverse l })) f)
  present (set_flag k n) sl f = (done, with_key k (some (record sl { flag = n })) f)
  present (push_front k i migrating on_disk) sl f =
      (done, with_key k (some (record sl { items = i ∷ sl.items })) f)

  abbrev pub key_of : Call V → String
  key_of (first k) = k
  key_of (back k) = k
  key_of (item_cnt k) = k
  key_of (get_flag k) = k
  key_of (fetch_all k) = k
  key_of (pop_all k) = k
  key_of (remove k) = k
  key_of (push_all k l) = k
  key_of (set_flag k n) = k
  key_of (push_front k i migrating on_disk) = k

  abbrev pub answer : Call V → Option (SafeLinkedList (GraphItem V)) → Keyed V → Answer V × Keyed V
  answer c none f = absent c f
  answer c (some sl) f = present c sl f

  abbrev pub promise : Call V → Keyed V → Answer V × Keyed V
  promise c f = answer c (f (key_of c)) f

  -- A run of calls: the replies and the store at the end.
  unfoldable pub run_calls : List (Call V) → GraphItemMap V → Run (List (Answer V) × GraphItemMap V)
  unfolding perform
  run_calls [] m = ok ([], m)
  run_calls (c ∷ cs) m = do r ← perform c m; rest ← run_calls cs r.1; ok (r.0 ∷ rest.0, rest.1)

  unfoldable pub promises : List (Call V) → Keyed V → List (Answer V) × Keyed V
  promises [] f = ([], f)
  promises (c ∷ cs) f = let rest = promises cs (promise c f).1 in ((promise c f).0 ∷ rest.0, rest.1)
