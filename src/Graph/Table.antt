-- ===== src/Graph/Table.antt =====
-- graph/store/store.go: the items of all keys, in buckets by the hash of the key. The lock of the
-- map is held for a whole call, so that a call is one step; a list that is changed through the
-- pointer in its bucket is written back there. A bucket out of range is a panic, and so is a Size
-- of 0, by the division.
pub mod View
pub mod Promise
pub mod Answers
pub mod Effects
use ref_falcon.Prelude.{
  ℕ, zero, suc, ◌+◌, ◌-◌, ◌%◌, ◌^◌, Bool, true, false, ◌&&◌, not, List, [], ◌∷◌, map, length,
  get_elem?, set, replicate, Option, none, some, if◌then◌else◌, Run, ok, err, panic, must, or_err,
  ◌>>=◌, ◌==◌,
}
use ref_falcon.Prelude.Int.{ℤ, pos, add64, sub64}
use ref_falcon.Prelude.Text.{String, codes, lookup, insert, delete}
use ref_falcon.Transfer.Types.{GraphItem}
use ref_falcon.Graph.Crc.{checksum_ieee}
use ref_falcon.Graph.Linked
use ref_falcon.Graph.Linked.{SafeLinkedList}

unfoldable pub hash_key : String → ℕ
hash_key key = checksum_ieee (codes key)

-- `CACHE_TIME`, `FLUSH_DISK_STEP` and `GRAPH_F_MISS` of graph/g.
abbrev pub cache_time : ℕ
cache_time = 1800000

abbrev pub flush_disk_step : ℕ
flush_disk_step = 1000

abbrev pub graph_f_miss : ℕ
graph_f_miss = 1

unfoldable pub get_wts : String → ℤ → ℤ
get_wts key now = sub64 (add64 now (pos cache_time)) (pos (hash_key key % cache_time))

abbrev pub Bucket : Type 0 → Type 0
Bucket V = List (String × SafeLinkedList (GraphItem V))

pub record GraphItemMap (V : Type 0) : Type 0 where
  pub a : List (Bucket V)
  pub size : ℕ

module _ {V : Type 0} where
  -- `hashKey(key) % uint32(this.Size)`.
  abbrev pub slot : String → GraphItemMap V → ℕ
  slot key m = hash_key key % (m.size % 2 ^ 32)

  -- `this.A[idx]`, which every call begins with.
  unfoldable pub bucket : String → GraphItemMap V → Run (Bucket V)
  bucket key m = if m.size % 2 ^ 32 == 0 then panic else must (get_elem? m.a (slot key m))

  abbrev pub with_bucket : String → Bucket V → GraphItemMap V → GraphItemMap V
  with_bucket key b m = record m { a = set m.a (slot key m) b }

  unfoldable pub get : String → GraphItemMap V → Run (Option (SafeLinkedList (GraphItem V)))
  get key m = do b ← bucket key m; ok (lookup key b)

  -- The rest of Remove, on what the bucket has under the key.
  abbrev pub remove_found :
      String
      → Bucket V
      → GraphItemMap V
      → Option (SafeLinkedList (GraphItem V))
      → Run (Bool × GraphItemMap V)
  remove_found key b m none = ok (false, m)
  remove_found key b m (some sl) = ok (true, with_bucket key (delete key b) m)

  unfoldable pub remove : String → GraphItemMap V → Run (Bool × GraphItemMap V)
  remove key m = do b ← bucket key m; remove_found key b m (lookup key b)

  unfoldable pub getitems : ℕ → GraphItemMap V → Run (Bucket V × GraphItemMap V)
  getitems idx m = do items ← must (get_elem? m.a idx); ok (items, record m { a = set m.a idx [] })

  unfoldable pub set_key :
      String → SafeLinkedList (GraphItem V) → GraphItemMap V → Run (GraphItemMap V)
  set_key key val m = do b ← bucket key m; ok (with_bucket key (insert key val b) m)

  -- The loop of Len over the indices, with the rounds that are left.
  unfoldable pub len_loop : ℕ → ℕ → ℕ → GraphItemMap V → Run ℕ
  len_loop zero i l m = ok l
  len_loop (suc left) i l m = do b ← must (get_elem? m.a i); len_loop left (suc i) (l + length b) m

  unfoldable pub len : GraphItemMap V → Run ℕ
  unfolding len_loop
  len m = len_loop m.size 0 0 m

  unfoldable pub first : String → GraphItemMap V → Run (Option (GraphItem V))
  first key m = do
    b ← bucket key m
    ok (elim (lookup key b) [ none ↦ none | some sl ↦ Linked.front sl ])

  unfoldable pub push_all : String → List (GraphItem V) → GraphItemMap V → Run (GraphItemMap V)
  push_all key items m = do
    b ← bucket key m
    sl ← or_err (lookup key b)
    sl' ← Linked.push_all items sl
    ok (with_bucket key (insert key sl' b) m)

  unfoldable pub get_flag : String → GraphItemMap V → Run ℕ
  get_flag key m = do b ← bucket key m; sl ← or_err (lookup key b); ok sl.flag

  unfoldable pub set_flag : String → ℕ → GraphItemMap V → Run (GraphItemMap V)
  set_flag key flag m = do
    b ← bucket key m
    sl ← or_err (lookup key b)
    ok (with_bucket key (insert key (record sl { flag = flag }) b) m)

  -- The rest of PopAll.
  abbrev pub pop_found :
      String
      → Bucket V
      → GraphItemMap V
      → Option (SafeLinkedList (GraphItem V))
      → Run (List (GraphItem V) × GraphItemMap V)
  pop_found key b m none = ok ([], m)
  pop_found key b m (some sl) = do
    r ← Linked.pop_all sl
    ok (r.0, with_bucket key (insert key r.1 b) m)

  unfoldable pub pop_all : String → GraphItemMap V → Run (List (GraphItem V) × GraphItemMap V)
  pop_all key m = do b ← bucket key m; pop_found key b m (lookup key b)

  unfoldable pub fetch_all : String → GraphItemMap V → Run (List (GraphItem V) × ℕ)
  fetch_all key m = do
    b ← bucket key m
    ok (elim (lookup key b) [ none ↦ ([], 0) | some sl ↦ Linked.fetch_all sl ])

  -- `on_disk` is whether the file of the item is there, and `migrating` is `cfg.Migrate.Enabled`.
  unfoldable pub push_front :
      String → GraphItem V → Bool → Bool → GraphItemMap V → Run (GraphItemMap V)
  unfolding get set_key
  push_front key item migrating on_disk m = do
    found ← get key m
    elim found [
      | some sl ↦ set_key key (Linked.push_front item sl) m
      | none ↦
          set_key key
            (record {
              flag = if migrating && not on_disk then graph_f_miss else 0;
              items = item ∷ [];
            })
            m
    ]

  -- The keys of a bucket, in the order of the list; the order of Go is not determined.
  unfoldable pub keys_by_index : ℕ → GraphItemMap V → Run (List String)
  keys_by_index idx m = do b ← must (get_elem? m.a idx); ok (map (λ e. e.0) b)

  unfoldable pub back : String → GraphItemMap V → Run (Option (GraphItem V))
  back key m = do
    b ← bucket key m
    ok (elim (lookup key b) [ none ↦ none | some sl ↦ Linked.back sl ])

  unfoldable pub item_cnt : String → GraphItemMap V → Run ℕ
  item_cnt key m = do
    b ← bucket key m
    ok (elim (lookup key b) [ none ↦ 0 | some sl ↦ Linked.safe_len sl ])

  -- `init` of the package, with a size of 1800.
  abbrev pub graph_items : GraphItemMap V
  graph_items = record { a = replicate 1800 []; size = 1800 }
