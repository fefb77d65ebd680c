-- ===== src/Graph/Index.antt =====
-- graph/index/index.go, cache.go and index_update_incr_task.go: which counters have an index in the
-- database, and which wait for one. The database, the files and the struct's own methods are outside.
pub mod Moved
use ref_falcon.Prelude.{
  ℕ, Bool, true, false, List, [], ◌∷◌, map, length, Option, none, some, if◌then◌else◌, ◌+◌, ◌==◌,
  Run, ok, err, ◌>>=◌,
}
use ref_falcon.Prelude.Int.{ℤ, pos, ltb_ℤ}
use ref_falcon.Prelude.Text.{String, codes, str_eq, lookup, insert, delete}
use ref_falcon.Transfer.Types.{GraphItem}
use ref_falcon.Graph.Keys.{rrd_file_name, form_rrd_cache_key}
use ref_falcon.Graph.Table
use ref_falcon.Graph.Table.{GraphItemMap}

-- The configuration, the methods of model.GraphItem and the code outside.
pub record Outside (V : Type 0) : Type 0 where
  pub storage : List ℕ
  pub migrating : Bool
  pub uuid : GraphItem V → String
  pub checksum : GraphItem V → String
  pub counter : GraphItem V → String
  pub is_print : ℕ → Bool
  pub is_rrd_file_exist : List ℕ → Bool

pub record IndexCacheItem (V : Type 0) : Type 0 where
  pub uuid : String
  pub item : GraphItem V

-- `data` of an `IndexCacheBase`; its maxSize is never read. No value in it is nil.
abbrev pub IndexCacheBase : Type 0 → Type 0
IndexCacheBase V = List (String × IndexCacheItem V)

-- `IndexedItemCache` and `unIndexedItemCache`.
pub record Indices (V : Type 0) : Type 0 where
  pub indexed_item_cache : IndexCacheBase V
  pub un_indexed_item_cache : IndexCacheBase V

-- The operations of `IndexCacheBase` but Get, Put and Remove, which are those of the map.
abbrev pub contains_key : {V : Type 0} → String → IndexCacheBase V → Bool
contains_key key m = elim (lookup key m) [ none ↦ false | some v ↦ true ]

abbrev pub cache_size : {V : Type 0} → IndexCacheBase V → ℕ
cache_size m = length m

abbrev pub cache_keys : {V : Type 0} → IndexCacheBase V → List String
cache_keys m = map (λ e. e.0) m

module _ {V : Type 0} where
  abbrev pub put_indexed : String → IndexCacheItem V → Indices V → Indices V
  put_indexed md5 ic st = record st { indexed_item_cache = insert md5 ic st.indexed_item_cache }

  abbrev pub put_un_indexed : String → IndexCacheItem V → Indices V → Indices V
  put_un_indexed md5 ic st = record st {
    un_indexed_item_cache = insert md5 ic st.un_indexed_item_cache;
  }

module _ {V : Type 0} (o : Outside V) where
  unfoldable pub receive_item : GraphItem V → String → Indices V → Run (Indices V)
  receive_item item md5 st =
      let ic : IndexCacheItem V = record { uuid = o.uuid item; item = item } in
      elim (lookup md5 st.indexed_item_cache) [
        | some old ↦
            if str_eq (o.uuid item) old.uuid
            then ok (put_indexed md5 ic st)
            else ok (put_un_indexed md5 ic st)
        | none ↦ do
          file ← rrd_file_name o.storage (codes md5) (codes item.ds_type) item.step
          ok (if o.is_rrd_file_exist file then put_indexed md5 ic st else put_un_indexed md5 ic st)
      ]

  -- RemoveItem: the index, what waits in memory, and the file, whose name is in the result.
  unfoldable pub remove_item :
      GraphItem V → Indices V → GraphItemMap V → Run (List ℕ × Indices V × GraphItemMap V)
  remove_item item st items = do
    let md5 = o.checksum item
    popped ← Table.pop_all (form_rrd_cache_key md5 item.ds_type item.step) items
    file ← rrd_file_name o.storage (codes md5) (codes item.ds_type) item.step
    ok (
      file,
      record {
        indexed_item_cache = delete md5 st.indexed_item_cache;
        un_indexed_item_cache = delete md5 st.un_indexed_item_cache;
      },
      popped.1,
    )

-- What the database and the caches of its rows answer: `none` where nothing is found, and where the
-- query fails.
pub record Rows : Type 0 where
  pub cached_endpoint : String → Option ℤ
  pub endpoint_id : String → Option ℤ
  pub cached_counter : ℤ → String → Option (String × Option ℤ)
  pub endpoint_counter : ℤ → String → Option (String × ℤ)

unfoldable pub get_endpoint_from_cache : Rows → String → Option ℤ
get_endpoint_from_cache rows endpoint = elim (rows.cached_endpoint endpoint) [
  | some id ↦ some id
  | none ↦ elim (rows.endpoint_id endpoint) [
    | none ↦ none
    | some id ↦ if ltb_ℤ id (pos 0) then none else some id
  ]
]

-- A row that is cached is "type_step", and is refused when the step is not a number.
unfoldable pub get_counter_from_cache : Rows → ℤ → String → Option (String × ℤ)
get_counter_from_cache rows id counter = elim (rows.cached_counter id counter) [
  | none ↦ rows.endpoint_counter id counter
  | some (ds_type, none) ↦ none
  | some (ds_type, some step) ↦ some (ds_type, step)
]

module _ {V : Type 0} where
  -- `md5` is the checksum of "endpoint/counter".
  unfoldable pub get_type_and_step :
      Rows → (String → String → String) → String → String → Indices V → Option (String × ℤ)
  unfolding get_endpoint_from_cache get_counter_from_cache
  get_type_and_step rows md5 endpoint counter st =
      elim (lookup (md5 endpoint counter) st.indexed_item_cache) [
        | some ic ↦ some (ic.item.ds_type, ic.item.step)
        | none ↦ elim (get_endpoint_from_cache rows endpoint) [
          | none ↦ none
          | some id ↦ get_counter_from_cache rows id counter
        ]
      ]

  -- One key of `updateIndexIncr`: `accepts` is whether updateIndexFromOneItem stores the item in
  -- the database with no error. The goroutines each have a key of their own, and run in turn.
  abbrev pub update_found :
      (GraphItem V → Bool) → String → Indices V → Option (IndexCacheItem V) → ℕ × Indices V
  update_found accepts key st none =
      (0, record st { un_indexed_item_cache = delete key st.un_indexed_item_cache })
  update_found accepts key st (some ic) = (
    1,
    record {
      indexed_item_cache =
          if accepts ic.item then insert key ic st.indexed_item_cache else st.indexed_item_cache;
      un_indexed_item_cache = delete key st.un_indexed_item_cache;
    },
  )

  unfoldable pub update_key : (GraphItem V → Bool) → String → Indices V → ℕ × Indices V
  update_key accepts key st = update_found accepts key st (lookup key st.un_indexed_item_cache)

  unfoldable pub update_keys : (GraphItem V → Bool) → List String → ℕ → Indices V → ℕ × Indices V
  unfolding update_key
  update_keys accepts [] ret st = (ret, st)
  update_keys accepts (key ∷ keys) ret st =
      let r = update_key accepts key st in update_keys accepts keys (ret + r.0) r.1

  -- `connected` is whether GetDbConn gives a connection.
  unfoldable pub update_index_incr : Bool → (GraphItem V → Bool) → Indices V → ℕ × Indices V
  unfolding update_keys
  update_index_incr connected accepts st =
      if cache_size st.un_indexed_item_cache == 0
      then (0, st)
      else if connected
      then update_keys accepts (cache_keys st.un_indexed_item_cache) 0 st
      else (0, st)
