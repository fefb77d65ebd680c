-- ===== src/Graph/Flush.antt =====
-- graph/rrdtool/rrdtool.go and sync_disk.go: the items go from memory to their files. What the
-- workers do to a file is outside: a batch that is handed to them is noted, in order, with its file.
pub mod Flushable
pub mod Fate
pub mod Saved
pub mod All
use ref_falcon.Prelude.{
  ℕ, zero, suc, ◌/◌, ◌%◌, Bool, true, false, not, ◌&&◌, ◌||◌, List, [], ◌∷◌, ◌++◌, Option, none,
  some, if◌then◌else◌, leb, ◌==◌, Run, ok, err, panic, ◌>>=◌,
}
use ref_falcon.Prelude.Int.{ℤ, pos, leb_ℤ, sub64}
use ref_falcon.Prelude.Text.{String, codes}
use ref_falcon.Transfer.Types.{GraphItem}
use ref_falcon.Graph.Keys.{split_rrd_cache_key, rrd_file_name}
use ref_falcon.Graph.Table
use ref_falcon.Graph.Table.{GraphItemMap}

-- `FLUSH_MIN_COUNT` and `FLUSH_MAX_WAIT` of graph/g.
abbrev pub flush_min_count : ℕ
flush_min_count = 6

abbrev pub flush_max_wait : ℤ
flush_max_wait = pos 86400

-- The configuration, and the node that the ring of the new cluster has for an item, unless it
-- gives an error.
pub record Settings (V : Type 0) : Type 0 where
  pub storage : List ℕ
  pub migrating : Bool
  pub node : GraphItem V → Option String

-- The arguments of FlushFile.
abbrev pub Batch : Type 0 → Type 0
Batch V = List ℕ × List ℕ × List (GraphItem V)

-- The store, the batches that were handed to the workers, and the keys that were asked of another
-- node with that node.
pub record Disk (V : Type 0) : Type 0 where
  pub graph_items : GraphItemMap V
  pub flushed : List (Batch V)
  pub pulled : List (String × String)

-- `flag, _ :=`: the flag is 0 beside an error.
abbrev pub flag_or_zero : Run ℕ → Run ℕ
flag_or_zero (ok flag) = ok flag
flag_or_zero err = ok 0
flag_or_zero panic = panic

module _ {V : Type 0} where
  abbrev pub flush_file : List ℕ → List ℕ → List (GraphItem V) → Disk V → Disk V
  flush_file filename md5 items st = record st {
    flushed = st.flushed ++ (filename, md5, items) ∷ [];
  }

  -- The end of CommitByKey, on what PopAll gave.
  abbrev pub commit_popped : List ℕ → List ℕ → List (GraphItem V) × GraphItemMap V → Disk V → Disk V
  commit_popped filename md5 ([], m) st = record st { graph_items = m }
  commit_popped filename md5 (x ∷ items, m) st =
      flush_file filename md5 (x ∷ items) (record st { graph_items = m })

  -- CommitByKey behind SplitRrdCacheKey: a key that is not taken apart is passed over.
  abbrev pub commit_split : Settings V → String → Run (List ℕ × List ℕ × ℤ) → Disk V → Run (Disk V)
  commit_split cfg key panic st = panic
  commit_split cfg key err st = ok st
  commit_split cfg key (ok (md5, ds_type, step)) st = do
    filename ← rrd_file_name cfg.storage md5 ds_type step
    r ← Table.pop_all key st.graph_items
    ok (commit_popped filename md5 r st)

  unfoldable pub commit_by_key : Settings V → String → Disk V → Run (Disk V)
  commit_by_key cfg key st = commit_split cfg key (split_rrd_cache_key (codes key)) st

  abbrev pub pull_first : Settings V → String → Option (GraphItem V) → Disk V → Disk V
  pull_first cfg key none st = st
  pull_first cfg key (some item) st = elim (cfg.node item) [
    | none ↦ st
    | some node ↦ record st { pulled = st.pulled ++ (node, key) ∷ [] }
  ]

  unfoldable pub pull_by_key : Settings V → String → Disk V → Run (Disk V)
  pull_by_key cfg key st = do item ← Table.first key st.graph_items; ok (pull_first cfg key item st)

  -- The oldest item came before the deadline.
  abbrev pub overdue : ℤ → Option (GraphItem V) → Bool
  overdue now none = false
  overdue now (some back) = leb_ℤ back.timestamp (sub64 now flush_max_wait)

  unfoldable pub should_flush : ℤ → String → Disk V → Run Bool
  should_flush now key st = do
    cnt ← Table.item_cnt key st.graph_items
    if leb flush_min_count cnt
        then ok true
        else do back ← Table.back key st.graph_items; ok (overdue now back)

  -- `force || shouldFlush(key)`.
  abbrev pub commit_if : Settings V → String → Bool → Disk V → Run (Disk V)
  commit_if cfg key false st = ok st
  commit_if cfg key true st = commit_by_key cfg key st

  -- One key of FlushRRD; the mark of a timeout is left out.
  unfoldable pub flush_key : Settings V → ℤ → Bool → String → Disk V → Run (Disk V)
  unfolding commit_by_key pull_by_key should_flush
  flush_key cfg now force key st = do
    flag ← flag_or_zero (Table.get_flag key st.graph_items)
    if not force && (cfg.migrating && flag % 2 == 1) then pull_by_key cfg key st else do
      wanted ← if force then ok true else should_flush now key st
      commit_if cfg key wanted st

  unfoldable pub flush_keys : Settings V → ℤ → Bool → List String → Disk V → Run (Disk V)
  unfolding flush_key
  flush_keys cfg now force [] st = ok st
  flush_keys cfg now force (key ∷ keys) st = do
    st' ← flush_key cfg now force key st
    flush_keys cfg now force keys st'

  unfoldable pub flush_rrd : Settings V → ℤ → ℕ → Bool → Disk V → Run (Disk V)
  unfolding flush_keys
  flush_rrd cfg now idx force st = do
    keys ← Table.keys_by_index idx st.graph_items
    flush_keys cfg now force keys st

  -- The loop of FlushAll from the index i on; the division by n = Size / 10 panics where n is 0.
  unfoldable pub flush_loop : Settings V → ℤ → Bool → ℕ → ℕ → ℕ → Disk V → Run (Disk V)
  unfolding flush_rrd
  flush_loop cfg now force n zero i st = ok st
  flush_loop cfg now force n (suc left) i st = do
    st' ← flush_rrd cfg now i force st
    if n == 0 then panic else flush_loop cfg now force n left (suc i) st'

  unfoldable pub flush_all : Settings V → ℤ → Bool → Disk V → Run (Disk V)
  unfolding flush_loop
  flush_all cfg now force st =
      flush_loop cfg now force (st.graph_items.size / 10) st.graph_items.size 0 st

  -- The ticks of syncDisk, at the times that `now` gives; Size is not 0.
  unfoldable pub sync_disk : Settings V → (ℕ → ℤ) → ℕ → ℕ → Disk V → Run (Disk V)
  unfolding flush_rrd
  sync_disk cfg now zero idx st = ok st
  sync_disk cfg now (suc ticks) idx st = do
    st' ← flush_rrd cfg (now ticks) (idx % st.graph_items.size) false st
    sync_disk cfg now ticks (suc (idx % st.graph_items.size)) st'
