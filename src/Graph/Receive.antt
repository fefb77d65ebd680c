-- ===== src/Graph/Receive.antt =====
-- graph/api/graph.go: `handleItems`, which puts what arrives into the store, the index and the
-- history.
pub mod Rising
use ref_falcon.Prelude.{
  ℕ, Bool, false, not, List, [], ◌∷◌, Option, none, some, if◌then◌else◌, Run, ok, ◌>>=◌,
}
use ref_falcon.Prelude.Int.{ℤ, leb_ℤ}
use ref_falcon.Prelude.Text.{String, codes}
use ref_falcon.Transfer.Types.{GraphItem}
use ref_falcon.Graph.Keys.{form_rrd_cache_key, rrd_file_name, is_valid_string}
use ref_falcon.Graph.Table
use ref_falcon.Graph.Table.{GraphItemMap}
use ref_falcon.Graph.History.{Histories, add_history_item}
use ref_falcon.Graph.Index.{Outside, Indices, receive_item}

pub record Memory {V : Type 0} (h : Histories V) : Type 0 where
  pub graph_items : GraphItemMap V
  pub indices : Indices V
  pub history_cache : List (String × h.Queue)

-- Whether the file of the item is there. The checksum is an MD5 in hex, so that it has two bytes
-- and there is a name.
abbrev pub has_name : (List ℕ → Bool) → Run (List ℕ) → Bool
has_name exists (ok file) = exists file
has_name exists _ = false

module _ {V : Type 0} where
  -- An item that is not newer than the first of its key is dropped.
  abbrev pub is_old : GraphItem V → Option (GraphItem V) → Bool
  is_old item none = false
  is_old item (some first) = leb_ℤ item.timestamp first.timestamp

  abbrev pub key_of : Outside V → GraphItem V → String
  key_of o item = form_rrd_cache_key (o.checksum item) item.ds_type item.step

  abbrev pub on_disk : Outside V → GraphItem V → Bool
  on_disk o item =
      has_name o.is_rrd_file_exist
        (rrd_file_name o.storage (codes (o.checksum item)) (codes item.ds_type) item.step)

module _ {V : Type 0} (h : Histories V) (o : Outside V) where
  -- An item with a valid endpoint and a valid counter.
  unfoldable pub store_item : GraphItem V → Memory h → Run (Memory h)
  store_item item st = do
    first ← Table.first (key_of o item) st.graph_items
    if is_old item first then ok st else do
      graph_items ←
          Table.push_front (key_of o item) item o.migrating (on_disk o item) st.graph_items
      indices ← receive_item o item (o.checksum item) st.indices
      ok (record {
        graph_items = graph_items;
        indices = indices;
        history_cache = add_history_item h (o.checksum item) item st.history_cache;
      })

  -- The body of the loop; a nil item is passed over. The counts for statistics are left out.
  unfoldable pub handle_item : Option (GraphItem V) → Memory h → Run (Memory h)
  unfolding store_item
  handle_item none st = ok st
  handle_item (some item) st =
      if not (is_valid_string o.is_print (codes item.endpoint))
      then ok st
      else if not (is_valid_string o.is_print (codes (o.counter item)))
      then ok st
      else store_item item st

  unfoldable pub handle_items : List (Option (GraphItem V)) → Memory h → Run (Memory h)
  unfolding handle_item
  handle_items [] st = ok st
  handle_items (item ∷ items) st = do st' ← handle_item item st; handle_items items st'
