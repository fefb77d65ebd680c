-- ===== src/Graph/Api.antt =====
-- graph/api/graph.go: GetRrd, Delete, Info, and the last value of a counter.
use ref_falcon.Prelude.{
  ℕ, not, ◌||◌, List, [], ◌∷◌, Option, none, some, if◌then◌else◌, Run, ok, ◌>>=◌,
}
use ref_falcon.Prelude.Int.{ℤ, pos, leb_ℤ, eqb_ℤ, sub64}
use ref_falcon.Prelude.Text.{String, codes, str_eq}
use ref_falcon.Float64.{Float64}
use ref_falcon.Judge.Parse.{slice}
use ref_falcon.Transfer.Types.{GraphItem}
use ref_falcon.Graph.Keys.{split_rrd_cache_key, rrd_file_name, file_name}
use ref_falcon.Graph.Table
use ref_falcon.Graph.Table.{GraphItemMap}
use ref_falcon.Graph.History.{Histories, get_last_item, get_all_items}
use ref_falcon.Graph.Index.{Outside, Indices, remove_item}
use ref_falcon.Graph.Flush.{Settings, Disk, commit_popped}
use ref_falcon.Graph.Query.Merge.{RrdData}

module _ {V : Type 0} where
  -- `read` is ReadFile, once what waits was handed to the workers; `none` is its error. The result
  -- has the name of the file and its body.
  unfoldable pub get_rrd :
      Settings V
      → (List ℕ → List ℕ → Option (List ℕ))
      → String
      → Disk V
      → Run ((List ℕ × Option (List ℕ)) × Disk V)
  get_rrd cfg read key st = do
    parts ← split_rrd_cache_key (codes key)
    filename ← rrd_file_name cfg.storage parts.0 parts.1 parts.2
    r ← Table.pop_all key st.graph_items
    ok ((filename, read filename parts.0), commit_popped filename parts.0 r st)

  -- `item_of` is the item that Delete makes of a parameter: `none` where its tags are invalid.
  unfoldable pub delete_params :
      {P : Type 0}
      → Outside V
      → (P → Option (GraphItem V))
      → List P
      → Indices V
      → GraphItemMap V
      → Run (List (List ℕ) × Indices V × GraphItemMap V)
  delete_params o item_of [] st m = ok ([], st, m)
  delete_params o item_of (param ∷ params) st m = elim (item_of param) [
    | none ↦ delete_params o item_of params st m
    | some item ↦ do
      r ← remove_item o item st m
      rest ← delete_params o item_of params r.1 r.2
      ok (r.0 ∷ rest.0, rest.1, rest.2)
  ]

-- `Info`: the type, the step and the file of a counter; `none` where the counter is not found.
unfoldable pub info : List ℕ → String → Option (String × ℤ) → Run (Option (String × ℤ × List ℕ))
info storage md5 none = ok none
info storage md5 (some (ds_type, step)) = do
  two ← slice (codes md5) (pos 0) (pos 2)
  ok (some (ds_type, step, file_name storage two (codes md5) (codes ds_type) step))

module _ {V : Type 0} ⦃fl : Float64 V⦄ (h : Histories V) where
  -- `NewRRDData(0, 0.0)`, which stands for no value.
  abbrev pub no_value : RrdData V
  no_value = record { timestamp = pos 0; value = fl.of_int (pos 0) }

  abbrev pub last_raw : Option (GraphItem V) → RrdData V
  last_raw none = no_value
  last_raw (some item) = record { timestamp = item.timestamp; value = item.value }

  unfoldable pub get_last_raw : String → List (String × h.Queue) → RrdData V
  get_last_raw md5 m = last_raw (get_last_item h md5 m)

  -- The rate between the two newest items, which are one step apart; a counter that went back
  -- counts as one that stood still.
  unfoldable pub last_rate : ℤ → List (GraphItem V) → RrdData V
  last_rate step (f0 ∷ f1 ∷ items) =
      let delta_ts = sub64 f0.timestamp f1.timestamp in
      let delta_v = fl.sub f0.value f1.value in
      let zero_v = fl.of_int (pos 0) in
      if not (eqb_ℤ delta_ts step) || leb_ℤ delta_ts (pos 0) then no_value else record {
        timestamp = f0.timestamp;
        value = fl.div (if fl.lt delta_v zero_v then zero_v else delta_v) (fl.of_int delta_ts);
      }
  last_rate step _ = no_value

  -- `found` is the result of GetTypeAndStep, and `md5` the checksum of "endpoint/counter".
  unfoldable pub get_last : Option (String × ℤ) → String → List (String × h.Queue) → RrdData V
  unfolding get_last_raw last_rate
  get_last none md5 m = no_value
  get_last (some (ds_type, step)) md5 m =
      if str_eq ds_type "GAUGE"
      then get_last_raw md5 m
      else if str_eq ds_type "COUNTER" || str_eq ds_type "DERIVE"
      then last_rate step (get_all_items h md5 m)
      else no_value
