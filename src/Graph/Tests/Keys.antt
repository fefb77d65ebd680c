-- ===== src/Graph/Tests/Keys.antt =====
-- The theorems on keys, workers, lists and the index, applied.
use ref_falcon.Prelude.{◌≡◌, true, [], ◌∷◌, none, ok, Returns, arith}
use ref_falcon.Prelude.Int.{ℤ, pos}
use ref_falcon.Prelude.Text.{codes, lookup}
use ref_falcon.Transfer.Types.{GraphItem}
use ref_falcon.Graph.Keys.{form_rrd_cache_key, split_rrd_cache_key, get_index}
use ref_falcon.Graph.Keys.RoundTrip.{split_rrd_cache_key-form}
use ref_falcon.Graph.Keys.Worker.{IsWorker, get_index-IsWorker}
use ref_falcon.Graph.Index.{Indices, update_index_incr}
use ref_falcon.Graph.Index.Moved.{settled, update_index_incr_lem}

split_rrd_cache_key-form_example :
    split_rrd_cache_key (codes (form_rrd_cache_key "9e" "GAUGE" (pos 60)))
    ≡ ok (codes "9e", codes "GAUGE", pos 60)
split_rrd_cache_key-form_example =
    split_rrd_cache_key-form "9e" "GAUGE" (pos 60) (λ e. omega arith, (λ e. omega arith, tt))
      (
        λ e. omega arith,
        (λ e. omega arith, (λ e. omega arith, (λ e. omega arith, (λ e. omega arith, tt)))),
      )
      (omega arith, omega arith)

get_index-IsWorker_example : Returns (IsWorker 4) (get_index (pos 4) (pos 2) (codes "9e107d"))
get_index-IsWorker_example = get_index-IsWorker 3 2 (codes "9e107d") (λ e. omega arith)

abbrev item : GraphItem ℤ
item = record {
  endpoint = "host";
  metric = "load";
  tags = [];
  value = pos 3;
  timestamp = pos 120;
  ds_type = "GAUGE";
  step = pos 60;
  heartbeat = pos 120;
  min = "U";
  max = "U";
}

abbrev waiting_index : Indices ℤ
waiting_index = record {
  indexed_item_cache = [];
  un_indexed_item_cache = ("9e", record { uuid = "u"; item = item }) ∷ [];
}

update_index_incr_lem_example :
    (lookup "9e" (update_index_incr true (λ i. true) waiting_index).1.un_indexed_item_cache ≡ none)
    × (lookup "9e" (update_index_incr true (λ i. true) waiting_index).1.indexed_item_cache
        ≡ settled
            (λ i. true)
            (lookup "9e" waiting_index.un_indexed_item_cache)
            (lookup "9e" waiting_index.indexed_item_cache))
update_index_incr_lem_example = update_index_incr_lem (λ i. true) waiting_index "9e"
