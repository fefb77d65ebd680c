-- ===== src/Aggregator/Tests.antt =====
-- Runs of the aggregator at concrete inputs, and its theorem applied to one item.
use ref_falcon.Prelude.{
  ◌≡◌, refl, ℕ, true, false, List, [], ◌∷◌, Option, none, some, Run, ok, Returns,
}
use ref_falcon.Prelude.Int.{ℤ, pos, wrap64, ◌*ℤ◌, ◌-ℤ◌, ◌+ℤ◌, sub64}
use ref_falcon.Prelude.Text.{String, codes, lookup}
use ref_falcon.Float64.{whole}
use ref_falcon.Aggregator.Expression.{
  clean_param, expression_valid, parse, need_compute, operators_valid,
}
use ref_falcon.Judge.Parse.{bytes_eq}
use ref_falcon.Aggregator.Run.{Cluster, Api, LastPoint, Pushed, worker_run}
use ref_falcon.Aggregator.Expression.Rendered.{expression, parse-written}
use ref_falcon.Aggregator.Run.Average.{Pushes, worker_run-Average}
use ref_falcon.Aggregator.Workers.{update_items}
use ref_falcon.Aggregator.Workers.Updated.{updated, in_use, update_items_lem}

abbrev cluster : Cluster
cluster = record {
  group_id = pos 1;
  numerator = codes " $(busy) + $(idle)";
  denominator = codes "$#";
  endpoint = "web";
  metric = "cpu";
  tags = "";
  ds_type = "GAUGE";
  step = pos 60;
}

abbrev point : List ℕ → List ℕ → ℤ → LastPoint ℤ
point endpoint counter value = record {
  endpoint = endpoint;
  counter = counter;
  timestamp = pos 1000;
  value = value;
}

-- Two hosts, of which the second one lacks a counter.
abbrev api : Api ℤ
api = record {
  hostnames_by_id = λ i. some (codes "a" ∷ codes "b" ∷ []);
  query_last_points = λ hs cs. some (
      point (codes "a") (codes "busy") (pos 5)
      ∷ point (codes "a") (codes "idle") (pos 3)
      ∷ point (codes "b") (codes "busy") (pos 9)
      ∷ []);
  parse_float = λ t. (pos 0, false);
}

abbrev pushed_value : Run (Option (Pushed ℤ)) → Option ℤ
pushed_value (ok (some p)) = some p.value
pushed_value _ = none

valid_sum : expression_valid (clean_param cluster.numerator) ≡ true
unfolding expression_valid clean_param bytes_eq
valid_sum = refl

average : pushed_value (worker_run api (pos 1050) cluster) ≡ some (pos 8)
unfolding worker_run expression_valid clean_param bytes_eq need_compute parse operators_valid sub64
    wrap64 ◌-ℤ◌ ◌*ℤ◌ ◌+ℤ◌
average = refl

update_items_lem_example :
    Returns
      (λ ws'.
        (k : String)
        → lookup k ws'
          ≡ updated (lookup k (("1", cluster) ∷ [])) (in_use (lookup k (("1", cluster) ∷ [])) none))
      (update_items (some (("1", cluster) ∷ [])) [])
    × (update_items none [] ≡ ok [])
unfolding lookup wrap64 ◌*ℤ◌
update_items_lem_example = update_items_lem (("1", cluster) ∷ []) [] (refl, tt) (ticks, tt)
  where
    ticks : wrap64 (pos 60 *ℤ pos 1000000000) ≡ pos 60 *ℤ pos 1000000000
    ticks = refl

worker_run-Average_example :
    Returns (Pushes api (pos 1050) cluster) (worker_run api (pos 1050) cluster)
worker_run-Average_example = worker_run-Average api (pos 1050) cluster

parse-written_example :
    parse (expression true (codes "busy") ((b'+', codes "idle") ∷ []) (codes ">80")) true
    ≡ ok (codes "busy" ∷ codes "idle" ∷ [], codes "+" ∷ [], codes ">80")
parse-written_example =
    parse-written true (codes "busy") ((b'+', codes "idle") ∷ []) (codes ">80")
      (refl, (refl, (refl, (refl, tt)))) (refl, (refl, (refl, (refl, (refl, tt)))), tt)
      (refl, (refl, (refl, tt)))
