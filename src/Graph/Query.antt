-- ===== src/Graph/Query.antt =====
-- graph/api/graph.go: `Query`. The points of a counter come from its file, and the newest of them
-- from the items that wait in memory. NaN, the files, the remote node and the clock are outside.
pub mod Merge
pub mod Points
pub mod Reply
pub mod Rows
pub mod Filled
pub mod Merged
pub mod Noted
pub mod Replied
pub mod Complete
use ref_falcon.Prelude.{
  ℕ, zero, suc, ◌+◌, ◌/◌, ◌%◌, Bool, not, ◌&&◌, List, [], ◌∷◌, Option, none, some, if◌then◌else◌,
  ltb, ◌==◌, Run, ok, panic, ◌>>=◌,
}
use ref_falcon.Prelude.Int.{ℤ, pos, pos_part, ltb_ℤ, eqb_ℤ, add64, sub64, wrap64, ◌*ℤ◌}
use ref_falcon.Prelude.Text.{String, codes, str_eq}
use ref_falcon.Float64.{Float64}
use ref_falcon.Nodata.Judging.{rem}
use ref_falcon.Transfer.Types.{GraphItem}
use ref_falcon.Graph.Keys.{form_rrd_cache_key, rrd_file_name}
use ref_falcon.Graph.Table
use ref_falcon.Graph.Table.{GraphItemMap}
use ref_falcon.Graph.Query.Merge.{RrdData, Floats, cache_items, merge, fmt_result}

pub record GraphQueryParam : Type 0 where
  pub start : ℤ
  pub end : ℤ
  pub consol_fun : String
  pub endpoint : String
  pub counter : String

-- The type and the step are empty when the counter is not found.
pub record GraphQueryResponse (V : Type 0) : Type 0 where
  pub values : List (RrdData V)
  pub ds_type : String
  pub step : ℤ

-- The configuration and the code outside.
pub record Sources (V : Type 0) : Type 0 where
  pub storage : List ℕ
  pub migrating : Bool
  pub get_type_and_step : String → String → Option (String × ℤ)
  pub md5 : String → String → String
  pub fetch : List ℕ → String → String → ℤ → ℤ → ℤ → List (RrdData V)
  pub remote : GraphQueryParam → List (RrdData V)
  pub now : ℤ

-- `RRA1PointCnt`.
abbrev pub rra1_point_cnt : ℤ
rra1_point_cnt = pos 720

-- `a / b` of Go on a dividend that is not negative and a positive divisor.
abbrev pub quotient : ℤ → ℤ → ℕ
quotient a b = pos_part a / pos_part b

abbrev pub start_of : ℤ → ℤ → ℤ
start_of step ts = sub64 ts (rem ts step)

module _ {V : Type 0} ⦃fl : Float64 V⦄ (fs : Floats V) (src : Sources V) where
  -- Consolidated points, and points with nothing in memory, are not merged.
  unfoldable pub merge_points :
      String → ℤ → ℤ → ℤ → List (RrdData V) → List (GraphItem V) → List (RrdData V)
  merge_points ds_type step start_ts end_ts datas [] = datas
  merge_points ds_type step start_ts end_ts datas (x ∷ items) =
      if ltb_ℤ start_ts (sub64 (start_of step src.now) (wrap64 (rra1_point_cnt *ℤ step)))
      then datas
      else fmt_result fs
          (quotient (sub64 end_ts start_ts) step + (if str_eq ds_type "GAUGE" then 1 else 0)) step
          start_ts
          (merge fs step start_ts end_ts datas
            (cache_items fs ds_type step start_ts end_ts x items))

  unfoldable pub answer_points :
      GraphQueryParam → String → ℤ → ℤ → ℤ → GraphItemMap V → Run (GraphQueryResponse V)
  unfolding merge_points
  answer_points param ds_type step start_ts end_ts m = do
    let md5 = src.md5 param.endpoint param.counter
    filename ← rrd_file_name src.storage (codes md5) (codes ds_type) step
    r ← Table.fetch_all (form_rrd_cache_key md5 ds_type step) m
    let datas =
        if src.migrating && r.1 % 2 == 1
        then src.remote param
        else src.fetch filename md5 param.consol_fun (sub64 start_ts step) end_ts step
    ok (record {
      values = merge_points ds_type step start_ts end_ts datas r.0;
      ds_type = ds_type;
      step = step;
    })

  -- With both ends of the time moved to starts of steps; the second is one step behind its own.
  abbrev pub query_between :
      GraphQueryParam → String → ℤ → ℤ → ℤ → GraphItemMap V → Run (GraphQueryResponse V)
  query_between param ds_type step start_ts end_ts m =
      if ltb_ℤ (sub64 (sub64 end_ts start_ts) step) (pos 1)
      then ok (record { values = []; ds_type = ds_type; step = step })
      else answer_points param ds_type step start_ts end_ts m

  -- A step of 0 is a division by zero.
  abbrev pub query_known :
      GraphQueryParam → Option (String × ℤ) → GraphItemMap V → Run (GraphQueryResponse V)
  query_known param none m = ok (record { values = []; ds_type = ""; step = pos 0 })
  query_known param (some (ds_type, step)) m =
      if eqb_ℤ step (pos 0)
      then panic
      else query_between param ds_type step (start_of step param.start)
          (add64 (start_of step param.end) step) m

  unfoldable pub query : GraphQueryParam → GraphItemMap V → Run (GraphQueryResponse V)
  query param m = query_known param (src.get_type_and_step param.endpoint param.counter) m
