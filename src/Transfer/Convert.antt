-- ===== src/Transfer/Convert.antt =====
-- transfer/sender/sender.go: the conversions. MinStep is a parameter; the constants of transfer/g
-- are "GAUGE", "COUNTER" and "DERIVE".
pub mod Aligned
use ref_falcon.Prelude.{[], if◌then◌else◌, Run, ok, err}
use ref_falcon.Prelude.Int.{ℤ, pos, ltb_ℤ, sub64, wrap64, ◌*ℤ◌}
use ref_falcon.Prelude.Text.{String, str_eq, insert}
use ref_falcon.Judge.Types.{JudgeItem}
use ref_falcon.Judge.Rules.{overlay}
use ref_falcon.Nodata.Judging.{rem}
use ref_falcon.Transfer.Types.{MetaData, GraphItem, TsdbItem}

-- `alignTs`; the callers give no period below MinStep, which Start makes at least 1.
unfoldable pub align_ts : ℤ → ℤ → ℤ
align_ts ts period = sub64 ts (rem ts period)

-- `if step < MinStep { step = MinStep }`.
abbrev pub at_least : ℤ → ℤ → ℤ
at_least min_step step = if ltb_ℤ step min_step then min_step else step

module _ {V : Type 0} where
  -- The item that Push2JudgeSendQueue makes.
  unfoldable pub convert_2_judge_item : ℤ → MetaData V → JudgeItem V
  unfolding align_ts
  convert_2_judge_item min_step item = record {
    endpoint = item.endpoint;
    metric = item.metric;
    value = item.value;
    timestamp = align_ts item.timestamp (at_least min_step item.step);
    judge_type = item.counter_type;
    tags = item.tags;
  }

  -- The item with the given type and bounds.
  abbrev pub graph_item : ℤ → MetaData V → String → String → String → GraphItem V
  graph_item min_step d ds_type min max =
      let step = at_least min_step d.step in
      record {
        endpoint = d.endpoint;
        metric = d.metric;
        tags = d.tags;
        value = d.value;
        timestamp = align_ts d.timestamp step;
        ds_type = ds_type;
        step = step;
        heartbeat = wrap64 (step *ℤ pos 2);
        min = min;
        max = max;
      }

  unfoldable pub convert_2_graph_item : ℤ → MetaData V → Run (GraphItem V)
  unfolding align_ts
  convert_2_graph_item min_step d =
      if str_eq d.counter_type "GAUGE"
      then ok (graph_item min_step d d.counter_type "U" "U")
      else if str_eq d.counter_type "COUNTER"
      then ok (graph_item min_step d "DERIVE" "0" "U")
      else if str_eq d.counter_type "DERIVE"
      then ok (graph_item min_step d "DERIVE" "0" "U")
      else err

  unfoldable pub convert_2_tsdb_item : MetaData V → TsdbItem V
  unfolding overlay
  convert_2_tsdb_item d = record {
    metric = d.metric;
    tags = insert "endpoint" d.endpoint (overlay d.tags []);
    value = d.value;
    timestamp = d.timestamp;
  }
