-- ===== src/Judge/Tests/Store.antt =====
-- The theorems on the maps of windows and rules, applied to small maps.
use ref_falcon.Prelude.{◌≡◌, refl, inl, List, [], ◌∷◌, Returns}
use ref_falcon.Prelude.Int.{ℤ, pos}
use ref_falcon.Prelude.Text.{lookup}
use ref_falcon.Float64.{whole}
use ref_falcon.Judge.Alarm.{Env}
use ref_falcon.Judge.Store.{Memory, send, init_history_big_map, prefixes, pairs}
use ref_falcon.Judge.Store.Send.{GoodItem, Healthy, send-Healthy, init_history_big_map-Healthy}
use ref_falcon.Judge.Sync.{rebuild_strategy_map, rebuild_expression_map, HostStrategy}
use ref_falcon.Judge.Sync.Maps.{all_of, under, host_pairs, expression_pairs, rebuild_lem}
use ref_falcon.Judge.Tests.{flat, newest}
use ref_falcon.Judge.Tests.Events.{env}
use ref_falcon.Judge.Tests.Rules.{rule, rules, rules-good, cap}

abbrev keyed : Env ℤ
keyed = record env { primary_key = λ i. "00ab" }

good : GoodItem keyed cap [] rules 10 newest
good = record {
  typed = (b'G', refl);
  strategies = tt;
  expressions = rules-good;
  prefix = "00";
  begins = refl;
  hex = unfold prefixes pairs in inl refl;
}

abbrev start : Memory ℤ
start = record { big = init_history_big_map; alarms = record { last_events = []; pushed = [] } }

send-Healthy_example :
    Returns
      (Healthy keyed cap [] rules 10)
      (send keyed [] rules (("cpu.busy", "cpu.busy") ∷ []) (newest ∷ []) (pos 11) (pos 200) start)
send-Healthy_example =
    send-Healthy keyed cap [] rules 10 (("cpu.busy", "cpu.busy") ∷ []) (newest ∷ []) (pos 200) start
      (good, tt) (init_history_big_map-Healthy keyed cap [] rules 10)

abbrev hosts : List (HostStrategy ℤ)
hosts = ("host", []) ∷ []

rebuild_lem_example :
    (all_of (lookup "cpu.busy/core=0" (rebuild_strategy_map hosts))
      ≡ under "cpu.busy/core=0" (host_pairs hosts))
    × (all_of (lookup "cpu.busy/core=0" (rebuild_expression_map (rule ∷ [])))
        ≡ under "cpu.busy/core=0" (expression_pairs (rule ∷ [])))
rebuild_lem_example = rebuild_lem "cpu.busy/core=0" hosts (rule ∷ [])
