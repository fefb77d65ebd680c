-- ===== src/Judge/Tests/Events.antt =====
-- The theorems on sendEventIfNeed, applied to a rule that allows two alarms.
use ref_falcon.Prelude.{
  ◌≡◌, ◌≢◌, refl, inl, Bool, true, false, List, [], ◌∷◌, none, some, arith, ok, Returns,
}
use ref_falcon.Prelude.Int.{ℤ, pos}
use ref_falcon.Prelude.Text.{String, lookup}
use ref_falcon.Float64.{whole}
use ref_falcon.Judge.Types.{HistoryData, Event}
use ref_falcon.Judge.Alarm.{Env, Alarms, send_event_if_need, last?}
use ref_falcon.Judge.Alarm.Phase.{decide, phase, carry_out}
use ref_falcon.Judge.Alarm.Refine.{limits, send_event_if_need_lem}
use ref_falcon.Judge.Alarm.Capped.{Sound, Bounded, Call, run, run-Sound}
use ref_falcon.Judge.Alarm.Edges.{Follows, send_event_if_need-Edge}

abbrev pub env : Env ℤ
env = record {
  ignore_self_metrics = [];
  problem_self_metrics = [];
  min_interval = pos 60;
  metric = λ e. "cpu.busy";
  priority = λ e. pos 0;
  marshal = λ e. some e.status;
  queue_name = λ p. "event:p0";
  primary_key = λ i. "key";
}

abbrev points : List (HistoryData ℤ)
points =
    record { timestamp = pos 180; value = pos 95 }
    ∷ record { timestamp = pos 120; value = pos 97 }
    ∷ []

abbrev oldest : HistoryData ℤ
oldest = record { timestamp = pos 120; value = pos 97 }

abbrev event : Event ℤ
event = record {
  id = "s_1_key";
  strategy = none;
  expression = none;
  status = "";
  endpoint = "host";
  left_value = pos 95;
  current_step = pos 0;
  event_time = pos 180;
  pushed_tags = [];
}

-- One alarm was told, at time 60.
abbrev after_one : Alarms ℤ
after_one = record {
  last_events =
      ("s_1_key", record event { status = "PROBLEM"; current_step = pos 1; event_time = pos 60 })
      ∷ [];
  pushed = [];
}

abbrev empty : Alarms ℤ
empty = record { last_events = []; pushed = [] }

last_point : last? points ≡ some oldest
unfolding last?
last_point = refl

found :
    lookup event.id after_one.last_events
    ≡ some (record event { status = "PROBLEM"; current_step = pos 1; event_time = pos 60 })
unfolding lookup
found = refl

abbrev cap : String → ℤ
cap k = pos 2

empty-Sound : Sound env cap empty
unfolding lookup
empty-Sound k = tt

send_event_if_need_lem_example :
    send_event_if_need env points true (pos 200) event (pos 2) after_one
    ≡ ok (
        carry_out env event
          (decide
            (limits env (pos 2) (pos 200) oldest event)
            true
            (phase (lookup event.id after_one.last_events)))
          after_one)
send_event_if_need_lem_example =
    send_event_if_need_lem env points true (pos 200) event (pos 2) after_one oldest last_point
      (rw found (inl refl))

abbrev call : Bool → ℤ → Call env
call b now = record { vs = points; is_triggered = b; now = now; event = event }

points-nonempty : points ≢ []
points-nonempty e = cc

run-Sound_example :
    Returns (Bounded env cap) (run env cap (call true (pos 200) ∷ call false (pos 300) ∷ []) empty)
unfolding lookup
run-Sound_example =
    run-Sound env cap (call true (pos 200) ∷ call false (pos 300) ∷ []) empty
      (
        (points-nonempty, (omega arith, omega arith)),
        ((points-nonempty, (omega arith, omega arith)), tt),
      )
      (empty-Sound, λ k zero_cap. refl)

send_event_if_need-Edge_example :
    Returns
      (Follows env (limits env (pos 2) (pos 200) oldest event) true event empty)
      (send_event_if_need env points true (pos 200) event (pos 2) empty)
send_event_if_need-Edge_example =
    send_event_if_need-Edge env cap points true (pos 200) event (pos 2) empty oldest last_point
      empty-Sound
