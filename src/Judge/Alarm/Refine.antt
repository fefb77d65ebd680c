-- ===== src/Judge/Alarm/Refine.antt =====
-- `sendEventIfNeed` carries out what the machine decides.
use ref_falcon.Prelude.{
  ◌≡◌, refl, sym, ap, ◌∙◌, inl, inr, Bool, true, false, List, Option, none, some, arith, ok,
  Bool-cases,
}
use ref_falcon.Prelude.Int.{ℤ}
use ref_falcon.Prelude.Text.{lookup}
use ref_falcon.Judge.Types.{HistoryData, Event}
use ref_falcon.Judge.Alarm.{
  Env, Alarms, is_listed, last?, first_alarm, next_alarm, problem_status, triggered_alarm, recovery,
  send_event_if_need,
}
use ref_falcon.Judge.Alarm.Phase.{
  Phase, quiet, firing, alert, Limits, decide, phase, AllKnown, carry_out,
}

module _ {V : Type 0} (env : Env V) where
  abbrev pub limits : ℤ → ℤ → HistoryData V → Event V → Limits
  limits max_step now oldest event = record {
    ignored = is_listed (env.metric event) env.ignore_self_metrics;
    max_step = max_step;
    min_interval = env.min_interval;
    now = now;
    oldest = oldest.timestamp;
  }

  next_alarm_lem :
      (vs : List (HistoryData V)) (now : ℤ) (event last : Event V) (max_step : ℤ) (st : Alarms V)
      (oldest : HistoryData V)
      → last? vs ≡ some oldest
      → is_listed (env.metric event) env.ignore_self_metrics ≡ false
      → (self : Bool)
      → next_alarm env vs now (record event { status = problem_status env event }) max_step last st
        ≡ ok (
            carry_out env event
              (decide
                (limits max_step now oldest event)
                true
                (firing self last.current_step last.event_time))
              st)
  unfolding next_alarm
  next_alarm_lem vs now event last max_step st oldest h n self = ground arith

  first_alarm_lem :
      (event : Event V) (max_step now : ℤ) (oldest : HistoryData V) (st : Alarms V)
      → is_listed (env.metric event) env.ignore_self_metrics ≡ false
      → first_alarm env (record event { status = problem_status env event }) max_step st
        ≡ carry_out env event (decide (limits max_step now oldest event) true quiet) st
  unfolding first_alarm
  first_alarm_lem event max_step now oldest st n = ground arith

  recovery_lem :
      (c : Limits) (event : Event V) (last : Option (Event V)) (st : Alarms V)
      → AllKnown last
      → recovery env event last st ≡ ok (carry_out env event (decide c false (phase last)) st)
  unfolding recovery
  recovery_lem c event none st k = refl
  recovery_lem c event (some l) st (inl e) = rw e
  recovery_lem c event (some l) st (inr (inl e)) = rw e
  recovery_lem c event (some l) st (inr (inr (inl e))) = rw e
  recovery_lem c event (some l) st (inr (inr (inr e))) = rw e

  triggered_alarm_lem :
      (vs : List (HistoryData V)) (now : ℤ) (event : Event V) (max_step : ℤ)
      (last : Option (Event V)) (st : Alarms V) (oldest : HistoryData V)
      → last? vs ≡ some oldest
      → is_listed (env.metric event) env.ignore_self_metrics ≡ false
      → AllKnown last
      → triggered_alarm env vs now
          (record event { status = problem_status env event })
          max_step
          last
          st
        ≡ ok (carry_out env event (decide (limits max_step now oldest event) true (phase last)) st)
  unfolding triggered_alarm
  triggered_alarm_lem vs now event max_step none st oldest h n k =
      ap ok (first_alarm_lem event max_step now oldest st n)
  triggered_alarm_lem vs now event max_step (some l) st oldest h n (inl e) =
      rw e (next_alarm_lem vs now event l max_step st oldest h n false)
  triggered_alarm_lem vs now event max_step (some l) st oldest h n (inr (inl e)) =
      rw e (next_alarm_lem vs now event l max_step st oldest h n true)
  triggered_alarm_lem vs now event max_step (some l) st oldest h n (inr (inr (inl e))) =
      rw e (ap ok (first_alarm_lem event max_step now oldest st n))
  triggered_alarm_lem vs now event max_step (some l) st oldest h n (inr (inr (inr e))) =
      rw e (ap ok (first_alarm_lem event max_step now oldest st n))

  ignored_lem : (c : Limits) (ph : Phase) → c.ignored ≡ true → decide c true ph ≡ alert
  ignored_lem c quiet h = rw h
  ignored_lem c (firing self step since) h = rw h

  send_skipped :
      (vs : List (HistoryData V)) (now : ℤ) (event : Event V) (max_step : ℤ) (st : Alarms V)
      → is_listed (env.metric event) env.ignore_self_metrics ≡ true
      → send_event_if_need env vs true now event max_step st ≡ ok (carry_out env event alert st)
  unfolding send_event_if_need
  send_skipped vs now event max_step st skip = rw skip

  send_heeded :
      (vs : List (HistoryData V)) (now : ℤ) (event : Event V) (max_step : ℤ) (st : Alarms V)
      → is_listed (env.metric event) env.ignore_self_metrics ≡ false
      → send_event_if_need env vs true now event max_step st
        ≡ triggered_alarm env vs now
            (record event { status = problem_status env event })
            max_step
            (lookup event.id st.last_events)
            st
  unfolding send_event_if_need
  send_heeded vs now event max_step st heed = rw heed

  -- On a history with a last point, and with a last event that has a known status if there is one,
  -- `sendEventIfNeed` does what the machine decides in the phase of that last event.
  pub send_event_if_need_lem :
      (vs : List (HistoryData V)) (is_triggered : Bool) (now : ℤ) (event : Event V) (max_step : ℤ)
      (st : Alarms V) (oldest : HistoryData V)
      → last? vs ≡ some oldest
      → AllKnown (lookup event.id st.last_events)
      → send_event_if_need env vs is_triggered now event max_step st
        ≡ ok (
            carry_out env event
              (decide
                (limits max_step now oldest event)
                is_triggered
                (phase (lookup event.id st.last_events)))
              st)
  unfolding send_event_if_need
  send_event_if_need_lem vs false now event max_step st oldest h k =
      recovery_lem (limits max_step now oldest event) event (lookup event.id st.last_events) st k
  send_event_if_need_lem vs true now event max_step st oldest h k =
      elim (Bool-cases (is_listed (env.metric event) env.ignore_self_metrics)) [
        | inl skip ↦
            send_skipped vs now event max_step st skip
            ∙ ap (λ n. ok (carry_out env event n st))
                (sym (
                  ignored_lem (limits max_step now oldest event)
                    (phase (lookup event.id st.last_events)) skip))
        | inr heed ↦
            send_heeded vs now event max_step st heed
            ∙ triggered_alarm_lem vs now event max_step (lookup event.id st.last_events) st oldest h
                heed k
      ]
