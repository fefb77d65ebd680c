-- ===== src/Judge/Alarm/Capped.antt =====
-- What holds of the last events after any calls of `sendEventIfNeed`.
use ref_falcon.Prelude.{
  ◌≡◌, ◌≢◌, refl, sym, ◌⊎◌, inl, inr, subst, if◌then◌else◌, Bool, true, false, List, [], ◌∷◌,
  Option, none, some, arith, Run, ok, Returns, Returns-bind, Returns-both, ◌>>=◌, Bool-cases,
}
use ref_falcon.Prelude.Int.{ℤ, pos, ◌≤ℤ◌, ◌<ℤ◌, ◌+ℤ◌, add64, add64-id, IsInt64, int_laws}
use ref_falcon.Prelude.Text.{String, str_eq, eq_iff, lookup, insert, lookup-insert}
use ref_falcon.Judge.Types.{HistoryData, Event}
use ref_falcon.Judge.Alarm.{
  Env, Alarms, last?, send_event, send_event_without_save, problem_status, send_event_if_need,
}
use ref_falcon.Judge.Alarm.Phase.{
  Phase, quiet, firing, Notice, silent, alert, problem, recovered, Limits, decide, phase, Known,
  AllKnown, carry_out,
}
use ref_falcon.Judge.Alarm.Refine.{limits, send_event_if_need_lem}

add_one_step : (s m : ℤ) → pos 1 ≤ℤ s → s <ℤ m → IsInt64 m → add64 s (pos 1) ≡ s +ℤ pos 1
add_one_step s m h k b = add64-id s (pos 1) (omega int_laws)

-- The number of an alarm of a rule that allows m.
abbrev pub Capped : ℤ → ℤ → Type 0
Capped m s = (pos 1 ≤ℤ s) × ((s ≤ℤ pos 1) ⊎ (s ≤ℤ m))

abbrev Fine : ℤ → Notice → Type 0
Fine m (problem s) = Capped m s
Fine m silent = Unit {0}
Fine m alert = Unit {0}
Fine m (recovered self) = Unit {0}

abbrev Started : Phase → Type 0
Started quiet = Unit {0}
Started (firing self step since) = pos 1 ≤ℤ step

next-Capped : (s m : ℤ) → pos 1 ≤ℤ s → s <ℤ m → IsInt64 m → Capped m (add64 s (pos 1))
next-Capped s m h k b = rw (add_one_step s m h k b) (omega int_laws, inr (omega int_laws))

decide-Fine :
    (c : Limits) (is_triggered : Bool) (ph : Phase)
    → IsInt64 c.max_step
    → Started ph
    → Fine c.max_step (decide c is_triggered ph)
decide-Fine c false quiet b h = tt
decide-Fine c false (firing self step since) b h = tt
decide-Fine c true quiet b h = ground arith
decide-Fine c true (firing self step since) b h = ground (arith, next-Capped step c.max_step h)

module _ {V : Type 0} (env : Env V) where
  pub without_save-last_events :
      (event : Event V) (st : Alarms V)
      → (send_event_without_save env event st).last_events ≡ st.last_events
  unfolding send_event_without_save
  without_save-last_events event st = ground arith

  pub send_event-last_events :
      (event : Event V) (st : Alarms V)
      → (send_event env event st).last_events ≡ insert event.id event st.last_events
  unfolding send_event
  send_event-last_events event st = without_save-last_events event _

  -- What is remembered under a key of a rule that allows m alarms.
  abbrev pub Remembered : ℤ → Option (Event V) → Type 0
  Remembered m none = Unit {0}
  Remembered m (some l) = Known l × Capped m l.current_step

  -- Every last event has a known status and a number within the limit of its rule.
  abbrev pub Sound : (String → ℤ) → Alarms V → Type 0
  Sound cap st = (k : String) → Remembered (cap k) (lookup k st.last_events)

  send_event-Sound :
      (cap : String → ℤ) (event : Event V) (st : Alarms V)
      → Known event
      → Capped (cap event.id) event.current_step
      → Sound cap st
      → Sound cap (send_event env event st)
  send_event-Sound cap event st known capped sound k =
      rw (send_event-last_events event st, lookup-insert event.id k event st.last_events)
        (elim (Bool-cases (str_eq event.id k)) [
          | inl same ↦ rw (same, sym ((eq_iff event.id k).0 same)) (known, capped)
          | inr other ↦ rw other (sound k)
        ])

  pub problem_status-Known :
      (event : Event V)
      → (problem_status env event ≡ "PROBLEM") ⊎ (problem_status env event ≡ "DDALARM")
  unfolding problem_status
  problem_status-Known event = ground arith

  carry_out-Sound :
      (cap : String → ℤ) (event : Event V) (n : Notice) (st : Alarms V)
      → Fine (cap event.id) n
      → Sound cap st
      → Sound cap (carry_out env event n st)
  carry_out-Sound cap event silent st f sound = sound
  carry_out-Sound cap event alert st f sound =
      λ k. rw (without_save-last_events (record event { status = "DDALERT" }) st) (sound k)
  carry_out-Sound cap event (problem s) st f sound =
      send_event-Sound cap (record event { status = problem_status env event; current_step = s }) st
        (elim (problem_status-Known event) [ inl e ↦ inl e | inr e ↦ inr (inl e) ]) f sound
  carry_out-Sound cap event (recovered true) st f sound =
      send_event-Sound cap (record event { status = "DDOK"; current_step = pos 1 }) st
        (inr (inr (inr refl))) (omega arith, inl (omega arith)) sound
  carry_out-Sound cap event (recovered false) st f sound =
      send_event-Sound cap (record event { status = "OK"; current_step = pos 1 }) st
        (inr (inr (inl refl))) (omega arith, inl (omega arith)) sound

  pub Remembered-AllKnown : (m : ℤ) (last : Option (Event V)) → Remembered m last → AllKnown last
  Remembered-AllKnown m none r = tt
  Remembered-AllKnown m (some l) r = r.0

  Remembered-Started : (m : ℤ) (last : Option (Event V)) → Remembered m last → Started (phase last)
  Remembered-Started m none r = tt
  Remembered-Started m (some l) r = ground (arith, r.1.0)

  last?-nonempty : (vs : List (HistoryData V)) → vs ≢ [] → (d : HistoryData V) × (last? vs ≡ some d)
  unfolding last?
  last?-nonempty [] h = absurd (h refl)
  last?-nonempty (x ∷ []) h = (x, refl)
  last?-nonempty (x ∷ y ∷ l) h = last?-nonempty (y ∷ l) (λ e. cc)

  -- A call for a rule whose limit of alarms is fixed, on a history that is not empty, returns; and
  -- then every last event has a known status, and a number from 1 to the limit (or 1).
  pub send_event_if_need-Sound :
      (cap : String → ℤ) (vs : List (HistoryData V)) (is_triggered : Bool) (now : ℤ)
      (event : Event V) (st : Alarms V)
      → vs ≢ []
      → IsInt64 (cap event.id)
      → Sound cap st
      → Returns (Sound cap) (send_event_if_need env vs is_triggered now event (cap event.id) st)
  send_event_if_need-Sound cap vs is_triggered now event st h b sound =
      let (oldest, e) = last?-nonempty vs h in
      let m = cap event.id in
      let last = lookup event.id st.last_events in
      rw
        (send_event_if_need_lem env vs is_triggered now event m st oldest e
          (Remembered-AllKnown m last (sound event.id)))
        (carry_out-Sound cap event _ st
          (decide-Fine (limits env m now oldest event) is_triggered (phase last) b
            (Remembered-Started m last (sound event.id)))
          sound)

  -- A rule with a limit of 0 has no open alarm.
  abbrev pub Muted : (String → ℤ) → Alarms V → Type 0
  Muted cap st = (k : String) → cap k ≡ pos 0 → phase (lookup k st.last_events) ≡ quiet

  abbrev Quieted : Notice → Type 0
  Quieted silent = Unit {0}
  Quieted alert = Unit {0}
  Quieted (problem s) = ⊥
  Quieted (recovered self) = ⊥

  decide-Quieted :
      (c : Limits) (is_triggered : Bool) (ph : Phase)
      → c.max_step ≡ pos 0
      → ph ≡ quiet
      → Quieted (decide c is_triggered ph)
  decide-Quieted c false quiet m q = tt
  decide-Quieted c true quiet m q = elim (Bool-cases c.ignored) [
    | inl e ↦ rw e tt
    | inr e ↦ rw (e, m) tt
  ]
  decide-Quieted c is_triggered (firing self step since) m q = cc

  send_event-Muted :
      (cap : String → ℤ) (event : Event V) (st : Alarms V)
      → (cap event.id ≡ pos 0 → ⊥)
      → Muted cap st
      → Muted cap (send_event env event st)
  send_event-Muted cap event st open_rule muted k zero_cap =
      rw (send_event-last_events event st, lookup-insert event.id k event st.last_events)
        (elim (Bool-cases (str_eq event.id k)) [
          | inl same ↦
              absurd
                (open_rule (subst (λ x. cap x ≡ pos 0) (sym ((eq_iff event.id k).0 same)) zero_cap))
          | inr other ↦ rw other (muted k zero_cap)
        ])

  carry_out-Muted :
      (cap : String → ℤ) (event : Event V) (n : Notice) (st : Alarms V)
      → (cap event.id ≡ pos 0 → Quieted n)
      → Muted cap st
      → Muted cap (carry_out env event n st)
  carry_out-Muted cap event silent st q muted = muted
  carry_out-Muted cap event alert st q muted =
      λ k. rw (without_save-last_events (record event { status = "DDALERT" }) st) (muted k)
  carry_out-Muted cap event (problem s) st q muted =
      send_event-Muted cap (record event { status = problem_status env event; current_step = s }) st
        q muted
  carry_out-Muted cap event (recovered self) st q muted =
      send_event-Muted cap
        (record event { status = if self then "DDOK" else "OK"; current_step = pos 1 }) st q muted

  send_event_if_need-Muted :
      (cap : String → ℤ) (vs : List (HistoryData V)) (is_triggered : Bool) (now : ℤ)
      (event : Event V) (st : Alarms V)
      → vs ≢ []
      → Sound cap st
      → Muted cap st
      → Returns (Muted cap) (send_event_if_need env vs is_triggered now event (cap event.id) st)
  send_event_if_need-Muted cap vs is_triggered now event st h sound muted =
      let (oldest, e) = last?-nonempty vs h in
      let m = cap event.id in
      let last = lookup event.id st.last_events in
      rw
        (send_event_if_need_lem env vs is_triggered now event m st oldest e
          (Remembered-AllKnown m last (sound event.id)))
        (carry_out-Muted cap event _ st
          (λ zero_cap.
            decide-Quieted (limits env m now oldest event) is_triggered (phase last) zero_cap
              (muted event.id zero_cap))
          muted)

  -- One call of `sendEventIfNeed`.
  pub record Call : Type 0 where
    pub vs : List (HistoryData V)
    pub is_triggered : Bool
    pub now : ℤ
    pub event : Event V

  abbrev pub WellFormed : (String → ℤ) → Call → Type 0
  WellFormed cap c = (c.vs ≢ []) × IsInt64 (cap c.event.id)

  abbrev pub AllWellFormed : (String → ℤ) → List Call → Type 0
  AllWellFormed cap [] = Unit {0}
  AllWellFormed cap (c ∷ cs) = WellFormed cap c × AllWellFormed cap cs

  -- The calls in turn.
  pub run : (String → ℤ) → List Call → Alarms V → Run (Alarms V)
  run cap [] st = ok st
  run cap (c ∷ cs) st = do
    st' ← send_event_if_need env c.vs c.is_triggered c.now c.event (cap c.event.id) st
    run cap cs st'

  -- What is remembered is sound, and no rule with a limit of 0 has an open alarm.
  abbrev pub Bounded : (String → ℤ) → Alarms V → Type 0
  Bounded cap st = Sound cap st × Muted cap st

  call-Bounded :
      (cap : String → ℤ) (c : Call) (st : Alarms V)
      → WellFormed cap c
      → Bounded cap st
      → Returns
          (Bounded cap)
          (send_event_if_need env c.vs c.is_triggered c.now c.event (cap c.event.id) st)
  call-Bounded cap c st w b =
      Returns-both (Sound cap) (Muted cap) _
        (send_event_if_need-Sound cap c.vs c.is_triggered c.now c.event st w.0 w.1 b.0)
        (send_event_if_need-Muted cap c.vs c.is_triggered c.now c.event st w.0 b.0 b.1)

  -- From last events of known statuses whose numbers are from 1 to the limit of their rule (or 1),
  -- with no open alarm of a rule whose limit is 0, such as none at all, any sequence of calls on
  -- histories that are not empty, with limits in the range of int64, returns and leaves such last
  -- events: no number goes beyond the limit (or 1), and a rule whose limit is 0 opens no alarm.
  pub run-Sound :
      (cap : String → ℤ) (cs : List Call) (st : Alarms V)
      → AllWellFormed cap cs
      → Bounded cap st
      → Returns (Bounded cap) (run cap cs st)
  unfolding run
  run-Sound cap [] st w b = b
  run-Sound cap (c ∷ cs) st w b =
      Returns-bind (Bounded cap) (Bounded cap) _ (run cap cs) (call-Bounded cap c st w.0 b)
        (λ st' s. run-Sound cap cs st' w.1 s)
