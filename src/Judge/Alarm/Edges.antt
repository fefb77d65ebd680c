-- ===== src/Judge/Alarm/Edges.antt =====
-- The diagram of an alarm, and that every call follows it.
use ref_falcon.Prelude.{
  ◌≡◌, ◌≢◌, refl, sym, ap, ◌∙◌, ◌⊎◌, inl, inr, Bool, true, false, List, some, if◌then◌else◌, arith,
  Returns, Bool-cases,
}
use ref_falcon.Prelude.Int.{ℤ, pos, ◌≤ℤ◌, ◌<ℤ◌, eqb_ℤ, add64, sub64, ltb_ℤ→lt, leb_ℤ→le}
use ref_falcon.Prelude.Text.{String, str_eq, eq_iff, lookup, lookup-insert}
use ref_falcon.Judge.Types.{HistoryData, Event}
use ref_falcon.Judge.Alarm.{Env, Alarms, last?, send_event, problem_status, send_event_if_need}
use ref_falcon.Judge.Alarm.Phase.{
  Phase, quiet, firing, Notice, silent, alert, problem, recovered, Limits, may_repeat, decide,
  phase, carry_out,
}
use ref_falcon.Judge.Alarm.Refine.{limits, send_event_if_need_lem}
use ref_falcon.Judge.Alarm.Capped.{
  Sound, Remembered-AllKnown, send_event-last_events, without_save-last_events,
  problem_status-Known,
}

-- How the phase of a key changes in one call. A problem begins at alarm 1; it is told again only
-- below the limit, on a history newer than the last alarm, and after the least interval; it ends
-- only when the threshold is not met.
pub data Edge (c : Limits) : Bool → Phase → Phase → Type 0 where
  begin :
      (self : Bool) (time : ℤ) → c.max_step ≢ pos 0 → Edge c true quiet (firing self (pos 1) time)
  repeat :
      (self self' : Bool) (step since time : ℤ)
      → step <ℤ c.max_step
      → since <ℤ c.oldest
      → c.min_interval ≤ℤ sub64 c.now since
      → Edge c true (firing self step since) (firing self' (add64 step (pos 1)) time)
  end : (self : Bool) (step since : ℤ) → Edge c false (firing self step since) quiet

-- What a notice leaves of the phase.
abbrev Leads : Limits → Bool → Phase → Notice → Type 0
Leads c tr ph silent = Unit {0}
Leads c tr ph alert = Unit {0}
Leads c tr ph (problem s) = (self : Bool) (time : ℤ) → Edge c tr ph (firing self s time)
Leads c tr ph (recovered self) = Edge c tr ph quiet

zero_of : (m : ℤ) → eqb_ℤ m (pos 0) ≡ false → m ≢ pos 0
zero_of m h e = ground arith

Leads-if :
    (c : Limits) (tr : Bool) (ph : Phase) (b : Bool) (m n : Notice)
    → (b ≡ true → Leads c tr ph m)
    → (b ≡ false → Leads c tr ph n)
    → Leads c tr ph (if b then m else n)
Leads-if c tr ph true m n h k = h refl
Leads-if c tr ph false m n h k = k refl

repeats :
    (c : Limits) (self : Bool) (step since : ℤ)
    → may_repeat c step since ≡ true
    → (self' : Bool) (time : ℤ)
    → Edge c true (firing self step since) (firing self' (add64 step (pos 1)) time)
repeats c self step since may self' time =
    repeat self self' step since time (ground (arith, ltb_ℤ→lt step c.max_step))
      (ground (arith, ltb_ℤ→lt since c.oldest))
      (ground (arith, leb_ℤ→le c.min_interval (sub64 c.now since)))

decide-Leads : (c : Limits) (tr : Bool) (ph : Phase) → Leads c tr ph (decide c tr ph)
decide-Leads c false quiet = tt
decide-Leads c false (firing self step since) = end self step since
decide-Leads c true quiet =
    Leads-if c true quiet c.ignored alert _ (λ _. tt)
      (λ _.
        Leads-if c true quiet (eqb_ℤ c.max_step (pos 0)) silent (problem (pos 1)) (λ _. tt)
          (λ loud self time. begin self time (zero_of c.max_step loud)))
decide-Leads c true (firing self step since) =
    let ph = firing self step since in
    Leads-if c true ph c.ignored alert _ (λ _. tt)
      (λ _.
        Leads-if c true ph (may_repeat c step since) (problem (add64 step (pos 1))) silent
          (repeats c self step since) (λ _. tt))

module _ {V : Type 0} (env : Env V) where
  -- A key is left alone, or it is the event's own and its phase takes an edge.
  abbrev pub Follows : Limits → Bool → Event V → Alarms V → Alarms V → Type 0
  Follows c tr event st st' =
      (k : String)
      → (lookup k st'.last_events ≡ lookup k st.last_events)
        ⊎ (k ≡ event.id)
          × Edge c tr (phase (lookup k st.last_events)) (phase (lookup k st'.last_events))

  send_event-Follows :
      (c : Limits) (tr : Bool) (event event' : Event V) (st : Alarms V)
      → event'.id ≡ event.id
      → Edge c tr (phase (lookup event.id st.last_events)) (phase (some event'))
      → Follows c tr event st (send_event env event' st)
  send_event-Follows c tr event event' st same edge k =
      rw (send_event-last_events env event' st, lookup-insert event'.id k event' st.last_events)
        (elim (Bool-cases (str_eq event'.id k)) [
          | inl here ↦
              let own : k ≡ event.id = sym ((eq_iff event'.id k).0 here) ∙ same in
              rw here (inr (own, rw own edge))
          | inr other ↦ rw other (inl refl)
        ])

  carry_out-Follows :
      (c : Limits) (tr : Bool) (event : Event V) (n : Notice) (st : Alarms V)
      → Leads c tr (phase (lookup event.id st.last_events)) n
      → Follows c tr event st (carry_out env event n st)
  carry_out-Follows c tr event silent st e = λ k. inl refl
  carry_out-Follows c tr event alert st e = λ k.
      inl (ap (lookup k) (without_save-last_events env (record event { status = "DDALERT" }) st))
  carry_out-Follows c tr event (problem s) st e =
      send_event-Follows c tr event
        (record event { status = problem_status env event; current_step = s }) st refl
        (elim (problem_status-Known env event) [
          | inl plain ↦ rw plain (e false event.event_time)
          | inr own ↦ rw own (e true event.event_time)
        ])
  carry_out-Follows c tr event (recovered true) st e =
      send_event-Follows c tr event (record event { status = "DDOK"; current_step = pos 1 }) st refl
        e
  carry_out-Follows c tr event (recovered false) st e =
      send_event-Follows c tr event (record event { status = "OK"; current_step = pos 1 }) st refl e

  -- From a sound map, on a history that is not empty, a call returns; it changes the last event of
  -- no key but the event's own, and that one along an edge of the diagram.
  pub send_event_if_need-Edge :
      (cap : String → ℤ) (vs : List (HistoryData V)) (is_triggered : Bool) (now : ℤ)
      (event : Event V) (max_step : ℤ) (st : Alarms V) (oldest : HistoryData V)
      → last? vs ≡ some oldest
      → Sound env cap st
      → Returns
          (Follows (limits env max_step now oldest event) is_triggered event st)
          (send_event_if_need env vs is_triggered now event max_step st)
  send_event_if_need-Edge cap vs is_triggered now event max_step st oldest h sound =
      let last = lookup event.id st.last_events in
      let c = limits env max_step now oldest event in
      rw
        (send_event_if_need_lem env vs is_triggered now event max_step st oldest h
          (Remembered-AllKnown env (cap event.id) last (sound event.id)))
        (carry_out-Follows c is_triggered event (decide c is_triggered (phase last)) st
          (decide-Leads c is_triggered (phase last)))
