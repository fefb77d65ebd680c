-- ===== src/Judge/Alarm/Phase.antt =====
-- The alarm of one rule and counter as a machine of two phases, apart from maps and texts.
use ref_falcon.Prelude.{◌≡◌, ◌⊎◌, Bool, true, false, ◌&&◌, Option, none, some, if◌then◌else◌}
use ref_falcon.Prelude.Int.{ℤ, pos, leb_ℤ, ltb_ℤ, eqb_ℤ, add64, sub64}
use ref_falcon.Prelude.Text.{str_eq}
use ref_falcon.Judge.Types.{Event}
use ref_falcon.Judge.Alarm.{Env, Alarms, send_event, send_event_without_save, problem_status}

-- Quiet, or firing: whether the metric is a self-defined one, the number of the last alarm, and
-- its time.
pub data Phase : Type 0 where
  quiet : Phase
  firing : Bool → ℤ → ℤ → Phase

-- What is told to the user: nothing, an alert that is not remembered, the n-th alarm, or that a
-- problem is over.
pub data Notice : Type 0 where
  silent alert : Notice
  problem : ℤ → Notice
  recovered : Bool → Notice

-- The limits of one call, `oldest` being the time of the last point of the history.
pub record Limits : Type 0 where
  pub ignored : Bool
  pub max_step : ℤ
  pub min_interval : ℤ
  pub now : ℤ
  pub oldest : ℤ

-- A problem is told again if the limit of alarms is not reached, every point is newer than the
-- last alarm, and the last alarm is long enough ago.
abbrev pub may_repeat : Limits → ℤ → ℤ → Bool
may_repeat c step since =
    ltb_ℤ step c.max_step && (ltb_ℤ since c.oldest && leb_ℤ c.min_interval (sub64 c.now since))

abbrev pub decide : Limits → Bool → Phase → Notice
decide c false quiet = silent
decide c false (firing self step since) = recovered self
decide c true quiet =
    if c.ignored then alert else if eqb_ℤ c.max_step (pos 0) then silent else problem (pos 1)
decide c true (firing self step since) =
    if c.ignored
    then alert
    else if may_repeat c step since
    then problem (add64 step (pos 1))
    else silent

module _ {V : Type 0} where
  -- The phase that a last event stands for.
  abbrev pub phase : Option (Event V) → Phase
  phase none = quiet
  phase (some l) =
      if str_eq l.status "PROBLEM"
      then firing false l.current_step l.event_time
      else if str_eq l.status "DDALARM"
      then firing true l.current_step l.event_time
      else quiet

  -- The statuses that are remembered.
  abbrev pub Known : Event V → Type 0
  Known l =
      (l.status ≡ "PROBLEM") ⊎ (l.status ≡ "DDALARM") ⊎ (l.status ≡ "OK") ⊎ (l.status ≡ "DDOK")

  abbrev pub AllKnown : Option (Event V) → Type 0
  AllKnown none = Unit {0}
  AllKnown (some l) = Known l

  -- What a notice does to the maps and the queue.
  abbrev pub carry_out : Env V → Event V → Notice → Alarms V → Alarms V
  carry_out env event silent st = st
  carry_out env event alert st =
      send_event_without_save env (record event { status = "DDALERT" }) st
  carry_out env event (problem n) st =
      send_event env (record event { status = problem_status env event; current_step = n }) st
  carry_out env event (recovered self) st =
      send_event env (record event { status = if self then "DDOK" else "OK"; current_step = pos 1 })
        st
