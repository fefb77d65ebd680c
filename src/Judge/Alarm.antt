-- ===== src/Judge/Alarm.antt =====
-- judge/store/judge.go, sendEventIfNeed and what it calls: whether a verdict makes an event, and
-- which one. The map of last events and the queue in redis are passed on explicitly; an event is
-- not changed after it was stored, so the map holds values.
pub mod Phase
pub mod Refine
pub mod Capped
pub mod Edges
use ref_falcon.Prelude.{
  Bool, true, false, ◌||◌, List, [], ◌∷◌, Option, none, some, if◌then◌else◌, ◌==◌, Run, ok, must,
  ◌>>=◌,
}
use ref_falcon.Prelude.Int.{ℤ, pos, leb_ℤ, ltb_ℤ, eqb_ℤ, add64, sub64}
use ref_falcon.Prelude.Text.{String, str_eq, first_byte, lookup, insert}
use ref_falcon.Judge.Types.{HistoryData, JudgeItem, Event}

-- The configuration, and the code outside the repository: the methods Metric and Priority of an
-- event, its JSON text (`none` if json.Marshal fails), the queue of a priority, and the method
-- PrimaryKey of an item.
pub record Env (V : Type 0) : Type 0 where
  pub ignore_self_metrics : List String
  pub problem_self_metrics : List String
  pub min_interval : ℤ
  pub metric : Event V → String
  pub priority : Event V → ℤ
  pub marshal : Event V → Option String
  pub queue_name : ℤ → String
  pub primary_key : JudgeItem V → String

-- `g.LastEvents`, and the pairs of key and value that were given to LPUSH, latest first.
pub record Alarms (V : Type 0) : Type 0 where
  pub last_events : List (String × Event V)
  pub pushed : List (String × String)

-- The loop over a list of metrics, with its break.
unfoldable pub is_listed : String → List String → Bool
is_listed m [] = false
is_listed m (v ∷ vs) = let rest = is_listed m vs in if str_eq v m then true else rest

-- `historyData[len(historyData)-1]`.
unfoldable pub last? {ℓ} : {A : Type ℓ} → List A → Option A
last? [] = none
last? (x ∷ []) = some x
last? (x ∷ y ∷ l) = last? (y ∷ l)

module _ {V : Type 0} (env : Env V) where
  -- The reply of redis is ignored.
  unfoldable pub send_event_without_save : Event V → Alarms V → Alarms V
  send_event_without_save event st = elim (env.marshal event) [
    | none ↦ st
    | some bs ↦ record st { pushed = (env.queue_name (env.priority event), bs) ∷ st.pushed }
  ]

  unfoldable pub send_event : Event V → Alarms V → Alarms V
  unfolding send_event_without_save
  send_event event st =
      send_event_without_save event
        (record st { last_events = insert event.id event st.last_events })

  -- The threshold is met, and there was no alarm before.
  unfoldable pub first_alarm : Event V → ℤ → Alarms V → Alarms V
  first_alarm event max_step st =
      if eqb_ℤ max_step (pos 0) then st else send_event (record event { current_step = pos 1 }) st

  -- The threshold is met, and the last event is a problem.
  unfoldable pub next_alarm :
      List (HistoryData V) → ℤ → Event V → ℤ → Event V → Alarms V → Run (Alarms V)
  unfolding last?
  next_alarm vs now event max_step last st = if leb_ℤ max_step last.current_step then ok st else (do
    oldest ← must (last? vs)
    if leb_ℤ oldest.timestamp last.event_time
        then ok st
        else if ltb_ℤ (sub64 now last.event_time) env.min_interval
        then ok st
        else ok (send_event (record event { current_step = add64 last.current_step (pos 1) }) st))

  -- `event.Status` for a metric that is not ignored.
  unfoldable pub problem_status : Event V → String
  unfolding is_listed
  problem_status event =
      if is_listed (env.metric (record event { status = "PROBLEM" })) env.problem_self_metrics
      then "DDALARM"
      else "PROBLEM"

  unfoldable pub triggered_alarm :
      List (HistoryData V) → ℤ → Event V → ℤ → Option (Event V) → Alarms V → Run (Alarms V)
  unfolding first_alarm next_alarm
  triggered_alarm vs now event max_step none st = ok (first_alarm event max_step st)
  triggered_alarm vs now event max_step (some last) st = do
    b ← must (first_byte last.status)
    if b == b'O' || str_eq last.status "DDOK"
        then ok (first_alarm event max_step st)
        else next_alarm vs now event max_step last st

  unfoldable pub recovery : Event V → Option (Event V) → Alarms V → Run (Alarms V)
  unfolding send_event
  recovery event none st = ok st
  recovery event (some last) st = do
    b ← must (first_byte last.status)
    if b == b'P'
        then ok (send_event (record event { status = "OK"; current_step = pos 1 }) st)
        else if str_eq last.status "DDALARM"
        then ok (send_event (record event { status = "DDOK"; current_step = pos 1 }) st)
        else ok st

  unfoldable pub send_event_if_need :
      List (HistoryData V) → Bool → ℤ → Event V → ℤ → Alarms V → Run (Alarms V)
  unfolding is_listed send_event_without_save problem_status triggered_alarm recovery
  send_event_if_need vs is_triggered now event max_step st =
      let last = lookup event.id st.last_events in
      if is_triggered
      then (if is_listed (env.metric event) env.ignore_self_metrics
          then ok (send_event_without_save (record event { status = "DDALERT" }) st)
          else triggered_alarm vs now (record event { status = problem_status event }) max_step last
              st)
      else recovery event last st
