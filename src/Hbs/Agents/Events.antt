-- ===== src/Hbs/Agents/Events.antt =====
-- Reports and sweeps in any order, from the start of hbs on.
use ref_falcon.Prelude.{
  ◌≡◌, false, List, [], ◌∷◌, none, some, Run, ok, ◌>>=◌, Returns, Returns-bind, Returns-map,
  Bool-cases, inl, inr,
}
use ref_falcon.Prelude.Int.{ℤ}
use ref_falcon.Prelude.Text.{str_eq, eq_iff, lookup}
use ref_falcon.Hbs.Agents.{
  AgentReportRequest, AgentUpdateInfo, SafeAgents, new_safe_agents, is_changed, put, report_status,
  delete_stale_agents,
}
use ref_falcon.Hbs.Agents.Kept.{Kept, SameAgent, put-Kept}
use ref_falcon.Hbs.Agents.Stale.{delete_stale_agents_lem}

-- A call of ReportStatus, or a round of DeleteStaleAgents, with the time at which it comes.
pub data AgentEvent : Type 0 where
  reported : ℤ → AgentReportRequest → AgentEvent
  swept : ℤ → AgentEvent

unfoldable pub agent_event : AgentEvent → SafeAgents → Run SafeAgents
agent_event (reported now req) st = ok (report_status now req st).1
agent_event (swept now) st = delete_stale_agents now st

unfoldable pub agent_events : List AgentEvent → SafeAgents → Run SafeAgents
unfolding agent_event
agent_events [] st = ok st
agent_events (e ∷ es) st = do st' ← agent_event e st; agent_events es st'

report_status-Kept :
    (now : ℤ) (req : AgentReportRequest) (st : SafeAgents)
    → Kept st
    → Kept (report_status now req st).1
unfolding report_status
report_status-Kept now req st kept = elim (Bool-cases (str_eq req.hostname "")) [
  | inl blank ↦ rw blank kept
  | inr named ↦ rw named (put-Kept now req st kept)
]

event-Kept : (e : AgentEvent) (st : SafeAgents) → Kept st → Returns Kept (agent_event e st)
unfolding agent_event
event-Kept (reported now req) st kept = report_status-Kept now req st kept
event-Kept (swept now) st kept =
    Returns-map _ Kept (delete_stale_agents now st) (λ st' h. h.1)
      (delete_stale_agents_lem now st kept)

events-Kept : (es : List AgentEvent) (st : SafeAgents) → Kept st → Returns Kept (agent_events es st)
unfolding agent_events
events-Kept [] st kept = kept
events-Kept (e ∷ es) st kept =
    Returns-bind Kept Kept (agent_event e st) (agent_events es) (event-Kept e st kept)
      (λ st' kept'. events-Kept es st' kept')

none_there : {A B : Type 0} (a : A) → none ≡ some a → B
none_there a h = cc

pub start-Kept : Kept new_safe_agents
unfolding lookup
start-Kept = (tt, λ k v h. none_there v h)

-- A report of the address and the versions that are in memory is not told to the database.
abbrev pub NotTold : SafeAgents → Type 0
NotTold st =
    (now : ℤ) (req : AgentReportRequest) (v : AgentUpdateInfo)
    → lookup req.hostname st.m ≡ some v
    → SameAgent v.report_request req
    → (report_status now req st).1.update_agent ≡ st.update_agent

same-changed :
    (v : AgentUpdateInfo) (req : AgentReportRequest)
    → SameAgent v.report_request req
    → is_changed (some v) req ≡ false
same-changed v req (ip, version, plugin) =
    let old = v.report_request in
    rw (
      (eq_iff old.agent_version req.agent_version).1 version,
      (eq_iff old.ip req.ip).1 ip,
      (eq_iff old.plugin_version req.plugin_version).1 plugin,
    )

report_status-NotTold : (st : SafeAgents) → NotTold st
unfolding report_status put ref_falcon.Hbs.Agents.get
report_status-NotTold st now req v there same = elim (Bool-cases (str_eq req.hostname "")) [
  | inl blank ↦ rw blank
  | inr named ↦ rw (named, there, same-changed v req same)
]

-- After any reports and sweeps from the start on, which all return, each agent in memory stands
-- under its own name, and what the database was told last of it is the address and the versions
-- in memory; and a next report of the address and the versions in memory is not told.
pub agent_events-Kept :
    (es : List AgentEvent) → Returns (λ st. Kept st × NotTold st) (agent_events es new_safe_agents)
agent_events-Kept es =
    Returns-map Kept _ (agent_events es new_safe_agents)
      (λ st kept. (kept, report_status-NotTold st)) (events-Kept es new_safe_agents start-Kept)
