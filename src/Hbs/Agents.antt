-- ===== src/Hbs/Agents.antt =====
-- hbs/cache/agents.go and hbs/rpc/agent.go: what the agents reported last, and the answers to them. A
-- statement to the database is recorded, the last one in front.
pub mod Stale
pub mod Events
pub mod Kept
use ref_falcon.Prelude.{
  ℕ, Bool, true, not, ◌||◌, List, [], ◌∷◌, map, Option, none, some, if◌then◌else◌, Run, ok, must,
  ◌>>=◌,
}
use ref_falcon.Prelude.Int.{ℤ, pos, ltb_ℤ, sub64}
use ref_falcon.Prelude.Text.{String, str_eq, lookup, insert, delete}
use ref_falcon.Judge.Rules.{◌+++◌}

-- `model.AgentReportRequest` and `model.AgentUpdateInfo`, of common/model.
pub record AgentReportRequest : Type 0 where
  pub hostname : String
  pub ip : String
  pub agent_version : String
  pub plugin_version : String

pub record AgentUpdateInfo : Type 0 where
  pub last_update : ℤ
  pub report_request : AgentReportRequest

abbrev pub AgentMap : Type 0
AgentMap = List (String × AgentUpdateInfo)

-- The map, and the requests that `db.UpdateAgent` was called with.
pub record SafeAgents : Type 0 where
  pub m : AgentMap
  pub update_agent : List AgentReportRequest

abbrev pub new_safe_agents : SafeAgents
new_safe_agents = record { m = []; update_agent = [] }

-- Whether the row of the host is to be written.
abbrev pub is_changed : Option AgentUpdateInfo → AgentReportRequest → Bool
is_changed none req = true
is_changed (some agent_info) req =
    not (str_eq agent_info.report_request.agent_version req.agent_version)
    || not (str_eq agent_info.report_request.ip req.ip)
    || not (str_eq agent_info.report_request.plugin_version req.plugin_version)

unfoldable pub get : String → SafeAgents → Option AgentUpdateInfo
get hostname st = lookup hostname st.m

unfoldable pub put : ℤ → AgentReportRequest → SafeAgents → SafeAgents
unfolding get
put now req st = record {
  m = insert req.hostname (record { last_update = now; report_request = req }) st.m;
  update_agent =
      if is_changed (get req.hostname st) req then req ∷ st.update_agent else st.update_agent;
}

unfoldable pub delete_agent : String → SafeAgents → SafeAgents
delete_agent hostname st = record st { m = delete hostname st.m }

unfoldable pub agent_keys : SafeAgents → List String
agent_keys st = map (λ e. e.0) st.m

-- The loop of deleteStaleAgents; a key without a value is a nil pointer.
unfoldable pub delete_loop : ℤ → List String → SafeAgents → Run SafeAgents
unfolding get delete_agent
delete_loop before [] st = ok st
delete_loop before (key ∷ keys) st = do
  curr ← must (get key st)
  delete_loop before keys
      (if ltb_ℤ curr.last_update before then delete_agent curr.report_request.hostname st else st)

unfoldable pub delete_stale_agents : ℤ → SafeAgents → Run SafeAgents
unfolding delete_loop agent_keys
delete_stale_agents now st = delete_loop (sub64 now (pos 86400)) (agent_keys st) st

-- ReportStatus: the code of the reply.
unfoldable pub report_status : ℤ → AgentReportRequest → SafeAgents → ℕ × SafeAgents
unfolding put
report_status now args st = if str_eq args.hostname "" then (1, st) else (0, put now args st)

-- `model.BuiltinMetric` as its text; sorting, MD5 and the database are outside.
pub record Metrics : Type 0 where
  pub get_builtin_metrics : String → Option (List String)
  pub sort : List String → List String
  pub md5 : String → String

pub record BuiltinMetricResponse : Type 0 where
  pub metrics : List String
  pub checksum : String
  pub timestamp : ℤ

abbrev pub concat : List String → String
concat [] = ""
concat (s ∷ rest) = s +++ concat rest

unfoldable pub digest_builtin_metrics : Metrics → List String → String
digest_builtin_metrics o items = o.md5 (concat (o.sort items))

abbrev pub metrics_reply :
    Metrics → ℤ → String → Option (List String) → Option BuiltinMetricResponse
metrics_reply o now checksum none = none
metrics_reply o now checksum (some []) =
    some (record { metrics = []; checksum = ""; timestamp = now })
metrics_reply o now checksum (some (x ∷ xs)) =
    let ours = digest_builtin_metrics o (x ∷ xs) in
    some (record {
      metrics = if str_eq checksum ours then [] else o.sort (x ∷ xs);
      checksum = ours;
      timestamp = now;
    })

-- BuiltinMetrics: `none` leaves the reply empty. The digest sorts the metrics in place.
unfoldable pub builtin_metrics : Metrics → ℤ → String → String → Option BuiltinMetricResponse
unfolding digest_builtin_metrics
builtin_metrics o now hostname checksum =
    if str_eq hostname ""
    then none
    else metrics_reply o now checksum (o.get_builtin_metrics hostname)
