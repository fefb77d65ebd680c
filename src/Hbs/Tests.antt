-- ===== src/Hbs/Tests.antt =====
-- The theorems on hbs, applied to three templates of one line.
use mathlib.Core.List.{reverse}
use ref_falcon.Prelude.{◌≡◌, refl, ◌⊎◌, ◌<◌, List, [], ◌∷◌, length, none, some, Returns}
use ref_falcon.Prelude.Int.{ℤ, pos, sub64}
use ref_falcon.Prelude.Text.{String, lookup, insert}
use ref_falcon.Hbs.Agents.{AgentReportRequest, put, new_safe_agents, delete_stale_agents}
use ref_falcon.Hbs.Agents.Kept.{Kept, put-Kept}
use ref_falcon.Hbs.Agents.Stale.{fresh, delete_stale_agents_lem}
use ref_falcon.Hbs.Agents.Events.{
  AgentEvent, reported, swept, agent_events, start-Kept, NotTold, agent_events-Kept,
}
use ref_falcon.Judge.Types.{Tags}
use ref_falcon.Hbs.Parents.{Template, parent_ids}
use ref_falcon.Hbs.Parents.Lineage.{Lineage, Short, parent_ids_lem}
use ref_falcon.Hbs.Buckets.{HostRule, uniq_tpl_buckets, bucket_stras_map, get_strategies}
use ref_falcon.Hbs.Buckets.Unique.{uniq_tpl_buckets_twins}
use ref_falcon.Hbs.Buckets.Overriding.{youngest, bucket_stras_map_lem}
use ref_falcon.Hbs.Buckets.Ids.{EachHost, get_strategies-EachHost}

abbrev base : Template
base = record { id = pos 1; parent_id = pos 0 }

abbrev web : Template
web = record { id = pos 2; parent_id = pos 1 }

abbrev tpls : List (ℤ × Template)
tpls = (pos 1, base) ∷ (pos 2, web) ∷ []

parent_ids_lem_example :
    ((ids : List ℤ) × Lineage tpls (pos 2) ids
      × (length ids < 10)
      × (parent_ids tpls (pos 2) ≡ reverse ids))
    ⊎ (¬ Short tpls 10 (pos 2)) × (parent_ids tpls (pos 2) ≡ [])
parent_ids_lem_example = parent_ids_lem tpls (pos 2)

abbrev narrow : List ℤ
narrow = pos 1 ∷ []

abbrev wide : List ℤ
wide = pos 1 ∷ pos 2 ∷ []

uniq_tpl_buckets_twins_example :
    (rest : List (List ℤ)) × (uniq_tpl_buckets (narrow ∷ narrow ∷ wide ∷ [])
      ≡ narrow ∷ narrow ∷ rest)
uniq_tpl_buckets_twins_example = uniq_tpl_buckets_twins narrow (wide ∷ [])

abbrev rule : HostRule
rule = record { id = pos 7; metric = "cpu.busy"; tags = []; tpl = some web }

abbrev sorted_tags : Tags → String
sorted_tags tags = ""

get_strategies-EachHost_example : Returns EachHost (
    get_strategies sorted_tags
      ((pos 5, pos 2 ∷ []) ∷ [])
      ((pos 5, "host") ∷ [])
      tpls
      ((pos 7, some rule) ∷ []))
get_strategies-EachHost_example =
    get_strategies-EachHost sorted_tags ((pos 5, pos 2 ∷ []) ∷ []) ((pos 5, "host") ∷ []) tpls
      ((pos 7, some rule) ∷ [])

abbrev tpl2 : List (ℤ × List HostRule)
tpl2 = (pos 2, rule ∷ []) ∷ []

bucket_stras_map_lem_example :
    lookup "metric:cpu.busy/tags:" (bucket_stras_map sorted_tags tpl2 wide [])
    ≡ youngest sorted_tags "metric:cpu.busy/tags:" tpl2 wide none
bucket_stras_map_lem_example = bucket_stras_map_lem sorted_tags "metric:cpu.busy/tags:" tpl2 wide

abbrev req : AgentReportRequest
req = record { hostname = "web"; ip = "10.0.0.1"; agent_version = "5"; plugin_version = "1" }

abbrev reports : List AgentEvent
reports = reported (pos 100) req ∷ reported (pos 160) req ∷ swept (pos 90000) ∷ []

one_row : (put (pos 160) req (put (pos 100) req new_safe_agents)).update_agent ≡ req ∷ []
unfolding put ref_falcon.Hbs.Agents.get lookup insert
one_row = refl

agent_events-Kept_example :
    Returns (λ st. Kept st × NotTold st) (agent_events reports new_safe_agents)
agent_events-Kept_example = agent_events-Kept reports

delete_stale_agents_lem_example :
    Returns
      (λ st'.
        ((k : String)
          → lookup k st'.m
            ≡ fresh
                (sub64 (pos 90000) (pos 86400))
                (lookup k (put (pos 100) req new_safe_agents).m))
        × Kept st')
      (delete_stale_agents (pos 90000) (put (pos 100) req new_safe_agents))
delete_stale_agents_lem_example =
    delete_stale_agents_lem (pos 90000) (put (pos 100) req new_safe_agents)
      (put-Kept (pos 100) req new_safe_agents start-Kept)
