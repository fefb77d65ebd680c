-- ===== src/Judge/Sync.antt =====
-- judge/cron/strategy.go: the maps of rules that the judge looks up, rebuilt from what hbs sends.
pub mod Maps
use ref_falcon.Prelude.{List, [], ◌∷◌, ◌++◌, none, some}
use ref_falcon.Prelude.Text.{String, lookup, insert}
use ref_falcon.Judge.Types.{Tags, Strategy, Expression}
use ref_falcon.Judge.Rules.{◌+++◌}

-- `if _, exists := m[key]; exists { m[key] = append(m[key], x) } else { m[key] = []T{x} }`.
unfoldable pub append_at :
    {A : Type 0} → String → A → List (String × List A) → List (String × List A)
append_at key x m = elim (lookup key m) [
  | none ↦ insert key (x ∷ []) m
  | some xs ↦ insert key (xs ++ x ∷ []) m
]

-- `model.HostStrategy`: a host and the strategies for it.
abbrev pub HostStrategy : Type 0 → Type 0
HostStrategy V = String × List (Strategy V)

module _ {V : Type 0} where
  -- The loop over the strategies of a host.
  unfoldable pub add_strategies :
      String
      → List (Strategy V)
      → List (String × List (Strategy V))
      → List (String × List (Strategy V))
  unfolding append_at
  add_strategies hostname [] m = m
  add_strategies hostname (s ∷ ss) m =
      add_strategies hostname ss (append_at (hostname +++ "/" +++ s.metric) s m)

  unfoldable pub add_hosts :
      List (HostStrategy V) → List (String × List (Strategy V)) → List (String × List (Strategy V))
  unfolding add_strategies
  add_hosts [] m = m
  add_hosts ((hostname, ss) ∷ hosts) m = add_hosts hosts (add_strategies hostname ss m)

  -- `rebuildStrategyMap`.
  unfoldable pub rebuild_strategy_map : List (HostStrategy V) → List (String × List (Strategy V))
  unfolding add_hosts
  rebuild_strategy_map response = add_hosts response []

  -- The loop over the tags of an expression.
  unfoldable pub add_expression :
      Expression V
      → Tags
      → List (String × List (Expression V))
      → List (String × List (Expression V))
  unfolding append_at
  add_expression exp [] m = m
  add_expression exp ((k, v) ∷ tags) m =
      add_expression exp tags (append_at (exp.metric +++ "/" +++ k +++ "=" +++ v) exp m)

  unfoldable pub add_expressions :
      List (Expression V)
      → List (String × List (Expression V))
      → List (String × List (Expression V))
  unfolding add_expression
  add_expressions [] m = m
  add_expressions (e ∷ es) m = add_expressions es (add_expression e e.tags m)

  -- `rebuildExpressionMap`.
  unfoldable pub rebuild_expression_map : List (Expression V) → List (String × List (Expression V))
  unfolding add_expressions
  rebuild_expression_map response = add_expressions response []

-- The loops of `syncFilter`, for the metrics of rules of either kind.
unfoldable pub add_metrics :
    {A : Type 0} → (A → String) → List A → List (String × String) → List (String × String)
add_metrics metric [] m = m
add_metrics metric (r ∷ rs) m = add_metrics metric rs (insert (metric r) (metric r) m)

unfoldable pub add_rules :
    {A : Type 0}
    → (A → String)
    → List (String × List A)
    → List (String × String)
    → List (String × String)
unfolding add_metrics
add_rules metric [] m = m
add_rules metric ((key, rs) ∷ rules) m = add_rules metric rules (add_metrics metric rs m)

unfoldable pub sync_filter :
    {V : Type 0}
    → List (String × List (Strategy V))
    → List (String × List (Expression V))
    → List (String × String)
unfolding add_rules
sync_filter sm em = add_rules (λ e. e.metric) em (add_rules (λ s. s.metric) sm [])
