-- ===== src/Judge/Rules.antt =====
-- judge/store/judge.go: which strategies and expressions apply to an item, and how each is judged.
pub mod Matching
pub mod Once
pub mod Safe
use ref_falcon.Prelude.{
  Bool, true, false, List, [], ◌∷◌, ◌++◌, none, some, if◌then◌else◌, Run, ok, err, panic, ◌>>=◌,
}
use ref_falcon.Prelude.Int.{ℤ, pos, eqb_ℤ}
use ref_falcon.Prelude.Text.{String, str_eq, str_append, show, lookup, insert}
use ref_falcon.Float64.{Float64}
use ref_falcon.Judge.Types.{Tags, JudgeItem, Strategy, Expression, Event}
use ref_falcon.Judge.Func.{Function, Stats, compute}
use ref_falcon.Judge.Parse.{parse_func_from_string}
use ref_falcon.Judge.Alarm.{Env, Alarms, send_event_if_need}

-- `fmt.Sprintf` of a pattern with two texts in it.
infixr 66 ◌+++◌
abbrev pub ◌+++◌ : String → String → String
s +++ t = str_append s t

-- Whether every tag of a rule stands among the tags of the item; the loop with its break.
unfoldable pub tags_match : Tags → Tags → Bool
tags_match [] mine = true
tags_match ((tag_key, tag_val) ∷ tags) mine =
    let rest = tags_match tags mine in
    elim (lookup tag_key mine) [
      | none ↦ false
      | some my_val ↦ if str_eq my_val tag_val then rest else false
    ]

-- The loop over the tags in `buildKeysFromMetricAndTags`.
tag_keys : String → Tags → List String
tag_keys metric [] = []
tag_keys metric ((k, v) ∷ tags) = (metric +++ "/" +++ k +++ "=" +++ v) ∷ tag_keys metric tags

-- The loop of `copyItemTags`.
unfoldable pub overlay : Tags → Tags → Tags
overlay [] ret = ret
overlay ((k, v) ∷ tags) ret = overlay tags (insert k v ret)

-- `handledExpression`, the ids in the order in which they were handled.
unfoldable pub is_handled : ℤ → List ℤ → Bool
is_handled id [] = false
is_handled id (h ∷ hs) = let rest = is_handled id hs in if eqb_ℤ h id then true else rest

module _ {V : Type 0} where
  -- `buildKeysFromMetricAndTags`.
  unfoldable pub build_keys_from_metric_and_tags : JudgeItem V → List String
  unfolding tag_keys
  build_keys_from_metric_and_tags item =
      tag_keys item.metric item.tags ++ (item.metric +++ "/endpoint=" +++ item.endpoint) ∷ []

  -- `copyItemTags`: the endpoint, and over it the tags of the item.
  unfoldable pub copy_item_tags : JudgeItem V → Tags
  unfolding overlay
  copy_item_tags item = overlay item.tags (("endpoint", item.endpoint) ∷ [])

  -- The tags that an expression is compared with.
  unfoldable pub tags_for : Expression V → JudgeItem V → Tags
  unfolding copy_item_tags
  tags_for exp item = elim (lookup "endpoint" exp.tags) [
    | none ↦ item.tags
    | some _ ↦ copy_item_tags item
  ]

  unfoldable pub filter_related_expressions :
      List (Expression V) → JudgeItem V → List (Expression V)
  unfolding tags_match tags_for
  filter_related_expressions [] item = []
  filter_related_expressions (exp ∷ exps) item =
      let rest = filter_related_expressions exps item in
      if tags_match exp.tags (tags_for exp item) then exp ∷ rest else rest

  module _ ⦃fl : Float64 V⦄ ⦃st : Stats V⦄ (env : Env V) where
    -- The part that `judgeItemWithStrategy` and `judgeItemWithExpression` share: an error of the
    -- parser is logged, and not enough points end it.
    unfoldable pub judge_function :
        Run (Function V) → List (JudgeItem V) → ℤ → (V → Event V) → ℤ → Alarms V → Run (Alarms V)
    judge_function (ok fn) l now event max_step alarms = do
      v ← compute fn l
      if v.is_enough
          then send_event_if_need env v.vs v.is_triggered now (event v.left_value) max_step alarms
          else ok alarms
    judge_function err l now event max_step alarms = ok alarms
    judge_function panic l now event max_step alarms = panic

    abbrev pub strategy_event : Strategy V → JudgeItem V → V → Event V
    strategy_event strategy first left = record {
      id = "s_" +++ show strategy.id +++ "_" +++ env.primary_key first;
      strategy = some strategy;
      expression = none;
      status = "";
      endpoint = first.endpoint;
      left_value = left;
      current_step = pos 0;
      event_time = first.timestamp;
      pushed_tags = first.tags;
    }

    unfoldable pub judge_item_with_strategy :
        List (JudgeItem V) → Strategy V → JudgeItem V → ℤ → Alarms V → Run (Alarms V)
    unfolding judge_function
    judge_item_with_strategy l strategy first now alarms =
        judge_function (parse_func_from_string strategy.func strategy.operator strategy.right_value)
          l now (strategy_event strategy first) strategy.max_step alarms

    -- The loop of `CheckStrategy`.
    unfoldable pub strategies_loop :
        List (JudgeItem V) → List (Strategy V) → JudgeItem V → ℤ → Alarms V → Run (Alarms V)
    unfolding tags_match judge_item_with_strategy
    strategies_loop l [] first now alarms = ok alarms
    strategies_loop l (s ∷ ss) first now alarms = do
      alarms' ←
          if tags_match s.tags first.tags
          then judge_item_with_strategy l s first now alarms
          else ok alarms
      strategies_loop l ss first now alarms'

    unfoldable pub check_strategy :
        List (String × List (Strategy V))
        → List (JudgeItem V)
        → JudgeItem V
        → ℤ
        → Alarms V
        → Run (Alarms V)
    unfolding strategies_loop
    check_strategy strategy_map l first now alarms =
        elim (lookup (first.endpoint +++ "/" +++ first.metric) strategy_map) [
          | none ↦ ok alarms
          | some strategies ↦ strategies_loop l strategies first now alarms
        ]

    abbrev pub expression_event : Expression V → JudgeItem V → V → Event V
    expression_event expression first left = record {
      id = "e_" +++ show expression.id +++ "_" +++ env.primary_key first;
      strategy = none;
      expression = some expression;
      status = "";
      endpoint = first.endpoint;
      left_value = left;
      current_step = pos 0;
      event_time = first.timestamp;
      pushed_tags = first.tags;
    }

    unfoldable pub judge_item_with_expression :
        List (JudgeItem V) → Expression V → JudgeItem V → ℤ → Alarms V → Run (Alarms V)
    unfolding judge_function
    judge_item_with_expression l expression first now alarms =
        judge_function
          (parse_func_from_string expression.func expression.operator expression.right_value) l now
          (expression_event expression first) expression.max_step alarms

    -- The loop over the related expressions of one key.
    unfoldable pub expressions_loop :
        List (JudgeItem V)
        → List (Expression V)
        → JudgeItem V
        → ℤ
        → List ℤ
        → Alarms V
        → Run (List ℤ × Alarms V)
    unfolding is_handled judge_item_with_expression
    expressions_loop l [] first now handled alarms = ok (handled, alarms)
    expressions_loop l (exp ∷ exps) first now handled alarms = elim (is_handled exp.id handled) [
      | true ↦ expressions_loop l exps first now handled alarms
      | false ↦ do
        alarms' ← judge_item_with_expression l exp first now alarms
        expressions_loop l exps first now (exp.id ∷ handled) alarms'
    ]

    -- The loop over the keys.
    unfoldable pub keys_loop :
        List (String × List (Expression V))
        → List (JudgeItem V)
        → List String
        → JudgeItem V
        → ℤ
        → List ℤ
        → Alarms V
        → Run (List ℤ × Alarms V)
    unfolding expressions_loop filter_related_expressions
    keys_loop expression_map l [] first now handled alarms = ok (handled, alarms)
    keys_loop expression_map l (key ∷ keys) first now handled alarms =
        elim (lookup key expression_map) [
          | none ↦ keys_loop expression_map l keys first now handled alarms
          | some expressions ↦ do
            (handled', alarms') ←
                expressions_loop l (filter_related_expressions expressions first) first now handled
                  alarms
            keys_loop expression_map l keys first now handled' alarms'
        ]

    unfoldable pub check_expression :
        List (String × List (Expression V))
        → List (JudgeItem V)
        → JudgeItem V
        → ℤ
        → Alarms V
        → Run (Alarms V)
    unfolding keys_loop build_keys_from_metric_and_tags
    check_expression expression_map l first now alarms = do
      (handled, alarms') ←
          keys_loop expression_map l (build_keys_from_metric_and_tags first) first now [] alarms
      ok alarms'

    -- `Judge`.
    unfoldable pub judge :
        List (String × List (Strategy V))
        → List (String × List (Expression V))
        → List (JudgeItem V)
        → JudgeItem V
        → ℤ
        → Alarms V
        → Run (Alarms V)
    unfolding check_strategy check_expression
    judge strategy_map expression_map l first now alarms = do
      alarms' ← check_strategy strategy_map l first now alarms
      check_expression expression_map l first now alarms'
