-- ===== src/Judge/Rules/Safe.antt =====
-- `Judge` as a whole: it returns, and it keeps the last events sound.
use ref_falcon.Prelude.{
  suc, ◌^◌, ◌<◌, ◌≡◌, refl, subst, sym, ◌∙◌, List, [], ◌∷◌, ◌++◌, some, if◌then◌else◌, Run, ok, err,
  panic, Returns, Returns-bind, Bool-cases, Option-cases, inl, inr,
}
use ref_falcon.Prelude.Int.{ℤ, pos, pos_part, IsInt64}
use ref_falcon.Prelude.Text.{String, str_eq, lookup, show}
use ref_falcon.Float64.{Float64}
use ref_falcon.Judge.Types.{JudgeItem, Strategy, Expression, Event}
use ref_falcon.Judge.Func.{Function, Verdict, Stats, wanted, compute}
use ref_falcon.Judge.Func.Total.{Typed, HasPoint, compute-HasPoint}
use ref_falcon.Judge.Parse.{parse_func_from_string}
use ref_falcon.Judge.Alarm.{Env, Alarms, send_event_if_need}
use ref_falcon.Judge.Alarm.Capped.{Sound, send_event_if_need-Sound}
use ref_falcon.Judge.Rules.{
  ◌+++◌, tags_match, tags_for, is_handled, filter_related_expressions, judge_function,
  judge_item_with_strategy, strategies_loop, check_strategy, judge_item_with_expression, judge,
  strategy_event, expression_event, build_keys_from_metric_and_tags,
}
use ref_falcon.Judge.Rules.Once.{distinct, candidates, judge_all, check_expression_lem}

-- What a rule must be for the judge not to panic on it: its text parses or is refused, and the
-- limit that it names is below 2^63 - 1.
abbrev pub Sane : {V : Type 0} → ⦃fl : Float64 V⦄ → ⦃st : Stats V⦄ → Run (Function V) → Type 0
Sane (ok f) = suc (pos_part (wanted f)) < 2 ^ 63
Sane err = Unit {0}
Sane panic = ⊥

abbrev pub Each : {A : Type 0} → (A → Type 0) → List A → Type 0
Each P [] = Unit {0}
Each P (x ∷ xs) = P x × Each P xs

pub Each-++ :
    {A : Type 0} (P : A → Type 0) (xs ys : List A) → Each P xs → Each P ys → Each P (xs ++ ys)
Each-++ P [] ys h k = k
Each-++ P (x ∷ xs) ys (p, h) k = (p, Each-++ P xs ys h k)

Each-filter :
    {V : Type 0} (P : Expression V → Type 0) (es : List (Expression V)) (item : JudgeItem V)
    → Each P es
    → Each P (filter_related_expressions es item)
unfolding filter_related_expressions
Each-filter P [] item h = tt
Each-filter P (e ∷ es) item (p, h) = elim (Bool-cases (tags_match e.tags (tags_for e item))) [
  | inl fits ↦ rw (fits, filter_related_expressions, tags_for) (p, Each-filter P es item h)
  | inr differs ↦ rw (differs, filter_related_expressions, tags_for) (Each-filter P es item h)
]

Each-distinct :
    {V : Type 0} (P : Expression V → Type 0) (handled : List ℤ) (es : List (Expression V))
    → Each P es
    → Each P (distinct handled es)
unfolding distinct
Each-distinct P handled [] h = tt
Each-distinct P handled (e ∷ es) (p, h) = elim (Bool-cases (is_handled e.id handled)) [
  | inl old ↦ rw (old, distinct) (Each-distinct P handled es h)
  | inr new ↦ rw (new, distinct) (p, Each-distinct P (e.id ∷ handled) es h)
]

pub Each-lookup :
    {A : Type 0} (P : A → Type 0) (key : String) (xs : List A) (m : List (String × List A))
    → Each (λ entry. Each P entry.1) m
    → lookup key m ≡ some xs
    → Each P xs
unfolding lookup
Each-lookup P key xs [] h e = cc
Each-lookup P key xs ((k, ys) ∷ m) (p, h) e = elim (Bool-cases (str_eq k key)) [
  | inl same ↦
      let found : some ys ≡ some xs = sym (rw (same, lookup) refl) ∙ e in
      let equal : ys ≡ xs = cc in subst (Each P) equal p
  | inr other ↦ Each-lookup P key xs m h (sym (rw (other, lookup) refl) ∙ e)
]

module _ {V : Type 0} ⦃fl : Float64 V⦄ ⦃st : Stats V⦄ (env : Env V) (cap : String → ℤ) where
  when_enough-Sound :
      (v : Verdict V) (now : ℤ) (event : V → Event V) (max_step : ℤ) (alarms : Alarms V)
      → HasPoint v
      → ((x : V) → cap (event x).id ≡ max_step)
      → IsInt64 max_step
      → Sound env cap alarms
      → Returns (Sound env cap) (
          if v.is_enough
          then send_event_if_need env v.vs v.is_triggered now (event v.left_value) max_step alarms
          else ok alarms)
  when_enough-Sound v now event max_step alarms (inl few) named b sound = rw few sound
  when_enough-Sound v now event max_step alarms (inr point) named b sound =
      elim (Bool-cases v.is_enough) [
        | inl enough ↦ rw enough (
            subst
              (λ m.
                Returns (Sound env cap)
                  (send_event_if_need env v.vs v.is_triggered now (event v.left_value) m alarms))
              (named v.left_value)
              (send_event_if_need-Sound env cap v.vs v.is_triggered now (event v.left_value) alarms
                point (rw (named v.left_value) b) sound))
        | inr few ↦ rw few sound
      ]

  judge_function-Sound :
      (fn : Run (Function V)) (l : List (JudgeItem V)) (now : ℤ) (event : V → Event V)
      (max_step : ℤ) (alarms : Alarms V)
      → Sane fn
      → Typed l
      → ((x : V) → cap (event x).id ≡ max_step)
      → IsInt64 max_step
      → Sound env cap alarms
      → Returns (Sound env cap) (judge_function env fn l now event max_step alarms)
  unfolding judge_function
  judge_function-Sound (ok f) l now event max_step alarms s t named b sound =
      Returns-bind HasPoint (Sound env cap) (compute f l) _ (compute-HasPoint f l t s)
        (λ v point. when_enough-Sound v now event max_step alarms point named b sound)
  judge_function-Sound err l now event max_step alarms s t named b sound = sound
  judge_function-Sound panic l now event max_step alarms s t named b sound = absurd s

  module _ (l : List (JudgeItem V)) (first : JudgeItem V) (now : ℤ) where
    -- A strategy that is sane and whose limit of alarms is the limit of its key.
    abbrev pub GoodStrategy : Strategy V → Type 0
    GoodStrategy s =
        Sane (parse_func_from_string s.func s.operator s.right_value)
        × IsInt64 s.max_step
        × (cap ("s_" +++ show s.id +++ "_" +++ env.primary_key first) ≡ s.max_step)

    abbrev pub GoodExpression : Expression V → Type 0
    GoodExpression e =
        Sane (parse_func_from_string e.func e.operator e.right_value)
        × IsInt64 e.max_step
        × (cap ("e_" +++ show e.id +++ "_" +++ env.primary_key first) ≡ e.max_step)

    strategy-Sound :
        (s : Strategy V) (alarms : Alarms V)
        → Typed l
        → GoodStrategy s
        → Sound env cap alarms
        → Returns (Sound env cap) (judge_item_with_strategy env l s first now alarms)
    unfolding judge_item_with_strategy
    strategy-Sound s alarms t (sane, b, e) sound =
        judge_function-Sound (parse_func_from_string s.func s.operator s.right_value) l now
          (strategy_event env s first) s.max_step alarms sane t (λ x. e) b sound

    expression-Sound :
        (s : Expression V) (alarms : Alarms V)
        → Typed l
        → GoodExpression s
        → Sound env cap alarms
        → Returns (Sound env cap) (judge_item_with_expression env l s first now alarms)
    unfolding judge_item_with_expression
    expression-Sound s alarms t (sane, b, e) sound =
        judge_function-Sound (parse_func_from_string s.func s.operator s.right_value) l now
          (expression_event env s first) s.max_step alarms sane t (λ x. e) b sound

    -- Every rule under every key is good.
    abbrev pub AllStrategies : List (String × List (Strategy V)) → Type 0
    AllStrategies m = Each (λ entry. Each GoodStrategy entry.1) m

    abbrev pub AllExpressions : List (String × List (Expression V)) → Type 0
    AllExpressions m = Each (λ entry. Each GoodExpression entry.1) m

    strategies_loop-Sound :
        (ss : List (Strategy V)) (alarms : Alarms V)
        → Typed l
        → Each GoodStrategy ss
        → Sound env cap alarms
        → Returns (Sound env cap) (strategies_loop env l ss first now alarms)
    unfolding strategies_loop
    strategies_loop-Sound [] alarms t good sound = sound
    strategies_loop-Sound (s ∷ ss) alarms t (good, goods) sound =
        Returns-bind (Sound env cap) (Sound env cap) _ _
          (elim (Bool-cases (tags_match s.tags first.tags)) [
            | inl fits ↦ rw fits (strategy-Sound s alarms t good sound)
            | inr differs ↦ rw differs sound
          ])
          (λ alarms' sound'. strategies_loop-Sound ss alarms' t goods sound')

    check_strategy-Sound :
        (m : List (String × List (Strategy V))) (alarms : Alarms V)
        → Typed l
        → AllStrategies m
        → Sound env cap alarms
        → Returns (Sound env cap) (check_strategy env m l first now alarms)
    unfolding check_strategy
    check_strategy-Sound m alarms t good sound =
        elim (Option-cases (lookup (first.endpoint +++ "/" +++ first.metric) m)) [
          | inl absent ↦ rw (absent, check_strategy) sound
          | inr (ss, found) ↦
              rw (found, check_strategy)
                (strategies_loop-Sound ss alarms t (Each-lookup GoodStrategy _ ss m good found)
                  sound)
        ]

    judge_all-Sound :
        (es : List (Expression V)) (alarms : Alarms V)
        → Typed l
        → Each GoodExpression es
        → Sound env cap alarms
        → Returns (Sound env cap) (judge_all env l first now es alarms)
    unfolding judge_all
    judge_all-Sound [] alarms t good sound = sound
    judge_all-Sound (e ∷ es) alarms t (good, goods) sound =
        Returns-bind (Sound env cap) (Sound env cap) _ _ (expression-Sound e alarms t good sound)
          (λ alarms' sound'. judge_all-Sound es alarms' t goods sound')

    candidates-Good :
        (m : List (String × List (Expression V))) (keys : List String)
        → AllExpressions m
        → Each GoodExpression (candidates m keys first)
    unfolding candidates
    candidates-Good m [] good = tt
    candidates-Good m (key ∷ keys) good = elim (Option-cases (lookup key m)) [
      | inl absent ↦ rw (absent, candidates) (candidates-Good m keys good)
      | inr (es, found) ↦
          rw (found, candidates)
            (Each-++ GoodExpression (filter_related_expressions es first) _
              (Each-filter GoodExpression es first (Each-lookup GoodExpression key es m good found))
              (candidates-Good m keys good))
    ]

    -- With rules that parse or are refused, with limits below 2^63 - 1 and one limit of alarms for
    -- each key of an event, `Judge` on a window with a counter type returns, and every last event
    -- has a known status and a number from 1 to the limit of its rule (or 1) if it was so before.
    pub judge-Sound :
        (sm : List (String × List (Strategy V))) (em : List (String × List (Expression V)))
        (alarms : Alarms V)
        → Typed l
        → AllStrategies sm
        → AllExpressions em
        → Sound env cap alarms
        → Returns (Sound env cap) (judge env sm em l first now alarms)
    unfolding judge
    judge-Sound sm em alarms t gs ge sound =
        Returns-bind (Sound env cap) (Sound env cap) _ _ (check_strategy-Sound sm alarms t gs sound)
          (λ alarms' sound'. rw (check_expression_lem env l first now em alarms' (pos 0)).0 (
            judge_all-Sound _ alarms' t
              (Each-distinct GoodExpression [] _
                (candidates-Good em (build_keys_from_metric_and_tags first) ge))
              sound'))
