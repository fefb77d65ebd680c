-- ===== src/Judge/Rules/Once.antt =====
-- `CheckExpression` judges each related expression once.
use ref_falcon.Prelude.{
  ◌≡◌, refl, sym, ap, ◌∙◌, inl, inr, true, false, not, ◌&&◌, List, [], ◌∷◌, ◌++◌, none, some, arith,
  Run, ok, err, panic, ◌>>=◌, Bool-cases, Option-cases,
}
use ref_falcon.Prelude.Int.{ℤ}
use ref_falcon.Prelude.Text.{String, lookup}
use ref_falcon.Prelude.{>>=_assoc, >>=_cong}
use ref_falcon.Float64.{Float64}
use ref_falcon.Judge.Types.{JudgeItem, Expression}
use ref_falcon.Judge.Func.{Stats}
use ref_falcon.Judge.Alarm.{Env, Alarms}
use ref_falcon.Judge.Rules.{
  filter_related_expressions, is_handled, judge_item_with_expression, expressions_loop, keys_loop,
  check_expression, build_keys_from_metric_and_tags,
}

is_handled-head : (id : ℤ) (handled : List ℤ) → is_handled id (id ∷ handled) ≡ true
unfolding is_handled
is_handled-head id handled = ground arith

-- No id stands twice.
abbrev pub NoRepeat : List ℤ → Type 0
NoRepeat [] = Unit {0}
NoRepeat (i ∷ is) = (is_handled i is ≡ false) × NoRepeat is

module _ {V : Type 0} where
  -- The expressions of a list whose id was not met before, each id once.
  unfoldable pub distinct : List ℤ → List (Expression V) → List (Expression V)
  distinct handled [] = []
  distinct handled (e ∷ es) = elim (is_handled e.id handled) [
    | true ↦ distinct handled es
    | false ↦ e ∷ distinct (e.id ∷ handled) es
  ]

  -- The ids that have been met behind the list.
  pub met : List ℤ → List (Expression V) → List ℤ
  met handled [] = handled
  met handled (e ∷ es) = elim (is_handled e.id handled) [
    | true ↦ met handled es
    | false ↦ met (e.id ∷ handled) es
  ]

  distinct-append :
      (handled : List ℤ) (es fs : List (Expression V))
      → distinct handled (es ++ fs) ≡ distinct handled es ++ distinct (met handled es) fs
  unfolding distinct met
  distinct-append handled [] fs = refl
  distinct-append handled (e ∷ es) fs = elim (Bool-cases (is_handled e.id handled)) [
    | inl old ↦ rw (old, distinct, met) (distinct-append handled es fs)
    | inr new ↦ rw (new, distinct, met) (ap (◌∷◌ e) (distinct-append (e.id ∷ handled) es fs))
  ]

  met-append :
      (handled : List ℤ) (es fs : List (Expression V))
      → met handled (es ++ fs) ≡ met (met handled es) fs
  unfolding met
  met-append handled [] fs = refl
  met-append handled (e ∷ es) fs = elim (Bool-cases (is_handled e.id handled)) [
    | inl old ↦ rw (old, met) (met-append handled es fs)
    | inr new ↦ rw (new, met) (met-append (e.id ∷ handled) es fs)
  ]

  drop_ids :
      (ids : List ℤ) (m : Run (Alarms V))
      → ((m >>= λ a. ok (ids, a)) >>= λ (r : List ℤ × Alarms V). ok r.1) ≡ m
  drop_ids ids (ok a) = refl
  drop_ids ids err = refl
  drop_ids ids panic = refl

  abbrev pub ids : List (Expression V) → List ℤ
  ids [] = []
  ids (e ∷ es) = e.id ∷ ids es

  -- An id is in the shortened list exactly when it is in the list and was not met before.
  is_handled-distinct :
      (id : ℤ) (handled : List ℤ) (es : List (Expression V))
      → is_handled id (ids (distinct handled es))
        ≡ (not (is_handled id handled) && is_handled id (ids es))
  unfolding is_handled distinct
  is_handled-distinct id handled [] = ground arith
  is_handled-distinct id handled (e ∷ es) =
      ground (arith, is_handled-distinct id handled es, is_handled-distinct id (e.id ∷ handled) es)

  distinct-NoRepeat :
      (handled : List ℤ) (es : List (Expression V)) → NoRepeat (ids (distinct handled es))
  unfolding distinct
  distinct-NoRepeat handled [] = tt
  distinct-NoRepeat handled (e ∷ es) = elim (Bool-cases (is_handled e.id handled)) [
    | inl old ↦ rw (old, distinct) (distinct-NoRepeat handled es)
    | inr new ↦
        rw (new, distinct)
          (
            is_handled-distinct e.id (e.id ∷ handled) es ∙ rw (is_handled-head e.id handled),
            distinct-NoRepeat (e.id ∷ handled) es,
          )
  ]

  -- The related expressions under the keys, in the order of the keys.
  unfoldable pub candidates :
      List (String × List (Expression V)) → List String → JudgeItem V → List (Expression V)
  candidates m [] item = []
  candidates m (key ∷ keys) item =
      let rest = candidates m keys item in
      elim (lookup key m) [ none ↦ rest | some exps ↦ filter_related_expressions exps item ++ rest ]

  module _ ⦃fl : Float64 V⦄ ⦃st : Stats V⦄ (env : Env V) (l : List (JudgeItem V))
      (first : JudgeItem V) (now : ℤ) where
    -- Judge the expressions of a list, one behind the other.
    unfoldable pub judge_all : List (Expression V) → Alarms V → Run (Alarms V)
    judge_all [] alarms = ok alarms
    judge_all (e ∷ es) alarms = do
      alarms' ← judge_item_with_expression env l e first now alarms
      judge_all es alarms'

    judge_all-append :
        (es fs : List (Expression V)) (alarms : Alarms V)
        → judge_all (es ++ fs) alarms ≡ (judge_all es alarms >>= judge_all fs)
    unfolding judge_all
    judge_all-append [] fs alarms = refl
    judge_all-append (e ∷ es) fs alarms =
        >>=_cong (judge_item_with_expression env l e first now alarms) _ _ (judge_all-append es fs)
        ∙ sym (
            >>=_assoc (judge_item_with_expression env l e first now alarms) (judge_all es)
              (judge_all fs))

    abbrev with_ids : List ℤ → Alarms V → Run (List ℤ × Alarms V)
    with_ids ids a = ok (ids, a)

    expressions_loop_lem :
        (es : List (Expression V)) (handled : List ℤ) (alarms : Alarms V)
        → expressions_loop env l es first now handled alarms
          ≡ (judge_all (distinct handled es) alarms >>= with_ids (met handled es))
    unfolding expressions_loop judge_all distinct met
    expressions_loop_lem [] handled alarms = refl
    expressions_loop_lem (e ∷ es) handled alarms = elim (Bool-cases (is_handled e.id handled)) [
      | inl old ↦ rw (old, expressions_loop, distinct, met) (expressions_loop_lem es handled alarms)
      | inr new ↦
          rw (new, expressions_loop, distinct, met)
            (>>=_cong (judge_item_with_expression env l e first now alarms) _ _
                (expressions_loop_lem es (e.id ∷ handled))
              ∙ sym (
                  >>=_assoc (judge_item_with_expression env l e first now alarms)
                    (judge_all (distinct (e.id ∷ handled) es))
                    (with_ids (met (e.id ∷ handled) es))))
    ]

    chain :
        (k : List ℤ × Alarms V → Run (List ℤ × Alarms V)) (es cs : List (Expression V))
        (handled : List ℤ) (alarms : Alarms V)
        → ((h : List ℤ) (a : Alarms V)
            → k (h, a) ≡ (judge_all (distinct h cs) a >>= with_ids (met h cs)))
        → (expressions_loop env l es first now handled alarms >>= k)
          ≡ (judge_all (distinct handled (es ++ cs)) alarms >>= with_ids (met handled (es ++ cs)))
    chain k es cs handled alarms step =
        let ids = met handled es in
        let one = judge_all (distinct handled es) alarms in
        rw
          (
            expressions_loop_lem es handled alarms,
            distinct-append handled es cs,
            met-append handled es cs,
            judge_all-append (distinct handled es) (distinct ids cs) alarms,
          )
          (>>=_assoc one (with_ids ids) k
            ∙ >>=_cong one _ _ (step ids)
            ∙ sym (>>=_assoc one (judge_all (distinct ids cs)) (with_ids (met ids cs))))

    keys_loop_lem :
        (m : List (String × List (Expression V))) (keys : List String) (handled : List ℤ)
        (alarms : Alarms V)
        → keys_loop env m l keys first now handled alarms ≡ (
            judge_all (distinct handled (candidates m keys first)) alarms
            >>= with_ids (met handled (candidates m keys first)))
    unfolding keys_loop candidates
    keys_loop_lem m [] handled alarms = unfold judge_all distinct met in refl
    keys_loop_lem m (key ∷ keys) handled alarms = elim (Option-cases (lookup key m)) [
      | inl absent ↦ rw (absent, keys_loop, candidates) (keys_loop_lem m keys handled alarms)
      | inr (exps, found) ↦
          rw (found, keys_loop, candidates)
            (chain (λ r. keys_loop env m l keys first now r.0 r.1)
              (filter_related_expressions exps first) (candidates m keys first) handled alarms
              (keys_loop_lem m keys))
    ]

    -- The expressions that `CheckExpression` judges.
    abbrev pub judged : List (String × List (Expression V)) → List (Expression V)
    judged m = distinct [] (candidates m (build_keys_from_metric_and_tags first) first)

    -- `CheckExpression` judges, one behind the other in the order of the keys of the item, the
    -- related expressions under those keys; no id is judged twice, and every id that is related
    -- under some key is judged.
    pub check_expression_lem :
        (m : List (String × List (Expression V))) (alarms : Alarms V) (id : ℤ)
        → (check_expression env m l first now alarms ≡ judge_all (judged m) alarms)
          × NoRepeat (ids (judged m))
          × (is_handled id (ids (judged m))
              ≡ is_handled id (ids (candidates m (build_keys_from_metric_and_tags first) first)))
    unfolding check_expression
    check_expression_lem m alarms id =
        let es = candidates m (build_keys_from_metric_and_tags first) first in
        (
          rw (keys_loop_lem m (build_keys_from_metric_and_tags first) [] alarms)
              (drop_ids (met [] es) (judge_all (distinct [] es) alarms)),
          distinct-NoRepeat [] es,
          is_handled-distinct id [] es ∙ (unfold is_handled in refl),
        )
