-- ===== src/Judge/Func.antt =====
-- judge/store/func.go: the functions of a strategy over the latest values of a counter.
pub mod Loops
pub mod Reference
pub mod Compute
pub mod Meaning
pub mod Total
use ref_falcon.Prelude.{
  ℕ, zero, suc, ◌-◌, Bool, true, false, ◌||◌, List, [], ◌∷◌, map, get_elem?, Option, none, some,
  if◌then◌else◌, Run, ok, must, ◌>>=◌,
}
use ref_falcon.Prelude.Int.{ℤ, pos, pos_part, eqb_ℤ, add64}
use ref_falcon.Prelude.Text.{String, str_eq}
use ref_falcon.Float64.{Float64}
use ref_falcon.Judge.Types.{JudgeItem, HistoryData}
use ref_falcon.Judge.Window.{history_data}

-- The fields that all nine types of function share.
pub record Params (V : Type 0) : Type 0 where
  pub limit : ℤ
  pub operator : String
  pub right_value : V

-- The implementations of the interface `Function`. `lookup` has its field Num in front.
pub data Function (V : Type 0) : Type 0 where
  max min all sum avg diff stddev pdiff : Params V → Function V
  lookup : ℤ → Params V → Function V

-- The named results of `Compute`.
pub record Verdict (V : Type 0) : Type 0 where
  pub vs : List (HistoryData V)
  pub left_value : V
  pub is_triggered : Bool
  pub is_enough : Bool

-- `utils.ComputeStdDeviation` and `utils.ComputeMean` are not part of the repository.
pub record Stats (V : Type 0) : Type 0 where
  pub std_deviation : List V → V
  pub mean : List V → V

module _ {V : Type 0} ⦃fl : Float64 V⦄ where
  unfoldable pub check_is_triggered : V → String → V → Bool
  check_is_triggered left operator right =
      if str_eq operator "=" || str_eq operator "=="
      then fl.lt (fl.abs (fl.sub left right)) (fl.lit (pos 1) 4)
      else if str_eq operator "!="
      then fl.lt (fl.lit (pos 1) 4) (fl.abs (fl.sub left right))
      else if str_eq operator "<"
      then fl.lt left right
      else if str_eq operator "<="
      then fl.le left right
      else if str_eq operator ">"
      then fl.lt right left
      else if str_eq operator ">="
      then fl.le right left
      else false

  -- What `checkIsTriggered` says of a value under the parameters of a function.
  abbrev pub triggers : Params V → V → Bool
  triggers p v = check_is_triggered v p.operator p.right_value

  -- A return before the first assignment to leftValue and isTriggered.
  abbrev pub not_enough : List (HistoryData V) → Verdict V
  not_enough vs = record {
    vs = vs;
    left_value = fl.lit (pos 0) 0;
    is_triggered = false;
    is_enough = false;
  }

  -- `for ; i < Limit; i++ { s = f(s, vs[i].Value) }`, with the rounds that are left.
  unfoldable pub fold_loop : (V → V → V) → ℕ → ℕ → List (HistoryData V) → V → Run V
  fold_loop f zero i vs s = ok s
  fold_loop f (suc n) i vs s = do x ← must (get_elem? vs i); fold_loop f n (suc i) vs (f s x.value)

  -- The loop of `AllFunction`.
  unfoldable pub all_loop : Params V → ℕ → ℕ → List (HistoryData V) → Run Bool
  all_loop p zero i vs = ok true
  all_loop p (suc n) i vs = do
    x ← must (get_elem? vs i)
    elim (triggers p x.value) [ true ↦ all_loop p n (suc i) vs | false ↦ ok false ]

  -- The loop of `LookupFunction`; `n` values have met the condition so far.
  unfoldable pub lookup_loop : ℤ → Params V → ℕ → ℕ → ℕ → List (HistoryData V) → Run Bool
  lookup_loop num p zero n i vs = ok false
  lookup_loop num p (suc k) n i vs = do
    x ← must (get_elem? vs i)
    elim (triggers p x.value) [
      | true ↦ elim (eqb_ℤ (pos (suc n)) num) [
        | true ↦ ok true
        | false ↦ lookup_loop num p k (suc n) (suc i) vs
      ]
      | false ↦ lookup_loop num p k n (suc i) vs
    ]

  -- The loop of `DiffFunction` and of `PDiffFunction`, over what each computes from vs[i].Value;
  -- `none` stands for `continue`. It returns leftValue and isTriggered.
  unfoldable pub change_loop :
      (V → Option V) → Params V → ℕ → ℕ → List (HistoryData V) → V → Run (V × Bool)
  change_loop change p zero i vs left = ok (left, false)
  change_loop change p (suc n) i vs left = do
    x ← must (get_elem? vs i)
    elim (change x.value) [
      | none ↦ change_loop change p n (suc i) vs left
      | some c ↦ elim (triggers p c) [
        | true ↦ ok (c, true)
        | false ↦ change_loop change p n (suc i) vs c
      ]
    ]

  abbrev pub diff_of : V → V → Option V
  diff_of first v = some (fl.sub first v)

  abbrev pub pdiff_of : V → V → Option V
  pdiff_of first v =
      if fl.eq v (fl.lit (pos 0) 0)
      then none
      else some (fl.mul (fl.div (fl.sub first v) v) (fl.lit (pos 100) 0))

  -- The bodies below the test of isEnough.
  unfoldable pub fold_body :
      (V → V → V) → ℕ → ℕ → V → (V → V) → Params V → List (HistoryData V) → Run (Verdict V)
  unfolding fold_loop
  fold_body f rounds from start finish p vs = do
    s ← fold_loop f rounds from vs start
    ok (record {
      vs = vs;
      left_value = finish s;
      is_triggered = triggers p (finish s);
      is_enough = true;
    })

  -- `if max < v { max = v }`, and `if min > v { min = v }`.
  abbrev pub larger : V → V → V
  larger m v = if fl.lt m v then v else m

  abbrev pub smaller : V → V → V
  smaller m v = if fl.lt v m then v else m

  unfoldable pub best_body : (V → V → V) → Params V → List (HistoryData V) → Run (Verdict V)
  unfolding fold_body
  best_body better p vs = do
    first ← must (get_elem? vs 0)
    fold_body better (pos_part p.limit - 1) 1 first.value (λ s. s) p vs

  unfoldable pub all_body : Params V → List (HistoryData V) → Run (Verdict V)
  unfolding all_loop
  all_body p vs = do
    t ← all_loop p (pos_part p.limit) 0 vs
    first ← must (get_elem? vs 0)
    ok (record { vs = vs; left_value = first.value; is_triggered = t; is_enough = true })

  unfoldable pub lookup_body : ℤ → Params V → List (HistoryData V) → Run (Verdict V)
  unfolding lookup_loop
  lookup_body num p vs = do
    first ← must (get_elem? vs 0)
    t ← lookup_loop num p (pos_part p.limit) 0 0 vs
    ok (record { vs = vs; left_value = first.value; is_triggered = t; is_enough = true })

  unfoldable pub change_body :
      (V → V → Option V) → Params V → List (HistoryData V) → Run (Verdict V)
  unfolding change_loop
  change_body change p [] = ok (not_enough [])
  change_body change p (first ∷ rest) = do
    (left, t) ←
        change_loop (change first.value) p (pos_part (add64 p.limit (pos 1)) - 1) 1 (first ∷ rest)
          (fl.lit (pos 0) 0)
    ok (record { vs = first ∷ rest; left_value = left; is_triggered = t; is_enough = true })

  module _ ⦃st : Stats V⦄ where
    unfoldable pub stddev_body : Params V → List (HistoryData V) → Run (Verdict V)
    stddev_body p [] = ok (not_enough [])
    stddev_body p (first ∷ rest) =
        let datas = map (λ (d : HistoryData V). d.value) (first ∷ rest) in
        let std = st.std_deviation datas in
        let mean = st.mean datas in
        let upper = fl.add mean (fl.mul p.right_value std) in
        let lower = fl.sub mean (fl.mul p.right_value std) in
        ok (record {
          vs = first ∷ rest;
          left_value = first.value;
          is_triggered = fl.lt first.value lower || fl.lt upper first.value;
          is_enough = true;
        })

    unfoldable pub body : Function V → List (HistoryData V) → Run (Verdict V)
    unfolding best_body fold_body all_body lookup_body change_body stddev_body
    body (max p) vs = best_body larger p vs
    body (min p) vs = best_body smaller p vs
    body (all p) vs = all_body p vs
    body (sum p) vs = fold_body fl.add (pos_part p.limit) 0 (fl.lit (pos 0) 0) (λ s. s) p vs
    body (avg p) vs =
        fold_body fl.add (pos_part p.limit) 0 (fl.lit (pos 0) 0) (λ s. fl.div s (fl.of_int p.limit))
          p vs
    body (diff p) vs = change_body diff_of p vs
    body (pdiff p) vs = change_body pdiff_of p vs
    body (stddev p) vs = stddev_body p vs
    body (lookup num p) vs = lookup_body num p vs

    -- How many points the function asks for.
    abbrev pub wanted : Function V → ℤ
    wanted (max p) = p.limit
    wanted (min p) = p.limit
    wanted (all p) = p.limit
    wanted (sum p) = p.limit
    wanted (avg p) = p.limit
    wanted (diff p) = add64 p.limit (pos 1)
    wanted (pdiff p) = add64 p.limit (pos 1)
    wanted (stddev p) = p.limit
    wanted (lookup num p) = p.limit

    -- The nine methods `Compute`, which begin alike.
    unfoldable pub compute : Function V → List (JudgeItem V) → Run (Verdict V)
    unfolding body
    compute f l = do
      (vs, enough) ← history_data l (wanted f)
      if enough then body f vs else ok (not_enough vs)
