-- ===== src/Judge/Func/Meaning.antt =====
-- When the functions trigger, and what max and min return.
use ref_falcon.Prelude.{
  ◌↔◌, ℕ, zero, suc, ◌^◌, ◌<◌, ◌≡◌, refl, sym, Bool, true, false, ◌&&◌, List, [], ◌∷◌, length, take,
  arith, ok, Returns, Bool-cases, inl, inr, ◌⊎◌, ap, ◌∙◌, leb, some, Option, Option-cases, leb→le,
}
use ref_falcon.Prelude.Int.{ℤ, pos, negsuc, pos_part, ◌<ℤ◌, ◌≤ℤ◌, leb_ℤ}
use ref_falcon.Float64.{Float64}
use ref_falcon.Judge.Types.{JudgeItem, HistoryData}
use ref_falcon.Judge.Func.{Params, Function, Stats, triggers, diff_of, larger, wanted, compute}
use ref_falcon.Prelude.Text.{first_byte}
use ref_falcon.Judge.Window.History.{points}
use ref_falcon.Judge.Func.Loops.{values, fold, every, count, first_change}
use mathlib.Core.Path.{subst}
use mathlib.Core.Option.{some-injective}
use ref_falcon.Judge.Func.Reference.{zero_value, reference}
use ref_falcon.Judge.Func.Compute.{compute_lem}

hits_iff :
    (num : ℤ) (k : ℕ)
    → ((leb_ℤ (pos 1) num && leb (pos_part num) k) ≡ true) ↔ (pos 0 <ℤ num) × (num ≤ℤ pos k)
hits_iff (pos zero) k = ground arith
hits_iff (pos (suc num)) k = ground arith
hits_iff (negsuc n) k = ground arith

module _ {V : Type 0} ⦃fl : Float64 V⦄ where
  abbrev pub All : (V → Type 0) → List V → Type 0
  All P [] = Unit {0}
  All P (v ∷ vs) = P v × All P vs

  abbrev pub Any : (V → Type 0) → List V → Type 0
  Any P [] = ⊥
  Any P (v ∷ vs) = P v ⊎ Any P vs

  every-All : (t : V → Bool) (vs : List V) → (every t vs ≡ true) ↔ All (λ v. t v ≡ true) vs
  every-All t [] = (λ _. tt, λ _. refl)
  every-All t (v ∷ vs) =
      let (to, from) = every-All t vs in (λ h. ground (arith, to), λ h. ground (arith, from h.1))

  -- A change triggers.
  abbrev pub Triggers : (V → Option V) → (V → Bool) → V → Type 0
  Triggers change t v = (c : V) × (change v ≡ some c) × (t c ≡ true)

  first_change-Any :
      (change : V → Option V) (t : V → Bool) (left : V) (vs : List V)
      → ((first_change change t left vs).1 ≡ true) ↔ Any (Triggers change t) vs
  first_change-Any change t left [] = (λ h. cc, λ h. absurd h)
  first_change-Any change t left (v ∷ vs) = elim (Option-cases (change v)) [
    | inl skip ↦
        let (to, from) = first_change-Any change t left vs in
        (λ h. inr (to (ground arith)), λ h. ground (arith, from))
    | inr (c, e) ↦
        let (to, from) = first_change-Any change t c vs in
        elim (Bool-cases (t c)) [
          | inl hit ↦ (λ h. inl (c, e, hit), λ h. ground arith)
          | inr miss ↦ (λ h. inr (to (ground arith)), λ h. ground (arith, from))
        ]
  ]

  Any-iff : (P Q : V → Type 0) (vs : List V) → ((v : V) → P v ↔ Q v) → Any P vs ↔ Any Q vs
  Any-iff P Q [] h = (λ a. a, λ a. a)
  Any-iff P Q (v ∷ vs) h =
      let (to, from) = Any-iff P Q vs h in
      (
        elim [ inl p ↦ inl ((h v).0 p) | inr r ↦ inr (to r) ],
        elim [ inl q ↦ inl ((h v).1 q) | inr r ↦ inr (from r) ],
      )

  Triggers-diff :
      (p : Params V) (first v : V)
      → Triggers (diff_of first) (triggers p) v ↔ (triggers p (fl.sub first v) ≡ true)
  Triggers-diff p first v = (
    λ h. subst (λ z. triggers p z ≡ true) (sym (some-injective (fl.sub first v) h.0 h.1)) h.2,
    λ h. (fl.sub first v, refl, h),
  )

  diff-Any :
      (p : Params V) (first : V) (vs : List V)
      → ((first_change (diff_of first) (triggers p) zero_value vs).1 ≡ true)
        ↔ Any (λ v. triggers p (fl.sub first v) ≡ true) vs
  diff-Any p first vs =
      let (to, from) = first_change-Any (diff_of first) (triggers p) zero_value vs in
      let (there, back) =
        Any-iff (Triggers (diff_of first) (triggers p)) (λ v. triggers p (fl.sub first v) ≡ true) vs
          (Triggers-diff p first) in
      (λ h. there (to h), λ a. from (back a))

  -- The values are ordered by `<`, as all floats but NaN are.
  pub record Ordered (P : V → Type 0) : Type 0 where
    pub asym : (a b : V) → P a → P b → fl.lt a b ≡ true → fl.lt b a ≡ false
    pub trans :
        (a b c : V) → P a → P b → P c → fl.lt a b ≡ false → fl.lt b c ≡ false → fl.lt a c ≡ false

  module _ (P : V → Type 0) (o : Ordered P) where
    irrefl : (a : V) → P a → fl.lt a a ≡ false
    irrefl a pa = elim (Bool-cases (fl.lt a a)) [
      | inl less ↦ o.asym a a pa pa less
      | inr same ↦ same
    ]

    -- Nothing is above r.
    abbrev Above : V → V → List V → Type 0
    Above r s vs = P r × (fl.lt r s ≡ false) × All (λ v. fl.lt r v ≡ false) vs

    larger-Above :
        (r s v : V) (vs : List V) → P s → P v → Above r (larger s v) vs → Above r s (v ∷ vs)
    larger-Above r s v vs ps pv h = elim (Bool-cases (fl.lt s v)) [
      | inl up ↦
          let top : fl.lt r v ≡ false = ground (arith, h.1) in
          (h.0, o.trans r v s h.0 pv ps top (o.asym s v ps pv up), (top, h.2))
      | inr same ↦
          let top : fl.lt r s ≡ false = ground (arith, h.1) in
          (h.0, top, (o.trans r s v h.0 ps pv top same, h.2))
    ]

    larger_either : (s v : V) → P s → P v → P (larger s v)
    larger_either s v ps pv = elim (Bool-cases (fl.lt s v)) [
      | inl up ↦ rw up pv
      | inr same ↦ rw same ps
    ]

    fold-Above : (s : V) (vs : List V) → P s → All P vs → Above (fold larger s vs) s vs
    fold-Above s [] ps pv = (ps, irrefl s ps, tt)
    fold-Above s (v ∷ vs) ps pv =
        larger-Above (fold larger s (v ∷ vs)) s v vs ps pv.0
          (fold-Above (larger s v) vs (larger_either s v ps pv.0) pv.1)

module _ {V : Type 0} ⦃fl : Float64 V⦄ ⦃st : Stats V⦄ where
  -- A window that offers enough points for a function.
  pub record Enough (f : Function V) (x : JudgeItem V) (xs : List (JudgeItem V)) (n c : ℕ)
      : Type 0 where
    pub typed : first_byte x.judge_type ≡ some c
    pub limited : wanted f ≡ pos (suc n)
    pub bounded : suc (suc n) < 2 ^ 63
    pub enough : leb (suc n) (length (points c x xs)) ≡ true

  -- The points that the function sees.
  abbrev pub seen : JudgeItem V → List (JudgeItem V) → ℕ → ℕ → List (HistoryData V)
  seen x xs n c = take (suc n) (points c x xs)

  nonempty :
      (n : ℕ) (l : List (HistoryData V))
      → leb (suc n) (length l) ≡ true
      → (d : HistoryData V) × (ds : List (HistoryData V)) × (take (suc n) l ≡ d ∷ ds)
  nonempty n [] h = absurd (omega (arith, leb→le (suc n) 0 h))
  nonempty n (d ∷ l) h = (d, take n l, refl)

  all_points :
      (f : Function V) (x : JudgeItem V) (xs : List (JudgeItem V)) (n c : ℕ)
      → Enough f x xs n c
      → (d : HistoryData V) × (ds : List (HistoryData V)) × (seen x xs n c ≡ d ∷ ds)
        × (compute f (x ∷ xs) ≡ ok (reference f d ds))
  all_points f x xs n c e =
      let (d, ds, same) = nonempty n (points c x xs) e.enough in
      (
        d,
        ds,
        same,
        compute_lem f x xs n c e.typed e.limited e.bounded ∙ ap ok (rw (e.enough, same)),
      )

  -- With enough points `all` triggers exactly when every point meets the condition.
  pub compute_all_iff :
      (p : Params V) (x : JudgeItem V) (xs : List (JudgeItem V)) (n c : ℕ)
      → Enough (Function.all p) x xs n c
      → Returns
          (λ r. (r.is_triggered ≡ true) ↔ All (λ v. triggers p v ≡ true) (values (seen x xs n c)))
          (compute (Function.all p) (x ∷ xs))
  compute_all_iff p x xs n c e =
      let (d, ds, same, result) = all_points (Function.all p) x xs n c e in
      rw (result, same) (every-All (triggers p) (values (d ∷ ds)))

  -- With enough points `diff` triggers exactly when the newest value less one of the older ones
  -- meets the condition.
  pub compute_diff_iff :
      (p : Params V) (x : JudgeItem V) (xs : List (JudgeItem V)) (n c : ℕ)
      → Enough (Function.diff p) x xs n c
      → Returns
          (λ r.
            (d : HistoryData V) × (ds : List (HistoryData V)) × (seen x xs n c ≡ d ∷ ds)
            × ((r.is_triggered ≡ true)
                ↔ Any (λ v. triggers p (fl.sub d.value v) ≡ true) (values ds)))
          (compute (Function.diff p) (x ∷ xs))
  compute_diff_iff p x xs n c e =
      let (d, ds, same, result) = all_points (Function.diff p) x xs n c e in
      rw result (d, ds, same, diff-Any p d.value (values ds))

  -- With enough points `lookup` triggers exactly when Num is positive and at least Num points meet
  -- the condition.
  pub compute-lookup_iff :
      (num : ℤ) (p : Params V) (x : JudgeItem V) (xs : List (JudgeItem V)) (n c : ℕ)
      → Enough (Function.lookup num p) x xs n c
      → Returns
          (λ r.
            (r.is_triggered ≡ true)
            ↔ (pos 0 <ℤ num) × (num ≤ℤ pos (count (triggers p) (values (seen x xs n c)))))
          (compute (Function.lookup num p) (x ∷ xs))
  compute-lookup_iff num p x xs n c e =
      let (d, ds, same, result) = all_points (Function.lookup num p) x xs n c e in
      rw (result, same) (hits_iff num (count (triggers p) (values (d ∷ ds))))

  -- With enough points, none of them NaN, nothing among them is above what `max` compares.
  pub compute_max_bound :
      (P : V → Type 0) (p : Params V) (x : JudgeItem V) (xs : List (JudgeItem V)) (n c : ℕ)
      → Ordered P
      → Enough (Function.max p) x xs n c
      → All P (values (seen x xs n c))
      → Returns
          (λ r.
            All (λ v. fl.lt r.left_value v ≡ false) (values (seen x xs n c))
            × (r.is_triggered ≡ triggers p r.left_value))
          (compute (Function.max p) (x ∷ xs))
  compute_max_bound P p x xs n c o e ps =
      let (d, ds, same, result) = all_points (Function.max p) x xs n c e in
      let good : All P (values (d ∷ ds)) = subst (λ l. All P (values l)) same ps in
      let top = fold-Above P o d.value (values ds) good.0 good.1 in
      rw (result, same) ((top.1, top.2), refl)
