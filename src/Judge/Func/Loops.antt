-- ===== src/Judge/Func/Loops.antt =====
-- The loops of the functions, against plain recursions over the values.
use ref_falcon.Prelude.{
  ℕ, zero, suc, ◌+◌, ◌<◌, ◌≡◌, refl, Bool, true, false, ◌&&◌, List, [], ◌∷◌, length, drop,
  drop-get_elem?, drop_all, arith, ok, inl, inr, ap, if◌then◌else◌, leb, some, none, Option,
  Option-cases, get_elem?,
}
use ref_falcon.Prelude.Int.{ℤ, pos, leb_ℤ}
use ref_falcon.Float64.{Float64}
use ref_falcon.Judge.Types.{HistoryData}
use ref_falcon.Judge.Func.{Params, triggers, fold_loop, all_loop, lookup_loop, change_loop}

module _ {V : Type 0} ⦃fl : Float64 V⦄ where
  abbrev pub values : List (HistoryData V) → List V
  values [] = []
  values (d ∷ ds) = d.value ∷ values ds

  abbrev pub fold : (V → V → V) → V → List V → V
  fold f s [] = s
  fold f s (v ∷ vs) = fold f (f s v) vs

  abbrev pub every : (V → Bool) → List V → Bool
  every t [] = true
  every t (v ∷ vs) = t v && every t vs

  abbrev pub count : (V → Bool) → List V → ℕ
  count t [] = 0
  count t (v ∷ vs) = let rest = count t vs in if t v then suc rest else rest

  -- The first change that triggers; else the last change.
  abbrev pub first_change : (V → Option V) → (V → Bool) → V → List V → V × Bool
  first_change change t left [] = (left, false)
  first_change change t left (v ∷ vs) = elim (change v) [
    | none ↦ first_change change t left vs
    | some c ↦ elim (t c) [ true ↦ (c, true) | false ↦ first_change change t c vs ]
  ]

  pub fold_loop_lem :
      (f : V → V → V) (n i : ℕ) (vs : List (HistoryData V)) (s : V)
      → i + n ≡ length vs
      → fold_loop f n i vs s ≡ ok (fold f s (values (drop i vs)))
  unfolding fold_loop
  fold_loop_lem f zero i vs s e = rw (drop_all i vs (omega arith))
  fold_loop_lem f (suc n) i vs s e =
      let (x, here, rest) = drop-get_elem? i vs (omega arith) in
      rw (here, rest) (fold_loop_lem f n (suc i) vs (f s x.value) (omega arith))

  pub all_loop_lem :
      (p : Params V) (n i : ℕ) (vs : List (HistoryData V))
      → i + n ≡ length vs
      → all_loop p n i vs ≡ ok (every (triggers p) (values (drop i vs)))
  unfolding all_loop
  all_loop_lem p zero i vs e = rw (drop_all i vs (omega arith))
  all_loop_lem p (suc n) i vs e =
      ground (arith, drop-get_elem? i vs, all_loop_lem p n (suc i) vs (omega arith))

  pub lookup_loop_lem :
      (num : ℕ) (p : Params V) (k n i : ℕ) (vs : List (HistoryData V))
      → i + k ≡ length vs
      → n < num
      → lookup_loop (pos num) p k n i vs
        ≡ ok (leb num (n + count (triggers p) (values (drop i vs))))
  unfolding lookup_loop
  lookup_loop_lem num p zero n i vs e h =
      rw (drop_all i vs (omega arith)) (ap (λ b. ok b) (ground arith))
  lookup_loop_lem num p (suc k) n i vs e h = ground (
    arith,
    drop-get_elem? i vs,
    lookup_loop_lem num p k n (suc i) vs (omega arith) h,
    lookup_loop_lem num p k (suc n) (suc i) vs (omega arith),
  )

  change_loop_step :
      (change : V → Option V) (p : Params V) (n i : ℕ) (vs : List (HistoryData V)) (left : V)
      (x : HistoryData V)
      → get_elem? vs i ≡ some x
      → drop i vs ≡ x ∷ drop (suc i) vs
      → ((c : V)
          → change_loop change p n (suc i) vs c
            ≡ ok (first_change change (triggers p) c (values (drop (suc i) vs))))
      → change_loop change p (suc n) i vs left
        ≡ ok (first_change change (triggers p) left (values (drop i vs)))
  unfolding change_loop
  change_loop_step change p n i vs left x here rest ih = elim (Option-cases (change x.value)) [
    | inl skip ↦ ground (arith, ih left)
    | inr (c, changed) ↦ ground (arith, ih c)
  ]

  pub change_loop_lem :
      (change : V → Option V) (p : Params V) (n i : ℕ) (vs : List (HistoryData V)) (left : V)
      → i + n ≡ length vs
      → change_loop change p n i vs left
        ≡ ok (first_change change (triggers p) left (values (drop i vs)))
  unfolding change_loop
  change_loop_lem change p zero i vs left e = rw (drop_all i vs (omega arith))
  change_loop_lem change p (suc n) i vs left e =
      let (x, here, rest) = drop-get_elem? i vs (omega arith) in
      change_loop_step change p n i vs left x here rest
        (λ c. change_loop_lem change p n (suc i) vs c (omega arith))

  -- A lookup for a number of hits that is not positive never ends early.
  pub lookup_loop_none :
      (num : ℤ) (p : Params V) (k n i : ℕ) (vs : List (HistoryData V))
      → i + k ≡ length vs
      → leb_ℤ (pos 1) num ≡ false
      → lookup_loop num p k n i vs ≡ ok false
  unfolding lookup_loop
  lookup_loop_none num p zero n i vs e h = refl
  lookup_loop_none num p (suc k) n i vs e h = ground (
    arith,
    drop-get_elem? i vs,
    lookup_loop_none num p k n (suc i) vs (omega arith) h,
    lookup_loop_none num p k (suc n) (suc i) vs (omega arith) h,
  )
