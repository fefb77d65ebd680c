-- ===== src/Aggregator/Run/Comparing.antt =====
-- The comparison at the end of a valid expression is found by the search of compareSum.
use ref_falcon.Prelude.{
  ℕ, ◌≡◌, refl, ap, sym, subst, Bool, true, false, ◌&&◌, List, [], ◌∷◌, Option, none, some, ◌==◌,
  inl, inr, arith,
}
use ref_falcon.Aggregator.Expression.{is_digit, number_only, comparison}
use ref_falcon.Aggregator.Expression.Mode.{is_sign, comparison_cases}
use ref_falcon.Aggregator.Run.{is_comparing, is_numeric, match_here, run_of, find_comparison}

run_true :
    (p : ℕ → Bool) (c : ℕ) (s : List ℕ)
    → p c ≡ true
    → run_of p (c ∷ s) ≡ (c ∷ (run_of p s).0, (run_of p s).1)
unfolding run_of
run_true p c s h = rw h

run_false : (p : ℕ → Bool) (c : ℕ) (s : List ℕ) → p c ≡ false → run_of p (c ∷ s) ≡ ([], c ∷ s)
unfolding run_of
run_false p c s h = rw h

digit-comparing : (c : ℕ) → is_digit c ≡ true → is_comparing c ≡ false
digit-comparing c h = ground (arith, h)

digit-numeric : (c : ℕ) → is_digit c ≡ true → is_numeric c ≡ true
digit-numeric c h = ground (arith, h)

sign-comparing : (c : ℕ) → is_sign c ≡ true → is_comparing c ≡ true
sign-comparing c h = ground (arith, h)

equals-comparing : (c : ℕ) → c == b'=' ≡ true → is_comparing c ≡ true
equals-comparing c h = ground (arith, h)

number_start :
    (s : List ℕ) → number_only s ≡ true → (c : ℕ) × (t : List ℕ) × (s ≡ c ∷ t) × (is_digit c ≡ true)
unfolding number_only
number_start [] h = cc
number_start (c ∷ t) h = (c, t, refl, digit (is_digit c) _ h)
  where
    digit : (a b : Bool) → (a && b) ≡ true → a ≡ true
    digit true b h = refl
    digit false b h = cc

abbrev at_head : List ℕ → Option (List ℕ × List ℕ)
at_head s = match_here (run_of is_comparing s) (run_of is_numeric (run_of is_comparing s).1)

one_sign :
    (c x : ℕ) (t : List ℕ)
    → is_comparing c ≡ true
    → is_digit x ≡ true
    → at_head (c ∷ x ∷ t) ≡ some (c ∷ [], x ∷ (run_of is_numeric t).0)
one_sign c x t sign digit = rw (
  run_true is_comparing c (x ∷ t) sign,
  run_false is_comparing x t (digit-comparing x digit),
  run_true is_numeric x t (digit-numeric x digit),
)

two_signs :
    (c d x : ℕ) (t : List ℕ)
    → is_comparing c ≡ true
    → is_comparing d ≡ true
    → is_digit x ≡ true
    → at_head (c ∷ d ∷ x ∷ t) ≡ some (c ∷ d ∷ [], x ∷ (run_of is_numeric t).0)
two_signs c d x t sign equals digit = rw (
  run_true is_comparing c (d ∷ x ∷ t) sign,
  run_true is_comparing d (x ∷ t) equals,
  run_false is_comparing x t (digit-comparing x digit),
  run_true is_numeric x t (digit-numeric x digit),
)

found_at_head :
    (c : ℕ) (s : List ℕ) (m : List ℕ × List ℕ)
    → at_head (c ∷ s) ≡ some m
    → find_comparison (c ∷ s) ≡ some m
unfolding find_comparison
found_at_head c s m h = ap (λ o. elim o [ none ↦ find_comparison s | some n ↦ some n ]) h

pub find_comparison-found :
    (s : List ℕ) → comparison s ≡ true → (m : List ℕ × List ℕ) × (find_comparison s ≡ some m)
unfolding comparison
find_comparison-found [] h = cc
find_comparison-found (c ∷ []) h = cc
find_comparison-found (c ∷ d ∷ s) h =
    let (sign, rest) = comparison_cases c d s h in
    elim rest [
      | inl (equals, n) ↦
          let (x, t, e, digit) = number_start s n in
          let m : List ℕ × List ℕ = (c ∷ d ∷ [], x ∷ (run_of is_numeric t).0) in
          (
            m,
            found_at_head c (d ∷ s) m (
                subst (λ u. at_head (c ∷ d ∷ u) ≡ some m) (sym e)
                  (two_signs c d x t (sign-comparing c sign) (equals-comparing d equals) digit)),
          )
      | inr n ↦
          let (x, t, e, digit) = number_start (d ∷ s) n in
          let m : List ℕ × List ℕ = (c ∷ [], x ∷ (run_of is_numeric t).0) in
          (
            m,
            found_at_head c (d ∷ s) m (
                subst (λ u. at_head (c ∷ u) ≡ some m) (sym e)
                  (one_sign c x t (sign-comparing c sign) digit)),
          )
    ]
