-- ===== src/Aggregator/Expression/Mode.antt =====
-- What stands behind the last bracket of a valid expression: nothing, or a comparison to a number.
use ref_falcon.Prelude.{
  ℕ, ◌≡◌, refl, sym, ◌∙◌, subst, Bool, true, false, ◌&&◌, ◌||◌, List, [], ◌∷◌, length, Option, none,
  some, if◌then◌else◌, ◌==◌, Bool-cases, inl, inr, ◌⊎◌, arith,
}
use ref_falcon.Prelude.Text.{codes}
use ref_falcon.Judge.Parse.{bytes_eq}
use ref_falcon.Judge.Parse.Args.{bytes_eq→eq}
use ref_falcon.Aggregator.Expression.{
  is_separator, split_counter, term_end, sum_end, need_compute, is_digit, digits_end, starts_digit,
  fraction, number_only, comparison, ends, compares, closes, match_mode_0, match_mode_1,
  match_mode_2, match_mode_3, has_wide_paren, expression_valid,
}
use ref_falcon.Aggregator.Expression.Split.{mode_of, term_end-Ends, sum_end-Ends, separator_more}

-- No byte of a text is a separator.
abbrev pub Plain : List ℕ → Type 0
Plain [] = Unit {0}
Plain (c ∷ s) = (is_separator c ≡ false) × Plain s

pub split-Plain : (inside : Bool) (s : List ℕ) → Plain s → split_counter inside s ≡ s ∷ []
unfolding split_counter
split-Plain inside [] p = refl
split-Plain inside (c ∷ s) p = rw (p.0, split-Plain false s p.1)

mode-Plain : (inside : Bool) (s : List ℕ) → Plain s → mode_of inside s ≡ s
mode-Plain inside s p = rw (split-Plain inside s p)

both : (a b : Bool) → (a && b) ≡ true → (a ≡ true) × (b ≡ true)
both true true h = (refl, refl)
both true false h = cc
both false b h = cc

digit-plain : (c : ℕ) → is_digit c ≡ true → is_separator c ≡ false
digit-plain c h = ground (arith, h)

digits_end-Plain : (s : List ℕ) → Plain (digits_end s) → Plain s
unfolding digits_end
digits_end-Plain [] p = tt
digits_end-Plain (c ∷ s) p = elim (Bool-cases (is_digit c)) [
  | inl digit ↦ (
    digit-plain c digit,
    digits_end-Plain s (subst (λ b. Plain (if b then digits_end s else c ∷ s)) digit p),
  )
  | inr other ↦ subst (λ b. Plain (if b then digits_end s else c ∷ s)) other p
]

-- A text with no more than digits.
no_more : List ℕ → Bool
no_more [] = true
no_more (c ∷ s) = false

no_more-Plain : (s : List ℕ) → no_more (digits_end s) ≡ true → Plain s
unfolding no_more
no_more-Plain s h = digits_end-Plain s (nothing (digits_end s) h)
  where
    nothing : (r : List ℕ) → no_more r ≡ true → Plain r
    nothing [] h = tt
    nothing (c ∷ s) h = cc

fraction-Plain : (s : List ℕ) → fraction s ≡ true → Plain s
unfolding no_more
fraction-Plain [] h = tt
fraction-Plain (c ∷ s) h =
    let b = both (c == b'.') _ h in
    let n = (both (starts_digit s) _ b.1).1 in
    (ground (arith, b.0), no_more-Plain s (same (digits_end s) n))
  where
    same : (r : List ℕ) → (elim r [ [] ↦ true | _ ∷ _ ↦ false ]) ≡ true → no_more r ≡ true
    same [] h = refl
    same (x ∷ r) h = cc

number_only-Plain : (s : List ℕ) → number_only s ≡ true → Plain s
unfolding number_only
number_only-Plain s h =
    digits_end-Plain s (fraction-Plain (digits_end s) ((both (starts_digit s) _ h).1))

abbrev pub is_sign : ℕ → Bool
is_sign c = (c == b'>' || c == b'<') || c == b'='

chosen :
    (gl e de n1 n2 : Bool)
    → (if gl then (if de then n1 else n2) else e && n2) ≡ true
    → ((gl || e) ≡ true) × (((de ≡ true) × (n1 ≡ true)) ⊎ (n2 ≡ true))
chosen true e true n1 n2 h = (refl, inl (refl, h))
chosen true e false n1 n2 h = (refl, inr h)
chosen false true de n1 n2 h = (refl, inr h)
chosen false false de n1 n2 h = cc

-- A comparison is a sign, an equals sign or nothing, and a number.
pub comparison_cases :
    (c d : ℕ) (s : List ℕ)
    → comparison (c ∷ d ∷ s) ≡ true
    → (is_sign c ≡ true)
      × (((d == b'=' ≡ true) × (number_only s ≡ true)) ⊎ (number_only (d ∷ s) ≡ true))
unfolding comparison
comparison_cases c d s h =
    chosen (c == b'>' || c == b'<') (c == b'=') (d == b'=') (number_only s) (number_only (d ∷ s)) h

sign-plain : (c : ℕ) → is_sign c ≡ true → is_separator c ≡ false
sign-plain c h = ground (arith, h)

comparison-Plain : (s : List ℕ) → comparison s ≡ true → Plain s
unfolding comparison
comparison-Plain [] h = cc
comparison-Plain (c ∷ []) h = cc
comparison-Plain (c ∷ d ∷ s) h =
    let (sign, rest) = comparison_cases c d s h in
    (
      sign-plain c sign,
      elim rest [
        | inl (equals, n) ↦ (ground (arith, equals), number_only-Plain s n)
        | inr n ↦ number_only-Plain (d ∷ s) n
      ],
    )

-- A mode that `compute` can read.
abbrev pub Readable : List ℕ → Type 0
Readable m = (m ≡ []) ⊎ (comparison m ≡ true)

ended : (behind : Option (List ℕ)) → ends behind ≡ true → behind ≡ some []
ended none h = cc
ended (some []) h = refl
ended (some (c ∷ s)) h = cc

compared :
    (behind : Option (List ℕ))
    → compares behind ≡ true
    → (s : List ℕ) × (behind ≡ some s) × (comparison s ≡ true)
compared none h = cc
compared (some s) h = (s, refl, h)

closed :
    (behind : Option (List ℕ))
    → closes behind ≡ true
    → (c : ℕ) × (s : List ℕ) × (behind ≡ some (c ∷ s)) × (c == b')' ≡ true) × (comparison s ≡ true)
closed none h = cc
closed (some []) h = cc
closed (some (c ∷ s)) h = let b = both (c == b')') (comparison s) h in (c, s, refl, b.0, b.1)

mode_0-Readable : (val : List ℕ) → match_mode_0 val ≡ true → Readable (mode_of false val)
unfolding match_mode_0 split_counter
mode_0-Readable val h =
    inl ((sum_end-Ends (length val) val [] (ended (sum_end (length val) val) h)).0 false)

mode_1-Readable : (val : List ℕ) → match_mode_1 val ≡ true → Readable (mode_of false val)
unfolding match_mode_1
mode_1-Readable val h =
    let (s, e, compare) = compared (term_end val) h in
    let mode = (term_end-Ends val s e).0 false ∙ mode-Plain true s (comparison-Plain s compare) in
    inr (subst (λ m. comparison m ≡ true) (sym mode) compare)

mode_2-Readable : (val : List ℕ) → match_mode_2 val ≡ true → Readable (mode_of false val)
unfolding match_mode_2
mode_2-Readable [] h = cc
mode_2-Readable (o ∷ val) h =
    let (opens, closes) = both (o == b'(') _ h in
    let (c, s, e, closing, compare) = closed (sum_end (length val) val) closes in
    let mode =
      (separator_more false o val (ground (arith, opens))).0
      ∙ (sum_end-Ends (length val) val (c ∷ s) e).0 true
      ∙ (separator_more true c s (ground (arith, closing))).0
      ∙ mode-Plain true s (comparison-Plain s compare) in
    inr (subst (λ m. comparison m ≡ true) (sym mode) compare)

Plain-counter : (s : List ℕ) → Plain s → need_compute s ≡ false
unfolding need_compute
Plain-counter [] p = refl
Plain-counter (x ∷ []) p = refl
Plain-counter (x ∷ y ∷ s) p =
    let tail = Plain-counter (y ∷ s) p.1 in without_dollar x y (need_compute (y ∷ s)) p.0 tail
  where
    without_dollar :
        (x y : ℕ) (later : Bool)
        → is_separator x ≡ false
        → later ≡ false
        → ((x == b'$' && y == b'(') || later) ≡ false
    without_dollar x y later other tail = ground (arith, other, tail)

mode_3-counter : (val : List ℕ) → match_mode_3 val ≡ true → need_compute val ≡ false
unfolding match_mode_3 no_more
mode_3-counter val h =
    Plain-counter val (no_more-Plain val (same (digits_end val) ((both (starts_digit val) _ h).1)))
  where
    same : (r : List ℕ) → (elim r [ [] ↦ true | _ ∷ _ ↦ false ]) ≡ true → no_more r ≡ true
    same [] h = refl
    same (x ∷ r) h = cc

dollar-counter : (val : List ℕ) → bytes_eq val (codes "$#") ≡ true → need_compute val ≡ false
unfolding need_compute
dollar-counter val h =
    subst (λ s. need_compute s ≡ false) (sym (bytes_eq→eq val (codes "$#") h)) refl

one_of :
    (wide hosts m0 m1 m2 m3 : Bool)
    → (if wide then false else if hosts then true else m0 || m1 || m2 || m3) ≡ true
    → (hosts ≡ true) ⊎ (m0 ≡ true) ⊎ (m1 ≡ true) ⊎ (m2 ≡ true) ⊎ (m3 ≡ true)
one_of true hosts m0 m1 m2 m3 h = cc
one_of false true m0 m1 m2 m3 h = inl refl
one_of false false true m1 m2 m3 h = inr (inl refl)
one_of false false false true m2 m3 h = inr (inr (inl refl))
one_of false false false false true m3 h = inr (inr (inr (inl refl)))
one_of false false false false false m3 h = inr (inr (inr (inr h)))

computed : (val : List ℕ) → need_compute val ≡ true → need_compute val ≡ false → ⊥
computed val h n = cc

-- Behind the last bracket of an expression that is valid and to be computed stands nothing or a
-- comparison.
pub valid-Readable :
    (val : List ℕ)
    → expression_valid val ≡ true
    → need_compute val ≡ true
    → Readable (mode_of false val)
unfolding expression_valid
valid-Readable val v need =
    elim (one_of (has_wide_paren val) (bytes_eq val (codes "$#")) (match_mode_0 val)
      (match_mode_1 val) (match_mode_2 val) (match_mode_3 val) v) [
        | inl hosts ↦ absurd (computed val need (dollar-counter val hosts))
        | inr (inl m) ↦ mode_0-Readable val m
        | inr (inr (inl m)) ↦ mode_1-Readable val m
        | inr (inr (inr (inl m))) ↦ mode_2-Readable val m
        | inr (inr (inr (inr m))) ↦ absurd (computed val need (mode_3-counter val m))
      ]
