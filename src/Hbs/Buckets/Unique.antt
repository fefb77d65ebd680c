-- ===== src/Hbs/Buckets/Unique.antt =====
-- Which buckets are kept.
use ref_falcon.Prelude.{
  ℕ, suc, ◌+◌, ◌≡◌, ◌≢◌, ◌↔◌, refl, sym, ◌∙◌, ◌⊎◌, inl, inr, ◌<◌, true, false, List, [], ◌∷◌, ◌++◌,
  length, ◌==◌, arith, Bool-cases,
}
use ref_falcon.Prelude.Int.{ℤ, eqb_ℤ, eqb_ℤ-iff}
use ref_falcon.Hbs.Buckets.{
  slice_int_contains, slice_int_lt, slice_int_eq, is_valid, uniq_loop, uniq_tpl_buckets,
}

abbrev pub Among : ℤ → List ℤ → Type 0
Among x [] = ⊥
Among x (y ∷ ys) = (y ≡ x) ⊎ Among x ys

-- Every template of the first bucket is in the second.
abbrev pub Inside : List ℤ → List ℤ → Type 0
Inside [] b = Unit {0}
Inside (x ∷ a) b = Among x b × Inside a b

-- No bucket of the list has all the templates of the given one.
abbrev pub InsideNone : List ℤ → List (List ℤ) → Type 0
InsideNone a [] = Unit {0}
InsideNone a (b ∷ bs) = (¬ Inside a b) × InsideNone a bs

no_bool : {A : Type 0} → false ≡ true → A
no_bool e = absurd (not_true e)
  where
    not_true : false ≡ true → ⊥
    not_true e = cc

contains-Among : (b : List ℤ) (x : ℤ) → (slice_int_contains b x ≡ true) ↔ Among x b
unfolding slice_int_contains
contains-Among [] x = (no_bool, λ h. absurd h)
contains-Among (y ∷ b) x =
    let (to, from) = contains-Among b x in
    let (same, back) = eqb_ℤ-iff y x in
    elim (Bool-cases (eqb_ℤ y x)) [
      | inl e ↦ rw (e, slice_int_contains) (λ _. inl (same e), λ _. refl)
      | inr e ↦
          rw (e, slice_int_contains)
            (λ h. inr (to h), elim [ inl eq ↦ no_bool (sym e ∙ back eq) | inr h ↦ from h ])
    ]

lt-Inside : (a b : List ℤ) → (slice_int_lt a b ≡ true) ↔ Inside a b
unfolding slice_int_lt
lt-Inside [] b = (λ _. tt, λ _. refl)
lt-Inside (x ∷ a) b =
    let (to, from) = lt-Inside a b in
    let (has, back) = contains-Among b x in
    elim (Bool-cases (slice_int_contains b x)) [
      | inl e ↦ rw (e, slice_int_lt) (λ h. (has e, to h), λ h. from h.1)
      | inr e ↦ rw (e, slice_int_lt) (no_bool, λ h. no_bool (sym e ∙ back h.0))
    ]

-- No bucket of the list is the same list of templates.
abbrev pub NoTwin : List ℤ → List (List ℤ) → Type 0
NoTwin a [] = Unit {0}
NoTwin a (b ∷ bs) = (slice_int_eq a b ≡ false) × NoTwin a bs

other_index : (i j : ℕ) → i ≢ j → (i == j) ≡ false
other_index i j h = ground arith

same_index : (i : ℕ) → (i == i) ≡ true
same_index i = ground arith

-- One step of the loop over j, at another index and with no twin there.
step :
    (i : ℕ) (a : List ℤ) (j : ℕ) (b : List ℤ) (bs : List (List ℤ)) (P : Type 0)
    → i ≢ j
    → slice_int_eq a b ≡ false
    → (is_valid i a (suc j) bs ≡ true) ↔ P
    → (is_valid i a j (b ∷ bs) ≡ true) ↔ (¬ Inside a b) × P
unfolding is_valid
step i a j b bs P other differ (to, from) =
    let (inside, back) = lt-Inside a b in
    elim (Bool-cases (slice_int_lt a b)) [
      | inl e ↦
          rw (other_index i j other, differ, e, is_valid) (no_bool, λ h. absurd (h.0 (inside e)))
      | inr e ↦
          rw (other_index i j other, differ, e, is_valid)
            (λ h. (λ ins. no_bool (sym e ∙ back ins), to h), λ h. from h.1)
    ]

after :
    (i : ℕ) (a : List ℤ) (j : ℕ) (bs : List (List ℤ))
    → i < j
    → NoTwin a bs
    → (is_valid i a j bs ≡ true) ↔ InsideNone a bs
unfolding is_valid
after i a j [] h n = (λ _. tt, λ _. refl)
after i a j (b ∷ bs) h n =
    step i a j b bs (InsideNone a bs) (λ e. omega arith) n.0
      (after i a (suc j) bs (omega arith) n.1)

around :
    (i : ℕ) (a : List ℤ) (j : ℕ) (pre post : List (List ℤ))
    → i ≡ j + length pre
    → NoTwin a pre
    → NoTwin a post
    → (is_valid i a j (pre ++ a ∷ post) ≡ true) ↔ InsideNone a pre × InsideNone a post
unfolding is_valid
around i a j [] post e n m =
    let (to, from) = after i a (suc j) post (omega arith) m in
    let here : (i == j) ≡ true = ground arith in
    rw (here, is_valid) (λ h. (tt, to h), λ h. from h.1)
around i a j (b ∷ pre) post e n m =
    let (to, from) =
      step i a j b (pre ++ a ∷ post) (InsideNone a pre × InsideNone a post) (λ same. omega arith)
        n.0 (around i a (suc j) pre post (omega arith) n.1 m) in
    (λ h. (((to h).0, (to h).1.0), (to h).1.1), λ h. from (h.0.0, (h.0.1, h.1)))

-- Among buckets that no other bucket equals, the one at a position is kept exactly when no other
-- bucket has all its templates.
pub is_valid_lem :
    (a : List ℤ) (pre post : List (List ℤ))
    → NoTwin a pre
    → NoTwin a post
    → (is_valid (length pre) a 0 (pre ++ a ∷ post) ≡ true) ↔ InsideNone a pre × InsideNone a post
is_valid_lem a pre post n m = around (length pre) a 0 pre post (omega arith) n m

slice_int_eq_refl : (a : List ℤ) → slice_int_eq a a ≡ true
unfolding slice_int_eq
slice_int_eq_refl [] = refl
slice_int_eq_refl (x ∷ a) = rw ((eqb_ℤ-iff x x).1 refl, slice_int_eq) (slice_int_eq_refl a)

-- Two equal buckets in front are both kept, whatever buckets behind them have all their templates.
pub uniq_tpl_buckets_twins :
    (a : List ℤ) (post : List (List ℤ))
    → (rest : List (List ℤ)) × (uniq_tpl_buckets (a ∷ a ∷ post) ≡ a ∷ a ∷ rest)
unfolding uniq_tpl_buckets uniq_loop is_valid
uniq_tpl_buckets_twins a post = (
  uniq_loop (a ∷ a ∷ post) 2 post,
  rw (slice_int_eq_refl a, uniq_tpl_buckets, uniq_loop, is_valid),
)
