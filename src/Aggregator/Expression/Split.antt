-- ===== src/Aggregator/Expression/Split.antt =====
-- What the splitting of an expression gives: where its last item begins, and how many there are.
use ref_falcon.Prelude.{
  ℕ, zero, suc, ◌≤◌, ◌≡◌, refl, ◌∙◌, ap, subst, Bool, true, false, ◌&&◌, ◌||◌, List, [], ◌∷◌,
  length, Option, none, some, ok, if◌then◌else◌, ◌==◌, Bool-cases, inl, inr, arith,
}
use ref_falcon.Aggregator.Expression.{
  is_separator, cons_item, split_counter, share_out, counter_end, term_end, sum_end, is_sign,
  need_compute, more_terms, share_items, parse,
}

-- The last item.
abbrev pub last_item : List (List ℕ) → List ℕ
last_item [] = []
last_item (x ∷ []) = x
last_item (x ∷ y ∷ items) = last_item (y ∷ items)

abbrev pub mode_of : Bool → List ℕ → List ℕ
mode_of inside s = last_item (split_counter inside s)

last_skip :
    (x : List ℕ) (items : List (List ℕ))
    → 1 ≤ length items
    → last_item (x ∷ items) ≡ last_item items
last_skip x [] h = elim h [ ]
last_skip x (y ∷ items) h = refl

last_cons :
    (c : ℕ) (items : List (List ℕ))
    → 2 ≤ length items
    → last_item (cons_item c items) ≡ last_item items
last_cons c [] h = elim h [ ]
last_cons c (x ∷ []) h = absurd (omega (arith, h))
last_cons c (x ∷ y ∷ items) h = refl

length-cons_item :
    (c : ℕ) (items : List (List ℕ)) → 1 ≤ length items → length (cons_item c items) ≡ length items
length-cons_item c [] h = elim h [ ]
length-cons_item c (x ∷ items) h = refl

at_separator :
    (inside : Bool) (c : ℕ) (s : List ℕ)
    → is_separator c ≡ true
    → split_counter inside (c ∷ s)
      ≡ (if inside then split_counter true s else [] ∷ split_counter true s)
unfolding split_counter
at_separator inside c s h = rw h

at_other :
    (inside : Bool) (c : ℕ) (s : List ℕ)
    → is_separator c ≡ false
    → split_counter inside (c ∷ s) ≡ cons_item c (split_counter false s)
unfolding split_counter
at_other inside c s h = rw h

pub some_item : (inside : Bool) (s : List ℕ) → 1 ≤ length (split_counter inside s)
unfolding split_counter
some_item inside [] = omega arith
some_item inside (c ∷ s) = elim (Bool-cases (is_separator c)) [
  | inl sep ↦ rw (at_separator inside c s sep) (begun inside (some_item true s))
  | inr other ↦
      rw (at_other inside c s other, length-cons_item c (split_counter false s) (some_item false s))
        (some_item false s)
]
  where
    begun :
        (inside : Bool)
        → 1 ≤ length (split_counter true s)
        → 1 ≤ length (if inside then split_counter true s else [] ∷ split_counter true s)
    begun true n = n
    begun false n = omega arith

pub separator_more :
    (inside : Bool) (c : ℕ) (s : List ℕ)
    → is_separator c ≡ true
    → (mode_of inside (c ∷ s) ≡ mode_of true s) × (2 ≤ length (split_counter false (c ∷ s)))
separator_more true c s h =
    (rw (at_separator true c s h), rw (at_separator false c s h) (omega (arith, some_item true s)))
separator_more false c s h = (
  rw (at_separator false c s h) (last_skip [] (split_counter true s) (some_item true s)),
  rw (at_separator false c s h) (omega (arith, some_item true s)),
)

pub other_more :
    (inside : Bool) (c : ℕ) (s : List ℕ)
    → is_separator c ≡ false
    → 2 ≤ length (split_counter false s)
    → (mode_of inside (c ∷ s) ≡ mode_of false s) × (2 ≤ length (split_counter inside (c ∷ s)))
other_more inside c s h n = (
  rw (at_other inside c s h) (last_cons c (split_counter false s) n),
  rw (at_other inside c s h, length-cons_item c (split_counter false s) (some_item false s)) n,
)

not_found : {A : Type 0} (a : A) → none ≡ some a → ⊥
not_found a h = cc

-- Behind a closing bracket stands the rest of the mode.
abbrev pub Ends : List ℕ → List ℕ → Type 0
Ends s rest =
    ((inside : Bool) → mode_of inside s ≡ mode_of true rest) × (2 ≤ length (split_counter false s))

Ends-separator :
    (c : ℕ) (s rest : List ℕ)
    → is_separator c ≡ true
    → (mode_of true s ≡ mode_of true rest)
    → Ends (c ∷ s) rest
Ends-separator c s rest h e =
    (λ inside. (separator_more inside c s h).0 ∙ e, (separator_more false c s h).1)

Ends-more : (c : ℕ) (s rest : List ℕ) → Ends s rest → Ends (c ∷ s) rest
Ends-more c s rest e = elim (Bool-cases (is_separator c)) [
  | inl sep ↦ Ends-separator c s rest sep (e.0 true)
  | inr other ↦ (
    λ inside. (other_more inside c s other e.1).0 ∙ e.0 false,
    (other_more false c s other e.1).1,
  )
]

closed_end :
    (some_char : Bool) (c : ℕ) (s rest : List ℕ)
    → c == b')' ≡ true
    → counter_end some_char (c ∷ s) ≡ some rest
    → s ≡ rest
unfolding counter_end
closed_end true c s rest closed h = ground (arith, h, closed)
closed_end false c s rest closed h = ground (arith, h, closed)

later_end :
    (some_char : Bool) (c : ℕ) (s rest : List ℕ)
    → c == b')' ≡ false
    → counter_end some_char (c ∷ s) ≡ some rest
    → counter_end true s ≡ some rest
unfolding counter_end
later_end some_char c s rest other h = elim (Bool-cases (c == b'(')) [
  | inl opened ↦ ground (arith, h, other, opened)
  | inr _ ↦ ground (arith, h, other)
]

is_closing : (c : ℕ) → c == b')' ≡ true → is_separator c ≡ true
is_closing c h = ground arith

pub counter_end-Ends :
    (some_char : Bool) (s rest : List ℕ) → counter_end some_char s ≡ some rest → Ends s rest
unfolding counter_end
counter_end-Ends some_char [] rest h = cc
counter_end-Ends some_char (c ∷ s) rest h = elim (Bool-cases (c == b')')) [
  | inl closed ↦
      Ends-separator c s rest (is_closing c closed)
        (ap (mode_of true) (closed_end some_char c s rest closed h))
  | inr other ↦
      Ends-more c s rest (counter_end-Ends true s rest (later_end some_char c s rest other h))
]

pub term_end-Ends : (s rest : List ℕ) → term_end s ≡ some rest → Ends s rest
unfolding term_end
term_end-Ends [] rest h = cc
term_end-Ends (x ∷ []) rest h = cc
term_end-Ends (x ∷ y ∷ s) rest h = elim (Bool-cases (x == b'$' && y == b'(')) [
  | inl begun ↦ Ends-more x (y ∷ s) rest (
      Ends-more y s rest (
        counter_end-Ends false s rest
          (subst (λ b. (if b then counter_end false s else none) ≡ some rest) begun h)))
  | inr other ↦
      absurd (
        not_found rest (subst (λ b. (if b then counter_end false s else none) ≡ some rest) other h))
]

Ends-join : (s t rest : List ℕ) → Ends s t → Ends t rest → Ends s rest
Ends-join s t rest e f = (λ inside. e.0 inside ∙ f.0 true, e.1)

more_terms-Ends :
    (again : List ℕ → Option (List ℕ)) (rest : List ℕ)
    → ((t : List ℕ) → again t ≡ some rest → Ends t rest)
    → (s : List ℕ) (behind : Option (List ℕ)) → term_end s ≡ behind
    → more_terms again behind ≡ some rest
    → Ends s rest
more_terms-Ends again rest later s none e h = absurd (not_found rest h)
more_terms-Ends again rest later s (some []) e h = term_end-Ends s rest (e ∙ h)
more_terms-Ends again rest later s (some (c ∷ t)) e h = elim (Bool-cases (is_sign c)) [
  | inl sign ↦ Ends-join s (c ∷ t) rest (term_end-Ends s (c ∷ t) e) (
      Ends-more c t rest
        (later t (subst (λ b. (if b then again t else some (c ∷ t)) ≡ some rest) sign h)))
  | inr other ↦
      term_end-Ends s rest
        (e ∙ subst (λ b. (if b then again t else some (c ∷ t)) ≡ some rest) other h)
]

pub sum_end-Ends : (fuel : ℕ) (s rest : List ℕ) → sum_end fuel s ≡ some rest → Ends s rest
unfolding sum_end
sum_end-Ends zero s rest h = absurd (not_found rest h)
sum_end-Ends (suc fuel) s rest h =
    more_terms-Ends (sum_end fuel) rest (λ t. sum_end-Ends fuel t rest) s (term_end s) refl h

-- There are never more operands than operators and one.
Shared : Bool → List (List ℕ) × List (List ℕ) × List ℕ → Type 0
Shared true (operands, operators, mode) = length operands ≤ suc (length operators)
Shared false (operands, operators, mode) = length operands ≤ length operators

share_out-Shared : (even : Bool) (items : List (List ℕ)) → Shared even (share_out even items)
unfolding share_out Shared
share_out-Shared true [] = omega arith
share_out-Shared false [] = omega arith
share_out-Shared true (x ∷ []) = omega arith
share_out-Shared false (x ∷ []) = omega arith
share_out-Shared true (x ∷ y ∷ items) = omega (arith, share_out-Shared false (y ∷ items))
share_out-Shared false (x ∷ y ∷ items) = omega (arith, share_out-Shared true (y ∷ items))

share_out-mode : (even : Bool) (items : List (List ℕ)) → (share_out even items).2 ≡ last_item items
unfolding share_out
share_out-mode even [] = refl
share_out-mode even (x ∷ []) = refl
share_out-mode true (x ∷ y ∷ items) = share_out-mode false (y ∷ items)
share_out-mode false (x ∷ y ∷ items) = share_out-mode true (y ∷ items)

need_compute-items : (s : List ℕ) → need_compute s ≡ true → 2 ≤ length (split_counter false s)
unfolding need_compute
need_compute-items [] h = cc
need_compute-items (x ∷ []) h = cc
need_compute-items (x ∷ y ∷ s) h = elim (Bool-cases (is_separator x)) [
  | inl sep ↦ (separator_more false x (y ∷ s) sep).1
  | inr other ↦
      (other_more false x (y ∷ s) other
        (need_compute-items (y ∷ s) (no_counter x y (need_compute (y ∷ s)) other h))).1
]
  where
    no_counter :
        (x y : ℕ) (later : Bool)
        → is_separator x ≡ false
        → ((x == b'$' && y == b'(') || later) ≡ true
        → later ≡ true
    no_counter x y later other h = ground (arith, other, h)

-- An expression to compute splits into parts: operands, enough operators, and what stands behind
-- the last bracket.
pub parse-Parts :
    (s : List ℕ)
    → need_compute s ≡ true
    → (parts : List (List ℕ) × List (List ℕ) × List ℕ) × (parse s true ≡ ok parts)
      × (length parts.0 ≤ suc (length parts.1))
      × (parts.2 ≡ mode_of false s)
unfolding parse Shared
parse-Parts s h = shared (split_counter false s) (need_compute-items s h)
  where
    shared :
        (items : List (List ℕ))
        → 2 ≤ length items
        → (parts : List (List ℕ) × List (List ℕ) × List ℕ) × (share_items items ≡ ok parts)
          × (length parts.0 ≤ suc (length parts.1))
          × (parts.2 ≡ last_item items)
    shared [] h = elim h [ ]
    shared (x ∷ []) h = absurd (omega (arith, h))
    shared (x ∷ y ∷ items) h = (
      share_out true (y ∷ items),
      refl,
      share_out-Shared true (y ∷ items),
      share_out-mode true (y ∷ items),
    )
