-- ===== src/Hbs/Parents/Lineage.antt =====
-- ParentIds against the relation between a template and its ancestors.
use mathlib.Core.List.{reverse, reverse-cons}
use ref_falcon.Prelude.{
  ◌++◌, ap, ℕ, zero, suc, subst, ◌≡◌, refl, sym, ◌∙◌, ◌⊎◌, inl, inr, ◌<◌, List, [], ◌∷◌, length,
  Option, none, some, arith, Bool-cases, Option-cases,
}
use ref_falcon.Prelude.Int.{ℤ, pos, ◌≤ℤ◌, ◌<ℤ◌, leb_ℤ, leb_ℤ→le, leb_ℤ→lt}
use ref_falcon.Hbs.Parents.{Template, find, cons_some, climb, desc, ordered, parent_ids}

-- The template and its ancestors, youngest first: the line ends at an id that is not positive or
-- not known.
pub data Lineage (all_tpls : List (ℤ × Template)) : ℤ → List ℤ → Type 0 where
  root : (tid : ℤ) → tid ≤ℤ pos 0 → Lineage all_tpls tid []
  unknown : (tid : ℤ) → find tid all_tpls ≡ none → Lineage all_tpls tid []
  child :
      (tid : ℤ) (t : Template) (ids : List ℤ)
      → pos 0 <ℤ tid
      → find tid all_tpls ≡ some t
      → Lineage all_tpls t.parent_id ids
      → Lineage all_tpls tid (tid ∷ ids)

desc-reverse : (ids : List ℤ) → desc ids ≡ reverse ids
unfolding desc
desc-reverse [] = refl
desc-reverse (x ∷ ids) = ap (λ l. l ++ x ∷ []) (desc-reverse ids) ∙ sym (reverse-cons x ids)

module _ (all_tpls : List (ℤ × Template)) where
  -- A line shorter than the number of rounds.
  abbrev pub Short : ℕ → ℤ → Type 0
  Short n tid = (ids : List ℤ) × Lineage all_tpls tid ids × (length ids < n)

  abbrev Climbed : ℕ → ℤ → Option (List ℤ) → Type 0
  Climbed n tid none = ¬ Short n tid
  Climbed n tid (some ids) = Lineage all_tpls tid ids × (length ids < n)

  no_line :
      (n : ℕ) (tid : ℤ) (t : Template)
      → pos 0 <ℤ tid
      → find tid all_tpls ≡ some t
      → ¬ Short n t.parent_id
      → (ids : List ℤ) → Lineage all_tpls tid ids
      → length ids < suc n
      → ⊥
  no_line n tid t h e none_short _ (Lineage.root _ low) b = omega (arith, h, low)
  no_line n tid t h e none_short _ (Lineage.unknown _ absent) b = some_none (sym e ∙ absent)
    where
      some_none : {x : Template} → some x ≡ none → ⊥
      some_none e = cc
  no_line n tid t h e none_short _ (Lineage.child _ t' ids _ e' line) b = none_short (
    ids,
    subst (λ (x : Template). Lineage all_tpls x.parent_id ids) (same (sym e' ∙ e)) line,
    omega arith,
  )
    where
      same : {x y : Template} → some x ≡ some y → x ≡ y
      same e = cc

  climb_cons :
      (n : ℕ) (tid : ℤ) (t : Template) (r : Option (List ℤ))
      → pos 0 <ℤ tid
      → find tid all_tpls ≡ some t
      → Climbed n t.parent_id r
      → Climbed (suc n) tid (cons_some tid r)
  climb_cons n tid t (some ids) h e c = (Lineage.child tid t ids h e c.0, omega (arith, c.1))
  climb_cons n tid t none h e c = λ s. no_line n tid t h e c s.0 s.1 s.2

  climb-Climbed : (n : ℕ) (tid : ℤ) → Climbed n tid (climb all_tpls n tid)
  unfolding climb
  climb-Climbed zero tid = λ s. omega (arith, s.2)
  climb-Climbed (suc n) tid = elim (Bool-cases (leb_ℤ tid (pos 0))) [
    | inl low ↦ rw (low, climb) (Lineage.root tid (leb_ℤ→le tid (pos 0) low), omega arith)
    | inr high ↦ elim (Option-cases (find tid all_tpls)) [
      | inl absent ↦ rw (high, absent, climb) (Lineage.unknown tid absent, omega arith)
      | inr (t, found) ↦
          rw (high, found, climb)
            (climb_cons n tid t (climb all_tpls n t.parent_id) (leb_ℤ→lt tid (pos 0) high) found
              (climb-Climbed n t.parent_id))
    ]
  ]

  abbrev Result : ℕ → ℤ → List ℤ → Type 0
  Result n tid result =
      ((ids : List ℤ) × Lineage all_tpls tid ids × (length ids < n) × (result ≡ reverse ids))
      ⊎ (¬ Short n tid) × (result ≡ [])

  Climbed-Result :
      (n : ℕ) (tid : ℤ) (r : Option (List ℤ)) → Climbed n tid r → Result n tid (ordered r)
  Climbed-Result n tid none c = inr (c, refl)
  Climbed-Result n tid (some ids) c = inl (ids, c.0, c.1, desc-reverse ids)

  -- ParentIds gives a template and its ancestors, oldest first, when they are fewer than ten; else
  -- nothing: when the line goes on without end, and also when it ends after ten or more.
  pub parent_ids_lem :
      (tid : ℤ)
      → ((ids : List ℤ) × Lineage all_tpls tid ids
          × (length ids < 10)
          × (parent_ids all_tpls tid ≡ reverse ids))
        ⊎ (¬ Short 10 tid) × (parent_ids all_tpls tid ≡ [])
  unfolding parent_ids
  parent_ids_lem tid = Climbed-Result 10 tid (climb all_tpls 10 tid) (climb-Climbed 10 tid)
