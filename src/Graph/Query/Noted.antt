-- ===== src/Graph/Query/Noted.antt =====
-- The points of a gauge's items in memory: one for each step from the first that is asked for.
use ref_falcon.Prelude.{
  ℕ, zero, suc, ◌⊎◌, ◌-◌, ◌+◌, ◌*◌, ◌/◌, ◌%◌, ◌^◌, ◌≤◌, ◌<◌, ◌≡◌, refl, sym, ap, ◌∙◌, subst, inl,
  inr, true, false, List, [], ◌∷◌, ◌++◌, get_elem?, some, ltb, Bool-cases, arith,
}
use native.Mathlib.Omega.{div_fact, mod_fact}
use ref_falcon.Prelude.Int.{ℤ, pos, leb_ℤ}
use ref_falcon.Judge.Store.Send.{Among}
use ref_falcon.Transfer.Types.{GraphItem}
use ref_falcon.Graph.Query.Merge.{
  RrdData, Floats, is_between, append_between, gauge_point, gauge_loop,
}
use ref_falcon.Graph.Query.Points.{add64_pos, times}
use ref_falcon.Graph.Query.Rows.{Rows}
use ref_falcon.Graph.Query.Filled.{times_add, times_le}

module _ {V : Type 0} where
  pub Among-get_elem? :
      (d : RrdData V) (l : List (RrdData V)) → Among d l → (i : ℕ) × (get_elem? l i ≡ some d)
  Among-get_elem? d [] a = absurd a
  Among-get_elem? d (x ∷ l) (inl e) = (0, ap some (sym e))
  Among-get_elem? d (x ∷ l) (inr a) = let (i, g) = Among-get_elem? d l a in (suc i, g)

  pub get_elem?-Among :
      (d : RrdData V) (l : List (RrdData V)) (i : ℕ) → get_elem? l i ≡ some d → Among d l
  get_elem?-Among d [] i g = cc
  get_elem?-Among d (x ∷ l) zero g = inl (taken g)
    where
      taken : {a b : RrdData V} → some a ≡ some b → b ≡ a
      taken h = cc
  get_elem?-Among d (x ∷ l) (suc i) g = inr (get_elem?-Among d l i g)

  append_assoc : (xs ys zs : List (RrdData V)) → (xs ++ ys) ++ zs ≡ xs ++ (ys ++ zs)
  append_assoc [] ys zs = refl
  append_assoc (x ∷ xs) ys zs = ap (λ l. x ∷ l) (append_assoc xs ys zs)

  append_nil : (xs : List (RrdData V)) → xs ++ [] ≡ xs
  append_nil [] = refl
  append_nil (x ∷ xs) = ap (λ l. x ∷ l) (append_nil xs)

  append_between-front :
      (from to ts : ℤ) (v : V) (cache : List (RrdData V))
      → append_between from to ts v cache ≡ cache ++ append_between from to ts v []
  append_between-front from to ts v cache = elim (Bool-cases (is_between from to ts)) [
    | inl asked ↦ rw asked refl
    | inr other ↦ rw other (sym (append_nil cache))
  ]

module _ {V : Type 0} (fs : Floats V) (s e : ℕ) (room : e + suc s < 2 ^ 63) (from to : ℕ) where
  -- What was noted before stays in front.
  noted-front :
      (n ts : ℕ) (items : List (GraphItem V)) (cache : List (RrdData V))
      → (gauge_loop fs n (pos (suc s)) (pos from) (pos to) (pos e) (pos ts) items cache).0
        ≡ cache ++ (gauge_loop fs n (pos (suc s)) (pos from) (pos to) (pos e) (pos ts) items []).0
  unfolding gauge_loop
  noted-front zero ts items cache = sym (append_nil cache)
  noted-front (suc n) ts items cache = elim (Bool-cases (leb_ℤ (pos ts) (pos e))) [
    | inl go ↦
        let next = add64_pos ts (suc s) (ground (arith, go, room)) in
        let r = gauge_point fs (pos ts) items in
        let one = append_between (pos from) (pos to) (pos ts) r.0 [] in
        rw (gauge_loop, go, next)
          (noted-front n (ts + suc s) r.1 _
            ∙ ap
                (λ l.
                  l
                  ++ (gauge_loop fs n (pos (suc s)) (pos from) (pos to) (pos e) (pos (ts + suc s))
                      r.1 []).0)
                (append_between-front (pos from) (pos to) (pos ts) r.0 cache)
            ∙ append_assoc cache one (
                (gauge_loop fs n (pos (suc s)) (pos from) (pos to) (pos e) (pos (ts + suc s)) r.1
                  []).0)
            ∙ ap (λ l. cache ++ l) (sym (noted-front n (ts + suc s) r.1 one)))
    | inr stop ↦ rw (gauge_loop, stop) (sym (append_nil cache))
  ]

  noted-late :
      (n ts : ℕ) (items : List (GraphItem V))
      → to < ts
      → (gauge_loop fs n (pos (suc s)) (pos from) (pos to) (pos e) (pos ts) items []).0 ≡ []
  unfolding gauge_loop
  noted-late zero ts items h = refl
  noted-late (suc n) ts items h = elim (Bool-cases (leb_ℤ (pos ts) (pos e))) [
    | inl go ↦
        let next = add64_pos ts (suc s) (ground (arith, go, room)) in
        let out : is_between (pos from) (pos to) (pos ts) ≡ false = ground (arith, h) in
        rw (gauge_loop, go, next, out) (noted-late n (ts + suc s) _ (omega (arith, h)))
    | inr stop ↦ rw (gauge_loop, stop) refl
  ]

  noted-Rows :
      (n ts : ℕ) (items : List (GraphItem V))
      → from ≤ ts
      → Rows s ts ((gauge_loop fs n (pos (suc s)) (pos from) (pos to) (pos e) (pos ts) items []).0)
  unfolding gauge_loop
  noted-Rows zero ts items h = tt
  noted-Rows (suc n) ts items h = elim (Bool-cases (ltb to ts)) [
    | inl late ↦ subst (Rows s ts) (sym (noted-late (suc n) ts items (ground (arith, late)))) tt
    | inr early ↦ elim (Bool-cases (leb_ℤ (pos ts) (pos e))) [
      | inl go ↦
          let next = add64_pos ts (suc s) (ground (arith, go, room)) in
          let asked : is_between (pos from) (pos to) (pos ts) ≡ true = ground (arith, h, early) in
          let r = gauge_point fs (pos ts) items in
          rw (gauge_loop, go, next, asked)
            (subst (Rows s ts) (sym (noted-front n (ts + suc s) r.1 _))
              (refl, noted-Rows n (ts + suc s) r.1 (omega (arith, h))))
      | inr stop ↦ rw (gauge_loop, stop) tt
    ]
  ]

  -- The first point that is noted is at a time that is asked for, whole steps behind ts.
  pub noted-first :
      (n ts : ℕ) (items : List (GraphItem V))
      → (k : ℕ) × (Rows s
          (ts + times k (suc s))
          ((gauge_loop fs n (pos (suc s)) (pos from) (pos to) (pos e) (pos ts) items []).0))
        × (((from ≤ ts + times k (suc s)) × (ts + times k (suc s) ≤ to))
            ⊎ ((gauge_loop fs n (pos (suc s)) (pos from) (pos to) (pos e) (pos ts) items []).0
                ≡ []))
  unfolding gauge_loop
  noted-first zero ts items = (0, tt, inr refl)
  noted-first (suc n) ts items = elim (Bool-cases (ltb ts from)) [
    | inl before ↦ elim (Bool-cases (leb_ℤ (pos ts) (pos e))) [
      | inl go ↦
          let next = add64_pos ts (suc s) (ground (arith, go, room)) in
          let out : is_between (pos from) (pos to) (pos ts) ≡ false = ground (arith, before) in
          let (k, r, b) = noted-first n (ts + suc s) (gauge_point fs (pos ts) items).1 in
          let later : ts + suc s + times k (suc s) ≡ ts + times (suc k) (suc s) = omega arith in
          rw (gauge_loop, go, next, out)
            (
              suc k,
              subst
                  (λ t. Rows s t (
                    (gauge_loop fs n (pos (suc s)) (pos from) (pos to) (pos e) (pos (ts + suc s))
                      (gauge_point fs (pos ts) items).1 []).0))
                  later r,
              subst
                  (λ t.
                    ((from ≤ t) × (t ≤ to))
                    ⊎ ((gauge_loop fs n (pos (suc s)) (pos from) (pos to) (pos e) (pos (ts + suc s))
                          (gauge_point fs (pos ts) items).1 []).0
                        ≡ []))
                  later b,
            )
      | inr stop ↦ rw (gauge_loop, stop) (0, tt, inr refl)
    ]
    | inr reached ↦
        let h : from ≤ ts = ground (arith, reached) in
        let now : ts ≡ ts + times 0 (suc s) = omega arith in
        (
          0,
          subst
              (λ t. Rows s t (
                (gauge_loop fs (suc n) (pos (suc s)) (pos from) (pos to) (pos e) (pos ts) items
                  []).0))
              now (noted-Rows (suc n) ts items h),
          elim (Bool-cases (ltb to ts)) [
            | inl late ↦ inr (noted-late (suc n) ts items (ground (arith, late)))
            | inr early ↦ inl (omega (arith, h), ground (arith, early))
          ],
        )
  ]

times_mul : (k s : ℕ) → times k (suc s) ≡ suc s * k
times_mul zero s = grind arith
times_mul (suc k) s = grind (arith, times_mul k s)

-- Whole steps that fit into a width are at most its quotient.
pub times_quotient : (q w s : ℕ) → times q (suc s) ≤ w → q ≤ w / suc s
times_quotient q w s h = elim (Bool-cases (ltb (w / suc s) q)) [
  | inl more ↦ absurd (
      omega (
        arith,
        h,
        times_le (suc (w / suc s)) q (suc s) (ground (arith, more)),
        times_mul (w / suc s) s,
        div_fact w s,
        mod_fact w s,
      ))
  | inr fine ↦ ground (arith, fine)
]

pub quotient_times : (w s : ℕ) → times (w / suc s) (suc s) ≤ w
quotient_times w s = omega (arith, times_mul (w / suc s) s, div_fact w s)

-- A start of a step is a number of whole steps.
pub start_times : (a s : ℕ) → a - a % suc s ≡ times (a / suc s) (suc s)
start_times a s = omega (arith, times_mul (a / suc s) s, div_fact a s)

-- A time on the steps that is not before a start of a step is whole steps behind it.
pub aligned :
    (h j k s : ℕ)
    → times h (suc s) ≤ times j (suc s) + times k (suc s)
    → (p : ℕ) × (times j (suc s) + times k (suc s) ≡ times h (suc s) + times p (suc s))
aligned h j k s le =
    let sum = times_add j k (suc s) in
    elim (Bool-cases (ltb (j + k) h)) [
      | inl below ↦
          absurd (omega (arith, sum, le, times_le (suc (j + k)) h (suc s) (ground (arith, below))))
      | inr fine ↦
          let e : j + k ≡ h + (j + k - h) = ground (arith, fine) in
          (j + k - h, sym sum ∙ ap (λ q. times q (suc s)) e ∙ times_add h (j + k - h) (suc s))
    ]
