-- ===== src/Graph/Query/Filled.antt =====
-- The rows of the file, the search for the row before the memory, and the rows put in between.
use ref_falcon.Prelude.{
  ℕ, zero, suc, ◌+◌, ◌^◌, ◌≤◌, ◌<◌, ◌≡◌, refl, sym, ap, ◌∙◌, inl, inr, true, false, List, [], ◌∷◌,
  ◌++◌, length, get_elem?, length-append, some, ltb, Bool-cases, arith,
}
use ref_falcon.Prelude.Int.{ℤ, pos, ltb_ℤ, add64}
use ref_falcon.Graph.Query.Merge.{RrdData, Floats, is_between, between, junction, fix_missing}
use ref_falcon.Graph.Query.Points.{add64_pos, times}
use ref_falcon.Graph.Query.Rows.{Rows, Rows-time, Rows-append, get_elem?-append}

pub times_add : (i k s : ℕ) → times (i + k) s ≡ times i s + times k s
times_add zero k s = let e : 0 + k ≡ k = omega arith in ap (λ j. times j s) e ∙ omega arith
times_add (suc i) k s =
    let e : suc i + k ≡ suc (i + k) = omega arith in
    ap (λ j. times j s) e ∙ omega (arith, times_add i k s)

-- Of later steps the times are later.
pub times_le : (i p s : ℕ) → i ≤ p → times i s ≤ times p s
times_le zero p s h = omega arith
times_le (suc i) zero s h = elim h [ ]
times_le (suc i) (suc p) s h = omega (arith, times_le i p s (omega (arith, h)))

pub times_ge : (k s : ℕ) → k ≤ times k (suc s)
times_ge zero s = omega arith
times_ge (suc k) s = omega (arith, times_ge k s)

-- What the search for the row before step p gives for an index: the index, and the time of the
-- row before it.
abbrev pub mark : ℕ → ℕ → ℕ → ℕ → ℕ × ℤ
mark s a p zero = (0, pos (a + times p (suc s)))
mark s a p (suc i) = (suc i, pos (a + times i (suc s)))

module _ {V : Type 0} (s : ℕ) where
  pub row_at :
      (l : List (RrdData V)) (i : ℕ) → i < length l → (d : RrdData V) × (get_elem? l i ≡ some d)
  row_at [] i h = elim h [ ]
  row_at (x ∷ l) zero h = (x, refl)
  row_at (x ∷ l) (suc i) h = row_at l i (omega (arith, h))

  between_late :
      (from e t : ℕ) (l : List (RrdData V)) → e < t → Rows s t l → between (pos from) (pos e) l ≡ []
  unfolding between
  between_late from e t [] h r = refl
  between_late from e t (d ∷ l) h (at, r) =
      let out : is_between (pos from) (pos e) d.timestamp ≡ false = rw at (ground arith) in
      rw (between, out) (between_late from e (t + suc s) l (omega (arith, h)) r)

  pub between-Rows :
      (from e t : ℕ) (l : List (RrdData V))
      → from ≤ t
      → Rows s t l
      → Rows s t (between (pos from) (pos e) l)
  unfolding between
  between-Rows from e t [] h r = tt
  between-Rows from e t (d ∷ l) h (at, r) = elim (Bool-cases (ltb e t)) [
    | inl late ↦ rw (between_late from e t (d ∷ l) (ground (arith, late)) (at, r)) tt
    | inr early ↦
        let inside : is_between (pos from) (pos e) d.timestamp ≡ true =
          rw at (ground (arith, h, early)) in
        rw (between, inside) (at, between-Rows from e (t + suc s) l (omega (arith, h)) r)
  ]

  pub between_keep :
      (from e t i : ℕ) (l : List (RrdData V)) (d : RrdData V)
      → from ≤ t
      → Rows s t l
      → get_elem? l i ≡ some d
      → t + times i (suc s) ≤ e
      → get_elem? (between (pos from) (pos e) l) i ≡ some d
  unfolding between
  between_keep from e t i [] d h r g le = cc
  between_keep from e t zero (x ∷ l) d h (at, r) g le =
      let inside : is_between (pos from) (pos e) x.timestamp ≡ true =
        rw at (ground (arith, h, le)) in
      rw (between, inside) g
  between_keep from e t (suc i) (x ∷ l) d h (at, r) g le =
      let inside : is_between (pos from) (pos e) x.timestamp ≡ true =
        rw at (ground (arith, h, le)) in
      rw (between, inside)
        (between_keep from e (t + suc s) i l d (omega (arith, h)) r g (omega (arith, le)))

  module _ (a p : ℕ) where
    pub junction_here :
        (k : ℕ) (l : List (RrdData V))
        → Rows s a l
        → k ≤ length l
        → k ≤ p
        → junction k (pos (a + times p (suc s))) l ≡ mark s a p k
    unfolding junction
    junction_here zero l r h le = refl
    junction_here (suc k) l r h le =
        let (d, g) = row_at l k (omega (arith, h)) in
        let at = Rows-time s a k l d r g in
        let before : ltb_ℤ d.timestamp (pos (a + times p (suc s))) ≡ true =
          rw at (ground (arith, times_le (suc k) p (suc s) le)) in
        rw (junction, g, before, at) refl

    pub junction_lem :
        (k : ℕ) (l : List (RrdData V))
        → Rows s a l
        → k ≤ length l
        → p ≤ k
        → junction k (pos (a + times p (suc s))) l ≡ mark s a p p
    unfolding junction
    junction_lem zero l r h le =
        let e : zero ≡ p = omega (arith, le) in
        junction_here zero l r h (omega arith) ∙ ap (mark s a p) e
    junction_lem (suc k) l r h le = elim (Bool-cases (ltb k p)) [
      | inl reached ↦
          let e : suc k ≡ p = ground (arith, le, reached) in
          junction_here (suc k) l r h (omega (arith, e)) ∙ ap (mark s a p) e
      | inr above ↦
          let below : p ≤ k = ground (arith, above) in
          let (d, g) = row_at l k (omega (arith, h)) in
          let at = Rows-time s a k l d r g in
          let behind : ltb_ℤ d.timestamp (pos (a + times p (suc s))) ≡ false =
            rw at (ground (arith, times_le p k (suc s) below)) in
          rw (junction, g, behind) (junction_lem k l r (omega (arith, h)) below)
    ]

    module _ (fs : Floats V) (room : a + times p (suc s) + suc s < 2 ^ 63) where
      -- There is a row for every step before p, and the rows that were there are kept.
      pub record Filled (l l' : List (RrdData V)) : Type 0 where
        pub rows : Rows s a l'
        pub long : length l' ≡ p
        pub kept : (i : ℕ) (d : RrdData V) → get_elem? l i ≡ some d → get_elem? l' i ≡ some d

      pub fix_missing-Filled :
          (n q : ℕ) (l : List (RrdData V))
          → Rows s a l
          → length l ≡ q
          → q ≤ p
          → p < q + n
          → Filled l
              (fix_missing fs n
                (pos (suc s))
                (pos (a + times p (suc s)))
                (pos (a + times q (suc s)))
                l).0
      unfolding fix_missing
      fix_missing-Filled zero q l r len le fuel = absurd (omega (arith, le, fuel))
      fix_missing-Filled (suc n) q l r len le fuel = elim (Bool-cases (ltb q p)) [
        | inl more ↦
            let lt : suc q ≤ p = ground (arith, more) in
            let step = times_le (suc q) p (suc s) lt in
            let before : ltb_ℤ (pos (a + times q (suc s))) (pos (a + times p (suc s))) ≡ true =
              ground (arith, step) in
            let next : add64 (pos (a + times q (suc s))) (pos (suc s))
                ≡ pos (a + times (suc q) (suc s)) =
              add64_pos (a + times q (suc s)) (suc s) (omega (arith, step, room))
              ∙ ap pos (omega arith) in
            let row : RrdData V = record {
              timestamp = pos (a + times q (suc s));
              value = fs.nan;
            } in
            let f =
              fix_missing-Filled n (suc q) (l ++ row ∷ [])
                (Rows-append s a l row r (ap (λ k. pos (a + times k (suc s))) (sym len)))
                (length-append l (row ∷ []) ∙ omega (arith, len)) lt (omega (arith, fuel)) in
            rw (fix_missing, before, next)
              (record {
                rows = f.rows;
                long = f.long;
                kept = λ i d g. f.kept i d (get_elem?-append s l i d row g);
              })
        | inr done ↦
            let same : q ≡ p = ground (arith, done, le) in
            let stop : ltb_ℤ (pos (a + times q (suc s))) (pos (a + times p (suc s))) ≡ false =
              rw same (ground arith) in
            rw (fix_missing, stop) (record { rows = r; long = len ∙ same; kept = λ i d g. g })
      ]
