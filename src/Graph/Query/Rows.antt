-- ===== src/Graph/Query/Rows.antt =====
-- The rows of a file and of the memory, one for each step, through the merge of `Query`.
use ref_falcon.Prelude.{
  ℕ, zero, suc, ◌+◌, ◌^◌, ◌≤◌, ◌<◌, ◌≡◌, refl, sym, ap, ◌∙◌, subst, inl, inr, true, false, List, [],
  ◌∷◌, ◌++◌, length, get_elem?, set, length-append, length-set, get_elem?-set_self,
  get_elem?-set_ne, some, ltb, Bool-cases, arith,
}
use ref_falcon.Prelude.Int.{pos, eqb_ℤ}
use ref_falcon.Graph.Query.Merge.{RrdData, Floats, fmt_result, put_point, overlay}
use ref_falcon.Graph.Query.Points.{add64_pos, times}

module _ {V : Type 0} (s : ℕ) where
  -- One row for each step from the time t on.
  abbrev pub Rows : ℕ → List (RrdData V) → Type 0
  Rows t [] = Unit {0}
  Rows t (d ∷ l) = (d.timestamp ≡ pos t) × Rows (t + suc s) l

  taken : {a b : RrdData V} → some a ≡ some b → a ≡ b
  taken h = cc

  pub Rows-time :
      (t i : ℕ) (l : List (RrdData V)) (d : RrdData V)
      → Rows t l
      → get_elem? l i ≡ some d
      → d.timestamp ≡ pos (t + times i (suc s))
  Rows-time t i [] d r g = cc
  Rows-time t zero (x ∷ l) d (e, r) g =
      ap (λ y. y.timestamp) (sym (taken g)) ∙ e ∙ ap pos (omega arith)
  Rows-time t (suc i) (x ∷ l) d (e, r) g = Rows-time (t + suc s) i l d r g ∙ ap pos (omega arith)

  pub Rows-append :
      (t : ℕ) (l : List (RrdData V)) (d : RrdData V)
      → Rows t l
      → d.timestamp ≡ pos (t + times (length l) (suc s))
      → Rows t (l ++ d ∷ [])
  Rows-append t [] d r e = (e ∙ ap pos (omega arith), tt)
  Rows-append t (x ∷ l) d (f, r) e = (f, Rows-append (t + suc s) l d r (e ∙ ap pos (omega arith)))

  pub Rows-set :
      (t i : ℕ) (l : List (RrdData V)) (d : RrdData V)
      → Rows t l
      → d.timestamp ≡ pos (t + times i (suc s))
      → Rows t (set l i d)
  Rows-set t i [] d r e = tt
  Rows-set t zero (x ∷ l) d (f, r) e = (e ∙ ap pos (omega arith), r)
  Rows-set t (suc i) (x ∷ l) d (f, r) e =
      (f, Rows-set (t + suc s) i l d r (e ∙ ap pos (omega arith)))

  pub get_elem?-append :
      (l : List (RrdData V)) (i : ℕ) (d x : RrdData V)
      → get_elem? l i ≡ some d
      → get_elem? (l ++ x ∷ []) i ≡ some d
  get_elem?-append [] i d x g = cc
  get_elem?-append (y ∷ l) zero d x g = g
  get_elem?-append (y ∷ l) (suc i) d x g = get_elem?-append l i d x g

  pub get_elem?-last :
      (l : List (RrdData V)) (x : RrdData V) → get_elem? (l ++ x ∷ []) (length l) ≡ some x
  get_elem?-last [] x = refl
  get_elem?-last (y ∷ l) x = get_elem?-last l x

  module _ (fs : Floats V) where
    -- The reply has each row at its own place.
    pub fmt_result_keep :
        (n t i : ℕ) (l : List (RrdData V)) (d : RrdData V)
        → Rows t l
        → get_elem? l i ≡ some d
        → i < n
        → t + times n (suc s) < 2 ^ 63
        → get_elem? (fmt_result fs n (pos (suc s)) (pos t) l) i ≡ some d
    unfolding fmt_result
    fmt_result_keep n t i [] d r g h room = cc
    fmt_result_keep zero t i (x ∷ l) d r g h room = absurd (omega (arith, h))
    fmt_result_keep (suc n) t zero (x ∷ l) d (e, r) g h room =
        let hit : eqb_ℤ (pos t) x.timestamp ≡ true = rw e (ground arith) in rw (fmt_result, hit) g
    fmt_result_keep (suc n) t (suc i) (x ∷ l) d (e, r) g h room =
        let hit : eqb_ℤ (pos t) x.timestamp ≡ true = rw e (ground arith) in
        let next = add64_pos t (suc s) (omega (arith, room)) in
        rw (fmt_result, hit, next)
          (fmt_result_keep n (t + suc s) i l d r g (omega (arith, h)) (omega (arith, room)))

    -- The next point goes over a row of the file, or behind the last row.
    abbrev pub Fits : ℕ → ℕ → ℕ → Type 0
    Fits size idx len = (idx < size → len ≡ size) × (size ≤ idx → len ≡ idx)

    -- One point was put at idx, and the rows before it are as they were.
    record PutAt (a idx : ℕ) (c : RrdData V) (size : ℕ) (l l' : List (RrdData V)) : Type 0 where
      rows : Rows a l'
      fits : Fits size (suc idx) (length l')
      there : fs.is_nan c.value ≡ false → get_elem? l' idx ≡ some c
      kept : (i : ℕ) (d : RrdData V) → i < idx → get_elem? l i ≡ some d → get_elem? l' i ≡ some d

    put_point-PutAt :
        (a size idx : ℕ) (c : RrdData V) (l : List (RrdData V))
        → Rows a l
        → Fits size idx (length l)
        → c.timestamp ≡ pos (a + times idx (suc s))
        → PutAt a idx c size l (put_point fs size idx c l)
    put_point-PutAt a size idx c l r (inside, behind) at = elim (Bool-cases (ltb idx size)) [
      | inl over ↦
          let lt : idx < size = ground (arith, over) in
          let len = inside lt in
          elim (Bool-cases (fs.is_nan c.value)) [
            | inl missing ↦
                rw (over, missing)
                  (record {
                    rows = r;
                    fits = (λ h. len, λ h. omega (arith, len, lt, h));
                    there = λ h. absurd (clash (sym missing ∙ h));
                    kept = λ i d h g. g;
                  })
            | inr number ↦
                rw (over, number)
                  (record {
                    rows = Rows-set a idx l c r at;
                    fits = (
                      λ h. length-set l idx c ∙ len,
                      λ h. length-set l idx c ∙ omega (arith, len, lt, h),
                    );
                    there = λ h. get_elem?-set_self l idx c (omega (arith, len, lt));
                    kept = λ i d h g. get_elem?-set_ne l c (λ e. omega (arith, e, h)) ∙ g;
                  })
          ]
      | inr out ↦
          let ge : size ≤ idx = ground (arith, out) in
          let len = behind ge in
          rw out (record {
            rows = Rows-append a l c r (at ∙ ap (λ k. pos (a + times k (suc s))) (sym len));
            fits = (λ h. omega (arith, h, ge), λ h. length-append l (c ∷ []) ∙ omega (arith, len));
            there = λ h. subst (λ k. get_elem? (l ++ c ∷ []) k ≡ some c) len (get_elem?-last l c);
            kept = λ i d h g. get_elem?-append l i d c g;
          })
    ]
      where
        clash : true ≡ false → ⊥
        clash q = cc

    -- All points were put, from idx on.
    pub record Overlaid (a idx : ℕ) (cache l l' : List (RrdData V)) : Type 0 where
      pub rows : Rows a l'
      pub there :
          (i : ℕ) (d : RrdData V)
          → get_elem? cache i ≡ some d
          → fs.is_nan d.value ≡ false
          → get_elem? l' (idx + i) ≡ some d
      pub kept :
          (i : ℕ) (d : RrdData V) → i < idx → get_elem? l i ≡ some d → get_elem? l' i ≡ some d

    pub overlay-Overlaid :
        (a size idx : ℕ) (cache l : List (RrdData V))
        → Rows a l
        → Fits size idx (length l)
        → Rows (a + times idx (suc s)) cache
        → Overlaid a idx cache l (overlay fs size idx cache l)
    unfolding overlay
    overlay-Overlaid a size idx [] l r f c = record {
      rows = r;
      there = λ i d g n. cc;
      kept = λ i d h g. g;
    }
    overlay-Overlaid a size idx (x ∷ cache) l r f (at, c) =
        let p = put_point-PutAt a size idx x l r f at in
        let o =
          overlay-Overlaid a size (suc idx) cache (put_point fs size idx x l) p.rows p.fits
            (subst (λ t. Rows t cache) (omega arith) c) in
        record {
          rows = o.rows;
          there = found x cache _ p.there o;
          kept = λ i d h g. o.kept i d (omega (arith, h)) (p.kept i d h g);
        }
      where
        found :
            (x : RrdData V) (cache l' : List (RrdData V)) {l2 : List (RrdData V)}
            → (fs.is_nan x.value ≡ false → get_elem? l' idx ≡ some x)
            → Overlaid a (suc idx) cache l' l2
            → (i : ℕ) (d : RrdData V) → get_elem? (x ∷ cache) i ≡ some d
            → fs.is_nan d.value ≡ false
            → get_elem? l2 (idx + i) ≡ some d
        found x cache l' {l2 = l2} h o zero d g n =
            let e = taken g in
            subst (λ k. get_elem? l2 k ≡ some d) (omega arith)
              (o.kept idx d (omega arith) (
                subst (λ y. get_elem? l' idx ≡ some y) e
                  (h (subst (λ y. fs.is_nan y.value ≡ false) (sym e) n))))
        found x cache l' {l2 = l2} h o (suc i) d g n =
            subst (λ k. get_elem? l2 k ≡ some d) (omega arith) (o.there i d g n)
