-- ===== src/Graph/Query/Merged.antt =====
-- The merge of `Query`: the rows before the first point in memory stay, and every point in memory
-- that is a number comes into the reply at its own place.
use ref_falcon.Prelude.{
  ℕ, zero, suc, ◌+◌, ◌-◌, ◌^◌, ◌≤◌, ◌<◌, ◌≡◌, refl, sym, ap, ◌∙◌, subst, inl, inr, false, List, [],
  ◌∷◌, ◌++◌, length, get_elem?, some, ltb, Bool-cases, arith,
}
use ref_falcon.Prelude.Int.{ℤ, pos, ltb_ℤ, eqb_ℤ, add64, int_laws}
use ref_falcon.Graph.Query.Merge.{
  RrdData, Floats, junction, rounds, fix_missing, overlay, fmt_result,
}
use ref_falcon.Graph.Query.Points.{add64_pos, times}
use ref_falcon.Graph.Query.Filled.{
  times_add, times_le, times_ge, mark, junction_here, junction_lem, fix_missing-Filled,
}
use ref_falcon.Graph.Query.Rows.{Rows, fmt_result_keep, Overlaid, overlay-Overlaid}

module _ {V : Type 0} (s : ℕ) where
  -- Behind the rows of the file the index does not matter.
  overlay_behind :
      (fs : Floats V) (size idx size' idx' : ℕ) (cache l : List (RrdData V))
      → size ≤ idx
      → size' ≤ idx'
      → overlay fs size idx cache l ≡ overlay fs size' idx' cache l
  unfolding overlay
  overlay_behind fs size idx size' idx' [] l h h' = refl
  overlay_behind fs size idx size' idx' (c ∷ cache) l h h' =
      let out : ltb idx size ≡ false = ground (arith, h) in
      let out' : ltb idx' size' ≡ false = ground (arith, h') in
      rw (overlay, out, out')
        (overlay_behind fs size (suc idx) size' (suc idx') cache (l ++ c ∷ []) (omega (arith, h))
          (omega (arith, h')))

  -- Rows that begin later come after points without a value.
  pub fmt_result_from :
      (fs : Floats V) (n t p i : ℕ) (l : List (RrdData V)) (d : RrdData V)
      → Rows s (t + times p (suc s)) l
      → get_elem? l i ≡ some d
      → p + i < n
      → t + times n (suc s) < 2 ^ 63
      → get_elem? (fmt_result fs n (pos (suc s)) (pos t) l) (p + i) ≡ some d
  unfolding fmt_result
  fmt_result_from fs n t p i [] d r g h room = cc
  fmt_result_from fs n t zero i (x ∷ l) d r g h room =
      subst (λ k. get_elem? (fmt_result fs n (pos (suc s)) (pos t) (x ∷ l)) k ≡ some d)
        (omega arith)
        (fmt_result_keep s fs n t i (x ∷ l) d (subst (λ z. Rows s z (x ∷ l)) (omega arith) r) g
          (omega (arith, h)) room)
  fmt_result_from fs zero t (suc p) i (x ∷ l) d r g h room = absurd (omega (arith, h))
  fmt_result_from fs (suc n) t (suc p) i (x ∷ l) d (at, r) g h room =
      let miss : eqb_ℤ (pos t) x.timestamp ≡ false = rw at (ground arith) in
      let next = add64_pos t (suc s) (omega (arith, room)) in
      let later : t + times (suc p) (suc s) ≡ t + suc s + times p (suc s) = omega arith in
      let placed : get_elem? (fmt_result fs (suc n) (pos (suc s)) (pos t) (x ∷ l)) (suc (p + i))
          ≡ some d =
        rw (fmt_result, miss, next)
          (fmt_result_from fs n (t + suc s) p i (x ∷ l) d
            (subst (λ z. Rows s z (x ∷ l)) later (at, r)) g (omega (arith, h))
            (omega (arith, room))) in
      let e : suc (p + i) ≡ suc p + i = omega arith in
      subst (λ k. get_elem? (fmt_result fs (suc n) (pos (suc s)) (pos t) (x ∷ l)) k ≡ some d) e
        placed

  -- The rows of the file before step p are in the reply, and so are the points in memory that are
  -- numbers, which begin at step p.
  pub record Placed (fs : Floats V) (a p : ℕ) (file cache l : List (RrdData V)) : Type 0 where
    pub there :
        (n i : ℕ) (d : RrdData V)
        → get_elem? cache i ≡ some d
        → fs.is_nan d.value ≡ false
        → p + i < n
        → a + times n (suc s) < 2 ^ 63
        → get_elem? (fmt_result fs n (pos (suc s)) (pos a) l) (p + i) ≡ some d
    pub kept :
        (n i : ℕ) (d : RrdData V)
        → i < p
        → get_elem? file i ≡ some d
        → i < n
        → a + times n (suc s) < 2 ^ 63
        → get_elem? (fmt_result fs n (pos (suc s)) (pos a) l) i ≡ some d

  Overlaid-Placed :
      (fs : Floats V) (a p : ℕ) (file l cache l' : List (RrdData V))
      → ((i : ℕ) (d : RrdData V) → get_elem? file i ≡ some d → get_elem? l i ≡ some d)
      → Overlaid s fs a p cache l l'
      → Placed fs a p file cache l'
  Overlaid-Placed fs a p file l cache l' same o = record {
    there = λ n i d g number h room.
        fmt_result_keep s fs n a (p + i) l' d o.rows (o.there i d g number) h room;
    kept = λ n i d before g h room.
        fmt_result_keep s fs n a i l' d o.rows (o.kept i d before (same i d g)) h room;
  }

  module _ (fs : Floats V) (a p : ℕ) (room : a + times p (suc s) + suc s < 2 ^ 63) (c : RrdData V)
      (cache : List (RrdData V)) (at : c.timestamp ≡ pos (a + times p (suc s)))
      (later : Rows s (a + times p (suc s) + suc s) cache) where
    abbrev pub merged_with : ℤ → List (RrdData V) → List (RrdData V)
    merged_with ts file =
        let j = junction (length file) ts file in
        overlay fs (length file) j.0 (c ∷ cache)
          (fix_missing fs (rounds j.1 ts) (pos (suc s)) ts (add64 j.1 (pos (suc s))) file).0

    merged_empty : Placed fs a p [] (c ∷ cache) (merged_with (pos (a + times p (suc s))) [])
    unfolding junction fix_missing
    merged_empty =
        let next = add64_pos (a + times p (suc s)) (suc s) room in
        let stop : ltb_ℤ (pos (a + times p (suc s) + suc s)) (pos (a + times p (suc s))) ≡ false =
          ground arith in
        let o =
          overlay-Overlaid s fs (a + times p (suc s)) 0 0 (c ∷ cache) [] tt (λ h. refl, λ h. refl)
            (at ∙ ap pos (omega arith), subst (λ t. Rows s t cache) (omega arith) later) in
        rw (next, stop)
          (record {
            there = λ n i d g number h room'.
                fmt_result_from fs n a p i (overlay fs 0 0 (c ∷ cache) []) d o.rows
                  (subst (λ k. get_elem? (overlay fs 0 0 (c ∷ cache) []) k ≡ some d) (omega arith)
                    (o.there i d g number))
                  h room';
            kept = λ n i d before g h room'. cc;
          })

    overlaid :
        (size : ℕ) (l : List (RrdData V))
        → Rows s a l
        → (p < size → length l ≡ size)
        → (size ≤ p → length l ≡ p)
        → Overlaid s fs a p (c ∷ cache) l (overlay fs size p (c ∷ cache) l)
    overlaid size l r inside behind =
        overlay-Overlaid s fs a size p (c ∷ cache) l r (inside, behind) (at, later)

    -- The memory begins among the rows of the file.
    merged_inside :
        (file : List (RrdData V))
        → Rows s a file
        → p < length file
        → Placed fs a p file (c ∷ cache) (merged_with (pos (a + times p (suc s))) file)
    unfolding fix_missing
    merged_inside file r h =
        rw (junction_lem s a p (length file) file r (omega arith) (omega (arith, h))) (from p refl)
      where
        nothing :
            (t n : ℕ)
            → a + times p (suc s) ≤ t
            → (fix_missing fs (suc n) (pos (suc s)) (pos (a + times p (suc s))) (pos t) file).0
              ≡ file
        nothing t n le =
            let stop : ltb_ℤ (pos t) (pos (a + times p (suc s))) ≡ false = ground (arith, le) in
            rw (fix_missing, stop) refl

        put_over : Placed fs a p file (c ∷ cache) (overlay fs (length file) p (c ∷ cache) file)
        put_over =
            Overlaid-Placed fs a p file file (c ∷ cache) _ (λ i d g. g)
              (overlaid (length file) file r (λ k. refl) (λ k. absurd (omega (arith, k, h))))

        from :
            (q : ℕ)
            → p ≡ q
            → Placed fs a p file (c ∷ cache) (
                overlay fs
                  (length file)
                  (mark s a p q).0
                  (c ∷ cache)
                  (fix_missing fs
                    (rounds (mark s a p q).1 (pos (a + times p (suc s))))
                    (pos (suc s))
                    (pos (a + times p (suc s)))
                    (add64 (mark s a p q).1 (pos (suc s)))
                    file).0)
        from zero e =
            let next = add64_pos (a + times p (suc s)) (suc s) room in
            rw (next, nothing (a + times p (suc s) + suc s) _ (omega arith))
              (subst
                (λ k. Placed fs a p file (c ∷ cache) (overlay fs (length file) k (c ∷ cache) file))
                e put_over)
        from (suc q) e =
            let up : times p (suc s) ≡ suc s + times q (suc s) = ap (λ k. times k (suc s)) e in
            let next = add64_pos (a + times q (suc s)) (suc s) (omega (arith, room, up)) in
            rw (next, nothing (a + times q (suc s) + suc s) _ (omega (arith, up)))
              (subst
                (λ k. Placed fs a p file (c ∷ cache) (overlay fs (length file) k (c ∷ cache) file))
                e put_over)

    -- The memory begins behind the rows of the file.
    merged_behind :
        (file : List (RrdData V)) (q : ℕ)
        → Rows s a file
        → length file ≡ suc q
        → suc q ≤ p
        → Placed fs a p file (c ∷ cache) (merged_with (pos (a + times p (suc s))) file)
    merged_behind file q r len le =
        let here : junction (length file) (pos (a + times p (suc s))) file ≡ mark s a p (suc q) =
          junction_here s a p (length file) file r (omega arith) (omega (arith, len, le))
          ∙ ap (mark s a p) len in
        let step = times_le (suc q) p (suc s) le in
        let next : add64 (pos (a + times q (suc s))) (pos (suc s))
            ≡ pos (a + times (suc q) (suc s)) =
          add64_pos (a + times q (suc s)) (suc s) (omega (arith, step, room))
          ∙ ap pos (omega arith) in
        let n = rounds (pos (a + times q (suc s))) (pos (a + times p (suc s))) in
        let enough : p < suc q + n = fuel q (p - q) (omega (arith, le)) in
        let f = fix_missing-Filled s a p fs room n (suc q) file r len le enough in
        rw (here, next)
          (subst (Placed fs a p file (c ∷ cache))
            (overlay_behind fs p p (length file) (suc q) (c ∷ cache) _ (omega arith)
              (omega (arith, len)))
            (Overlaid-Placed fs a p file _ (c ∷ cache) _ f.kept
              (overlaid p _ f.rows (λ k. f.long) (λ k. f.long))))
      where
        fuel :
            (q k : ℕ)
            → q + k ≡ p
            → p < suc q + rounds (pos (a + times q (suc s))) (pos (a + times p (suc s)))
        fuel q k e =
            let sum : times p (suc s) ≡ times q (suc s) + times k (suc s) =
              ap (λ j. times j (suc s)) (sym e) ∙ times_add q k (suc s) in
            omega (int_laws, times_ge k s, sum, e)

    pub merged-Placed :
        (file : List (RrdData V))
        → Rows s a file
        → Placed fs a p file (c ∷ cache) (merged_with c.timestamp file)
    merged-Placed file r =
        subst (λ ts. Placed fs a p file (c ∷ cache) (merged_with ts file)) (sym at)
          (elim (Bool-cases (ltb p (length file))) [
            | inl inside ↦ merged_inside file r (ground (arith, inside))
            | inr out ↦ behind file r (ground (arith, out))
          ])
      where
        behind :
            (file : List (RrdData V))
            → Rows s a file
            → length file ≤ p
            → Placed fs a p file (c ∷ cache) (merged_with (pos (a + times p (suc s))) file)
        behind [] r le = merged_empty
        behind (x ∷ file) r le = merged_behind (x ∷ file) (length file) r refl le
