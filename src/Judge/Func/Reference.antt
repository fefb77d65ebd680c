-- ===== src/Judge/Func/Reference.antt =====
-- What each function computes from its points.
use ref_falcon.Prelude.{
  zero, suc, ◌-◌, ◌≡◌, refl, Bool, true, ◌||◌, ◌&&◌, List, [], ◌∷◌, map, length, arith, ok, ap, leb,
  Option,
}
use ref_falcon.Prelude.Int.{ℤ, pos, negsuc, pos_part, add64, leb_ℤ}
use ref_falcon.Float64.{Float64}
use ref_falcon.Judge.Types.{HistoryData}
use ref_falcon.Judge.Func.{
  Params, Function, Verdict, Stats, triggers, diff_of, pdiff_of, fold_body, larger, smaller,
  best_body, all_body, lookup_body, change_body, stddev_body, body, wanted,
}
use ref_falcon.Judge.Func.Loops.{
  values, fold, every, count, first_change, fold_loop_lem, all_loop_lem, lookup_loop_lem,
  change_loop_lem, lookup_loop_none,
}

module _ {V : Type 0} ⦃fl : Float64 V⦄ where
  -- The verdict of a fold that ends in s.
  abbrev pub folded : Params V → List (HistoryData V) → V → Verdict V
  folded p vs s = record { vs = vs; left_value = s; is_triggered = triggers p s; is_enough = true }

  abbrev pub changed : List (HistoryData V) → V × Bool → Verdict V
  changed vs r = record { vs = vs; left_value = r.0; is_triggered = r.1; is_enough = true }

  abbrev pub zero_value : V
  zero_value = fl.lit (pos 0) 0

  map-values : (ds : List (HistoryData V)) → map (λ (d : HistoryData V). d.value) ds ≡ values ds
  map-values [] = refl
  map-values (d ∷ ds) = ap (◌∷◌ d.value) (map-values ds)

  module _ ⦃st : Stats V⦄ where
    -- The verdict of each function on its points, from the values alone, newest first.
    abbrev pub reference : Function V → HistoryData V → List (HistoryData V) → Verdict V
    reference (Function.max p) d ds = folded p (d ∷ ds) (fold larger d.value (values ds))
    reference (Function.min p) d ds = folded p (d ∷ ds) (fold smaller d.value (values ds))
    reference (Function.all p) d ds =
        changed (d ∷ ds) (d.value, every (triggers p) (values (d ∷ ds)))
    reference (Function.sum p) d ds = folded p (d ∷ ds) (fold fl.add zero_value (values (d ∷ ds)))
    reference (Function.avg p) d ds =
        folded p (d ∷ ds) (fl.div (fold fl.add zero_value (values (d ∷ ds))) (fl.of_int p.limit))
    reference (Function.diff p) d ds =
        changed (d ∷ ds) (first_change (diff_of d.value) (triggers p) zero_value (values ds))
    reference (Function.pdiff p) d ds =
        changed (d ∷ ds) (first_change (pdiff_of d.value) (triggers p) zero_value (values ds))
    reference (Function.stddev p) d ds =
        let all = values (d ∷ ds) in
        let spread = fl.mul p.right_value (st.std_deviation all) in
        changed (d ∷ ds) (
          d.value,
          fl.lt d.value (fl.sub (st.mean all) spread)
              || fl.lt (fl.add (st.mean all) spread) d.value,
        )
    reference (Function.lookup num p) d ds =
        changed (d ∷ ds)
          (d.value, leb_ℤ (pos 1) num && leb (pos_part num) (count (triggers p) (values (d ∷ ds))))

    best_body_lem :
        (f : V → V → V) (p : Params V) (d : HistoryData V) (ds : List (HistoryData V))
        → p.limit ≡ pos (suc (length ds))
        → best_body f p (d ∷ ds) ≡ ok (folded p (d ∷ ds) (fold f d.value (values ds)))
    unfolding best_body fold_body
    best_body_lem f p d ds e =
        rw
          (fold_loop_lem f (pos_part p.limit - 1) 1 (d ∷ ds) d.value (omega (arith, ap pos_part e)))

    fold_body_lem :
        (f : V → V → V) (s : V) (finish : V → V) (p : Params V) (d : HistoryData V)
        (ds : List (HistoryData V))
        → p.limit ≡ pos (suc (length ds))
        → fold_body f (pos_part p.limit) 0 s finish p (d ∷ ds)
          ≡ ok (folded p (d ∷ ds) (finish (fold f s (values (d ∷ ds)))))
    unfolding fold_body
    fold_body_lem f s finish p d ds e =
        rw (fold_loop_lem f (pos_part p.limit) 0 (d ∷ ds) s (omega (arith, ap pos_part e)))

    change_body_lem :
        (change : V → V → Option V) (p : Params V) (d : HistoryData V) (ds : List (HistoryData V))
        → add64 p.limit (pos 1) ≡ pos (suc (length ds))
        → change_body change p (d ∷ ds)
          ≡ ok
              (changed (d ∷ ds) (first_change (change d.value) (triggers p) zero_value (values ds)))
    unfolding change_body
    change_body_lem change p d ds e = rw (
        change_loop_lem (change d.value) p (pos_part (add64 p.limit (pos 1)) - 1) 1 (d ∷ ds)
          zero_value (omega (arith, ap pos_part e)))

    all_body_lem :
        (p : Params V) (d : HistoryData V) (ds : List (HistoryData V))
        → p.limit ≡ pos (suc (length ds))
        → all_body p (d ∷ ds)
          ≡ ok (changed (d ∷ ds) (d.value, every (triggers p) (values (d ∷ ds))))
    unfolding all_body
    all_body_lem p d ds e =
        rw (all_loop_lem p (pos_part p.limit) 0 (d ∷ ds) (omega (arith, ap pos_part e)))

    lookup_body_lem :
        (num : ℤ) (p : Params V) (d : HistoryData V) (ds : List (HistoryData V))
        → p.limit ≡ pos (suc (length ds))
        → lookup_body num p (d ∷ ds) ≡ ok (reference (Function.lookup num p) d ds)
    unfolding lookup_body
    lookup_body_lem (pos (suc num)) p d ds e =
        rw
          (lookup_loop_lem (suc num) p (pos_part p.limit) 0 0 (d ∷ ds)
            (omega (arith, ap pos_part e)) (omega arith))
          (ap (λ b. ok (changed (d ∷ ds) (d.value, b))) (ground arith))
    lookup_body_lem (pos zero) p d ds e = rw (
        lookup_loop_none (pos 0) p (pos_part p.limit) 0 0 (d ∷ ds) (omega (arith, ap pos_part e))
          refl)
    lookup_body_lem (negsuc n) p d ds e =
        rw
          (lookup_loop_none (negsuc n) p (pos_part p.limit) 0 0 (d ∷ ds)
            (omega (arith, ap pos_part e)) (ground arith))
          (ap (λ b. ok (changed (d ∷ ds) (d.value, b))) (ground arith))

    stddev_body_lem :
        (p : Params V) (d : HistoryData V) (ds : List (HistoryData V))
        → stddev_body p (d ∷ ds) ≡ ok (reference (Function.stddev p) d ds)
    unfolding stddev_body
    stddev_body_lem p d ds = rw (map-values ds)

    pub body_lem :
        (f : Function V) (d : HistoryData V) (ds : List (HistoryData V))
        → wanted f ≡ pos (suc (length ds))
        → body f (d ∷ ds) ≡ ok (reference f d ds)
    body_lem (Function.max p) d ds e = unfold body in best_body_lem larger p d ds e
    body_lem (Function.min p) d ds e = unfold body in best_body_lem smaller p d ds e
    body_lem (Function.all p) d ds e = unfold body in all_body_lem p d ds e
    body_lem (Function.sum p) d ds e =
        unfold body in fold_body_lem fl.add zero_value (λ s. s) p d ds e
    body_lem (Function.avg p) d ds e =
        unfold body in fold_body_lem fl.add zero_value (λ s. fl.div s (fl.of_int p.limit)) p d ds e
    body_lem (Function.diff p) d ds e = unfold body in change_body_lem diff_of p d ds e
    body_lem (Function.pdiff p) d ds e = unfold body in change_body_lem pdiff_of p d ds e
    body_lem (Function.stddev p) d ds e = unfold body in stddev_body_lem p d ds
    body_lem (Function.lookup num p) d ds e = unfold body in lookup_body_lem num p d ds e
