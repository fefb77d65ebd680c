-- ===== src/Judge/Func/Compute.antt =====
-- `Compute` on a window: total, and equal to the reference on every branch.
use ref_falcon.Prelude.{
  ℕ, suc, ◌^◌, ◌<◌, ◌≡◌, refl, sym, Bool, true, false, List, [], ◌∷◌, length, take, arith, ok, ap,
  ◌∙◌, leb, some, length-take, leb→le,
}
use ref_falcon.Prelude.Int.{pos}
use ref_falcon.Float64.{Float64}
use ref_falcon.Judge.Types.{JudgeItem, HistoryData}
use ref_falcon.Judge.Window.{history_data}
use ref_falcon.Judge.Func.{Function, Verdict, Stats, not_enough, wanted, compute}
use ref_falcon.Prelude.Text.{first_byte}
use ref_falcon.Judge.Window.History.{points, history_data_lem}
use ref_falcon.Judge.Func.Reference.{reference, body_lem}

module _ {V : Type 0} ⦃fl : Float64 V⦄ ⦃st : Stats V⦄ where
  -- The verdict on the first n of the points that a window offers.
  abbrev pub verdict_of : Function V → Bool → List (HistoryData V) → Verdict V
  verdict_of f true [] = not_enough []
  verdict_of f true (d ∷ ds) = reference f d ds
  verdict_of f false vs = not_enough vs

  compute-history :
      (f : Function V) (l : List (JudgeItem V)) (vs : List (HistoryData V)) (enough : Bool) (n : ℕ)
      → wanted f ≡ pos (suc n)
      → history_data l (wanted f) ≡ ok (vs, enough)
      → (enough ≡ true → length vs ≡ suc n)
      → compute f l ≡ ok (verdict_of f enough vs)
  unfolding compute
  compute-history f l vs false n w h size = rw h
  compute-history f l [] true n w h size = absurd (omega (arith, size refl))
  compute-history f l (d ∷ ds) true n w h size =
      rw h (body_lem f d ds (w ∙ ap pos (sym (size refl))))

  length-take_enough :
      (n : ℕ) (l : List (HistoryData V)) → leb n (length l) ≡ true → length (take n l) ≡ n
  length-take_enough n l h = omega (arith, length-take n l, leb→le n (length l) h)

  -- `Compute` of each of the nine functions returns, for a wanted number of points from 1 to
  -- 2^63 - 3 (the limit, and one more for diff and pdiff) and a newest item with a counter type: with enough points its verdict is the reference on the first `wanted`
  -- points; else it says that they are not enough and triggers nothing.
  pub compute_lem :
      (f : Function V) (x : JudgeItem V) (xs : List (JudgeItem V)) (n c : ℕ)
      → first_byte x.judge_type ≡ some c
      → wanted f ≡ pos (suc n)
      → suc (suc n) < 2 ^ 63
      → compute f (x ∷ xs)
        ≡ ok (verdict_of f (leb (suc n) (length (points c x xs))) (take (suc n) (points c x xs)))
  compute_lem f x xs n c t w b =
      compute-history f (x ∷ xs) (take (suc n) (points c x xs))
        (leb (suc n) (length (points c x xs))) n w
        (ap (history_data (x ∷ xs)) w ∙ history_data_lem x xs (suc n) c t (omega arith) b)
        (length-take_enough (suc n) (points c x xs))
