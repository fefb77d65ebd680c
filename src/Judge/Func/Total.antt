-- ===== src/Judge/Func/Total.antt =====
-- `Compute` never panics on a window whose items have a counter type.
use ref_falcon.Prelude.{
  ◌≢◌, ℕ, zero, suc, ◌^◌, ◌<◌, ◌≡◌, refl, Bool, true, false, List, [], ◌∷◌, arith, ok, Returns, inl,
  inr, ◌⊎◌, some,
}
use ref_falcon.Prelude.Int.{ℤ, pos, negsuc, pos_part, ltb_ℤ}
use ref_falcon.Float64.{Float64}
use ref_falcon.Judge.Types.{JudgeItem, HistoryData}
use ref_falcon.Judge.Func.{Function, Verdict, Stats, not_enough, wanted, compute}
use ref_falcon.Prelude.Text.{first_byte}
use ref_falcon.Judge.Window.History.{history_bad_limit, history_data-nil}
use ref_falcon.Judge.Func.Reference.{reference}
use ref_falcon.Judge.Func.Compute.{verdict_of, compute_lem}

module _ {V : Type 0} where
  -- The newest item has a counter type that is not empty.
  abbrev pub Typed : List (JudgeItem V) → Type 0
  Typed [] = Unit {0}
  Typed (x ∷ xs) = (c : ℕ) × (first_byte x.judge_type ≡ some c)

module _ {V : Type 0} ⦃fl : Float64 V⦄ ⦃st : Stats V⦄ where
  -- A verdict says that there were not enough points, or it has a point.
  abbrev pub HasPoint : Verdict V → Type 0
  HasPoint v = (v.is_enough ≡ false) ⊎ (v.vs ≢ [])

  not_enough-HasPoint : (vs : List (HistoryData V)) → HasPoint (not_enough vs)
  not_enough-HasPoint vs = inl refl

  reference-HasPoint :
      (f : Function V) (d : HistoryData V) (ds : List (HistoryData V)) → HasPoint (reference f d ds)
  reference-HasPoint (Function.max p) d ds = inr (λ e. cc)
  reference-HasPoint _ d ds = inr (λ e. cc)

  verdict_of-HasPoint :
      (f : Function V) (b : Bool) (vs : List (HistoryData V)) → HasPoint (verdict_of f b vs)
  verdict_of-HasPoint f true [] = not_enough-HasPoint []
  verdict_of-HasPoint f true (d ∷ ds) = reference-HasPoint f d ds
  verdict_of-HasPoint f false vs = not_enough-HasPoint vs

  compute_bad_limit :
      (f : Function V) (l : List (JudgeItem V))
      → ltb_ℤ (wanted f) (pos 1) ≡ true
      → compute f l ≡ ok (not_enough [])
  unfolding compute
  compute_bad_limit f l h = rw (history_bad_limit l (wanted f) h)

  compute_no_items : (f : Function V) → compute f [] ≡ ok (not_enough [])
  unfolding compute
  compute_no_items f = rw (history_data-nil {V = V} (wanted f))

  compute_items :
      (f : Function V) (x : JudgeItem V) (xs : List (JudgeItem V)) (w : ℤ) (c : ℕ)
      → first_byte x.judge_type ≡ some c
      → wanted f ≡ w
      → suc (pos_part w) < 2 ^ 63
      → Returns HasPoint (compute f (x ∷ xs))
  compute_items f x xs (pos (suc n)) c t w b =
      rw (compute_lem f x xs n c t w b) (verdict_of-HasPoint f _ _)
  compute_items f x xs (pos zero) c t w b =
      rw (compute_bad_limit f (x ∷ xs) (rw w)) (not_enough-HasPoint [])
  compute_items f x xs (negsuc n) c t w b =
      rw (compute_bad_limit f (x ∷ xs) (rw w (ground arith))) (not_enough-HasPoint [])

  -- On items that are none, or of which the newest has a counter type that is not empty, and with a
  -- number of wanted points below 2^63 - 1 (the limit, and one more for diff and pdiff), `Compute`
  -- of each function returns, and a verdict that says it has enough points has at least one.
  pub compute-HasPoint :
      (f : Function V) (l : List (JudgeItem V))
      → Typed l
      → suc (pos_part (wanted f)) < 2 ^ 63
      → Returns HasPoint (compute f l)
  compute-HasPoint f [] t b = rw (compute_no_items f) (not_enough-HasPoint [])
  compute-HasPoint f (x ∷ xs) t b = compute_items f x xs (wanted f) t.0 t.1 refl b
