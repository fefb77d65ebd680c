-- ===== src/Judge/Window/History.antt =====
-- What `HistoryData` returns.
use ref_falcon.Prelude.{
  ℕ, zero, suc, ◌-◌, ◌^◌, ◌≤◌, ◌<◌, ◌≡◌, refl, true, false, ◌||◌, List, [], ◌∷◌, map, length, take,
  arith, ok, Bool-cases, inl, inr, ap, if◌then◌else◌, ◌==◌, leb, some, length-map, take_all,
}
use ref_falcon.Prelude.Int.{
  ℤ, pos, ◌<ℤ◌, ◌≤ℤ◌, int_laws, IsInt64, add64, add64-id, sub64-id, ltb_ℤ, ltb_ℤ→lt, ltb_ℤ→le,
}
use ref_falcon.Prelude.Text.{first_byte}
use ref_falcon.Float64.{Float64}
use ref_falcon.Judge.Types.{JudgeItem, HistoryData}
use ref_falcon.Judge.Window.{
  point, elapsed, rate, gauge_loop, counter_loop, gauge_history, counter_history, history_of,
  history_data,
}
use ref_falcon.Judge.Window.Push.{Descending}

n_of : (n : ℕ) → suc n - 1 ≡ n
n_of n = omega arith

limit_suc : (n : ℕ) → suc n < 2 ^ 63 → add64 (pos n) (pos 1) ≡ pos (suc n)
limit_suc n h = rw (add64-id (pos n) (pos 1) (omega int_laws)) (omega int_laws)

limit_valid : (n : ℕ) → ltb_ℤ (pos (suc n)) (pos 1) ≡ false
limit_valid n = ground arith

module _ {V : Type 0} where
  gauge_loop-take :
      (n : ℕ) (xs : List (JudgeItem V))
      → n ≤ length xs
      → gauge_loop n xs ≡ ok (take n (map point xs))
  unfolding gauge_loop
  gauge_loop-take zero xs h = refl
  gauge_loop-take (suc n) [] h = absurd (omega arith)
  gauge_loop-take (suc n) (x ∷ xs) h = rw (gauge_loop-take n xs (omega arith))

  -- The times of an accepted window are positive numbers.
  abbrev pub Timed : List (JudgeItem V) → Type 0
  Timed [] = Unit {0}
  Timed (x ∷ l) = IsInt64 x.timestamp × (pos 0 ≤ℤ x.timestamp) × Timed l

  -- The time between any two neighbours is positive.
  abbrev pub Growing : List (JudgeItem V) → Type 0
  Growing [] = Unit {0}
  Growing (x ∷ []) = Unit {0}
  Growing (x ∷ y ∷ l) = (pos 0 <ℤ elapsed x y) × Growing (y ∷ l)

  elapsed_pos :
      (x y : JudgeItem V)
      → IsInt64 x.timestamp
      → pos 0 ≤ℤ x.timestamp
      → pos 0 ≤ℤ y.timestamp
      → y.timestamp <ℤ x.timestamp
      → pos 0 <ℤ elapsed x y
  elapsed_pos x y b hx hy h =
      rw (sub64-id x.timestamp y.timestamp (omega int_laws)) (omega int_laws)

  -- In a window with falling times every rate divides by a positive number of seconds.
  pub Descending-Growing : (l : List (JudgeItem V)) → Timed l → Descending l → Growing l
  Descending-Growing [] t d = tt
  Descending-Growing (x ∷ []) t d = tt
  Descending-Growing (x ∷ y ∷ l) t d =
      (elapsed_pos x y t.0 t.1 t.2.1 d.0, Descending-Growing (y ∷ l) t.2 d.1)

  module _ ⦃fl : Float64 V⦄ where
    -- The growth between each two neighbours, newest first.
    abbrev pub rates : JudgeItem V → List (JudgeItem V) → List (HistoryData V)
    rates x [] = []
    rates x (y ∷ l) = rate x y ∷ rates y l

    length-rates : (x : JudgeItem V) (l : List (JudgeItem V)) → length (rates x l) ≡ length l
    length-rates x [] = refl
    length-rates x (y ∷ l) = ap suc (length-rates y l)

    counter_loop-take :
        (n : ℕ) (x : JudgeItem V) (xs : List (JudgeItem V))
        → n ≤ length xs
        → counter_loop n x xs ≡ ok (take n (rates x xs))
    unfolding counter_loop
    counter_loop-take zero x xs h = refl
    counter_loop-take (suc n) x [] h = absurd (omega arith)
    counter_loop-take (suc n) x (y ∷ xs) h = rw (counter_loop-take n y xs (omega arith))

    -- The points that a list offers: its values if the newest item is a gauge, else its growths.
    abbrev pub points : ℕ → JudgeItem V → List (JudgeItem V) → List (HistoryData V)
    points c x xs = if c == b'G' || c == b'g' then map point (x ∷ xs) else rates x xs

    gauge_history_lem :
        (x : JudgeItem V) (xs : List (JudgeItem V)) (n : ℕ)
        → gauge_history x xs (pos (suc n))
          ≡ ok (take (suc n) (map point (x ∷ xs)), leb (suc n) (suc (length xs)))
    unfolding gauge_history
    gauge_history_lem x xs n =
        let size = length-map xs (point {V = V}) in
        elim (Bool-cases (ltb_ℤ (pos (suc (length xs))) (pos (suc n)))) [
          | inl few ↦
              let short = ltb_ℤ→lt (pos (suc (length xs))) (pos (suc n)) few in
              rw
                (
                  few,
                  gauge_loop-take (length xs) xs (omega arith),
                  take_all (length xs) (map (point {V = V}) xs) (omega (arith, size)),
                  take_all n (map (point {V = V}) xs) (omega (arith, size, short)),
                )
                (ap (λ b. ok (point x ∷ map point xs, b)) (ground (arith, short)))
          | inr many ↦
              let enough = ltb_ℤ→le (pos (suc (length xs))) (pos (suc n)) many in
              rw (many, n_of n, gauge_loop-take n xs (omega (arith, enough)))
                (ap (λ b. ok (point x ∷ take n (map point xs), b)) (ground (arith, enough)))
        ]

    counter_history_lem :
        (x : JudgeItem V) (xs : List (JudgeItem V)) (n : ℕ)
        → suc n < 2 ^ 63
        → counter_history x xs (pos n) ≡ ok (take n (rates x xs), leb n (length xs))
    unfolding counter_history
    counter_history_lem x xs n h =
        let size = length-rates x xs in
        elim (Bool-cases (ltb_ℤ (pos (suc (length xs))) (pos (suc n)))) [
          | inl few ↦
              let short = ltb_ℤ→lt (pos (suc (length xs))) (pos (suc n)) few in
              rw
                (
                  limit_suc n h,
                  few,
                  counter_loop-take (length xs) x xs (omega arith),
                  take_all (length xs) (rates x xs) (omega (arith, size)),
                  take_all n (rates x xs) (omega (arith, size, short)),
                )
                (ap (λ b. ok (rates x xs, b)) (ground (arith, short)))
          | inr many ↦
              let enough = ltb_ℤ→le (pos (suc (length xs))) (pos (suc n)) many in
              rw (limit_suc n h, many, counter_loop-take n x xs (omega (arith, enough)))
                (ap (λ b. ok (take n (rates x xs), b)) (ground (arith, enough)))
        ]

    -- For a limit from 1 to 2^63 - 2 and a newest item with a counter type, `HistoryData` returns: the
    -- first `limit` points of the list (values of a gauge, growths per second of a counter), and
    -- that they are enough exactly when the list offers `limit` points.
    pub history_data_lem :
        (x : JudgeItem V) (xs : List (JudgeItem V)) (n c : ℕ)
        → first_byte x.judge_type ≡ some c
        → 0 < n
        → suc n < 2 ^ 63
        → history_data (x ∷ xs) (pos n)
          ≡ ok (take n (points c x xs), leb n (length (points c x xs)))
    unfolding history_data
    history_data_lem x xs zero c t h b = absurd (omega arith)
    history_data_lem x xs (suc n) c t h b = elim (Bool-cases (c == b'G' || c == b'g')) [
      | inl gauge ↦
          rw (limit_valid n, t, gauge, gauge_history_lem x xs n, length-map xs (point {V = V}))
      | inr counter ↦
          rw (limit_valid n, t, counter, counter_history_lem x xs (suc n) b, length-rates x xs)
    ]

    pub history_bad_limit :
        (l : List (JudgeItem V)) (limit : ℤ)
        → ltb_ℤ limit (pos 1) ≡ true
        → history_data l limit ≡ ok ([], false)
    unfolding history_data
    history_bad_limit l limit h = rw h

    pub history_data-nil : (limit : ℤ) → history_data {V = V} [] limit ≡ ok ([], false)
    unfolding history_data history_of
    history_data-nil limit = ground arith
