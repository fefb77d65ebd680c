-- ===== src/Judge/Window.antt =====
-- judge/store/linkedlist.go: the list of the latest items of one counter, newest first. A method
-- that changes the list returns the new one.
pub mod Push
pub mod History
use ref_falcon.Prelude.{
  ℕ, zero, suc, ◌-◌, Bool, true, false, ◌||◌, List, [], ◌∷◌, length, if◌then◌else◌, ◌==◌, Run, ok,
  panic, must, ◌>>=◌,
}
use ref_falcon.Prelude.Int.{ℤ, pos, pos_part, ltb_ℤ, leb_ℤ, ◌-ℤ◌, add64, sub64}
use ref_falcon.Prelude.Text.{first_byte}
use ref_falcon.Float64.{Float64}
use ref_falcon.Judge.Types.{JudgeItem, HistoryData}

module _ {V : Type 0} where
  -- `L.Remove(L.Back())`; with no element it panics.
  unfoldable pub remove_back : List (JudgeItem V) → Run (List (JudgeItem V))
  remove_back [] = panic
  remove_back (x ∷ []) = ok []
  remove_back (x ∷ y ∷ l) = do rest ← remove_back (y ∷ l); ok (x ∷ rest)

  -- The loop over `i < del`.
  unfoldable pub remove_backs : ℕ → List (JudgeItem V) → Run (List (JudgeItem V))
  remove_backs zero l = ok l
  remove_backs (suc del) l = do rest ← remove_back l; remove_backs del rest

  -- The new data is a duplicate, or its time is wrong.
  unfoldable pub is_stale : JudgeItem V → List (JudgeItem V) → Bool
  is_stale v [] = false
  is_stale v (x ∷ l) = leb_ℤ v.timestamp x.timestamp || leb_ℤ v.timestamp (pos 0)

  -- `PushFrontAndMaintain`. The result is needJudge and the list. The length is a list's, so
  -- `sz - maxCount` does not wrap.
  unfoldable pub push_front_and_maintain :
      List (JudgeItem V) → JudgeItem V → ℤ → Run (Bool × List (JudgeItem V))
  unfolding is_stale remove_backs remove_back
  push_front_and_maintain l v max_count =
      if is_stale v l
      then ok (false, l)
      else (let sz = pos (suc (length l)) in
          if leb_ℤ sz max_count
          then ok (true, v ∷ l)
          else do rest ← remove_backs (pos_part (sz -ℤ max_count)) (v ∷ l); ok (true, rest))

  -- One value as it was pushed.
  abbrev pub point : JudgeItem V → HistoryData V
  point x = record { timestamp = x.timestamp; value = x.value }

  -- The loop of a gauge over `i < limit`: `rest` begins at the next element.
  unfoldable pub gauge_loop : ℕ → List (JudgeItem V) → Run (List (HistoryData V))
  gauge_loop zero rest = ok []
  gauge_loop (suc n) [] = panic
  gauge_loop (suc n) (x ∷ xs) = do vs ← gauge_loop n xs; ok (point x ∷ vs)

  -- The time between two neighbours.
  abbrev pub elapsed : JudgeItem V → JudgeItem V → ℤ
  elapsed cur next = sub64 cur.timestamp next.timestamp

  module _ ⦃fl : Float64 V⦄ where
    -- The growth per second between two neighbours.
    abbrev pub rate : JudgeItem V → JudgeItem V → HistoryData V
    rate cur next = record {
      timestamp = cur.timestamp;
      value = fl.div (fl.sub cur.value next.value) (fl.of_int (elapsed cur next));
    }

    -- The loop of a counter over `i < limit`.
    unfoldable pub counter_loop : ℕ → JudgeItem V → List (JudgeItem V) → Run (List (HistoryData V))
    counter_loop zero cur rest = ok []
    counter_loop (suc n) cur [] = panic
    counter_loop (suc n) cur (x ∷ xs) = do vs ← counter_loop n x xs; ok (rate cur x ∷ vs)

    unfoldable pub gauge_history :
        JudgeItem V → List (JudgeItem V) → ℤ → Run (List (HistoryData V) × Bool)
    unfolding gauge_loop
    gauge_history x xs limit =
        if ltb_ℤ (pos (suc (length xs))) limit
        then (do vs ← gauge_loop (length xs) xs; ok (point x ∷ vs, false))
        else (do vs ← gauge_loop (pos_part limit - 1) xs; ok (point x ∷ vs, true))

    unfoldable pub counter_history :
        JudgeItem V → List (JudgeItem V) → ℤ → Run (List (HistoryData V) × Bool)
    unfolding counter_loop
    counter_history x xs limit =
        if ltb_ℤ (pos (suc (length xs))) (add64 limit (pos 1))
        then (do vs ← counter_loop (length xs) x xs; ok (vs, false))
        else (do vs ← counter_loop (pos_part limit) x xs; ok (vs, true))

    -- The part of `HistoryData` below the test of `limit`.
    unfoldable pub history_of : List (JudgeItem V) → ℤ → Run (List (HistoryData V) × Bool)
    unfolding gauge_history counter_history
    history_of [] limit = ok ([], false)
    history_of (x ∷ xs) limit = do
      c ← must (first_byte x.judge_type)
      if c == b'G' || c == b'g' then gauge_history x xs limit else counter_history x xs limit

    -- `HistoryData`: up to `limit` points, newest first, and whether there are enough.
    unfoldable pub history_data : List (JudgeItem V) → ℤ → Run (List (HistoryData V) × Bool)
    unfolding history_of
    history_data l limit = if ltb_ℤ limit (pos 1) then ok ([], false) else history_of l limit
