-- ===== src/Judge/Tests.antt =====
-- The theorems on judge/store, applied to small windows, rules and maps of last events.
mod Events
mod Rules
mod Store
use ref_falcon.Prelude.{
  suc, ◌+◌, ◌-◌, ◌≤◌, ◌<◌, ◌≡◌, refl, ap, ◌⊎◌, true, false, List, [], ◌∷◌, map, take, if◌then◌else◌,
  arith, ok, Returns, ◌>>=◌, ltb, leb,
}
use ref_falcon.Prelude.Int.{ℤ, pos, ◌+ℤ◌, ltb_ℤ, add64}
use ref_falcon.Prelude.Text.{lookup}
use ref_falcon.Float64.{whole}
use ref_falcon.Judge.Types.{JudgeItem, HistoryData, Event}
use ref_falcon.Judge.Func.{Params, Function, Stats, compute}
use ref_falcon.Judge.Window.{push_front_and_maintain, history_data}
use ref_falcon.Judge.Window.Push.{Accepts, push_front_and_maintain_lem}
use ref_falcon.Judge.Window.History.{points, history_data_lem}
use ref_falcon.Judge.Func.Compute.{verdict_of, compute_lem}
use ref_falcon.Judge.Func.Total.{HasPoint, compute-HasPoint}

-- Whole numbers with no spread.
instance abbrev pub flat : Stats ℤ
flat = record { std_deviation = λ l. pos 0; mean = λ l. pos 0 }

abbrev pub item : ℤ → ℤ → JudgeItem ℤ
item time value = record {
  endpoint = "host";
  metric = "cpu.busy";
  value = value;
  timestamp = time;
  judge_type = "GAUGE";
  tags = ("core", "0") ∷ [];
}

abbrev pub newest : JudgeItem ℤ
newest = item (pos 180) (pos 95)

abbrev pub older : List (JudgeItem ℤ)
older = item (pos 120) (pos 97) ∷ item (pos 60) (pos 99) ∷ []

abbrev pub window : List (JudgeItem ℤ)
window = newest ∷ older

push_front_and_maintain_lem_example :
    (Accepts older newest
      × (push_front_and_maintain older newest (pos 2)
          ≡ ok (true, newest ∷ item (pos 120) (pos 97) ∷ [])))
    ⊎ (¬ Accepts older newest × (push_front_and_maintain older newest (pos 2) ≡ ok (false, older)))
push_front_and_maintain_lem_example = push_front_and_maintain_lem older newest 2

history_data_lem_example :
    history_data window (pos 2) ≡ ok (take 2 (points b'G' newest older), true)
history_data_lem_example = history_data_lem newest older 2 b'G' refl (omega arith) (omega arith)

abbrev pub above : ℤ → ℤ → Params ℤ
above limit right_value = record { limit = limit; operator = ">"; right_value = right_value }

abbrev window_points : List (HistoryData ℤ)
window_points =
    record { timestamp = pos 180; value = pos 95 }
    ∷ record { timestamp = pos 120; value = pos 97 }
    ∷ record { timestamp = pos 60; value = pos 99 }
    ∷ []

compute_lem_example :
    compute (Function.all (above (pos 3) (pos 90))) window
    ≡ ok (verdict_of (Function.all (above (pos 3) (pos 90))) true window_points)
compute_lem_example =
    compute_lem (Function.all (above (pos 3) (pos 90))) newest older 2 b'G' refl refl (omega arith)

two_and_one : add64 (pos 2) (pos 1) ≡ pos 3
unfolding add64 ref_falcon.Prelude.Int.wrap64 ◌+ℤ◌
two_and_one = refl

compute-HasPoint_example :
    Returns HasPoint (compute (Function.pdiff (above (pos 2) (pos 50))) window)
compute-HasPoint_example =
    compute-HasPoint (Function.pdiff (above (pos 2) (pos 50))) window (b'G', refl)
      (rw two_and_one (omega arith))
