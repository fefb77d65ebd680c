-- ===== src/Judge/Store.antt =====
-- judge/store/history.go, judge/rpc/receiver.go and judge/cron/cleaner.go: the windows of all
-- counters, 256 maps by the first two characters of the primary key, and what is done with them.
pub mod Clean
pub mod Send
use ref_falcon.Prelude.{
  Bool, true, false, List, [], ◌∷◌, ◌++◌, map, Option, none, some, if◌then◌else◌, Run, ok, must,
  ◌>>=◌,
}
use ref_falcon.Prelude.Int.{ℤ, pos, ltb_ℤ, sub64}
use ref_falcon.Prelude.Text.{String, str_append, lookup, insert, delete}
use ref_falcon.Float64.{Float64}
use ref_falcon.Judge.Types.{JudgeItem, Strategy, Expression}
use ref_falcon.Judge.Func.{Stats}
use ref_falcon.Judge.Window.{push_front_and_maintain}
use ref_falcon.Judge.Alarm.{Env, Alarms}
use ref_falcon.Judge.Rules.{judge}

-- `pk[0:2]`, which panics on a shorter text.
abbrev pub first_two : String → Option String
first_two String.[] = none
first_two (String.◌∷◌ a String.[]) = none
first_two (String.◌∷◌ a (String.◌∷◌ b s)) = some (String.◌∷◌ a (String.◌∷◌ b String.[]))

-- The loop of BatchDelete.
unfoldable pub batch_delete {ℓ} : {A : Type ℓ} → List String → List (String × A) → List (String × A)
batch_delete [] m = m
batch_delete (key ∷ keys) m = batch_delete keys (delete key m)

-- `SafeFilterMap.Exists`.
abbrev pub exists : String → List (String × String) → Bool
exists key m = elim (lookup key m) [ none ↦ false | some _ ↦ true ]

abbrev pub ItemMap : Type 0 → Type 0
ItemMap V = List (String × List (JudgeItem V))

-- What `Send` reads and writes.
pub record Memory (V : Type 0) : Type 0 where
  pub big : List (String × ItemMap V)
  pub alarms : Alarms V

-- `arr[i]+arr[j]` for a row of second characters, and for all the rows.
abbrev hex_digits : List String
hex_digits =
    "0" ∷ "1" ∷ "2" ∷ "3" ∷ "4" ∷ "5" ∷ "6" ∷ "7" ∷ "8" ∷ "9" ∷ "a" ∷ "b" ∷ "c" ∷ "d" ∷ "e" ∷ "f"
    ∷ []

unfoldable pub pairs : List String → List String
pairs [] = []
pairs (a ∷ rest) = map (str_append a) hex_digits ++ pairs rest

unfoldable pub prefixes : List String
unfolding pairs
prefixes = pairs hex_digits

unfoldable pub init_maps : {V : Type 0} → List String → List (String × ItemMap V)
init_maps [] = []
init_maps (p ∷ ps) = (p, []) ∷ init_maps ps

-- `InitHistoryBigMap`.
unfoldable pub init_history_big_map : {V : Type 0} → List (String × ItemMap V)
unfolding init_maps prefixes
init_history_big_map = init_maps prefixes

module _ {V : Type 0} where
  -- Whether CleanStale takes the key of a list.
  abbrev pub is_old : ℤ → List (JudgeItem V) → Bool
  is_old before [] = false
  is_old before (front ∷ l) = ltb_ℤ front.timestamp before

  -- The keys that CleanStale collects.
  unfoldable pub stale_keys : ℤ → ItemMap V → List String
  stale_keys before [] = []
  stale_keys before ((key, l) ∷ m) =
      let rest = stale_keys before m in if is_old before l then key ∷ rest else rest

  unfoldable pub clean_stale : ℤ → ItemMap V → ItemMap V
  unfolding stale_keys batch_delete
  clean_stale before m = batch_delete (stale_keys before m) m

  -- `cleanStale` of the cron: seven days, for each of the maps.
  unfoldable clean_all : ℤ → List (String × ItemMap V) → List (String × ItemMap V)
  unfolding clean_stale
  clean_all now [] = []
  clean_all now ((prefix, m) ∷ big) =
      (prefix, clean_stale (sub64 now (pos 604800)) m) ∷ clean_all now big

  module _ ⦃fl : Float64 V⦄ ⦃st : Stats V⦄ (env : Env V) (sm : List (String × List (Strategy V)))
      (em : List (String × List (Expression V))) where
    -- `JudgeItemMap.PushFrontAndMaintain`.
    unfoldable pub push_item :
        String → JudgeItem V → ℤ → ℤ → ItemMap V → Alarms V → Run (ItemMap V × Alarms V)
    push_item key val max_count now m alarms = elim (lookup key m) [
      | none ↦ do
        alarms' ← judge env sm em (val ∷ []) val now alarms
        ok (insert key (val ∷ []) m, alarms')
      | some l ↦ do
        (need_judge, l') ← push_front_and_maintain l val max_count
        alarms' ← if need_judge then judge env sm em l' val now alarms else ok alarms
        ok (insert key l' m, alarms')
    ]

    -- One item of `Send` that passed the filter; a map that is not there is a nil pointer.
    unfoldable pub receive : JudgeItem V → ℤ → ℤ → Memory V → Run (Memory V)
    unfolding push_item
    receive item remain now mem = do
      prefix ← must (first_two (env.primary_key item))
      m ← must (lookup prefix mem.big)
      (m', alarms') ← push_item (env.primary_key item) item remain now m mem.alarms
      ok (record { big = insert prefix m' mem.big; alarms = alarms' })

    unfoldable pub send :
        List (String × String) → List (JudgeItem V) → ℤ → ℤ → Memory V → Run (Memory V)
    unfolding receive
    send filter [] remain now mem = ok mem
    send filter (item ∷ items) remain now mem = do
      mem' ← if exists item.metric filter then receive item remain now mem else ok mem
      send filter items remain now mem'
