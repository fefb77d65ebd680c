-- ===== src/Nodata/Judging.antt =====
-- nodata/judge: judge_cron.go and status.go. The maps of the library nmap are association lists;
-- GetFirstItem of the collector, which stands in Nodata.Collecting, is passed as an argument.
pub mod Times
pub mod Status
use ref_falcon.Prelude.{
  suc, ◌+◌, ◌%◌, true, false, not, ◌||◌, ◌&&◌, List, [], ◌∷◌, Option, none, some, if◌then◌else◌,
}
use ref_falcon.Prelude.Int.{
  ℤ, pos, negsuc, pos_part, neg_part, ◌-ℤ◌, ltb_ℤ, leb_ℤ, eqb_ℤ, add64, sub64, wrap64, ◌*ℤ◌,
}
use ref_falcon.Prelude.Text.{String, str_eq, lookup, insert}
use ref_falcon.Judge.Types.{Tags}
use ref_falcon.Float64.{Float64}

-- `model.NodataConfig`: what this code reads.
pub record NdConfig (V : Type 0) : Type 0 where
  pub endpoint : String
  pub metric : String
  pub tags : Tags
  pub counter_type : String
  pub step : ℤ
  pub mock : V

pub record DataItem (V : Type 0) : Type 0 where
  pub ts : ℤ
  pub value : V
  pub f_status : String
  pub f_ts : ℤ

pub record NodataStatus : Type 0 where
  pub key : String
  pub status : String
  pub cnt : ℤ
  pub ts : ℤ

-- `model.JsonMetaData`, the item that AddMock makes.
pub record Mock (V : Type 0) : Type 0 where
  pub metric : String
  pub endpoint : String
  pub ts : ℤ
  pub step : ℤ
  pub value : V
  pub counter_type : String
  pub tags : String

-- `StatusMap` and `MockMap`.
pub record State (V : Type 0) : Type 0 where
  pub status_map : List (String × NodataStatus)
  pub mocks : List (String × Mock V)

-- `a % b` of Go, which has the sign of a.
abbrev pub rem : ℤ → ℤ → ℤ
rem a b = let d = pos_part b + neg_part b in pos (pos_part a % d) -ℤ pos (neg_part a % d)

-- The made-up value stands more than one step back, so that it does not cover a normal one.
unfoldable pub gen_ts : ℤ → ℤ → ℤ
gen_ts now step = elim (ltb_ℤ step (pos 1)) [
  | true ↦ sub64 (sub64 now (rem now (pos 60))) (pos 120)
  | false ↦ sub64 (sub64 now (rem now step)) (wrap64 (pos 2 *ℤ step))
]

unfoldable pub get_timeout : ℤ → ℤ
get_timeout step = if ltb_ℤ step (pos 60) then pos 180 else wrap64 (step *ℤ pos 3)

unfoldable pub last_ts : String → List (String × NodataStatus) → ℤ
last_ts key m = elim (lookup key m) [ none ↦ pos 0 | some v ↦ v.ts ]

unfoldable pub turn_ok : String → ℤ → List (String × NodataStatus) → List (String × NodataStatus)
turn_ok key ts m = elim (lookup key m) [
  | none ↦ insert key (record { key = key; status = "OK"; cnt = pos 0; ts = ts }) m
  | some ns ↦ insert key (record ns { status = "OK"; cnt = pos 0; ts = ts }) m
]

unfoldable pub turn_nodata :
    String → ℤ → List (String × NodataStatus) → List (String × NodataStatus)
turn_nodata key ts m = elim (lookup key m) [
  | none ↦ insert key (record { key = key; status = "NODATA"; cnt = pos 1; ts = ts }) m
  | some ns ↦ insert key (record ns { status = "NODATA"; cnt = add64 ns.cnt (pos 1); ts = ts }) m
]

module _ {V : Type 0} ⦃fl : Float64 V⦄ where
  -- `fCompare`, with minfloat64 = 0.000001.
  unfoldable pub f_compare : V → V → ℤ
  f_compare left right =
      let diff = fl.sub left right in
      let least = fl.lit (pos 1) 6 in
      if fl.lt (fl.sub (fl.lit (pos 0) 0) least) diff && fl.lt diff least
      then pos 0
      else if fl.le least diff
      then pos 1
      else negsuc 0

-- `sorted_tags` is SortedTags of common/utils.
module _ {V : Type 0} ⦃fl : Float64 V⦄ (sorted_tags : Tags → String) where
  -- `genMock` up to the map, and `AddMock`.
  abbrev pub gen_mock : ℤ → NdConfig V → Mock V
  gen_mock ts ndcfg = record {
    metric = ndcfg.metric;
    endpoint = ndcfg.endpoint;
    ts = ts;
    step = ndcfg.step;
    value = ndcfg.mock;
    counter_type = ndcfg.counter_type;
    tags = sorted_tags ndcfg.tags;
  }

  -- The body of the two cases that take the counter to be overdue.
  unfoldable pub overdue : String → NdConfig V → ℤ → State V → State V
  unfolding turn_nodata last_ts gen_ts
  overdue key ndcfg now st =
      if leb_ℤ (add64 (last_ts key st.status_map) ndcfg.step) now
      then record {
        status_map = turn_nodata key now st.status_map;
        mocks = insert key (gen_mock (gen_ts now ndcfg.step) ndcfg) st.mocks;
      }
      else st

  -- The body of the loop, for a key with a strategy and an item.
  unfoldable pub judge_item : String → NdConfig V → DataItem V → ℤ → State V → State V
  unfolding overdue turn_ok f_compare get_timeout
  judge_item key ndcfg item now st =
      let last = sub64 now (get_timeout ndcfg.step) in
      if not (str_eq item.f_status "OK") || ltb_ℤ item.f_ts last
      then st
      else if eqb_ℤ (f_compare ndcfg.mock item.value) (pos 0)
      then overdue key ndcfg now st
      else if ltb_ℤ item.ts last
      then overdue key ndcfg now st
      else record st { status_map = turn_ok key now st.status_map }

  -- The body of the loop.
  unfoldable pub judge_key :
      List (String × NdConfig V) → (String → Option (DataItem V)) → ℤ → String → State V → State V
  unfolding judge_item
  judge_key configs first_item now key st = elim (lookup key configs) [
    | none ↦ st
    | some ndcfg ↦ elim (first_item key) [
      | none ↦ st
      | some item ↦ judge_item key ndcfg item now st
    ]
  ]

  unfoldable pub judge_keys :
      List (String × NdConfig V)
      → (String → Option (DataItem V))
      → ℤ
      → List String
      → State V
      → State V
  unfolding judge_key
  judge_keys configs first_item now [] st = st
  judge_keys configs first_item now (key ∷ keys) st =
      judge_keys configs first_item now keys (judge_key configs first_item now key st)
