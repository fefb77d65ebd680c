-- ===== src/Graph/Query/Merge.antt =====
-- The merge of `Query`: the items in memory as points, put behind and over the points of the file.
use ref_falcon.Prelude.{
  ℕ, zero, suc, Bool, not, ◌&&◌, ◌||◌, List, [], ◌∷◌, ◌++◌, length, get_elem?, set, none, some,
  if◌then◌else◌, ltb,
}
use ref_falcon.Prelude.Int.{ℤ, pos_part, leb_ℤ, ltb_ℤ, eqb_ℤ, add64, sub64, ◌-ℤ◌}
use ref_falcon.Prelude.Text.{String, str_eq}
use ref_falcon.Float64.{Float64}
use ref_falcon.Transfer.Types.{GraphItem}

pub record RrdData (V : Type 0) : Type 0 where
  pub timestamp : ℤ
  pub value : V

-- `math.NaN()` and `math.IsNaN`.
pub record Floats (V : Type 0) : Type 0 where
  pub nan : V
  pub is_nan : V → Bool

-- The points from start to end.
abbrev pub is_between : ℤ → ℤ → ℤ → Bool
is_between start_ts end_ts ts = leb_ℤ start_ts ts && leb_ℤ ts end_ts

module _ {V : Type 0} where
  -- The last item from x on, which is `items[items_size-1]`.
  abbrev pub last_of : GraphItem V → List (GraphItem V) → GraphItem V
  last_of x [] = x
  last_of x (y ∷ items) = last_of y items

  -- `cache = append(cache, ...)` for a point that is asked for.
  abbrev pub append_between : ℤ → ℤ → ℤ → V → List (RrdData V) → List (RrdData V)
  append_between start_ts end_ts ts val cache =
      if is_between start_ts end_ts ts
      then cache ++ record { timestamp = ts; value = val } ∷ []
      else cache

  -- The points of the file that are asked for.
  unfoldable pub between : ℤ → ℤ → List (RrdData V) → List (RrdData V)
  between start_ts end_ts [] = []
  between start_ts end_ts (d ∷ datas) =
      let rest = between start_ts end_ts datas in
      if is_between start_ts end_ts d.timestamp then d ∷ rest else rest

  -- "find junction": the index behind the last of the first i points that is before ts, and the
  -- time of that point; without one the index is 0 and the time is ts.
  unfoldable pub junction : ℕ → ℤ → List (RrdData V) → ℕ × ℤ
  junction zero ts merged = (0, ts)
  junction (suc i) ts merged =
      let rest = junction i ts merged in
      elim (get_elem? merged i) [
        | none ↦ rest
        | some d ↦ if ltb_ℤ d.timestamp ts then (suc i, d.timestamp) else rest
      ]

-- An upper bound of the rounds of a loop from ts to end_ts with a step of at least 1.
abbrev pub rounds : ℤ → ℤ → ℕ
rounds ts end_ts = suc (pos_part (end_ts -ℤ ts))

module _ {V : Type 0} ⦃fl : Float64 V⦄ (fs : Floats V) where
  -- A rate needs the next item one step later, with no smaller value.
  abbrev pub derive_point : ℤ → ℤ → List (GraphItem V) → V × List (GraphItem V)
  derive_point step ts (a ∷ b ∷ items) =
      if eqb_ℤ ts a.timestamp
      then (
        if eqb_ℤ ts (sub64 b.timestamp step) && fl.le a.value b.value
            then fl.div (fl.sub b.value a.value) (fl.of_int step)
            else fs.nan,
        b ∷ items,
      )
      else (fs.nan, a ∷ b ∷ items)
  derive_point step ts items = (fs.nan, items)

  -- The loop over the items of a rate; the result has the time at which it ended.
  unfoldable pub derive_loop :
      ℕ → ℤ → ℤ → ℤ → ℤ → ℤ → List (GraphItem V) → List (RrdData V) → List (RrdData V) × ℤ
  derive_loop zero step start_ts end_ts item_end_ts ts items cache = (cache, ts)
  derive_loop (suc n) step start_ts end_ts item_end_ts ts items cache =
      let r = derive_point step ts items in
      let rest =
        derive_loop n step start_ts end_ts item_end_ts (add64 ts step) r.1
          (append_between start_ts end_ts ts r.0 cache) in
      if ltb_ℤ ts item_end_ts then rest else (cache, ts)

module _ {V : Type 0} (fs : Floats V) where
  -- The value at ts, from the items from itemIdx on, and the items from the new itemIdx on.
  abbrev pub gauge_point : ℤ → List (GraphItem V) → V × List (GraphItem V)
  gauge_point ts [] = (fs.nan, [])
  gauge_point ts (a ∷ items) =
      if eqb_ℤ ts a.timestamp then (a.value, items) else (fs.nan, a ∷ items)

  unfoldable pub gauge_loop :
      ℕ → ℤ → ℤ → ℤ → ℤ → ℤ → List (GraphItem V) → List (RrdData V) → List (RrdData V) × ℤ
  gauge_loop zero step start_ts end_ts item_end_ts ts items cache = (cache, ts)
  gauge_loop (suc n) step start_ts end_ts item_end_ts ts items cache =
      let r = gauge_point ts items in
      let rest =
        gauge_loop n step start_ts end_ts item_end_ts (add64 ts step) r.1
          (append_between start_ts end_ts ts r.0 cache) in
      if leb_ℤ ts item_end_ts then rest else (cache, ts)

  -- "fix missing": a point without a value for every step before the first in memory.
  unfoldable pub fix_missing : ℕ → ℤ → ℤ → ℤ → List (RrdData V) → List (RrdData V) × ℤ
  fix_missing zero step first_ts ts merged = (merged, ts)
  fix_missing (suc n) step first_ts ts merged =
      let rest =
        fix_missing n step first_ts (add64 ts step)
          (merged ++ record { timestamp = ts; value = fs.nan } ∷ []) in
      if ltb_ℤ ts first_ts then rest else (merged, ts)

  -- "merge cached items to result", from the index idx on, where `size` points are of the file.
  abbrev pub put_point : ℕ → ℕ → RrdData V → List (RrdData V) → List (RrdData V)
  put_point size idx c merged =
      if ltb idx size
      then (if not (fs.is_nan c.value) then set merged idx c else merged)
      else merged ++ c ∷ []

  unfoldable pub overlay : ℕ → ℕ → List (RrdData V) → List (RrdData V) → List (RrdData V)
  overlay size idx [] merged = merged
  overlay size idx (c ∷ cache) merged = overlay size (suc idx) cache (put_point size idx c merged)

  unfoldable pub merge : ℤ → ℤ → ℤ → List (RrdData V) → List (RrdData V) → List (RrdData V)
  unfolding between junction fix_missing overlay
  merge step start_ts end_ts datas [] = between start_ts end_ts datas
  merge step start_ts end_ts datas (c ∷ cache) =
      let merged = between start_ts end_ts datas in
      let j = junction (length merged) c.timestamp merged in
      overlay (length merged) j.0 (c ∷ cache)
        (fix_missing (rounds j.1 c.timestamp) step c.timestamp (add64 j.1 step) merged).0

  -- The point at ts, from the merged points from mergedIdx on.
  abbrev pub point_at : ℤ → List (RrdData V) → RrdData V × List (RrdData V)
  point_at ts [] = (record { timestamp = ts; value = fs.nan }, [])
  point_at ts (d ∷ merged) =
      if eqb_ℤ ts d.timestamp
      then (d, merged)
      else (record { timestamp = ts; value = fs.nan }, d ∷ merged)

  -- "fmt result": n points from ts on.
  unfoldable pub fmt_result : ℕ → ℤ → ℤ → List (RrdData V) → List (RrdData V)
  fmt_result zero step ts merged = []
  fmt_result (suc n) step ts merged =
      let r = point_at ts merged in r.0 ∷ fmt_result n step (add64 ts step) r.1

module _ {V : Type 0} ⦃fl : Float64 V⦄ (fs : Floats V) where
  -- "fmt cached items", for items that begin with x.
  unfoldable pub cache_items :
      String → ℤ → ℤ → ℤ → GraphItem V → List (GraphItem V) → List (RrdData V)
  unfolding derive_loop gauge_loop
  cache_items ds_type step start_ts end_ts x items =
      let item_end_ts = (last_of x items).timestamp in
      let n = rounds x.timestamp item_end_ts in
      if str_eq ds_type "DERIVE" || str_eq ds_type "COUNTER"
      then (derive_loop fs n step start_ts end_ts item_end_ts x.timestamp (x ∷ items) []).0
      else if str_eq ds_type "GAUGE"
      then (gauge_loop fs n step start_ts end_ts item_end_ts x.timestamp (x ∷ items) []).0
      else []
