-- ===== src/Transfer/Convert/Aligned.antt =====
-- What the conversions do to steps and times.
use ref_falcon.Prelude.{
  ℕ, suc, ◌+◌, ◌-◌, ◌*◌, ◌/◌, ◌%◌, ◌^◌, ◌≤◌, ◌<◌, ◌≡◌, refl, sym, ap, ◌∙◌, ◌⊎◌, inl, inr, true,
  false, arith, Returns, Bool-cases,
}
use native.Mathlib.Omega.{div_fact, mod_fact}
use ref_falcon.Prelude.Int.{ℤ, pos, ◌≤ℤ◌, wrap64-id, ◌*ℤ◌, IsInt64}
use ref_falcon.Prelude.Text.{String, str_eq, eq_iff}
use ref_falcon.Nodata.Judging.Times.{sub64_pos, rem_pos}
use ref_falcon.Transfer.Types.{MetaData, GraphItem}
use ref_falcon.Transfer.Convert.{
  align_ts, at_least, convert_2_judge_item, graph_item, convert_2_graph_item,
}

align_ts_pos : (n k : ℕ) → n < 2 ^ 63 → align_ts (pos n) (pos (suc k)) ≡ pos (n - n % suc k)
unfolding align_ts
align_ts_pos n k b =
    rw (rem_pos n k) (sub64_pos n (n % suc k) (omega (arith, div_fact n k, mod_fact n k)) b)

-- The start of the period that a time lies in.
abbrev pub IsStart : ℕ → ℕ → ℤ → Type 0
IsStart n period t = (q : ℕ) × (t ≡ pos (period * q)) × (period * q ≤ n) × (n < period * q + period)

parts : (n a r k : ℕ) → a + r ≡ n → r < k → (n - r ≡ a) × (a ≤ n) × (n < a + k)
parts n a r k e h = (omega (arith, e), omega (arith, e), omega (arith, e))

-- For a period of at least 1 and a time from 0 to 2^63 - 1, the aligned time is the start of the
-- period that the time lies in.
pub align_ts-IsStart : (n k : ℕ) → n < 2 ^ 63 → IsStart n (suc k) (align_ts (pos n) (pos (suc k)))
align_ts-IsStart n k b =
    let (start, low, high) =
      parts n (suc k * (n / suc k)) (n % suc k) (suc k) (div_fact n k) (mod_fact n k) in
    (n / suc k, align_ts_pos n k b ∙ ap pos start, low, high)

-- A type of counter that transfer accepts.
abbrev pub KnownType : String → Type 0
KnownType t = (t ≡ "GAUGE") ⊎ (t ≡ "COUNTER") ⊎ (t ≡ "DERIVE")

at_least-least : (m s : ℤ) → m ≤ℤ at_least m s
at_least-least m s = ground arith

at_least-own : (m s : ℤ) → s ≤ℤ at_least m s
at_least-own m s = ground arith

module _ {V : Type 0} where
  -- What rrdtool needs of an item.
  pub record GoodGraphItem (min_step : ℤ) (d : MetaData V) (g : GraphItem V) : Type 0 where
    pub least : min_step ≤ℤ g.step
    pub own : d.step ≤ℤ g.step
    pub double : g.heartbeat ≡ g.step *ℤ pos 2
    pub kind : (g.ds_type ≡ "GAUGE") ⊎ (g.ds_type ≡ "DERIVE")
    pub same_time : g.timestamp ≡ (convert_2_judge_item min_step d).timestamp

  good :
      (m : ℤ) (d : MetaData V) (t min max : String)
      → (t ≡ "GAUGE") ⊎ (t ≡ "DERIVE")
      → IsInt64 (at_least m d.step *ℤ pos 2)
      → GoodGraphItem m d (graph_item m d t min max)
  good m d t min max k b = record {
    least = at_least-least m d.step;
    own = at_least-own m d.step;
    double = wrap64-id _ b;
    kind = k;
    same_time = unfold convert_2_judge_item in refl;
  }

  -- For a known type of counter, and a step whose double is an int64, the item for graph has a
  -- step of at least MinStep and of at least its own, a heartbeat of two steps, one of the two
  -- types of rrdtool, and the time that the item for judge has.
  pub convert_2_graph_item-Good :
      (m : ℤ) (d : MetaData V)
      → KnownType d.counter_type
      → IsInt64 (at_least m d.step *ℤ pos 2)
      → Returns (GoodGraphItem m d) (convert_2_graph_item m d)
  unfolding convert_2_graph_item
  convert_2_graph_item-Good m d k b = elim (Bool-cases (str_eq d.counter_type "GAUGE")) [
    | inl e ↦
        rw (e, convert_2_graph_item)
          (good m d d.counter_type "U" "U" (inl ((eq_iff d.counter_type "GAUGE").0 e)) b)
    | inr n ↦ elim (Bool-cases (str_eq d.counter_type "COUNTER")) [
      | inl e ↦ rw (n, e, convert_2_graph_item) (good m d "DERIVE" "0" "U" (inr refl) b)
      | inr p ↦ elim (Bool-cases (str_eq d.counter_type "DERIVE")) [
        | inl e ↦ rw (n, p, e, convert_2_graph_item) (good m d "DERIVE" "0" "U" (inr refl) b)
        | inr q ↦ absurd (no_type d.counter_type k n p q)
      ]
    ]
  ]
    where
      differ : true ≡ false → ⊥
      differ e = cc

      no_type :
          (t : String)
          → KnownType t
          → str_eq t "GAUGE" ≡ false
          → str_eq t "COUNTER" ≡ false
          → str_eq t "DERIVE" ≡ false
          → ⊥
      no_type t (inl e) n p q = differ (sym ((eq_iff t "GAUGE").1 e) ∙ n)
      no_type t (inr (inl e)) n p q = differ (sym ((eq_iff t "COUNTER").1 e) ∙ p)
      no_type t (inr (inr e)) n p q = differ (sym ((eq_iff t "DERIVE").1 e) ∙ q)
