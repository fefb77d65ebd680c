-- ===== src/Transfer/Receive.antt =====
-- transfer/receiver/rpc/rpc_transfer.go, the loop of RecvMetricValues. ParseFloat of the float that is
-- a parameter, and DictedTagstring of common/utils, are parameters too.
pub mod Valid
use ref_falcon.Prelude.{
  ℕ, suc, ◌+◌, ltb, leb, Bool, true, false, not, ◌||◌, ◌&&◌, List, [], ◌∷◌, ◌++◌, Option, none,
  some, if◌then◌else◌,
}
use ref_falcon.Prelude.Int.{ℤ, pos, ltb_ℤ, leb_ℤ, wrap64, ◌*ℤ◌}
use ref_falcon.Prelude.Text.{String, str_eq, codes}
use ref_falcon.Judge.Types.{Tags}
use ref_falcon.Float64.{Float64}
use ref_falcon.Transfer.Types.{Value, text, float, int, other, MetricValue, MetaData}

-- `len` of a text: the bytes of its code points in UTF-8.
abbrev pub byte_count : List ℕ → ℕ
byte_count [] = 0
byte_count (c ∷ cs) =
    (if ltb c 128 then 1 else if ltb c 2048 then 2 else if ltb c 65536 then 3 else 4)
    + byte_count cs

abbrev pub len : String → ℕ
len s = byte_count (codes s)

-- `v.Value == ""` holds of the empty text only.
abbrev pub is_empty : {V : Type 0} → Value V → Bool
is_empty (text s) = str_eq s ""
is_empty (float x) = false
is_empty (int z) = false
is_empty other = false

-- The tests of the loop that do not look at the value's type, in their order.
unfoldable pub refused : {V : Type 0} → MetricValue V → Bool
refused v =
    if str_eq v.metric "kernel.hostname"
    then true
    else if str_eq v.metric "" || str_eq v.endpoint ""
    then true
    else if not (str_eq v.counter_type "COUNTER")
        && not (str_eq v.counter_type "GAUGE")
        && not (str_eq v.counter_type "DERIVE")
    then true
    else if is_empty v.value
    then true
    else if leb_ℤ v.step (pos 0)
    then true
    else ltb 510 (len v.metric + len v.tags)

abbrev pub time_of : ℤ → ℤ → ℤ
time_of now ts = if leb_ℤ ts (pos 0) || ltb_ℤ (wrap64 (now *ℤ pos 2)) ts then now else ts

module _ {V : Type 0} ⦃fl : Float64 V⦄ (parse_float : String → Option V)
    (dicted : String → Tags) where
  -- The switch on the type of the value.
  abbrev pub float_of : Value V → Option V
  float_of (text s) = parse_float s
  float_of (float x) = some x
  float_of (int z) = some (fl.of_int z)
  float_of other = none

  -- One round: the item, or nothing where Invalid grows.
  unfoldable pub recv_one : ℤ → Option (MetricValue V) → Option (MetaData V)
  unfolding refused
  recv_one now none = none
  recv_one now (some v) = elim (refused v) [
    | true ↦ none
    | false ↦ elim (float_of v.value) [
      | none ↦ none
      | some vv ↦ some (record {
        metric = v.metric;
        endpoint = v.endpoint;
        timestamp = time_of now v.timestamp;
        step = v.step;
        value = vv;
        counter_type = v.counter_type;
        tags = dicted v.tags;
      })
    ]
  ]

  -- The loop: the items, and `reply.Invalid`.
  unfoldable pub recv_loop :
      ℤ → List (Option (MetricValue V)) → List (MetaData V) → ℕ → List (MetaData V) × ℕ
  unfolding recv_one
  recv_loop now [] items invalid = (items, invalid)
  recv_loop now (v ∷ args) items invalid = elim (recv_one now v) [
    | none ↦ recv_loop now args items (suc invalid)
    | some item ↦ recv_loop now args (items ++ item ∷ []) invalid
  ]
