-- ===== src/Aggregator/Run.antt =====
-- aggregator/cron/computer.go, query.go and run.go: the value of an expression on a host, and WorkerRun.
-- The API that knows the hosts of a group and the last points, and ParseFloat, are outside.
pub mod Comparing
pub mod Sound
pub mod Average
use ref_falcon.Prelude.{
  ℕ, suc, Bool, not, ◌&&◌, ◌||◌, List, [], ◌∷◌, ◌++◌, length, Option, none, some, if◌then◌else◌,
  ◌==◌, Run, ok, err, panic, must, ◌>>=◌,
}
use ref_falcon.Prelude.Int.{ℤ, pos, ltb_ℤ, sub64, wrap64, ◌*ℤ◌}
use ref_falcon.Prelude.Text.{String, codes}
use ref_falcon.Float64.{Float64}
use ref_falcon.Judge.Parse.{bytes_eq}
use ref_falcon.Aggregator.Expression.{
  clean_param, need_compute, expression_valid, parse, operators_valid, is_digit,
}

-- The parts that `parse` gives.
abbrev pub Parts : Type 0
Parts = List (List ℕ) × List (List ℕ) × List ℕ

-- A map from endpoint and counter, run together, to a value; what was set last is in front.
abbrev pub ValMap : Type 0 → Type 0
ValMap V = List (List ℕ × V)

pub record LastPoint (V : Type 0) : Type 0 where
  pub endpoint : List ℕ
  pub counter : List ℕ
  pub timestamp : ℤ
  pub value : V

pub record Cluster : Type 0 where
  pub group_id : ℤ
  pub numerator : List ℕ
  pub denominator : List ℕ
  pub endpoint : String
  pub metric : String
  pub tags : String
  pub ds_type : String
  pub step : ℤ

-- `none` is an error of the API. ParseFloat gives a value beside an error too: the second part of
-- its result is whether there was none.
pub record Api (V : Type 0) : Type 0 where
  pub hostnames_by_id : ℤ → Option (List (List ℕ))
  pub query_last_points : List (List ℕ) → List (List ℕ) → Option (List (LastPoint V))
  pub parse_float : List ℕ → V × Bool

-- `sender.Push`.
pub record Pushed (V : Type 0) : Type 0 where
  pub cluster : Cluster
  pub value : V

module _ {V : Type 0} where
  unfoldable pub lookup_bytes : List ℕ → ValMap V → Option V
  lookup_bytes key [] = none
  lookup_bytes key ((name, v) ∷ m) =
      let rest = lookup_bytes key m in if bytes_eq name key then some v else rest

  -- The loop of queryCounterLast over the points; those out of the time are passed over.
  unfoldable pub recent_values : ℤ → ℤ → List (LastPoint V) → ValMap V → ValMap V
  recent_values begin end [] m = m
  recent_values begin end (p ∷ points) m = recent_values begin end points (
      if ltb_ℤ p.timestamp begin || ltb_ℤ end p.timestamp
      then m
      else (p.endpoint ++ p.counter, p.value) ∷ m)

  unfoldable pub query_counter_last :
      Api V → List (List ℕ) → List (List ℕ) → List (List ℕ) → ℤ → ℤ → Option (ValMap V)
  unfolding recent_values
  query_counter_last api numerators denominators hostnames begin end =
      elim (api.query_last_points hostnames (numerators ++ denominators)) [
        | none ↦ none
        | some resp ↦ some (recent_values begin end resp [])
      ]

  unfoldable pub query_operands : List (List ℕ) → List ℕ → ValMap V → List V
  unfolding lookup_bytes
  query_operands [] endpoint val_map = []
  query_operands (counter ∷ counters) endpoint val_map =
      let rest = query_operands counters endpoint val_map in
      elim (lookup_bytes (endpoint ++ counter) val_map) [ none ↦ rest | some v ↦ v ∷ rest ]

-- `([><=]+)([\d\.]+)`: the first run of signs that a digit or a point follows, and what follows.
abbrev pub is_comparing : ℕ → Bool
is_comparing c = c == b'>' || c == b'<' || c == b'='

abbrev pub is_numeric : ℕ → Bool
is_numeric c = is_digit c || c == b'.'

unfoldable pub run_of : (ℕ → Bool) → List ℕ → List ℕ × List ℕ
run_of p [] = ([], [])
run_of p (c ∷ s) = let r = run_of p s in if p c then (c ∷ r.0, r.1) else ([], c ∷ s)

abbrev pub match_here : List ℕ × List ℕ → List ℕ × List ℕ → Option (List ℕ × List ℕ)
match_here (m ∷ mode, rest) (d ∷ number, rest') = some (m ∷ mode, d ∷ number)
match_here _ _ = none

unfoldable pub find_comparison : List ℕ → Option (List ℕ × List ℕ)
unfolding run_of
find_comparison [] = none
find_comparison (c ∷ s) =
    let later = find_comparison s in
    let mode = run_of is_comparing (c ∷ s) in
    elim (match_here mode (run_of is_numeric mode.1)) [ none ↦ later | some m ↦ some m ]

module _ {V : Type 0} ⦃fl : Float64 V⦄ (api : Api V) where
  abbrev pub mode_holds : List ℕ → V → V → Bool
  mode_holds mode sum val =
      (bytes_eq mode (codes ">") && fl.lt val sum)
      || (bytes_eq mode (codes "<") && fl.lt sum val)
      || (bytes_eq mode (codes "=") && fl.eq sum val)
      || (bytes_eq mode (codes ">=") && fl.le val sum)
      || (bytes_eq mode (codes "<=") && fl.le sum val)

  -- No match is a panic.
  unfoldable pub compare_sum : V → List ℕ → Run Bool
  unfolding find_comparison
  compare_sum sum compute_mode = do
    m ← must (find_comparison compute_mode)
    ok (mode_holds m.0 sum (api.parse_float m.1).0)

  -- The loop over `vals[1:]`; an operator that is missing is a panic.
  unfoldable pub sum_up : List V → List (List ℕ) → V → Run V
  sum_up [] operators sum = ok sum
  sum_up (v ∷ vals) [] sum = panic
  sum_up (v ∷ vals) (op ∷ operators) sum =
      sum_up vals operators (if bytes_eq op (codes "+") then fl.add sum v else fl.sub sum v)

  abbrev pub with_mode : List ℕ → V → Run V
  with_mode [] sum = ok sum
  with_mode (c ∷ mode) sum = do
    holds ← compare_sum sum (c ∷ mode)
    ok (if holds then fl.of_int (pos 1) else fl.of_int (pos 0))

  -- `vals[0]` panics on no values.
  abbrev pub compute_values : List (List ℕ) → List ℕ → List V → Run V
  compute_values operators mode [] = panic
  compute_values operators mode (v ∷ vals) = do sum ← sum_up vals operators v; with_mode mode sum

  unfoldable pub compute_expression : Parts → List ℕ → ValMap V → Run V
  unfolding compare_sum sum_up query_operands
  compute_expression (operands, operators, mode) hostname val_map =
      let vals = query_operands operands hostname val_map in
      if length operands == 0
      then err
      else if not (length vals == length operands)
      then err
      else compute_values operators mode vals

  -- A side that is not computed counts as 0 on every host.
  abbrev pub side : Bool → Parts → List ℕ → ValMap V → Run V
  side need parts hostname val_map =
      if need then compute_expression parts hostname val_map else ok (fl.of_int (pos 0))

  -- Both values on a host: `none` is an error, by which the host is passed over.
  unfoldable pub host_values :
      Bool → Parts → Bool → Parts → List ℕ → ValMap V → Run (Option (V × V))
  unfolding compute_expression
  host_values need_n n need_d d hostname val_map = elim (side need_n n hostname val_map) [
    | panic ↦ panic
    | err ↦ ok none
    | ok nv ↦ elim (side need_d d hostname val_map) [
      | panic ↦ panic
      | err ↦ ok none
      | ok dv ↦ ok (some (nv, dv))
    ]
  ]

  -- The two sums and validCount.
  pub record Totals : Type 0 where
    pub numerator : V
    pub denominator : V
    pub valid_count : ℕ

  abbrev pub add_host : Option (V × V) → Totals → Totals
  add_host none t = t
  add_host (some (nv, dv)) t = record {
    numerator = fl.add t.numerator nv;
    denominator = fl.add t.denominator dv;
    valid_count = suc t.valid_count;
  }

  unfoldable pub host_loop :
      Bool → Parts → Bool → Parts → ValMap V → List (List ℕ) → Totals → Run Totals
  unfolding host_values
  host_loop need_n n need_d d val_map [] t = ok t
  host_loop need_n n need_d d val_map (hostname ∷ hostnames) t = do
    r ← host_values need_n n need_d d hostname val_map
    host_loop need_n n need_d d val_map hostnames (add_host r t)

  -- A side that is not computed: the number of hosts, or the number that the text is.
  abbrev pub constant_side : List ℕ → ℕ → Option V
  constant_side text valid_count =
      if bytes_eq text (codes "$#")
      then some (fl.of_int (pos valid_count))
      else if (api.parse_float text).1
      then some (api.parse_float text).0
      else none

  abbrev pub final_side : Bool → List ℕ → V → ℕ → Option V
  final_side need text total valid_count =
      if need then some total else constant_side text valid_count

  -- The end of WorkerRun, from the loop's sums on.
  unfoldable pub push_quotient : Cluster → Option V → Option V → ℕ → Option (Pushed V)
  push_quotient item none denominator valid_count = none
  push_quotient item (some n) none valid_count = none
  push_quotient item (some n) (some d) valid_count =
      if fl.eq d (fl.of_int (pos 0))
      then none
      else if valid_count == 0
      then none
      else some (record { cluster = item; value = fl.div n d })

  abbrev pub no_totals : Totals
  no_totals = record {
    numerator = fl.of_int (pos 0);
    denominator = fl.of_int (pos 0);
    valid_count = 0;
  }

  unfoldable pub run_hosts :
      Cluster
      → Bool
      → List ℕ
      → Parts
      → Bool
      → List ℕ
      → Parts
      → List (List ℕ)
      → Option (ValMap V)
      → Run (Option (Pushed V))
  unfolding host_loop push_quotient
  run_hosts item need_n text_n n need_d text_d d hostnames none = ok none
  run_hosts item need_n text_n n need_d text_d d hostnames (some val_map) = do
    t ← host_loop need_n n need_d d val_map hostnames no_totals
    ok (
        push_quotient item (final_side need_n text_n t.numerator t.valid_count)
          (final_side need_d text_d t.denominator t.valid_count) t.valid_count)

  abbrev pub run_group :
      ℤ
      → Cluster
      → Bool
      → List ℕ
      → Parts
      → Bool
      → List ℕ
      → Parts
      → Option (List (List ℕ))
      → Run (Option (Pushed V))
  run_group now item need_n text_n n need_d text_d d none = ok none
  run_group now item need_n text_n n need_d text_d d (some []) = ok none
  run_group now item need_n text_n n need_d text_d d (some (h ∷ hs)) =
      let begin = sub64 now (wrap64 (item.step *ℤ pos 2)) in
      run_hosts item need_n text_n n need_d text_d d (h ∷ hs)
        (query_counter_last api n.0 d.0 (h ∷ hs) begin now)

  unfoldable pub run_parsed :
      ℤ → Cluster → Bool → List ℕ → Parts → Bool → List ℕ → Parts → Run (Option (Pushed V))
  unfolding run_hosts query_counter_last
  run_parsed now item need_n text_n n need_d text_d d =
      if not (operators_valid n.1) || not (operators_valid d.1)
      then ok none
      else run_group now item need_n text_n n need_d text_d d (api.hostnames_by_id item.group_id)

  -- WorkerRun: what is pushed, with `none` on each of its early returns.
  unfoldable pub worker_run : ℤ → Cluster → Run (Option (Pushed V))
  unfolding run_parsed
  worker_run now item =
      let text_n = clean_param item.numerator in
      let text_d = clean_param item.denominator in
      let need_n = need_compute text_n in
      let need_d = need_compute text_d in
      if not (expression_valid text_n) || not (expression_valid text_d)
      then ok none
      else if not need_n && not need_d
      then ok none
      else do
        n ← parse text_n need_n
        d ← parse text_d need_d
        run_parsed now item need_n text_n n need_d text_d d
