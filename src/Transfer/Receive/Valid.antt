-- ===== src/Transfer/Receive/Valid.antt =====
-- Which values RecvMetricValues takes.
use ref_falcon.Prelude.{
  ℕ, suc, ◌+◌, ◌≤◌, ◌≡◌, ◌≢◌, refl, sym, ap, subst, ◌∙◌, inl, inr, Bool, true, false, not, ◌||◌,
  ◌&&◌, List, [], ◌∷◌, ◌++◌, length, Option, none, some, if◌then◌else◌, arith, Bool-cases,
  Option-cases, ltb,
}
use ref_falcon.Prelude.Int.{ℤ, pos, ◌<ℤ◌, ltb_ℤ, leb_ℤ, leb_ℤ→lt, wrap64, ◌*ℤ◌}
use ref_falcon.Prelude.Text.{String, str_eq, eq_iff}
use ref_falcon.Float64.{Float64}
use ref_falcon.Judge.Types.{Tags}
use ref_falcon.Transfer.Types.{MetricValue, MetaData}
use ref_falcon.Transfer.Convert.Aligned.{KnownType}
use ref_falcon.Transfer.Receive.{len, is_empty, float_of, refused, time_of, recv_one, recv_loop}

not_same : (s t : String) → str_eq s t ≡ false → s ≢ t
not_same s t e = λ same. differ (sym ((eq_iff s t).1 same) ∙ e)
  where
    differ : true ≡ false → ⊥
    differ e = cc

peel : (a r : Bool) → (if a then true else r) ≡ false → (a ≡ false) × (r ≡ false)
peel a r h = ground arith

or_both : (a b : Bool) → (a || b) ≡ false → (a ≡ false) × (b ≡ false)
or_both a b h = ground arith

ltb→ge : (a b : ℕ) → ltb a b ≡ false → b ≤ a
ltb→ge a b h = ground arith

left_over : (a b c : Bool) → a ≡ false → b ≡ false → (not a && not b && not c) ≡ false → c ≡ true
left_over a b c p n h = ground arith

known :
    (t : String)
    → (not (str_eq t "COUNTER") && not (str_eq t "GAUGE") && not (str_eq t "DERIVE")) ≡ false
    → KnownType t
known t h = elim (Bool-cases (str_eq t "GAUGE")) [
  | inl e ↦ inl ((eq_iff t "GAUGE").0 e)
  | inr n ↦ elim (Bool-cases (str_eq t "COUNTER")) [
    | inl e ↦ inr (inl ((eq_iff t "COUNTER").0 e))
    | inr p ↦ inr (
        inr (
          (eq_iff t "DERIVE").0
            (left_over (str_eq t "COUNTER") (str_eq t "GAUGE") (str_eq t "DERIVE") p n h)))
  ]
]

module _ {V : Type 0} where
  -- What holds of a value that no test refuses.
  pub record Acceptable (v : MetricValue V) : Type 0 where
    pub not_kernel : v.metric ≢ "kernel.hostname"
    pub metric : v.metric ≢ ""
    pub endpoint : v.endpoint ≢ ""
    pub type : KnownType v.counter_type
    pub step : pos 0 <ℤ v.step
    pub short : len v.metric + len v.tags ≤ 510

  -- What graph, judge and tsdb are given.
  pub record GoodMeta (d : MetaData V) : Type 0 where
    pub not_kernel : d.metric ≢ "kernel.hostname"
    pub metric : d.metric ≢ ""
    pub endpoint : d.endpoint ≢ ""
    pub type : KnownType d.counter_type
    pub step : pos 0 <ℤ d.step
    pub time : pos 0 <ℤ d.timestamp

  refused-Acceptable : (v : MetricValue V) → refused v ≡ false → Acceptable v
  unfolding refused
  refused-Acceptable v h =
      let (kernel, rest) = peel (str_eq v.metric "kernel.hostname") _ h in
      let (names, rest) = peel (str_eq v.metric "" || str_eq v.endpoint "") _ rest in
      let (types, rest) =
        peel
          (not (str_eq v.counter_type "COUNTER")
            && not (str_eq v.counter_type "GAUGE")
            && not (str_eq v.counter_type "DERIVE"))
          _ rest in
      let (empty, rest) = peel (is_empty v.value) _ rest in
      let (steps, long) = peel (leb_ℤ v.step (pos 0)) _ rest in
      let named = or_both (str_eq v.metric "") (str_eq v.endpoint "") names in
      record {
        not_kernel = not_same v.metric "kernel.hostname" kernel;
        metric = not_same v.metric "" named.0;
        endpoint = not_same v.endpoint "" named.1;
        type = known v.counter_type types;
        step = leb_ℤ→lt v.step (pos 0) steps;
        short = ltb→ge 510 (len v.metric + len v.tags) long;
      }

  abbrev pub AllGood : List (MetaData V) → Type 0
  AllGood [] = Unit {0}
  AllGood (d ∷ ds) = GoodMeta d × AllGood ds

  AllGood-append :
      (ds : List (MetaData V)) (d : MetaData V) → AllGood ds → GoodMeta d → AllGood (ds ++ d ∷ [])
  AllGood-append [] d a g = (g, tt)
  AllGood-append (x ∷ ds) d a g = (a.0, AllGood-append ds d a.1 g)

  length-append :
      (ds : List (MetaData V)) (d : MetaData V) → length (ds ++ d ∷ []) ≡ suc (length ds)
  length-append [] d = refl
  length-append (x ∷ ds) d = ap suc (length-append ds d)

  module _ ⦃fl : Float64 V⦄ (parse_float : String → Option V) (dicted : String → Tags)
      (now : ℤ) where
    time_of-pos : (ts : ℤ) → pos 0 <ℤ now → pos 0 <ℤ time_of now ts
    time_of-pos ts h = elim (Bool-cases (leb_ℤ ts (pos 0) || ltb_ℤ (wrap64 (now *ℤ pos 2)) ts)) [
      | inl wrong ↦ rw (wrong, time_of) h
      | inr right ↦
          rw (right, time_of)
            (leb_ℤ→lt ts (pos 0)
              (or_both (leb_ℤ ts (pos 0)) (ltb_ℤ (wrap64 (now *ℤ pos 2)) ts) right).0)
    ]

    -- What a round takes.
    abbrev Checked : Option (MetaData V) → Type 0
    Checked none = Unit {0}
    Checked (some d) = GoodMeta d

    recv_one-Checked :
        (v : Option (MetricValue V)) → pos 0 <ℤ now → Checked (recv_one parse_float dicted now v)
    unfolding recv_one
    recv_one-Checked none h = tt
    recv_one-Checked (some v) h = elim (Bool-cases (refused v)) [
      | inl bad ↦ rw (bad, recv_one) tt
      | inr good ↦ elim (Option-cases (float_of parse_float dicted v.value)) [
        | inl none_there ↦ rw (good, none_there, recv_one) tt
        | inr (x, e) ↦
            rw (good, e, recv_one)
              (let a = refused-Acceptable v good in
                record {
                  not_kernel = a.not_kernel;
                  metric = a.metric;
                  endpoint = a.endpoint;
                  type = a.type;
                  step = a.step;
                  time = time_of-pos v.timestamp h;
                })
      ]
    ]

    recv_loop-rest :
        (args : List (Option (MetricValue V))) (items : List (MetaData V)) (invalid : ℕ)
        → pos 0 <ℤ now
        → AllGood items
        → AllGood (recv_loop parse_float dicted now args items invalid).0
          × (length (recv_loop parse_float dicted now args items invalid).0
                + (recv_loop parse_float dicted now args items invalid).1
              ≡ length items + invalid + length args)
    unfolding recv_loop
    recv_loop-rest [] items invalid h a = (a, omega arith)
    recv_loop-rest (v ∷ args) items invalid h a =
        let taken = recv_one-Checked v h in
        elim (Option-cases (recv_one parse_float dicted now v)) [
          | inl e ↦
              rw (e, recv_loop)
                (let (g, n) = recv_loop-rest args items (suc invalid) h a in (g, n ∙ omega arith))
          | inr (d, e) ↦
              rw (e, recv_loop)
                (let (g, n) =
                    recv_loop-rest args (items ++ d ∷ []) invalid h
                      (AllGood-append items d a (subst Checked e taken)) in
                  (g, n ∙ omega (arith, length-append items d)))
        ]

    -- At a time after 0, RecvMetricValues takes or counts as invalid each value that it is given,
    -- and each item that it takes has a metric that is not kernel.hostname, an endpoint, a known
    -- type of counter, a positive step and a positive time.
    pub recv_loop_lem :
        (args : List (Option (MetricValue V)))
        → pos 0 <ℤ now
        → AllGood (recv_loop parse_float dicted now args [] 0).0
          × (length (recv_loop parse_float dicted now args [] 0).0
                + (recv_loop parse_float dicted now args [] 0).1
              ≡ length args)
    recv_loop_lem args h = let (g, n) = recv_loop-rest args [] 0 h tt in (g, n ∙ omega arith)
