-- ===== src/Nodata/Judging/Status.antt =====
-- The status of a counter over the runs of `judge`.
use ref_falcon.Prelude.{
  ◌≡◌, refl, ◌∙◌, inl, inr, true, false, not, ◌||◌, List, [], ◌∷◌, Option, none, some, Bool-cases,
  Option-cases,
}
use ref_falcon.Prelude.Int.{ℤ, pos, ◌≤ℤ◌, ltb_ℤ, leb_ℤ, leb_ℤ→le, eqb_ℤ, add64, sub64}
use ref_falcon.Prelude.Text.{String, str_eq, lookup, lookup-insert, eq_refl}
use ref_falcon.Judge.Types.{Tags}
use ref_falcon.Float64.{Float64}
use ref_falcon.Nodata.Judging.{
  gen_mock, NdConfig, DataItem, NodataStatus, Mock, State, gen_ts, get_timeout, last_ts, turn_ok,
  turn_nodata, f_compare, overdue, judge_item, judge_key, judge_keys,
}

-- What one run does to the status and the mock of a counter: nothing, or back to OK without a new
-- mock, or one more overdue run with the given mock, which comes a step or more after the last turn.
pub data Change {V : Type 0} (now step : ℤ) (mock : Mock V)
    : Option NodataStatus → Option (Mock V) → Option NodataStatus → Option (Mock V) → Type 0 where
  same : (s : Option NodataStatus) (m : Option (Mock V)) → Change now step mock s m s m
  to_ok :
      (s : Option NodataStatus) (m : Option (Mock V)) (key : String)
      → Change now step mock s m
          (some (record { key = key; status = "OK"; cnt = pos 0; ts = now }))
          m
  overdue_first :
      (m : Option (Mock V)) (key : String)
      → add64 (pos 0) step ≤ℤ now
      → Change now step mock none m
          (some (record { key = key; status = "NODATA"; cnt = pos 1; ts = now }))
          (some mock)
  overdue_again :
      (old : NodataStatus) (m : Option (Mock V))
      → add64 old.ts step ≤ℤ now
      → Change now step mock
          (some old)
          m
          (some (record old { status = "NODATA"; cnt = add64 old.cnt (pos 1); ts = now }))
          (some mock)

same_key : (k : String) → str_eq k k ≡ true
same_key k = eq_refl k

-- The key is not among the keys.
abbrev pub Absent : String → List String → Type 0
Absent k [] = Unit {0}
Absent k (key ∷ keys) = (str_eq key k ≡ false) × Absent k keys

turns-Frame :
    (key k : String) (now : ℤ) (m : List (String × NodataStatus))
    → str_eq key k ≡ false
    → (lookup k (turn_ok key now m) ≡ lookup k m) × (lookup k (turn_nodata key now m) ≡ lookup k m)
unfolding turn_ok turn_nodata
turns-Frame key k now m other = elim (Option-cases (lookup key m)) [
  | inl absent ↦
      rw (absent, turn_ok, turn_nodata)
        (lookup-insert key k _ m ∙ rw other, lookup-insert key k _ m ∙ rw other)
  | inr (old, found) ↦
      rw (found, turn_ok, turn_nodata)
        (lookup-insert key k _ m ∙ rw other, lookup-insert key k _ m ∙ rw other)
]

module _ {V : Type 0} ⦃fl : Float64 V⦄ (sorted_tags : Tags → String) where
  -- The change of what stands under a key between two states.
  abbrev pub ChangeAt : ℤ → NdConfig V → String → State V → State V → Type 0
  ChangeAt now nd k st st' =
      Change now nd.step (gen_mock sorted_tags (gen_ts now nd.step) nd) (lookup k st.status_map)
        (lookup k st.mocks) (lookup k st'.status_map) (lookup k st'.mocks)

  ok-Change :
      (nd : NdConfig V) (now : ℤ) (key : String) (st : State V)
      → ChangeAt now nd key st (record st { status_map = turn_ok key now st.status_map })
  unfolding turn_ok
  ok-Change nd now key st = elim (Option-cases (lookup key st.status_map)) [
    | inl absent ↦
        rw (absent, turn_ok, lookup-insert key key _ st.status_map, same_key key)
          (Change.to_ok none (lookup key st.mocks) key)
    | inr (old, found) ↦
        rw (found, turn_ok, lookup-insert key key _ st.status_map, same_key key)
          (Change.to_ok (some old) (lookup key st.mocks) old.key)
  ]

  overdue-Change :
      (nd : NdConfig V) (now : ℤ) (key : String) (st : State V)
      → ChangeAt now nd key st (overdue sorted_tags key nd now st)
  unfolding overdue
  overdue-Change nd now key st = elim (Option-cases (lookup key st.status_map)) [
    | inl absent ↦ elim (Bool-cases (leb_ℤ (add64 (pos 0) nd.step) now)) [
      | inl due ↦
          rw
            (
              absent,
              due,
              overdue,
              last_ts,
              turn_nodata,
              lookup-insert key key _ st.status_map,
              lookup-insert key key _ st.mocks,
              same_key key,
            )
            (Change.overdue_first (lookup key st.mocks) key (leb_ℤ→le _ now due))
      | inr early ↦
          rw (absent, early, overdue, last_ts, absent) (Change.same _ (lookup key st.mocks))
    ]
    | inr (old, found) ↦ elim (Bool-cases (leb_ℤ (add64 old.ts nd.step) now)) [
      | inl due ↦
          rw
            (
              found,
              due,
              overdue,
              last_ts,
              turn_nodata,
              lookup-insert key key _ st.status_map,
              lookup-insert key key _ st.mocks,
              same_key key,
            )
            (Change.overdue_again old (lookup key st.mocks) (leb_ℤ→le _ now due))
      | inr early ↦ rw (found, early, overdue, last_ts, found) (Change.same _ (lookup key st.mocks))
    ]
  ]

  judge_item-Change :
      (nd : NdConfig V) (item : DataItem V) (now : ℤ) (key : String) (st : State V)
      → ChangeAt now nd key st (judge_item sorted_tags key nd item now st)
  unfolding judge_item
  judge_item-Change nd item now key st =
      let last = sub64 now (get_timeout nd.step) in
      elim (Bool-cases (not (str_eq item.f_status "OK") || ltb_ℤ item.f_ts last)) [
        | inl failed ↦ rw (failed, judge_item) (Change.same _ _)
        | inr good ↦ elim (Bool-cases (eqb_ℤ (f_compare nd.mock item.value) (pos 0))) [
          | inl mocked ↦ rw (good, mocked, judge_item) (overdue-Change nd now key st)
          | inr real ↦ elim (Bool-cases (ltb_ℤ item.ts last)) [
            | inl old ↦ rw (good, real, old, judge_item) (overdue-Change nd now key st)
            | inr fresh ↦ rw (good, real, fresh, judge_item) (ok-Change nd now key st)
          ]
        ]
      ]

  -- One round of `judge` on a key with a strategy: the status and the mock of the key change as
  -- `Change` allows: a new mock, for the time that genTs gives, comes only with one more overdue
  -- run, and at the earliest a step after the last turn.
  pub judge_key-Change :
      (configs : List (String × NdConfig V)) (first_item : String → Option (DataItem V)) (now : ℤ)
      (key : String) (nd : NdConfig V) (st : State V)
      → lookup key configs ≡ some nd
      → ChangeAt now nd key st (judge_key sorted_tags configs first_item now key st)
  unfolding judge_key
  judge_key-Change configs first_item now key nd st e = elim (Option-cases (first_item key)) [
    | inl absent ↦ rw (e, absent, judge_key) (Change.same _ _)
    | inr (item, found) ↦ rw (e, found, judge_key) (judge_item-Change nd item now key st)
  ]

  -- Unchanged under a key.
  abbrev pub Same : String → State V → State V → Type 0
  Same k st st' =
      (lookup k st'.status_map ≡ lookup k st.status_map) × (lookup k st'.mocks ≡ lookup k st.mocks)

  overdue-Same :
      (nd : NdConfig V) (now : ℤ) (key k : String) (st : State V)
      → str_eq key k ≡ false
      → Same k st (overdue sorted_tags key nd now st)
  unfolding overdue
  overdue-Same nd now key k st other =
      elim (Bool-cases (leb_ℤ (add64 (last_ts key st.status_map) nd.step) now)) [
        | inl due ↦
            rw (due, overdue)
              (
                (turns-Frame key k now st.status_map other).1,
                lookup-insert key k _ st.mocks ∙ rw other,
              )
        | inr early ↦ rw (early, overdue) (refl, refl)
      ]

  judge_item-Same :
      (nd : NdConfig V) (item : DataItem V) (now : ℤ) (key k : String) (st : State V)
      → str_eq key k ≡ false
      → Same k st (judge_item sorted_tags key nd item now st)
  unfolding judge_item
  judge_item-Same nd item now key k st other =
      let last = sub64 now (get_timeout nd.step) in
      elim (Bool-cases (not (str_eq item.f_status "OK") || ltb_ℤ item.f_ts last)) [
        | inl failed ↦ rw (failed, judge_item) (refl, refl)
        | inr good ↦ elim (Bool-cases (eqb_ℤ (f_compare nd.mock item.value) (pos 0))) [
          | inl mocked ↦ rw (good, mocked, judge_item) (overdue-Same nd now key k st other)
          | inr real ↦ elim (Bool-cases (ltb_ℤ item.ts last)) [
            | inl old ↦ rw (good, real, old, judge_item) (overdue-Same nd now key k st other)
            | inr fresh ↦
                rw (good, real, fresh, judge_item)
                  ((turns-Frame key k now st.status_map other).0, refl)
          ]
        ]
      ]

  judge_key-Same :
      (configs : List (String × NdConfig V)) (first_item : String → Option (DataItem V)) (now : ℤ)
      (key k : String) (st : State V)
      → str_eq key k ≡ false
      → Same k st (judge_key sorted_tags configs first_item now key st)
  unfolding judge_key
  judge_key-Same configs first_item now key k st other = elim (Option-cases (lookup key configs)) [
    | inl unknown ↦ rw (unknown, judge_key) (refl, refl)
    | inr (nd, e) ↦ elim (Option-cases (first_item key)) [
      | inl absent ↦ rw (e, absent, judge_key) (refl, refl)
      | inr (item, found) ↦ rw (e, found, judge_key) (judge_item-Same nd item now key k st other)
    ]
  ]

  -- The rounds of one run on keys that are all different from a key leave its status and its
  -- mock alone.
  judge_keys-Same :
      (configs : List (String × NdConfig V)) (first_item : String → Option (DataItem V)) (now : ℤ)
      (k : String) (keys : List String) (st : State V)
      → Absent k keys
      → Same k st (judge_keys sorted_tags configs first_item now keys st)
  unfolding judge_keys
  judge_keys-Same configs first_item now k [] st other = (refl, refl)
  judge_keys-Same configs first_item now k (key ∷ keys) st other =
      let rest =
        judge_keys-Same configs first_item now k keys
          (judge_key sorted_tags configs first_item now key st) other.1 in
      let here = judge_key-Same configs first_item now key k st other.0 in
      (rest.0 ∙ here.0, rest.1 ∙ here.1)
