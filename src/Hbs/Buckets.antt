-- ===== src/Hbs/Buckets.antt =====
-- hbs/rpc/hbs.go, CalcInheritStrategies: the strategies of a host. Each template of the host gives
-- a bucket, its line from the oldest to itself; a bucket that another one contains is dropped; in a
-- bucket a younger template overrides an older one.
pub mod Unique
pub mod Templates
pub mod Ids
pub mod Overriding
use ref_falcon.Prelude.{
  ℕ, suc, Bool, true, false, ◌||◌, List, [], ◌∷◌, ◌++◌, Option, none, some, if◌then◌else◌, ◌==◌,
  Run, ok, must, ◌>>=◌,
}
use ref_falcon.Prelude.Int.{ℤ, eqb_ℤ}
use ref_falcon.Prelude.Text.{String, insert}
use ref_falcon.Judge.Types.{Tags}
use ref_falcon.Judge.Rules.{◌+++◌, is_handled}
use ref_falcon.Judge.Sync.{append_at}
use ref_falcon.Hbs.Parents.{Template, find, parent_ids}

-- `model.Strategy`, of common/model, with the template that it belongs to.
pub record HostRule : Type 0 where
  pub id : ℤ
  pub metric : String
  pub tags : Tags
  pub tpl : Option Template

unfoldable pub slice_int_contains : List ℤ → ℤ → Bool
slice_int_contains [] target = false
slice_int_contains (b ∷ list) target =
    let rest = slice_int_contains list target in if eqb_ℤ b target then true else rest

-- Whether every id of a is in b.
unfoldable pub slice_int_lt : List ℤ → List ℤ → Bool
unfolding slice_int_contains
slice_int_lt [] b = true
slice_int_lt (i ∷ a) b =
    let rest = slice_int_lt a b in if slice_int_contains b i then rest else false

-- The test of the lengths is the two last clauses.
unfoldable pub slice_int_eq : List ℤ → List ℤ → Bool
slice_int_eq [] [] = true
slice_int_eq (x ∷ a) (y ∷ b) = let rest = slice_int_eq a b in if eqb_ℤ x y then rest else false
slice_int_eq [] (y ∷ b) = false
slice_int_eq (x ∷ a) [] = false

-- The buckets of the templates of a host.
unfoldable pub tpl_buckets : List (ℤ × Template) → List ℤ → List (List ℤ)
tpl_buckets all_tpls [] = []
tpl_buckets all_tpls (tid ∷ tids) =
    let rest = tpl_buckets all_tpls tids in
    elim (parent_ids all_tpls tid) [ [] ↦ rest | x ∷ xs ↦ (x ∷ xs) ∷ rest ]

-- The loop over j that decides `valid` for the bucket at i.
unfoldable pub is_valid : ℕ → List ℤ → ℕ → List (List ℤ) → Bool
unfolding slice_int_eq slice_int_lt
is_valid i bucket j [] = true
is_valid i bucket j (other ∷ others) =
    let rest = is_valid i bucket (suc j) others in
    if i == j
    then rest
    else if slice_int_eq bucket other
    then true
    else if slice_int_lt bucket other
    then false
    else rest

-- The loop over i.
unfoldable pub uniq_loop : List (List ℤ) → ℕ → List (List ℤ) → List (List ℤ)
unfolding is_valid
uniq_loop all i [] = []
uniq_loop all i (bucket ∷ buckets) =
    let rest = uniq_loop all (suc i) buckets in
    if is_valid i bucket 0 all then bucket ∷ rest else rest

unfoldable pub uniq_tpl_buckets : List (List ℤ) → List (List ℤ)
unfolding uniq_loop
uniq_tpl_buckets buckets = uniq_loop buckets 0 buckets

-- `bucket[len(bucket)-1]`.
abbrev pub last_tid : List ℤ → Option ℤ
last_tid [] = none
last_tid (x ∷ []) = some x
last_tid (x ∷ y ∷ xs) = last_tid (y ∷ xs)

-- `exists_by_id` and `strategies`.
pub record Taken : Type 0 where
  pub exists_by_id : List ℤ
  pub strategies : List HostRule

abbrev pub is_nil : {A : Type 0} → List A → Bool
is_nil [] = true
is_nil (x ∷ xs) = false

-- The append of Tpl2Strategies under a template's id, new or known.
unfoldable pub append_id : ℤ → HostRule → List (ℤ × List HostRule) → List (ℤ × List HostRule)
append_id key s [] = (key, s ∷ []) ∷ []
append_id key s ((k, ss) ∷ m) =
    let rest = append_id key s m in if eqb_ℤ k key then (k, ss ++ s ∷ []) ∷ m else (k, ss) ∷ rest

-- The part of the loop body below the tests for nil.
abbrev pub add_rule : Option HostRule → List (ℤ × List HostRule) → List (ℤ × List HostRule)
add_rule none m = m
add_rule (some s) m = elim s.tpl [ none ↦ m | some tpl ↦ append_id tpl.id s m ]

-- `Tpl2Strategies`; a pointer may be nil.
unfoldable pub tpl2_strategies :
    List (ℤ × Option HostRule) → List (ℤ × List HostRule) → List (ℤ × List HostRule)
unfolding append_id
tpl2_strategies [] ret = ret
tpl2_strategies ((id, s) ∷ strategies) ret = tpl2_strategies strategies (add_rule s ret)

-- `valStrategy` with the youngest template of the bucket, unless it has it already.
abbrev pub with_last : List (ℤ × Template) → ℤ → HostRule → Run HostRule
with_last all_tpls last s = do
  tpl ← must s.tpl
  if eqb_ℤ tpl.id last then ok s else ok (record s { tpl = find last all_tpls })

-- The loop over the strategies under one uuid.
unfoldable pub take_strategies : List (ℤ × Template) → ℤ → List HostRule → Taken → Run Taken
take_strategies all_tpls last [] st = ok st
take_strategies all_tpls last (s ∷ ss) st = elim (is_handled s.id st.exists_by_id) [
  | true ↦ take_strategies all_tpls last ss st
  | false ↦ do
    val ← with_last all_tpls last s
    take_strategies all_tpls last ss
        (record { exists_by_id = val.id ∷ st.exists_by_id; strategies = st.strategies ++ val ∷ [] })
]

-- The loop over the map of a bucket.
unfoldable pub take_entries :
    List (ℤ × Template) → ℤ → List (String × List HostRule) → Taken → Run Taken
unfolding take_strategies
take_entries all_tpls last [] st = ok st
take_entries all_tpls last ((key, ss) ∷ entries) st = do
  st' ← take_strategies all_tpls last ss st
  take_entries all_tpls last entries st'

-- `sorted_tags` is SortedTags of common/utils.
module _ (sorted_tags : Tags → String) where
  abbrev pub uuid : HostRule → String
  uuid s = "metric:" +++ s.metric +++ "/tags:" +++ sorted_tags s.tags

  -- The strategies of one template by their uuid.
  unfoldable pub the_tid_stras :
      List HostRule → List (String × List HostRule) → List (String × List HostRule)
  the_tid_stras [] m = m
  the_tid_stras (s ∷ stras) m = the_tid_stras stras (append_at (uuid s) s m)

  -- The loop that overrides what older templates left.
  unfoldable pub override :
      List (String × List HostRule) → List (String × List HostRule) → List (String × List HostRule)
  override [] m = m
  override ((key, ss) ∷ stras) m = override stras (insert key ss m)

  unfoldable pub bucket_stras_map :
      List (ℤ × List HostRule)
      → List ℤ
      → List (String × List HostRule)
      → List (String × List HostRule)
  unfolding the_tid_stras override
  bucket_stras_map tpl2 [] m = m
  bucket_stras_map tpl2 (tid ∷ bucket) m = elim (find tid tpl2) [
    | none ↦ bucket_stras_map tpl2 bucket m
    | some stras ↦ bucket_stras_map tpl2 bucket (override (the_tid_stras stras []) m)
  ]

  -- The loop over the buckets.
  unfoldable pub take_buckets :
      List (ℤ × Template) → List (ℤ × List HostRule) → List (List ℤ) → Taken → Run Taken
  unfolding take_entries bucket_stras_map
  take_buckets all_tpls tpl2 [] st = ok st
  take_buckets all_tpls tpl2 (bucket ∷ buckets) st = do
    let stras = bucket_stras_map tpl2 bucket []
    last ← must (last_tid bucket)
    st' ← take_entries all_tpls last stras st
    take_buckets all_tpls tpl2 buckets st'

  unfoldable pub calc_inherit_strategies :
      List (ℤ × Template) → List ℤ → List (ℤ × List HostRule) → Run (List HostRule)
  unfolding take_buckets
  calc_inherit_strategies all_tpls tids tpl2 = do
    st ←
        take_buckets all_tpls tpl2 (uniq_tpl_buckets (tpl_buckets all_tpls tids))
          (record { exists_by_id = []; strategies = [] })
    ok st.strategies

  -- The loop over the hosts in `GetStrategies`; a host in maintenance is not among `hosts`.
  unfoldable pub hosts_loop :
      List (ℤ × Template)
      → List (ℤ × String)
      → List (ℤ × List HostRule)
      → List (ℤ × List ℤ)
      → Run (List (String × List HostRule))
  unfolding calc_inherit_strategies
  hosts_loop tpls hosts tpl2 [] = ok []
  hosts_loop tpls hosts tpl2 ((host_id, tpl_ids) ∷ rest) = elim (find host_id hosts) [
    | none ↦ hosts_loop tpls hosts tpl2 rest
    | some name ↦ do
      ss ← calc_inherit_strategies tpls tpl_ids tpl2
      others ← hosts_loop tpls hosts tpl2 rest
      if is_nil ss then ok others else ok ((name, ss) ∷ others)
  ]

  unfoldable pub get_strategies :
      List (ℤ × List ℤ)
      → List (ℤ × String)
      → List (ℤ × Template)
      → List (ℤ × Option HostRule)
      → Run (List (String × List HostRule))
  unfolding hosts_loop tpl2_strategies
  get_strategies hid_tids hosts tpls strategies =
      if is_nil hid_tids || is_nil hosts || is_nil tpls || is_nil strategies
      then ok []
      else hosts_loop tpls hosts (tpl2_strategies strategies []) hid_tids
