-- ===== src/Judge/Sync/Maps.antt =====
-- What the rebuilt maps hold under each key.
use ref_falcon.Prelude.{
  ◌≡◌, inl, inr, refl, sym, ap, subst, ◌∙◌, ◌||◌, Bool, true, false, List, [], ◌∷◌, ◌++◌, Option,
  none, some, if◌then◌else◌, Bool-cases, Option-cases,
}
use ref_falcon.Prelude.Text.{String, str_eq, eq_iff, lookup, insert, lookup-insert}
use ref_falcon.Judge.Types.{Tags, Strategy, Expression}
use ref_falcon.Judge.Rules.{◌+++◌}
use ref_falcon.Judge.Store.{exists}
use ref_falcon.Judge.Sync.{
  append_at, HostStrategy, add_strategies, add_hosts, rebuild_strategy_map, add_expression,
  add_expressions, rebuild_expression_map, add_metrics, add_rules, sync_filter,
}

module _ {A : Type 0} where
  -- The list under a key, empty if there is none.
  abbrev pub all_of : Option (List A) → List A
  all_of none = []
  all_of (some xs) = xs

  -- Of pairs of key and rule, the rules with that key, in order.
  abbrev pub under : String → List (String × A) → List A
  under key [] = []
  under key ((k, x) ∷ rest) =
      let others = under key rest in if str_eq k key then x ∷ others else others

  unfoldable pub add_pairs : List (String × A) → List (String × List A) → List (String × List A)
  add_pairs [] m = m
  add_pairs ((k, x) ∷ rest) m = add_pairs rest (append_at k x m)

  add_pairs-++ :
      (xs ys : List (String × A)) (m : List (String × List A))
      → add_pairs (xs ++ ys) m ≡ add_pairs ys (add_pairs xs m)
  unfolding add_pairs
  add_pairs-++ [] ys m = refl
  add_pairs-++ ((k, x) ∷ xs) ys m = add_pairs-++ xs ys (append_at k x m)

  append_at_lem :
      (k key : String) (x : A) (m : List (String × List A))
      → all_of (lookup key (append_at k x m))
        ≡ (if str_eq k key then all_of (lookup key m) ++ x ∷ [] else all_of (lookup key m))
  unfolding append_at
  append_at_lem k key x m = elim (Option-cases (lookup k m)) [
    | inl absent ↦
        rw (absent, append_at, lookup-insert k key (x ∷ []) m)
          (elim (Bool-cases (str_eq k key)) [
            | inl same ↦
                let at : lookup key m ≡ none =
                  subst (λ (j : String). lookup j m ≡ none) ((eq_iff k key).0 same) absent in
                rw (same, at)
            | inr other ↦ rw other
          ])
    | inr (xs, found) ↦
        rw (found, append_at, lookup-insert k key (xs ++ x ∷ []) m)
          (elim (Bool-cases (str_eq k key)) [
            | inl same ↦
                let at : lookup key m ≡ some xs =
                  subst (λ (j : String). lookup j m ≡ some xs) ((eq_iff k key).0 same) found in
                rw (same, at)
            | inr other ↦ rw other
          ])
  ]

  ++_assoc : (xs ys zs : List A) → (xs ++ ys) ++ zs ≡ xs ++ (ys ++ zs)
  ++_assoc [] ys zs = refl
  ++_assoc (x ∷ xs) ys zs = ap (◌∷◌ x) (++_assoc xs ys zs)

  ++_nil : (xs : List A) → xs ++ [] ≡ xs
  ++_nil [] = refl
  ++_nil (x ∷ xs) = ap (◌∷◌ x) (++_nil xs)

  add_pairs_lem :
      (key : String) (xs : List (String × A)) (m : List (String × List A))
      → all_of (lookup key (add_pairs xs m)) ≡ all_of (lookup key m) ++ under key xs
  unfolding add_pairs
  add_pairs_lem key [] m = sym (++_nil (all_of (lookup key m)))
  add_pairs_lem key ((k, x) ∷ xs) m =
      add_pairs_lem key xs (append_at k x m)
      ∙ rw (append_at_lem k key x m) (elim (Bool-cases (str_eq k key)) [
        | inl same ↦ rw same (++_assoc (all_of (lookup key m)) (x ∷ []) (under key xs))
        | inr other ↦ rw other
      ])

  pub rebuilt_lem :
      (key : String) (xs : List (String × A)) → all_of (lookup key (add_pairs xs [])) ≡ under key xs
  unfolding lookup
  rebuilt_lem key xs = add_pairs_lem key xs []

module _ {V : Type 0} where
  -- Each strategy with its key, a host at a time.
  abbrev pub strategy_pairs : String → List (Strategy V) → List (String × Strategy V)
  strategy_pairs hostname [] = []
  strategy_pairs hostname (s ∷ ss) = (hostname +++ "/" +++ s.metric, s) ∷ strategy_pairs hostname ss

  abbrev pub host_pairs : List (HostStrategy V) → List (String × Strategy V)
  host_pairs [] = []
  host_pairs ((hostname, ss) ∷ hosts) = strategy_pairs hostname ss ++ host_pairs hosts

  add_strategies-pairs :
      (hostname : String) (ss : List (Strategy V)) (m : List (String × List (Strategy V)))
      → add_strategies hostname ss m ≡ add_pairs (strategy_pairs hostname ss) m
  unfolding add_strategies add_pairs
  add_strategies-pairs hostname [] m = refl
  add_strategies-pairs hostname (s ∷ ss) m = add_strategies-pairs hostname ss _

  add_hosts-pairs :
      (hosts : List (HostStrategy V)) (m : List (String × List (Strategy V)))
      → add_hosts hosts m ≡ add_pairs (host_pairs hosts) m
  unfolding add_hosts
  add_hosts-pairs [] m = unfold add_pairs in refl
  add_hosts-pairs ((hostname, ss) ∷ hosts) m = rw (add_strategies-pairs hostname ss m) (
      add_hosts-pairs hosts (add_pairs (strategy_pairs hostname ss) m)
      ∙ sym (add_pairs-++ (strategy_pairs hostname ss) (host_pairs hosts) m))

  -- Each expression with the keys of its tags.
  abbrev pub tag_pairs : Expression V → Tags → List (String × Expression V)
  tag_pairs exp [] = []
  tag_pairs exp ((k, v) ∷ tags) = (exp.metric +++ "/" +++ k +++ "=" +++ v, exp) ∷ tag_pairs exp tags

  abbrev pub expression_pairs : List (Expression V) → List (String × Expression V)
  expression_pairs [] = []
  expression_pairs (e ∷ es) = tag_pairs e e.tags ++ expression_pairs es

  add_expression-pairs :
      (exp : Expression V) (tags : Tags) (m : List (String × List (Expression V)))
      → add_expression exp tags m ≡ add_pairs (tag_pairs exp tags) m
  unfolding add_expression add_pairs
  add_expression-pairs exp [] m = refl
  add_expression-pairs exp ((k, v) ∷ tags) m = add_expression-pairs exp tags _

  add_expressions-pairs :
      (es : List (Expression V)) (m : List (String × List (Expression V)))
      → add_expressions es m ≡ add_pairs (expression_pairs es) m
  unfolding add_expressions
  add_expressions-pairs [] m = unfold add_pairs in refl
  add_expressions-pairs (e ∷ es) m = rw (add_expression-pairs e e.tags m) (
      add_expressions-pairs es (add_pairs (tag_pairs e e.tags) m)
      ∙ sym (add_pairs-++ (tag_pairs e e.tags) (expression_pairs es) m))

  -- Under a key the rebuilt map of strategies holds exactly those of the hosts and metrics with
  -- that key, and the rebuilt map of expressions those with a tag of that key, both in the order
  -- in which they came.
  pub rebuild_lem :
      (key : String) (hosts : List (HostStrategy V)) (es : List (Expression V))
      → (all_of (lookup key (rebuild_strategy_map hosts)) ≡ under key (host_pairs hosts))
        × (all_of (lookup key (rebuild_expression_map es)) ≡ under key (expression_pairs es))
  unfolding rebuild_strategy_map rebuild_expression_map
  rebuild_lem key hosts es = (
    rw (add_hosts-pairs hosts []) (rebuilt_lem key (host_pairs hosts)),
    rw (add_expressions-pairs es []) (rebuilt_lem key (expression_pairs es)),
  )

-- Whether a rule of a list, and of a map of lists, has the metric.
abbrev pub has_metric : {A : Type 0} → (A → String) → String → List A → Bool
has_metric metric key [] = false
has_metric metric key (r ∷ rs) = str_eq (metric r) key || has_metric metric key rs

abbrev pub names_metric : {A : Type 0} → (A → String) → String → List (String × List A) → Bool
names_metric metric key [] = false
names_metric metric key ((k, rs) ∷ rules) =
    has_metric metric key rs || names_metric metric key rules

exists-insert :
    (key k v : String) (m : List (String × String))
    → exists key (insert k v m) ≡ (str_eq k key || exists key m)
exists-insert key k v m =
    ap (λ o. elim o [ none ↦ false | some _ ↦ true ]) (lookup-insert k key v m)
    ∙ (elim (Bool-cases (str_eq k key)) [ inl same ↦ rw same | inr other ↦ rw other ])

or_move : (a b c : Bool) → (a || (b || c)) ≡ ((b || a) || c)
or_move true true c = refl
or_move true false c = refl
or_move false true c = refl
or_move false false c = refl

module _ {A : Type 0} (metric : A → String) (key : String) where
  exists-add_metrics :
      (rs : List A) (m : List (String × String))
      → exists key (add_metrics metric rs m) ≡ (has_metric metric key rs || exists key m)
  unfolding add_metrics
  exists-add_metrics [] m = refl
  exists-add_metrics (r ∷ rs) m =
      exists-add_metrics rs (insert (metric r) (metric r) m)
      ∙ rw (exists-insert key (metric r) (metric r) m)
          (or_move (has_metric metric key rs) (str_eq (metric r) key) (exists key m))

  exists-add_rules :
      (rules : List (String × List A)) (m : List (String × String))
      → exists key (add_rules metric rules m) ≡ (names_metric metric key rules || exists key m)
  unfolding add_rules
  exists-add_rules [] m = refl
  exists-add_rules ((k, rs) ∷ rules) m =
      exists-add_rules rules (add_metrics metric rs m)
      ∙ rw (exists-add_metrics rs m)
          (or_move (names_metric metric key rules) (has_metric metric key rs) (exists key m))

-- The filter of metrics lets through exactly the metrics of some strategy or expression.
pub sync_filter_lem :
    {V : Type 0} (key : String) (sm : List (String × List (Strategy V)))
    (em : List (String × List (Expression V)))
    → exists key (sync_filter sm em) ≡ (
        names_metric (λ (e : Expression V). e.metric) key em
        || names_metric (λ (s : Strategy V). s.metric) key sm)
unfolding sync_filter
sync_filter_lem {V = V} key sm em =
    exists-add_rules (λ e. e.metric) key em (add_rules (λ s. s.metric) sm [])
    ∙ rw (exists-add_rules (λ (s : Strategy V). s.metric) key sm []) (or_false _ _ (nothing key))
  where
    nothing : (k : String) → exists k [] ≡ false
    nothing k = unfold lookup in refl

    or_false : (a b : Bool) {c : Bool} → c ≡ false → (a || (b || c)) ≡ (a || b)
    or_false true b e = refl
    or_false false true e = refl
    or_false false false e = e
