-- ===== src/Hbs/Buckets/Templates.antt =====
-- Every strategy in the maps has a template, and every bucket is not empty.
use ref_falcon.Prelude.{
  ℕ, suc, ◌≡◌, refl, sym, subst, ◌∙◌, inl, inr, List, [], ◌∷◌, ◌++◌, Option, none, some, Bool-cases,
  Option-cases,
}
use ref_falcon.Prelude.Int.{ℤ, eqb_ℤ}
use ref_falcon.Prelude.Text.{String, str_eq, lookup, insert}
use ref_falcon.Judge.Types.{Tags}
use ref_falcon.Judge.Rules.Safe.{Each, Each-++, Each-lookup}
use ref_falcon.Judge.Sync.{append_at}
use ref_falcon.Hbs.Parents.{Template, find, parent_ids}
use ref_falcon.Hbs.Buckets.{
  HostRule, append_id, add_rule, tpl2_strategies, the_tid_stras, override, bucket_stras_map, uuid,
  last_tid, tpl_buckets, uniq_tpl_buckets, uniq_loop, is_valid,
}

-- The rule has a template.
abbrev pub HasTpl : HostRule → Type 0
HasTpl s = (t : Template) × (s.tpl ≡ some t)

-- Every rule of a map has a template.
abbrev pub AllTpl : {K : Type 0} → List (K × List HostRule) → Type 0
AllTpl m = Each (λ entry. Each HasTpl entry.1) m

insert-AllTpl :
    (key : String) (ss : List HostRule) (m : List (String × List HostRule))
    → Each HasTpl ss
    → AllTpl m
    → AllTpl (insert key ss m)
unfolding insert
insert-AllTpl key ss [] h a = (h, tt)
insert-AllTpl key ss ((k, rs) ∷ m) h a = elim (Bool-cases (str_eq k key)) [
  | inl same ↦ rw (same, insert) (h, a.1)
  | inr other ↦ rw (other, insert) (a.0, insert-AllTpl key ss m h a.1)
]

append_at-AllTpl :
    (key : String) (s : HostRule) (m : List (String × List HostRule))
    → HasTpl s
    → AllTpl m
    → AllTpl (append_at key s m)
unfolding append_at
append_at-AllTpl key s m h a = elim (Option-cases (lookup key m)) [
  | inl absent ↦ rw (absent, append_at) (insert-AllTpl key (s ∷ []) m (h, tt) a)
  | inr (ss, found) ↦
      rw (found, append_at)
        (insert-AllTpl key (ss ++ s ∷ []) m
          (Each-++ HasTpl ss (s ∷ []) (Each-lookup HasTpl key ss m a found) (h, tt)) a)
]

append_id-AllTpl :
    (key : ℤ) (s : HostRule) (m : List (ℤ × List HostRule))
    → HasTpl s
    → AllTpl m
    → AllTpl (append_id key s m)
unfolding append_id
append_id-AllTpl key s [] h a = ((h, tt), tt)
append_id-AllTpl key s ((k, ss) ∷ m) h a = elim (Bool-cases (eqb_ℤ k key)) [
  | inl same ↦ rw (same, append_id) (Each-++ HasTpl ss (s ∷ []) a.0 (h, tt), a.1)
  | inr other ↦ rw (other, append_id) (a.0, append_id-AllTpl key s m h a.1)
]

add_rule-AllTpl :
    (s : Option HostRule) (m : List (ℤ × List HostRule)) → AllTpl m → AllTpl (add_rule s m)
add_rule-AllTpl none m a = a
add_rule-AllTpl (some s) m a = elim (Option-cases s.tpl) [
  | inl absent ↦ rw absent a
  | inr (t, found) ↦ rw found (append_id-AllTpl t.id s m (t, found) a)
]

pub tpl2_strategies-AllTpl :
    (strategies : List (ℤ × Option HostRule)) (m : List (ℤ × List HostRule))
    → AllTpl m
    → AllTpl (tpl2_strategies strategies m)
unfolding tpl2_strategies
tpl2_strategies-AllTpl [] m a = a
tpl2_strategies-AllTpl ((id, s) ∷ rest) m a =
    tpl2_strategies-AllTpl rest (add_rule s m) (add_rule-AllTpl s m a)

pub find-Each :
    (tid : ℤ) (ss : List HostRule) (m : List (ℤ × List HostRule))
    → AllTpl m
    → find tid m ≡ some ss
    → Each HasTpl ss
unfolding find
find-Each tid ss [] a e = absurd (none_some e)
  where
    none_some : none ≡ some ss → ⊥
    none_some e = cc
find-Each tid ss ((k, rs) ∷ m) a e = elim (Bool-cases (eqb_ℤ k tid)) [
  | inl same ↦
      let found : some rs ≡ some ss = sym (rw (same, find) refl) ∙ e in
      let equal : rs ≡ ss = cc in subst (Each HasTpl) equal a.0
  | inr other ↦ find-Each tid ss m a.1 (sym (rw (other, find) refl) ∙ e)
]

-- Every bucket has a template.
abbrev pub Filled : List (List ℤ) → Type 0
Filled [] = Unit {0}
Filled (b ∷ bs) = ((last : ℤ) × (last_tid b ≡ some last)) × Filled bs

last_tid-cons : (x : ℤ) (xs : List ℤ) → (last : ℤ) × (last_tid (x ∷ xs) ≡ some last)
last_tid-cons x [] = (x, refl)
last_tid-cons x (y ∷ xs) = last_tid-cons y xs

uniq_loop-Filled :
    (all : List (List ℤ)) (i : ℕ) (bs : List (List ℤ)) → Filled bs → Filled (uniq_loop all i bs)
unfolding uniq_loop
uniq_loop-Filled all i [] f = tt
uniq_loop-Filled all i (b ∷ bs) f = elim (Bool-cases (is_valid i b 0 all)) [
  | inl valid ↦ rw (valid, uniq_loop) (f.0, uniq_loop-Filled all (suc i) bs f.1)
  | inr covered ↦ rw (covered, uniq_loop) (uniq_loop-Filled all (suc i) bs f.1)
]

pub tpl_buckets-Filled :
    (all_tpls : List (ℤ × Template)) (tids : List ℤ) → Filled (tpl_buckets all_tpls tids)
unfolding tpl_buckets
tpl_buckets-Filled all_tpls [] = tt
tpl_buckets-Filled all_tpls (tid ∷ tids) =
    with_first (tpl_buckets all_tpls tids) (tpl_buckets-Filled all_tpls tids)
      (parent_ids all_tpls tid)
  where
    with_first :
        (rest : List (List ℤ))
        → Filled rest
        → (ids : List ℤ) → Filled (elim ids [ [] ↦ rest | x ∷ xs ↦ (x ∷ xs) ∷ rest ])
    with_first rest f [] = f
    with_first rest f (x ∷ xs) = (last_tid-cons x xs, f)

pub uniq-Filled : (bs : List (List ℤ)) → Filled bs → Filled (uniq_tpl_buckets bs)
unfolding uniq_tpl_buckets
uniq-Filled bs f = uniq_loop-Filled bs 0 bs f

module _ (sorted_tags : Tags → String) where
  the_tid_stras-AllTpl :
      (ss : List HostRule) (m : List (String × List HostRule))
      → Each HasTpl ss
      → AllTpl m
      → AllTpl (the_tid_stras sorted_tags ss m)
  unfolding the_tid_stras
  the_tid_stras-AllTpl [] m h a = a
  the_tid_stras-AllTpl (s ∷ ss) m h a =
      the_tid_stras-AllTpl ss _ h.1 (append_at-AllTpl (uuid sorted_tags s) s m h.0 a)

  override-AllTpl :
      (stras m : List (String × List HostRule))
      → AllTpl stras
      → AllTpl m
      → AllTpl (override sorted_tags stras m)
  unfolding override
  override-AllTpl [] m h a = a
  override-AllTpl ((key, ss) ∷ stras) m h a =
      override-AllTpl stras (insert key ss m) h.1 (insert-AllTpl key ss m h.0 a)

  pub bucket_stras_map-AllTpl :
      (tpl2 : List (ℤ × List HostRule)) (bucket : List ℤ) (m : List (String × List HostRule))
      → AllTpl tpl2
      → AllTpl m
      → AllTpl (bucket_stras_map sorted_tags tpl2 bucket m)
  unfolding bucket_stras_map
  bucket_stras_map-AllTpl tpl2 [] m h a = a
  bucket_stras_map-AllTpl tpl2 (tid ∷ bucket) m h a = elim (Option-cases (find tid tpl2)) [
    | inl absent ↦ rw (absent, bucket_stras_map) (bucket_stras_map-AllTpl tpl2 bucket m h a)
    | inr (stras, found) ↦
        rw (found, bucket_stras_map)
          (bucket_stras_map-AllTpl tpl2 bucket _ h (
            override-AllTpl _ m
              (the_tid_stras-AllTpl stras [] (find-Each tid stras tpl2 h found) tt) a))
  ]
