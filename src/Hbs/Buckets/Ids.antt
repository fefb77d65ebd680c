-- ===== src/Hbs/Buckets/Ids.antt =====
-- The strategies of a host have each id once, and no nil template is read.
use ref_falcon.Prelude.{
  ◌≡◌, sym, subst, inl, inr, false, ◌||◌, List, [], ◌∷◌, ◌++◌, Option, arith, Returns, Returns-bind,
  Bool-cases, Option-cases,
}
use ref_falcon.Prelude.Int.{ℤ, eqb_ℤ}
use ref_falcon.Prelude.Text.{String}
use ref_falcon.Judge.Types.{Tags}
use ref_falcon.Judge.Rules.{is_handled}
use ref_falcon.Judge.Rules.Safe.{Each}
use ref_falcon.Hbs.Parents.{Template, find}
use ref_falcon.Hbs.Buckets.{
  HostRule, Taken, bucket_stras_map, with_last, take_strategies, take_entries, take_buckets,
  calc_inherit_strategies, hosts_loop, get_strategies, is_nil,
}
use ref_falcon.Hbs.Buckets.Templates.{
  HasTpl, AllTpl, tpl2_strategies-AllTpl, Filled, tpl_buckets-Filled, uniq-Filled,
  bucket_stras_map-AllTpl,
}

-- The id is not among the rules, and no id is there twice.
abbrev pub New : ℤ → List HostRule → Type 0
New id [] = Unit {0}
New id (s ∷ ss) = (eqb_ℤ s.id id ≡ false) × New id ss

abbrev pub OnceEach : List HostRule → Type 0
OnceEach [] = Unit {0}
OnceEach (s ∷ ss) = New s.id ss × OnceEach ss

New-append :
    (id : ℤ) (ss : List HostRule) (s : HostRule)
    → New id ss
    → eqb_ℤ s.id id ≡ false
    → New id (ss ++ s ∷ [])
New-append id [] s n e = (e, tt)
New-append id (x ∷ ss) s n e = (n.0, New-append id ss s n.1 e)

eqb_flip : (a b : ℤ) → eqb_ℤ a b ≡ false → eqb_ℤ b a ≡ false
eqb_flip a b e = ground arith

OnceEach-append :
    (ss : List HostRule) (s : HostRule) → OnceEach ss → New s.id ss → OnceEach (ss ++ s ∷ [])
OnceEach-append [] s o n = (tt, tt)
OnceEach-append (x ∷ ss) s o n =
    (New-append x.id ss s o.0 (eqb_flip x.id s.id n.0), OnceEach-append ss s o.1 n.1)

-- The ids that were taken are those of the strategies.
abbrev Tracks : Taken → Type 0
Tracks st =
    OnceEach st.strategies
    × ((id : ℤ) → is_handled id st.exists_by_id ≡ false → New id st.strategies)

head_of : (x id : ℤ) (l : List ℤ) → is_handled id (x ∷ l) ≡ false → eqb_ℤ x id ≡ false
unfolding is_handled
head_of x id l h = ground arith

rest_of : (x id : ℤ) (l : List ℤ) → is_handled id (x ∷ l) ≡ false → is_handled id l ≡ false
unfolding is_handled
rest_of x id l h = ground arith

take_one :
    (st : Taken) (val : HostRule)
    → Tracks st
    → is_handled val.id st.exists_by_id ≡ false
    → Tracks
        (record { exists_by_id = val.id ∷ st.exists_by_id; strategies = st.strategies ++ val ∷ [] })
take_one st val t fresh = (
  OnceEach-append st.strategies val t.0 (t.1 val.id fresh),
  λ id h.
      New-append id st.strategies val (t.1 id (rest_of val.id id st.exists_by_id h))
        (head_of val.id id st.exists_by_id h),
)

with_last-id :
    (all_tpls : List (ℤ × Template)) (last : ℤ) (s : HostRule)
    → HasTpl s
    → Returns (λ v. v.id ≡ s.id) (with_last all_tpls last s)
with_last-id all_tpls last s (t, e) =
    rw e (elim (Bool-cases (eqb_ℤ t.id last)) [ inl same ↦ rw same | inr other ↦ rw other ])

take_strategies-Tracks :
    (all_tpls : List (ℤ × Template)) (last : ℤ) (ss : List HostRule) (st : Taken)
    → Each HasTpl ss
    → Tracks st
    → Returns Tracks (take_strategies all_tpls last ss st)
unfolding take_strategies
take_strategies-Tracks all_tpls last [] st h t = t
take_strategies-Tracks all_tpls last (s ∷ ss) st h t =
    elim (Bool-cases (is_handled s.id st.exists_by_id)) [
      | inl old ↦ rw (old, take_strategies) (take_strategies-Tracks all_tpls last ss st h.1 t)
      | inr new ↦
          rw (new, take_strategies)
            (Returns-bind (λ v. v.id ≡ s.id) Tracks (with_last all_tpls last s) _
              (with_last-id all_tpls last s h.0)
              (λ val e. take_strategies-Tracks all_tpls last ss _ h.1 (
                take_one st val t (subst (λ i. is_handled i st.exists_by_id ≡ false) (sym e) new))))
    ]

take_entries-Tracks :
    (all_tpls : List (ℤ × Template)) (last : ℤ) (m : List (String × List HostRule)) (st : Taken)
    → AllTpl m
    → Tracks st
    → Returns Tracks (take_entries all_tpls last m st)
unfolding take_entries
take_entries-Tracks all_tpls last [] st h t = t
take_entries-Tracks all_tpls last ((key, ss) ∷ m) st h t =
    Returns-bind Tracks Tracks (take_strategies all_tpls last ss st) _
      (take_strategies-Tracks all_tpls last ss st h.0 t)
      (λ st' t'. take_entries-Tracks all_tpls last m st' h.1 t')

-- The strategies of each host in a reply.
abbrev pub EachHost : List (String × List HostRule) → Type 0
EachHost [] = Unit {0}
EachHost ((name, ss) ∷ reply) = OnceEach ss × EachHost reply

module _ (sorted_tags : Tags → String) where
  take_buckets-Tracks :
      (all_tpls : List (ℤ × Template)) (tpl2 : List (ℤ × List HostRule)) (bs : List (List ℤ))
      (st : Taken)
      → AllTpl tpl2
      → Filled bs
      → Tracks st
      → Returns Tracks (take_buckets sorted_tags all_tpls tpl2 bs st)
  unfolding take_buckets
  take_buckets-Tracks all_tpls tpl2 [] st h f t = t
  take_buckets-Tracks all_tpls tpl2 (b ∷ bs) st h ((last, e), f) t = rw e (
      Returns-bind Tracks Tracks _ _
        (take_entries-Tracks all_tpls last (bucket_stras_map sorted_tags tpl2 b []) st
          (bucket_stras_map-AllTpl sorted_tags tpl2 b [] h tt) t)
        (λ st' t'. take_buckets-Tracks all_tpls tpl2 bs st' h f t'))

  calc-OnceEach :
      (all_tpls : List (ℤ × Template)) (tids : List ℤ) (tpl2 : List (ℤ × List HostRule))
      → AllTpl tpl2
      → Returns OnceEach (calc_inherit_strategies sorted_tags all_tpls tids tpl2)
  unfolding calc_inherit_strategies
  calc-OnceEach all_tpls tids tpl2 h =
      Returns-bind Tracks OnceEach _ _
        (take_buckets-Tracks all_tpls tpl2 _ _ h (uniq-Filled _ (tpl_buckets-Filled all_tpls tids))
          (tt, λ id e. tt))
        (λ st t. t.0)

  hosts_loop-OnceEach :
      (tpls : List (ℤ × Template)) (hosts : List (ℤ × String)) (tpl2 : List (ℤ × List HostRule))
      (hid_tids : List (ℤ × List ℤ))
      → AllTpl tpl2
      → Returns EachHost (hosts_loop sorted_tags tpls hosts tpl2 hid_tids)
  unfolding hosts_loop
  hosts_loop-OnceEach tpls hosts tpl2 [] h = tt
  hosts_loop-OnceEach tpls hosts tpl2 ((host_id, tpl_ids) ∷ rest) h =
      elim (Option-cases (find host_id hosts)) [
        | inl absent ↦ rw (absent, hosts_loop) (hosts_loop-OnceEach tpls hosts tpl2 rest h)
        | inr (name, found) ↦
            rw (found, hosts_loop)
              (Returns-bind OnceEach EachHost _ _ (calc-OnceEach tpls tpl_ids tpl2 h) (λ ss o.
                Returns-bind EachHost EachHost _ _ (hosts_loop-OnceEach tpls hosts tpl2 rest h)
                  (λ others os. elim (Bool-cases (is_nil ss)) [
                    | inl nothing ↦ rw nothing os
                    | inr something ↦ rw something (o, os)
                  ])))
      ]

  -- GetStrategies returns for all tables of hosts, templates and strategies, a nil strategy or a
  -- strategy without a template included: it reads no nil template, and no host has two strategies
  -- of one id.
  pub get_strategies-EachHost :
      (hid_tids : List (ℤ × List ℤ)) (hosts : List (ℤ × String)) (tpls : List (ℤ × Template))
      (strategies : List (ℤ × Option HostRule))
      → Returns EachHost (get_strategies sorted_tags hid_tids hosts tpls strategies)
  unfolding get_strategies
  get_strategies-EachHost hid_tids hosts tpls strategies =
      elim (Bool-cases (is_nil hid_tids || is_nil hosts || is_nil tpls || is_nil strategies)) [
        | inl nothing ↦ rw nothing tt
        | inr something ↦
            rw something
              (hosts_loop-OnceEach tpls hosts _ hid_tids (tpl2_strategies-AllTpl strategies [] tt))
      ]
