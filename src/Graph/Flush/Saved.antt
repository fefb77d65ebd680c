-- ===== src/Graph/Flush/Saved.antt =====
-- What a flush does to the items of a key.
use mathlib.Core.Bool.{true≢false}
use ref_falcon.Prelude.{
  ℕ, ◌%◌, ◌≡◌, refl, sym, ap, ◌∙◌, subst, inl, inr, Bool, true, false, not, ◌&&◌, ◌||◌, List, [],
  ◌∷◌, length, get_elem?, Option, none, some, if◌then◌else◌, leb, ok, Returns, Returns-bind,
  Returns-map, ◌==◌, Bool-cases, Option-cases,
}
use ref_falcon.Prelude.Int.{ℤ}
use ref_falcon.Prelude.Text.{String, str_eq, eq_iff}
use ref_falcon.Judge.Alarm.{is_listed}
use ref_falcon.Judge.Rules.Safe.{Each}
use ref_falcon.Transfer.Types.{GraphItem}
use ref_falcon.Graph.Table
use ref_falcon.Graph.Table.{GraphItemMap}
use ref_falcon.Graph.Table.View.{WellFormed, view}
use ref_falcon.Graph.Table.Effects.{
  waiting, flag_of, first_lem, back_lem, item_cnt_lem, get_flag_lem,
}
use ref_falcon.Graph.Linked.{last}
use ref_falcon.Graph.Flush.{
  Settings, Disk, commit_by_key, pull_first, pull_by_key, overdue, should_flush, flag_or_zero,
  flush_key, flush_keys,
}
use ref_falcon.Graph.Flush.Flushable.{Flushable, Nameable}
use ref_falcon.Graph.Flush.Fate.{Saved, Fate, Kept, commit_by_key-Kept}

pub and_left : (a b : Bool) → (a && b) ≡ true → a ≡ true
and_left true b h = refl
and_left false b h = h

pub and_right : (a b : Bool) → (a && b) ≡ true → b ≡ true
and_right true b h = h
and_right false b h = absurd (true≢false (sym h))

either : (s l d : Bool) → ((if s then true else l) && d) ≡ true → ((s && d) || (l && d)) ≡ true
either true l true h = refl
either true l false h = absurd (true≢false (sym h))
either false l d h = h

-- A key that is pulled is not due.
not_due :
    (visited force migrating flag many : Bool)
    → (not force && (migrating && flag)) ≡ true
    → (visited && (force || (not migrating && many))) ≡ false
not_due visited true migrating flag many h = absurd (true≢false (sym h))
not_due visited false true flag many h = and_false visited
  where
    and_false : (b : Bool) → (b && false) ≡ false
    and_false true = refl
    and_false false = refl
not_due visited false false flag many h = absurd (true≢false (sym h))

module _ {V : Type 0} (cfg : Settings V) where
  -- A flush has to write these items: it is forced, or they are at least FLUSH_MIN_COUNT and graph
  -- does not migrate.
  abbrev pub due : Bool → List (GraphItem V) → Bool
  due force old = force || (not cfg.migrating && leb 6 (length old))

  flag_lem :
      (j : String) (m : GraphItemMap V)
      → WellFormed m
      → (n : ℕ) × (flag_or_zero (Table.get_flag j m) ≡ ok n)
  flag_lem j m w = elim (get_flag_lem j m w) [
    | inl e ↦ (flag_of (view m j), ap flag_or_zero e)
    | inr e ↦ (0, ap flag_or_zero e)
  ]

  should_flush_lem :
      (now : ℤ) (j : String) (st : Disk V)
      → WellFormed st.graph_items
      → (b : Bool) × (should_flush now j st ≡ ok b)
        × (leb 6 (length (waiting (view st.graph_items j))) ≡ true → b ≡ true)
  unfolding should_flush
  should_flush_lem now j st w =
      let c = item_cnt_lem j st.graph_items w in
      elim (Bool-cases (leb 6 (length (waiting (view st.graph_items j))))) [
        | inl many ↦ (true, rw (c, many), λ h. refl)
        | inr few ↦ (
          overdue now (last (waiting (view st.graph_items j))),
          rw (c, few, back_lem j st.graph_items w),
          λ h. absurd (true≢false (sym h ∙ few)),
        )
      ]

  module _ (k : String) (old : List (GraphItem V)) where
    -- The two reasons for which a step need not commit the key, or leaves nothing to be saved.
    pub Kept-same :
        (v : Bool) (st : Disk V)
        → Flushable st.graph_items
        → Fate cfg k old st
        → (v ≡ true → Saved cfg k old st)
        → Kept cfg k old v st st
    Kept-same v st fl fate s = record {
      flushable = fl;
      size = refl;
      fate = fate;
      saved = λ h sp. s h;
      stays = λ x. x;
    }

    pub Kept-less :
        (v v' : Bool) (before st : Disk V)
        → (v' ≡ true → v ≡ true)
        → Kept cfg k old v before st
        → Kept cfg k old v' before st
    Kept-less v v' before st f kept = record {
      flushable = kept.flushable;
      size = kept.size;
      fate = kept.fate;
      saved = λ h sp. kept.saved (f h) sp;
      stays = kept.stays;
    }

    pull_first-Kept :
        (j : String) (o : Option (GraphItem V)) (v : Bool) (st : Disk V)
        → v ≡ false
        → Flushable st.graph_items
        → Fate cfg k old st
        → Kept cfg k old v st (pull_first cfg j o st)
    pull_first-Kept j none v st e fl fate =
        Kept-same v st fl fate (λ h. absurd (true≢false (sym h ∙ e)))
    pull_first-Kept j (some item) v st e fl fate = elim (Option-cases (cfg.node item)) [
      | inl unknown ↦
          rw (unknown, pull_first) (Kept-same v st fl fate (λ h. absurd (true≢false (sym h ∙ e))))
      | inr (node, known) ↦
          rw (known, pull_first)
            (record {
              flushable = fl;
              size = refl;
              fate = fate;
              saved = λ h sp. absurd (true≢false (sym h ∙ e));
              stays = λ x. x;
            })
    ]

    -- A key with few items is not due, unless it is saved already.
    late :
        (j : String) (st : Disk V)
        → Fate cfg k old st
        → (leb 6 (length (waiting (view st.graph_items j))) ≡ true → ⊥)
        → (str_eq j k && (false || (not cfg.migrating && leb 6 (length old)))) ≡ true
        → Saved cfg k old st
    late j st (inr saved) few h = saved
    late j st (inl waits) few h =
        let same = (eq_iff j k).0 (and_left (str_eq j k) _ h) in
        let many : leb 6 (length old) ≡ true =
          and_right (not cfg.migrating) _ (and_right (str_eq j k) _ h) in
        absurd (
          few (
            subst (λ l. leb 6 (length l) ≡ true)
              (sym (ap (λ x. waiting (view st.graph_items x)) same ∙ waits)) many))

    flush_key-Kept :
        (now : ℤ) (force : Bool) (j : String) (st : Disk V)
        → Nameable j
        → Flushable st.graph_items
        → Fate cfg k old st
        → Returns (Kept cfg k old (str_eq j k && due force old) st) (flush_key cfg now force j st)
    unfolding flush_key pull_by_key
    flush_key-Kept now force j st n fl fate =
        let (flag, f) = flag_lem j st.graph_items fl.well_formed in
        let v = str_eq j k && due force old in
        elim (Bool-cases (not force && (cfg.migrating && flag % 2 == 1))) [
          | inl missing ↦
              rw (f, missing, first_lem j st.graph_items fl.well_formed)
                (pull_first-Kept j (get_elem? (waiting (view st.graph_items j)) 0) v st
                  (not_due (str_eq j k) force cfg.migrating (flag % 2 == 1) (leb 6 (length old))
                    missing)
                  fl fate)
          | inr here ↦ elim (Bool-cases force) [
            | inl forced ↦
                rw (f, here, forced)
                  (Returns-map (Kept cfg k old (str_eq j k) st) _ (commit_by_key cfg j st)
                    (λ st' kept. Kept-less (str_eq j k) _ st st' (and_left (str_eq j k) _) kept)
                    (commit_by_key-Kept cfg j k old st n fl fate))
            | inr waits ↦
                let (b, s, many) = should_flush_lem now j st fl.well_formed in
                elim (Bool-cases b) [
                  | inl go ↦
                      let wanted : should_flush now j st ≡ ok true = s ∙ ap ok go in
                      rw (f, here, waits, wanted)
                        (Returns-map (Kept cfg k old (str_eq j k) st) _ (commit_by_key cfg j st)
                          (λ st' kept.
                            Kept-less (str_eq j k) _ st st' (and_left (str_eq j k) _) kept)
                          (commit_by_key-Kept cfg j k old st n fl fate))
                  | inr stop ↦
                      let wanted : should_flush now j st ≡ ok false = s ∙ ap ok stop in
                      rw (f, here, waits, wanted)
                        (Kept-same _ st fl fate
                          (late j st fate (λ h. true≢false (sym (many h) ∙ stop))))
                ]
          ]
        ]

    pub Kept-then :
        (v w : Bool) (st st1 st2 : Disk V)
        → Kept cfg k old v st st1
        → Kept cfg k old w st1 st2
        → Kept cfg k old (v || w) st st2
    Kept-then true w st st1 st2 a b = record {
      flushable = b.flushable;
      size = b.size ∙ a.size;
      fate = b.fate;
      saved = λ h sp. b.stays (a.saved refl sp);
      stays = λ s. b.stays (a.stays s);
    }
    Kept-then false w st st1 st2 a b = record {
      flushable = b.flushable;
      size = b.size ∙ a.size;
      fate = b.fate;
      saved = b.saved;
      stays = λ s. b.stays (a.stays s);
    }

    pub flush_keys-Kept :
        (now : ℤ) (force : Bool) (keys : List String) (st : Disk V)
        → Each Nameable keys
        → Flushable st.graph_items
        → Fate cfg k old st
        → Returns
            (Kept cfg k old (is_listed k keys && due force old) st)
            (flush_keys cfg now force keys st)
    unfolding flush_keys is_listed
    flush_keys-Kept now force [] st n fl fate =
        Kept-same false st fl fate (λ h. absurd (true≢false (sym h)))
    flush_keys-Kept now force (j ∷ keys) st n fl fate =
        Returns-bind (Kept cfg k old (str_eq j k && due force old) st) _
          (flush_key cfg now force j st) _ (flush_key-Kept now force j st n.0 fl fate)
          (λ st1 a.
            Returns-map (Kept cfg k old (is_listed k keys && due force old) st1) _
              (flush_keys cfg now force keys st1)
              (λ st2 b.
                Kept-less _ _ st st2 (either (str_eq j k) (is_listed k keys) (due force old))
                  (Kept-then _ _ st st1 st2 a b))
              (flush_keys-Kept now force keys st1 n.1 a.flushable a.fate))
