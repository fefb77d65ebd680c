-- ===== src/Graph/Flush/Fate.antt =====
-- A commit loses nothing: the items of a key stay where they are, or go to the file of the key.
use mathlib.Core.List.{reverse, reverse-reverse}
use ref_falcon.Prelude.{
  ℕ, ◌≡◌, refl, sym, ap, ◌∙◌, subst, ◌⊎◌, inl, inr, Bool, true, false, List, [], ◌∷◌, ◌++◌, Option,
  none, some, Run, ok, err, panic, Returns, Returns-bind, Bool-cases,
}
use ref_falcon.Prelude.Int.{ℤ}
use ref_falcon.Prelude.Text.{String, codes, str_eq, eq_iff, eq_refl}
use ref_falcon.Judge.Store.Send.{Among}
use ref_falcon.Transfer.Types.{GraphItem}
use ref_falcon.Graph.Linked.{SafeLinkedList}
use ref_falcon.Graph.Keys.{split_rrd_cache_key, rrd_file_name}
use ref_falcon.Graph.Keys.Worker.{rrd_file_name-ok}
use ref_falcon.Graph.Table
use ref_falcon.Graph.Table.{GraphItemMap}
use ref_falcon.Graph.Table.View.{view}
use ref_falcon.Graph.Table.Effects.{waiting, emptied, Popped}
use ref_falcon.Graph.Flush.{Settings, Batch, Disk, commit_popped, commit_split, commit_by_key}
use ref_falcon.Graph.Flush.Flushable.{
  Flushable, Nameable, NameFits, Among-append, Among-last, pop_all-Flushable,
}

module _ {V : Type 0} (cfg : Settings V) where
  -- The batch of a key whose items are l was handed to the workers.
  abbrev Handed : Run (List ℕ × List ℕ × ℤ) → List (GraphItem V) → List (Batch V) → Type 0
  Handed (ok (md5, ds_type, step)) l flushed =
      (file : List ℕ) × (rrd_file_name cfg.storage md5 ds_type step ≡ ok file)
      × Among (file, md5, reverse l) flushed
  Handed err l flushed = ⊥
  Handed panic l flushed = ⊥

  -- Nothing waits under the key, and what waited, if anything, was handed to the workers of its
  -- file, the oldest item first.
  abbrev pub Saved : String → List (GraphItem V) → Disk V → Type 0
  Saved k old st =
      (waiting (view st.graph_items k) ≡ [])
      × ((old ≡ []) ⊎ Handed (split_rrd_cache_key (codes k)) old st.flushed)

  -- What waited under the key waits there still, or is saved.
  abbrev pub Fate : String → List (GraphItem V) → Disk V → Type 0
  Fate k old st = (waiting (view st.graph_items k) ≡ old) ⊎ Saved k old st

  -- The key can be taken apart.
  abbrev pub Splits : String → Type 0
  Splits k = (parts : List ℕ × List ℕ × ℤ) × (split_rrd_cache_key (codes k) ≡ ok parts)

  Handed-append :
      (s : Run (List ℕ × List ℕ × ℤ)) (l : List (GraphItem V)) (xs ys : List (Batch V))
      → Handed s l xs
      → Handed s l (xs ++ ys)
  Handed-append (ok (md5, ds_type, step)) l xs ys (file, e, a) = (file, e, Among-append _ xs ys a)
  Handed-append err l xs ys h = h
  Handed-append panic l xs ys h = h

  reverse-nil : (l : List (GraphItem V)) → reverse l ≡ [] → l ≡ []
  reverse-nil l e = sym (reverse-reverse l) ∙ ap reverse e

  waiting-emptied : (o : Option (SafeLinkedList (GraphItem V))) → waiting (emptied o) ≡ []
  waiting-emptied none = refl
  waiting-emptied (some sl) = refl

  -- What CommitByKey notes of what was popped.
  commit_popped_items :
      (file md5 : List ℕ) (r : List (GraphItem V) × GraphItemMap V) (st : Disk V)
      → (commit_popped file md5 r st).graph_items ≡ r.1
  commit_popped_items file md5 ([], m) st = refl
  commit_popped_items file md5 (x ∷ l, m) st = refl

  commit_popped_more :
      (s : Run (List ℕ × List ℕ × ℤ)) (l : List (GraphItem V)) (file md5 : List ℕ)
      (r : List (GraphItem V) × GraphItemMap V) (st : Disk V)
      → Handed s l st.flushed
      → Handed s l (commit_popped file md5 r st).flushed
  commit_popped_more s l file md5 ([], m) st h = h
  commit_popped_more s l file md5 (x ∷ i, m) st h = Handed-append s l st.flushed _ h

  commit_popped_new :
      (file md5 : List ℕ) (r : List (GraphItem V) × GraphItemMap V) (st : Disk V)
      → (r.0 ≡ []) ⊎ Among (file, md5, r.0) (commit_popped file md5 r st).flushed
  commit_popped_new file md5 ([], m) st = inl refl
  commit_popped_new file md5 (x ∷ i, m) st = inr (Among-last _ st.flushed)

  -- The key that is committed is saved.
  committed_key :
      (j : String) (old : List (GraphItem V)) (st : Disk V) (md5 ds_type file : List ℕ) (step : ℤ)
      (r : List (GraphItem V) × GraphItemMap V)
      → split_rrd_cache_key (codes j) ≡ ok (md5, ds_type, step)
      → rrd_file_name cfg.storage md5 ds_type step ≡ ok file
      → Popped j st.graph_items r
      → Fate j old st
      → Saved j old (commit_popped file md5 r st)
  committed_key j old st md5 ds_type file step r e f p fate = (
    ap (λ m. waiting (view m j)) (commit_popped_items file md5 r st)
        ∙ ap waiting (p.1.seen j)
        ∙ rw (eq_refl j) (waiting-emptied (view st.graph_items j)),
    elim fate [
      | inl same ↦ elim (commit_popped_new file md5 r st) [
        | inl nothing ↦
            inl (sym same ∙ reverse-nil (waiting (view st.graph_items j)) (sym p.0 ∙ nothing))
        | inr a ↦ inr (
            subst (λ s. Handed s old (commit_popped file md5 r st).flushed) (sym e)
              (
                file,
                f,
                subst (λ x. Among (file, md5, x) (commit_popped file md5 r st).flushed)
                    (p.0 ∙ ap reverse same) a,
              ))
      ]
      | inr saved ↦ elim saved.1 [
        | inl nothing ↦ inl nothing
        | inr h ↦ inr (commit_popped_more (split_rrd_cache_key (codes j)) old file md5 r st h)
      ]
    ],
  )

  -- Every other key is as it was.
  module _ (j k : String) (old : List (GraphItem V)) (st : Disk V) (md5 file : List ℕ)
      (r : List (GraphItem V) × GraphItemMap V) (other : str_eq j k ≡ false)
      (p : Popped j st.graph_items r) where
    other_waiting :
        waiting (view (commit_popped file md5 r st).graph_items k) ≡ waiting (view st.graph_items k)
    other_waiting =
        ap (λ m. waiting (view m k)) (commit_popped_items file md5 r st)
        ∙ ap waiting (p.1.seen k)
        ∙ rw other

    other-Saved : Saved k old st → Saved k old (commit_popped file md5 r st)
    other-Saved s = (
      other_waiting ∙ s.0,
      elim s.1 [
        | inl nothing ↦ inl nothing
        | inr h ↦ inr (commit_popped_more (split_rrd_cache_key (codes k)) old file md5 r st h)
      ],
    )

    other-Fate : Fate k old st → Fate k old (commit_popped file md5 r st)
    other-Fate (inl waits) = inl (other_waiting ∙ waits)
    other-Fate (inr s) = inr (other-Saved s)

  -- What holds of a key k behind a step from the state `before`; `visited` is that the step has
  -- to commit k.
  pub record Kept (k : String) (old : List (GraphItem V)) (visited : Bool) (before st : Disk V)
      : Type 0 where
    pub flushable : Flushable st.graph_items
    pub size : st.graph_items.size ≡ before.graph_items.size
    pub fate : Fate k old st
    pub saved : visited ≡ true → Splits k → Saved k old st
    pub stays : Saved k old before → Saved k old st

  err≢ok : {A : Type 0} (a : A) → err ≡ ok a → ⊥
  err≢ok a e = cc

  commit_split-Kept :
      (j k : String) (old : List (GraphItem V)) (st : Disk V) (s : Run (List ℕ × List ℕ × ℤ))
      → split_rrd_cache_key (codes j) ≡ s
      → NameFits s
      → Flushable st.graph_items
      → Fate k old st
      → Returns (Kept k old (str_eq j k) st) (commit_split cfg j s st)
  commit_split-Kept j k old st panic e n fl fate = absurd n
  commit_split-Kept j k old st err e n fl fate = record {
    flushable = fl;
    size = refl;
    fate = fate;
    stays = λ s. s;
    saved = λ v (parts, sp).
        absurd
          (err≢ok parts (sym e ∙ ap (λ x. split_rrd_cache_key (codes x)) ((eq_iff j k).0 v) ∙ sp));
  }
  commit_split-Kept j k old st (ok (md5, ds_type, step)) e n fl fate =
      let (file, f) = rrd_file_name-ok cfg.storage md5 ds_type step n in
      rw f (
        Returns-bind (λ r. Popped j st.graph_items r × Flushable r.1) (Kept k old (str_eq j k) st)
          (Table.pop_all j st.graph_items) _
          (pop_all-Flushable j st.graph_items (subst NameFits (sym e) n) fl)
          (λ r (p, fl').
            let done : str_eq j k ≡ true → Saved k old (commit_popped file md5 r st) = λ v.
              let same = (eq_iff j k).0 v in
              subst (λ x. Saved x old (commit_popped file md5 r st)) same
                (committed_key j old st md5 ds_type file step r e f p
                  (subst (λ x. Fate x old st) (sym same) fate)) in
            record {
              flushable = subst Flushable (sym (commit_popped_items file md5 r st)) fl';
              size = ap (λ m. m.size) (commit_popped_items file md5 r st) ∙ p.1.size;
              fate = elim (Bool-cases (str_eq j k)) [
                | inl v ↦ inr (done v)
                | inr other ↦ other-Fate j k old st md5 file r other p fate
              ];
              stays = λ s. elim (Bool-cases (str_eq j k)) [
                | inl v ↦ done v
                | inr other ↦ other-Saved j k old st md5 file r other p s
              ];
              saved = λ v sp. done v;
            }))

  pub commit_by_key-Kept :
      (j k : String) (old : List (GraphItem V)) (st : Disk V)
      → Nameable j
      → Flushable st.graph_items
      → Fate k old st
      → Returns (Kept k old (str_eq j k) st) (commit_by_key cfg j st)
  unfolding commit_by_key
  commit_by_key-Kept j k old st n fl fate =
      commit_split-Kept j k old st (split_rrd_cache_key (codes j)) refl n fl fate
