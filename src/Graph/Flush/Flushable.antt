-- ===== src/Graph/Flush/Flushable.antt =====
-- Buckets whose keys all have the name of a file, so that a flush does not panic.
use mathlib.Core.Bool.{true≢false}
use ref_falcon.Prelude.{
  ℕ, ◌≤◌, ◌≡◌, refl, sym, ◌∙◌, subst, inl, inr, List, [], ◌∷◌, ◌++◌, map, length, get_elem?,
  get_elem?-set_self, get_elem?-set_ne, set, some, Run, ok, err, panic, Returns, ◌==◌, ==_iff,
  Bool-cases, Option-cases,
}
use ref_falcon.Prelude.Int.{ℤ}
use ref_falcon.Prelude.Text.{String, codes, str_eq, lookup, insert}
use ref_falcon.Judge.Rules.Safe.{Each}
use ref_falcon.Judge.Store.Send.{Among}
use ref_falcon.Transfer.Types.{GraphItem}
use ref_falcon.Graph.Linked.{SafeLinkedList}
use ref_falcon.Graph.Keys.{split_rrd_cache_key}
use ref_falcon.Graph.Table
use ref_falcon.Graph.Table.{Bucket, GraphItemMap, with_bucket, slot}
use ref_falcon.Graph.Table.View.{WellFormed, bucket_lem, slot-lt}
use ref_falcon.Graph.Table.Answers.{pop_absent, pop_present}
use ref_falcon.Graph.Table.Effects.{Popped, pop_all-Popped}

-- A key that is taken apart has a checksum of two bytes or more.
abbrev pub NameFits : Run (List ℕ × List ℕ × ℤ) → Type 0
NameFits (ok (md5, ds_type, step)) = 2 ≤ length md5
NameFits err = Unit {0}
NameFits panic = ⊥

abbrev pub Nameable : String → Type 0
Nameable k = NameFits (split_rrd_cache_key (codes k))

abbrev pub names : {V : Type 0} → Bucket V → List String
names b = map (λ e. e.0) b

pub Among-append : {A : Type 0} (x : A) (xs ys : List A) → Among x xs → Among x (xs ++ ys)
Among-append x [] ys a = absurd a
Among-append x (z ∷ xs) ys (inl e) = inl e
Among-append x (z ∷ xs) ys (inr a) = inr (Among-append x xs ys a)

pub Among-last : {A : Type 0} (x : A) (xs : List A) → Among x (xs ++ x ∷ [])
Among-last x [] = inl refl
Among-last x (z ∷ xs) = inr (Among-last x xs)

module _ {V : Type 0} where
  -- Well-formed buckets whose keys all have a file name.
  pub record Flushable (m : GraphItemMap V) : Type 0 where
    pub well_formed : WellFormed m
    pub nameable : (i : ℕ) (b : Bucket V) → get_elem? m.a i ≡ some b → Each Nameable (names b)

  names-insert :
      (k : String) (sl : SafeLinkedList (GraphItem V)) (b : Bucket V)
      → Nameable k
      → Each Nameable (names b)
      → Each Nameable (names (insert k sl b))
  unfolding insert
  names-insert k sl [] n e = (n, tt)
  names-insert k sl ((j, s) ∷ b) n e = elim (Bool-cases (str_eq j k)) [
    | inl same ↦ rw same (n, e.1)
    | inr other ↦ rw other (e.0, names-insert k sl b n e.1)
  ]

  with_bucket-Nameable :
      (k : String) (b' : Bucket V) (m : GraphItemMap V)
      → Flushable m
      → Each Nameable (names b')
      → (i : ℕ) (b : Bucket V) → get_elem? (with_bucket k b' m).a i ≡ some b
      → Each Nameable (names b)
  with_bucket-Nameable k b' m f n i b e = elim (Bool-cases (slot k m == i)) [
    | inl at ↦
        let p : slot k m ≡ i = (==_iff _ _).0 at in
        let wrote : get_elem? (set m.a (slot k m) b') i ≡ some b' =
          subst (λ j. get_elem? (set m.a (slot k m) b') j ≡ some b') p
            (get_elem?-set_self m.a (slot k m) b' (slot-lt k m f.well_formed)) in
        let same : some b' ≡ some b = sym wrote ∙ e in
        let q : b' ≡ b = cc in subst (λ c. Each Nameable (names c)) q n
    | inr away ↦
        f.nameable i b
          (sym (get_elem?-set_ne m.a b' (λ p. true≢false (sym ((==_iff _ _).1 p) ∙ away))) ∙ e)
  ]

  pub pop_all-Flushable :
      (k : String) (m : GraphItemMap V)
      → Nameable k
      → Flushable m
      → Returns (λ r. Popped k m r × Flushable r.1) (Table.pop_all k m)
  pop_all-Flushable k m n f =
      let (b, at, e, seen) = bucket_lem k m f.well_formed in
      let popped = pop_all-Popped k m f.well_formed in
      elim (Option-cases (lookup k b)) [
        | inl absent ↦
            let r = pop_absent k m b e absent in rw r (subst (Returns (Popped k m)) r popped, f)
        | inr (sl, s) ↦
            let r = pop_present k m b sl e s in
            let p = subst (Returns (Popped k m)) r popped in
            rw r (
              p,
              record {
                well_formed = p.1.well_formed;
                nameable = with_bucket-Nameable k _ m f (names-insert k _ b n (f.nameable _ b at));
              },
            )
      ]
