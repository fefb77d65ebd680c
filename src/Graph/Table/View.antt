-- ===== src/Graph/Table/View.antt =====
-- The buckets as one map: each call of the store reads and writes the list of its key alone.
use mathlib.Core.Bool.{true≢false}
use native.Mathlib.Nat.{mod-lt, mod-eq_of_lt}
use ref_falcon.Prelude.{
  ℕ, zero, suc, ◌%◌, ◌^◌, ◌<◌, ◌≡◌, ◌≢◌, refl, sym, ap, ◌∙◌, subst, inl, inr, false, List, [], ◌∷◌,
  length, length-set, get_elem?, get_elem?-set_self, get_elem?-set_ne, set, replicate, Option, none,
  some, if◌then◌else◌, ok, arith, ◌==◌, ==_iff, Bool-cases,
}
use ref_falcon.Prelude.Text.{
  String, str_eq, eq_iff, lookup, insert, delete, lookup-insert, lookup-delete,
}
use ref_falcon.Transfer.Types.{GraphItem}
use ref_falcon.Graph.Linked.{SafeLinkedList}
use ref_falcon.Graph.Table.{hash_key, Bucket, GraphItemMap, slot, bucket, with_bucket, graph_items}

pub in_range :
    {A : Type 0} (xs : List A) (i : ℕ) → i < length xs → (x : A) × (get_elem? xs i ≡ some x)
in_range [] i h = absurd (omega arith)
in_range (x ∷ xs) zero h = (x, refl)
in_range (x ∷ xs) (suc i) h = in_range xs i (omega arith)

module _ {V : Type 0} where
  -- As many buckets as Size says, at least one, and a Size that `uint32` does not change.
  pub record WellFormed (m : GraphItemMap V) : Type 0 where
    pub sized : length m.a ≡ m.size
    pub positive : 0 < m.size
    pub word : m.size < 2 ^ 32

  abbrev pub read : String → Option (Bucket V) → Option (SafeLinkedList (GraphItem V))
  read key none = none
  read key (some b) = lookup key b

  -- What is under a key.
  unfoldable pub view : GraphItemMap V → String → Option (SafeLinkedList (GraphItem V))
  view m key = read key (get_elem? m.a (slot key m))

  word_size : (m : GraphItemMap V) → WellFormed m → m.size % 2 ^ 32 ≡ m.size
  word_size m w = mod-eq_of_lt w.word

  pub slot-lt : (key : String) (m : GraphItemMap V) → WellFormed m → slot key m < length m.a
  slot-lt key m w = rw (w.sized, word_size m w) (mod-lt (hash_key key) w.positive)

  pub bucket_lem :
      (key : String) (m : GraphItemMap V)
      → WellFormed m
      → (b : Bucket V) × (get_elem? m.a (slot key m) ≡ some b)
        × (bucket key m ≡ ok b)
        × (view m key ≡ lookup key b)
  unfolding bucket view
  bucket_lem key m w =
      let (b, found) = in_range m.a (slot key m) (slot-lt key m w) in
      let r : (m.size % 2 ^ 32 == 0) ≡ false = ground (arith, word_size m w, w.positive) in
      (b, found, rw (bucket, r, found), rw (view, found))

  pub with_bucket-WellFormed :
      (key : String) (b : Bucket V) (m : GraphItemMap V)
      → WellFormed m
      → WellFormed (with_bucket key b m)
  with_bucket-WellFormed key b m w = record {
    sized = length-set m.a (slot key m) b ∙ w.sized;
    positive = w.positive;
    word = w.word;
  }

  -- A bucket is written back: the keys that it does not hold see nothing of it.
  view-with_bucket :
      (key k : String) (b b' : Bucket V) (m : GraphItemMap V)
      (new : Option (SafeLinkedList (GraphItem V)))
      → WellFormed m
      → get_elem? m.a (slot key m) ≡ some b
      → lookup k b' ≡ (if str_eq key k then new else lookup k b)
      → view (with_bucket key b' m) k ≡ (if str_eq key k then new else view m k)
  unfolding view
  view-with_bucket key k b b' m new w found e = elim (Bool-cases (slot key m == slot k m)) [
    | inl same ↦
        let at : slot key m ≡ slot k m = (==_iff _ _).0 same in
        let wrote : get_elem? (set m.a (slot key m) b') (slot k m) ≡ some b' =
          subst (λ j. get_elem? (set m.a (slot key m) b') j ≡ some b') at
            (get_elem?-set_self m.a (slot key m) b' (slot-lt key m w)) in
        ap (read k) wrote
        ∙ e
        ∙ ap (λ o. if str_eq key k then new else read k o)
            (sym (subst (λ j. get_elem? m.a j ≡ some b) at found))
    | inr other ↦
        let apart : slot key m ≢ slot k m = λ s. true≢false (sym ((==_iff _ _).1 s) ∙ other) in
        elim (Bool-cases (str_eq key k)) [
          | inl same ↦ absurd (apart (ap (λ x. slot x m) ((eq_iff key k).0 same)))
          | inr differ ↦ ap (read k) (get_elem?-set_ne m.a b' apart) ∙ rw differ
        ]
  ]

  pub view-insert :
      (key k : String) (sl : SafeLinkedList (GraphItem V)) (b : Bucket V) (m : GraphItemMap V)
      → WellFormed m
      → get_elem? m.a (slot key m) ≡ some b
      → view (with_bucket key (insert key sl b) m) k ≡ (if str_eq key k then some sl else view m k)
  view-insert key k sl b m w found =
      view-with_bucket key k b (insert key sl b) m (some sl) w found (lookup-insert key k sl b)

  pub view-delete :
      (key k : String) (b : Bucket V) (m : GraphItemMap V)
      → WellFormed m
      → get_elem? m.a (slot key m) ≡ some b
      → view (with_bucket key (delete key b) m) k ≡ (if str_eq key k then none else view m k)
  view-delete key k b m w found =
      view-with_bucket key k b (delete key b) m none w found (lookup-delete key k b)

  read-replicate : (k : String) (n i : ℕ) → read k (get_elem? (replicate n []) i) ≡ none
  unfolding lookup
  read-replicate k zero i = refl
  read-replicate k (suc n) zero = refl
  read-replicate k (suc n) (suc i) = read-replicate k n i

  -- Nothing is under a key in what `init` makes.
  pub view-graph_items : (k : String) → view (graph_items {V = V}) k ≡ none
  unfolding view
  view-graph_items k = read-replicate k 1800 (slot k (graph_items {V = V}))
