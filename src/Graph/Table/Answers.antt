-- ===== src/Graph/Table/Answers.antt =====
-- Each call of the store gets the reply of its contract, and so does every run of calls.
use mathlib.Core.List.{reverse}
use ref_falcon.Prelude.{
  ◌≡◌, refl, sym, ap, ◌∙◌, inl, inr, true, false, List, [], ◌∷◌, get_elem?, none, some,
  if◌then◌else◌, ok, Returns, Returns-bind, arith, Option-cases,
}
use ref_falcon.Prelude.Text.{String, str_eq, lookup, insert, delete}
use ref_falcon.Transfer.Types.{GraphItem}
use ref_falcon.Graph.Linked.{SafeLinkedList}
use ref_falcon.Graph.Linked.Reversed.{pop_all_lem, push_all_lem, fetch_all_lem}
use ref_falcon.Graph.Table
use ref_falcon.Graph.Table.{GraphItemMap, with_bucket}
use ref_falcon.Graph.Table.View.{
  WellFormed, view, bucket_lem, with_bucket-WellFormed, view-insert, view-delete, view-graph_items,
}
use ref_falcon.Graph.Table.Promise.{
  Call, first, back, item_cnt, get_flag, fetch_all, pop_all, remove, push_all, set_flag, push_front,
  Answer, flagged, Keyed, with_key, perform, absent, present, key_of, promise, run_calls, promises,
}

module _ {V : Type 0} where
  -- The buckets hold what the contract says.
  pub record Tracks (m : GraphItemMap V) (f : Keyed V) : Type 0 where
    pub well_formed : WellFormed m
    pub same : (k : String) → view m k ≡ f k

  abbrev pub Kept : Answer V × Keyed V → Answer V × GraphItemMap V → Type 0
  Kept spec r = (r.0 ≡ spec.0) × Tracks r.1 spec.1

  Tracks-insert :
      (key : String) (sl : SafeLinkedList (GraphItem V)) (b : Table.Bucket V) (m : GraphItemMap V)
      (f : Keyed V)
      → Tracks m f
      → get_elem? m.a (Table.slot key m) ≡ some b
      → Tracks (with_bucket key (insert key sl b) m) (with_key key (some sl) f)
  Tracks-insert key sl b m f t found = record {
    well_formed = with_bucket-WellFormed key _ m t.well_formed;
    same = λ k.
        view-insert key k sl b m t.well_formed found
        ∙ ap (λ o. if str_eq key k then some sl else o) (t.same k);
  }

  Tracks-delete :
      (key : String) (b : Table.Bucket V) (m : GraphItemMap V) (f : Keyed V)
      → Tracks m f
      → get_elem? m.a (Table.slot key m) ≡ some b
      → Tracks (with_bucket key (delete key b) m) (with_key key none f)
  Tracks-delete key b m f t found = record {
    well_formed = with_bucket-WellFormed key _ m t.well_formed;
    same = λ k.
        view-delete key k b m t.well_formed found
        ∙ ap (λ o. if str_eq key k then none else o) (t.same k);
  }

  pub pop_absent :
      (k : String) (m : GraphItemMap V) (b : Table.Bucket V)
      → Table.bucket k m ≡ ok b
      → lookup k b ≡ none
      → Table.pop_all k m ≡ ok ([], m)
  unfolding Table.pop_all
  pop_absent k m b e n = rw (e, n)

  pub pop_present :
      (k : String) (m : GraphItemMap V) (b : Table.Bucket V) (sl : SafeLinkedList (GraphItem V))
      → Table.bucket k m ≡ ok b
      → lookup k b ≡ some sl
      → Table.pop_all k m
        ≡ ok (reverse sl.items, with_bucket k (insert k (record sl { items = [] }) b) m)
  unfolding Table.pop_all
  pop_present k m b sl e s = rw (e, s, pop_all_lem sl)

  remove_absent :
      (k : String) (m : GraphItemMap V) (b : Table.Bucket V)
      → Table.bucket k m ≡ ok b
      → lookup k b ≡ none
      → Table.remove k m ≡ ok (false, m)
  unfolding Table.remove
  remove_absent k m b e n = rw (e, n)

  remove_present :
      (k : String) (m : GraphItemMap V) (b : Table.Bucket V) (sl : SafeLinkedList (GraphItem V))
      → Table.bucket k m ≡ ok b
      → lookup k b ≡ some sl
      → Table.remove k m ≡ ok (true, with_bucket k (delete k b) m)
  unfolding Table.remove
  remove_present k m b sl e s = rw (e, s)

  -- A key with no list in its bucket.
  perform-absent :
      (c : Call V) (m : GraphItemMap V) (f : Keyed V) (b : Table.Bucket V)
      → Tracks m f
      → get_elem? m.a (Table.slot (key_of c) m) ≡ some b
      → Table.bucket (key_of c) m ≡ ok b
      → lookup (key_of c) b ≡ none
      → Returns (Kept (absent c f)) (perform c m)
  unfolding perform Table.first Table.back Table.item_cnt Table.get_flag Table.fetch_all
      Table.push_all Table.set_flag Table.push_front Table.get Table.set_key
  perform-absent (first k) m f b t at e n = rw (e, n) (refl, t)
  perform-absent (back k) m f b t at e n = rw (e, n) (refl, t)
  perform-absent (item_cnt k) m f b t at e n = rw (e, n) (refl, t)
  perform-absent (get_flag k) m f b t at e n = rw (e, n) (refl, t)
  perform-absent (fetch_all k) m f b t at e n = rw (e, n) (refl, t)
  perform-absent (pop_all k) m f b t at e n = rw (pop_absent k m b e n) (refl, t)
  perform-absent (remove k) m f b t at e n = rw (remove_absent k m b e n) (refl, t)
  perform-absent (push_all k l) m f b t at e n = rw (e, n) (refl, t)
  perform-absent (set_flag k i) m f b t at e n = rw (e, n) (refl, t)
  perform-absent (push_front k i migrating on_disk) m f b t at e n =
      rw (e, n) (rw e (refl, Tracks-insert k _ b m f t at))

  -- A key with a list.
  perform-present :
      (c : Call V) (m : GraphItemMap V) (f : Keyed V) (b : Table.Bucket V)
      (sl : SafeLinkedList (GraphItem V))
      → Tracks m f
      → get_elem? m.a (Table.slot (key_of c) m) ≡ some b
      → Table.bucket (key_of c) m ≡ ok b
      → lookup (key_of c) b ≡ some sl
      → Returns (Kept (present c sl f)) (perform c m)
  unfolding perform Table.first Table.back Table.item_cnt Table.get_flag Table.fetch_all
      Table.push_all Table.set_flag Table.push_front Table.get Table.set_key
  perform-present (first k) m f b sl t at e s = rw (e, s) (refl, t)
  perform-present (back k) m f b sl t at e s = rw (e, s) (refl, t)
  perform-present (item_cnt k) m f b sl t at e s = rw (e, s) (refl, t)
  perform-present (get_flag k) m f b sl t at e s = rw (e, s) (refl, t)
  perform-present (fetch_all k) m f b sl t at e s = rw (e, s) (ap flagged (fetch_all_lem sl), t)
  perform-present (pop_all k) m f b sl t at e s =
      rw (pop_present k m b sl e s) (refl, Tracks-insert k _ b m f t at)
  perform-present (remove k) m f b sl t at e s =
      rw (remove_present k m b sl e s) (refl, Tracks-delete k b m f t at)
  perform-present (push_all k l) m f b sl t at e s =
      rw (e, s, push_all_lem l sl) (refl, Tracks-insert k _ b m f t at)
  perform-present (set_flag k i) m f b sl t at e s = rw (e, s) (refl, Tracks-insert k _ b m f t at)
  perform-present (push_front k i migrating on_disk) m f b sl t at e s =
      rw (e, s) (rw e (refl, Tracks-insert k _ b m f t at))

  pub perform-Kept :
      (c : Call V) (m : GraphItemMap V) (f : Keyed V)
      → Tracks m f
      → Returns (Kept (promise c f)) (perform c m)
  perform-Kept c m f t =
      let (b, at, e, seen) = bucket_lem (key_of c) m t.well_formed in
      elim (Option-cases (lookup (key_of c) b)) [
        | inl n ↦
            let fk : f (key_of c) ≡ none = sym (t.same (key_of c)) ∙ seen ∙ n in
            rw (fk, promise) (perform-absent c m f b t at e n)
        | inr (sl, s) ↦
            let fk : f (key_of c) ≡ some sl = sym (t.same (key_of c)) ∙ seen ∙ s in
            rw (fk, promise) (perform-present c m f b sl t at e s)
      ]

  abbrev pub KeptAll : List (Answer V) × Keyed V → List (Answer V) × GraphItemMap V → Type 0
  KeptAll spec r = (r.0 ≡ spec.0) × Tracks r.1 spec.1

  -- From buckets that hold what a map of keys says, every run of calls returns: it gets the
  -- replies that the map gives, and the buckets hold in the end what the map then says.
  pub run_calls-KeptAll :
      (cs : List (Call V)) (m : GraphItemMap V) (f : Keyed V)
      → Tracks m f
      → Returns (KeptAll (promises cs f)) (run_calls cs m)
  unfolding run_calls promises
  run_calls-KeptAll [] m f t = (refl, t)
  run_calls-KeptAll (c ∷ cs) m f t =
      Returns-bind (Kept (promise c f)) (KeptAll (promises (c ∷ cs) f)) (perform c m) _
        (perform-Kept c m f t)
        (λ r kept.
          Returns-bind (KeptAll (promises cs (promise c f).1)) (KeptAll (promises (c ∷ cs) f))
            (run_calls cs r.1) _ (run_calls-KeptAll cs r.1 (promise c f).1 kept.1)
            (λ rest all.
              (ap (◌∷◌ r.0) all.0 ∙ ap (λ x. x ∷ (promises cs (promise c f).1).0) kept.0, all.1)))

  -- The store that `init` makes holds nothing.
  pub graph_items-Tracks : Tracks Table.graph_items (λ k. none)
  graph_items-Tracks = record {
    well_formed = record { sized = refl; positive = omega arith; word = omega arith };
    same = view-graph_items;
  }
