-- ===== src/Graph/Receive/Rising.antt =====
-- Under every key the items that wait have strictly falling times from the front, so that what is
-- flushed rises strictly, as rrdtool wants it.
use mathlib.Core.List.{reverse, reverse_aux}
use ref_falcon.Prelude.{
  ◌≤◌, ◌≡◌, refl, sym, subst, inl, inr, Bool, true, false, ◌&&◌, not, List, [], ◌∷◌, length, Option,
  none, some, arith, Returns, Returns-bind, Returns-map, Bool-cases, Option-cases, get_elem?,
}
use ref_falcon.Prelude.Int.{◌<ℤ◌}
use ref_falcon.Prelude.Text.{String, codes, str_eq, lookup}
use ref_falcon.Judge.Rules.Safe.{Each}
use ref_falcon.Transfer.Types.{GraphItem}
use ref_falcon.Graph.Linked.{SafeLinkedList}
use ref_falcon.Graph.Table
use ref_falcon.Graph.Table.{GraphItemMap}
use ref_falcon.Graph.Table.View.{WellFormed, view}
use ref_falcon.Graph.Table.Effects.{
  waiting, emptied, pushed, After, Popped, pop_all-Popped, push_front-After, first_lem,
}
use ref_falcon.Graph.Keys.{is_valid_string}
use ref_falcon.Graph.Keys.Worker.{rrd_file_name-ok}
use ref_falcon.Graph.History.{Histories, is_latest}
use ref_falcon.Graph.History.Recent.{
  Falling, Falling-cons, Lawful, AllFalling, add_history_item-AllFalling,
}
use ref_falcon.Graph.Index.{Outside, Indices, receive_item}
use ref_falcon.Graph.Receive.{
  Memory, is_old, key_of, on_disk, store_item, handle_item, handle_items,
}

module _ {V : Type 0} where
  -- Strictly rising times.
  abbrev pub Rising : List (GraphItem V) → Type 0
  Rising [] = Unit {0}
  Rising (x ∷ []) = Unit {0}
  Rising (x ∷ y ∷ l) = (x.timestamp <ℤ y.timestamp) × Rising (y ∷ l)

  latest :
      (item : GraphItem V) (o : Option (GraphItem V))
      → is_old item o ≡ false
      → is_latest o item ≡ true
  latest item none e = refl
  latest item (some first) e = ground (arith, e)

  Rising-reverse_aux :
      (l : List (GraphItem V)) (y : GraphItem V) (r : List (GraphItem V))
      → Falling (y ∷ l)
      → Rising (y ∷ r)
      → Rising (reverse_aux l (y ∷ r))
  Rising-reverse_aux [] y r f g = g
  Rising-reverse_aux (z ∷ l) y r f g = Rising-reverse_aux l z (y ∷ r) f.1 (f.0, g)

  pub Rising-reverse : (l : List (GraphItem V)) → Falling l → Rising (reverse l)
  Rising-reverse [] f = tt
  Rising-reverse (x ∷ l) f = Rising-reverse_aux l x [] f tt

  Falling-pushed :
      (i : GraphItem V) (b : Bool) (o : Option (SafeLinkedList (GraphItem V)))
      → is_old i (get_elem? (waiting o) 0) ≡ false
      → Falling (waiting o)
      → Falling (pushed i b o).items
  Falling-pushed i b none e f = tt
  Falling-pushed i b (some sl) e f = Falling-cons i sl.items (latest i _ e) f

  Falling-emptied : (o : Option (SafeLinkedList (GraphItem V))) → Falling (waiting (emptied o))
  Falling-emptied none = tt
  Falling-emptied (some sl) = tt

  -- Times fall in every list of a store.
  abbrev pub AllFall : GraphItemMap V → Type 0
  AllFall m = (k : String) → Falling (waiting (view m k))

  AllFall-After :
      (m m' : GraphItemMap V) (key : String) (new : Option (SafeLinkedList (GraphItem V)))
      → After m key new m'
      → Falling (waiting new)
      → AllFall m
      → AllFall m'
  AllFall-After m m' key new a f all k =
      subst (λ o. Falling (waiting o)) (sym (a.seen k))
        (elim (Bool-cases (str_eq key k)) [ inl same ↦ rw same f | inr other ↦ rw other (all k) ])

  -- With times that fall in every list, PopAll returns; what it gives rises strictly in time, and
  -- times still fall in every list that it leaves.
  pub pop_all-Rising :
      (k : String) (m : GraphItemMap V)
      → WellFormed m
      → AllFall m
      → Returns (λ r. Rising r.0 × WellFormed r.1 × AllFall r.1) (Table.pop_all k m)
  pop_all-Rising k m w f =
      Returns-map (Popped k m) _ (Table.pop_all k m)
        (λ r p. (
          subst Rising (sym p.0) (Rising-reverse (waiting (view m k)) (f k)),
          p.1.well_formed,
          AllFall-After m r.1 k (emptied (view m k)) p.1 (Falling-emptied (view m k)) f,
        ))
        (pop_all-Popped k m w)

module _ {V : Type 0} (o : Outside V) where
  receive_item-Returns :
      (item : GraphItem V) (md5 : String) (st : Indices V)
      → 2 ≤ length (codes md5)
      → Returns (λ i. Unit {0}) (receive_item o item md5 st)
  unfolding receive_item
  receive_item-Returns item md5 st n =
      let (file, e) = rrd_file_name-ok o.storage (codes md5) (codes item.ds_type) item.step n in
      elim (Option-cases (lookup md5 st.indexed_item_cache)) [
        | inl absent ↦ rw (receive_item, absent, e) tt
        | inr (old, found) ↦ elim (Bool-cases (str_eq (o.uuid item) old.uuid)) [
          | inl same ↦ rw (receive_item, found, same) tt
          | inr other ↦ rw (receive_item, found, other) tt
        ]
      ]

module _ {V : Type 0} (h : Histories V) (o : Outside V) (all : h.Queue → List (GraphItem V))
    (law : Lawful h all) where
  -- The buckets are well-formed, and times fall strictly in every list of the store and of the
  -- history.
  pub record Healthy (st : Memory h) : Type 0 where
    pub well_formed : WellFormed st.graph_items
    pub falling : AllFall st.graph_items
    pub history : AllFalling h all law st.history_cache

  -- Its checksum is no shorter than two bytes.
  abbrev pub Named : Option (GraphItem V) → Type 0
  Named none = Unit {0}
  Named (some item) = 2 ≤ length (codes (o.checksum item))

  store_item-Healthy :
      (item : GraphItem V) (st : Memory h)
      → Named (some item)
      → Healthy st
      → Returns Healthy (store_item h o item st)
  unfolding store_item
  store_item-Healthy item st n s =
      let m = st.graph_items in
      let k = key_of o item in
      let found = first_lem k m s.well_formed in
      elim (Bool-cases (is_old item (get_elem? (waiting (view m k)) 0))) [
        | inl old ↦ rw (found, old) s
        | inr new ↦
            rw (found, new)
              (Returns-bind
                (After m k (some (pushed item (o.migrating && not (on_disk o item)) (view m k))))
                Healthy (Table.push_front k item o.migrating (on_disk o item) m) _
                (push_front-After k item o.migrating (on_disk o item) m s.well_formed)
                (λ m' a.
                  Returns-bind (λ i. Unit {0}) Healthy
                    (receive_item o item (o.checksum item) st.indices) _
                    (receive_item-Returns o item (o.checksum item) st.indices n)
                    (λ i u. record {
                      well_formed = a.well_formed;
                      falling =
                          AllFall-After m m' k _ a
                            (Falling-pushed item _ (view m k) new (s.falling k)) s.falling;
                      history =
                          add_history_item-AllFalling h all law (o.checksum item) item
                            st.history_cache s.history;
                    })))
      ]

  handle_item-Healthy :
      (item : Option (GraphItem V)) (st : Memory h)
      → Named item
      → Healthy st
      → Returns Healthy (handle_item h o item st)
  unfolding handle_item
  handle_item-Healthy none st n s = s
  handle_item-Healthy (some item) st n s =
      elim (Bool-cases (not (is_valid_string o.is_print (codes item.endpoint)))) [
        | inl refused ↦ rw refused s
        | inr good ↦ elim (Bool-cases (not (is_valid_string o.is_print (codes (o.counter item))))) [
          | inl refused ↦ rw (good, refused) s
          | inr fine ↦ rw (good, fine) (store_item-Healthy item st n s)
        ]
      ]

  -- With a limited list as documented, and checksums of two bytes or more, handleItems returns on
  -- whatever items and keeps the memory well-formed: the times of the items of each key, and of
  -- each history, fall strictly from the front.
  pub handle_items-Healthy :
      (items : List (Option (GraphItem V))) (st : Memory h)
      → Each Named items
      → Healthy st
      → Returns Healthy (handle_items h o items st)
  unfolding handle_items
  handle_items-Healthy [] st n s = s
  handle_items-Healthy (item ∷ items) st n s =
      Returns-bind Healthy Healthy (handle_item h o item st) _ (handle_item-Healthy item st n.0 s)
        (λ st' s'. handle_items-Healthy items st' n.1 s')
