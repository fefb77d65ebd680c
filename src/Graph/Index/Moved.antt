-- ===== src/Graph/Index/Moved.antt =====
-- The incremental update leaves no key waiting, and every item that the database accepts is indexed.
use ref_falcon.Prelude.{
  ℕ, ◌+◌, ◌≡◌, ◌==◌, refl, sym, ap, ◌∙◌, inl, inr, Bool, true, false, List, [], ◌∷◌, map, Option,
  none, some, if◌then◌else◌, arith, Bool-cases,
}
use ref_falcon.Prelude.Text.{String, str_eq, eq_iff, lookup, lookup-insert, lookup-delete}
use ref_falcon.Transfer.Types.{GraphItem}
use ref_falcon.Judge.Alarm.{is_listed}
use ref_falcon.Graph.Index.{
  IndexCacheItem, Indices, cache_size, cache_keys, update_found, update_key, update_keys,
  update_index_incr,
}

same_branches : {A : Type 0} (b : Bool) (x : A) → x ≡ (if b then x else x)
same_branches true x = refl
same_branches false x = refl

both_false : (s l : Bool) → (if s then true else l) ≡ false → (s ≡ false) × (l ≡ false)
both_false true l e = cc
both_false false l e = (refl, e)

-- A key that Keys does not list is not in the map.
pub unlisted :
    {A : Type 0} (k : String) (m : List (String × A))
    → is_listed k (map (λ e. e.0) m) ≡ false
    → lookup k m ≡ none
unfolding is_listed lookup
unlisted k [] e = refl
unlisted k ((name, v) ∷ m) e =
    let (a, b) = both_false (str_eq name k) (is_listed k (map (λ e. e.0) m)) e in
    rw a (unlisted k m b)

module _ {V : Type 0} where
  empty_cache :
      (k : String) (m : List (String × IndexCacheItem V))
      → (cache_size m == 0) ≡ true
      → lookup k m ≡ none
  unfolding lookup
  empty_cache k [] e = refl
  empty_cache k (x ∷ m) e = absurd (ground (arith, e))

module _ {V : Type 0} (accepts : GraphItem V → Bool) where
  -- What is indexed under a key after its turn.
  abbrev pub settled :
      Option (IndexCacheItem V) → Option (IndexCacheItem V) → Option (IndexCacheItem V)
  settled none old = old
  settled (some ic) old = if accepts ic.item then some ic else old

  update_found_indexed :
      (key k : String) (st : Indices V) (o : Option (IndexCacheItem V))
      → lookup k (update_found accepts key st o).1.indexed_item_cache ≡ (
          if str_eq key k
          then settled o (lookup k st.indexed_item_cache)
          else lookup k st.indexed_item_cache)
  update_found_indexed key k st none = same_branches (str_eq key k) _
  update_found_indexed key k st (some ic) = elim (Bool-cases (accepts ic.item)) [
    | inl yes_ ↦ rw yes_ (lookup-insert key k ic st.indexed_item_cache)
    | inr no_ ↦ rw no_ (same_branches (str_eq key k) _)
  ]

  update_found_waiting :
      (key k : String) (st : Indices V) (o : Option (IndexCacheItem V))
      → lookup k (update_found accepts key st o).1.un_indexed_item_cache
        ≡ (if str_eq key k then none else lookup k st.un_indexed_item_cache)
  update_found_waiting key k st none = lookup-delete key k st.un_indexed_item_cache
  update_found_waiting key k st (some ic) = lookup-delete key k st.un_indexed_item_cache

  update_key_indexed :
      (key k : String) (st : Indices V)
      → lookup k (update_key accepts key st).1.indexed_item_cache ≡ (
          if str_eq key k
          then settled (lookup k st.un_indexed_item_cache) (lookup k st.indexed_item_cache)
          else lookup k st.indexed_item_cache)
  unfolding update_key
  update_key_indexed key k st =
      update_found_indexed key k st (lookup key st.un_indexed_item_cache)
      ∙ elim (Bool-cases (str_eq key k)) [
        | inl same ↦ rw same (
            ap (λ x. settled (lookup x st.un_indexed_item_cache) (lookup k st.indexed_item_cache))
              ((eq_iff key k).0 same))
        | inr other ↦ rw other
      ]

  -- A turn in front of a run of turns, on what waits and on what is indexed.
  waiting_step :
      (s l : Bool) (w w1 w2 : Option (IndexCacheItem V))
      → w2 ≡ (if l then none else w1)
      → w1 ≡ (if s then none else w)
      → w2 ≡ (if (if s then true else l) then none else w)
  waiting_step true true w w1 w2 e f = e
  waiting_step true false w w1 w2 e f = e ∙ f
  waiting_step false true w w1 w2 e f = e
  waiting_step false false w w1 w2 e f = e ∙ f

  indexed_step :
      (s l : Bool) (w w1 i i1 i2 : Option (IndexCacheItem V))
      → i2 ≡ (if l then settled w1 i1 else i1)
      → i1 ≡ (if s then settled w i else i)
      → w1 ≡ (if s then none else w)
      → i2 ≡ (if (if s then true else l) then settled w i else i)
  indexed_step true true w w1 i i1 i2 e f g = e ∙ ap (λ x. settled x i1) g ∙ f
  indexed_step true false w w1 i i1 i2 e f g = e ∙ f
  indexed_step false true w w1 i i1 i2 e f g = e ∙ ap (λ x. settled x i1) g ∙ ap (settled w) f
  indexed_step false false w w1 i i1 i2 e f g = e ∙ f

  update_key_waiting :
      (key k : String) (st : Indices V)
      → lookup k (update_key accepts key st).1.un_indexed_item_cache
        ≡ (if str_eq key k then none else lookup k st.un_indexed_item_cache)
  unfolding update_key
  update_key_waiting key k st = update_found_waiting key k st (lookup key st.un_indexed_item_cache)

  -- Every listed key is settled and waits no longer; the others are as they were.
  abbrev Moved : List String → Indices V → ℕ × Indices V → Type 0
  Moved keys st r =
      (k : String)
      → (lookup k r.1.un_indexed_item_cache
          ≡ (if is_listed k keys then none else lookup k st.un_indexed_item_cache))
        × (lookup k r.1.indexed_item_cache ≡ (
            if is_listed k keys
            then settled (lookup k st.un_indexed_item_cache) (lookup k st.indexed_item_cache)
            else lookup k st.indexed_item_cache))

  update_keys-Moved :
      (keys : List String) (ret : ℕ) (st : Indices V)
      → Moved keys st (update_keys accepts keys ret st)
  unfolding update_keys is_listed
  update_keys-Moved [] ret st k = (refl, refl)
  update_keys-Moved (key ∷ keys) ret st k =
      let st1 = (update_key accepts key st).1 in
      let (waits, indexed) = update_keys-Moved keys (ret + (update_key accepts key st).0) st1 k in
      (
        waiting_step (str_eq key k) (is_listed k keys) _ _ _ waits (update_key_waiting key k st),
        indexed_step (str_eq key k) (is_listed k keys) _ _ _ _ _ indexed
            (update_key_indexed key k st) (update_key_waiting key k st),
      )

  -- With a connection to the database, the incremental update leaves no counter waiting: each that
  -- waited is indexed with the item that waited, if the database accepts the item, and is dropped
  -- otherwise, with what was indexed before; the index of every other counter is as it was.
  pub update_index_incr_lem :
      (st : Indices V) (k : String)
      → (lookup k (update_index_incr true accepts st).1.un_indexed_item_cache ≡ none)
        × (lookup k (update_index_incr true accepts st).1.indexed_item_cache
            ≡ settled (lookup k st.un_indexed_item_cache) (lookup k st.indexed_item_cache))
  unfolding update_index_incr
  update_index_incr_lem st k = elim (Bool-cases (cache_size st.un_indexed_item_cache == 0)) [
    | inl empty ↦
        let n = empty_cache k st.un_indexed_item_cache empty in
        rw empty (n, ap (λ o. settled o (lookup k st.indexed_item_cache)) (sym n))
    | inr some_key ↦
        let (waits, indexed) = update_keys-Moved (cache_keys st.un_indexed_item_cache) 0 st k in
        rw some_key (elim (Bool-cases (is_listed k (cache_keys st.un_indexed_item_cache))) [
          | inl l ↦ (waits ∙ rw l, indexed ∙ rw l)
          | inr u ↦
              let n = unlisted k st.un_indexed_item_cache u in (waits ∙ rw u n, indexed ∙ rw (u, n))
        ])
  ]
