-- ===== src/Aggregator/Workers/Updated.antt =====
-- The workers that an update leaves: one for every item with a positive step, the known ones untouched.
use ref_falcon.Prelude.{
  ◌≡◌, refl, sym, ◌∙◌, subst, Bool, true, false, ◌||◌, List, [], ◌∷◌, Option, none, some,
  if◌then◌else◌, ok, ◌>>=◌, Returns, Returns-map, Returns-bind, Bool-cases, Option-cases, inl, inr,
  arith,
}
use ref_falcon.Prelude.Int.{ℤ, pos, leb_ℤ, wrap64, ◌*ℤ◌}
use ref_falcon.Prelude.Text.{
  String, str_eq, eq_iff, lookup, insert, delete, lookup-insert, lookup-delete,
}
use ref_falcon.Aggregator.Run.{Cluster}
use ref_falcon.Aggregator.Workers.{
  Worker, new_worker, no_use, delete_keys, delete_no_use_worker, create_one, create_worker_if_need,
  update_items,
}

abbrev pub Items : Type 0
Items = List (String × Cluster)

-- A Go map has one entry for a key.
abbrev pub OneEach : Items → Type 0
OneEach [] = Unit {0}
OneEach ((k, x) ∷ m) = (lookup k m ≡ none) × OneEach m

listed : String → List String → Bool
listed k [] = false
listed k (x ∷ xs) = let rest = listed k xs in str_eq x k || rest

lookup-delete_keys :
    (k : String) (del : List String) (ws : List (String × Worker))
    → lookup k (delete_keys del ws) ≡ (if listed k del then none else lookup k ws)
unfolding delete_keys listed
lookup-delete_keys k [] ws = refl
lookup-delete_keys k (x ∷ del) ws =
    lookup-delete_keys k del (delete x ws)
    ∙ rw (lookup-delete x k ws) (if_or (str_eq x k) (listed k del) (lookup k ws))
  where
    if_or :
        (b c : Bool) (r : Option Worker)
        → (if c then none else if b then none else r) ≡ (if b || c then none else r)
    if_or true true r = refl
    if_or true false r = refl
    if_or false true r = refl
    if_or false false r = refl

-- Those that an item has under their key.
abbrev pub in_use : Option Cluster → Option Worker → Option Worker
in_use none w = none
in_use (some item) w = w

listed_not :
    (m : Items) (k : String) (ws : List (String × Worker))
    → lookup k m ≡ none
    → (if listed k (no_use m ws) then none else lookup k ws) ≡ none
unfolding no_use listed lookup
listed_not m k [] h = refl
listed_not m k ((key, w) ∷ ws) h =
    let tail = listed_not m k ws h in ground (arith, tail, h, eq_iff key k)

not_listed :
    (m : Items) (item : Cluster) (k : String) (ws : List (String × Worker))
    → lookup k m ≡ some item
    → listed k (no_use m ws) ≡ false
unfolding no_use listed
not_listed m item k [] h = refl
not_listed m item k ((key, w) ∷ ws) h =
    let tail = not_listed m item k ws h in ground (arith, tail, h, eq_iff key k)

lookup-delete_no_use :
    (m : Items) (k : String) (ws : List (String × Worker))
    → lookup k (delete_no_use_worker m ws) ≡ in_use (lookup k m) (lookup k ws)
unfolding delete_no_use_worker
lookup-delete_no_use m k ws =
    lookup-delete_keys k (no_use m ws) ws ∙ (elim (Option-cases (lookup k m)) [
      | inl absent ↦ listed_not m k ws absent ∙ rw absent
      | inr (item, found) ↦ rw (not_listed m item k ws found, found)
    ])

-- A step that a ticker can run at: not above 2^63 nanoseconds.
abbrev pub Ticks : Items → Type 0
Ticks [] = Unit {0}
Ticks ((k, item) ∷ m) =
    (wrap64 (item.step *ℤ pos 1000000000) ≡ item.step *ℤ pos 1000000000) × Ticks m

abbrev pub worker_of_item : Cluster → Worker
worker_of_item item = record { ticker = item.step *ℤ pos 1000000000; cluster_item = item }

-- What stands under a key after an update, from the item and the worker that stand under it before.
abbrev pub updated : Option Cluster → Option Worker → Option Worker
updated none w = w
updated (some item) (some w) = some w
updated (some item) none = if leb_ℤ item.step (pos 0) then none else some (worker_of_item item)

positive_tick : (s : ℤ) → leb_ℤ s (pos 0) ≡ false → leb_ℤ (s *ℤ pos 1000000000) (pos 0) ≡ false
unfolding ◌*ℤ◌
positive_tick s h = ground arith

-- One entry is brought in line, and no other changes.
abbrev After : String → Cluster → List (String × Worker) → List (String × Worker) → Type 0
After key item ws ws' =
    (k : String)
    → lookup k ws' ≡ (if str_eq key k then updated (some item) (lookup k ws) else lookup k ws)

known :
    (key k : String) (item : Cluster) (ws : List (String × Worker)) (o : Option Worker)
    → lookup key ws ≡ o
    → updated (some item) o ≡ o
    → lookup k ws ≡ (if str_eq key k then updated (some item) (lookup k ws) else lookup k ws)
known key k item ws o h u = elim (Bool-cases (str_eq key k)) [
  | inl same ↦
      let here : lookup k ws ≡ o = subst (λ x. lookup x ws ≡ o) ((eq_iff key k).0 same) h in
      rw (same, here, u)
  | inr other ↦ rw other
]

new_worker_lem :
    (item : Cluster)
    → wrap64 (item.step *ℤ pos 1000000000) ≡ item.step *ℤ pos 1000000000
    → leb_ℤ item.step (pos 0) ≡ false
    → new_worker item ≡ ok (worker_of_item item)
unfolding new_worker
new_worker_lem item fits runs = rw (fits, positive_tick item.step runs)

started :
    (key k : String) (item : Cluster) (ws : List (String × Worker))
    → lookup key ws ≡ none
    → leb_ℤ item.step (pos 0) ≡ false
    → lookup k (insert key (worker_of_item item) ws)
      ≡ (if str_eq key k then updated (some item) (lookup k ws) else lookup k ws)
started key k item ws absent runs = elim (Bool-cases (str_eq key k)) [
  | inl same ↦
      let here : lookup k ws ≡ none =
        subst (λ x. lookup x ws ≡ none) ((eq_iff key k).0 same) absent in
      rw (lookup-insert key k (worker_of_item item) ws, same, here, runs)
  | inr other ↦ rw (lookup-insert key k (worker_of_item item) ws, other)
]

create_one-After :
    (key : String) (item : Cluster) (ws : List (String × Worker))
    → wrap64 (item.step *ℤ pos 1000000000) ≡ item.step *ℤ pos 1000000000
    → Returns (After key item ws) (create_one (lookup key ws) key item ws)
unfolding create_one
create_one-After key item ws fits = elim (Option-cases (lookup key ws)) [
  | inr (w, found) ↦
      subst (λ o. Returns (After key item ws) (create_one o key item ws)) (sym found)
        (λ k. known key k item ws (some w) found refl)
  | inl absent ↦
      let create = new_worker item >>= λ worker. ok (insert key worker ws) in
      subst (λ o. Returns (After key item ws) (create_one o key item ws)) (sym absent)
        (elim (Bool-cases (leb_ℤ item.step (pos 0))) [
          | inl still ↦
              subst (λ b. Returns (After key item ws) (if b then ok ws else create)) (sym still)
                (λ k. known key k item ws none absent (rw still))
          | inr runs ↦
              subst (λ b. Returns (After key item ws) (if b then ok ws else create)) (sym runs)
                (subst
                  (λ m. Returns (After key item ws) (m >>= λ worker. ok (insert key worker ws)))
                  (sym (new_worker_lem item fits runs)) (λ k. started key k item ws absent runs))
        ])
]

create-Updated :
    (m : Items) (ws : List (String × Worker))
    → OneEach m
    → Ticks m
    → Returns
        (λ ws'. (k : String) → lookup k ws' ≡ updated (lookup k m) (lookup k ws))
        (create_worker_if_need m ws)
unfolding create_worker_if_need lookup
create-Updated [] ws once ticks = λ k. refl
create-Updated ((key, item) ∷ m) ws once ticks =
    Returns-bind (After key item ws)
      (λ ws'. (k : String) → lookup k ws' ≡ updated (lookup k ((key, item) ∷ m)) (lookup k ws))
      (create_one (lookup key ws) key item ws) (create_worker_if_need m)
      (create_one-After key item ws ticks.0)
      (λ ws1 after.
        Returns-map (λ ws'. (k : String) → lookup k ws' ≡ updated (lookup k m) (lookup k ws1))
          (λ ws'. (k : String) → lookup k ws' ≡ updated (lookup k ((key, item) ∷ m)) (lookup k ws))
          (create_worker_if_need m ws1)
          (λ ws' h k. h k ∙ joined key k item m ws ws1 once.0 (after k))
          (create-Updated m ws1 once.1 ticks.1))
  where
    joined :
        (key k : String) (item : Cluster) (m : Items) (ws ws1 : List (String × Worker))
        → lookup key m ≡ none
        → lookup k ws1 ≡ (if str_eq key k then updated (some item) (lookup k ws) else lookup k ws)
        → updated (lookup k m) (lookup k ws1)
          ≡ updated (if str_eq key k then some item else lookup k m) (lookup k ws)
    joined key k item m ws ws1 fresh after = elim (Bool-cases (str_eq key k)) [
      | inl same ↦
          let gone : lookup k m ≡ none =
            subst (λ x. lookup x m ≡ none) ((eq_iff key k).0 same) fresh in
          rw (after, same, gone)
      | inr other ↦ rw (after, other)
    ]

-- On a map of items with one entry for a key, whose steps a ticker can count in nanoseconds,
-- updateItems returns, and then a key has a worker exactly if it has an item that had a worker
-- before or has a positive step. A worker that was there is kept as it was; a new one ticks every
-- step seconds for the item; a worker without an item is gone. On an error of the database no
-- worker changes.
pub update_items_lem :
    (items : Items) (ws : List (String × Worker))
    → OneEach items
    → Ticks items
    → Returns
        (λ ws'.
          (k : String)
          → lookup k ws' ≡ updated (lookup k items) (in_use (lookup k items) (lookup k ws)))
        (update_items (some items) ws)
      × (update_items none ws ≡ ok ws)
unfolding update_items
update_items_lem items ws once ticks = (
  Returns-map
      (λ ws'.
        (k : String)
        → lookup k ws' ≡ updated (lookup k items) (lookup k (delete_no_use_worker items ws)))
      (λ ws'.
        (k : String)
        → lookup k ws' ≡ updated (lookup k items) (in_use (lookup k items) (lookup k ws)))
      (create_worker_if_need items (delete_no_use_worker items ws))
      (λ ws' h k. h k ∙ rw (lookup-delete_no_use items k ws))
      (create-Updated items (delete_no_use_worker items ws) once ticks),
  refl,
)
