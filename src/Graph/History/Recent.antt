-- ===== src/Graph/History/Recent.antt =====
-- The history of a counter is the latest three of the items that were newer than all before them.
use ref_falcon.Prelude.{
  ℕ, zero, suc, ◌≡◌, refl, sym, ap, subst, inl, inr, true, List, [], ◌∷◌, take, map, get_elem?,
  Option, none, some, if◌then◌else◌, Bool-cases, Option-cases,
}
use ref_falcon.Prelude.Int.{◌<ℤ◌, ltb_ℤ→lt}
use ref_falcon.Prelude.Text.{String, str_eq, lookup, lookup-insert}
use ref_falcon.Transfer.Types.{GraphItem}
use ref_falcon.Graph.History.{
  Histories, present_items, get_all_items, list_of, is_latest, add_history_item,
}

-- Strictly falling times, the newest item in front.
abbrev pub Falling : {V : Type 0} → List (GraphItem V) → Type 0
Falling [] = Unit {0}
Falling (x ∷ []) = Unit {0}
Falling (x ∷ y ∷ l) = (y.timestamp <ℤ x.timestamp) × Falling (y ∷ l)

-- The documented behaviour of a limited list: `all` is what it holds, the newest in front.
pub record Lawful {V : Type 0} (h : Histories V) (all : h.Queue → List (GraphItem V)) : Type 0 where
  pub holds : (q : h.Queue) → h.front_all q ≡ map some (all q)
  pub in_front : (q : h.Queue) → h.front q ≡ get_elem? (all q) 0
  pub fresh : (n : ℕ) → all (h.new_list n) ≡ []
  pub room : h.Queue → ℕ
  pub push :
      (v : GraphItem V) (q : h.Queue) → all (h.push_front_violently v q) ≡ v ∷ take (room q) (all q)

module _ {V : Type 0} where
  Falling-take : (n : ℕ) (l : List (GraphItem V)) → Falling l → Falling (take n l)
  Falling-take zero l f = tt
  Falling-take (suc n) [] f = tt
  Falling-take (suc zero) (x ∷ l) f = tt
  Falling-take (suc (suc n)) (x ∷ []) f = tt
  Falling-take (suc (suc n)) (x ∷ y ∷ l) f = (f.0, Falling-take (suc n) (y ∷ l) f.1)

  pub Falling-cons :
      (v : GraphItem V) (l : List (GraphItem V))
      → is_latest (get_elem? l 0) v ≡ true
      → Falling l
      → Falling (v ∷ l)
  Falling-cons v [] e f = tt
  Falling-cons v (x ∷ l) e f = (ltb_ℤ→lt x.timestamp v.timestamp e, f)

  -- A pushed item that is newer than the first keeps the times falling, however many stay.
  Falling-push :
      (n : ℕ) (v : GraphItem V) (l : List (GraphItem V))
      → is_latest (get_elem? l 0) v ≡ true
      → Falling l
      → Falling (v ∷ take n l)
  Falling-push n v l e f = Falling-take (suc n) (v ∷ l) (Falling-cons v l e f)

  present_items-map : (l : List (GraphItem V)) → present_items (map some l) ≡ l
  unfolding present_items
  present_items-map [] = refl
  present_items-map (x ∷ l) = ap (◌∷◌ x) (present_items-map l)

module _ {V : Type 0} (h : Histories V) (all : h.Queue → List (GraphItem V))
    (law : Lawful h all) where
  abbrev FallingAt : Option h.Queue → Type 0
  FallingAt none = Unit {0}
  FallingAt (some q) = Falling (all q)

  -- The items of every counter have strictly falling times.
  abbrev pub AllFalling : List (String × h.Queue) → Type 0
  AllFalling m = (k : String) → FallingAt (lookup k m)

  list_of-Falling : (o : Option h.Queue) → FallingAt o → Falling (all (list_of h o))
  list_of-Falling none f = rw (law.fresh 3) tt
  list_of-Falling (some q) f = f

  pub add_history_item-AllFalling :
      (key : String) (v : GraphItem V) (m : List (String × h.Queue))
      → AllFalling m
      → AllFalling (add_history_item h key v m)
  unfolding add_history_item
  add_history_item-AllFalling key v m f k =
      let slist = list_of h (lookup key m) in
      let old = list_of-Falling (lookup key m) (f key) in
      let next = if is_latest (h.front slist) v then h.push_front_violently v slist else slist in
      let new : Falling (all next) = elim (Bool-cases (is_latest (h.front slist) v)) [
        | inl latest ↦
            rw (latest, law.push v slist)
              (Falling-push (law.room slist) v (all slist)
                (subst (λ o. is_latest o v ≡ true) (law.in_front slist) latest) old)
        | inr late ↦ rw late old
      ] in
      subst FallingAt (sym (lookup-insert key k next m))
        (elim (Bool-cases (str_eq key k)) [ inl same ↦ rw same new | inr other ↦ rw other (f k) ])

  pub get_all_items-Falling :
      (k : String) (m : List (String × h.Queue)) → AllFalling m → Falling (get_all_items h k m)
  unfolding get_all_items
  get_all_items-Falling k m f = elim (Option-cases (lookup k m)) [
    | inl n ↦ rw (get_all_items, n) tt
    | inr (q, e) ↦
        rw (get_all_items, e, law.holds q, present_items-map (all q)) (subst FallingAt e (f k))
  ]
