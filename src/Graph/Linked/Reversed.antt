-- ===== src/Graph/Linked/Reversed.antt =====
-- What goes out of the list of a key, and comes back into it, is the list turned round.
use mathlib.Core.List.{
  reverse, reverse-cons, reverse-append, reverse-reverse, append_assoc, append-nil,
}
use ref_falcon.Prelude.{
  ℕ, zero, suc, ◌≤◌, ◌≡◌, refl, ap, ◌∙◌, subst, List, [], ◌∷◌, ◌++◌, length, length-append,
  get_elem?, take, take_all, some, ok, ◌>>=◌, arith,
}
use ref_falcon.Graph.Linked.{
  SafeLinkedList, last, without_last, pop_loop, pop_all, push_loop, push_all, fetch_loop, fetch_all,
}

module _ {A : Type 0} where
  -- A list that is not empty ends with some item.
  last-snoc :
      (xs : List A) (x : A) → (last (xs ++ x ∷ []) ≡ some x) × (without_last (xs ++ x ∷ []) ≡ xs)
  last-snoc [] x = (refl, refl)
  last-snoc (y ∷ []) x = (refl, refl)
  last-snoc (y ∷ z ∷ xs) x = (let (a, b) = last-snoc (z ∷ xs) x in (a, ap (◌∷◌ y) b))

  pop_loop_rev : (r ret : List A) → pop_loop (length r) ret (reverse r) ≡ ok (ret ++ r, [])
  unfolding pop_loop
  pop_loop_rev [] ret = rw (append-nil ret)
  pop_loop_rev (x ∷ r) ret =
      let (e, w) = last-snoc (reverse r) x in
      rw (
        pop_loop,
        reverse-cons x r,
        e,
        w,
        pop_loop_rev r (ret ++ x ∷ []),
        append_assoc ret (x ∷ []) r,
      )

  fetch_step :
      (i : ℕ) (ret l : List A) (p : A)
      → last l ≡ some p
      → fetch_loop (suc i) ret l ≡ fetch_loop i (ret ++ p ∷ []) (without_last l)
  unfolding fetch_loop
  fetch_step i ret l p e = rw (e, fetch_loop)

  fetch_loop_rev : (r ret : List A) → fetch_loop (length r) ret (reverse r) ≡ ret ++ r
  unfolding fetch_loop
  fetch_loop_rev [] ret = rw (append-nil ret)
  fetch_loop_rev (x ∷ r) ret =
      let (e, w) = last-snoc (reverse r) x in
      ap (fetch_loop (suc (length r)) ret) (reverse-cons x r)
      ∙ fetch_step (length r) ret (reverse r ++ x ∷ []) x e
      ∙ ap (fetch_loop (length r) (ret ++ x ∷ [])) w
      ∙ fetch_loop_rev r (ret ++ x ∷ [])
      ∙ append_assoc ret (x ∷ []) r

  pub length-reverse : (xs : List A) → length (reverse xs) ≡ length xs
  length-reverse [] = refl
  length-reverse (x ∷ xs) =
      ap length (reverse-cons x xs)
      ∙ length-append (reverse xs) (x ∷ [])
      ∙ omega (arith, length-reverse xs)

  -- PopAll gives the items from the oldest to the newest, and leaves none.
  pub pop_all_lem :
      (sl : SafeLinkedList A) → pop_all sl ≡ ok (reverse sl.items, record sl { items = [] })
  unfolding pop_all
  pop_all_lem sl =
      let popped = pop_loop_rev (reverse sl.items) [] in
      let looped : pop_loop (length sl.items) [] sl.items ≡ ok (reverse sl.items, []) =
        subst (λ n. pop_loop n [] sl.items ≡ ok (reverse sl.items, [])) (length-reverse sl.items)
          (subst (λ l. pop_loop (length (reverse sl.items)) [] l ≡ ok (reverse sl.items, []))
            (reverse-reverse sl.items) popped) in
      ap (λ m. m >>= λ r. ok (r.0, record sl { items = r.1 })) looped

  -- FetchAll gives the same items and the flag, and leaves them there.
  pub fetch_all_lem : (sl : SafeLinkedList A) → fetch_all sl ≡ (reverse sl.items, sl.flag)
  unfolding fetch_all
  fetch_all_lem sl =
      let looped : fetch_loop (length sl.items) [] sl.items ≡ reverse sl.items =
        subst (λ n. fetch_loop n [] sl.items ≡ reverse sl.items) (length-reverse sl.items)
          (subst (λ l. fetch_loop (length (reverse sl.items)) [] l ≡ reverse sl.items)
            (reverse-reverse sl.items) (fetch_loop_rev (reverse sl.items) [])) in
      ap (λ r. (r, sl.flag)) looped

  take-snoc :
      (i : ℕ) (xs : List A)
      → suc i ≤ length xs
      → (x : A) × (get_elem? xs i ≡ some x) × (take (suc i) xs ≡ take i xs ++ x ∷ [])
  take-snoc i [] h = absurd (omega arith)
  take-snoc zero (x ∷ xs) h = (x, refl, refl)
  take-snoc (suc i) (x ∷ xs) h =
      let (y, found, e) = take-snoc i xs (omega arith) in (y, found, ap (◌∷◌ x) e)

  push_loop_lem :
      (i : ℕ) (items l : List A)
      → i ≤ length items
      → push_loop i items l ≡ ok (l ++ reverse (take i items))
  unfolding push_loop
  push_loop_lem zero items l h = rw (append-nil l)
  push_loop_lem (suc i) items l h =
      let (x, found, e) = take-snoc i items h in
      rw (
        push_loop,
        found,
        push_loop_lem i items (l ++ x ∷ []) (omega arith),
        append_assoc l (x ∷ []) (reverse (take i items)),
        e,
        reverse-append (take i items) (x ∷ []),
      )

  pub push_all_lem :
      (items : List A) (sl : SafeLinkedList A)
      → push_all items sl ≡ ok (record sl { items = sl.items ++ reverse items })
  unfolding push_all
  push_all_lem items sl = rw (
    push_loop_lem (length items) items sl.items (omega arith),
    take_all (length items) items (omega arith),
  )

  -- What PopAll took out, PushAll puts back as it was; between them the items that arrived stay
  -- in front of those that were put back.
  pub push_all-pop_all :
      (arrived : List A) (sl : SafeLinkedList A)
      → (pop_all sl >>= λ r. push_all r.0 (record r.1 { items = arrived }))
        ≡ ok (record sl { items = arrived ++ sl.items })
  push_all-pop_all arrived sl = rw (
    pop_all_lem sl,
    push_all_lem (reverse sl.items) (record sl { items = arrived }),
    reverse-reverse sl.items,
  )
