-- ===== src/Judge/Window/Push.antt =====
-- What `PushFrontAndMaintain` does to the list.
use ref_falcon.Prelude.{
  ℕ, zero, suc, ◌+◌, ◌≤◌, ◌≡◌, refl, sym, true, false, List, [], ◌∷◌, length, take, arith, ok,
  Returns, Bool-cases, inl, inr, length-take, take-take, take_all, ◌⊎◌, ap, ◌∙◌,
}
use ref_falcon.Prelude.Int.{ℤ, pos, pos_part, ◌<ℤ◌, ◌-ℤ◌, int_laws, leb_ℤ, leb_ℤ→lt}
use ref_falcon.Judge.Types.{JudgeItem}
use ref_falcon.Judge.Window.{remove_back, remove_backs, is_stale, push_front_and_maintain}

module _ {V : Type 0} where
  remove_back-take :
      (x : JudgeItem V) (l : List (JudgeItem V))
      → remove_back (x ∷ l) ≡ ok (take (length l) (x ∷ l))
  unfolding remove_back
  remove_back-take x [] = refl
  remove_back-take x (y ∷ l) = rw (remove_back-take y l)

  remove_backs-take :
      (d n : ℕ) (l : List (JudgeItem V)) → d + n ≡ length l → remove_backs d l ≡ ok (take n l)
  unfolding remove_backs
  remove_backs-take zero n l e = ap ok (sym (take_all n l (omega arith)))
  remove_backs-take (suc d) n [] e = absurd (omega arith)
  remove_backs-take (suc d) n (x ∷ l) e = rw (remove_back-take x l) (
      remove_backs-take d n (take (length l) (x ∷ l))
        (omega (arith, length-take (length l) (x ∷ l)))
      ∙ ap ok (take-take n (length l) (x ∷ l) (omega arith)))

  -- Every time in the list is below the one before it.
  abbrev pub NewerThan : JudgeItem V → List (JudgeItem V) → Type 0
  NewerThan v [] = Unit {0}
  NewerThan v (x ∷ l) = x.timestamp <ℤ v.timestamp

  abbrev pub Descending : List (JudgeItem V) → Type 0
  Descending [] = Unit {0}
  Descending (x ∷ l) = NewerThan x l × Descending l

  -- The first item of a counter is taken whatever its time is.
  abbrev pub Accepts : List (JudgeItem V) → JudgeItem V → Type 0
  Accepts [] v = Unit {0}
  Accepts (x ∷ l) v = (x.timestamp <ℤ v.timestamp) × (pos 0 <ℤ v.timestamp)

  take-Descending : (n : ℕ) (l : List (JudgeItem V)) → Descending l → Descending (take n l)
  take-Descending zero l d = tt
  take-Descending (suc n) [] d = tt
  take-Descending (suc zero) (x ∷ l) d = (tt, tt)
  take-Descending (suc (suc n)) (x ∷ []) d = (tt, tt)
  take-Descending (suc (suc n)) (x ∷ y ∷ l) d = (d.0, take-Descending (suc n) (y ∷ l) d.1)

  Accepts-is_stale :
      (l : List (JudgeItem V)) (v : JudgeItem V)
      → (is_stale v l ≡ false) × Accepts l v ⊎ (is_stale v l ≡ true) × (Accepts l v → ⊥)
  unfolding is_stale
  Accepts-is_stale [] v = inl (refl, tt)
  Accepts-is_stale (x ∷ l) v = ground arith

  push-stale :
      (l : List (JudgeItem V)) (v : JudgeItem V) (max : ℤ)
      → is_stale v l ≡ true
      → push_front_and_maintain l v max ≡ ok (false, l)
  unfolding push_front_and_maintain
  push-stale l v max h = rw h

  push-fresh :
      (l : List (JudgeItem V)) (v : JudgeItem V) (n : ℕ)
      → is_stale v l ≡ false
      → push_front_and_maintain l v (pos n) ≡ ok (true, take n (v ∷ l))
  unfolding push_front_and_maintain
  push-fresh l v n h = elim (Bool-cases (leb_ℤ (pos (suc (length l))) (pos n))) [
    | inl fits ↦ rw (h, fits) (ap (λ r. ok (true, r)) (sym (take_all n (v ∷ l) (ground arith))))
    | inr over ↦ rw (
      h,
      over,
      remove_backs-take (pos_part (pos (suc (length l)) -ℤ pos n)) n (v ∷ l)
          (omega (int_laws, leb_ℤ→lt (pos (suc (length l))) (pos n) over)),
    )
  ]

  -- A new item is taken exactly when the list is empty, or its time is positive and after the
  -- newest one; then the list is its first maxCount elements with the item in front, and the
  -- counter has to be judged. Otherwise the list stays as it is.
  pub push_front_and_maintain_lem :
      (l : List (JudgeItem V)) (v : JudgeItem V) (n : ℕ)
      → (Accepts l v × (push_front_and_maintain l v (pos n) ≡ ok (true, take n (v ∷ l))))
        ⊎ ((¬ Accepts l v) × (push_front_and_maintain l v (pos n) ≡ ok (false, l)))
  push_front_and_maintain_lem l v n = elim (Accepts-is_stale l v) [
    | inl (fresh, a) ↦ inl (a, push-fresh l v n fresh)
    | inr (stale, refused) ↦ inr (refused, push-stale l v (pos n) stale)
  ]

  -- Newest first with strictly falling times, and no longer than the limit.
  pub record IsWindow (n : ℕ) (l : List (JudgeItem V)) : Type 0 where
    pub descending : Descending l
    pub bounded : length l ≤ n

  Accepts-NewerThan : (l : List (JudgeItem V)) (v : JudgeItem V) → Accepts l v → NewerThan v l
  Accepts-NewerThan [] v a = tt
  Accepts-NewerThan (x ∷ l) v a = a.0

  -- A push on a well-formed list returns, and the list that it leaves is well-formed.
  pub push_front_and_maintain-IsWindow :
      (l : List (JudgeItem V)) (v : JudgeItem V) (n : ℕ)
      → IsWindow n l
      → Returns (λ r. IsWindow n r.1) (push_front_and_maintain l v (pos n))
  push_front_and_maintain-IsWindow l v n w = elim (Accepts-is_stale l v) [
    | inl (fresh, a) ↦ rw (push-fresh l v n fresh) (record {
      descending = take-Descending n (v ∷ l) (Accepts-NewerThan l v a, w.descending);
      bounded = omega (arith, length-take n (v ∷ l));
    })
    | inr (stale, _) ↦ rw (push-stale l v (pos n) stale) w
  ]
