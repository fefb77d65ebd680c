-- ===== src/Nodata/Sending/Batches.antt =====
-- The batches of sendMock.
use ref_falcon.Prelude.{
  ℕ, zero, suc, ◌+◌, ◌-◌, ◌≤◌, ◌≡◌, refl, sym, ap, ◌∙◌, List, [], ◌∷◌, ◌++◌, length, take, drop,
  length-take, Option, none, some, arith, Bool-cases, inl, inr,
}
use ref_falcon.Prelude.Int.{pos, ltb_ℤ, ltb_ℤ→lt, ltb_ℤ→le}
use ref_falcon.Nodata.Sending.{
  items_of, send_size, Sent, add_post, Loop, done, bad_slice, running, send_loop, send_mock,
}

abbrev pub joined : {A : Type 0} → List (List A) → List A
joined [] = []
joined (xs ∷ xss) = xs ++ joined xss

-- No post is larger than a batch.
abbrev pub AtMost : {A : Type 0} → ℕ → List (List A) → Type 0
AtMost n [] = Unit {0}
AtMost n (xs ∷ xss) = (length xs ≤ n) × AtMost n xss

-- The number of items that the posts were taken for.
abbrev pub total : {A : Type 0} → (List A → ℕ) → List (List A) → ℕ
total post [] = 0
total post (xs ∷ xss) = post xs + total post xss

abbrev pub Ends : {A : Type 0} → (Sent A → Type 0) → Loop A → Type 0
Ends P (done sent) = P sent
Ends P bad_slice = ⊥
Ends P (running sent) = ⊥

send_size_lem :
    (b l : ℕ)
    → (s : ℕ) × (send_size (pos (suc b)) (suc l) ≡ pos (suc s)) × (suc s ≤ suc b) × (suc s ≤ suc l)
send_size_lem b l = elim (Bool-cases (ltb_ℤ (pos (suc l)) (pos (suc b)))) [
  | inl less ↦ (l, rw less, omega (arith, ltb_ℤ→lt (pos (suc l)) (pos (suc b)) less), omega arith)
  | inr more ↦ (b, rw more, omega arith, omega (arith, ltb_ℤ→le (pos (suc l)) (pos (suc b)) more))
]

module _ {A : Type 0} where
  ++_assoc : (xs ys zs : List A) → (xs ++ ys) ++ zs ≡ xs ++ (ys ++ zs)
  ++_assoc [] ys zs = refl
  ++_assoc (x ∷ xs) ys zs = ap (◌∷◌ x) (++_assoc xs ys zs)

  ++_nil : (xs : List A) → xs ++ [] ≡ xs
  ++_nil [] = refl
  ++_nil (x ∷ xs) = ap (◌∷◌ x) (++_nil xs)

  joined-append : (xss : List (List A)) (xs : List A) → joined (xss ++ xs ∷ []) ≡ joined xss ++ xs
  joined-append [] xs = ++_nil xs
  joined-append (ys ∷ xss) xs =
      ap (◌++◌ ys) (joined-append xss xs) ∙ sym (++_assoc ys (joined xss) xs)

  AtMost-append :
      (n : ℕ) (xss : List (List A)) (xs : List A)
      → AtMost n xss
      → length xs ≤ n
      → AtMost n (xss ++ xs ∷ [])
  AtMost-append n [] xs a h = (h, tt)
  AtMost-append n (ys ∷ xss) xs a h = (a.0, AtMost-append n xss xs a.1 h)

  total-append :
      (post : List A → ℕ) (xss : List (List A)) (xs : List A)
      → total post (xss ++ xs ∷ []) ≡ total post xss + post xs
  total-append post [] xs = omega arith
  total-append post (ys ∷ xss) xs = omega (arith, total-append post xss xs)

  items_of-split :
      (n : ℕ) (mocks : List (Option A))
      → items_of (take n mocks) ++ items_of (drop n mocks) ≡ items_of mocks
  unfolding items_of
  items_of-split zero mocks = refl
  items_of-split (suc n) [] = refl
  items_of-split (suc n) (none ∷ mocks) = items_of-split n mocks
  items_of-split (suc n) (some m ∷ mocks) = ap (◌∷◌ m) (items_of-split n mocks)

  length-items_of : (mocks : List (Option A)) → length (items_of mocks) ≤ length mocks
  unfolding items_of
  length-items_of [] = omega arith
  length-items_of (none ∷ mocks) = omega (arith, length-items_of mocks)
  length-items_of (some m ∷ mocks) = omega (arith, length-items_of mocks)

  length-drop : (n : ℕ) (mocks : List (Option A)) → length (drop n mocks) ≡ length mocks - n
  length-drop zero mocks = omega arith
  length-drop (suc n) [] = omega arith
  length-drop (suc n) (m ∷ mocks) = omega (arith, length-drop n mocks)

  ended : (xs all : List A) → xs ++ items_of [] ≡ all → xs ++ [] ≡ all
  unfolding items_of
  ended xs all e = e

  module _ (post : List A → ℕ) (b : ℕ) where
    -- What is posted and what is left make up the whole.
    pub record Whole (all : List A) (sent : Sent A) : Type 0 where
      pub complete : joined sent.posts ≡ all
      pub bounded : AtMost (suc b) sent.posts
      pub counted : sent.cnt ≡ total post sent.posts

    send_loop-Whole :
        (all : List A) (fuel : ℕ) (mocks : List (Option A)) (sent : Sent A)
        → length mocks ≤ fuel
        → joined sent.posts ++ items_of mocks ≡ all
        → AtMost (suc b) sent.posts
        → sent.cnt ≡ total post sent.posts
        → Ends (Whole all) (send_loop post (pos (suc b)) fuel mocks sent)
    unfolding send_loop
    send_loop-Whole all fuel [] sent f j a c = record {
      complete = sym (++_nil (joined sent.posts)) ∙ ended (joined sent.posts) all j;
      bounded = a;
      counted = c;
    }
    send_loop-Whole all zero (m ∷ mocks) sent f j a c = absurd (omega arith)
    send_loop-Whole all (suc fuel) (m ∷ mocks) sent f j a c =
        let (s, e, small, within) = send_size_lem b (length mocks) in
        let now = take (suc s) (m ∷ mocks) in
        let later = drop (suc s) (m ∷ mocks) in
        rw (e, send_loop)
          (send_loop-Whole all fuel later (add_post post (items_of now) sent)
            (omega (arith, length-drop s mocks))
            (rw (joined-append sent.posts (items_of now)) (
              ++_assoc (joined sent.posts) (items_of now) (items_of later)
              ∙ ap (◌++◌ (joined sent.posts)) (items_of-split (suc s) (m ∷ mocks))
              ∙ j))
            (AtMost-append (suc b) sent.posts (items_of now) a
              (omega (arith, length-items_of now, length-take (suc s) (m ∷ mocks), small)))
            (omega (arith, c, total-append post sent.posts (items_of now))))

    -- With a batch of at least 1 `sendMock` ends: the requests hold every mock once, in order and
    -- none longer than a batch, and the count is what the posts were taken for.
    pub send_mock-Whole :
        (mocks : List (Option A))
        → Ends (Whole (items_of mocks)) (send_mock post (pos (suc b)) mocks)
    unfolding send_mock
    send_mock-Whole mocks =
        send_loop-Whole (items_of mocks) (length mocks) mocks (record { posts = []; cnt = 0 })
          (omega arith) refl tt refl

no_size : (l : ℕ) → send_size (pos 0) (suc l) ≡ pos 0
no_size l = ground arith

-- With a batch of 0 the loop never ends on a list that is not empty, however long it runs.
pub send_loop-stuck :
    {A : Type 0} (post : List A → ℕ) (fuel : ℕ) (m : Option A) (mocks : List (Option A))
    (sent : Sent A)
    → (last : Sent A) × (send_loop post (pos 0) fuel (m ∷ mocks) sent ≡ running last)
unfolding send_loop items_of
send_loop-stuck post zero m mocks sent = (sent, refl)
send_loop-stuck post (suc fuel) m mocks sent =
    rw (no_size (length mocks), send_loop, items_of)
      (send_loop-stuck post fuel m mocks (add_post post [] sent))
