-- ===== src/Nodata/Sending.antt =====
-- nodata/sender/sender.go, sendMock: the made-up values go to transfer in batches. What the post of
-- one batch does is a parameter.
pub mod Batches
use ref_falcon.Prelude.{
  ℕ, zero, suc, ◌+◌, ◌-◌, List, [], ◌∷◌, ◌++◌, length, take, drop, Option, none, some,
  if◌then◌else◌,
}
use ref_falcon.Prelude.Int.{ℤ, pos, negsuc, ltb_ℤ}

-- Elements of MockMap may be nil, and are left out of the request.
unfoldable pub items_of : {A : Type 0} → List (Option A) → List A
items_of [] = []
items_of (none ∷ vals) = items_of vals
items_of (some val ∷ vals) = val ∷ items_of vals

-- `sendSize`: the batch, or what is left.
abbrev pub send_size : ℤ → ℕ → ℤ
send_size batch left = if ltb_ℤ (pos left) batch then pos left else batch

-- What the loop has posted, latest last, and `cnt`.
pub record Sent (A : Type 0) : Type 0 where
  pub posts : List (List A)
  pub cnt : ℕ

-- The requests that the loop makes, given the number of items that each was taken for (0 if the
-- post failed).
abbrev pub add_post : {A : Type 0} → (List A → ℕ) → List A → Sent A → Sent A
add_post post items sent = record { posts = sent.posts ++ items ∷ []; cnt = sent.cnt + post items }

-- How the loop ends.
pub data Loop (A : Type 0) : Type 0 where
  done : Sent A → Loop A
  -- `mocks[i : i+sendSize]` with a negative size.
  bad_slice : Loop A
  -- The fuel did not last.
  running : Sent A → Loop A

module _ {A : Type 0} (post : List A → ℕ) (batch : ℤ) where
  -- The loop, over the mocks from i on.
  unfoldable pub send_loop : ℕ → List (Option A) → Sent A → Loop A
  unfolding items_of
  send_loop fuel [] sent = done sent
  send_loop zero (m ∷ mocks) sent = running sent
  send_loop (suc fuel) (m ∷ mocks) sent = elim (send_size batch (length (m ∷ mocks))) [
    | pos size ↦
        send_loop fuel (drop size (m ∷ mocks))
          (add_post post (items_of (take size (m ∷ mocks))) sent)
    | negsuc n ↦ bad_slice
  ]

  -- `sendMock`; each round with a positive batch takes a mock, so that their number is fuel enough.
  unfoldable pub send_mock : List (Option A) → Loop A
  unfolding send_loop
  send_mock mocks = send_loop (length mocks) mocks (record { posts = []; cnt = 0 })
