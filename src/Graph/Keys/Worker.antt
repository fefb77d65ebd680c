-- ===== src/Graph/Keys/Worker.antt =====
-- The worker that a file goes to is one of those that there are.
use native.Mathlib.Nat.{mod-lt}
use ref_falcon.Prelude.{
  ℕ, zero, suc, ◌+◌, ◌%◌, ◌^◌, ◌≤◌, ◌<◌, ◌≡◌, refl, subst, inl, inr, false, List, [], ◌∷◌, length,
  take, Option, none, some, arith, ok, Returns, Bool-cases, ltb, leb, ◌==◌, ==_iff, ◌||◌,
}
use ref_falcon.Prelude.Int.{ℤ, pos, negsuc}
use ref_falcon.Judge.Parse.{slice}
use ref_falcon.Judge.Parse.Form.{slice_lem}
use ref_falcon.Nodata.Judging.Times.{rem_pos}
use ref_falcon.Graph.Keys.{
  file_name, rrd_file_name, parse_hex, in_int64, worker_of, get_index, hex_digits,
}

-- No sign in front.
abbrev pub Unsigned : List ℕ → Type 0
Unsigned [] = Unit {0}
Unsigned (x ∷ xs) = (x ≡ b'-') → ⊥

abbrev NonNegative : Option ℤ → Type 0
NonNegative none = Unit {0}
NonNegative (some (pos n)) = Unit {0}
NonNegative (some (negsuc n)) = ⊥

in_int64-NonNegative : (o : Option ℕ) → NonNegative (in_int64 false o)
in_int64-NonNegative none = tt
in_int64-NonNegative (some n) = elim (Bool-cases (ltb n (2 ^ 63))) [
  | inl fits ↦ rw fits tt
  | inr large ↦ rw large tt
]

parse_hex-NonNegative : (xs : List ℕ) → Unsigned xs → NonNegative (parse_hex xs)
unfolding parse_hex
parse_hex-NonNegative [] h = tt
parse_hex-NonNegative (x ∷ []) h = in_int64-NonNegative (hex_digits 0 (x ∷ []))
parse_hex-NonNegative (x ∷ y ∷ ys) h = elim (Bool-cases (x == b'-')) [
  | inl minus ↦ absurd (h ((==_iff x b'-').0 minus))
  | inr other ↦ elim (Bool-cases (x == b'+')) [
    | inl plus ↦ rw (other, plus) (in_int64-NonNegative (hex_digits 0 (y ∷ ys)))
    | inr none_ ↦ rw (other, none_) (in_int64-NonNegative (hex_digits 0 (x ∷ y ∷ ys)))
  ]
]

-- One of the workers.
abbrev pub IsWorker : ℕ → ℤ → Type 0
IsWorker workers i = (n : ℕ) × (i ≡ pos n) × (n < workers)

worker_of-IsWorker :
    (k : ℕ) (o : Option ℤ) → NonNegative o → IsWorker (suc k) (worker_of (pos (suc k)) o)
worker_of-IsWorker k none h = (0, refl, omega arith)
worker_of-IsWorker k (some (pos n)) h = (n % suc k, rem_pos n k, mod-lt n (omega arith))
worker_of-IsWorker k (some (negsuc n)) h = absurd h

Unsigned-take : (n : ℕ) (xs : List ℕ) → Unsigned xs → Unsigned (take n xs)
Unsigned-take zero xs h = tt
Unsigned-take (suc n) [] h = tt
Unsigned-take (suc n) (x ∷ xs) h = h

within :
    (workers bytes len : ℕ)
    → (leb (workers + 0) 1 || (ltb (len + 0) (bytes + 0) || bytes + 0 == 0)) ≡ false
    → bytes ≤ len
within workers bytes len h = ground arith

-- With at least one worker and a number of bytes that is not negative, every checksum that has no
-- minus sign in front goes to one of the workers.
pub get_index-IsWorker :
    (k bytes : ℕ) (md5 : List ℕ)
    → Unsigned md5
    → Returns (IsWorker (suc k)) (get_index (pos (suc k)) (pos bytes) md5)
unfolding get_index
get_index-IsWorker k bytes md5 u =
    elim (Bool-cases (leb (suc k + 0) 1 || (ltb (length md5 + 0) (bytes + 0) || bytes + 0 == 0))) [
      | inl first ↦ rw first (0, refl, omega arith)
      | inr rest ↦
          let fits : bytes ≤ length md5 = within (suc k) bytes (length md5) rest in
          let zero_plus : 0 + bytes ≡ bytes = omega arith in
          let begin : slice md5 (pos 0) (pos bytes) ≡ ok (take bytes md5) =
            subst (λ n. slice md5 (pos 0) (pos n) ≡ ok (take bytes md5)) zero_plus
              (slice_lem md5 0 bytes (omega (arith, fits))) in
          rw (rest, begin)
            (worker_of-IsWorker k _ (parse_hex-NonNegative _ (Unsigned-take bytes md5 u)))
    ]

-- A checksum of two bytes or more has a file.
pub rrd_file_name-ok :
    (base_dir md5 ds_type : List ℕ) (step : ℤ)
    → 2 ≤ length md5
    → (file : List ℕ) × (rrd_file_name base_dir md5 ds_type step ≡ ok file)
unfolding rrd_file_name
rrd_file_name-ok base_dir md5 ds_type step h =
    let two : slice md5 (pos 0) (pos 2) ≡ ok (take 2 md5) = slice_lem md5 0 2 h in
    (file_name base_dir (take 2 md5) md5 ds_type step, rw two)
