-- ===== src/Nodata/Judging/Times.antt =====
-- When a value is made up, and for which time.
use ref_falcon.Prelude.{ℕ, suc, ◌+◌, ◌-◌, ◌*◌, ◌%◌, ◌^◌, ◌≤◌, ◌<◌, ◌≡◌, ◌∙◌, false, arith}
use native.Mathlib.Nat.{mod-lt, mod-eq_of_lt}
use ref_falcon.Prelude.Int.{
  pos, ◌≤ℤ◌, ◌-ℤ◌, ltb_ℤ, sub64, sub64-id, wrap64, wrap64-id, ◌*ℤ◌, int_laws,
}
use ref_falcon.Nodata.Judging.{rem, gen_ts, get_timeout}

two_times : (b : ℕ) → pos 2 *ℤ pos b ≡ pos (2 * b)
unfolding ◌*ℤ◌
two_times b = ground arith

times_three : (b : ℕ) → pos b *ℤ pos 3 ≡ pos (b * 3)
unfolding ◌*ℤ◌
times_three b = ground arith

pub wrap64_pos : (a : ℕ) → a < 2 ^ 63 → wrap64 (pos a) ≡ pos a
wrap64_pos a h = wrap64-id (pos a) (omega arith, omega arith)

pub rem_pos : (n k : ℕ) → rem (pos n) (pos (suc k)) ≡ pos (n % suc k)
rem_pos n k =
    let all : suc k + 0 ≡ suc k = omega arith in
    let none_left : 0 % suc k ≡ 0 = mod-eq_of_lt (omega arith) in
    let whole : pos (n % suc k) -ℤ pos 0 ≡ pos (n % suc k) = omega int_laws in
    rw (all, none_left) whole

pub sub64_pos : (a b : ℕ) → b ≤ a → a < 2 ^ 63 → sub64 (pos a) (pos b) ≡ pos (a - b)
sub64_pos a b h k =
    let e : pos a -ℤ pos b ≡ pos (a - b) = omega int_laws in
    sub64-id (pos a) (pos b) (rw e (omega arith, omega arith)) ∙ e

-- For a step of at least 1, and a present time below 2^62 and of at least three steps, the made-up
-- time is the start of the second step before the present one.
pub gen_ts_lem :
    (n k : ℕ)
    → n < 2 ^ 62
    → 3 * suc k ≤ n
    → gen_ts (pos n) (pos (suc k)) ≡ pos (n - n % suc k - 2 * suc k)
unfolding gen_ts
gen_ts_lem n k b h =
    let small = mod-lt n {m = suc k} (omega arith) in
    let positive : ltb_ℤ (pos (suc k)) (pos 1) ≡ false = ground arith in
    rw (
      positive,
      gen_ts,
      rem_pos n k,
      two_times (suc k),
      wrap64_pos (2 * suc k) (omega arith),
      sub64_pos n (n % suc k) (omega (arith, small)) (omega arith),
      sub64_pos (n - n % suc k) (2 * suc k) (omega (arith, small)) (omega arith),
    )

-- For a step from 0 to 2^61 - 1 the timeout is at least three minutes and at least three steps.
pub get_timeout_bound :
    (n : ℕ) → n < 2 ^ 61 → (pos 180 ≤ℤ get_timeout (pos n)) × (pos (3 * n) ≤ℤ get_timeout (pos n))
unfolding get_timeout
get_timeout_bound n b = rw (times_three n, wrap64_pos (n * 3) (omega arith)) (ground arith)
