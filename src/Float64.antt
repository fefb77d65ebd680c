-- ===== src/Float64.antt =====
-- `float64`. There are no floating-point numbers in the language of this development: code that
-- computes with them is modelled over any type V with the operations that the Go code applies.
-- No law is built in; a theorem that needs one has it as a hypothesis.
use ref_falcon.Prelude.{ℕ, ◌+◌, Bool, if◌then◌else◌, ◌==◌, ◌/◌}
use ref_falcon.Prelude.Int.{
  ℤ, pos, pos_part, neg_part, ltb_ℤ, leb_ℤ, eqb_ℤ, ◌+ℤ◌, ◌-ℤ◌, ◌*ℤ◌, sub_ℕ,
}

pub record Float64 (V : Type 0) : Type 0 where
  pub lt : V → V → Bool
  pub le : V → V → Bool
  pub eq : V → V → Bool
  pub add : V → V → V
  pub sub : V → V → V
  pub mul : V → V → V
  pub div : V → V → V
  pub abs : V → V
  pub of_int : ℤ → V
  -- The literal m * 10^-k, so that 0.0001 is `lit (pos 1) 4`.
  pub lit : ℤ → ℕ → V

-- The quotient rounded towards zero; division by zero gives zero.
abbrev pub div_ℤ : ℤ → ℤ → ℤ
div_ℤ a b =
    sub_ℕ (pos_part a / pos_part b + neg_part a / neg_part b)
      (neg_part a / pos_part b + pos_part a / neg_part b)

-- Whole numbers stand for floats in the examples: their operations are exact but for division.
instance abbrev pub whole : Float64 ℤ
whole = record {
  lt = ltb_ℤ;
  le = leb_ℤ;
  eq = eqb_ℤ;
  add = ◌+ℤ◌;
  sub = ◌-ℤ◌;
  mul = ◌*ℤ◌;
  div = div_ℤ;
  abs = λ a. if ltb_ℤ a (pos 0) then pos 0 -ℤ a else a;
  of_int = λ a. a;
  lit = λ m k. if k == 0 then m else pos 0;
}
