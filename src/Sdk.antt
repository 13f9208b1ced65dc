-- ===== src/Sdk.antt =====
-- The decimal arithmetic of the Cosmos SDK, which the modules call and which is not part of the
-- repository: `sdk.Dec` is a whole number of 10^-18 units. What the code relies on is stated as
-- laws. An `sdk.Uint` is a natural number; where the SDK would panic on more than 256 bits, the
-- model goes on.
pub mod Bank
pub mod Examples
use blockchain_relay_layer.Base.{ℕ, ◌-◌, ◌+◌, ◌*◌, ◌^◌, ◌≤◌, ◌<◌, ◌≡◌}

-- `sdk.OneDec()`
abbrev pub one_dec : ℕ
one_dec = 10 ^ 18

-- `sdk.NewDecFromInt`, `sdk.NewDecFromBigInt`
abbrev pub dec_of : ℕ → ℕ
dec_of n = n * one_dec

pub record DecOps : Type 0 where
  -- `Mul` and `Quo` round to the nearest unit.
  pub mul : ℕ → ℕ → ℕ
  pub quo : ℕ → ℕ → ℕ
  -- `Ceil` is the least whole number that is not below.
  pub ceil : ℕ → ℕ
  -- `RoundInt` is the nearest integer.
  pub round_int : ℕ → ℕ
  -- `TruncateInt` is the integer part.
  pub truncate_int : ℕ → ℕ
  -- `NewDecFromIntWithPrec n p` is n * 10^-p; it panics for more than 18 decimals, of which the laws
  -- say nothing.
  pub from_int_with_prec : ℕ → ℕ → ℕ

-- The behaviour of those operations: within half a unit, but for the cut of `Quo`, and none turns an
-- order around.
pub record DecLaws (d : DecOps) : Type 0 where
  pub mul_above : (a b : ℕ) → 2 * (d.mul a b * one_dec) ≤ 2 * (a * b) + one_dec
  pub mul_below : (a b : ℕ) → 2 * (a * b) ≤ 2 * (d.mul a b * one_dec) + one_dec
  pub quo_above : (a b : ℕ) → 0 < b → 2 * (d.quo a b * b) ≤ 2 * (a * one_dec) + b
  -- the quotient is cut at 36 decimals before it is rounded
  pub quo_below :
      (a b : ℕ)
      → 0 < b
      → 2 * (a * one_dec) * one_dec ≤ 2 * (d.quo a b * b) * one_dec + (one_dec + 2) * b
  pub mul_mono : (a a' b : ℕ) → a ≤ a' → d.mul b a ≤ d.mul b a'
  pub quo_mono : (a a' b : ℕ) → 0 < b → a ≤ a' → d.quo a b ≤ d.quo a' b
  pub ceil_least : (a n : ℕ) → a ≤ dec_of n → d.ceil a ≤ dec_of n
  pub ceil_above : (a : ℕ) → a ≤ d.ceil a
  pub round_int_of : (n : ℕ) → d.round_int (dec_of n) ≡ n
  pub round_int_above : (a : ℕ) → 2 * dec_of (d.round_int a) ≤ 2 * a + one_dec
  pub round_int_below : (a : ℕ) → 2 * a ≤ 2 * dec_of (d.round_int a) + one_dec
  pub round_int_mono : (a b : ℕ) → a ≤ b → d.round_int a ≤ d.round_int b
  pub truncate_int_below : (a : ℕ) → dec_of (d.truncate_int a) ≤ a
  pub truncate_int_above : (a : ℕ) → a < dec_of (d.truncate_int a) + one_dec
  pub from_int_exact : (n p : ℕ) → p ≤ 18 → d.from_int_with_prec n p ≡ n * 10 ^ (18 - p)
