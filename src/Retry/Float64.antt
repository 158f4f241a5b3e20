-- ===== src/Retry/Float64.antt =====
-- What retry.go uses of float64 and package math.
use httpio.Base.{ℕ, ◌+◌, ◌*◌, ◌-◌, ◌^◌, Bool, ℤ, pos, rounds, ltb}

pub record Float : Type 1 where
  pub F : Type 0
  pub of_int : ℤ → F
  pub to_int : F → ℤ
  pub mul : F → F → F
  pub add : F → F → F
  pub sub : F → F → F
  -- `math.Pow(2, float64(n))`
  pub pow2 : ℕ → F
  -- `x > y`
  pub gt : F → F → Bool

-- Numbers that are natural: enough for delays with no jitter.
abbrev pub natural : Float
natural = record {
  F = ℕ;
  of_int = rounds;
  to_int = pos;
  mul = λ a b. a * b;
  add = λ a b. a + b;
  sub = λ a b. a - b;
  pow2 = λ n. 2 ^ n;
  gt = λ a b. ltb b a;
}
