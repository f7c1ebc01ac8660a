-- ===== src/Base/Float.antt =====
-- float64, as a parameter of the parts that compute with it. `less` is `<` and `greater_eq` is `>=`; `>`
-- and `<=` are these with the arguments swapped. `truncate` is the conversion to int.
use Prim.Native.Nat.{ℕ}
use mathlib.Core.Bool.{Bool}
use relaymeshnet.Base.Int.{ℤ}

-- The arithmetic of float64. `tick_exponent` is the constant -SecondsPerTick * ln 2 / 604800 of
-- simulation/node.go. `debt_limit` is the constant -100.0, `ratio n m` the constant n / m.
pub record Float : Type 1 where
  pub F : Type 0
  pub zero_float : F
  pub debt_limit : F
  pub plus : F → F → F
  pub minus : F → F → F
  pub less : F → F → Bool
  pub greater_eq : F → F → Bool
  pub times : F → F → F
  pub over : F → F → F
  pub negate : F → F
  pub exp : F → F
  pub sqrt : F → F
  pub max_float : F → F → F
  pub ceil : F → F
  pub of_nat : ℕ → F
  pub ratio : ℕ → ℕ → F
  pub ln2 : F
  pub log10 : F → F
  pub pow : F → F → F
  pub abs_float : F → F
  pub of_int : ℤ → F
  pub truncate : F → ℤ
  pub tick_exponent : F
