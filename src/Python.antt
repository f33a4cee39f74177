-- ===== src/Python.antt =====
-- What the services use of Python's floats and texts. There are no floats in the logic, so the type
-- of floats and its operations are a parameter, with no law assumed: what is proved holds of the
-- IEEE operations with their rounding. `div` and `floor` are `none` where Python raises, for a zero
-- divisor and for an infinity or a NaN.
use coversational_algo_tradi.Prelude.{Bool, List, Option, String, [], if◌then◌else◌, pos, ℕ, ℤ, ◌∷◌}

pub record Builtins (F : Type 0) : Type 0 where
  -- `literal m k` is the float nearest to m / 10 ^ k.
  pub literal : ℤ → ℕ → F
  -- An integer met in float arithmetic.
  pub of_int : ℤ → F
  pub add : F → F → F
  pub sub : F → F → F
  pub mul : F → F → F
  pub div : F → F → Option F
  pub neg : F → F
  pub abs : F → F
  pub lt : F → F → Bool
  pub le : F → F → Bool
  pub is_zero : F → Bool
  -- `sum` of a list of floats, which Python compensates from version 3.12 on
  pub sum : List F → F
  -- `math.floor`
  pub floor : F → Option ℤ
  -- `a // b`, converted by `int`
  pub int_floor_div : F → F → Option ℤ
  pub upper : String → String
  pub strip : String → String

module _ {F : Type 0} (py : Builtins F) where
  abbrev pub zero_float : F
  zero_float = py.literal (pos 0) 0

  -- `max(a, b)`
  abbrev pub max_float : F → F → F
  max_float a b = if py.lt a b then b else a

  -- `COALESCE(SUM(…), 0)` over rows in the order of their table.
  abbrev pub sum_from : F → List F → F
  sum_from acc [] = acc
  sum_from acc (x ∷ xs) = sum_from (py.add acc x) xs

  abbrev pub sum_floats : List F → F
  sum_floats = sum_from zero_float
