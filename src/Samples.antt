-- ===== src/Samples.antt =====
-- Exact arithmetic on integers in place of Python's floats, for the runs on concrete inputs. A
-- literal loses the digits after its point.
use coversational_algo_tradi.Python.{Builtins}
use coversational_algo_tradi.Prelude.{
  Bool, List, Option, [], false, get_or, leb_ℤ, ltb_ℤ, negsuc, none, pos, some, suc, true, zero, ℤ,
  ◌*◌, ◌+ℤ◌, ◌-ℤ◌, ◌/◌, ◌^◌, ◌∷◌,
}

abbrev negate : ℤ → ℤ
negate (pos zero) = pos 0
negate (pos (suc n)) = negsuc n
negate (negsuc n) = pos (suc n)

abbrev times : ℤ → ℤ → ℤ
times (pos a) (pos b) = pos (a * b)
times (pos a) (negsuc b) = negate (pos (a * suc b))
times (negsuc a) (pos b) = negate (pos (suc a * b))
times (negsuc a) (negsuc b) = pos (suc a * suc b)

-- The quotient rounded down, where the divisor is not zero.
abbrev quotient : ℤ → ℤ → Option ℤ
quotient a (pos (suc b)) = some (elim a [ pos n ↦ pos (n / suc b) | negsuc n ↦ negsuc (n / suc b) ])
quotient a (pos zero) = none
quotient a (negsuc b) =
    some (elim (negate a) [ pos n ↦ pos (n / suc b) | negsuc n ↦ negsuc (n / suc b) ])

abbrev magnitude : ℤ → ℤ
magnitude (pos n) = pos n
magnitude (negsuc n) = pos (suc n)

abbrev is_nought : ℤ → Bool
is_nought (pos zero) = true
is_nought _ = false

abbrev total : List ℤ → ℤ
total [] = pos 0
total (n ∷ ns) = n +ℤ total ns

abbrev pub integers : Builtins ℤ
integers = record {
  literal = λ m k. get_or (quotient m (pos (10 ^ k))) (pos 0);
  of_int = λ n. n;
  add = ◌+ℤ◌;
  sub = ◌-ℤ◌;
  mul = times;
  div = quotient;
  neg = negate;
  abs = magnitude;
  lt = ltb_ℤ;
  le = leb_ℤ;
  is_zero = is_nought;
  sum = total;
  floor = some;
  int_floor_div = quotient;
  upper = λ s. s;
  strip = λ s. s;
}
