-- ===== src/Poly/Rational.antt =====
-- polyhedral/include/mlk/poly/rational.h and polyhedral/src/rational.cpp: normalized rationals over
-- int64_t whose parts stay within the magnitude limit.
pub mod Gcd
pub mod Normal
pub mod Exact
pub mod Order
mod Examples
use mlk.Base.{
  ℕ, zero, suc, Bool, true, false, ◌&&◌, ◌||◌, not, Option, none, some, if◌then◌else◌, ltb,
}
use mlk.Base.Int.{ℤ, pos, negsuc, ltb_ℤ, eqb_ℤ, neg64, add64, sub64, tdiv, tmod, nat_abs}
use mlk.Base.Res.{Result, ok, err, ◌>>=◌, invalid_argument, resource_exhausted}
use mlk.Poly.Checked.{magnitude_limit, neg_magnitude_limit, add, sub, mul}

pub record Rational : Type 0 where
  pub num : ℤ
  pub den : ℤ

abbrev pub from_int : ℤ → Rational
from_int v = record { num = v; den = pos 1 }

abbrev pub is_zero : Rational → Bool
is_zero r = eqb_ℤ r.num (pos 0)

abbrev pub is_int : Rational → Bool
is_int r = eqb_ℤ r.den (pos 1)

abbrev pub sign : Rational → ℤ
sign r = if ltb_ℤ (pos 0) r.num then pos 1 else if ltb_ℤ r.num (pos 0) then negsuc 0 else pos 0

-- The loop of `ratGcd`. The absolute value of `b` falls in each round, so one round more than that is
-- enough.
unfoldable pub gcd_loop : ℕ → ℤ → ℤ → ℤ
gcd_loop zero a b = a
gcd_loop (suc fuel) a b = elim (eqb_ℤ b (pos 0)) [ true ↦ a | false ↦ gcd_loop fuel b (tmod a b) ]

-- The absolute value, with an unchecked negation.
abbrev pub abs64 : ℤ → ℤ
abs64 a = if ltb_ℤ a (pos 0) then neg64 a else a

unfoldable pub rat_gcd : ℤ → ℤ → ℤ
rat_gcd a b = abs64 (gcd_loop (suc (nat_abs b)) a b)

abbrev pub out_of_limit : ℤ → Bool
out_of_limit v = ltb_ℤ magnitude_limit v || ltb_ℤ v neg_magnitude_limit

-- The end of `normalizeLimited`.
unfoldable pub within_limit : ℤ → ℤ → Result Rational
within_limit num den =
    if out_of_limit num || ltb_ℤ magnitude_limit den
    then err resource_exhausted
    else ok (record { num = num; den = den })

-- `normalizeLimited` for a positive denominator.
unfoldable pub reduce : ℤ → ℤ → Result Rational
reduce num den =
    let g = rat_gcd (abs64 num) den in
    if ltb_ℤ (pos 1) g then within_limit (tdiv num g) (tdiv den g) else within_limit num den

unfoldable pub normalize_limited : ℤ → ℤ → Result Rational
normalize_limited num den =
    if ltb_ℤ den (pos 0) then reduce (neg64 num) (neg64 den) else reduce num den

unfoldable pub from_parts : ℤ → ℤ → Result Rational
from_parts n d =
    if eqb_ℤ d (pos 0)
    then err invalid_argument
    else if out_of_limit n || out_of_limit d
    then err resource_exhausted
    else normalize_limited n d

abbrev less_of : Option ℤ → Option ℤ → Bool
less_of (some lhs) (some rhs) = ltb_ℤ lhs rhs
less_of none rhs = false
less_of (some lhs) none = false

unfoldable pub rat_less : Rational → Rational → Bool
rat_less a b = less_of (mul a.num b.den) (mul b.num a.den)

unfoldable pub rat_equal : Rational → Rational → Bool
rat_equal a b = eqb_ℤ a.num b.num && eqb_ℤ a.den b.den

-- A checked product or sum; on overflow the operation is over.
abbrev pub checked : Option ℤ → Result ℤ
checked none = err resource_exhausted
checked (some v) = ok v

unfoldable pub rat_add : Rational → Rational → Result Rational
rat_add a b = do
  t1 ← checked (mul a.num b.den)
  t2 ← checked (mul b.num a.den)
  num ← checked (add t1 t2)
  den ← checked (mul a.den b.den)
  normalize_limited num den

unfoldable pub rat_sub : Rational → Rational → Result Rational
rat_sub a b = do
  t1 ← checked (mul a.num b.den)
  t2 ← checked (mul b.num a.den)
  num ← checked (sub t1 t2)
  den ← checked (mul a.den b.den)
  normalize_limited num den

unfoldable pub rat_mul : Rational → Rational → Result Rational
rat_mul a b = do
  num ← checked (mul a.num b.num)
  den ← checked (mul a.den b.den)
  normalize_limited num den

unfoldable pub rat_div : Rational → Rational → Result Rational
rat_div a b = if is_zero b then err invalid_argument else do
  num ← checked (mul a.num b.den)
  den ← checked (mul a.den b.num)
  normalize_limited num den

unfoldable pub rat_neg : Rational → Result Rational
rat_neg a = ok (record { num = neg64 a.num; den = a.den })

unfoldable pub rat_floor : Rational → Result ℤ
rat_floor r =
    let q = tdiv r.num r.den in
    ok
      (if not (eqb_ℤ (tmod r.num r.den) (pos 0)) && ltb_ℤ r.num (pos 0) then sub64 q (pos 1) else q)

unfoldable pub rat_ceil : Rational → Result ℤ
rat_ceil r =
    let q = tdiv r.num r.den in
    ok
      (if not (eqb_ℤ (tmod r.num r.den) (pos 0)) && ltb_ℤ (pos 0) r.num then add64 q (pos 1) else q)
