-- ===== src/Poly/Rational/Examples.antt =====
-- Runs of the rational arithmetic at concrete inputs.
use mlk.Base.{ℕ, ◌≡◌, refl, true, ◌↔◌, arith, ◌≤◌}
use mlk.Base.Int
use mlk.Base.Int.{ℤ, pos, negsuc, ◌+ℤ◌, ◌-ℤ◌, ◌*ℤ◌, ◌<ℤ◌, int64_max, tdiv, tmod}
use mlk.Base.Res.{ok}
use mlk.Base.Gcd.{IsGcd}
use mlk.Poly.Checked
use mlk.Poly.Rational
use mlk.Poly.Rational.{
  Rational, rat_gcd, normalize_limited, from_parts, rat_less, rat_equal, rat_floor, rat_ceil,
  rat_add, rat_sub, rat_mul, rat_div,
}
use mlk.Poly.Rational.Gcd.{rat_gcd-IsGcd}
use mlk.Poly.Rational.Normal.{IsNormal, SameValue, from_parts_exact}
use mlk.Poly.Rational.Exact.{rat_add_exact, rat_sub_exact, rat_mul_exact, rat_div_exact}
use mlk.Poly.Rational.Order.{IsFloor, IsCeil, rat_compare_correct, rat_round_correct}
use native.Mathlib.Nat

abbrev fraction : ℤ → ℤ → Rational
fraction n d = record { num = n; den = d }

abbrev half : Rational
half = fraction (pos 1) (pos 2)

abbrev third : Rational
third = fraction (pos 1) (pos 3)

half-IsNormal : IsNormal half
half-IsNormal = record {
  positive = omega arith;
  lowest = record { left = Nat.dvd_refl 1; right = Nat.one-dvd 2; greatest = λ k c h _. h };
  num_limited = (omega arith, omega arith);
  den_limited = (omega arith, omega arith);
}

third-IsNormal : IsNormal third
third-IsNormal = record {
  positive = omega arith;
  lowest = record { left = Nat.dvd_refl 1; right = Nat.one-dvd 3; greatest = λ k c h _. h };
  num_limited = (omega arith, omega arith);
  den_limited = (omega arith, omega arith);
}

from_parts-two_fourths : from_parts (pos 2) (pos 4) ≡ ok half
unfolding from_parts normalize_limited Rational.gcd_loop Rational.within_limit Rational.reduce
    Rational.rat_gcd Int.neg_ℤ Int.wrap64 tdiv tmod
from_parts-two_fourths = refl

from_parts_exact_example : ¬ (pos 4 ≡ pos 0) × SameValue half (pos 2) (pos 4) × IsNormal half
from_parts_exact_example = from_parts_exact (pos 2) (pos 4) from_parts-two_fourths

add-half-third : rat_add half third ≡ ok (fraction (pos 5) (pos 6))
unfolding rat_add normalize_limited Rational.gcd_loop Rational.within_limit Rational.reduce
    Rational.rat_gcd Int.neg_ℤ Int.wrap64 tdiv tmod Int.◌+ℤ◌ Int.◌-ℤ◌ Int.◌*ℤ◌ Checked.add
    Checked.sub Checked.mul
add-half-third = refl

rat_add_exact_example :
    SameValue (fraction (pos 5) (pos 6)) (pos 1 *ℤ pos 3 +ℤ pos 1 *ℤ pos 2) (pos 2 *ℤ pos 3)
    × IsNormal (fraction (pos 5) (pos 6))
rat_add_exact_example = rat_add_exact half third half-IsNormal third-IsNormal add-half-third

sub-half-third : rat_sub half third ≡ ok (fraction (pos 1) (pos 6))
unfolding rat_sub normalize_limited Rational.gcd_loop Rational.within_limit Rational.reduce
    Rational.rat_gcd Int.neg_ℤ Int.wrap64 tdiv tmod Int.◌+ℤ◌ Int.◌-ℤ◌ Int.◌*ℤ◌ Checked.add
    Checked.sub Checked.mul
sub-half-third = refl

rat_sub_exact_example :
    SameValue (fraction (pos 1) (pos 6)) (pos 1 *ℤ pos 3 -ℤ pos 1 *ℤ pos 2) (pos 2 *ℤ pos 3)
    × IsNormal (fraction (pos 1) (pos 6))
rat_sub_exact_example = rat_sub_exact half third half-IsNormal third-IsNormal sub-half-third

mul-half-third : rat_mul half third ≡ ok (fraction (pos 1) (pos 6))
unfolding rat_mul normalize_limited Rational.gcd_loop Rational.within_limit Rational.reduce
    Rational.rat_gcd Int.neg_ℤ Int.wrap64 tdiv tmod Int.◌+ℤ◌ Int.◌-ℤ◌ Int.◌*ℤ◌ Checked.add
    Checked.sub Checked.mul
mul-half-third = refl

rat_mul_exact_example :
    SameValue (fraction (pos 1) (pos 6)) (pos 1 *ℤ pos 1) (pos 2 *ℤ pos 3)
    × IsNormal (fraction (pos 1) (pos 6))
rat_mul_exact_example = rat_mul_exact half third half-IsNormal third-IsNormal mul-half-third

div-half-third : rat_div half third ≡ ok (fraction (pos 3) (pos 2))
unfolding rat_div normalize_limited Rational.gcd_loop Rational.within_limit Rational.reduce
    Rational.rat_gcd Int.neg_ℤ Int.wrap64 tdiv tmod Int.◌+ℤ◌ Int.◌-ℤ◌ Int.◌*ℤ◌ Checked.add
    Checked.sub Checked.mul
div-half-third = refl

rat_div_exact_example :
    ¬ (pos 1 ≡ pos 0)
    × SameValue (fraction (pos 3) (pos 2)) (pos 1 *ℤ pos 3) (pos 2 *ℤ pos 1)
    × IsNormal (fraction (pos 3) (pos 2))
rat_div_exact_example = rat_div_exact half third half-IsNormal third-IsNormal div-half-third

rat_compare_correct_example :
    (rat_less third half ≡ true ↔ pos 1 *ℤ pos 2 <ℤ pos 1 *ℤ pos 3)
    × (rat_equal third half ≡ true ↔ pos 1 *ℤ pos 2 ≡ pos 1 *ℤ pos 3)
rat_compare_correct_example = rat_compare_correct third half third-IsNormal half-IsNormal

rat_round_correct_example :
    ((q : ℤ) × (rat_floor half ≡ ok q) × IsFloor q half)
    × ((q : ℤ) × (rat_ceil half ≡ ok q) × IsCeil q half)
rat_round_correct_example = rat_round_correct half half-IsNormal

rat_gcd-IsGcd_example :
    (g : ℕ) × (rat_gcd (negsuc 11) (pos 18) ≡ pos g) × IsGcd g 12 18 × (g ≤ int64_max)
rat_gcd-IsGcd_example = rat_gcd-IsGcd (negsuc 11) (pos 18) (omega arith) (omega arith)
