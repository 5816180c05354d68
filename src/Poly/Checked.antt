-- ===== src/Poly/Checked.antt =====
-- polyhedral/include/mlk/poly/checked.h: int64_t arithmetic that reports overflow, and the versions
-- that also keep a result within the engine's magnitude limit.
pub mod Laws
use mlk.Base.{◌^◌, ◌-◌, ◌&&◌, ◌||◌, Option, none, some, if◌then◌else◌}
use mlk.Base.Int.{ℤ, pos, negsuc, ◌+ℤ◌, ◌-ℤ◌, ◌*ℤ◌, in_int64, ltb_ℤ, eqb_ℤ, tdiv}
use mlk.Base.Res.{invalid_argument, resource_exhausted, Result, ok, err}

-- kRationalMagnitudeLimit
abbrev pub magnitude_limit : ℤ
magnitude_limit = pos (2 ^ 30)

abbrev pub neg_magnitude_limit : ℤ
neg_magnitude_limit = negsuc (2 ^ 30 - 1)

-- `none` is the answer false, whose output nobody reads.
abbrev fits : ℤ → Option ℤ
fits r = if in_int64 r then some r else none

unfoldable pub add : ℤ → ℤ → Option ℤ
add a b = fits (a +ℤ b)

unfoldable pub sub : ℤ → ℤ → Option ℤ
sub a b = fits (a -ℤ b)

unfoldable pub mul : ℤ → ℤ → Option ℤ
mul a b = fits (a *ℤ b)

unfoldable pub div : ℤ → ℤ → Option ℤ
div a b =
    if eqb_ℤ b (pos 0)
    then none
    else if eqb_ℤ a (negsuc (2 ^ 63 - 1)) && eqb_ℤ b (negsuc 0)
    then none
    else some (tdiv a b)

abbrev limited : Option ℤ → Result ℤ
limited none = err resource_exhausted
limited (some r) =
    if ltb_ℤ magnitude_limit r || ltb_ℤ r neg_magnitude_limit then err resource_exhausted else ok r

unfoldable pub add_limited : ℤ → ℤ → Result ℤ
unfolding add
add_limited a b = limited (add a b)

unfoldable pub sub_limited : ℤ → ℤ → Result ℤ
unfolding sub
sub_limited a b = limited (sub a b)

unfoldable pub mul_limited : ℤ → ℤ → Result ℤ
unfolding mul
mul_limited a b = limited (mul a b)

unfoldable pub div_limited : ℤ → ℤ → Result ℤ
unfolding div
div_limited a b = if eqb_ℤ b (pos 0) then err invalid_argument else limited (div a b)
