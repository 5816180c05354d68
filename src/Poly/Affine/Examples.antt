-- ===== src/Poly/Affine/Examples.antt =====
-- Runs of the affine expressions at concrete inputs.
use mlk.Base.{ℕ, ◌+◌, ◌≡◌, refl, List, [], ◌∷◌, length, arith, ◌<◌, ◌≤◌}
use mlk.Base.Int
use mlk.Base.Int.{ℤ, pos, negsuc, ◌+ℤ◌, ◌-ℤ◌, ◌*ℤ◌, int64_max, nat_abs}
use mlk.Base.Res.{ok, traverse, traverse_zip}
use mlk.Poly.Checked
use mlk.Poly.Row.{VarSpace}
use mlk.Poly.System.Eval.{weight}
use mlk.Poly.Affine.{AffineExpr, eval_at, expr_add, expr_sub, expr_scale, gcd_normalize}
use mlk.Poly.Affine.Linear.{value, eval_at_exact, expr_add_exact, expr_sub_exact}
use mlk.Poly.Affine.Reduce.{gcd_normalize_correct}

abbrev plane : VarSpace
plane = record { n_dims = 1; n_syms = 1 }

abbrev linear : ℤ → ℤ → ℤ → AffineExpr
linear a b c = record { space = plane; coeffs = a ∷ b ∷ []; constant = c }

-- 2 i - 3 n + 4, and i + n
abbrev first : AffineExpr
first = linear (pos 2) (negsuc 2) (pos 4)

abbrev second : AffineExpr
second = linear (pos 1) (pos 1) (pos 0)

abbrev point : List ℤ
point = pos 5 ∷ pos 7 ∷ []

eval_at_exact_example :
    ((v : ℤ) → eval_at first point ≡ ok v → v ≡ value first point)
    × (length first.coeffs ≤ length point
        → nat_abs first.constant + weight first.coeffs point ≤ int64_max
        → eval_at first point ≡ ok (value first point))
eval_at_exact_example = eval_at_exact first point

abbrev total : AffineExpr
total = linear (pos 3) (negsuc 1) (pos 4)

abbrev difference : AffineExpr
difference = linear (pos 1) (negsuc 3) (pos 4)

abbrev tripled : AffineExpr
tripled = linear (pos 6) (negsuc 8) (pos 12)

add-first-second : expr_add first second ≡ ok total
unfolding expr_add Int.◌+ℤ◌ Int.◌*ℤ◌ Int.neg_ℤ Int.wrap64 Checked.add Checked.mul
    Checked.add_limited Checked.mul_limited traverse traverse_zip
add-first-second = refl

expr_add_exact_example :
    (total.space ≡ first.space)
    × (length total.coeffs ≡ length first.coeffs)
    × ((x : List ℤ) → value total x ≡ value first x +ℤ value second x)
expr_add_exact_example = expr_add_exact first second refl add-first-second

sub-first-second : expr_sub first second ≡ ok difference
unfolding expr_sub expr_scale expr_add Int.◌+ℤ◌ Int.◌*ℤ◌ Int.neg_ℤ Int.wrap64 Checked.add
    Checked.mul Checked.add_limited Checked.mul_limited traverse traverse_zip
sub-first-second = refl

expr_sub_exact_example :
    (difference.space ≡ first.space)
    × (length difference.coeffs ≡ length first.coeffs)
    × ((x : List ℤ) → value difference x ≡ value first x -ℤ value second x)
expr_sub_exact_example = expr_sub_exact first second refl sub-first-second

gcd_normalize_correct_example :
    (k : ℕ) × (0 < k) × ((x : List ℤ) → value tripled x ≡ pos k *ℤ value (gcd_normalize tripled) x)
gcd_normalize_correct_example =
    gcd_normalize_correct tripled (omega arith, (omega arith, tt)) (omega arith)
