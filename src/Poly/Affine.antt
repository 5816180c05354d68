-- ===== src/Poly/Affine.antt =====
-- polyhedral/include/mlk/poly/affine_expr.h and polyhedral/src/affine_expr.cpp: integer affine
-- expressions. An expression is dense, with one coefficient for each variable of its space.
pub mod Linear
pub mod Reduce
mod Examples
use mlk.Base.{
  ℕ, ◌+◌, Bool, true, false, not, ◌&&◌, ◌||◌, Option, none, some, List, [], ◌∷◌, map, if◌then◌else◌,
  ltb, get_or, set, replicate, length,
}
use mlk.Base.Int.{ℤ, pos, negsuc, eqb_ℤ, ltb_ℤ, leb_ℤ, tdiv}
use mlk.Base.Res.{
  Result, ok, err, ◌>>=◌, traverse, traverse_zip, invalid_argument, resource_exhausted,
}
use mlk.Poly.Checked.{magnitude_limit, neg_magnitude_limit, add_limited, mul_limited}
use mlk.Poly.Rational.{rat_gcd}
use mlk.Poly.Row.{VarSpace, total_vars, same_as, all_coeffs_zero, coeffs_equal}
use mlk.Poly.System.{eval_terms}

pub record AffineExpr : Type 0 where
  pub space : VarSpace
  pub coeffs : List ℤ
  pub constant : ℤ

abbrev pub from_constant : VarSpace → ℤ → AffineExpr
from_constant space v = record {
  space = space;
  coeffs = replicate (total_vars space) (pos 0);
  constant = v;
}

-- A write out of the space changes nothing.
abbrev pub variable : VarSpace → ℕ → AffineExpr
variable space var_index = record {
  space = space;
  coeffs = set (replicate (total_vars space) (pos 0)) var_index (pos 1);
  constant = pos 0;
}

-- `isConstant`, with the value that it writes.
abbrev pub constant_value : AffineExpr → Option ℤ
constant_value e = if all_coeffs_zero e.coeffs then some e.constant else none

abbrev pub expr_coeff_of : AffineExpr → ℕ → ℤ
expr_coeff_of e var = get_or e.coeffs var (pos 0)

abbrev out_of_limit : ℤ → Bool
out_of_limit v = ltb_ℤ magnitude_limit v || ltb_ℤ v neg_magnitude_limit

abbrev pub all_within : List ℤ → Bool
all_within [] = true
all_within (c ∷ cs) = not (out_of_limit c) && all_within cs

abbrev pub within_limits : AffineExpr → Bool
within_limits e = not (out_of_limit e.constant) && all_within e.coeffs

-- The loop of `gcdNormalize` over the coefficients; `none` is its early return.
unfoldable pub coeffs_gcd : ℤ → List ℤ → Option ℤ
coeffs_gcd g [] = some g
coeffs_gcd g (c ∷ cs) =
    let rest = coeffs_gcd (rat_gcd g c) cs in if eqb_ℤ (rat_gcd g c) (pos 1) then none else rest

abbrev pub divided_by : ℤ → AffineExpr → AffineExpr
divided_by g e = record e { coeffs = map (λ c. tdiv c g) e.coeffs; constant = tdiv e.constant g }

unfoldable pub gcd_normalize : AffineExpr → AffineExpr
gcd_normalize e = elim (coeffs_gcd (pos 0) e.coeffs) [
  | none ↦ e
  | some g ↦ if leb_ℤ (rat_gcd g e.constant) (pos 1) then e else divided_by (rat_gcd g e.constant) e
]

-- The loop is the one of `Polyhedron::containsPoint`.
unfoldable pub eval_at : AffineExpr → List ℤ → Result ℤ
eval_at e vars =
    if ltb (length vars) (length e.coeffs)
    then err invalid_argument
    else elim (eval_terms e.constant e.coeffs vars) [
      | none ↦ err resource_exhausted
      | some acc ↦ ok acc
    ]

abbrev pub expr_spaces_match : AffineExpr → AffineExpr → Bool
expr_spaces_match a b = same_as a.space b.space

unfoldable pub expr_equal : AffineExpr → AffineExpr → Bool
expr_equal a b =
    if not (expr_spaces_match a b)
    then false
    else if not (eqb_ℤ a.constant b.constant)
    then false
    else coeffs_equal a.coeffs b.coeffs

unfoldable pub expr_add : AffineExpr → AffineExpr → Result AffineExpr
expr_add a b = if not (expr_spaces_match a b) then err invalid_argument else do
  cst ← add_limited a.constant b.constant
  coeffs ← traverse_zip add_limited a.coeffs b.coeffs
  ok (record { space = a.space; coeffs = coeffs; constant = cst })

unfoldable pub expr_scale : AffineExpr → ℤ → Result AffineExpr
expr_scale a k = do
  cst ← mul_limited a.constant k
  coeffs ← traverse (λ c. mul_limited c k) a.coeffs
  ok (record { space = a.space; coeffs = coeffs; constant = cst })

unfoldable pub expr_sub : AffineExpr → AffineExpr → Result AffineExpr
expr_sub a b = do negb ← expr_scale b (negsuc 0); expr_add a negb
