-- ===== src/Poly/AffineBox.antt =====
-- `PresburgerSet::affineBox` of polyhedral/src/int_set.cpp: a box whose bounds are affine expressions.
pub mod Exact
use mlk.Base.{
  ℕ, zero, suc, false, not, ◌||◌, List, [], ◌∷◌, length, get_or, set, replicate, ltb, if◌then◌else◌,
}
use mlk.Base.Int.{ℤ, pos, negsuc}
use mlk.Base.Res.{Result, ok, err, ◌>>=◌, invalid_argument, traverse_zip}
use mlk.Poly.Checked.{add_limited, sub_limited}
use mlk.Poly.Row.{VarSpace, total_vars, same_as, ConstraintRow}
use mlk.Poly.System.{Polyhedron, universe, add_row}
use mlk.Poly.Affine.{AffineExpr, from_constant}
use mlk.Poly.IntSet.{PresburgerSet}

-- The coefficients of a variable alone, times a number.
abbrev pub unit_coeffs : VarSpace → ℕ → ℤ → List ℤ
unit_coeffs space d c = set (replicate (total_vars space) (pos 0)) d c

-- x_d - lb(x) >= 0
unfoldable pub lower_bound_row : VarSpace → ℕ → AffineExpr → Result ConstraintRow
lower_bound_row space d lb = if not (same_as lb.space space) then err invalid_argument else do
  coeffs ← traverse_zip sub_limited (unit_coeffs space d (pos 1)) lb.coeffs
  cst ← sub_limited (pos 0) lb.constant
  ok (record { coeffs = coeffs; constant = cst; is_equality = false })

-- ub(x) - x_d >= 0
unfoldable pub upper_bound_row : VarSpace → ℕ → AffineExpr → Result ConstraintRow
upper_bound_row space d ub = if not (same_as ub.space space) then err invalid_argument else do
  coeffs ← traverse_zip add_limited (unit_coeffs space d (negsuc 0)) ub.coeffs
  ok (record { coeffs = coeffs; constant = ub.constant; is_equality = false })

-- The bound of a dimension. The vectors are as long as there are dimensions.
abbrev pub bound_at : VarSpace → List AffineExpr → ℕ → AffineExpr
bound_at space bounds d = get_or bounds d (from_constant space (pos 0))

-- The loop over the dimensions, `left` of them from `d` on.
unfoldable pub affine_rows :
    VarSpace → List AffineExpr → List AffineExpr → ℕ → ℕ → Polyhedron → Result Polyhedron
affine_rows space lower upper zero d p = ok p
affine_rows space lower upper (suc left) d p = do
  lo ← lower_bound_row space d (bound_at space lower d)
  hi ← upper_bound_row space d (bound_at space upper d)
  affine_rows space lower upper left (suc d) (add_row (add_row p lo) hi)

unfoldable pub affine_box : VarSpace → List AffineExpr → List AffineExpr → Result PresburgerSet
affine_box space lower upper =
    if ltb (length lower) space.n_dims || ltb (length upper) space.n_dims
    then err invalid_argument
    else do
      p ← affine_rows space lower upper space.n_dims 0 (universe space)
      ok (record { space = space; disjuncts = p ∷ [] })
