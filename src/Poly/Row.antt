-- ===== src/Poly/Row.antt =====
-- polyhedral/include/mlk/poly/affine_expr.h (VarSpace), and the rows of
-- polyhedral/include/mlk/poly/int_set.h with the row operations of polyhedral/src/int_set.cpp.
pub mod Value
pub mod Ops
use mlk.Base.{
  ℕ, ◌+◌, ◌≡◌, Bool, true, false, not, ◌&&◌, List, [], ◌∷◌, if◌then◌else◌, ◌==◌, get_or, length,
  ltb,
}
use mlk.Base.Int.{ℤ, pos, negsuc, eqb_ℤ, ltb_ℤ, leb_ℤ, pos_part, neg_part}
use mlk.Base.Res.{Result, ok, err, invalid_argument, ◌>>=◌, traverse, traverse_zip}
use mlk.Poly.Checked.{add_limited, sub_limited, mul_limited}

pub record VarSpace : Type 0 where
  pub n_dims : ℕ
  pub n_syms : ℕ

-- Both counts are far below 2 ^ 31, so the sum of the two uint32_t does not wrap.
abbrev pub total_vars : VarSpace → ℕ
total_vars s = s.n_dims + s.n_syms

abbrev pub same_as : VarSpace → VarSpace → Bool
same_as s o = s.n_dims == o.n_dims && s.n_syms == o.n_syms

-- coeffs * x + constant is >= 0, or == 0.
pub record ConstraintRow : Type 0 where
  pub coeffs : List ℤ
  pub constant : ℤ
  pub is_equality : Bool

abbrev pub all_coeffs_zero : List ℤ → Bool
all_coeffs_zero [] = true
all_coeffs_zero (c ∷ cs) = eqb_ℤ c (pos 0) && all_coeffs_zero cs

unfoldable pub is_trivially_true : ConstraintRow → Bool
is_trivially_true r =
    if r.is_equality
    then eqb_ℤ r.constant (pos 0) && all_coeffs_zero r.coeffs
    else leb_ℤ (pos 0) r.constant && all_coeffs_zero r.coeffs

unfoldable pub is_trivially_false : ConstraintRow → Bool
is_trivially_false r =
    if r.is_equality
    then not (eqb_ℤ r.constant (pos 0)) && all_coeffs_zero r.coeffs
    else ltb_ℤ r.constant (pos 0) && all_coeffs_zero r.coeffs

-- The coefficient of a variable; 0 out of range.
abbrev pub coeff_of : ConstraintRow → ℕ → ℤ
coeff_of r var = get_or r.coeffs var (pos 0)

unfoldable pub scale_row : ConstraintRow → ℤ → Result ConstraintRow
scale_row row k = if leb_ℤ k (pos 0) then err invalid_argument else do
  cst ← mul_limited row.constant k
  coeffs ← traverse (λ c. mul_limited c k) row.coeffs
  ok (record { coeffs = coeffs; constant = cst; is_equality = row.is_equality })

-- Both loops stop at the end of the shorter row.
unfoldable pub add_rows : ConstraintRow → ConstraintRow → Result ConstraintRow
add_rows a b = do
  cst ← add_limited a.constant b.constant
  coeffs ← traverse_zip add_limited a.coeffs b.coeffs
  ok (record { coeffs = coeffs; constant = cst; is_equality = a.is_equality && b.is_equality })

unfoldable pub sub_rows : ConstraintRow → ConstraintRow → Result ConstraintRow
sub_rows a b = do
  cst ← sub_limited a.constant b.constant
  coeffs ← traverse_zip sub_limited a.coeffs b.coeffs
  ok (record { coeffs = coeffs; constant = cst; is_equality = a.is_equality && b.is_equality })

abbrev pub coeffs_equal : List ℤ → List ℤ → Bool
coeffs_equal [] [] = true
coeffs_equal [] (b ∷ bs) = false
coeffs_equal (a ∷ as') [] = false
coeffs_equal (a ∷ as') (b ∷ bs) = eqb_ℤ a b && coeffs_equal as' bs

abbrev pub bool_equal : Bool → Bool → Bool
bool_equal true b = b
bool_equal false b = not b

unfoldable pub rows_equivalent : ConstraintRow → ConstraintRow → Bool
rows_equivalent a b =
    coeffs_equal a.coeffs b.coeffs
    && eqb_ℤ a.constant b.constant
    && bool_equal a.is_equality b.is_equality
