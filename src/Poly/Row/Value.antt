-- ===== src/Poly/Row/Value.antt =====
-- The value of a row at a point, and when a point satisfies a row.
use mlk.Base.{ℕ, zero, suc, replicate, ◌≡◌, refl, ap₂, ◌∙◌, Bool, true, false, List, [], ◌∷◌, arith}
use mlk.Base.Int
use mlk.Base.Int.{ℤ, pos, int_laws, pos_part, neg_part, ◌+ℤ◌, ◌*ℤ◌, ◌≤ℤ◌, leb_ℤ, ltb_ℤ, eqb_ℤ}
use mlk.Poly.Row.{
  ConstraintRow, is_trivially_true, is_trivially_false, all_coeffs_zero, coeffs_equal,
  rows_equivalent,
}

-- The linear form at a point; coordinates or coefficients past the end of the other count as 0.
abbrev pub dot : List ℤ → List ℤ → ℤ
dot [] xs = pos 0
dot (c ∷ cs) [] = pos 0
dot (c ∷ cs) (x ∷ xs) = c *ℤ x +ℤ dot cs xs

abbrev pub row_value : ConstraintRow → List ℤ → ℤ
row_value r x = dot r.coeffs x +ℤ r.constant

abbrev pub Satisfies : Bool → ℤ → Type 0
Satisfies true v = v ≡ pos 0
Satisfies false v = pos 0 ≤ℤ v

-- The point satisfies the row.
abbrev pub RowHolds : List ℤ → ConstraintRow → Type 0
RowHolds x r = Satisfies r.is_equality (row_value r x)

-- A row of zeros has the value 0 everywhere.
pub zeros_dot : (n : ℕ) (x : List ℤ) → dot (replicate n (pos 0)) x ≡ pos 0
zeros_dot zero x = refl
zeros_dot (suc n) [] = refl
zeros_dot (suc n) (v ∷ x) = rw (Int.zero-*ℤ v, zeros_dot n x) (omega int_laws)

pub dot_zero : (cs xs : List ℤ) → all_coeffs_zero cs ≡ true → dot cs xs ≡ pos 0
dot_zero [] xs h = refl
dot_zero (c ∷ cs) [] h = refl
dot_zero (c ∷ cs) (x ∷ xs) h =
    let c0 : c ≡ pos 0 = ground arith in
    let rest : dot cs xs ≡ pos 0 = dot_zero cs xs (ground arith) in
    rw (c0, rest) (Int.+ℤ-zero _ ∙ Int.zero-*ℤ x)

-- A row with no variable has its constant for a value.
constant_value :
    (r : ConstraintRow) (x : List ℤ) → all_coeffs_zero r.coeffs ≡ true → row_value r x ≡ r.constant
constant_value r x h = rw (dot_zero r.coeffs x h) (Int.zero-+ℤ r.constant)

-- A trivially true row holds everywhere, and a trivially false one nowhere.
pub is_trivially_true_sound :
    (r : ConstraintRow) (x : List ℤ) → is_trivially_true r ≡ true → RowHolds x r
unfolding is_trivially_true
is_trivially_true_sound r x h = ground (arith, constant_value r x)

pub is_trivially_false_sound :
    (r : ConstraintRow) (x : List ℤ) → is_trivially_false r ≡ true → ¬ RowHolds x r
unfolding is_trivially_false
is_trivially_false_sound r x h = ground (arith, constant_value r x)

coeffs_equal_eq : (as' bs : List ℤ) → coeffs_equal as' bs ≡ true → as' ≡ bs
coeffs_equal_eq [] [] h = refl
coeffs_equal_eq [] (b ∷ bs) h = cc
coeffs_equal_eq (a ∷ as') [] h = cc
coeffs_equal_eq (a ∷ as') (b ∷ bs) h =
    let p : eqb_ℤ a b ≡ true = ground arith in
    let q : coeffs_equal as' bs ≡ true = ground arith in
    ap₂ ◌∷◌ ((Int.eqb_ℤ_iff a b).0 p) (coeffs_equal_eq as' bs q)

-- Rows that the code takes for duplicates are equal.
pub rows_equivalent_eq : (a b : ConstraintRow) → rows_equivalent a b ≡ true → a ≡ b
unfolding rows_equivalent
rows_equivalent_eq a b h = ground (arith, coeffs_equal_eq a.coeffs b.coeffs)
