-- ===== src/Poly/System.antt =====
-- polyhedral/include/mlk/poly/int_set.h (Polyhedron) with its methods in polyhedral/src/int_set.cpp,
-- and `simplifySystem` of that file.
pub mod Eval
pub mod Push
pub mod Laws
pub mod Simplify
pub mod Room
use mlk.Base.{
  ℕ, ◌-◌, Bool, true, false, ◌||◌, Option, none, some, List, [], ◌∷◌, ◌++◌, if◌then◌else◌, ltb, leb,
  length, replicate, ◌&&◌, and_then,
}
use mlk.Base.Int.{ℤ, pos, eqb_ℤ, leb_ℤ}
use mlk.Poly.Checked.{add, mul}
use mlk.Poly.Row.{
  VarSpace, total_vars, ConstraintRow, is_trivially_true, is_trivially_false, rows_equivalent,
}

-- kPolyMaxRowsPerSystem
abbrev pub max_rows_per_system : ℕ
max_rows_per_system = 256

pub record Polyhedron : Type 0 where
  pub space : VarSpace
  pub rows : List ConstraintRow
  pub is_empty_flag : Bool
  pub rows_overflow : Bool

-- `Polyhedron p; p.space = space;`
abbrev pub universe : VarSpace → Polyhedron
universe space = record { space = space; rows = []; is_empty_flag = false; rows_overflow = false }

abbrev pub flagged : Polyhedron → Polyhedron
flagged p = record p { is_empty_flag = true }

-- `row.coeffs.resize(n, 0)` of a shorter row.
abbrev pub widened : ℕ → ConstraintRow → ConstraintRow
widened n row =
    if ltb (length row.coeffs) n
    then record row { coeffs = row.coeffs ++ replicate (n - length row.coeffs) (pos 0) }
    else row

-- `addRow` after the resize.
unfoldable pub push_row : Polyhedron → ConstraintRow → Polyhedron
push_row p row =
    if is_trivially_false row
    then flagged p
    else if is_trivially_true row
    then p
    else if leb max_rows_per_system (length p.rows)
    then record p { rows_overflow = true }
    else record p { rows = p.rows ++ row ∷ [] }

unfoldable pub add_row : Polyhedron → ConstraintRow → Polyhedron
add_row p row = if p.is_empty_flag then p else push_row p (widened (total_vars p.space) row)

abbrev pub add_rows_to : Polyhedron → List ConstraintRow → Polyhedron
add_rows_to p [] = p
add_rows_to p (r ∷ rs) = add_rows_to (add_row p r) rs

unfoldable pub add_inequality : Polyhedron → List ℤ → ℤ → Polyhedron
add_inequality p coeffs constant =
    add_row p (record { coeffs = coeffs; constant = constant; is_equality = false })

unfoldable pub add_equality : Polyhedron → List ℤ → ℤ → Polyhedron
add_equality p coeffs constant =
    add_row p (record { coeffs = coeffs; constant = constant; is_equality = true })

-- The sum of a witness evaluation from `acc`; `none` on overflow. Zero coefficients are passed
-- over. A coordinate past the end is never read where rows are as wide as the space; it counts as
-- an overflow here.
abbrev pub eval_step : ℤ → ℤ → Option ℤ → Option ℤ
eval_step acc c x =
    if eqb_ℤ c (pos 0)
    then some acc
    else and_then x (λ v. and_then (mul c v) (λ term. add acc term))

unfoldable pub eval_terms : ℤ → List ℤ → List ℤ → Option ℤ
eval_terms acc [] xs = some acc
eval_terms acc (c ∷ cs) [] = and_then (eval_step acc c none) (λ acc'. eval_terms acc' cs [])
eval_terms acc (c ∷ cs) (x ∷ xs) =
    and_then (eval_step acc c (some x)) (λ acc'. eval_terms acc' cs xs)

unfoldable pub row_accepts : List ℤ → ConstraintRow → Bool
row_accepts vars r = elim (eval_terms r.constant r.coeffs vars) [
  | none ↦ false
  | some acc ↦ if r.is_equality then eqb_ℤ acc (pos 0) else leb_ℤ (pos 0) acc
]

abbrev pub rows_accept : List ℤ → List ConstraintRow → Bool
rows_accept vars [] = true
rows_accept vars (r ∷ rs) = row_accepts vars r && rows_accept vars rs

unfoldable pub contains_point : Polyhedron → List ℤ → Bool
contains_point p vars =
    if p.is_empty_flag || ltb (length vars) (total_vars p.space)
    then false
    else rows_accept vars p.rows

abbrev pub has_row : List ConstraintRow → ConstraintRow → Bool
has_row [] row = false
has_row (k ∷ kept) row = rows_equivalent k row || has_row kept row

-- The loop of `simplifySystem`; `none` is a contradiction.
unfoldable pub simplify_rows : List ConstraintRow → List ConstraintRow → Option (List ConstraintRow)
simplify_rows kept [] = some kept
simplify_rows kept (r ∷ rs) =
    let rest =
      simplify_rows (if is_trivially_true r || has_row kept r then kept else kept ++ r ∷ []) rs in
    if is_trivially_false r then none else rest

-- A flagged system keeps its rows here; the source leaves some of them moved-from. No code reads
-- the rows of a flagged system.
unfoldable pub simplify_system : Polyhedron → Polyhedron
simplify_system sys = elim (simplify_rows [] sys.rows) [
  | none ↦ flagged sys
  | some kept ↦ record sys { rows = kept }
]
