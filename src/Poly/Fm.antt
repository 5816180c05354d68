-- ===== src/Poly/Fm.antt =====
-- `fmEliminate` and `eliminateAll` of polyhedral/src/int_set.cpp: Fourier-Motzkin elimination of one
-- variable, and the feasibility test that eliminates all of them.
pub mod Merge
pub mod Equalities
pub mod Keeps
pub mod Pairs
pub mod Sound
pub mod Enough
pub mod Zero
pub mod Drops
use mlk.Base.{
  ℕ, zero, suc, Bool, true, false, not, ◌||◌, ◌&&◌, Option, none, some, List, [], ◌∷◌, ◌++◌,
  if◌then◌else◌, ltb, leb, length, ◌+◌,
}
use mlk.Base.Int.{ℤ, pos, negsuc, eqb_ℤ, ltb_ℤ, leb_ℤ, neg64, mul64}
use mlk.Base.Res.{Result, ok, err, ◌>>=◌, traverse}
use mlk.Poly.Row.{
  VarSpace, total_vars, ConstraintRow, coeff_of, scale_row, add_rows, sub_rows, is_trivially_false,
}
use mlk.Poly.System.{Polyhedron, universe, add_row, add_rows_to, simplify_system}

-- kPolyFmMaxIntermediateRows
abbrev pub fm_max_intermediate_rows : ℕ
fm_max_intermediate_rows = 512

pub data Feasibility : Type 0 where
  empty non_empty unknown : Feasibility

pub record FmOutcome : Type 0 where
  pub is_empty : Bool
  pub budget_exceeded : Bool
  pub projected : Polyhedron

-- The first equality that mentions the variable, between the rows before it and after it.
pub record Split : Type 0 where
  pub before : List ConstraintRow
  pub eq : ConstraintRow
  pub after : List ConstraintRow

abbrev uses : ℕ → ConstraintRow → Bool
uses var r = not (eqb_ℤ (coeff_of r var) (pos 0))

abbrev put_before : ConstraintRow → Option Split → Option Split
put_before r none = none
put_before r (some s) = some (record s { before = r ∷ s.before })

unfoldable pub find_equality : ℕ → List ConstraintRow → Option Split
find_equality var [] = none
find_equality var (r ∷ rs) =
    let rest = find_equality var rs in
    if r.is_equality && uses var r
    then some (record { before = []; eq = r; after = rs })
    else put_before r rest

-- The locals of the merge, for the coefficients `cv` of the equality and `cw` of the other row. The
-- products and negations are unchecked int64_t.
abbrev pub sign_of : ℤ → ℤ
sign_of cv = if ltb_ℤ (pos 0) cv then pos 1 else negsuc 0

abbrev pub abs_of : ℤ → ℤ
abs_of cv = if ltb_ℤ (pos 0) cv then cv else neg64 cv

abbrev pub factor_of : ℤ → ℤ → ℤ
factor_of cv cw = mul64 cw (sign_of cv)

abbrev pub size_of : ℤ → ℤ
size_of factor = if ltb_ℤ factor (pos 0) then neg64 factor else factor

-- `merged = |cv| * w - (cw * sign(cv)) * eq`, without the variable.
unfoldable pub merge_equality : ℕ → ConstraintRow → ConstraintRow → Result ConstraintRow
merge_equality var eq w =
    let cv = coeff_of eq var in
    let cw = coeff_of w var in
    let factor = factor_of cv cw in
    if eqb_ℤ cw (pos 0) then ok w else do
      ws ← scale_row w (abs_of cv)
      eq_scaled ← scale_row eq (size_of factor)
      if leb_ℤ (pos 0) factor then sub_rows ws eq_scaled else add_rows ws eq_scaled

-- The equality after its use: a trivially true row.
abbrev pub consumed : ConstraintRow
consumed = record { coeffs = []; constant = pos 0; is_equality = false }

unfoldable pub substitute_equality : ℕ → Polyhedron → Split → Result Polyhedron
substitute_equality var sys s = do
  before ← traverse (merge_equality var s.eq) s.before
  after ← traverse (merge_equality var s.eq) s.after
  ok (simplify_system (record sys { rows = before ++ consumed ∷ after }))

-- One round of phase 1 on a live system, which goes `again` after a substitution.
abbrev pub search_round :
    (Polyhedron → Result Polyhedron) → ℕ → Polyhedron → Option Split → Result Polyhedron
search_round again var sys none = ok sys
search_round again var sys (some s) = substitute_equality var sys s >>= again

-- Phase 1. Each round uses up a row, so as many rounds as rows are enough.
unfoldable pub eliminate_equalities : ℕ → ℕ → Polyhedron → Result Polyhedron
eliminate_equalities zero var sys = ok sys
eliminate_equalities (suc fuel) var sys = elim sys.is_empty_flag [
  | true ↦ ok sys
  | false ↦ search_round (eliminate_equalities fuel var) var sys (find_equality var sys.rows)
]

-- The rows whose coefficient of the variable passes a test, in order.
unfoldable pub rows_where : (ℤ → Bool) → ℕ → List ConstraintRow → List ConstraintRow
rows_where test var [] = []
rows_where test var (r ∷ rs) =
    let rest = rows_where test var rs in if test (coeff_of r var) then r ∷ rest else rest

-- The pairwise loops go on with a system, or stop with an outcome.
pub data Pairing : Type 0 where
  going : Polyhedron → Pairing
  stop : FmOutcome → Pairing

abbrev stop_empty : Polyhedron → FmOutcome
stop_empty p = record { is_empty = true; budget_exceeded = false; projected = p }

abbrev stop_budget : Polyhedron → FmOutcome
stop_budget p = record { is_empty = false; budget_exceeded = true; projected = p }

-- `p * (-cn) + n * cp`, which drops the variable.
unfoldable pub combine_pair : ℕ → ConstraintRow → ConstraintRow → Result ConstraintRow
combine_pair var p n = do
  ps ← scale_row p (neg64 (coeff_of n var))
  ns ← scale_row n (coeff_of p var)
  add_rows ps ns

unfoldable pub combine_with : ℕ → ConstraintRow → List ConstraintRow → Polyhedron → Result Pairing
combine_with var p [] acc = ok (going acc)
combine_with var p (n ∷ ns) acc = elim (leb fm_max_intermediate_rows (length acc.rows)) [
  | true ↦ ok (stop (stop_budget acc))
  | false ↦ combine_pair var p n >>= (λ merged. elim (add_row acc merged).is_empty_flag [
    | true ↦ ok (stop (stop_empty (add_row acc merged)))
    | false ↦ combine_with var p ns (add_row acc merged)
  ])
]

unfoldable pub combine_all :
    ℕ → List ConstraintRow → List ConstraintRow → Polyhedron → Result Pairing
combine_all var [] ns acc = ok (going acc)
combine_all var (p ∷ ps) ns acc =
    combine_with var p ns acc
    >>= (λ done. elim done [ going next ↦ combine_all var ps ns next | stop out ↦ ok (stop out) ])

abbrev finish : Pairing → FmOutcome
finish (stop out) = out
finish (going acc) =
    let last = simplify_system acc in
    record { is_empty = last.is_empty_flag; budget_exceeded = false; projected = last }

-- Phase 2, on the rows left by phase 1.
unfoldable pub combine_signs : ℕ → Polyhedron → Result FmOutcome
combine_signs var sys =
    let neutral = rows_where (λ c. eqb_ℤ c (pos 0)) var sys.rows in
    let positive = rows_where (λ c. ltb_ℤ (pos 0) c) var sys.rows in
    let negative = rows_where (λ c. ltb_ℤ c (pos 0)) var sys.rows in
    let start = add_rows_to (universe sys.space) neutral in
    if start.is_empty_flag
    then ok (stop_empty start)
    else combine_all var positive negative start >>= (λ done. ok (finish done))

unfoldable pub fm_eliminate : Polyhedron → ℕ → Result FmOutcome
fm_eliminate sys var = do
  left ← eliminate_equalities (length sys.rows) var sys
  if left.is_empty_flag then ok (stop_empty (universe sys.space)) else combine_signs var left
