-- ===== src/Poly/Examples.antt =====
-- Runs of the polyhedral set code at concrete inputs.
use mlk.Base.{
  ℕ, zero, suc, ◌<◌, get_or, ◌≡◌, refl, Bool, true, false, List, [], ◌∷◌, ◌++◌, length, ◌≤◌, inl,
  arith, ◌↔◌, ◌⊎◌, All,
}
use mlk.Base.Int
use mlk.Base.Int.{ℤ, pos, negsuc, nat_abs, int64_max}
use mlk.Base.Res.{ok, traverse, traverse_zip}
use mlk.Poly.Checked
use mlk.Poly.Row
use mlk.Poly.Row.{VarSpace, ConstraintRow}
use mlk.Poly.System
use mlk.Poly.System.{
  Polyhedron, max_rows_per_system, contains_point, universe, flagged, simplify_system,
}
use mlk.Poly.System.Eval.{Holds, contains_point_exact, IsWide}
use mlk.Poly.System.Simplify.{simplify_system-Holds}
use mlk.Poly.Fm
use mlk.Poly.Fm.{FmOutcome, empty, fm_eliminate}
use mlk.Poly.Fm.Equalities.{Unused}
use mlk.Poly.Fm.Enough.{eliminate_equalities_enough}
use mlk.Poly.Fm.Drops.{Without, fm_eliminate_drops}
use mlk.Poly.Fm.Sound.{fm_eliminate_sound}
use mlk.Poly.Feasibility
use mlk.Poly.Feasibility.{eliminate_all}
use mlk.Poly.Feasibility.Sound.{eliminate_all_sound}
use mlk.Poly.IntSet
use mlk.Poly.IntSet.{
  PresburgerSet, provably_empty, complement, subtract, intersect, unite, exists_project, box,
}
use mlk.Poly.IntSet.Box.{Between, box_exact}
use mlk.Poly.Affine.{AffineExpr}
use mlk.Poly.AffineBox
use mlk.Poly.AffineBox.{affine_box}
use mlk.Poly.AffineBox.Exact.{affine_box_exact, BetweenValues, BoundsFill}
use mlk.Poly.IntSet.Meet.{Contains, RowsWithin}
use mlk.Poly.IntSet.Intersect.{intersect_exact, unite_exact}
use mlk.Poly.IntSet.Empty.{provably_empty_sound}
use mlk.Poly.IntSet.Subtract.{
  complement_correct, subtract_correct, complement_loses_equalities, OnlyInequalities,
}
use mlk.Poly.IntSet.Project.{WideContains, exists_project_sound}

abbrev line : VarSpace
line = record { n_dims = 1; n_syms = 0 }

abbrev row : List ℤ → ℤ → Bool → ConstraintRow
row coeffs constant kind = record { coeffs = coeffs; constant = constant; is_equality = kind }

abbrev at_least_three : ConstraintRow
at_least_three = row (pos 1 ∷ []) (negsuc 2) false

abbrev at_most_one : ConstraintRow
at_most_one = row (negsuc 0 ∷ []) (pos 1) false

abbrev at_zero : ConstraintRow
at_zero = row (pos 1 ∷ []) (pos 0) true

abbrev system : List ConstraintRow → Polyhedron
system rows = record { space = line; rows = rows; is_empty_flag = false; rows_overflow = false }

abbrev one_disjunct : Polyhedron → PresburgerSet
one_disjunct p = record { space = p.space; disjuncts = p ∷ [] }

abbrev contradictory : Polyhedron
contradictory = system (at_least_three ∷ at_most_one ∷ [])

abbrev no_point : PresburgerSet
no_point = one_disjunct contradictory

abbrev high : PresburgerSet
high = one_disjunct (system (at_least_three ∷ []))

abbrev low : PresburgerSet
low = one_disjunct (system (at_most_one ∷ []))

abbrev origin : PresburgerSet
origin = one_disjunct (system (at_zero ∷ []))

abbrev one : List ℤ
one = pos 1 ∷ []

one_in_low : Holds one (system (at_most_one ∷ []))
unfolding Int.◌+ℤ◌ Int.◌*ℤ◌
one_in_low = record { live = refl; all_rows = (omega arith, tt) }

eliminate_all-contradictory : eliminate_all contradictory ≡ ok empty
unfolding eliminate_all Feasibility.eliminate_rounds Feasibility.pick_var Feasibility.better
    Feasibility.count_uses fm_eliminate Fm.eliminate_equalities Fm.find_equality Fm.combine_signs
    Fm.rows_where Fm.combine_all Fm.combine_with Fm.combine_pair Row.scale_row Row.add_rows
    Checked.add Checked.mul Checked.add_limited Checked.mul_limited traverse traverse_zip
    System.simplify_system System.simplify_rows Row.is_trivially_false Row.is_trivially_true
    Row.rows_equivalent System.add_row System.push_row Int.neg_ℤ Int.wrap64 Int.◌*ℤ◌ Int.◌+ℤ◌
    Int.◌-ℤ◌
eliminate_all-contradictory = refl

provably_empty-no_point : provably_empty no_point ≡ ok true
unfolding provably_empty IntSet.feasibility IntSet.feasibility_of
provably_empty-no_point = rw eliminate_all-contradictory refl

provably_empty_sound_example : ¬ Contains one no_point
provably_empty_sound_example =
    provably_empty_sound no_point ((refl, (refl, tt)), tt) provably_empty-no_point one

eliminate_all_sound_example : ¬ Holds one contradictory
eliminate_all_sound_example =
    eliminate_all_sound contradictory (refl, (refl, tt)) eliminate_all-contradictory one

fm_eliminate-low :
    fm_eliminate (system (at_most_one ∷ [])) 0
    ≡ ok (record { is_empty = false; budget_exceeded = false; projected = universe line })
unfolding fm_eliminate Fm.eliminate_equalities Fm.find_equality Fm.combine_signs Fm.rows_where
    Fm.combine_all Fm.combine_with Fm.combine_pair Row.scale_row Row.add_rows Checked.add
    Checked.mul Checked.add_limited Checked.mul_limited traverse traverse_zip System.simplify_system
    System.simplify_rows Row.is_trivially_false Row.is_trivially_true Row.rows_equivalent
    System.add_row System.push_row Int.neg_ℤ Int.wrap64 Int.◌*ℤ◌ Int.◌+ℤ◌ Int.◌-ℤ◌
fm_eliminate-low = refl

fm_eliminate_sound_example :
    (false ≡ false) × Holds one (universe line) × IsWide (universe line) × (line ≡ line)
fm_eliminate_sound_example =
    fm_eliminate_sound one (system (at_most_one ∷ [])) 0 (refl, tt) one_in_low fm_eliminate-low

exists_project-low : exists_project low (false ∷ []) ≡ ok (one_disjunct (universe line))
unfolding exists_project IntSet.exists_loop IntSet.project_out IntSet.project_disjuncts
    IntSet.project_disjunct
exists_project-low = rw fm_eliminate-low refl

exists_project_sound_example : WideContains one (one_disjunct (universe line))
exists_project_sound_example =
    exists_project_sound low (false ∷ []) exists_project-low one (inl ((refl, tt), one_in_low))

intersect-high-low : intersect high low ≡ ok no_point
unfolding intersect IntSet.intersect_all IntSet.intersect_with IntSet.intersect_pair
    System.simplify_system System.simplify_rows Row.is_trivially_false Row.is_trivially_true
    Row.rows_equivalent System.add_row System.push_row Int.neg_ℤ Int.wrap64 Int.◌*ℤ◌ Int.◌+ℤ◌
    Int.◌-ℤ◌
intersect-high-low = refl

intersect_exact_example :
    ((x : List ℤ) → Contains x no_point ↔ (Contains x high × Contains x low))
    × All (RowsWithin 2) no_point.disjuncts
intersect_exact_example =
    intersect_exact high low 1 1 (omega arith) (omega arith, tt) (omega arith, tt)
      intersect-high-low

abbrev either : PresburgerSet
either = record {
  space = line;
  disjuncts = system (at_least_three ∷ []) ∷ system (at_most_one ∷ []) ∷ [];
}

unite-high-low : unite high low ≡ ok either
unfolding unite IntSet.append_disjuncts
unite-high-low = refl

unite_exact_example :
    (either.disjuncts ≡ high.disjuncts ++ low.disjuncts)
    × ((x : List ℤ) → Contains x either ↔ (Contains x high ⊎ Contains x low))
unite_exact_example = unite_exact high low unite-high-low

-- x >= 2
abbrev not_low : PresburgerSet
not_low = one_disjunct (system (row (pos 1 ∷ []) (negsuc 1) false ∷ []))

complement-low : complement low ≡ ok not_low
unfolding complement IntSet.complement_all IntSet.complement_step IntSet.complement_disjunct
    IntSet.negate_rows IntSet.negate_row intersect IntSet.intersect_all IntSet.intersect_with
    IntSet.intersect_pair System.simplify_system System.simplify_rows Row.is_trivially_false
    Row.is_trivially_true Row.rows_equivalent System.add_row System.push_row Int.neg_ℤ Int.wrap64
    Int.◌*ℤ◌ Int.◌+ℤ◌ Int.◌-ℤ◌
complement-low = refl

complement_correct_example :
    ((x : List ℤ) → Contains x not_low → ¬ Contains x low)
    × (OnlyInequalities low → (x : List ℤ) → Contains x low ⊎ Contains x not_low)
complement_correct_example =
    complement_correct low (omega arith) (((omega arith, (omega arith, tt)), tt), tt) complement-low

-- x >= 3 and x >= 2
abbrev high_not_low : PresburgerSet
high_not_low = one_disjunct (system (at_least_three ∷ row (pos 1 ∷ []) (negsuc 1) false ∷ []))

subtract-high-low : subtract high low ≡ ok high_not_low
unfolding subtract intersect IntSet.intersect_all IntSet.intersect_with IntSet.intersect_pair
    System.simplify_system System.simplify_rows Row.is_trivially_false Row.is_trivially_true
    Row.rows_equivalent System.add_row System.push_row Int.neg_ℤ Int.wrap64 Int.◌*ℤ◌ Int.◌+ℤ◌
    Int.◌-ℤ◌
subtract-high-low = rw complement-low refl

subtract_correct_example :
    ((x : List ℤ) → Contains x high_not_low → Contains x high × ¬ Contains x low)
    × (OnlyInequalities low
        → (x : List ℤ) → Contains x high
        → ¬ Contains x low
        → Contains x high_not_low)
subtract_correct_example =
    subtract_correct high low 1 (omega arith) (omega arith, tt)
      (((omega arith, (omega arith, tt)), tt), tt) subtract-high-low

-- x >= 1 and x <= -1, the code's complement of x = 0
abbrev not_origin : PresburgerSet
not_origin =
    one_disjunct
      (system (row (pos 1 ∷ []) (negsuc 0) false ∷ row (negsuc 0 ∷ []) (negsuc 0) false ∷ []))

complement-origin : complement origin ≡ ok not_origin
unfolding complement IntSet.complement_all IntSet.complement_step IntSet.complement_disjunct
    IntSet.negate_rows IntSet.negate_row intersect IntSet.intersect_all IntSet.intersect_with
    IntSet.intersect_pair System.simplify_system System.simplify_rows Row.is_trivially_false
    Row.is_trivially_true Row.rows_equivalent System.add_row System.push_row Int.neg_ℤ Int.wrap64
    Int.◌*ℤ◌ Int.◌+ℤ◌ Int.◌-ℤ◌
complement-origin = refl

complement_loses_equalities_example : ¬ Contains one not_origin
complement_loses_equalities_example =
    complement_loses_equalities origin (omega arith) (((omega arith, (omega arith, tt)), tt), tt)
      (inl (refl, (refl, tt))) complement-origin one

-- 2 ^ 62 x - 2 ^ 62 y = 0, at x = y = 1: the products add up to more than int64_t holds, and the sums
-- stay in range.
abbrev balanced : Polyhedron
balanced = record {
  space = record { n_dims = 2; n_syms = 0 };
  rows = row (pos 4611686018427387904 ∷ negsuc 4611686018427387903 ∷ []) (pos 0) true ∷ [];
  is_empty_flag = false;
  rows_overflow = false;
}

abbrev diagonal : List ℤ
diagonal = pos 1 ∷ pos 1 ∷ []

contains_point_exact_example : contains_point balanced diagonal ≡ true ↔ Holds diagonal balanced
unfolding Int.◌*ℤ◌ Int.◌+ℤ◌
contains_point_exact_example = contains_point_exact balanced diagonal (omega arith) (
  (
    omega arith,
    (
      (omega arith, omega arith),
      (omega arith, omega arith),
      ((omega arith, omega arith), (omega arith, omega arith), tt),
    ),
  ),
  tt,
)

simplify_system-Holds_example : Holds one (simplify_system contradictory) ↔ Holds one contradictory
simplify_system-Holds_example = simplify_system-Holds contradictory one

fm_eliminate_drops_example :
    All (Without 0) (universe line).rows
    × (length (universe line).rows ≤ max_rows_per_system)
    × (false ≡ false)
fm_eliminate_drops_example =
    fm_eliminate_drops (system (at_most_one ∷ [])) 0 (refl, tt)
      (((omega arith, omega arith), tt), tt) fm_eliminate-low

eliminate_equalities-origin :
    Fm.eliminate_equalities 1 0 (system (at_zero ∷ [])) ≡ ok (universe line)
unfolding Fm.eliminate_equalities Fm.find_equality Fm.substitute_equality traverse
    System.simplify_system System.simplify_rows Row.is_trivially_false Row.is_trivially_true
    Row.rows_equivalent
eliminate_equalities-origin = refl

eliminate_equalities_enough_example : (false ≡ true) ⊎ All (Unused 0) (universe line).rows
eliminate_equalities_enough_example =
    eliminate_equalities_enough 0 (system (at_zero ∷ [])) eliminate_equalities-origin

-- 1 <= x <= 3
abbrev one_to_three : PresburgerSet
one_to_three =
    one_disjunct
      (system (row (pos 1 ∷ []) (negsuc 0) false ∷ row (negsuc 0 ∷ []) (pos 3) false ∷ []))

box-one-three : box line (pos 1 ∷ []) (pos 3 ∷ []) ≡ ok one_to_three
unfolding box IntSet.box_rows System.add_row System.push_row Row.is_trivially_false
    Row.is_trivially_true Row.rows_equivalent Int.neg_ℤ Int.wrap64 Int.◌*ℤ◌ Int.◌+ℤ◌ Int.◌-ℤ◌
box-one-three = refl

fits_one : (i : ℕ) → i < 1 → nat_abs (get_or (pos 1 ∷ []) i (pos 0)) ≤ int64_max
fits_one zero h = omega arith
fits_one (suc i) h = absurd (omega arith)

box_exact_example :
    Contains one one_to_three ↔ ((i : ℕ) → i < 1 → Between (pos 1 ∷ []) (pos 3 ∷ []) one i)
box_exact_example =
    box_exact line (pos 1 ∷ []) (pos 3 ∷ []) (omega arith) fits_one box-one-three one

abbrev constant_bound : ℤ → AffineExpr
constant_bound v = record { space = line; coeffs = pos 0 ∷ []; constant = v }

affine_box-one-three :
    affine_box line (constant_bound (pos 1) ∷ []) (constant_bound (pos 3) ∷ []) ≡ ok one_to_three
unfolding affine_box AffineBox.affine_rows AffineBox.lower_bound_row AffineBox.upper_bound_row
    traverse_zip Checked.add Checked.sub Checked.add_limited Checked.sub_limited System.add_row
    System.push_row Row.is_trivially_false Row.is_trivially_true Row.rows_equivalent Int.neg_ℤ
    Int.wrap64 Int.◌*ℤ◌ Int.◌+ℤ◌ Int.◌-ℤ◌
affine_box-one-three = refl

fills_line :
    (i : ℕ)
    → i < 1
    → BoundsFill line (constant_bound (pos 1) ∷ []) (constant_bound (pos 3) ∷ []) one i
fills_line zero h = (refl, refl)
fills_line (suc i) h = absurd (omega arith)

affine_box_exact_example : Contains one one_to_three ↔ (
    (i : ℕ)
    → i < 1
    → BetweenValues line (constant_bound (pos 1) ∷ []) (constant_bound (pos 3) ∷ []) one i)
affine_box_exact_example =
    affine_box_exact line (constant_bound (pos 1) ∷ []) (constant_bound (pos 3) ∷ []) one
      (omega arith) fills_line affine_box-one-three
