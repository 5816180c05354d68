-- ===== src/Poly/Lex/Examples.antt =====
-- Runs of the search for lexicographic optima.
use mlk.Base.{◌≡◌, ◌≢◌, refl, if◌then◌else◌, true, false, some, [], ◌∷◌}
use mlk.Base.Int
use mlk.Base.Int.{ℤ, pos, negsuc}
use mlk.Poly.Checked
use mlk.Poly.Row
use mlk.Poly.System
use mlk.Poly.Lex
use mlk.Poly.Row.{VarSpace, ConstraintRow}
use mlk.Poly.System.{Polyhedron}
use mlk.Poly.IntSet.{PresburgerSet, set_contains_point}
use mlk.Poly.Lex.{lex_min, lex_max, cut_short, optimum}
use mlk.Poly.Lex.Ends.{lex_optima_end}
use mlk.Poly.Lex.Sound.{lex_optima_sound}

abbrev line : VarSpace
line = record { n_dims = 1; n_syms = 0 }

abbrev at_least_three : ConstraintRow
at_least_three = record { coeffs = pos 1 ∷ []; constant = negsuc 2; is_equality = false }

abbrev at_most_five : ConstraintRow
at_most_five = record { coeffs = negsuc 0 ∷ []; constant = pos 5; is_equality = false }

abbrev segment : PresburgerSet
segment = record {
  space = line;
  disjuncts =
      record {
        space = line;
        rows = at_least_three ∷ at_most_five ∷ [];
        is_empty_flag = false;
        rows_overflow = false;
      }
      ∷ [];
}

min-segment : (if false then lex_max segment else lex_min segment) ≡ optimum (some (pos 3 ∷ []))
unfolding lex_min Lex.lex_loop Lex.lex_search Lex.branch Lex.project_deeper Lex.interval_of
    Lex.tighten Lex.enter Lex.floor_div Int.tmod Int.wrap64 Int.neg_ℤ Int.tdiv Lex.ceil_div Lex.walk
    Lex.substitute_rows Lex.substitute_value Checked.mul Int.◌*ℤ◌ Int.◌+ℤ◌ Int.◌-ℤ◌ Checked.add
    Checked.add_limited Checked.mul_limited Lex.keep_best Lex.leaf Row.is_trivially_false
    System.contains_point System.eval_terms System.row_accepts
min-segment = refl

lex_optima_sound_example : set_contains_point segment (pos 3 ∷ []) ≡ true
lex_optima_sound_example = lex_optima_sound false segment (pos 3 ∷ []) min-segment

lex_optima_end_example : (lex_min segment ≢ cut_short) × (lex_max segment ≢ cut_short)
lex_optima_end_example = lex_optima_end segment
