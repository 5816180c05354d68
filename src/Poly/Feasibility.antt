-- ===== src/Poly/Feasibility.antt =====
-- `eliminateAll` of polyhedral/src/int_set.cpp: the tri-state feasibility of one system, and the wrappers
-- of namespace detail.
pub mod Sound
use mlk.Base.{
  ℕ, zero, suc, ◌+◌, Bool, true, false, ◌||◌, Option, none, some, List, [], ◌∷◌, if◌then◌else◌, ltb,
}
use mlk.Base.Int.{pos, eqb_ℤ}
use mlk.Base.Res.{Result, ok, err, ◌>>=◌, resource_exhausted}
use mlk.Poly.Row.{total_vars, ConstraintRow, coeff_of, is_trivially_false}
use mlk.Poly.System.{Polyhedron, simplify_system}
use mlk.Poly.Fm.{FmOutcome, Feasibility, empty, non_empty, unknown, fm_eliminate}

-- The number of rows that mention a variable.
unfoldable pub count_uses : ℕ → List ConstraintRow → ℕ
count_uses v [] = 0
count_uses v (r ∷ rs) =
    let rest = count_uses v rs in if eqb_ℤ (coeff_of r v) (pos 0) then rest else rest + 1

-- The best variable so far with its count, and one more candidate.
unfoldable pub better : ℕ → ℕ → Option (ℕ × ℕ) → Option (ℕ × ℕ)
better v zero best = best
better v (suc cnt) none = some (v, suc cnt)
better v (suc cnt) (some (w, c)) = if ltb (suc cnt) c then some (v, suc cnt) else some (w, c)

-- The loop over the variables from `v` on, with `left` of them to go.
unfoldable pub pick_var : ℕ → ℕ → List ConstraintRow → Option (ℕ × ℕ) → Option (ℕ × ℕ)
pick_var zero v rows best = best
pick_var (suc left) v rows best = pick_var left (v + 1) rows (better v (count_uses v rows) best)

abbrev pub any_trivially_false : List ConstraintRow → Bool
any_trivially_false [] = false
any_trivially_false (r ∷ rs) = is_trivially_false r || any_trivially_false rs

-- The tests on a system that was just simplified; `more` is the rest of the loop.
abbrev pub settle : (Polyhedron → Result Feasibility) → Polyhedron → Result Feasibility
settle more sys =
    if sys.is_empty_flag then ok empty else if sys.rows_overflow then ok unknown else more sys

-- What a round does with the outcome of its elimination.
abbrev pub after_round : (Polyhedron → Result Feasibility) → FmOutcome → Result Feasibility
after_round more fm =
    if fm.is_empty
    then ok empty
    else if fm.budget_exceeded
    then ok unknown
    else settle more (simplify_system fm.projected)

unfoldable pub eliminate_rounds : ℕ → Polyhedron → Result Feasibility
eliminate_rounds zero sys = if any_trivially_false sys.rows then ok empty else ok non_empty
eliminate_rounds (suc round) sys = elim (pick_var (total_vars sys.space) 0 sys.rows none) [
  | none ↦ ok non_empty
  | some (var, _) ↦ fm_eliminate sys var >>= (λ fm. after_round (eliminate_rounds round) fm)
]

unfoldable pub eliminate_all : Polyhedron → Result Feasibility
eliminate_all sys = settle (eliminate_rounds (total_vars sys.space)) (simplify_system sys)

-- `detail::fmEliminateVar`: the rows that are left, or none where the system is empty.
unfoldable pub fm_eliminate_var : Polyhedron → ℕ → Result (Option (List ConstraintRow))
fm_eliminate_var sys var = do
  fm ← fm_eliminate sys var
  if fm.is_empty
      then ok none
      else if fm.budget_exceeded
      then err resource_exhausted
      else ok (some fm.projected.rows)

-- `detail::systemFeasibility`
abbrev pub system_feasibility : Polyhedron → Result Feasibility
system_feasibility sys = eliminate_all sys
