-- ===== src/Poly/IntSet.antt =====
-- polyhedral/include/mlk/poly/int_set.h (PresburgerSet) with its set operations in
-- polyhedral/src/int_set.cpp.
pub mod Meet
pub mod Intersect
pub mod Empty
pub mod Negate
pub mod Complement
pub mod Subtract
pub mod Project
pub mod Box
use mlk.Base.{
  ℕ, zero, suc, ◌+◌, Bool, true, false, not, ◌||◌, ◌&&◌, Option, none, some, List, [], ◌∷◌, ◌++◌,
  map, if◌then◌else◌, ltb, leb, length, replicate, set, get_or,
}
use mlk.Base.Int.{ℤ, pos, negsuc, neg64, sub64}
use mlk.Base.Res.{Result, ok, err, ◌>>=◌, invalid_argument, resource_exhausted}
use mlk.Poly.Row.{VarSpace, total_vars, same_as, ConstraintRow}
use mlk.Poly.System.{Polyhedron, universe, flagged, add_row, add_rows_to, simplify_system}
use mlk.Poly.System
use mlk.Poly.Fm.{FmOutcome, Feasibility, empty, non_empty, unknown, fm_eliminate}
use mlk.Poly.Feasibility.{eliminate_all}

-- kPolyMaxDisjuncts
abbrev pub max_disjuncts : ℕ
max_disjuncts = 64

pub record PresburgerSet : Type 0 where
  pub space : VarSpace
  pub disjuncts : List Polyhedron

-- `PresburgerSet::empty`
abbrev pub empty_set : VarSpace → PresburgerSet
empty_set space = record { space = space; disjuncts = flagged (universe space) ∷ [] }

-- The row `c * x_d + constant >= 0`.
abbrev pub unit_row : VarSpace → ℕ → ℤ → ℤ → ConstraintRow
unit_row space d c constant = record {
  coeffs = set (replicate (total_vars space) (pos 0)) d c;
  constant = constant;
  is_equality = false;
}

-- The loop over the dimensions of a box, `left` of them from `d` on.
unfoldable pub box_rows : VarSpace → List ℤ → List ℤ → ℕ → ℕ → Polyhedron → Polyhedron
box_rows space lower upper zero d p = p
box_rows space lower upper (suc left) d p = box_rows space lower upper left (suc d) (
    add_row (add_row p (unit_row space d (pos 1) (neg64 (get_or lower d (pos 0)))))
      (unit_row space d (negsuc 0) (get_or upper d (pos 0))))

unfoldable pub box : VarSpace → List ℤ → List ℤ → Result PresburgerSet
box space lower upper =
    if ltb (length lower) space.n_dims || ltb (length upper) space.n_dims
    then err invalid_argument
    else ok (record {
      space = space;
      disjuncts = box_rows space lower upper space.n_dims 0 (universe space) ∷ [];
    })

-- The conjunction of two systems.
abbrev pub meet : VarSpace → Polyhedron → Polyhedron → Polyhedron
meet space pa pb = simplify_system (add_rows_to (add_rows_to (universe space) pa.rows) pb.rows)

-- The body of the inner loop of `intersect`.
unfoldable pub intersect_pair :
    VarSpace → Polyhedron → Polyhedron → List Polyhedron → Result (List Polyhedron)
intersect_pair space pa pb out =
    if pb.is_empty_flag
    then ok out
    else if leb max_disjuncts (length out)
    then err resource_exhausted
    else ok (out ++ meet space pa pb ∷ [])

unfoldable pub intersect_with :
    VarSpace → Polyhedron → List Polyhedron → List Polyhedron → Result (List Polyhedron)
intersect_with space pa [] out = ok out
intersect_with space pa (pb ∷ bs) out = do
  next ← intersect_pair space pa pb out
  intersect_with space pa bs next

unfoldable pub intersect_all :
    VarSpace → List Polyhedron → List Polyhedron → List Polyhedron → Result (List Polyhedron)
intersect_all space [] bs out = ok out
intersect_all space (pa ∷ as') bs out = do
  next ← if pa.is_empty_flag then ok out else intersect_with space pa bs out
  intersect_all space as' bs next

-- A set with no disjunct gets an empty one.
abbrev pub or_empty : VarSpace → List Polyhedron → List Polyhedron
or_empty space [] = flagged (universe space) ∷ []
or_empty space (p ∷ ps) = p ∷ ps

unfoldable pub intersect : PresburgerSet → PresburgerSet → Result PresburgerSet
intersect a b = if not (same_as a.space b.space) then err invalid_argument else do
  out ← intersect_all a.space a.disjuncts b.disjuncts []
  ok (record { space = a.space; disjuncts = or_empty a.space out })

unfoldable pub append_disjuncts : List Polyhedron → List Polyhedron → Result (List Polyhedron)
append_disjuncts out [] = ok out
append_disjuncts out (p ∷ ps) =
    let rest = append_disjuncts (out ++ p ∷ []) ps in
    if leb max_disjuncts (length out) then err resource_exhausted else rest

unfoldable pub unite : PresburgerSet → PresburgerSet → Result PresburgerSet
unite a b = if not (same_as a.space b.space) then err invalid_argument else do
  first ← append_disjuncts [] a.disjuncts
  out ← append_disjuncts first b.disjuncts
  ok (record { space = a.space; disjuncts = out })

-- `-c*x - k - 1 >= 0`, with unchecked int64_t arithmetic.
abbrev pub below_row : ConstraintRow → ConstraintRow
below_row r = record {
  coeffs = map neg64 r.coeffs;
  constant = sub64 (neg64 r.constant) (pos 1);
  is_equality = false;
}

-- `c*x + k - 1 >= 0`.
abbrev pub above_row : ConstraintRow → ConstraintRow
above_row r = record { coeffs = r.coeffs; constant = sub64 r.constant (pos 1); is_equality = false }

-- The disjunct for the negation of one row. For an equality the source puts both rows into one
-- system.
unfoldable pub negate_row : VarSpace → ConstraintRow → Polyhedron
negate_row space r =
    if r.is_equality
    then add_row (add_row (universe space) (above_row r)) (below_row r)
    else add_row (universe space) (below_row r)

-- The loop over the rows of one disjunct.
unfoldable pub negate_rows :
    VarSpace → List ConstraintRow → List Polyhedron → Result (List Polyhedron)
negate_rows space [] out = ok out
negate_rows space (r ∷ rs) out =
    let rest = negate_rows space rs (out ++ negate_row space r ∷ []) in
    if ltb max_disjuncts (length out + 1) then err resource_exhausted else rest

unfoldable pub complement_disjunct : VarSpace → Polyhedron → Result (List Polyhedron)
complement_disjunct space p =
    negate_rows space p.rows (elim p.rows [ [] ↦ flagged (universe space) ∷ [] | _ ∷ _ ↦ [] ])

unfoldable pub complement_step : VarSpace → Polyhedron → PresburgerSet → Result PresburgerSet
complement_step space p acc = if p.is_empty_flag then ok acc else do
  ds ← complement_disjunct space p
  intersect acc (record { space = space; disjuncts = ds })

unfoldable pub complement_all : VarSpace → List Polyhedron → PresburgerSet → Result PresburgerSet
complement_all space [] acc = ok acc
complement_all space (p ∷ ps) acc = do
  next ← complement_step space p acc
  complement_all space ps next

unfoldable pub complement : PresburgerSet → Result PresburgerSet
complement a =
    complement_all a.space a.disjuncts
      (record { space = a.space; disjuncts = universe a.space ∷ [] })

unfoldable pub subtract : PresburgerSet → PresburgerSet → Result PresburgerSet
subtract a b = do notb ← complement b; intersect a notb

-- The loop of `feasibility`, with the flag `sawUnknown`.
abbrev pub after_feasibility : (Bool → Result Feasibility) → Bool → Feasibility → Result Feasibility
after_feasibility more saw non_empty = ok non_empty
after_feasibility more saw unknown = more true
after_feasibility more saw empty = more saw

unfoldable pub feasibility_of : List Polyhedron → Bool → Result Feasibility
feasibility_of [] saw = if saw then ok unknown else ok empty
feasibility_of (p ∷ ps) saw =
    let passed_over = feasibility_of ps (saw || not p.is_empty_flag) in
    if p.is_empty_flag || p.rows_overflow
    then passed_over
    else eliminate_all p >>= after_feasibility (feasibility_of ps) saw

unfoldable pub feasibility : PresburgerSet → Result Feasibility
feasibility s = feasibility_of s.disjuncts false

unfoldable pub provably_empty : PresburgerSet → Result Bool
provably_empty s = do f ← feasibility s; ok (elim f [ empty ↦ true | _ ↦ false ])

-- The loop of `projectOut`.
abbrev pub after_projection : List Polyhedron → FmOutcome → Result (List Polyhedron)
after_projection out fm =
    if fm.is_empty
    then ok out
    else if fm.budget_exceeded
    then err resource_exhausted
    else ok (out ++ fm.projected ∷ [])

unfoldable pub project_disjunct : ℕ → Polyhedron → List Polyhedron → Result (List Polyhedron)
project_disjunct var p out =
    if p.is_empty_flag
    then ok out
    else if p.rows_overflow
    then err resource_exhausted
    else fm_eliminate p var >>= after_projection out

unfoldable pub project_disjuncts : ℕ → List Polyhedron → List Polyhedron → Result (List Polyhedron)
project_disjuncts var [] out = ok out
project_disjuncts var (p ∷ ps) out = do
  next ← project_disjunct var p out
  project_disjuncts var ps next

unfoldable pub project_out : PresburgerSet → ℕ → Result PresburgerSet
project_out s var = do
  out ← project_disjuncts var s.disjuncts []
  ok (record { space = s.space; disjuncts = or_empty s.space out })

-- The loop of `existsProject`, `left` dimensions from `d` on.
unfoldable pub exists_loop : List Bool → ℕ → ℕ → PresburgerSet → Result PresburgerSet
exists_loop keep zero d cur = ok cur
exists_loop keep (suc left) d cur = do
  next ← if get_or keep d false then ok cur else project_out cur d
  exists_loop keep left (suc d) next

unfoldable pub exists_project : PresburgerSet → List Bool → Result PresburgerSet
exists_project s keep =
    if ltb (length keep) s.space.n_dims
    then err invalid_argument
    else exists_loop keep s.space.n_dims 0 s

abbrev pub any_contains : List Polyhedron → List ℤ → Bool
any_contains [] vars = false
any_contains (p ∷ ps) vars = System.contains_point p vars || any_contains ps vars

-- `PresburgerSet::containsPoint`
unfoldable pub set_contains_point : PresburgerSet → List ℤ → Bool
set_contains_point s vars = any_contains s.disjuncts vars

unfoldable pub live_disjuncts : List Polyhedron → ℕ
live_disjuncts [] = 0
live_disjuncts (p ∷ ps) = let rest = live_disjuncts ps in if p.is_empty_flag then rest else rest + 1
