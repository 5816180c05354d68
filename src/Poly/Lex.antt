-- ===== src/Poly/Lex.antt =====
-- `lexMin` and `lexMax` of polyhedral/src/int_set.cpp: branch and bound for the least or greatest
-- integer point of a set, with a budget of nodes. The prefix is a value: the source takes back what
-- it pushed, but on success, where it is the point that was found.
pub mod Ends
pub mod Sound
mod Examples
use mlk.Base.{
  ℕ, zero, suc, ◌+◌, ◌-◌, Bool, true, false, not, ◌||◌, ◌&&◌, Option, none, some, List, [], ◌∷◌,
  ◌++◌, if◌then◌else◌, ◌==◌, length, set,
}
use mlk.Base.Int.{ℤ, pos, negsuc, eqb_ℤ, ltb_ℤ, tdiv, tmod, neg64, add64, sub64, int64_max}
use mlk.Base.Res.{ErrorCode, Result, ok, err, ◌>>=◌, invalid_argument, budget_exceeded}
use mlk.Poly.Checked.{add, mul}
use mlk.Poly.Row.{ConstraintRow, coeff_of, is_trivially_false, bool_equal}
use mlk.Poly.System.{Polyhedron, contains_point}
use mlk.Poly.Fm.{fm_eliminate}
use mlk.Poly.IntSet.{PresburgerSet}

-- kPolyLexBbNodeBudget
abbrev pub lex_bb_node_budget : ℕ
lex_bb_node_budget = 4096

abbrev pub int64_min : ℤ
int64_min = negsuc int64_max

-- Division of int64_t; the negations below wrap around.
unfoldable pub floor_div : ℤ → ℤ → ℤ
floor_div a b =
    if not (eqb_ℤ (tmod a b) (pos 0)) && not (bool_equal (ltb_ℤ a (pos 0)) (ltb_ℤ b (pos 0)))
    then sub64 (tdiv a b) (pos 1)
    else tdiv a b

unfoldable pub ceil_div : ℤ → ℤ → ℤ
unfolding floor_div
ceil_div a b = neg64 (floor_div (neg64 a) b)

unfoldable pub lex_less : List ℤ → List ℤ → Bool
lex_less [] [] = false
lex_less [] (b ∷ bs) = true
lex_less (a ∷ as') [] = false
lex_less (a ∷ as') (b ∷ bs) = let rest = lex_less as' bs in if eqb_ℤ a b then rest else ltb_ℤ a b

-- What a search changes; its source system and its direction are arguments.
pub record LexState : Type 0 where
  pub node_budget : ℕ
  pub best : Option (List ℤ)

-- The loop that projects out the dimensions from `v` on, `left` of them; `none` is `return false`.
unfoldable pub project_deeper : ℕ → ℕ → Polyhedron → Result (Option Polyhedron)
project_deeper zero v projected = ok (some projected)
project_deeper (suc left) v projected = do
  fm ← fm_eliminate projected v
  if fm.is_empty
      then ok none
      else if fm.budget_exceeded
      then err budget_exceeded
      else project_deeper left (suc v) fm.projected

pub record Interval : Type 0 where
  pub lb : ℤ
  pub ub : ℤ

-- One row of the loop that reads the interval off; `none` is `return false`.
unfoldable pub tighten : ℕ → ConstraintRow → Interval → Option Interval
tighten depth r i =
    if eqb_ℤ (coeff_of r depth) (pos 0)
    then some i
    else if r.is_equality
    then if not (eqb_ℤ (tmod r.constant (coeff_of r depth)) (pos 0))
        || ltb_ℤ (floor_div (neg64 r.constant) (coeff_of r depth)) i.lb
        || ltb_ℤ i.ub (floor_div (neg64 r.constant) (coeff_of r depth))
      then none
      else some (record {
        lb = floor_div (neg64 r.constant) (coeff_of r depth);
        ub = floor_div (neg64 r.constant) (coeff_of r depth);
      })
    else if ltb_ℤ (pos 0) (coeff_of r depth)
    then some (
        if ltb_ℤ i.lb (ceil_div (neg64 r.constant) (coeff_of r depth))
        then record i { lb = ceil_div (neg64 r.constant) (coeff_of r depth) }
        else i)
    else some (
        if ltb_ℤ (floor_div (neg64 r.constant) (coeff_of r depth)) i.ub
        then record i { ub = floor_div (neg64 r.constant) (coeff_of r depth) }
        else i)

unfoldable pub interval_of : ℕ → List ConstraintRow → Interval → Option Interval
interval_of depth [] i = some i
interval_of depth (r ∷ rs) i = elim (tighten depth r i) [
  | none ↦ none
  | some i' ↦ interval_of depth rs i'
]

-- `x_depth = cand` in one row; `none` is `return false`.
unfoldable pub substitute_value : ℕ → ℤ → ConstraintRow → Result (Option ConstraintRow)
substitute_value depth cand r =
    if eqb_ℤ (coeff_of r depth) (pos 0)
    then if is_trivially_false r then ok none else ok (some r)
    else elim (mul (coeff_of r depth) cand) [
      | none ↦ err invalid_argument
      | some term ↦ elim (add r.constant term) [
        | none ↦ err invalid_argument
        | some constant ↦
            ok (some (record r { coeffs = set r.coeffs depth (pos 0); constant = constant }))
      ]
    ]

abbrev put_row : ConstraintRow → Option (List ConstraintRow) → Option (List ConstraintRow)
put_row r none = none
put_row r (some rs) = some (r ∷ rs)

abbrev after_row :
    Option ConstraintRow
    → Result (Option (List ConstraintRow))
    → Result (Option (List ConstraintRow))
after_row none rest = ok none
after_row (some r) rest = do rs ← rest; ok (put_row r rs)

unfoldable pub substitute_rows : ℕ → ℤ → List ConstraintRow → Result (Option (List ConstraintRow))
substitute_rows depth cand [] = ok (some [])
substitute_rows depth cand (r ∷ rs) = do
  r' ← substitute_value depth cand r
  after_row r' (substitute_rows depth cand rs)

-- What a search comes to: it finds a point or none, with the budget that is left, it returns an
-- error, or it is cut short for want of fuel.
pub data Search : Type 0 where
  out_of_fuel : Search
  failed : ErrorCode → Search
  finished : Bool → LexState → Search

-- Go on with the value; return the error, or false where there is none.
abbrev pub go_on : {A : Type 0} → LexState → Result (Option A) → (A → Search) → Search
go_on st (err code) next = failed code
go_on st (ok none) next = finished false st
go_on st (ok (some a)) next = next a

-- What the loop over the candidates does with the search below one of them.
abbrev pub walk_on : Bool → (LexState → Search) → Search → Search
walk_on at_stop rest out_of_fuel = out_of_fuel
walk_on at_stop rest (failed code) = failed code
walk_on at_stop rest (finished true st) = finished true st
walk_on at_stop rest (finished false st) =
    let later = rest st in
    if at_stop
    then finished false st
    else if st.node_budget == 0
    then failed budget_exceeded
    else later

-- The loop over the candidates from `cand` to `stop`.
module _ (search : LexState → Polyhedron → List ℤ → Search) (maximize : Bool) where
  unfoldable pub walk : ℕ → Polyhedron → List ℤ → ℤ → ℤ → LexState → Search
  walk zero residual prefix stop cand st = out_of_fuel
  walk (suc fuel) residual prefix stop cand st =
      go_on st (substitute_rows (length prefix) cand residual.rows) (λ rows.
        walk_on (eqb_ℤ cand stop)
          (walk fuel residual prefix stop (add64 cand (if maximize then negsuc 0 else pos 1)))
          (search st (record residual { rows = rows }) (prefix ++ cand ∷ [])))

unfoldable pub leaf : Polyhedron → LexState → List ℤ → Search
leaf source st prefix =
    if contains_point source prefix
    then finished true (record st { best = some prefix })
    else finished false st

-- From the interval on.
unfoldable pub enter :
    (LexState → Polyhedron → List ℤ → Search)
    → Bool
    → LexState
    → Polyhedron
    → List ℤ
    → Interval
    → Search
enter search maximize st residual prefix i =
    if ltb_ℤ i.ub i.lb
    then finished false st
    else if (if maximize then eqb_ℤ i.ub (pos int64_max) else eqb_ℤ i.lb int64_min)
    then failed invalid_argument
    else walk search maximize (suc st.node_budget) residual prefix (if maximize then i.lb else i.ub)
        (if maximize then i.ub else i.lb) st

unfoldable pub branch :
    (LexState → Polyhedron → List ℤ → Search) → Bool → ℕ → LexState → Polyhedron → List ℤ → Search
branch search maximize left st residual prefix =
    go_on st (project_deeper left (suc (length prefix)) residual) (λ projected.
      go_on st
        (ok (
          interval_of (length prefix) projected.rows
            (record { lb = int64_min; ub = pos int64_max })))
        (enter search maximize st residual prefix))

abbrev pub take_node : LexState → LexState
take_node st = record st { node_budget = st.node_budget - 1 }

-- `lexSearch` at a prefix that leaves so many dimensions of its source open.
unfoldable pub lex_search : Polyhedron → Bool → ℕ → LexState → Polyhedron → List ℤ → Search
lex_search source maximize zero st residual prefix =
    if st.node_budget == 0 then failed budget_exceeded else leaf source (take_node st) prefix
lex_search source maximize (suc left) st residual prefix =
    if st.node_budget == 0
    then failed budget_exceeded
    else branch (lex_search source maximize left) maximize left (take_node st) residual prefix

-- What `lexMin` and `lexMax` come to: the best point if there is one, or an error, or a cut.
pub data Optimum : Type 0 where
  cut_short : Optimum
  refused : ErrorCode → Optimum
  optimum : Option (List ℤ) → Optimum

-- The comparison of a point that was found with the best one so far.
unfoldable pub keep_best : Bool → Option (List ℤ) → Option (List ℤ) → Option (List ℤ)
keep_best maximize none best = best
keep_best maximize (some x) none = some x
keep_best maximize (some x) (some b) =
    if (if maximize then lex_less b x else lex_less x b) then some x else some b

abbrev pub loop_on : Bool → Option (List ℤ) → (Option (List ℤ) → Optimum) → Search → Optimum
loop_on maximize best rest out_of_fuel = cut_short
loop_on maximize best rest (failed code) = refused code
loop_on maximize best rest (finished false st) = rest best
loop_on maximize best rest (finished true st) = rest (keep_best maximize st.best best)

-- The loop over the disjuncts.
unfoldable pub lex_loop : Bool → List Polyhedron → Option (List ℤ) → Optimum
lex_loop maximize [] best = optimum best
lex_loop maximize (p ∷ ps) best =
    let passed_over = lex_loop maximize ps best in
    let searched = loop_on maximize best (lex_loop maximize ps) (
      lex_search p maximize p.space.n_dims
        (record { node_budget = lex_bb_node_budget; best = none }) p []) in
    if p.is_empty_flag || p.rows_overflow then passed_over else searched

unfoldable pub lex_min : PresburgerSet → Optimum
lex_min s =
    if s.space.n_syms == 0 then lex_loop false s.disjuncts none else refused invalid_argument

unfoldable pub lex_max : PresburgerSet → Optimum
lex_max s = if s.space.n_syms == 0 then lex_loop true s.disjuncts none else refused invalid_argument
