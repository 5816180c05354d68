-- ===== src/Poly/AffineMap.antt =====
-- polyhedral/include/mlk/poly/affine_map.h and polyhedral/src/affine_map.cpp: maps of several affine
-- outputs, and their composition.
mod Examples
pub mod Compose
pub mod Image
use mlk.Base.{
  ℕ, zero, suc, ◌+◌, Bool, true, false, not, ◌||◌, ◌&&◌, List, [], ◌∷◌, if◌then◌else◌, ◌==◌, ltb,
  leb, length, replicate, set, get_or,
}
use mlk.Base.Int.{ℤ, pos, neg64, sub64}
use mlk.Base.Res.{Result, ok, err, ◌>>=◌, traverse, invalid_argument, resource_exhausted}
use mlk.Poly.Row.{VarSpace, total_vars, same_as, ConstraintRow}
use mlk.Poly.System.{Polyhedron, universe, flagged, add_row}
use mlk.Poly.Affine.{
  AffineExpr, from_constant, variable, eval_at, expr_equal, expr_add, expr_scale, expr_coeff_of,
  within_limits,
}
use mlk.Poly.IntSet.{PresburgerSet, empty_set, exists_project}

pub record AffineMap : Type 0 where
  pub in_space : VarSpace
  pub n_out : ℕ
  pub outputs : List AffineExpr

-- The variables of a space, `left` of them from `d` on.
abbrev pub variables : VarSpace → ℕ → ℕ → List AffineExpr
variables space zero d = []
variables space (suc left) d = variable space d ∷ variables space left (suc d)

abbrev pub identity : VarSpace → AffineMap
identity space = record {
  in_space = space;
  n_out = space.n_dims;
  outputs = variables space space.n_dims 0;
}

abbrev pub constant_map : VarSpace → ℤ → AffineMap
constant_map space v = record { in_space = space; n_out = 1; outputs = from_constant space v ∷ [] }

-- `AffineMap::evalAt`
unfoldable pub map_eval_at : AffineMap → List ℤ → Result (List ℤ)
map_eval_at m vars = traverse (λ e. eval_at e vars) m.outputs

abbrev pub exprs_equal : List AffineExpr → List AffineExpr → Bool
exprs_equal [] [] = true
exprs_equal [] (b ∷ bs) = false
exprs_equal (a ∷ as') [] = false
exprs_equal (a ∷ as') (b ∷ bs) = expr_equal a b && exprs_equal as' bs

-- `AffineMap::sameAs`
unfoldable pub map_same_as : AffineMap → AffineMap → Bool
map_same_as m o =
    if not (same_as m.in_space o.in_space) || not (m.n_out == o.n_out)
    then false
    else exprs_equal m.outputs o.outputs

-- The loop over the outputs of the inner map, `left` of them from `j` on.
unfoldable pub compose_terms : AffineExpr → ℕ → ℕ → List AffineExpr → AffineExpr → Result AffineExpr
compose_terms oe zero j inner acc = ok acc
compose_terms oe (suc left) j [] acc = ok acc
compose_terms oe (suc left) j (ie ∷ ies) acc = do
  scaled ← expr_scale ie (expr_coeff_of oe j)
  sum ← expr_add acc scaled
  compose_terms oe left (suc j) ies sum

unfoldable pub compose_output : AffineMap → AffineExpr → Result AffineExpr
compose_output inner oe = do
  acc ← compose_terms oe inner.n_out 0 inner.outputs (from_constant inner.in_space oe.constant)
  if within_limits acc then ok acc else err resource_exhausted

unfoldable pub map_compose : AffineMap → AffineMap → Result AffineMap
map_compose outer inner =
    if not (outer.in_space.n_dims == inner.n_out)
    then err invalid_argument
    else if not (outer.in_space.n_syms == inner.in_space.n_syms)
    then err invalid_argument
    else do
      outputs ← traverse (compose_output inner) outer.outputs
      ok (record { in_space = inner.in_space; n_out = outer.n_out; outputs = outputs })
