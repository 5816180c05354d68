-- ===== src/Poly/AffineMap/Examples.antt =====
-- Runs of the affine maps.
use mlk.Base.{◌≡◌, refl, List, [], ◌∷◌, ◌++◌, map, All}
use mlk.Base.Int
use mlk.Base.Int.{ℤ, pos, negsuc, ◌-ℤ◌}
use mlk.Base.Res.{ok, traverse, traverse_zip}
use mlk.Poly.Checked
use mlk.Poly.Row.{VarSpace}
use mlk.Poly.Affine
use mlk.Poly.Affine.{AffineExpr}
use mlk.Poly.Affine.Linear.{value}
use mlk.Poly.AffineMap
use mlk.Poly.AffineMap.{AffineMap, map_compose}
use mlk.Poly.AffineMap.Compose.{values, IsOver, symbol_part, map_compose_exact}

abbrev plane : VarSpace
plane = record { n_dims = 1; n_syms = 1 }

abbrev linear : ℤ → ℤ → ℤ → AffineExpr
linear a b c = record { space = plane; coeffs = a ∷ b ∷ []; constant = c }

abbrev one_output : AffineExpr → AffineMap
one_output e = record { in_space = plane; n_out = 1; outputs = e ∷ [] }

-- 2 i + 5 n + 1
abbrev outer : AffineMap
outer = one_output (linear (pos 2) (pos 5) (pos 1))

-- i - n + 3
abbrev inner : AffineMap
inner = one_output (linear (pos 1) (negsuc 0) (pos 3))

-- 2 i - 2 n + 7: the term 5 n is lost.
abbrev composed : AffineMap
composed = one_output (linear (pos 2) (negsuc 1) (pos 7))

compose-outer-inner : map_compose outer inner ≡ ok composed
unfolding map_compose traverse AffineMap.compose_output AffineMap.compose_terms Affine.expr_scale
    Checked.mul_limited Int.◌*ℤ◌ Affine.expr_add Checked.add_limited Int.◌+ℤ◌ traverse_zip
compose-outer-inner = refl

map_compose_exact_example :
    (composed.in_space ≡ inner.in_space)
    × (composed.n_out ≡ outer.n_out)
    × All (IsOver inner.in_space) composed.outputs
    × ((x syms : List ℤ)
        → values composed.outputs x
          ≡ map
              (λ oe. value oe (values inner.outputs x ++ syms) -ℤ symbol_part inner.n_out oe syms)
              outer.outputs)
map_compose_exact_example =
    map_compose_exact outer inner refl ((refl, refl), tt) compose-outer-inner
