-- ===== src/Poly/System/Room.antt =====
-- While there is room in a system, adding rows drops none of them.
use mlk.Base.{ℕ, suc, ◌+◌, ◌≤◌, ◌≡◌, false, List, [], ◌∷◌, length, arith, length-append}
use mlk.Poly.Row.{ConstraintRow}
use mlk.Poly.System.{Polyhedron, add_row, add_rows_to, max_rows_per_system}
use mlk.Poly.System.Push.{Pushed, contradiction, trivial, full, appended}
use mlk.Poly.System.Laws.{add_row_ind}

-- No row was dropped, and there are at most so many.
pub record HasRoom (m : ℕ) (p : Polyhedron) : Type 0 where
  pub kept : p.rows_overflow ≡ false
  pub bounded : length p.rows ≤ m

Pushed-room :
    (m : ℕ) (p : Polyhedron) (r : ConstraintRow)
    → suc m ≤ max_rows_per_system
    → HasRoom m p
    → (q : Polyhedron) → Pushed p r q
    → HasRoom (suc m) q
Pushed-room m p r hm h q (contradiction bad) = record { kept = h.kept; bounded = omega arith }
Pushed-room m p r hm h q (trivial idle) = record { kept = h.kept; bounded = omega arith }
Pushed-room m p r hm h q (full many) = absurd (omega (arith, h.bounded))
Pushed-room m p r hm h q (appended few) = record {
  kept = h.kept;
  bounded = omega (arith, h.bounded, length-append {0} p.rows (r ∷ []));
}

pub add_row_room :
    (m : ℕ) (p : Polyhedron) (r : ConstraintRow)
    → suc m ≤ max_rows_per_system
    → HasRoom m p
    → HasRoom (suc m) (add_row p r)
add_row_room m p r hm h =
    add_row_ind (HasRoom (suc m)) p r
      (λ _. record { kept = h.kept; bounded = omega (arith, h.bounded) })
      (λ q d. Pushed-room m p _ hm h q d)

pub add_rows_to_room :
    (m : ℕ) (p : Polyhedron) (rs : List ConstraintRow)
    → m + length rs ≤ max_rows_per_system
    → HasRoom m p
    → HasRoom (m + length rs) (add_rows_to p rs)
add_rows_to_room m p [] hm h = record { kept = h.kept; bounded = omega (arith, h.bounded) }
add_rows_to_room m p (r ∷ rs) hm h =
    let g =
      add_rows_to_room (suc m) (add_row p r) rs (omega arith)
        (add_row_room m p r (omega arith) h) in
    record { kept = g.kept; bounded = omega (arith, g.bounded) }
