-- ===== src/Poly/System/Laws.antt =====
-- `addRow` keeps the points of a system that satisfy the row, and adds no others.
use mlk.Base.{
  ℕ, zero, suc, ◌-◌, ◌≤◌, ◌≡◌, refl, sym, ap, ◌∙◌, subst, true, false, List, [], ◌∷◌, ◌++◌, ltb,
  length, replicate, All, arith, Bool-cases, inl, inr, length-append, length-replicate, ◌↔◌, ◌⊎◌,
  if_ind,
}
use mlk.Base.Int
use mlk.Base.Int.{ℤ, pos}
use mlk.Poly.Row.{total_vars, ConstraintRow}
use mlk.Poly.Row.Value.{dot, RowHolds}
use mlk.Poly.System.{Polyhedron, widened, add_row, add_rows_to, max_rows_per_system}
use mlk.Poly.System.Eval.{Holds, HasWidth}
use mlk.Poly.System.Push.{
  Pushed, push_row-Pushed, Pushed-Holds, Pushed-exact, Pushed-space, Pushed-wide, Pushed-overflow,
  Pushed-budget,
}

-- Padding a row with zeros keeps its value.
dot_padded : (cs : List ℤ) (n : ℕ) (x : List ℤ) → dot (cs ++ replicate n (pos 0)) x ≡ dot cs x
dot_padded [] zero x = refl
dot_padded [] (suc n) [] = refl
dot_padded [] (suc n) (v ∷ x) = rw (Int.zero-*ℤ, Int.zero-+ℤ) (dot_padded [] n x)
dot_padded (c ∷ cs) n [] = refl
dot_padded (c ∷ cs) n (v ∷ x) = rw (dot_padded cs n x)

widened_holds : (n : ℕ) (r : ConstraintRow) (x : List ℤ) → RowHolds x (widened n r) ↔ RowHolds x r
widened_holds n r x = elim (Bool-cases (ltb (length r.coeffs) n)) [
  | inl e ↦ rw (e, dot_padded r.coeffs (n - length r.coeffs) x) (λ h. h, λ h. h)
  | inr e ↦ rw e (λ h. h, λ h. h)
]

widened-length : (n : ℕ) (r : ConstraintRow) → length r.coeffs ≤ n → HasWidth n (widened n r)
widened-length n r h = elim (Bool-cases (ltb (length r.coeffs) n)) [
  | inl e ↦
      let total = length-append {0} r.coeffs (replicate (n - length r.coeffs) (pos 0)) in
      let zeros = length-replicate {0} (n - length r.coeffs) (pos 0) in
      rw e (ground (arith, total, zeros))
  | inr e ↦ rw e (ground arith)
]

-- A property of `addRow`, from a flagged system, where it does nothing, and from the push.
pub add_row_ind :
    (P : Polyhedron → Type 0) (p : Polyhedron) (r : ConstraintRow)
    → (p.is_empty_flag ≡ true → P p)
    → ((q : Polyhedron) → Pushed p (widened (total_vars p.space) r) q → P q)
    → P (add_row p r)
unfolding add_row
add_row_ind P p r dead pushed =
    if_ind P p.is_empty_flag dead
      (λ live. pushed _ (push_row-Pushed p (widened (total_vars p.space) r)))

module _ (p : Polyhedron) (r : ConstraintRow) where
  pub add_row_space : (add_row p r).space ≡ p.space
  add_row_space = add_row_ind (λ q. q.space ≡ p.space) p r (λ _. refl) (λ q. Pushed-space p _)

  pub add_row_overflow : p.rows_overflow ≡ true → (add_row p r).rows_overflow ≡ true
  add_row_overflow h =
      add_row_ind (λ q. q.rows_overflow ≡ true) p r (λ _. h) (λ q d. Pushed-overflow p _ d h)

  pub add_row_budget :
      length p.rows ≤ max_rows_per_system → length (add_row p r).rows ≤ max_rows_per_system
  add_row_budget h =
      add_row_ind (λ q. length q.rows ≤ max_rows_per_system) p r (λ _. h)
        (λ q d. Pushed-budget p _ d h)

  pub add_row_wide :
      {n : ℕ}
      → total_vars p.space ≡ n
      → HasWidth n r
      → All (HasWidth n) p.rows
      → All (HasWidth n) (add_row p r).rows
  add_row_wide {n} e hr h =
      add_row_ind (λ q. All (HasWidth n) q.rows) p r (λ _. h)
        (λ q d.
          Pushed-wide p _ n d
            (subst (λ k. HasWidth n (widened k r)) (sym e) (widened-length n r (omega arith))) h)

  pub add_row-Holds : (x : List ℤ) → Holds x p → RowHolds x r → Holds x (add_row p r)
  add_row-Holds x h hr =
      add_row_ind (Holds x) p r (λ _. h)
        (λ q d. Pushed-Holds p _ x d h ((widened_holds (total_vars p.space) r x).1 hr))

  -- Where no row was dropped, the new system holds no other points.
  pub add_row_exact :
      (x : List ℤ)
      → (add_row p r).rows_overflow ≡ false
      → Holds x (add_row p r)
      → Holds x p × RowHolds x r
  add_row_exact x =
      add_row_ind (λ q. q.rows_overflow ≡ false → Holds x q → Holds x p × RowHolds x r) p r
        (λ dead ov h. cc (dead, h.live))
        (λ q d ov h.
          let both = Pushed-exact p _ x d ov h in
          (both.0, (widened_holds (total_vars p.space) r x).0 both.1))

-- The same for a list of rows.
pub add_rows_to_space :
    (p : Polyhedron) (rs : List ConstraintRow) → (add_rows_to p rs).space ≡ p.space
add_rows_to_space p [] = refl
add_rows_to_space p (r ∷ rs) = add_rows_to_space (add_row p r) rs ∙ add_row_space p r

add_rows_to_overflow :
    (p : Polyhedron) (rs : List ConstraintRow)
    → p.rows_overflow ≡ true
    → (add_rows_to p rs).rows_overflow ≡ true
add_rows_to_overflow p [] h = h
add_rows_to_overflow p (r ∷ rs) h = add_rows_to_overflow (add_row p r) rs (add_row_overflow p r h)

pub add_rows_to_budget :
    (p : Polyhedron) (rs : List ConstraintRow)
    → length p.rows ≤ max_rows_per_system
    → length (add_rows_to p rs).rows ≤ max_rows_per_system
add_rows_to_budget p [] h = h
add_rows_to_budget p (r ∷ rs) h = add_rows_to_budget (add_row p r) rs (add_row_budget p r h)

pub add_rows_to_wide :
    {n : ℕ} (p : Polyhedron) (rs : List ConstraintRow)
    → total_vars p.space ≡ n
    → All (HasWidth n) rs
    → All (HasWidth n) p.rows
    → All (HasWidth n) (add_rows_to p rs).rows
add_rows_to_wide p [] e hr h = h
add_rows_to_wide p (r ∷ rs) e hr h =
    add_rows_to_wide (add_row p r) rs (ap total_vars (add_row_space p r) ∙ e) hr.1
      (add_row_wide p r e hr.0 h)

pub add_rows_to-Holds :
    (p : Polyhedron) (rs : List ConstraintRow) (x : List ℤ)
    → Holds x p
    → All (RowHolds x) rs
    → Holds x (add_rows_to p rs)
add_rows_to-Holds p [] x h hr = h
add_rows_to-Holds p (r ∷ rs) x h hr =
    add_rows_to-Holds (add_row p r) rs x (add_row-Holds p r x h hr.0) hr.1

pub add_rows_to_exact :
    (p : Polyhedron) (rs : List ConstraintRow) (x : List ℤ)
    → (add_rows_to p rs).rows_overflow ≡ false
    → Holds x (add_rows_to p rs)
    → Holds x p × All (RowHolds x) rs
add_rows_to_exact p [] x ov h = (h, tt)
add_rows_to_exact p (r ∷ rs) x ov h =
    let (first, rest) = add_rows_to_exact (add_row p r) rs x ov h in
    let (old, new) = add_row_exact p r x (kept (Bool-cases (add_row p r).rows_overflow)) first in
    (old, (new, rest))
  where
    kept :
        ((add_row p r).rows_overflow ≡ true) ⊎ ((add_row p r).rows_overflow ≡ false)
        → (add_row p r).rows_overflow ≡ false
    kept (inl over) = cc (add_rows_to_overflow (add_row p r) rs over)
    kept (inr fine) = fine
