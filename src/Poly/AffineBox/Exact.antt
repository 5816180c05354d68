-- ===== src/Poly/AffineBox/Exact.antt =====
-- A box with affine bounds holds exactly the points between their values.
use mlk.Base.{
  ℕ, zero, suc, ◌+◌, ◌*◌, ◌≤◌, ◌<◌, ◌≡◌, refl, sym, ◌∙◌, subst, not, ◌||◌, ◌⊎◌, inl, inr, ◌↔◌, List,
  length, get_or, replicate, ltb, arith, if_ind, le_cases, length-set, length-replicate,
}
use mlk.Base.Int
use mlk.Base.Int.{ℤ, pos, negsuc, neg_ℤ, ◌+ℤ◌, ◌-ℤ◌, ◌*ℤ◌, ◌≤ℤ◌, int_laws}
use mlk.Base.Res.{ok, ok_inj, >>=-eq-ok, traverse_zip, traverse_zip-Zipped}
use mlk.Poly.Checked.{add_limited, sub_limited}
use mlk.Poly.Checked.Laws.{sub_limited_exact}
use mlk.Poly.Row.{VarSpace, total_vars, same_as, ConstraintRow}
use mlk.Poly.Row.Value.{RowHolds}
use mlk.Poly.Row.Ops.{add_dot, sub_dot}
use mlk.Poly.System.{Polyhedron, universe, add_row, max_rows_per_system}
use mlk.Poly.System.Eval.{Holds}
use mlk.Poly.System.Laws.{add_row-Holds, add_row_exact}
use mlk.Poly.System.Room.{HasRoom, add_row_room}
use mlk.Poly.Affine.{AffineExpr}
use mlk.Poly.Affine.Linear.{value}
use mlk.Poly.IntSet.{PresburgerSet}
use mlk.Poly.IntSet.Meet.{Contains}
use mlk.Poly.IntSet.Box.{unit_dot}
use mlk.Poly.AffineBox.{
  unit_coeffs, lower_bound_row, upper_bound_row, bound_at, affine_rows, affine_box,
}

unit_length : (space : VarSpace) (d : ℕ) (c : ℤ) → length (unit_coeffs space d c) ≡ total_vars space
unit_length space d c =
    length-set (replicate (total_vars space) (pos 0)) d c
    ∙ length-replicate (total_vars space) (pos 0)

-- The expression has one coefficient for each variable of the space.
abbrev pub FillsSpace : VarSpace → AffineExpr → Type 0
FillsSpace space e = length e.coeffs ≡ total_vars space

module _ (space : VarSpace) (x : List ℤ) (d : ℕ) (here : d < total_vars space) where
  lower_bound_row_exact :
      (lb : AffineExpr) {r : ConstraintRow}
      → FillsSpace space lb
      → lower_bound_row space d lb ≡ ok r
      → RowHolds x r ↔ (value lb x ≤ℤ get_or x d (pos 0))
  unfolding lower_bound_row
  lower_bound_row_exact lb {r} wide =
      if_ind (λ m. m ≡ ok r → RowHolds x r ↔ (value lb x ≤ℤ get_or x d (pos 0)))
        (not (same_as lb.space space)) (λ _ e. cc)
        (λ _ e.
          let (cs, ecs, e1) =
            >>=-eq-ok (traverse_zip sub_limited (unit_coeffs space d (pos 1)) lb.coeffs) _ e in
          let (c, ec, e2) = >>=-eq-ok (sub_limited (pos 0) lb.constant) _ e1 in
          let t = traverse_zip-Zipped sub_limited (unit_coeffs space d (pos 1)) lb.coeffs ecs in
          let terms = sub_dot x (unit_length space d (pos 1) ∙ sym wide) t in
          let unit =
            unit_dot (total_vars space) d (pos 1) x here ∙ Int.one-*ℤ (get_or x d (pos 0)) in
          let cst = (sub_limited_exact (pos 0) lb.constant ec).0 in
          subst (λ q. RowHolds x q ↔ (value lb x ≤ℤ get_or x d (pos 0))) (ok_inj e2)
            (
              (λ k. omega (int_laws, k, terms, unit, cst)),
              (λ k. omega (int_laws, k, terms, unit, cst)),
            ))

  upper_bound_row_exact :
      (ub : AffineExpr) {r : ConstraintRow}
      → FillsSpace space ub
      → upper_bound_row space d ub ≡ ok r
      → RowHolds x r ↔ (get_or x d (pos 0) ≤ℤ value ub x)
  unfolding upper_bound_row
  upper_bound_row_exact ub {r} wide =
      if_ind (λ m. m ≡ ok r → RowHolds x r ↔ (get_or x d (pos 0) ≤ℤ value ub x))
        (not (same_as ub.space space)) (λ _ e. cc)
        (λ _ e.
          let (cs, ecs, e2) =
            >>=-eq-ok (traverse_zip add_limited (unit_coeffs space d (negsuc 0)) ub.coeffs) _ e in
          let t = traverse_zip-Zipped add_limited (unit_coeffs space d (negsuc 0)) ub.coeffs ecs in
          let terms = add_dot x (unit_length space d (negsuc 0) ∙ sym wide) t in
          let unit = unit_dot (total_vars space) d (negsuc 0) x here in
          let minus = Int.*ℤ_parts (negsuc 0) (get_or x d (pos 0)) in
          subst (λ q. RowHolds x q ↔ (get_or x d (pos 0) ≤ℤ value ub x)) (ok_inj e2)
            (
              (λ k. omega (int_laws, k, terms, unit, minus)),
              (λ k. omega (int_laws, k, terms, unit, minus)),
            ))

module _ (space : VarSpace) (lower upper : List AffineExpr) (x : List ℤ) where
  -- The coordinate lies between the values of its bounds.
  abbrev pub BetweenValues : ℕ → Type 0
  BetweenValues i =
      (value (bound_at space lower i) x ≤ℤ get_or x i (pos 0))
      × (get_or x i (pos 0) ≤ℤ value (bound_at space upper i) x)

  abbrev pub BoundsFill : ℕ → Type 0
  BoundsFill i =
      FillsSpace space (bound_at space lower i) × FillsSpace space (bound_at space upper i)

  affine_rows_exact :
      (left d m : ℕ) (p : Polyhedron) {q : Polyhedron}
      → d + left ≤ total_vars space
      → m + 2 * left ≤ max_rows_per_system
      → ((i : ℕ) → i < d + left → BoundsFill i)
      → HasRoom m p
      → affine_rows space lower upper left d p ≡ ok q
      → Holds x q ↔ (Holds x p × ((i : ℕ) → d ≤ i → i < d + left → BetweenValues i))
  unfolding affine_rows
  affine_rows_exact zero d m p hd hm f room e =
      subst (λ q. Holds x q ↔ (Holds x p × ((i : ℕ) → d ≤ i → i < d + 0 → BetweenValues i)))
        (ok_inj e) ((λ h. (h, λ i a b. absurd (omega arith))), λ h. h.0)
  affine_rows_exact (suc left) d m p hd hm f room e =
      let (lo, el, e1) = >>=-eq-ok (lower_bound_row space d (bound_at space lower d)) _ e in
      let (hi, eh, e2) = >>=-eq-ok (upper_bound_row space d (bound_at space upper d)) _ e1 in
      let one = add_row_room m p lo (omega arith) room in
      let two = add_row_room (suc m) (add_row p lo) hi (omega arith) one in
      let here : d < total_vars space = omega arith in
      let rest =
        affine_rows_exact left (suc d) (suc (suc m)) (add_row (add_row p lo) hi) (omega arith)
          (omega arith) (λ i b. f i (omega arith)) two e2 in
      let low =
        lower_bound_row_exact space x d here (bound_at space lower d) (f d (omega arith)).0 el in
      let high =
        upper_bound_row_exact space x d here (bound_at space upper d) (f d (omega arith)).1 eh in
      (
        λ h.
            let (all, later) = rest.0 h in
            let (first, up) = add_row_exact (add_row p lo) hi x two.kept all in
            let (start, down) = add_row_exact p lo x one.kept first in
            (start, λ i a b. at_or_later i (low.0 down, high.0 up) later a b),
        λ h. rest.1 (
          add_row-Holds (add_row p lo) hi x
              (add_row-Holds p lo x h.0 (low.1 (h.1 d (omega arith) (omega arith)).0))
              (high.1 (h.1 d (omega arith) (omega arith)).1),
          λ i a b. h.1 i (omega arith) (omega arith),
        ),
      )
    where
      at_or_later :
          (i : ℕ)
          → BetweenValues d
          → ((i : ℕ) → suc d ≤ i → i < suc d + left → BetweenValues i)
          → d ≤ i
          → i < d + suc left
          → BetweenValues i
      at_or_later i now later a b = split (le_cases d i a)
        where
          split : (d ≡ i) ⊎ (suc d ≤ i) → BetweenValues i
          split (inl e) = subst BetweenValues e now
          split (inr l) = later i l (omega arith)

-- A box with affine bounds is exact: where two rows for each dimension fit into a system, and the
-- bounds have one coefficient for each variable of the space, the set that `affineBox` returns holds
-- exactly the points where every coordinate lies between the values of its bounds, the bounds included.
pub affine_box_exact :
    (space : VarSpace) (lower upper : List AffineExpr) (x : List ℤ) {s : PresburgerSet}
    → 2 * space.n_dims ≤ max_rows_per_system
    → ((i : ℕ) → i < space.n_dims → BoundsFill space lower upper x i)
    → affine_box space lower upper ≡ ok s
    → Contains x s ↔ ((i : ℕ) → i < space.n_dims → BetweenValues space lower upper x i)
unfolding affine_box
affine_box_exact space lower upper x {s} fits f e =
    if_ind
      (λ m.
        m ≡ ok s
        → Contains x s ↔ ((i : ℕ) → i < space.n_dims → BetweenValues space lower upper x i))
      (ltb (length lower) space.n_dims || ltb (length upper) space.n_dims) (λ _ e'. cc)
      (λ _ e'.
        let (p, ep, es) =
          >>=-eq-ok (affine_rows space lower upper space.n_dims 0 (universe space)) _ e' in
        subst
          (λ t. Contains x t ↔ ((i : ℕ) → i < space.n_dims → BetweenValues space lower upper x i))
          (ok_inj es)
          (points p (
            affine_rows_exact space lower upper x space.n_dims 0 0 (universe space) (omega arith)
              (omega arith) (λ i b. f i (omega arith))
              (record { kept = refl; bounded = omega arith }) ep)))
      e
  where
    points :
        (p : Polyhedron)
        → Holds x p ↔ (
            Holds x (universe space)
            × ((i : ℕ) → 0 ≤ i → i < 0 + space.n_dims → BetweenValues space lower upper x i))
        → (Holds x p ⊎ ⊥) ↔ ((i : ℕ) → i < space.n_dims → BetweenValues space lower upper x i)
    points p exact = (
      there,
      λ h. inl (exact.1 (record { live = refl; all_rows = tt }, λ i a b. h i (omega arith))),
    )
      where
        there : Holds x p ⊎ ⊥ → (i : ℕ) → i < space.n_dims → BetweenValues space lower upper x i
        there (inl h) = λ i a. (exact.0 h).1 i (omega arith) (omega arith)
        there (inr z) = absurd z
