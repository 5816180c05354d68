-- ===== src/Poly/IntSet/Box.antt =====
-- `PresburgerSet::box` holds exactly the points between its bounds.
use mlk.Base.{
  ℕ, zero, suc, ◌+◌, ◌*◌, ◌≤◌, ◌<◌, ◌≡◌, refl, sym, subst, ◌||◌, ◌⊎◌, inl, inr, ◌↔◌, List, [], ◌∷◌,
  length, get_or, set, replicate, ltb, arith, if_ind, le_cases,
}
use mlk.Base.Int
use mlk.Base.Int.{
  ℤ, pos, negsuc, neg_ℤ, neg64, ◌+ℤ◌, ◌-ℤ◌, ◌*ℤ◌, ◌≤ℤ◌, int_laws, nat_abs, int64_max, wrap64_exact,
}
use mlk.Base.Res.{ok, ok_inj}
use mlk.Poly.Row.{VarSpace, total_vars}
use mlk.Poly.Row.Value.{dot, RowHolds, zeros_dot}
use mlk.Poly.System.{Polyhedron, universe, add_row, max_rows_per_system}
use mlk.Poly.System.Eval.{Holds}
use mlk.Poly.System.Laws.{add_row-Holds, add_row_exact}
use mlk.Poly.System.Room.{HasRoom, add_row_room}
use mlk.Poly.IntSet.{PresburgerSet, unit_row, box_rows, box}
use mlk.Poly.IntSet.Meet.{Contains}

-- The value of a unit vector is a coordinate.
pub unit_dot :
    (n d : ℕ) (c : ℤ) (x : List ℤ)
    → d < n
    → dot (set (replicate n (pos 0)) d c) x ≡ c *ℤ get_or x d (pos 0)
unit_dot zero d c x h = absurd (omega arith)
unit_dot (suc n) d c [] h = nil_dot d
  where
    nil_dot : (d : ℕ) → dot (set (replicate (suc n) (pos 0)) d c) [] ≡ c *ℤ pos 0
    nil_dot zero = sym (Int.*ℤ-zero c)
    nil_dot (suc d) = sym (Int.*ℤ-zero c)
unit_dot (suc n) zero c (v ∷ x) h = rw (zeros_dot n x) (Int.+ℤ-zero (c *ℤ v))
unit_dot (suc n) (suc d) c (v ∷ x) h =
    rw (Int.zero-*ℤ v, unit_dot n d c x (omega (arith, h))) (Int.zero-+ℤ (c *ℤ get_or x d (pos 0)))

-- The coordinate lies between the bounds of its dimension.
abbrev pub Between : List ℤ → List ℤ → List ℤ → ℕ → Type 0
Between lower upper x i =
    (get_or lower i (pos 0) ≤ℤ get_or x i (pos 0)) × (get_or x i (pos 0) ≤ℤ get_or upper i (pos 0))

module _ (space : VarSpace) (lower upper x : List ℤ) where
  -- The lower bound of the dimension can be negated in int64_t.
  abbrev Fits : ℕ → Type 0
  Fits i = nat_abs (get_or lower i (pos 0)) ≤ int64_max

  lower_row :
      (d : ℕ)
      → d < total_vars space
      → Fits d
      → RowHolds x (unit_row space d (pos 1) (neg64 (get_or lower d (pos 0))))
        ↔ (get_or lower d (pos 0) ≤ℤ get_or x d (pos 0))
  lower_row d h f =
      let exact =
        wrap64_exact (neg_ℤ (get_or lower d (pos 0)))
          (omega (arith, f, Int.neg_ℤ_abs (get_or lower d (pos 0)))) in
      rw (exact, unit_dot (total_vars space) d (pos 1) x h, Int.one-*ℤ)
        ((λ k. omega (int_laws, k)), (λ k. omega (int_laws, k)))

  upper_row :
      (d : ℕ)
      → d < total_vars space
      → RowHolds x (unit_row space d (negsuc 0) (get_or upper d (pos 0)))
        ↔ (get_or x d (pos 0) ≤ℤ get_or upper d (pos 0))
  upper_row d h =
      let minus : negsuc 0 *ℤ get_or x d (pos 0) ≡ neg_ℤ (get_or x d (pos 0)) =
        omega (int_laws, Int.*ℤ_parts (negsuc 0) (get_or x d (pos 0))) in
      rw (unit_dot (total_vars space) d (negsuc 0) x h, minus)
        ((λ k. omega (int_laws, k)), (λ k. omega (int_laws, k)))

  box_rows_exact :
      (left d m : ℕ) (p : Polyhedron)
      → d + left ≤ total_vars space
      → m + 2 * left ≤ max_rows_per_system
      → ((i : ℕ) → d ≤ i → i < d + left → Fits i)
      → HasRoom m p
      → Holds x (box_rows space lower upper left d p)
        ↔ (Holds x p × ((i : ℕ) → d ≤ i → i < d + left → Between lower upper x i))
  unfolding box_rows
  box_rows_exact zero d m p hd hm f room = ((λ h. (h, λ i a b. absurd (omega arith))), λ h. h.0)
  box_rows_exact (suc left) d m p hd hm f room =
      let lo = unit_row space d (pos 1) (neg64 (get_or lower d (pos 0))) in
      let hi = unit_row space d (negsuc 0) (get_or upper d (pos 0)) in
      let one = add_row_room m p lo (omega arith) room in
      let two = add_row_room (suc m) (add_row p lo) hi (omega arith) one in
      let here : d < total_vars space = omega arith in
      let rest =
        box_rows_exact left (suc d) (suc (suc m)) (add_row (add_row p lo) hi) (omega arith)
          (omega arith) (λ i a b. f i (omega arith) (omega arith)) two in
      let low = lower_row d here (f d (omega arith) (omega arith)) in
      let high = upper_row d here in
      (
        λ h.
            let (all, later) = rest.0 h in
            let (first, up) = add_row_exact (add_row p lo) hi x two.kept all in
            let (start, down) = add_row_exact p lo x one.kept first in
            (start, λ i a b. at_or_later i (low.0 down, high.0 up) later a b),
        λ h. rest.1 (
          add_row-Holds (add_row p lo) hi x
              (add_row-Holds p lo x h.0 (low.1 (h.1 d (omega arith) (omega arith)).0))
              (high.1 (h.1 d (omega arith) (omega arith)).1),
          λ i a b. h.1 i (omega arith) (omega arith),
        ),
      )
    where
      at_or_later :
          (i : ℕ)
          → Between lower upper x d
          → ((i : ℕ) → suc d ≤ i → i < suc d + left → Between lower upper x i)
          → d ≤ i
          → i < d + suc left
          → Between lower upper x i
      at_or_later i now later a b = split (le_cases d i a)
        where
          split : (d ≡ i) ⊎ (suc d ≤ i) → Between lower upper x i
          split (inl e) = subst (Between lower upper x) e now
          split (inr l) = later i l (omega arith)

-- A box is exact: where two rows for each dimension fit into a system, and the lower bounds can be
-- negated in int64_t, the set that `box` returns holds exactly the points whose coordinates lie
-- between the bounds of every dimension, the bounds included.
pub box_exact :
    (space : VarSpace) (lower upper : List ℤ) {s : PresburgerSet}
    → 2 * space.n_dims ≤ max_rows_per_system
    → ((i : ℕ) → i < space.n_dims → nat_abs (get_or lower i (pos 0)) ≤ int64_max)
    → box space lower upper ≡ ok s
    → (x : List ℤ) → Contains x s ↔ ((i : ℕ) → i < space.n_dims → Between lower upper x i)
unfolding box
box_exact space lower upper {s} fits f e x =
    if_ind (λ m. m ≡ ok s → Contains x s ↔ ((i : ℕ) → i < space.n_dims → Between lower upper x i))
      (ltb (length lower) space.n_dims || ltb (length upper) space.n_dims) (λ _ e'. cc)
      (λ _ e'.
        subst (λ t. Contains x t ↔ ((i : ℕ) → i < space.n_dims → Between lower upper x i))
          (ok_inj e') points)
      e
  where
    rows : Polyhedron
    rows = box_rows space lower upper space.n_dims 0 (universe space)

    exact : Holds x rows ↔ (
        Holds x (universe space)
        × ((i : ℕ) → 0 ≤ i → i < 0 + space.n_dims → Between lower upper x i))
    exact =
        box_rows_exact space lower upper x space.n_dims 0 0 (universe space) (omega arith)
          (omega arith) (λ i a b. f i (omega arith)) (record { kept = refl; bounded = omega arith })

    points : (Holds x rows ⊎ ⊥) ↔ ((i : ℕ) → i < space.n_dims → Between lower upper x i)
    points = (
      there,
      λ h. inl (exact.1 (record { live = refl; all_rows = tt }, λ i a b. h i (omega arith))),
    )
      where
        there : Holds x rows ⊎ ⊥ → (i : ℕ) → i < space.n_dims → Between lower upper x i
        there (inl h) = λ i a. (exact.0 h).1 i (omega arith) (omega arith)
        there (inr z) = absurd z
