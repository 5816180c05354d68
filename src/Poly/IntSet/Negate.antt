-- ===== src/Poly/IntSet/Negate.antt =====
-- The negation of rows, `complement` and `subtract`.
use mlk.Base.{◌≤◌, ◌≡◌, refl, subst, Bool, true, false, ◌↔◌, List, [], ◌∷◌, map, All, arith, if_ind}
use mlk.Base.Int
use mlk.Base.Int.{
  ℤ, pos, negsuc, pos_part, neg_part, nat_abs, neg_ℤ, neg64, sub64, ◌+ℤ◌, ◌-ℤ◌, ◌*ℤ◌, ◌≤ℤ◌, ◌<ℤ◌,
  int_laws, int64_max, wrap64_exact, neg_ℤ_parts,
}
use mlk.Poly.Row.{VarSpace, ConstraintRow}
use mlk.Poly.Row.Value.{dot, row_value, RowHolds, Satisfies}
use mlk.Poly.System.{universe, add_row}
use mlk.Poly.System.Eval.{Holds}
use mlk.Poly.System.Laws.{add_row-Holds, add_row_exact}
use mlk.Poly.System.Room.{HasRoom, add_row_room}
use mlk.Poly.IntSet.{below_row, above_row, negate_row}

-- The numbers of a row can be negated in int64_t.
abbrev pub Negatable : ℤ → Type 0
Negatable c = nat_abs c ≤ int64_max

abbrev pub NegatableRow : ConstraintRow → Type 0
NegatableRow r = Negatable r.constant × All Negatable r.coeffs

neg64_exact : (c : ℤ) → Negatable c → neg64 c ≡ neg_ℤ c
neg64_exact c h = wrap64_exact (neg_ℤ c) (omega (arith, Int.neg_ℤ_abs c))

dot_negated : (cs x : List ℤ) → All Negatable cs → dot (map neg64 cs) x ≡ neg_ℤ (dot cs x)
dot_negated [] x h = omega int_laws
dot_negated (c ∷ cs) [] h = omega int_laws
dot_negated (c ∷ cs) (v ∷ x) h =
    rw (neg64_exact c h.0, dot_negated cs x h.1, Int.neg_ℤ-*ℤ) (omega int_laws)

-- The value of the row for "below".
below_value :
    (r : ConstraintRow) (x : List ℤ)
    → NegatableRow r
    → row_value (below_row r) x ≡ neg_ℤ (row_value r x) -ℤ pos 1
below_value r x h =
    let n = neg64_exact r.constant h.0 in
    let s : sub64 (neg_ℤ r.constant) (pos 1) ≡ neg_ℤ r.constant -ℤ pos 1 =
      wrap64_exact (neg_ℤ r.constant -ℤ pos 1)
        (omega (int_laws, Int.neg_ℤ_abs r.constant, Int.-ℤ_one (neg_ℤ r.constant))) in
    rw (n, s, dot_negated r.coeffs x h.1) (omega int_laws)

above_value :
    (r : ConstraintRow) (x : List ℤ)
    → NegatableRow r
    → row_value (above_row r) x ≡ row_value r x -ℤ pos 1
above_value r x h =
    let s : sub64 r.constant (pos 1) ≡ r.constant -ℤ pos 1 =
      wrap64_exact (r.constant -ℤ pos 1) (omega (int_laws, Int.-ℤ_one r.constant)) in
    rw s (omega int_laws)

module _ (x : List ℤ) (space : VarSpace) (r : ConstraintRow) where
  fresh : HasRoom 0 (universe space)
  fresh = record { kept = refl; bounded = omega arith }

  in_universe : Holds x (universe space)
  in_universe = record { live = refl; all_rows = tt }

  -- An inequality fails exactly in the disjunct for its negation.
  pub negate_inequality :
      r.is_equality ≡ false
      → NegatableRow r
      → Holds x (negate_row space r) ↔ (row_value r x <ℤ pos 0)
  unfolding negate_row
  negate_inequality kind n =
      if_ind (λ p. Holds x p ↔ (row_value r x <ℤ pos 0)) r.is_equality (λ t. cc (t, kind))
        (λ _. (there, back))
    where
      there : Holds x (add_row (universe space) (below_row r)) → row_value r x <ℤ pos 0
      there h =
          let room = add_row_room 0 (universe space) (below_row r) (omega arith) fresh in
          let held = (add_row_exact (universe space) (below_row r) x room.kept h).1 in
          omega (int_laws, held, below_value r x n)

      back : row_value r x <ℤ pos 0 → Holds x (add_row (universe space) (below_row r))
      back h =
          add_row-Holds (universe space) (below_row r) x in_universe
            (omega (int_laws, h, below_value r x n))

  -- The disjunct for the negation of an equality holds no point: it wants the value of the row to be
  -- above and below zero at once.
  pub negate_equality : r.is_equality ≡ true → NegatableRow r → ¬ Holds x (negate_row space r)
  unfolding negate_row
  negate_equality kind n = if_ind (λ p. ¬ Holds x p) r.is_equality there (λ f. cc (f, kind))
    where
      there :
          r.is_equality ≡ true
          → ¬ Holds x (add_row (add_row (universe space) (above_row r)) (below_row r))
      there _ h =
          let room1 = add_row_room 0 (universe space) (above_row r) (omega arith) fresh in
          let room2 =
            add_row_room 1 (add_row (universe space) (above_row r)) (below_row r) (omega arith)
              room1 in
          let (first, low) =
            add_row_exact (add_row (universe space) (above_row r)) (below_row r) x room2.kept h in
          let high = (add_row_exact (universe space) (above_row r) x room1.kept first).1 in
          omega (int_laws, low, high, below_value r x n, above_value r x n)

  pub negate_row_room : HasRoom 2 (negate_row space r)
  unfolding negate_row
  negate_row_room =
      let room1 = add_row_room 0 (universe space) (below_row r) (omega arith) fresh in
      let room2 =
        add_row_room 1 (add_row (universe space) (above_row r)) (below_row r) (omega arith)
          (add_row_room 0 (universe space) (above_row r) (omega arith) fresh) in
      if_ind (HasRoom 2) r.is_equality (λ _. room2)
        (λ _. record { kept = room1.kept; bounded = omega (arith, room1.bounded) })

-- Whatever holds in the negation fails the row.
pub negate_row_sound :
    (x : List ℤ) (space : VarSpace) (r : ConstraintRow)
    → NegatableRow r
    → Holds x (negate_row space r)
    → ¬ RowHolds x r
negate_row_sound x space r n h hr = kinds r.is_equality refl
  where
    kinds : (b : Bool) → r.is_equality ≡ b → ⊥
    kinds true e = negate_equality x space r e n h
    kinds false e =
        let low = (negate_inequality x space r e n).0 h in
        let high : Satisfies false (row_value r x) =
          subst (λ b. Satisfies b (row_value r x)) e hr in
        omega (arith, low, high)
