-- ===== src/Poly/IntSet/Meet.antt =====
-- The conjunction of two systems holds exactly the points of both.
use mlk.Base.{
  ℕ, ◌+◌, ◌≤◌, ◌≡◌, refl, subst, true, false, ◌⊎◌, inl, inr, ◌↔◌, List, [], ◌∷◌, ◌++◌, length, leb,
  All, All-append, Any, Any-left, Any-right, Any-append, arith, if_ind,
}
use mlk.Base.Int.{ℤ}
use mlk.Base.Res.{ok, ok_inj}
use mlk.Poly.Row.{VarSpace}
use mlk.Poly.System.{Polyhedron, universe, add_rows_to, max_rows_per_system}
use mlk.Poly.System.Eval.{Holds}
use mlk.Poly.System.Laws.{add_rows_to-Holds, add_rows_to_exact}
use mlk.Poly.System.Simplify.{simplify_system-Holds, length-simplify_system}
use mlk.Poly.System.Room.{HasRoom, add_rows_to_room}
use mlk.Poly.IntSet.{PresburgerSet, meet, intersect_pair, max_disjuncts}

-- The point lies in the set.
abbrev pub Contains : List ℤ → PresburgerSet → Type 0
Contains x s = Any (Holds x) s.disjuncts

-- Every disjunct has at most so many rows.
abbrev pub RowsWithin : ℕ → Polyhedron → Type 0
RowsWithin m p = length p.rows ≤ m

module _ (x : List ℤ) (space : VarSpace) {i j : ℕ} (fits : i + j ≤ max_rows_per_system) where
  both_room :
      (pa pb : Polyhedron)
      → RowsWithin i pa
      → RowsWithin j pb
      → HasRoom (i + j) (add_rows_to (add_rows_to (universe space) pa.rows) pb.rows)
  both_room pa pb ha hb =
      let first =
        add_rows_to_room 0 (universe space) pa.rows (omega arith)
          (record { kept = refl; bounded = omega arith }) in
      let both =
        add_rows_to_room (length pa.rows) (add_rows_to (universe space) pa.rows) pb.rows
          (omega arith) (record { kept = first.kept; bounded = omega (arith, first.bounded) }) in
      record { kept = both.kept; bounded = omega (arith, both.bounded) }

  pub meet_within :
      (pa pb : Polyhedron)
      → RowsWithin i pa
      → RowsWithin j pb
      → RowsWithin (i + j) (meet space pa pb)
  meet_within pa pb ha hb = omega (
    arith,
    (both_room pa pb ha hb).bounded,
    length-simplify_system (add_rows_to (add_rows_to (universe space) pa.rows) pb.rows),
  )

  pub meet_exact :
      (pa pb : Polyhedron)
      → RowsWithin i pa
      → RowsWithin j pb
      → pa.is_empty_flag ≡ false
      → pb.is_empty_flag ≡ false
      → Holds x (meet space pa pb) ↔ (Holds x pa × Holds x pb)
  meet_exact pa pb ha hb la lb = (there, back)
    where
      all : Polyhedron
      all = add_rows_to (add_rows_to (universe space) pa.rows) pb.rows

      there : Holds x (meet space pa pb) → Holds x pa × Holds x pb
      there h =
          let held = (simplify_system-Holds all x).0 h in
          let (first, rb) =
            add_rows_to_exact (add_rows_to (universe space) pa.rows) pb.rows x
              (both_room pa pb ha hb).kept held in
          let first_room =
            add_rows_to_room 0 (universe space) pa.rows (omega arith)
              (record { kept = refl; bounded = omega arith }) in
          let (_, ra) = add_rows_to_exact (universe space) pa.rows x first_room.kept first in
          (record { live = la; all_rows = ra }, record { live = lb; all_rows = rb })

      back : Holds x pa × Holds x pb → Holds x (meet space pa pb)
      back (a, b) = (simplify_system-Holds all x).1 (
          add_rows_to-Holds (add_rows_to (universe space) pa.rows) pb.rows x
            (add_rows_to-Holds (universe space) pa.rows x (record { live = refl; all_rows = tt })
              a.all_rows)
            b.all_rows)

  pub intersect_pair_exact :
      (pa pb : Polyhedron) (out : List Polyhedron) {ds : List Polyhedron}
      → RowsWithin i pa
      → RowsWithin j pb
      → pa.is_empty_flag ≡ false
      → intersect_pair space pa pb out ≡ ok ds
      → Any (Holds x) ds ↔ (Any (Holds x) out ⊎ (Holds x pa × Holds x pb))
  unfolding intersect_pair
  intersect_pair_exact pa pb out {ds} ha hb la =
      if_ind (λ m. m ≡ ok ds → Any (Holds x) ds ↔ (Any (Holds x) out ⊎ (Holds x pa × Holds x pb)))
        pb.is_empty_flag
        (λ dead e.
          subst (λ l. Any (Holds x) l ↔ (Any (Holds x) out ⊎ (Holds x pa × Holds x pb))) (ok_inj e)
            (inl, left_of dead))
        (λ live.
          if_ind
            (λ m. m ≡ ok ds → Any (Holds x) ds ↔ (Any (Holds x) out ⊎ (Holds x pa × Holds x pb)))
            (leb max_disjuncts (length out)) (λ _ e. cc)
            (λ _ e.
              subst (λ l. Any (Holds x) l ↔ (Any (Holds x) out ⊎ (Holds x pa × Holds x pb)))
                (ok_inj e) (there live, back live)))
    where
      left_of :
          pb.is_empty_flag ≡ true
          → Any (Holds x) out ⊎ (Holds x pa × Holds x pb)
          → Any (Holds x) out
      left_of dead (inl h) = h
      left_of dead (inr (a, b)) = cc (dead, b.live)

      there :
          pb.is_empty_flag ≡ false
          → Any (Holds x) (out ++ meet space pa pb ∷ [])
          → Any (Holds x) out ⊎ (Holds x pa × Holds x pb)
      there live h = elim (Any-append (Holds x) out (meet space pa pb ∷ []) h) [
        | inl old ↦ inl old
        | inr (inl new) ↦ inr ((meet_exact pa pb ha hb la live).0 new)
        | inr (inr z) ↦ absurd z
      ]

      back :
          pb.is_empty_flag ≡ false
          → Any (Holds x) out ⊎ (Holds x pa × Holds x pb)
          → Any (Holds x) (out ++ meet space pa pb ∷ [])
      back live (inl h) = Any-left (Holds x) out (meet space pa pb ∷ []) h
      back live (inr h) =
          Any-right (Holds x) out (meet space pa pb ∷ [])
            (inl ((meet_exact pa pb ha hb la live).1 h))

  pub intersect_pair_within :
      (pa pb : Polyhedron) (out : List Polyhedron) {ds : List Polyhedron}
      → RowsWithin i pa
      → RowsWithin j pb
      → All (RowsWithin (i + j)) out
      → intersect_pair space pa pb out ≡ ok ds
      → All (RowsWithin (i + j)) ds
  unfolding intersect_pair
  intersect_pair_within pa pb out {ds} ha hb ho =
      if_ind (λ m. m ≡ ok ds → All (RowsWithin (i + j)) ds) pb.is_empty_flag
        (λ _ e. subst (All (RowsWithin (i + j))) (ok_inj e) ho)
        (λ _.
          if_ind (λ m. m ≡ ok ds → All (RowsWithin (i + j)) ds) (leb max_disjuncts (length out))
            (λ _ e. cc)
            (λ _ e. subst (All (RowsWithin (i + j))) (ok_inj e) (
              All-append (RowsWithin (i + j)) out (meet space pa pb ∷ []) ho
                (meet_within pa pb ha hb, tt))))
