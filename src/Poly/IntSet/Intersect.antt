-- ===== src/Poly/IntSet/Intersect.antt =====
-- `intersect` holds exactly the points of both sets, and `unite` those of either.
use mlk.Base.{
  ℕ, ◌+◌, ◌≤◌, ◌≡◌, if◌then◌else◌, sym, subst, ◌∙◌, true, false, not, ◌⊎◌, inl, inr, ◌↔◌, List, [],
  ◌∷◌, ◌++◌, length, leb, All, Any, Any-left, Any-right, Any-append, ap, arith, if_ind,
  append_assoc, append-nil,
}
use mlk.Base.Int.{ℤ}
use mlk.Base.Res.{Result, ok, ok_inj, >>=-eq-ok}
use mlk.Poly.Row.{VarSpace, same_as}
use mlk.Poly.System.{Polyhedron, universe, flagged, max_rows_per_system}
use mlk.Poly.System.Eval.{Holds}
use mlk.Poly.IntSet.{
  PresburgerSet, intersect_pair, intersect_with, intersect_all, or_empty, intersect,
  append_disjuncts, unite, max_disjuncts,
}
use mlk.Poly.IntSet.Meet.{Contains, RowsWithin, intersect_pair_exact, intersect_pair_within}

-- One round of the outer loop.
abbrev outer : VarSpace → Polyhedron → List Polyhedron → List Polyhedron → Result (List Polyhedron)
outer space pa bs out = if pa.is_empty_flag then ok out else intersect_with space pa bs out

abbrev InAny : List ℤ → List Polyhedron → Type 0
InAny x ds = Any (Holds x) ds

module _ (x : List ℤ) (space : VarSpace) (i j : ℕ) (fits : i + j ≤ max_rows_per_system) where
  -- What one run of the inner loop adds.
  intersect_with_exact :
      (pa : Polyhedron) (bs out : List Polyhedron) {ds : List Polyhedron}
      → RowsWithin i pa
      → All (RowsWithin j) bs
      → pa.is_empty_flag ≡ false
      → intersect_with space pa bs out ≡ ok ds
      → InAny x ds ↔ (InAny x out ⊎ (Holds x pa × InAny x bs))
  unfolding intersect_with
  intersect_with_exact pa [] out ha hb la e =
      subst (λ l. InAny x l ↔ (InAny x out ⊎ (Holds x pa × ⊥))) (ok_inj e) (inl, left_only)
    where
      left_only : InAny x out ⊎ (Holds x pa × ⊥) → InAny x out
      left_only (inl h) = h
      left_only (inr (a, z)) = absurd z
  intersect_with_exact pa (pb ∷ bs) out {ds} ha hb la e =
      let (next, en, e') = >>=-eq-ok (intersect_pair space pa pb out) _ e in
      chain next (intersect_pair_exact x space fits pa pb out ha hb.0 la en)
        (intersect_with_exact pa bs next ha hb.1 la e')
    where
      chain :
          (next : List Polyhedron)
          → InAny x next ↔ (InAny x out ⊎ (Holds x pa × Holds x pb))
          → InAny x ds ↔ (InAny x next ⊎ (Holds x pa × InAny x bs))
          → InAny x ds ↔ (InAny x out ⊎ (Holds x pa × (Holds x pb ⊎ InAny x bs)))
      chain next one rest = (there, back)
        where
          from_next :
              InAny x out ⊎ (Holds x pa × Holds x pb)
              → InAny x out ⊎ (Holds x pa × (Holds x pb ⊎ InAny x bs))
          from_next (inl h) = inl h
          from_next (inr (a, b)) = inr (a, inl b)

          from_both :
              InAny x next ⊎ (Holds x pa × InAny x bs)
              → InAny x out ⊎ (Holds x pa × (Holds x pb ⊎ InAny x bs))
          from_both (inl h) = from_next (one.0 h)
          from_both (inr (a, b)) = inr (a, inr b)

          there : InAny x ds → InAny x out ⊎ (Holds x pa × (Holds x pb ⊎ InAny x bs))
          there h = from_both (rest.0 h)

          back : InAny x out ⊎ (Holds x pa × (Holds x pb ⊎ InAny x bs)) → InAny x ds
          back (inl h) = rest.1 (inl (one.1 (inl h)))
          back (inr (a, inl b)) = rest.1 (inl (one.1 (inr (a, b))))
          back (inr (a, inr b)) = rest.1 (inr (a, b))

  intersect_with_within :
      (pa : Polyhedron) (bs out : List Polyhedron) {ds : List Polyhedron}
      → RowsWithin i pa
      → All (RowsWithin j) bs
      → All (RowsWithin (i + j)) out
      → intersect_with space pa bs out ≡ ok ds
      → All (RowsWithin (i + j)) ds
  unfolding intersect_with
  intersect_with_within pa [] out ha hb ho e = subst (All (RowsWithin (i + j))) (ok_inj e) ho
  intersect_with_within pa (pb ∷ bs) out ha hb ho e =
      let (next, en, e') = >>=-eq-ok (intersect_pair space pa pb out) _ e in
      intersect_with_within pa bs next ha hb.1
        (intersect_pair_within x space fits pa pb out ha hb.0 ho en) e'

  outer_exact :
      (pa : Polyhedron) (bs out : List Polyhedron) {ds : List Polyhedron}
      → RowsWithin i pa
      → All (RowsWithin j) bs
      → outer space pa bs out ≡ ok ds
      → InAny x ds ↔ (InAny x out ⊎ (Holds x pa × InAny x bs))
  outer_exact pa bs out {ds} ha hb =
      if_ind (λ m. m ≡ ok ds → InAny x ds ↔ (InAny x out ⊎ (Holds x pa × InAny x bs)))
        pa.is_empty_flag
        (λ dead e.
          subst (λ l. InAny x l ↔ (InAny x out ⊎ (Holds x pa × InAny x bs))) (ok_inj e)
            (inl, left_only dead))
        (λ live. intersect_with_exact pa bs out ha hb live)
    where
      left_only : pa.is_empty_flag ≡ true → InAny x out ⊎ (Holds x pa × InAny x bs) → InAny x out
      left_only dead (inl h) = h
      left_only dead (inr (a, b)) = cc (dead, a.live)

  outer_within :
      (pa : Polyhedron) (bs out : List Polyhedron) {ds : List Polyhedron}
      → RowsWithin i pa
      → All (RowsWithin j) bs
      → All (RowsWithin (i + j)) out
      → outer space pa bs out ≡ ok ds
      → All (RowsWithin (i + j)) ds
  outer_within pa bs out {ds} ha hb ho =
      if_ind (λ m. m ≡ ok ds → All (RowsWithin (i + j)) ds) pa.is_empty_flag
        (λ _ e. subst (All (RowsWithin (i + j))) (ok_inj e) ho)
        (λ _. intersect_with_within pa bs out ha hb ho)

  intersect_all_exact :
      (as' bs out : List Polyhedron) {ds : List Polyhedron}
      → All (RowsWithin i) as'
      → All (RowsWithin j) bs
      → intersect_all space as' bs out ≡ ok ds
      → InAny x ds ↔ (InAny x out ⊎ (InAny x as' × InAny x bs))
  unfolding intersect_all
  intersect_all_exact [] bs out ha hb e =
      subst (λ l. InAny x l ↔ (InAny x out ⊎ (⊥ × InAny x bs))) (ok_inj e) (inl, left_only)
    where
      left_only : InAny x out ⊎ (⊥ × InAny x bs) → InAny x out
      left_only (inl h) = h
      left_only (inr (z, b)) = absurd z
  intersect_all_exact (pa ∷ as') bs out {ds} ha hb e =
      let (next, en, e') = >>=-eq-ok (outer space pa bs out) _ e in
      chain next (outer_exact pa bs out ha.0 hb en) (intersect_all_exact as' bs next ha.1 hb e')
    where
      chain :
          (next : List Polyhedron)
          → InAny x next ↔ (InAny x out ⊎ (Holds x pa × InAny x bs))
          → InAny x ds ↔ (InAny x next ⊎ (InAny x as' × InAny x bs))
          → InAny x ds ↔ (InAny x out ⊎ ((Holds x pa ⊎ InAny x as') × InAny x bs))
      chain next one rest = (λ h. from_both (rest.0 h), back)
        where
          from_next :
              InAny x out ⊎ (Holds x pa × InAny x bs)
              → InAny x out ⊎ ((Holds x pa ⊎ InAny x as') × InAny x bs)
          from_next (inl h) = inl h
          from_next (inr (a, b)) = inr (inl a, b)

          from_both :
              InAny x next ⊎ (InAny x as' × InAny x bs)
              → InAny x out ⊎ ((Holds x pa ⊎ InAny x as') × InAny x bs)
          from_both (inl h) = from_next (one.0 h)
          from_both (inr (a, b)) = inr (inr a, b)

          back : InAny x out ⊎ ((Holds x pa ⊎ InAny x as') × InAny x bs) → InAny x ds
          back (inl h) = rest.1 (inl (one.1 (inl h)))
          back (inr (inl a, b)) = rest.1 (inl (one.1 (inr (a, b))))
          back (inr (inr a, b)) = rest.1 (inr (a, b))

  intersect_all_within :
      (as' bs out : List Polyhedron) {ds : List Polyhedron}
      → All (RowsWithin i) as'
      → All (RowsWithin j) bs
      → All (RowsWithin (i + j)) out
      → intersect_all space as' bs out ≡ ok ds
      → All (RowsWithin (i + j)) ds
  unfolding intersect_all
  intersect_all_within [] bs out ha hb ho e = subst (All (RowsWithin (i + j))) (ok_inj e) ho
  intersect_all_within (pa ∷ as') bs out ha hb ho e =
      let (next, en, e') = >>=-eq-ok (outer space pa bs out) _ e in
      intersect_all_within as' bs next ha.1 hb (outer_within pa bs out ha.0 hb ho en) e'

or_empty_exact :
    (x : List ℤ) (space : VarSpace) (ds : List Polyhedron)
    → Any (Holds x) (or_empty space ds) ↔ Any (Holds x) ds
or_empty_exact x space [] = (λ h. dead h, absurd)
  where
    dead : Holds x (flagged (universe space)) ⊎ ⊥ → ⊥
    dead (inl h) = cc h.live
    dead (inr z) = z
or_empty_exact x space (p ∷ ps) = (λ h. h, λ h. h)

or_empty_within :
    (m : ℕ) (space : VarSpace) (ds : List Polyhedron)
    → All (RowsWithin m) ds
    → All (RowsWithin m) (or_empty space ds)
or_empty_within m space [] h = (omega arith, tt)
or_empty_within m space (p ∷ ps) h = h

-- What a successful `intersect` went through.
intersect_inv :
    (a b : PresburgerSet) {s : PresburgerSet}
    → intersect a b ≡ ok s
    → (out : List Polyhedron) × (intersect_all a.space a.disjuncts b.disjuncts [] ≡ ok out)
      × (record { space = a.space; disjuncts = or_empty a.space out } ≡ s)
unfolding intersect
intersect_inv a b {s} =
    if_ind
      (λ m.
        m ≡ ok s
        → (out : List Polyhedron) × (intersect_all a.space a.disjuncts b.disjuncts [] ≡ ok out)
          × (record { space = a.space; disjuncts = or_empty a.space out } ≡ s))
      (not (same_as a.space b.space)) (λ _ e. cc)
      (λ _ e.
        let (out, eo, e') = >>=-eq-ok (intersect_all a.space a.disjuncts b.disjuncts []) _ e in
        (out, eo, ok_inj e'))

-- Intersection is exact: where no disjunct of the one set has more than i rows, none of the other
-- more than j, and i + j rows fit into a system, the result of a successful `intersect` holds
-- exactly the points that both sets hold, and none of its disjuncts has more than i + j rows.
pub intersect_exact :
    (a b : PresburgerSet) (i j : ℕ) {s : PresburgerSet}
    → i + j ≤ max_rows_per_system
    → All (RowsWithin i) a.disjuncts
    → All (RowsWithin j) b.disjuncts
    → intersect a b ≡ ok s
    → ((x : List ℤ) → Contains x s ↔ (Contains x a × Contains x b))
      × All (RowsWithin (i + j)) s.disjuncts
intersect_exact a b i j {s} fits ha hb e =
    let (out, eo, es) = intersect_inv a b e in
    subst
      (λ t.
        ((x : List ℤ) → Contains x t ↔ (Contains x a × Contains x b))
        × All (RowsWithin (i + j)) t.disjuncts)
      es
      (
        λ x. points x out eo,
        or_empty_within (i + j) a.space out
            (intersect_all_within [] a.space i j fits a.disjuncts b.disjuncts [] ha hb tt eo),
      )
  where
    points :
        (x : List ℤ) (out : List Polyhedron)
        → intersect_all a.space a.disjuncts b.disjuncts [] ≡ ok out
        → Any (Holds x) (or_empty a.space out) ↔ (Contains x a × Contains x b)
    points x out eo =
        let all = intersect_all_exact x a.space i j fits a.disjuncts b.disjuncts [] ha hb eo in
        (
          λ h. right_only (all.0 ((or_empty_exact x a.space out).0 h)),
          λ h. (or_empty_exact x a.space out).1 (all.1 (inr h)),
        )
      where
        right_only : ⊥ ⊎ (Contains x a × Contains x b) → Contains x a × Contains x b
        right_only (inl z) = absurd z
        right_only (inr h) = h

append_disjuncts_lem :
    (out ps : List Polyhedron) {ds : List Polyhedron}
    → append_disjuncts out ps ≡ ok ds
    → out ++ ps ≡ ds
unfolding append_disjuncts
append_disjuncts_lem out [] e = append-nil out ∙ ok_inj e
append_disjuncts_lem out (p ∷ ps) {ds} e =
    let rest = append_disjuncts_lem (out ++ p ∷ []) ps in
    if_ind (λ m. m ≡ ok ds → out ++ p ∷ ps ≡ ds) (leb max_disjuncts (length out)) (λ _ e. cc)
      (λ _ e'. sym (append_assoc out (p ∷ []) ps) ∙ rest e') e

-- A successful union holds exactly the points of either set: its disjuncts are those of the one set
-- and then those of the other.
pub unite_exact :
    (a b : PresburgerSet) {s : PresburgerSet}
    → unite a b ≡ ok s
    → (s.disjuncts ≡ a.disjuncts ++ b.disjuncts)
      × ((x : List ℤ) → Contains x s ↔ (Contains x a ⊎ Contains x b))
unfolding unite
unite_exact a b {s} =
    if_ind
      (λ m.
        m ≡ ok s
        → (s.disjuncts ≡ a.disjuncts ++ b.disjuncts)
          × ((x : List ℤ) → Contains x s ↔ (Contains x a ⊎ Contains x b)))
      (not (same_as a.space b.space)) (λ _ e. cc)
      (λ _ e.
        let (first, e1, rest) = >>=-eq-ok (append_disjuncts [] a.disjuncts) _ e in
        let (out, e2, es) = >>=-eq-ok (append_disjuncts first b.disjuncts) _ rest in
        let same : s.disjuncts ≡ a.disjuncts ++ b.disjuncts =
          sym (ap (λ (t : PresburgerSet). t.disjuncts) (ok_inj es))
          ∙ sym (append_disjuncts_lem first b.disjuncts e2)
          ∙ ap (λ l. l ++ b.disjuncts) (sym (append_disjuncts_lem [] a.disjuncts e1)) in
        (
          same,
          λ x.
              subst (λ l. Any (Holds x) l ↔ (Contains x a ⊎ Contains x b)) (sym same)
                (Any-append (Holds x) a.disjuncts b.disjuncts, either x),
        ))
  where
    either : (x : List ℤ) → Contains x a ⊎ Contains x b → Any (Holds x) (a.disjuncts ++ b.disjuncts)
    either x (inl h) = Any-left (Holds x) a.disjuncts b.disjuncts h
    either x (inr h) = Any-right (Holds x) a.disjuncts b.disjuncts h
