-- ===== src/Poly/IntSet/Complement.antt =====
-- The points that `complement` returns: those that escape every disjunct.
use mlk.Base.{
  ℕ, suc, ◌+◌, ◌*◌, ◌≤◌, ◌≡◌, refl, subst, true, false, ◌⊎◌, inl, inr, ◌↔◌, List, [], ◌∷◌, ◌++◌,
  length, ltb, All, All-append, All-map, Any, Any-left, Any-right, Any-append, arith, if_ind,
}
use mlk.Base.Int.{ℤ}
use mlk.Base.Res.{ok, ok_inj, >>=-eq-ok}
use mlk.Poly.Row.{VarSpace, ConstraintRow}
use mlk.Poly.System.{Polyhedron, universe, flagged, max_rows_per_system}
use mlk.Poly.System.Eval.{Holds}
use mlk.Poly.IntSet.{
  PresburgerSet, max_disjuncts, negate_row, negate_rows, complement_disjunct, complement_step,
  complement_all, complement,
}
use mlk.Poly.IntSet.Meet.{Contains, RowsWithin}
use mlk.Poly.IntSet.Intersect.{intersect_exact}
use mlk.Poly.IntSet.Negate.{negate_row_room}

-- The point lies in the disjunct for the negation of the row.
abbrev pub Negated : VarSpace → List ℤ → ConstraintRow → Type 0
Negated space x r = Holds x (negate_row space r)

negate_rows_exact :
    (space : VarSpace) (rs : List ConstraintRow) (out : List Polyhedron) {ds : List Polyhedron}
    → negate_rows space rs out ≡ ok ds
    → ((x : List ℤ) → Any (Holds x) ds ↔ (Any (Holds x) out ⊎ Any (Negated space x) rs))
      × (All (RowsWithin 2) out → All (RowsWithin 2) ds)
unfolding negate_rows
negate_rows_exact space [] out {ds} e = (
  λ x. subst (λ l. Any (Holds x) l ↔ (Any (Holds x) out ⊎ ⊥)) (ok_inj e) (inl, left_only x),
  λ h. subst (All (RowsWithin 2)) (ok_inj e) h,
)
  where
    left_only : (x : List ℤ) → Any (Holds x) out ⊎ ⊥ → Any (Holds x) out
    left_only x (inl h) = h
    left_only x (inr z) = absurd z
negate_rows_exact space (r ∷ rs) out {ds} e =
    let rest = negate_rows_exact space rs (out ++ negate_row space r ∷ []) in
    if_ind
      (λ m.
        m ≡ ok ds
        → ((x : List ℤ)
            → Any (Holds x) ds
              ↔ (Any (Holds x) out ⊎ (Negated space x r ⊎ Any (Negated space x) rs)))
          × (All (RowsWithin 2) out → All (RowsWithin 2) ds))
      (ltb max_disjuncts (length out + 1)) (λ _ e'. cc)
      (λ _ e'.
        let (points, within) = rest e' in
        (
          λ x. (λ h. there x ((points x).0 h), λ h. (points x).1 (back x h)),
          λ h. within (
              All-append (RowsWithin 2) out (negate_row space r ∷ []) h
                ((negate_row_room [] space r).bounded, tt)),
        ))
      e
  where
    there :
        (x : List ℤ)
        → Any (Holds x) (out ++ negate_row space r ∷ []) ⊎ Any (Negated space x) rs
        → Any (Holds x) out ⊎ (Negated space x r ⊎ Any (Negated space x) rs)
    there x (inr h) = inr (inr h)
    there x (inl h) = elim (Any-append (Holds x) out (negate_row space r ∷ []) h) [
      | inl old ↦ inl old
      | inr (inl new) ↦ inr (inl new)
      | inr (inr z) ↦ absurd z
    ]

    back :
        (x : List ℤ)
        → Any (Holds x) out ⊎ (Negated space x r ⊎ Any (Negated space x) rs)
        → Any (Holds x) (out ++ negate_row space r ∷ []) ⊎ Any (Negated space x) rs
    back x (inl h) = inl (Any-left (Holds x) out (negate_row space r ∷ []) h)
    back x (inr (inl h)) = inl (Any-right (Holds x) out (negate_row space r ∷ []) (inl h))
    back x (inr (inr h)) = inr h

-- The disjuncts for one system hold the points of the negation of one of its rows.
complement_disjunct_exact :
    (space : VarSpace) (p : Polyhedron) {ds : List Polyhedron}
    → complement_disjunct space p ≡ ok ds
    → ((x : List ℤ) → Any (Holds x) ds ↔ Any (Negated space x) p.rows) × All (RowsWithin 2) ds
unfolding complement_disjunct
complement_disjunct_exact space p {ds} = rows p.rows
  where
    rows :
        (rs : List ConstraintRow)
        → negate_rows space rs (elim rs [ [] ↦ flagged (universe space) ∷ [] | _ ∷ _ ↦ [] ]) ≡ ok ds
        → ((x : List ℤ) → Any (Holds x) ds ↔ Any (Negated space x) rs) × All (RowsWithin 2) ds
    rows [] e =
        let (points, within) = negate_rows_exact space [] (flagged (universe space) ∷ []) e in
        (λ x. (λ h. dead x ((points x).0 h), absurd), within (omega arith, tt))
      where
        dead : (x : List ℤ) → (Holds x (flagged (universe space)) ⊎ ⊥) ⊎ ⊥ → ⊥
        dead x (inl (inl h)) = cc h.live
        dead x (inl (inr z)) = z
        dead x (inr z) = z
    rows (r ∷ rs) e =
        let (points, within) = negate_rows_exact space (r ∷ rs) [] e in
        (λ x. (λ h. right_only x ((points x).0 h), λ h. (points x).1 (inr h)), within tt)
      where
        right_only :
            (x : List ℤ) → ⊥ ⊎ Any (Negated space x) (r ∷ rs) → Any (Negated space x) (r ∷ rs)
        right_only x (inl z) = absurd z
        right_only x (inr h) = h

-- What the complement asks of one system: it is flagged, or one of its rows is negated.
abbrev pub Escapes : VarSpace → List ℤ → Polyhedron → Type 0
Escapes space x p = (p.is_empty_flag ≡ true) ⊎ Any (Negated space x) p.rows

complement_step_exact :
    (space : VarSpace) (p : Polyhedron) (acc : PresburgerSet) (m : ℕ) {next : PresburgerSet}
    → m + 2 ≤ max_rows_per_system
    → All (RowsWithin m) acc.disjuncts
    → complement_step space p acc ≡ ok next
    → ((x : List ℤ) → Contains x next ↔ (Contains x acc × Escapes space x p))
      × All (RowsWithin (m + 2)) next.disjuncts
unfolding complement_step
complement_step_exact space p acc m {next} fits h e =
    if_ind
      (λ t.
        t ≡ ok next
        → ((x : List ℤ) → Contains x next ↔ (Contains x acc × Escapes space x p))
          × All (RowsWithin (m + 2)) next.disjuncts)
      p.is_empty_flag
      (λ dead e'.
        subst
          (λ t.
            ((x : List ℤ) → Contains x t ↔ (Contains x acc × Escapes space x p))
            × All (RowsWithin (m + 2)) t.disjuncts)
          (ok_inj e')
          (
            λ x. (λ c. (c, inl dead), λ c. c.0),
            All-map (RowsWithin m) (RowsWithin (m + 2)) (λ q w. omega arith) acc.disjuncts h,
          ))
      (λ live e'.
        let (ds, ed, e1) = >>=-eq-ok (complement_disjunct space p) _ e' in
        let (points, within) = complement_disjunct_exact space p ed in
        let (both, bound) =
          intersect_exact acc (record { space = space; disjuncts = ds }) m 2 fits h within e1 in
        (
          λ x. (
            λ c. there x ds (points x) ((both x).0 c),
            λ c. (both x).1 (c.0, (points x).1 (back x live c.1)),
          ),
          bound,
        ))
      e
  where
    there :
        (x : List ℤ) (ds : List Polyhedron)
        → Any (Holds x) ds ↔ Any (Negated space x) p.rows
        → Contains x acc × Any (Holds x) ds
        → Contains x acc × Escapes space x p
    there x ds f (a, d) = (a, inr (f.0 d))

    back : (x : List ℤ) → p.is_empty_flag ≡ false → Escapes space x p → Any (Negated space x) p.rows
    back x live (inl dead) = cc (live, dead)
    back x live (inr h) = h

complement_all_exact :
    (space : VarSpace) (ps : List Polyhedron) (acc : PresburgerSet) (m : ℕ) {s : PresburgerSet}
    → m + 2 * length ps ≤ max_rows_per_system
    → All (RowsWithin m) acc.disjuncts
    → complement_all space ps acc ≡ ok s
    → ((x : List ℤ) → Contains x s ↔ (Contains x acc × All (Escapes space x) ps))
      × All (RowsWithin (m + 2 * length ps)) s.disjuncts
unfolding complement_all
complement_all_exact space [] acc m {s} fits h e =
    subst
      (λ t.
        ((x : List ℤ) → Contains x t ↔ (Contains x acc × Unit))
        × All (RowsWithin (m + 0)) t.disjuncts)
      (ok_inj e)
      (
        λ x. (λ c. (c, tt), λ c. c.0),
        All-map (RowsWithin m) (RowsWithin (m + 0)) (λ q w. omega arith) acc.disjuncts h,
      )
complement_all_exact space (p ∷ ps) acc m {s} fits h e =
    let (next, en, e') = >>=-eq-ok (complement_step space p acc) _ e in
    let (one, bound) = complement_step_exact space p acc m (omega arith) h en in
    let (rest, bounds) = complement_all_exact space ps next (m + 2) (omega arith) bound e' in
    (
      λ x. (
        λ c. let (n, others) = (rest x).0 c in (((one x).0 n).0, (((one x).0 n).1, others)),
        λ c. (rest x).1 ((one x).1 (c.0, c.1.0), c.1.1),
      ),
      All-map (RowsWithin (m + 2 + 2 * length ps)) (RowsWithin (m + 2 * suc (length ps)))
          (λ q w. omega arith) s.disjuncts bounds,
    )

-- The points of a complement: those that escape every disjunct.
pub complement_exact :
    (a : PresburgerSet) {c : PresburgerSet}
    → 2 * length a.disjuncts ≤ max_rows_per_system
    → complement a ≡ ok c
    → ((x : List ℤ) → Contains x c ↔ All (Escapes a.space x) a.disjuncts)
      × All (RowsWithin (2 * length a.disjuncts)) c.disjuncts
unfolding complement
complement_exact a {c} fits e =
    let (points, bound) =
      complement_all_exact a.space a.disjuncts
        (record { space = a.space; disjuncts = universe a.space ∷ [] }) 0 (omega arith)
        (omega arith, tt) e in
    (
      λ x. (
        λ h. ((points x).0 h).1,
        λ h. (points x).1 (inl (record { live = refl; all_rows = tt }), h),
      ),
      All-map (RowsWithin (0 + 2 * length a.disjuncts)) (RowsWithin (2 * length a.disjuncts))
          (λ q w. omega arith) c.disjuncts bound,
    )
