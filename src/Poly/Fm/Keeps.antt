-- ===== src/Poly/Fm/Keeps.antt =====
-- Phase 1 of `fmEliminate` keeps the points of a system.
use mlk.Base.{
  ℕ, ◌≡◌, refl, sym, ◌∙◌, subst, true, false, List, ◌∷◌, ◌++◌, All, All-append, All-left, All-right,
  All-map,
}
use mlk.Base.Int.{ℤ, int_laws}
use mlk.Base.Res.{ok, Traversed-All}
use mlk.Poly.Row.{VarSpace, ConstraintRow, is_trivially_true}
use mlk.Poly.Row.Value.{RowHolds}
use mlk.Poly.System.{Polyhedron, simplify_system}
use mlk.Poly.System.Eval.{Holds, HasWidth}
use mlk.Poly.System.Simplify.{
  simplify_system-Holds, simplify_system-All, simplify_system_space, Real,
}
use mlk.Poly.Fm.{Split, merge_equality, consumed}
use mlk.Poly.Fm.Merge.{merge_equality-Merged, Merged-holds}
use mlk.Poly.Fm.Equalities.{IsSplit, Substituted, Rounds, out_of_rounds, dead, done, round}

-- Both facts that the elimination keeps of a row.
abbrev pub Good : ℕ → List ℤ → ConstraintRow → Type 0
Good n x r = HasWidth n r × RowHolds x r

-- Each merged row is good where the equality and the row are.
merged-Good :
    (n : ℕ) (x : List ℤ) (var : ℕ) (eq : ConstraintRow)
    → eq.is_equality ≡ true
    → Good n x eq
    → (w r : ConstraintRow) → merge_equality var eq w ≡ ok r
    → Good n x w
    → Good n x r
merged-Good n x var eq kind ge w r e gw =
    Merged-holds x (merge_equality-Merged var eq w e) ge.0 gw.0 kind ge.1 gw.1

consumed_trivial : is_trivially_true consumed ≡ true
unfolding is_trivially_true
consumed_trivial = refl

module _ (n : ℕ) (x : List ℤ) where
  -- A system that is live, over a space, with good rows.
  pub record IsGood (space : VarSpace) (p : Polyhedron) : Type 0 where
    pub live : p.is_empty_flag ≡ false
    pub same_space : p.space ≡ space
    pub rows_good : All (Good n x) p.rows

  pub IsGood-Holds : {space : VarSpace} {p : Polyhedron} → IsGood space p → Holds x p
  IsGood-Holds {p = p} g = record {
    live = g.live;
    all_rows = All-map (Good n x) (RowHolds x) (λ r h. h.1) p.rows g.rows_good;
  }

  -- Simplification keeps a good system good, though the used equality is not as wide.
  pub simplify-Good :
      {space : VarSpace} (p : Polyhedron)
      → p.is_empty_flag ≡ false
      → p.space ≡ space
      → All (λ r. RowHolds x r × Real (Good n x) r) p.rows
      → IsGood space (simplify_system p)
  simplify-Good p live e a =
      let held : Holds x p = record {
        live = live;
        all_rows = All-map _ (RowHolds x) (λ r h. h.0) p.rows a;
      } in
      let left = (simplify_system-Holds p x).1 held in
      record {
        live = left.live;
        same_space = simplify_system_space p ∙ e;
        rows_good =
            simplify_system-All p (Good n x) left.live
              (All-map _ (Real (Good n x)) (λ r h. h.1) p.rows a);
      }

module _ (n : ℕ) (x : List ℤ) (var : ℕ) where
  -- One round keeps the points of the system.
  substitute_equality-IsGood :
      {space : VarSpace} (p : Polyhedron) (s : Split) {q : Polyhedron}
      → IsSplit var p.rows s
      → Substituted var p s q
      → IsGood n x space p
      → IsGood n x space q
  substitute_equality-IsGood {space} p s f u g =
      let all = subst (All (Good n x)) (sym f.parts) g.rows_good in
      let before_good = All-left (Good n x) s.before (s.eq ∷ s.after) all in
      let (eq_good, after_good) = All-right (Good n x) s.before (s.eq ∷ s.after) all in
      let step = merged-Good n x var s.eq f.kind eq_good in
      let bs =
        Traversed-All (merge_equality var s.eq) (Good n x) (Good n x) step s.before u.before
          u.before_merged before_good in
      let as' =
        Traversed-All (merge_equality var s.eq) (Good n x) (Good n x) step s.after u.after
          u.after_merged after_good in
      subst (IsGood n x space) u.result (
        simplify-Good n x (record p { rows = u.before ++ consumed ∷ u.after }) g.live g.same_space
          (All-append _ u.before (consumed ∷ u.after) (All-map _ _ both u.before bs)
            ((consumed_holds, consumed_real), All-map _ _ both u.after as')))
    where
      both : (r : ConstraintRow) → Good n x r → RowHolds x r × Real (Good n x) r
      both r h = (h.1, λ _. h)

      consumed_holds : RowHolds x consumed
      consumed_holds = omega int_laws

      consumed_real : Real (Good n x) consumed
      consumed_real h = cc (consumed_trivial)

  -- Phase 1 keeps the points of the system.
  pub Rounds-IsGood :
      {space : VarSpace} {fuel : ℕ} {p q : Polyhedron}
      → Rounds var fuel p q
      → IsGood n x space p
      → IsGood n x space q
  Rounds-IsGood out_of_rounds g = g
  Rounds-IsGood (dead e) g = g
  Rounds-IsGood (done a) g = g
  Rounds-IsGood (round {p = p} {s = s} f u rest) g =
      Rounds-IsGood rest (substitute_equality-IsGood p s f u g)
