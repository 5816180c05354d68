-- ===== src/Poly/Fm/Sound.antt =====
-- Elimination of a variable loses no point: what `fmEliminate` as a whole keeps.
use mlk.Base.{ℕ, ◌≡◌, refl, sym, subst, Bool, false, List, length, All, All-zip, All-map, if_ind}
use mlk.Base.Int.{ℤ, pos, eqb_ℤ, ltb_ℤ}
use mlk.Base.Res.{ok, ok_inj, >>=-eq-ok}
use mlk.Poly.Row.{VarSpace, total_vars, ConstraintRow}
use mlk.Poly.Row.Value.{RowHolds}
use mlk.Poly.System.{Polyhedron, universe, add_rows_to}
use mlk.Poly.System.Eval.{Holds, HasWidth, IsWide}
use mlk.Poly.Fm.{
  FmOutcome, rows_where, combine_all, combine_signs, eliminate_equalities, fm_eliminate,
}
use mlk.Poly.Fm.Equalities.{eliminate_equalities-Rounds}
use mlk.Poly.Fm.Keeps.{Good, IsGood-Holds, Rounds-IsGood}
use mlk.Poly.Fm.Pairs.{
  rows_where-All, combine_all-Walks, KeepsPoint, OutcomeKeeps, Walks-keeps, finish_keeps,
  add_rows_to_keeps,
}

module _ (x : List ℤ) (space : VarSpace) where
  abbrev GoodRow : ConstraintRow → Type 0
  GoodRow = Good (total_vars space) x

  -- Any selection of good rows is good.
  selected :
      (test : ℤ → Bool) (var : ℕ) (rows : List ConstraintRow)
      → All GoodRow rows
      → All GoodRow (rows_where test var rows)
  selected test var rows h =
      All-map _ GoodRow (λ r p. p.0) (rows_where test var rows)
        (rows_where-All GoodRow test var rows h)

  combine_signs_keeps :
      (var : ℕ) (sys : Polyhedron) {out : FmOutcome}
      → combine_signs var sys ≡ ok out
      → KeepsPoint x space sys
      → OutcomeKeeps x space out
  unfolding combine_signs
  combine_signs_keeps var sys {out} h g =
      let rows = g.rows_good in
      let neutral = rows_where (λ c. eqb_ℤ c (pos 0)) var sys.rows in
      let positive = rows_where (λ c. ltb_ℤ (pos 0) c) var sys.rows in
      let negative = rows_where (λ c. ltb_ℤ c (pos 0)) var sys.rows in
      let start = add_rows_to (universe sys.space) neutral in
      let fresh : KeepsPoint x space (universe sys.space) = record {
        live = refl;
        same_space = g.same_space;
        rows_good = tt;
      } in
      let good =
        add_rows_to_keeps x space (universe sys.space) neutral fresh
          (selected (λ c. eqb_ℤ c (pos 0)) var sys.rows rows) in
      if_ind (λ m. m ≡ ok out → OutcomeKeeps x space out) start.is_empty_flag
        (λ dead _. cc (dead, good.live))
        (λ _ e.
          let (done, ed, e1) = >>=-eq-ok (combine_all var positive negative start) _ e in
          subst (OutcomeKeeps x space) (ok_inj e1) (
            finish_keeps x space done (
              Walks-keeps x space (combine_all-Walks var positive negative start done ed)
                (selected (λ c. ltb_ℤ (pos 0) c) var sys.rows rows)
                (selected (λ c. ltb_ℤ c (pos 0)) var sys.rows rows) good)))
        h

  fm_eliminate_keeps :
      (sys : Polyhedron) (var : ℕ) {out : FmOutcome}
      → fm_eliminate sys var ≡ ok out
      → KeepsPoint x space sys
      → OutcomeKeeps x space out
  unfolding fm_eliminate
  fm_eliminate_keeps sys var {out} h g =
      let (left, el, h1) = >>=-eq-ok (eliminate_equalities (length sys.rows) var sys) _ h in
      let kept =
        Rounds-IsGood (total_vars space) x var
          (eliminate_equalities-Rounds (length sys.rows) var sys left el) g in
      if_ind (λ m. m ≡ ok out → OutcomeKeeps x space out) left.is_empty_flag
        (λ dead _. cc (dead, kept.live)) (λ _ e. combine_signs_keeps var left e kept) h1

pub wide_KeepsPoint : (x : List ℤ) (p : Polyhedron) → IsWide p → Holds x p → KeepsPoint x p.space p
wide_KeepsPoint x p w h = record {
  live = h.live;
  same_space = refl;
  rows_good = All-zip (HasWidth (total_vars p.space)) (RowHolds x) p.rows w h.all_rows;
}

pub KeepsPoint-IsWide :
    (x : List ℤ) (space : VarSpace) (p : Polyhedron) → KeepsPoint x space p → IsWide p × Holds x p
KeepsPoint-IsWide x space p g = (
  subst (λ s. All (HasWidth (total_vars s)) p.rows) (sym g.same_space)
      (All-map (Good (total_vars space) x) (HasWidth (total_vars space)) (λ r h. h.0) p.rows
        g.rows_good),
  IsGood-Holds (total_vars space) x g,
)

-- Eliminating a variable loses no integer point: where the system, each row as wide as its space,
-- holds the point, the outcome is not the empty one, and the projected system holds the point, with
-- rows as wide, over the same space.
pub fm_eliminate_sound :
    (x : List ℤ) (sys : Polyhedron) (var : ℕ) {out : FmOutcome}
    → IsWide sys
    → Holds x sys
    → fm_eliminate sys var ≡ ok out
    → (out.is_empty ≡ false)
      × Holds x out.projected
      × IsWide out.projected
      × (out.projected.space ≡ sys.space)
fm_eliminate_sound x sys var {out} w h e =
    let (live, kept) = fm_eliminate_keeps x sys.space sys var e (wide_KeepsPoint x sys w h) in
    let (wide, held) = KeepsPoint-IsWide x sys.space out.projected kept in
    (live, held, wide, kept.same_space)
