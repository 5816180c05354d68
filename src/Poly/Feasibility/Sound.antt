-- ===== src/Poly/Feasibility/Sound.antt =====
-- The answer "empty" of `eliminateAll` is never wrong.
use mlk.Base.{
  ℕ, zero, suc, ◌≡◌, true, false, Option, none, some, List, [], ◌∷◌, All, All-map, if_ind, or_cases,
  inl, inr, ◌⊎◌, sym, subst,
}
use mlk.Base.Int.{ℤ}
use mlk.Base.Res.{Result, ok, >>=-eq-ok, ◌>>=◌}
use mlk.Poly.Row.{total_vars, ConstraintRow, is_trivially_false}
use mlk.Poly.Row.Value.{RowHolds, is_trivially_false_sound}
use mlk.Poly.System.{Polyhedron, simplify_system}
use mlk.Poly.System.Eval.{Holds, HasWidth, IsWide}
use mlk.Poly.System.Simplify.{simplify_system-Holds, simplify_system-All, simplify_system_space}
use mlk.Poly.Fm.{FmOutcome, Feasibility, empty, non_empty, fm_eliminate}
use mlk.Poly.Fm.Sound.{fm_eliminate_sound}
use mlk.Poly.Feasibility.{
  any_trivially_false, settle, after_round, pick_var, eliminate_rounds, eliminate_all,
}

module _ (x : List ℤ) where
  any_trivially_false_sound :
      (rows : List ConstraintRow) → any_trivially_false rows ≡ true → ¬ All (RowHolds x) rows
  any_trivially_false_sound [] h a = cc
  any_trivially_false_sound (r ∷ rs) h a =
      first (or_cases (is_trivially_false r) (any_trivially_false rs) h)
        (λ e. any_trivially_false_sound rs e a.1)
    where
      first :
          (is_trivially_false r ≡ true) ⊎ (any_trivially_false rs ≡ true)
          → (any_trivially_false rs ≡ true → ⊥)
          → ⊥
      first (inl e) rest = is_trivially_false_sound r x e a.0
      first (inr e) rest = rest e

  simplified :
      (p : Polyhedron)
      → IsWide p
      → Holds x p
      → IsWide (simplify_system p) × Holds x (simplify_system p)
  simplified p w h =
      let held = (simplify_system-Holds p x).1 h in
      let wide =
        simplify_system-All p (HasWidth (total_vars p.space)) held.live
          (All-map (HasWidth (total_vars p.space)) _ (λ r e _. e) p.rows w) in
      (
        subst (λ s. All (HasWidth (total_vars s)) (simplify_system p).rows)
            (sym (simplify_system_space p)) wide,
        held,
      )

  -- A continuation that never says "empty" of a system that holds the point.
  abbrev Honest : (Polyhedron → Result Feasibility) → Type 0
  Honest more = (p : Polyhedron) → IsWide p → Holds x p → ¬ (more p ≡ ok empty)

  settle-Honest : (more : Polyhedron → Result Feasibility) → Honest more → Honest (settle more)
  settle-Honest more hm p w h =
      if_ind (λ m. ¬ (m ≡ ok empty)) p.is_empty_flag (λ dead _. cc (dead, h.live))
        (λ _. if_ind (λ m. ¬ (m ≡ ok empty)) p.rows_overflow (λ _ e. cc) (λ _. hm p w h))

  after_round-Honest :
      (more : Polyhedron → Result Feasibility)
      → Honest more
      → (fm : FmOutcome) → fm.is_empty ≡ false
      → IsWide fm.projected
      → Holds x fm.projected
      → ¬ (after_round more fm ≡ ok empty)
  after_round-Honest more hm fm live w h =
      let (w', h') = simplified fm.projected w h in
      if_ind (λ m. ¬ (m ≡ ok empty)) fm.is_empty (λ dead _. cc (dead, live))
        (λ _.
          if_ind (λ m. ¬ (m ≡ ok empty)) fm.budget_exceeded (λ _ e. cc)
            (λ _. settle-Honest more hm (simplify_system fm.projected) w' h'))

  eliminate_rounds-Honest : (rounds : ℕ) → Honest (eliminate_rounds rounds)
  unfolding eliminate_rounds
  eliminate_rounds-Honest zero p w h =
      if_ind (λ m. ¬ (m ≡ ok empty)) (any_trivially_false p.rows)
        (λ bad _. any_trivially_false_sound p.rows bad h.all_rows) (λ _ e. cc)
  eliminate_rounds-Honest (suc round) p w h =
      choose (eliminate_rounds-Honest round) (pick_var (total_vars p.space) 0 p.rows none)
    where
      choose :
          Honest (eliminate_rounds round)
          → (o : Option (ℕ × ℕ))
          → ¬ (
              elim o [
                | none ↦ ok non_empty
                | some (var, _) ↦
                    fm_eliminate p var >>= (λ fm. after_round (eliminate_rounds round) fm)
              ]
              ≡ ok empty)
      choose ih none e = cc
      choose ih (some (var, c)) e =
          let (fm, ef, e1) = >>=-eq-ok (fm_eliminate p var) _ e in
          let (live, held, wide, _) = fm_eliminate_sound x p var w h ef in
          after_round-Honest (eliminate_rounds round) ih fm live wide held e1

-- The answer "empty" is never wrong: where the rows of a system are as wide as its space, and
-- `eliminateAll` returns Empty, no integer point satisfies the system.
pub eliminate_all_sound :
    (sys : Polyhedron) → IsWide sys → eliminate_all sys ≡ ok empty → (x : List ℤ) → ¬ Holds x sys
unfolding eliminate_all
eliminate_all_sound sys w e x h =
    let (w', h') = simplified x sys w h in
    settle-Honest x (eliminate_rounds (total_vars sys.space))
      (eliminate_rounds-Honest x (total_vars sys.space)) (simplify_system sys) w' h' e
