-- ===== src/Poly/Fm/Enough.antt =====
-- The rounds of phase 1 of `fmEliminate` end by themselves: one round for each row is enough.
use mlk.Base.{
  ℕ, ◌≤◌, ◌<◌, ◌≡◌, refl, subst, true, false, ◌⊎◌, inl, inr, ◌∷◌, ◌++◌, length, length-append,
  List-cases, All, arith,
}
use mlk.Base.Res.{ok, Traversed-length}
use mlk.Poly.Row.{is_trivially_true, is_trivially_false}
use mlk.Poly.System.{Polyhedron}
use mlk.Poly.System.Simplify.{simplify_system_flag, simplify_system_shorter}
use mlk.Poly.Fm.{merge_equality, consumed, eliminate_equalities, Split}
use mlk.Poly.Fm.Equalities.{
  IsSplit, Unused, Substituted, Rounds, out_of_rounds, dead, done, round,
  eliminate_equalities-Rounds,
}

pub consumed_idle : (is_trivially_true consumed ≡ true) × (is_trivially_false consumed ≡ false)
unfolding is_trivially_true is_trivially_false
consumed_idle = (refl, refl)

module _ (var : ℕ) where
  -- A substitution flags the system or uses up a row.
  Substituted-shorter :
      {p q : Polyhedron} {s : Split}
      → IsSplit var p.rows s
      → Substituted var p s q
      → (q.is_empty_flag ≡ true) ⊎ (length q.rows < length p.rows)
  Substituted-shorter {p} {q} {s} f u =
      let sb = Traversed-length (merge_equality var s.eq) s.before u.before u.before_merged in
      let sa = Traversed-length (merge_equality var s.eq) s.after u.after u.after_merged in
      let whole = length-append {0} s.before (s.eq ∷ s.after) in
      let total : length (s.before ++ s.eq ∷ s.after) ≡ length p.rows = rw f.parts refl in
      subst (λ t. (t.is_empty_flag ≡ true) ⊎ (length t.rows < length p.rows)) u.result
        (elim (simplify_system_shorter (record p { rows = u.before ++ consumed ∷ u.after }) u.before
          u.after consumed refl consumed_idle.0 consumed_idle.1) [
            | inl flag ↦ inl flag
            | inr short ↦ inr (omega (arith, sb, sa, whole, total, short))
          ])

  -- A flagged system stays flagged.
  Rounds-flag :
      {fuel : ℕ} {p q : Polyhedron}
      → Rounds var fuel p q
      → p.is_empty_flag ≡ true
      → q.is_empty_flag ≡ true
  Rounds-flag out_of_rounds h = h
  Rounds-flag (dead e) h = h
  Rounds-flag (done a) h = h
  Rounds-flag (round {p = p} f u rest) h = Rounds-flag rest (
      subst (λ t. t.is_empty_flag ≡ true) u.result
        (simplify_system_flag (record p { rows = u.before ++ consumed ∷ u.after }) h))

  Rounds-enough :
      {fuel : ℕ} {p q : Polyhedron}
      → Rounds var fuel p q
      → length p.rows ≤ fuel
      → (q.is_empty_flag ≡ true) ⊎ All (Unused var) q.rows
  Rounds-enough (out_of_rounds {p = p}) h = elim (List-cases p.rows) [
    | inl e ↦ inr (rw e tt)
    | inr (r, rs, e) ↦ absurd (omega (arith, subst (λ l. length l ≤ 0) e h))
  ]
  Rounds-enough (dead e) h = inl e
  Rounds-enough (done a) h = inr a
  Rounds-enough (round f u rest) h = elim (Substituted-shorter f u) [
    | inl flag ↦ inl (Rounds-flag rest flag)
    | inr short ↦ Rounds-enough rest (omega (arith, short, h))
  ]

-- Phase 1 is left by its own condition: with one round for each row of the system, the loop ends
-- with a system that is flagged as empty, or where no equality mentions the variable.
pub eliminate_equalities_enough :
    (var : ℕ) (sys : Polyhedron) {left : Polyhedron}
    → eliminate_equalities (length sys.rows) var sys ≡ ok left
    → (left.is_empty_flag ≡ true) ⊎ All (Unused var) left.rows
eliminate_equalities_enough var sys {left} e =
    Rounds-enough var (eliminate_equalities-Rounds (length sys.rows) var sys left e) (omega arith)
