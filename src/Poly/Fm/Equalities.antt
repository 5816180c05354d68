-- ===== src/Poly/Fm/Equalities.antt =====
-- Phase 1 of `fmEliminate`: its search for an equality and its rounds, as inductive descriptions.
use mlk.Base.{
  ℕ, zero, suc, ◌≡◌, refl, ap, subst, Bool, true, false, ◌&&◌, Option, none, some, List, [], ◌∷◌,
  ◌++◌, All, if_ind, and_parts,
}
use mlk.Base.Res.{Result, ok, ok_inj, >>=-eq-ok, traverse, Traversed, traverse-Traversed}
use mlk.Poly.Row.{ConstraintRow}
use mlk.Poly.System.{Polyhedron, simplify_system}
use mlk.Poly.Fm.{
  Split, uses, put_before, find_equality, merge_equality, consumed, substitute_equality,
  search_round, eliminate_equalities,
}

-- A split is a place in the list where an equality mentions the variable.
pub record IsSplit (var : ℕ) (rows : List ConstraintRow) (s : Split) : Type 0 where
  pub parts : s.before ++ s.eq ∷ s.after ≡ rows
  pub kind : s.eq.is_equality ≡ true
  pub mentions : uses var s.eq ≡ true

-- No equality of the list mentions the variable.
abbrev pub Unused : ℕ → ConstraintRow → Type 0
Unused var r = (r.is_equality && uses var r) ≡ false

pub data Found (var : ℕ) (rows : List ConstraintRow) : Option Split → Type 0 where
  absent : All (Unused var) rows → Found var rows none
  found : {s : Split} → IsSplit var rows s → Found var rows (some s)

put_before-Found :
    (var : ℕ) (r : ConstraintRow) (rs : List ConstraintRow) (o : Option Split)
    → Unused var r
    → Found var rs o
    → Found var (r ∷ rs) (put_before r o)
put_before-Found var r rs none h (absent a) = absent (h, a)
put_before-Found var r rs (some s) h (found f) =
    found (record { parts = ap (◌∷◌ r) f.parts; kind = f.kind; mentions = f.mentions })

pub find_equality-Found :
    (var : ℕ) (rows : List ConstraintRow) → Found var rows (find_equality var rows)
unfolding find_equality
find_equality-Found var [] = absent tt
find_equality-Found var (r ∷ rs) =
    let rest = find_equality-Found var rs in
    if_ind (Found var (r ∷ rs)) (r.is_equality && uses var r)
      (λ t.
        let (k, m) = and_parts r.is_equality (uses var r) t in
        found (record { parts = refl; kind = k; mentions = m }))
      (λ f. put_before-Found var r rs (find_equality var rs) f rest)

-- What a substitution returned.
pub record Substituted (var : ℕ) (sys : Polyhedron) (s : Split) (q : Polyhedron) : Type 0 where
  pub before : List ConstraintRow
  pub after : List ConstraintRow
  pub before_merged : Traversed (merge_equality var s.eq) s.before before
  pub after_merged : Traversed (merge_equality var s.eq) s.after after
  pub result : simplify_system (record sys { rows = before ++ consumed ∷ after }) ≡ q

pub substitute_equality-Substituted :
    (var : ℕ) (sys : Polyhedron) (s : Split) {q : Polyhedron}
    → substitute_equality var sys s ≡ ok q
    → Substituted var sys s q
unfolding substitute_equality
substitute_equality-Substituted var sys s h =
    let (bs, eb, h1) = >>=-eq-ok (traverse (merge_equality var s.eq) s.before) _ h in
    let (as', ea, h2) = >>=-eq-ok (traverse (merge_equality var s.eq) s.after) _ h1 in
    record {
      before = bs;
      after = as';
      before_merged = traverse-Traversed (merge_equality var s.eq) s.before eb;
      after_merged = traverse-Traversed (merge_equality var s.eq) s.after ea;
      result = ok_inj h2;
    }

-- The rounds of phase 1.
pub data Rounds (var : ℕ) : ℕ → Polyhedron → Polyhedron → Type 0 where
  out_of_rounds : {p : Polyhedron} → Rounds var zero p p
  dead : {fuel : ℕ} {p : Polyhedron} → p.is_empty_flag ≡ true → Rounds var (suc fuel) p p
  done : {fuel : ℕ} {p : Polyhedron} → All (Unused var) p.rows → Rounds var (suc fuel) p p
  round :
      {fuel : ℕ} {p next q : Polyhedron} {s : Split}
      → IsSplit var p.rows s
      → Substituted var p s next
      → Rounds var fuel next q
      → Rounds var (suc fuel) p q

round_of :
    (fuel var : ℕ) (p : Polyhedron) {q : Polyhedron} (again : Polyhedron → Result Polyhedron)
    → ((next : Polyhedron) → again next ≡ ok q → Rounds var fuel next q)
    → (o : Option Split) → Found var p.rows o
    → search_round again var p o ≡ ok q
    → Rounds var (suc fuel) p q
round_of fuel var p again ih none (absent a) h = subst (Rounds var (suc fuel) p) (ok_inj h) (done a)
round_of fuel var p again ih (some s) (found f) h =
    let (next, en, e) = >>=-eq-ok (substitute_equality var p s) again h in
    round f (substitute_equality-Substituted var p s en) (ih next e)

pub eliminate_equalities-Rounds :
    (fuel var : ℕ) (p : Polyhedron) (q : Polyhedron)
    → eliminate_equalities fuel var p ≡ ok q
    → Rounds var fuel p q
unfolding eliminate_equalities
eliminate_equalities-Rounds zero var p q h = subst (Rounds var zero p) (ok_inj h) out_of_rounds
eliminate_equalities-Rounds (suc fuel) var p q h =
    flag_cases p.is_empty_flag refl
      (round_of fuel var p (eliminate_equalities fuel var)
        (λ next e. eliminate_equalities-Rounds fuel var next q e) (find_equality var p.rows)
        (find_equality-Found var p.rows))
      h
  where
    flag_cases :
        (b : Bool)
        → p.is_empty_flag ≡ b
        → (search_round (eliminate_equalities fuel var) var p (find_equality var p.rows) ≡ ok q
            → Rounds var (suc fuel) p q)
        → elim b [
          | true ↦ ok p
          | false ↦ search_round (eliminate_equalities fuel var) var p (find_equality var p.rows)
        ]
          ≡ ok q
        → Rounds var (suc fuel) p q
    flag_cases true e live h = subst (Rounds var (suc fuel) p) (ok_inj h) (dead e)
    flag_cases false e live h = live h
