-- ===== src/Poly/IntSet/Empty.antt =====
-- The tri-state feasibility of a set, and its projections.
use mlk.Base.{
  ◌≡◌, Bool, true, false, not, ◌||◌, ◌⊎◌, inl, inr, List, [], ◌∷◌, All, Any, arith, if_ind,
}
use mlk.Base.Int.{ℤ}
use mlk.Base.Res.{ok, ok_inj, >>=-eq-ok}
use mlk.Poly.System.{Polyhedron}
use mlk.Poly.System.Eval.{Holds, IsWide}
use mlk.Poly.Fm.{Feasibility, empty, non_empty, unknown}
use mlk.Poly.Feasibility.{eliminate_all}
use mlk.Poly.Feasibility.Sound.{eliminate_all_sound}
use mlk.Poly.IntSet.{PresburgerSet, after_feasibility, feasibility_of, feasibility, provably_empty}
use mlk.Poly.IntSet.Meet.{Contains}

-- The loop says "empty" only where each disjunct that it did not pass over is empty.
feasibility_of_sound :
    (ps : List Polyhedron) (saw : Bool)
    → All IsWide ps
    → feasibility_of ps saw ≡ ok empty
    → (saw ≡ false) × ((x : List ℤ) → ¬ Any (Holds x) ps)
unfolding feasibility_of
feasibility_of_sound [] saw w =
    if_ind (λ m. m ≡ ok empty → (saw ≡ false) × ((x : List ℤ) → ¬ ⊥)) saw (λ _ e. cc)
      (λ f e. (f, λ x z. z))
feasibility_of_sound (p ∷ ps) saw w =
    let skip = feasibility_of_sound ps (saw || not p.is_empty_flag) w.1 in
    if_ind (λ m. m ≡ ok empty → (saw ≡ false) × ((x : List ℤ) → ¬ Any (Holds x) (p ∷ ps)))
      (p.is_empty_flag || p.rows_overflow) (λ t e. skipped (skip e))
      (λ t e.
        let (f, ef, e') =
          >>=-eq-ok (eliminate_all p) (after_feasibility (feasibility_of ps) saw) e in
        tested f ef (feasibility_of_sound ps saw w.1) (feasibility_of_sound ps true w.1) e')
  where
    skipped :
        ((saw || not p.is_empty_flag) ≡ false) × ((x : List ℤ) → ¬ Any (Holds x) ps)
        → (saw ≡ false) × ((x : List ℤ) → ¬ Any (Holds x) (p ∷ ps))
    skipped (f, rest) = (ground arith, λ x h. one x h)
      where
        one : (x : List ℤ) → Holds x p ⊎ Any (Holds x) ps → ⊥
        one x (inl h) = ground (arith, h.live)
        one x (inr h) = rest x h

    tested :
        (f : Feasibility)
        → eliminate_all p ≡ ok f
        → (feasibility_of ps saw ≡ ok empty → (saw ≡ false) × ((x : List ℤ) → ¬ Any (Holds x) ps))
        → (feasibility_of ps true ≡ ok empty → (true ≡ false) × ((x : List ℤ) → ¬ Any (Holds x) ps))
        → after_feasibility (feasibility_of ps) saw f ≡ ok empty
        → (saw ≡ false) × ((x : List ℤ) → ¬ Any (Holds x) (p ∷ ps))
    tested non_empty ef ih ih' e = cc
    tested unknown ef ih ih' e = cc ((ih' e).0)
    tested empty ef ih ih' e = ((ih e).0, λ x h. one x h)
      where
        one : (x : List ℤ) → Holds x p ⊎ Any (Holds x) ps → ⊥
        one x (inl h) = eliminate_all_sound p w.0 ef x h
        one x (inr h) = (ih e).1 x h

-- A set that is said to be provably empty holds no integer point: where the rows of every disjunct
-- are as wide as its space and `provablyEmpty` returns true, no point lies in the set.
pub provably_empty_sound :
    (s : PresburgerSet)
    → All IsWide s.disjuncts
    → provably_empty s ≡ ok true
    → (x : List ℤ) → ¬ Contains x s
unfolding provably_empty feasibility
provably_empty_sound s w e x =
    let (f, ef, e') = >>=-eq-ok (feasibility_of s.disjuncts false) _ e in answer f ef (ok_inj e')
  where
    answer :
        (f : Feasibility)
        → feasibility_of s.disjuncts false ≡ ok f
        → elim f [ empty ↦ true | _ ↦ false ] ≡ true
        → ¬ Contains x s
    answer empty ef t = (feasibility_of_sound s.disjuncts false w ef).1 x
    answer non_empty ef t = cc
    answer unknown ef t = cc
