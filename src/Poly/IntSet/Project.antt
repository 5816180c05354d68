-- ===== src/Poly/IntSet/Project.antt =====
-- `projectOut` and `existsProject` lose no point of the set.
use mlk.Base.{
  ℕ, zero, suc, ◌≡◌, subst, Bool, false, ◌⊎◌, inl, inr, List, [], ◌∷◌, length, Any, Any-left,
  Any-right, if_ind, if◌then◌else◌, get_or, ltb,
}
use mlk.Base.Int.{ℤ}
use mlk.Base.Res.{ok, ok_inj, >>=-eq-ok}
use mlk.Poly.Row.{VarSpace}
use mlk.Poly.System.{Polyhedron}
use mlk.Poly.System.Eval.{Holds, IsWide}
use mlk.Poly.Fm.{FmOutcome, fm_eliminate}
use mlk.Poly.Fm.Sound.{fm_eliminate_sound}
use mlk.Poly.IntSet.{
  PresburgerSet, after_projection, project_disjunct, project_disjuncts, project_out, exists_loop,
  exists_project, or_empty,
}

module _ (x : List ℤ) (var : ℕ) where
  -- The point lies in a system with wide rows.
  abbrev WideHolds : Polyhedron → Type 0
  WideHolds p = IsWide p × Holds x p

  after_projection_keeps :
      (out : List Polyhedron) (fm : FmOutcome) {ds : List Polyhedron}
      → after_projection out fm ≡ ok ds
      → (Any WideHolds out → Any WideHolds ds)
        × (fm.is_empty ≡ false → WideHolds fm.projected → Any WideHolds ds)
  after_projection_keeps out fm {ds} =
      if_ind
        (λ m.
          m ≡ ok ds
          → (Any WideHolds out → Any WideHolds ds)
            × (fm.is_empty ≡ false → WideHolds fm.projected → Any WideHolds ds))
        fm.is_empty (λ dead e. (λ h. subst (Any WideHolds) (ok_inj e) h, λ live h. cc (dead, live)))
        (λ _.
          if_ind
            (λ m.
              m ≡ ok ds
              → (Any WideHolds out → Any WideHolds ds)
                × (fm.is_empty ≡ false → WideHolds fm.projected → Any WideHolds ds))
            fm.budget_exceeded (λ _ e. cc)
            (λ _ e. (
              λ h. subst (Any WideHolds) (ok_inj e) (Any-left WideHolds out (fm.projected ∷ []) h),
              λ live h.
                  subst (Any WideHolds) (ok_inj e)
                    (Any-right WideHolds out (fm.projected ∷ []) (inl h)),
            )))

  project_disjunct_keeps :
      (p : Polyhedron) (out : List Polyhedron) {ds : List Polyhedron}
      → project_disjunct var p out ≡ ok ds
      → (Any WideHolds out → Any WideHolds ds) × (WideHolds p → Any WideHolds ds)
  unfolding project_disjunct
  project_disjunct_keeps p out {ds} =
      if_ind
        (λ m. m ≡ ok ds → (Any WideHolds out → Any WideHolds ds) × (WideHolds p → Any WideHolds ds))
        p.is_empty_flag
        (λ dead e. (λ h. subst (Any WideHolds) (ok_inj e) h, λ h. cc (dead, h.1.live)))
        (λ _.
          if_ind
            (λ m.
              m ≡ ok ds → (Any WideHolds out → Any WideHolds ds) × (WideHolds p → Any WideHolds ds))
            p.rows_overflow (λ _ e. cc)
            (λ _ e.
              let (fm, ef, e') = >>=-eq-ok (fm_eliminate p var) (after_projection out) e in
              let (old, new) = after_projection_keeps out fm e' in
              (
                old,
                λ h.
                    let (live, held, wide, _) = fm_eliminate_sound x p var h.0 h.1 ef in
                    new live (wide, held),
              )))

  project_disjuncts_keeps :
      (ps out : List Polyhedron) {ds : List Polyhedron}
      → project_disjuncts var ps out ≡ ok ds
      → (Any WideHolds out → Any WideHolds ds) × (Any WideHolds ps → Any WideHolds ds)
  unfolding project_disjuncts
  project_disjuncts_keeps [] out e = (λ h. subst (Any WideHolds) (ok_inj e) h, absurd)
  project_disjuncts_keeps (p ∷ ps) out {ds} e =
      let (next, en, e') = >>=-eq-ok (project_disjunct var p out) _ e in
      let (old, new) = project_disjunct_keeps p out en in
      let (rest, others) = project_disjuncts_keeps ps next e' in
      (λ h. rest (old h), either (λ h. rest (new h)) others)
    where
      either :
          (WideHolds p → Any WideHolds ds)
          → (Any WideHolds ps → Any WideHolds ds)
          → WideHolds p ⊎ Any WideHolds ps
          → Any WideHolds ds
      either f g (inl h) = f h
      either f g (inr h) = g h

  or_empty_keeps :
      (space : VarSpace) (ds : List Polyhedron)
      → Any WideHolds ds
      → Any WideHolds (or_empty space ds)
  or_empty_keeps space [] h = absurd h
  or_empty_keeps space (p ∷ ps) h = h

-- The point lies in a disjunct whose rows are as wide as its space.
abbrev pub WideContains : List ℤ → PresburgerSet → Type 0
WideContains x s = Any (WideHolds x 0) s.disjuncts

-- Projecting a variable out of a set loses no integer point.
pub project_out_sound :
    (s : PresburgerSet) (var : ℕ) {out : PresburgerSet}
    → project_out s var ≡ ok out
    → (x : List ℤ) → WideContains x s
    → WideContains x out
unfolding project_out
project_out_sound s var e x h =
    let (ds, ed, e') = >>=-eq-ok (project_disjuncts var s.disjuncts []) _ e in
    subst (WideContains x) (ok_inj e')
      (or_empty_keeps x 0 s.space ds ((project_disjuncts_keeps x var s.disjuncts [] ed).1 h))

exists_loop_sound :
    (keep : List Bool) (left d : ℕ) (cur : PresburgerSet) {out : PresburgerSet}
    → exists_loop keep left d cur ≡ ok out
    → (x : List ℤ) → WideContains x cur
    → WideContains x out
unfolding exists_loop
exists_loop_sound keep zero d cur e x h = subst (WideContains x) (ok_inj e) h
exists_loop_sound keep (suc left) d cur e x h =
    let (next, en, e') =
      >>=-eq-ok (if get_or keep d false then ok cur else project_out cur d) _ e in
    exists_loop_sound keep left (suc d) next e' x (step next en)
  where
    step :
        (next : PresburgerSet)
        → (if get_or keep d false then ok cur else project_out cur d) ≡ ok next
        → WideContains x next
    step next =
        if_ind (λ m. m ≡ ok next → WideContains x next) (get_or keep d false)
          (λ _ en. subst (WideContains x) (ok_inj en) h) (λ _ en. project_out_sound cur d en x h)

-- Projecting a set on the dimensions to keep loses no integer point: a point of a disjunct whose
-- rows are as wide as its space lies in such a disjunct of the result of a successful
-- `existsProject`.
pub exists_project_sound :
    (s : PresburgerSet) (keep : List Bool) {out : PresburgerSet}
    → exists_project s keep ≡ ok out
    → (x : List ℤ) → WideContains x s
    → WideContains x out
unfolding exists_project
exists_project_sound s keep {out} e x h =
    if_ind (λ m. m ≡ ok out → WideContains x out) (ltb (length keep) s.space.n_dims) (λ _ e'. cc)
      (λ _ e'. exists_loop_sound keep s.space.n_dims 0 s e' x h) e
