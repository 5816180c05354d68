-- ===== src/Poly/Fm/Drops.antt =====
-- Elimination drops the variable, and stays within the row budget.
use mlk.Base.{
  ℕ, ◌-◌, ltb, ◌≤◌, ◌≡◌, refl, sym, subst, ◌∙◌, Bool, false, List, [], ◌∷◌, ◌++◌, length, get_or,
  replicate, All, All-append, All-left, All-right, All-map, All-zip, Bool-cases, inl, inr, if_ind,
  arith, zero, suc,
}
use mlk.Base.Int
use mlk.Base.Int.{ℤ, pos, eqb_ℤ, ltb_ℤ, InInt64}
use mlk.Base.Res.{ok, ok_inj, >>=-eq-ok, Traversed-All}
use mlk.Poly.Row.{total_vars, ConstraintRow, coeff_of}
use mlk.Poly.System.{
  Polyhedron, universe, widened, add_row, add_rows_to, simplify_system, max_rows_per_system,
}
use mlk.Poly.System.Eval.{HasWidth, IsWide}
use mlk.Poly.System.Push.{Pushed-All}
use mlk.Poly.System.Laws.{add_row_ind, add_row_budget}
use mlk.Poly.System.Simplify.{
  simplify_system_every, simplify_system_flag, simplify_system-All, length-simplify_system, Real,
}
use mlk.Poly.Fm.{
  FmOutcome, Split, rows_where, Pairing, going, stop, merge_equality, consumed, combine_all,
  combine_signs, finish, eliminate_equalities, fm_eliminate,
}
use mlk.Poly.Fm.Merge.{merge_equality-Merged, combine_pair-Combined}
use mlk.Poly.Fm.Equalities.{
  IsSplit, Substituted, Rounds, out_of_rounds, dead, done, round, eliminate_equalities-Rounds,
}
use mlk.Poly.Fm.Pairs.{
  Walk, at_end, over_budget, emptied, step, Walks, stopped, further, rows_where-All,
  combine_all-Walks,
}
use mlk.Poly.Fm.Enough.{consumed_idle}
use mlk.Poly.Fm.Zero.{Merged-zero, Merged-wide, Combined-zero}

pad_get_or :
    (cs : List ℤ) (k v : ℕ) → get_or (cs ++ replicate k (pos 0)) v (pos 0) ≡ get_or cs v (pos 0)
pad_get_or [] zero v = refl
pad_get_or [] (suc k) zero = refl
pad_get_or [] (suc k) (suc v) = pad_get_or [] k v
pad_get_or (c ∷ cs) k zero = refl
pad_get_or (c ∷ cs) k (suc v) = pad_get_or cs k v

All-get_or : (cs : List ℤ) (v : ℕ) → All InInt64 cs → InInt64 (get_or cs v (pos 0))
All-get_or [] v h = omega arith
All-get_or (c ∷ cs) zero h = h.0
All-get_or (c ∷ cs) (suc v) h = All-get_or cs v h.1

module _ (var : ℕ) where
  -- The row does not mention the variable.
  abbrev pub Without : ConstraintRow → Type 0
  Without r = coeff_of r var ≡ pos 0

  widened-Without : (n : ℕ) (r : ConstraintRow) → Without r → Without (widened n r)
  widened-Without n r h =
      if_ind Without (ltb (length r.coeffs) n)
        {x = record r { coeffs = r.coeffs ++ replicate (n - length r.coeffs) (pos 0) }} {y = r}
        (λ _. pad_get_or r.coeffs (n - length r.coeffs) var ∙ h) (λ _. h)

  -- What phase 2 keeps of its accumulator.
  record IsClean (p : Polyhedron) : Type 0 where
    without : All Without p.rows
    within : length p.rows ≤ max_rows_per_system

  add_row-IsClean :
      (p : Polyhedron) (r : ConstraintRow) → IsClean p → Without r → IsClean (add_row p r)
  add_row-IsClean p r c h = record {
    without =
        add_row_ind (λ q. All Without q.rows) p r (λ _. c.without)
          (λ q d. Pushed-All p _ Without d c.without (widened-Without _ r h));
    within = add_row_budget p r c.within;
  }

  add_rows_to-IsClean :
      (p : Polyhedron) (rs : List ConstraintRow)
      → IsClean p
      → All Without rs
      → IsClean (add_rows_to p rs)
  add_rows_to-IsClean p [] c h = c
  add_rows_to-IsClean p (r ∷ rs) c h =
      add_rows_to-IsClean (add_row p r) rs (add_row-IsClean p r c h.0) h.1

  simplify_system-IsClean : (p : Polyhedron) → IsClean p → IsClean (simplify_system p)
  simplify_system-IsClean p c = record {
    without = simplify_system_every p Without c.without;
    within = omega (arith, length-simplify_system p, c.within);
  }

  CleanOutcome : FmOutcome → Type 0
  CleanOutcome out = (out.budget_exceeded ≡ false) × IsClean out.projected

  CleanPairing : Pairing → Type 0
  CleanPairing (going p) = IsClean p
  CleanPairing (stop out) = CleanOutcome out

  -- A row of full width whose coefficient is an int64_t.
  abbrev Plain : ℕ → ConstraintRow → Type 0
  Plain n r = HasWidth n r × InInt64 (coeff_of r var)

  module _ (n : ℕ) where
    Walk-Clean :
        {p : ConstraintRow} {ns : List ConstraintRow} {acc : Polyhedron} {out : Pairing}
        → Walk var p ns acc out
        → Plain n p
        → All (Plain n) ns
        → IsClean acc
        → CleanPairing out
    unfolding CleanPairing CleanOutcome
    Walk-Clean at_end hp hn c = c
    Walk-Clean (over_budget e) hp hn c = absurd (ground (arith, c.within))
    Walk-Clean {p} (emptied {n = k} {merged = m} {acc = acc} em e) hp hn c = (
      refl,
      add_row-IsClean acc m c (Combined-zero (combine_pair-Combined var p k em) hp.0 hn.0.0 hn.0.1),
    )
    Walk-Clean {p} (step {n = k} {merged = m} {acc = acc} em e w) hp hn c = Walk-Clean w hp hn.1 (
        add_row-IsClean acc m c
          (Combined-zero (combine_pair-Combined var p k em) hp.0 hn.0.0 hn.0.1))

    Walks-Clean :
        {ns ps : List ConstraintRow} {acc : Polyhedron} {out : Pairing}
        → Walks var ns ps acc out
        → All (Plain n) ps
        → All (Plain n) ns
        → IsClean acc
        → CleanPairing out
    unfolding CleanPairing CleanOutcome
    Walks-Clean at_end hp hn c = c
    Walks-Clean (stopped w) hp hn c = Walk-Clean w hp.0 hn c
    Walks-Clean (further w rest) hp hn c = Walks-Clean rest hp.1 hn (Walk-Clean w hp.0 hn c)

  finish-Clean : (done : Pairing) → CleanPairing done → CleanOutcome (finish done)
  unfolding CleanPairing CleanOutcome
  finish-Clean (stop out) h = h
  finish-Clean (going p) c = (refl, simplify_system-IsClean p c)

  selected :
      (n : ℕ) (test : ℤ → Bool) (rows : List ConstraintRow)
      → All (Plain n) rows
      → All (Plain n) (rows_where test var rows)
  selected n test rows h =
      All-map _ (Plain n) (λ r p. p.0) _ (rows_where-All (Plain n) test var rows h)

  neutral-Without :
      (n : ℕ) (rows : List ConstraintRow)
      → All (Plain n) rows
      → All Without (rows_where (λ c. eqb_ℤ c (pos 0)) var rows)
  neutral-Without n rows h =
      All-map _ Without (λ r p. (Int.eqb_ℤ_iff (coeff_of r var) (pos 0)).0 p.1) _
        (rows_where-All (Plain n) (λ c. eqb_ℤ c (pos 0)) var rows h)

  combine_signs-Clean :
      (n : ℕ) (sys : Polyhedron) {out : FmOutcome}
      → combine_signs var sys ≡ ok out
      → All (Plain n) sys.rows
      → CleanOutcome out
  unfolding combine_signs CleanOutcome
  combine_signs-Clean n sys {out} h plain =
      let neutral = rows_where (λ c. eqb_ℤ c (pos 0)) var sys.rows in
      let positive = rows_where (λ c. ltb_ℤ (pos 0) c) var sys.rows in
      let negative = rows_where (λ c. ltb_ℤ c (pos 0)) var sys.rows in
      let start = add_rows_to (universe sys.space) neutral in
      let clean =
        add_rows_to-IsClean (universe sys.space) neutral
          (record { without = tt; within = omega arith }) (neutral-Without n sys.rows plain) in
      if_ind (λ m. m ≡ ok out → CleanOutcome out) start.is_empty_flag
        (λ _ e. subst CleanOutcome (ok_inj e) (refl, clean))
        (λ _ e.
          let (pairs, ed, e1) = >>=-eq-ok (combine_all var positive negative start) _ e in
          subst CleanOutcome (ok_inj e1) (
            finish-Clean pairs (
              Walks-Clean n (combine_all-Walks var positive negative start pairs ed)
                (selected n (λ c. ltb_ℤ (pos 0) c) sys.rows plain)
                (selected n (λ c. ltb_ℤ c (pos 0)) sys.rows plain) clean)))
        h

  still_live :
      (p : Polyhedron) → (simplify_system p).is_empty_flag ≡ false → p.is_empty_flag ≡ false
  still_live p live = elim (Bool-cases p.is_empty_flag) [
    | inl flag ↦ cc (simplify_system_flag p flag, live)
    | inr fine ↦ fine
  ]

  merged-Plain :
      (n : ℕ) (eq : ConstraintRow)
      → Plain n eq
      → (w r : ConstraintRow) → merge_equality var eq w ≡ ok r
      → Plain n w
      → Plain n r
  merged-Plain n eq pe w r e pw =
      let m = merge_equality-Merged var eq w e in
      (Merged-wide m pe.0 pw.0, rw (Merged-zero m pe.0 pw.0 pe.1 pw.1) (omega arith))

  -- The rows of a live system are plain.
  LivePlain : ℕ → Polyhedron → Type 0
  LivePlain n p = p.is_empty_flag ≡ false → All (Plain n) p.rows

  Substituted-LivePlain :
      (n : ℕ) (p : Polyhedron) (s : Split) {q : Polyhedron}
      → IsSplit var p.rows s
      → Substituted var p s q
      → LivePlain n p
      → LivePlain n q
  unfolding LivePlain
  Substituted-LivePlain n p s {q} f u lp = subst (LivePlain n) u.result go
    where
      merged : Polyhedron
      merged = record p { rows = u.before ++ consumed ∷ u.after }

      real : (rs : List ConstraintRow) → All (Plain n) rs → All (Real (Plain n)) rs
      real rs h = All-map (Plain n) (Real (Plain n)) (λ r hr _. hr) rs h

      go : LivePlain n (simplify_system merged)
      go live =
          let all = subst (All (Plain n)) (sym f.parts) (lp (still_live merged live)) in
          let before_plain = All-left (Plain n) s.before (s.eq ∷ s.after) all in
          let (eq_plain, after_plain) = All-right (Plain n) s.before (s.eq ∷ s.after) all in
          let step = merged-Plain n s.eq eq_plain in
          simplify_system-All merged (Plain n) live (
            All-append (Real (Plain n)) u.before (consumed ∷ u.after)
              (real u.before (
                Traversed-All (merge_equality var s.eq) (Plain n) (Plain n) step s.before u.before
                  u.before_merged before_plain))
              (
                λ z. cc (z, consumed_idle.0),
                real u.after (
                    Traversed-All (merge_equality var s.eq) (Plain n) (Plain n) step s.after u.after
                      u.after_merged after_plain),
              ))

  Rounds-LivePlain :
      (n : ℕ) {fuel : ℕ} {p q : Polyhedron} → Rounds var fuel p q → LivePlain n p → LivePlain n q
  Rounds-LivePlain n out_of_rounds h = h
  Rounds-LivePlain n (dead e) h = h
  Rounds-LivePlain n (done a) h = h
  Rounds-LivePlain n (round {p = p} {s = s} f u rest) h =
      Rounds-LivePlain n rest (Substituted-LivePlain n p s f u h)

-- Elimination drops the variable and stays in its budget: where the rows of a system are as wide as
-- its space and their coefficients are int64_t values, no row of the projected system mentions the
-- variable, the projected system has at most 256 rows, and the answer "budget exceeded", which is
-- meant for 512 rows, never comes.
pub fm_eliminate_drops :
    (sys : Polyhedron) (var : ℕ) {out : FmOutcome}
    → IsWide sys
    → All (λ r. All InInt64 r.coeffs) sys.rows
    → fm_eliminate sys var ≡ ok out
    → All (Without var) out.projected.rows
      × (length out.projected.rows ≤ max_rows_per_system)
      × (out.budget_exceeded ≡ false)
unfolding fm_eliminate LivePlain CleanOutcome
fm_eliminate_drops sys var {out} wide fits e =
    let n = total_vars sys.space in
    let (left, el, e1) = >>=-eq-ok (eliminate_equalities (length sys.rows) var sys) _ e in
    let plain =
      All-zip (HasWidth n) (λ r. InInt64 (coeff_of r var)) sys.rows wide
        (All-map _ (λ r. InInt64 (coeff_of r var)) (λ r h. All-get_or r.coeffs var h) sys.rows
          fits) in
    let kept =
      Rounds-LivePlain var n (eliminate_equalities-Rounds (length sys.rows) var sys left el)
        (λ _. plain) in
    let clean : CleanOutcome var out =
      if_ind (λ m. m ≡ ok out → CleanOutcome var out) left.is_empty_flag
        (λ _ e2.
          subst (CleanOutcome var) (ok_inj e2)
            (refl, record { without = tt; within = omega arith }))
        (λ live e2. combine_signs-Clean var n left e2 (kept live)) e1 in
    (clean.1.without, clean.1.within, clean.0)
