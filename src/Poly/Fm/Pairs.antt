-- ===== src/Poly/Fm/Pairs.antt =====
-- Phase 2 of `fmEliminate`: the pairwise combination of rows keeps the points.
use mlk.Base.{
  ℕ, ◌≡◌, refl, ap, ◌∙◌, subst, Bool, true, false, List, [], ◌∷◌, length, leb, All, All-zip,
  All-map, if_ind,
}
use mlk.Base.Int.{ℤ}
use mlk.Base.Res.{Result, ok, ok_inj, >>=-eq-ok}
use mlk.Poly.Row.{VarSpace, total_vars, ConstraintRow, coeff_of}
use mlk.Poly.Row.Value.{RowHolds}
use mlk.Poly.System.{Polyhedron, add_row, add_rows_to}
use mlk.Poly.System.Eval.{HasWidth}
use mlk.Poly.System.Laws.{add_row-Holds, add_row_wide, add_row_space}
use mlk.Poly.Fm.{
  FmOutcome, rows_where, Pairing, going, stop, stop_empty, stop_budget, combine_pair, combine_with,
  combine_all, finish, fm_max_intermediate_rows,
}
use mlk.Poly.Fm.Merge.{combine_pair-Combined, Combined-holds}
use mlk.Poly.Fm.Keeps.{Good, IsGood, IsGood-Holds, simplify-Good}

-- A selection of rows has the properties of the rows, and passes the test.
pub rows_where-All :
    (P : ConstraintRow → Type 0) (test : ℤ → Bool) (var : ℕ) (rows : List ConstraintRow)
    → All P rows
    → All (λ r. P r × (test (coeff_of r var) ≡ true)) (rows_where test var rows)
unfolding rows_where
rows_where-All P test var [] h = tt
rows_where-All P test var (r ∷ rs) h =
    let rest = rows_where-All P test var rs h.1 in
    if_ind (All (λ r. P r × (test (coeff_of r var) ≡ true))) (test (coeff_of r var))
      (λ t. ((h.0, t), rest)) (λ _. rest)

-- The steps of the inner loop.
pub data Walk (var : ℕ) (p : ConstraintRow)
    : List ConstraintRow → Polyhedron → Pairing → Type 0 where
  at_end : {acc : Polyhedron} → Walk var p [] acc (going acc)
  over_budget :
      {n : ConstraintRow} {ns : List ConstraintRow} {acc : Polyhedron}
      → leb fm_max_intermediate_rows (length acc.rows) ≡ true
      → Walk var p (n ∷ ns) acc (stop (stop_budget acc))
  emptied :
      {n merged : ConstraintRow} {ns : List ConstraintRow} {acc : Polyhedron}
      → combine_pair var p n ≡ ok merged
      → (add_row acc merged).is_empty_flag ≡ true
      → Walk var p (n ∷ ns) acc (stop (stop_empty (add_row acc merged)))
  step :
      {n merged : ConstraintRow} {ns : List ConstraintRow} {acc : Polyhedron} {out : Pairing}
      → combine_pair var p n ≡ ok merged
      → (add_row acc merged).is_empty_flag ≡ false
      → Walk var p ns (add_row acc merged) out
      → Walk var p (n ∷ ns) acc out

after_pair :
    (var : ℕ) (p n merged : ConstraintRow) (ns : List ConstraintRow) (acc : Polyhedron)
    (out : Pairing)
    → combine_pair var p n ≡ ok merged
    → (combine_with var p ns (add_row acc merged) ≡ ok out → Walk var p ns (add_row acc merged) out)
    → (b : Bool) → (add_row acc merged).is_empty_flag ≡ b
    → elim b [
      | true ↦ ok (stop (stop_empty (add_row acc merged)))
      | false ↦ combine_with var p ns (add_row acc merged)
    ]
      ≡ ok out
    → Walk var p (n ∷ ns) acc out
after_pair var p n merged ns acc out em ih true e h =
    subst (Walk var p (n ∷ ns) acc) (ok_inj h) (emptied em e)
after_pair var p n merged ns acc out em ih false e h = step em e (ih h)

pub combine_with-Walk :
    (var : ℕ) (p : ConstraintRow) (ns : List ConstraintRow) (acc : Polyhedron) (out : Pairing)
    → combine_with var p ns acc ≡ ok out
    → Walk var p ns acc out
unfolding combine_with
combine_with-Walk var p [] acc out h = subst (Walk var p [] acc) (ok_inj h) at_end
combine_with-Walk var p (n ∷ ns) acc out h =
    budget_cases (leb fm_max_intermediate_rows (length acc.rows)) refl
      (λ h1.
        let (merged, em, h2) = >>=-eq-ok (combine_pair var p n) _ h1 in
        after_pair var p n merged ns acc out em
          (combine_with-Walk var p ns (add_row acc merged) out) (add_row acc merged).is_empty_flag
          refl h2)
      h
  where
    budget_cases :
        (b : Bool)
        → leb fm_max_intermediate_rows (length acc.rows) ≡ b
        → {m : Result Pairing} → (m ≡ ok out → Walk var p (n ∷ ns) acc out)
        → elim b [ true ↦ ok (stop (stop_budget acc)) | false ↦ m ] ≡ ok out
        → Walk var p (n ∷ ns) acc out
    budget_cases true e go h = subst (Walk var p (n ∷ ns) acc) (ok_inj h) (over_budget e)
    budget_cases false e go h = go h

-- The steps of the outer loop.
pub data Walks (var : ℕ) (ns : List ConstraintRow)
    : List ConstraintRow → Polyhedron → Pairing → Type 0 where
  at_end : {acc : Polyhedron} → Walks var ns [] acc (going acc)
  stopped :
      {p : ConstraintRow} {ps : List ConstraintRow} {acc : Polyhedron} {out : FmOutcome}
      → Walk var p ns acc (stop out)
      → Walks var ns (p ∷ ps) acc (stop out)
  further :
      {p : ConstraintRow} {ps : List ConstraintRow} {acc next : Polyhedron} {out : Pairing}
      → Walk var p ns acc (going next)
      → Walks var ns ps next out
      → Walks var ns (p ∷ ps) acc out

pub combine_all-Walks :
    (var : ℕ) (ps ns : List ConstraintRow) (acc : Polyhedron) (out : Pairing)
    → combine_all var ps ns acc ≡ ok out
    → Walks var ns ps acc out
unfolding combine_all
combine_all-Walks var [] ns acc out h = subst (Walks var ns [] acc) (ok_inj h) at_end
combine_all-Walks var (p ∷ ps) ns acc out h =
    let (done, ed, h1) = >>=-eq-ok (combine_with var p ns acc) _ h in
    done_cases done (combine_with-Walk var p ns acc done ed)
      (λ next. combine_all-Walks var ps ns next out) h1
  where
    done_cases :
        (done : Pairing)
        → Walk var p ns acc done
        → ((next : Polyhedron) → combine_all var ps ns next ≡ ok out → Walks var ns ps next out)
        → elim done [ going next ↦ combine_all var ps ns next | stop o ↦ ok (stop o) ] ≡ ok out
        → Walks var ns (p ∷ ps) acc out
    done_cases (going next) w ih h = further w (ih next h)
    done_cases (stop o) w ih h = subst (Walks var ns (p ∷ ps) acc) (ok_inj h) (stopped w)

module _ (x : List ℤ) (space : VarSpace) where
  abbrev GoodRow : ConstraintRow → Type 0
  GoodRow = Good (total_vars space) x

  -- The system holds the point and has wide rows.
  abbrev pub KeepsPoint : Polyhedron → Type 0
  KeepsPoint = IsGood (total_vars space) x space

  abbrev pub OutcomeKeeps : FmOutcome → Type 0
  OutcomeKeeps out = (out.is_empty ≡ false) × KeepsPoint out.projected

  abbrev pub PairingKeeps : Pairing → Type 0
  PairingKeeps (going p) = KeepsPoint p
  PairingKeeps (stop out) = OutcomeKeeps out

  pub add_row_keeps :
      (p : Polyhedron) (r : ConstraintRow) → KeepsPoint p → GoodRow r → KeepsPoint (add_row p r)
  add_row_keeps p r g h =
      let held = add_row-Holds p r x (IsGood-Holds (total_vars space) x g) h.1 in
      let wide =
        add_row_wide p r (ap total_vars g.same_space) h.0
          (All-map GoodRow (HasWidth (total_vars space)) (λ r h. h.0) p.rows g.rows_good) in
      record {
        live = held.live;
        same_space = add_row_space p r ∙ g.same_space;
        rows_good =
            All-zip (HasWidth (total_vars space)) (RowHolds x) (add_row p r).rows wide
              held.all_rows;
      }

  Walk-keeps :
      {var : ℕ} {p : ConstraintRow} {ns : List ConstraintRow} {acc : Polyhedron} {out : Pairing}
      → Walk var p ns acc out
      → GoodRow p
      → All GoodRow ns
      → KeepsPoint acc
      → PairingKeeps out
  Walk-keeps at_end hp hn g = g
  Walk-keeps (over_budget e) hp hn g = (refl, g)
  Walk-keeps {var} {p} (emptied {n = n} {merged = m} {acc = acc} em e) hp hn g = cc (
    e,
    (add_row_keeps acc m g (Combined-holds x (combine_pair-Combined var p n em) hp hn.0)).live,
  )
  Walk-keeps {var} {p} (step {n = n} {merged = m} {acc = acc} em e w) hp hn g =
      Walk-keeps w hp hn.1
        (add_row_keeps acc m g (Combined-holds x (combine_pair-Combined var p n em) hp hn.0))

  pub Walks-keeps :
      {var : ℕ} {ns ps : List ConstraintRow} {acc : Polyhedron} {out : Pairing}
      → Walks var ns ps acc out
      → All GoodRow ps
      → All GoodRow ns
      → KeepsPoint acc
      → PairingKeeps out
  Walks-keeps at_end hp hn g = g
  Walks-keeps (stopped w) hp hn g = Walk-keeps w hp.0 hn g
  Walks-keeps (further w rest) hp hn g = Walks-keeps rest hp.1 hn (Walk-keeps w hp.0 hn g)

  pub finish_keeps : (done : Pairing) → PairingKeeps done → OutcomeKeeps (finish done)
  finish_keeps (stop out) h = h
  finish_keeps (going p) g =
      let s =
        simplify-Good (total_vars space) x p g.live g.same_space
          (All-map GoodRow _ (λ r h. (h.1, λ _. h)) p.rows g.rows_good) in
      (s.live, s)

  pub add_rows_to_keeps :
      (p : Polyhedron) (rs : List ConstraintRow)
      → KeepsPoint p
      → All GoodRow rs
      → KeepsPoint (add_rows_to p rs)
  add_rows_to_keeps p [] g h = g
  add_rows_to_keeps p (r ∷ rs) g h =
      add_rows_to_keeps (add_row p r) rs (add_row_keeps p r g h.0) h.1
