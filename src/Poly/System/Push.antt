-- ===== src/Poly/System/Push.antt =====
-- What the end of `addRow` does to a system: four outcomes, and what each keeps.
use mlk.Base.{
  ℕ, ◌≤◌, ◌<◌, ◌≡◌, refl, true, false, List, [], ◌∷◌, ◌++◌, leb, length, All, All-append, All-left,
  All-right, arith, Bool-cases, inl, inr, length-append,
}
use mlk.Base.Int.{ℤ}
use mlk.Poly.Row.{ConstraintRow, is_trivially_true, is_trivially_false}
use mlk.Poly.Row.Value.{RowHolds, is_trivially_true_sound, is_trivially_false_sound}
use mlk.Poly.System.{Polyhedron, flagged, push_row, max_rows_per_system}
use mlk.Poly.System.Eval.{Holds, HasWidth}

-- The outcomes of adding a row.
pub data Pushed (p : Polyhedron) (r : ConstraintRow) : Polyhedron → Type 0 where
  contradiction : is_trivially_false r ≡ true → Pushed p r (flagged p)
  trivial : is_trivially_true r ≡ true → Pushed p r p
  full : max_rows_per_system ≤ length p.rows → Pushed p r (record p { rows_overflow = true })
  appended : length p.rows < max_rows_per_system → Pushed p r (record p { rows = p.rows ++ r ∷ [] })

pub push_row-Pushed : (p : Polyhedron) (r : ConstraintRow) → Pushed p r (push_row p r)
unfolding push_row
push_row-Pushed p r = elim (Bool-cases (is_trivially_false r)) [
  | inl bad ↦ rw bad (contradiction bad)
  | inr fine ↦ elim (Bool-cases (is_trivially_true r)) [
    | inl idle ↦ rw (fine, idle) (trivial idle)
    | inr real ↦ elim (Bool-cases (leb max_rows_per_system (length p.rows))) [
      | inl many ↦ rw (fine, real, many) (full (ground arith))
      | inr few ↦ rw (fine, real, few) (appended (ground arith))
    ]
  ]
]

module _ (p : Polyhedron) (r : ConstraintRow) (x : List ℤ) where
  -- A row that the point satisfies does not take the point away.
  pub Pushed-Holds : {q : Polyhedron} → Pushed p r q → Holds x p → RowHolds x r → Holds x q
  Pushed-Holds (contradiction bad) h hr = absurd (is_trivially_false_sound r x bad hr)
  Pushed-Holds (trivial idle) h hr = h
  Pushed-Holds (full many) h hr = record { live = h.live; all_rows = h.all_rows }
  Pushed-Holds (appended few) h hr = record {
    live = h.live;
    all_rows = All-append (RowHolds x) p.rows (r ∷ []) h.all_rows (hr, tt);
  }

  -- Where nothing was dropped, the points left satisfy the new row too.
  pub Pushed-exact :
      {q : Polyhedron}
      → Pushed p r q
      → q.rows_overflow ≡ false
      → Holds x q
      → Holds x p × RowHolds x r
  Pushed-exact (contradiction bad) ov h = cc h.live
  Pushed-exact (trivial idle) ov h = (h, is_trivially_true_sound r x idle)
  Pushed-exact (full many) ov h = cc
  Pushed-exact (appended few) ov h = (
    record { live = h.live; all_rows = All-left (RowHolds x) p.rows (r ∷ []) h.all_rows },
    (All-right (RowHolds x) p.rows (r ∷ []) h.all_rows).0,
  )

module _ (p : Polyhedron) (r : ConstraintRow) where
  pub Pushed-space : {q : Polyhedron} → Pushed p r q → q.space ≡ p.space
  Pushed-space (contradiction bad) = refl
  Pushed-space (trivial idle) = refl
  Pushed-space (full many) = refl
  Pushed-space (appended few) = refl

  pub Pushed-wide :
      {q : Polyhedron} (n : ℕ)
      → Pushed p r q
      → HasWidth n r
      → All (HasWidth n) p.rows
      → All (HasWidth n) q.rows
  Pushed-wide n (contradiction bad) hr h = h
  Pushed-wide n (trivial idle) hr h = h
  Pushed-wide n (full many) hr h = h
  Pushed-wide n (appended few) hr h = All-append (HasWidth n) p.rows (r ∷ []) h (hr, tt)

  -- An overflow is remembered.
  pub Pushed-overflow :
      {q : Polyhedron} → Pushed p r q → p.rows_overflow ≡ true → q.rows_overflow ≡ true
  Pushed-overflow (contradiction bad) h = h
  Pushed-overflow (trivial idle) h = h
  Pushed-overflow (full many) h = refl
  Pushed-overflow (appended few) h = h

  pub Pushed-budget :
      {q : Polyhedron}
      → Pushed p r q
      → length p.rows ≤ max_rows_per_system
      → length q.rows ≤ max_rows_per_system
  Pushed-budget (contradiction bad) h = h
  Pushed-budget (trivial idle) h = h
  Pushed-budget (full many) h = h
  Pushed-budget (appended few) h = omega (arith, length-append {0} p.rows (r ∷ []))

  -- What holds of the old rows and of the new one holds of the rows after the push.
  pub Pushed-All :
      (P : ConstraintRow → Type 0) {q : Polyhedron}
      → Pushed p r q
      → All P p.rows
      → P r
      → All P q.rows
  Pushed-All P (contradiction bad) h hr = h
  Pushed-All P (trivial idle) h hr = h
  Pushed-All P (full many) h hr = h
  Pushed-All P (appended few) h hr = All-append P p.rows (r ∷ []) h (hr, tt)
