-- ===== src/Poly/System/Simplify.antt =====
-- `simplifySystem` keeps exactly the points of a system, and finds only real contradictions.
use mlk.Base.{
  ◌+◌, ◌≤◌, ◌≡◌, refl, true, false, ◌||◌, Option, none, some, List, [], ◌∷◌, ◌++◌, if◌then◌else◌,
  length, All, All-append, All-left, All-right, arith, Bool-cases, inl, inr, length-append, ◌↔◌,
  if_ind, subst, sym, All-map, or_cases, ◌⊎◌, some_inj,
}
use mlk.Base.Int.{ℤ}
use mlk.Poly.Row.{ConstraintRow, is_trivially_true, is_trivially_false, rows_equivalent}
use mlk.Poly.Row.Value.{
  RowHolds, is_trivially_true_sound, is_trivially_false_sound, rows_equivalent_eq,
}
use mlk.Poly.System.{Polyhedron, flagged, has_row, simplify_rows, simplify_system}
use mlk.Poly.System.Eval.{Holds}

has_row_sound :
    (P : ConstraintRow → Type 0) (kept : List ConstraintRow) (r : ConstraintRow)
    → has_row kept r ≡ true
    → All P kept
    → P r
has_row_sound P [] r h a = cc
has_row_sound P (k ∷ kept) r h a = elim (Bool-cases (rows_equivalent k r)) [
  | inl same ↦ subst P (rows_equivalent_eq k r same) a.0
  | inr other ↦ has_row_sound P kept r (rw other at h) a.1
]

-- One round of the loop.
abbrev next_kept : List ConstraintRow → ConstraintRow → List ConstraintRow
next_kept kept r = if is_trivially_true r || has_row kept r then kept else kept ++ r ∷ []

simplify_rows-some :
    (kept : List ConstraintRow) (r : ConstraintRow) (rs : List ConstraintRow)
    {out : List ConstraintRow}
    → simplify_rows kept (r ∷ rs) ≡ some out
    → (is_trivially_false r ≡ false) × (simplify_rows (next_kept kept r) rs ≡ some out)
unfolding simplify_rows
simplify_rows-some kept r rs h = ground arith

next_kept-length :
    (kept : List ConstraintRow) (r : ConstraintRow) → length (next_kept kept r) ≤ length kept + 1
next_kept-length kept r =
    if_ind (λ l. length l ≤ length kept + 1) (is_trivially_true r || has_row kept r)
      (λ _. omega arith) (λ _. omega (arith, length-append {0} kept (r ∷ [])))

simplify_rows-length :
    (kept rs : List ConstraintRow) {out : List ConstraintRow}
    → simplify_rows kept rs ≡ some out
    → length out ≤ length kept + length rs
unfolding simplify_rows
simplify_rows-length kept [] h = ground arith
simplify_rows-length kept (r ∷ rs) h = omega (
  arith,
  next_kept-length kept r,
  simplify_rows-length (next_kept kept r) rs (simplify_rows-some kept r rs h).1,
)

-- A trivially true row may as well not stand in the list.
simplify_rows_skip :
    (kept before after : List ConstraintRow) (r : ConstraintRow)
    → is_trivially_true r ≡ true
    → is_trivially_false r ≡ false
    → simplify_rows kept (before ++ r ∷ after) ≡ simplify_rows kept (before ++ after)
unfolding simplify_rows
simplify_rows_skip kept [] after r idle fine = rw (fine, idle) refl
simplify_rows_skip kept (b ∷ before) after r idle fine =
    rw (simplify_rows_skip (next_kept kept b) before after r idle fine) refl

-- What only the rows that are not trivially true need to satisfy.
abbrev pub Real : (ConstraintRow → Type 0) → ConstraintRow → Type 0
Real P r = is_trivially_true r ≡ false → P r

module _ (P : ConstraintRow → Type 0) where
  next_kept-All :
      (kept : List ConstraintRow) (r : ConstraintRow)
      → All P kept
      → Real P r
      → All P (next_kept kept r)
  next_kept-All kept r a h =
      if_ind (All P) (is_trivially_true r || has_row kept r) (λ _. a)
        (λ new. All-append P kept (r ∷ []) a (h (ground arith), tt))

  simplify_rows-All :
      (kept rs : List ConstraintRow) {out : List ConstraintRow}
      → simplify_rows kept rs ≡ some out
      → All P kept
      → All (Real P) rs
      → All P out
  unfolding simplify_rows
  simplify_rows-All kept [] h a b = subst (All P) (some_inj h) a
  simplify_rows-All kept (r ∷ rs) h a b =
      simplify_rows-All (next_kept kept r) rs (simplify_rows-some kept r rs h).1
        (next_kept-All kept r a b.0) b.1

module _ (x : List ℤ) where
  next_kept_back :
      (kept : List ConstraintRow) (r : ConstraintRow)
      → All (RowHolds x) (next_kept kept r)
      → All (RowHolds x) kept × RowHolds x r
  next_kept_back kept r =
      if_ind (λ l. All (RowHolds x) l → All (RowHolds x) kept × RowHolds x r)
        (is_trivially_true r || has_row kept r)
        (λ skip a. (a, skipped a (or_cases (is_trivially_true r) (has_row kept r) skip)))
        (λ _ a. (All-left (RowHolds x) kept (r ∷ []) a, (All-right (RowHolds x) kept (r ∷ []) a).0))
    where
      skipped :
          All (RowHolds x) kept
          → (is_trivially_true r ≡ true) ⊎ (has_row kept r ≡ true)
          → RowHolds x r
      skipped a (inl idle) = is_trivially_true_sound r x idle
      skipped a (inr dup) = has_row_sound (RowHolds x) kept r dup a

  simplify_rows_back :
      (kept rs : List ConstraintRow) {out : List ConstraintRow}
      → simplify_rows kept rs ≡ some out
      → All (RowHolds x) out
      → All (RowHolds x) kept × All (RowHolds x) rs
  unfolding simplify_rows
  simplify_rows_back kept [] h a = (subst (All (RowHolds x)) (sym (some_inj h)) a, tt)
  simplify_rows_back kept (r ∷ rs) h a =
      let (k, rest) =
        simplify_rows_back (next_kept kept r) rs (simplify_rows-some kept r rs h).1 a in
      let (old, new) = next_kept_back kept r k in (old, (new, rest))

  simplify_rows-none :
      (kept rs : List ConstraintRow) → simplify_rows kept rs ≡ none → ¬ All (RowHolds x) rs
  unfolding simplify_rows
  simplify_rows-none kept [] h a = cc
  simplify_rows-none kept (r ∷ rs) h a = elim (Bool-cases (is_trivially_false r)) [
    | inl bad ↦ is_trivially_false_sound r x bad a.0
    | inr fine ↦ simplify_rows-none (next_kept kept r) rs (rw (fine, simplify_rows) at h) a.1
  ]

-- The two outcomes of `simplifySystem`.
pub data Simplified (sys : Polyhedron) : Polyhedron → Type 0 where
  contradiction : simplify_rows [] sys.rows ≡ none → Simplified sys (flagged sys)
  reduced :
      {kept : List ConstraintRow}
      → simplify_rows [] sys.rows ≡ some kept
      → Simplified sys (record sys { rows = kept })

pub simplify_system-Simplified : (sys : Polyhedron) → Simplified sys (simplify_system sys)
unfolding simplify_system
simplify_system-Simplified sys = go (simplify_rows [] sys.rows) refl
  where
    go :
        (o : Option (List ConstraintRow))
        → simplify_rows [] sys.rows ≡ o
        → Simplified sys (elim o [ none ↦ flagged sys | some kept ↦ record sys { rows = kept } ])
    go none e = contradiction e
    go (some kept) e = reduced e

module _ (sys : Polyhedron) where
  Simplified-Holds : (x : List ℤ) {q : Polyhedron} → Simplified sys q → Holds x q ↔ Holds x sys
  Simplified-Holds x (contradiction e) =
      (λ h. cc h.live, λ h. absurd (simplify_rows-none x [] sys.rows e h.all_rows))
  Simplified-Holds x (reduced e) = (
    λ h. record { live = h.live; all_rows = (simplify_rows_back x [] sys.rows e h.all_rows).1 },
    λ h. record {
      live = h.live;
      all_rows =
          simplify_rows-All (RowHolds x) [] sys.rows e tt
            (All-map (RowHolds x) (Real (RowHolds x)) (λ r hr _. hr) sys.rows h.all_rows);
    },
  )

  Simplified-All :
      (P : ConstraintRow → Type 0) {q : Polyhedron}
      → Simplified sys q
      → q.is_empty_flag ≡ false
      → All (Real P) sys.rows
      → All P q.rows
  Simplified-All P (contradiction e) live a = cc
  Simplified-All P (reduced e) live a = simplify_rows-All P [] sys.rows e tt a

  Simplified-length : {q : Polyhedron} → Simplified sys q → length q.rows ≤ length sys.rows
  Simplified-length (contradiction e) = omega arith
  Simplified-length (reduced e) = omega (arith, simplify_rows-length [] sys.rows e)

  Simplified-space : {q : Polyhedron} → Simplified sys q → q.space ≡ sys.space
  Simplified-space (contradiction e) = refl
  Simplified-space (reduced e) = refl

  Simplified-overflow : {q : Polyhedron} → Simplified sys q → q.rows_overflow ≡ sys.rows_overflow
  Simplified-overflow (contradiction e) = refl
  Simplified-overflow (reduced e) = refl

  -- Removing trivial and duplicate rows, and flagging a contradiction, keeps the integer points of a
  -- system: the simplified system holds a point exactly where the system did.
  pub simplify_system-Holds : (x : List ℤ) → Holds x (simplify_system sys) ↔ Holds x sys
  simplify_system-Holds x = Simplified-Holds x (simplify_system-Simplified sys)

  pub simplify_system-All :
      (P : ConstraintRow → Type 0)
      → (simplify_system sys).is_empty_flag ≡ false
      → All (Real P) sys.rows
      → All P (simplify_system sys).rows
  simplify_system-All P = Simplified-All P (simplify_system-Simplified sys)

  pub length-simplify_system : length (simplify_system sys).rows ≤ length sys.rows
  length-simplify_system = Simplified-length (simplify_system-Simplified sys)

  pub simplify_system_space : (simplify_system sys).space ≡ sys.space
  simplify_system_space = Simplified-space (simplify_system-Simplified sys)

  pub simplify_system_overflow : (simplify_system sys).rows_overflow ≡ sys.rows_overflow
  simplify_system_overflow = Simplified-overflow (simplify_system-Simplified sys)

  -- Simplification only takes rows away.
  pub simplify_system_every :
      (P : ConstraintRow → Type 0) → All P sys.rows → All P (simplify_system sys).rows
  simplify_system_every P a = every (simplify_system-Simplified sys)
    where
      every : {q : Polyhedron} → Simplified sys q → All P q.rows
      every (contradiction e) = a
      every (reduced e) =
          simplify_rows-All P [] sys.rows e tt (All-map P (Real P) (λ r h _. h) sys.rows a)

  -- A flag stays.
  pub simplify_system_flag : sys.is_empty_flag ≡ true → (simplify_system sys).is_empty_flag ≡ true
  simplify_system_flag h = flag (simplify_system-Simplified sys)
    where
      flag : {q : Polyhedron} → Simplified sys q → q.is_empty_flag ≡ true
      flag (contradiction e) = refl
      flag (reduced e) = h

-- Where a trivially true row stands in a system, simplification finds a contradiction or shortens
-- the system.
pub simplify_system_shorter :
    (sys : Polyhedron) (before after : List ConstraintRow) (r : ConstraintRow)
    → sys.rows ≡ before ++ r ∷ after
    → is_trivially_true r ≡ true
    → is_trivially_false r ≡ false
    → ((simplify_system sys).is_empty_flag ≡ true)
      ⊎ (length (simplify_system sys).rows ≤ length before + length after)
simplify_system_shorter sys before after r parts idle fine =
    shorter (simplify_system-Simplified sys)
  where
    shorter :
        {q : Polyhedron}
        → Simplified sys q
        → (q.is_empty_flag ≡ true) ⊎ (length q.rows ≤ length before + length after)
    shorter (contradiction e) = inl refl
    shorter (reduced e) =
        let e' = rw (parts, simplify_rows_skip [] before after r idle fine) at e in
        inr (
          omega
            (arith, simplify_rows-length [] (before ++ after) e', length-append {0} before after))
