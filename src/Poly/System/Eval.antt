-- ===== src/Poly/System/Eval.antt =====
-- Which points a system holds, and `containsPoint`, which evaluates the rows without overflow.
use mlk.Base.{
  ℕ, ◌*◌, ◌+◌, ◌≤◌, ◌≡◌, refl, ap, Bool, true, false, none, some, List, [], ◌∷◌, if◌then◌else◌,
  length, All, arith, Bool-cases, inl, inr, Option-cases, ◌↔◌, and_then-eq-some,
}
use mlk.Base.Int
use mlk.Base.Int.{
  ℤ, pos, ◌+ℤ◌, ◌*ℤ◌, int_laws, eqb_ℤ, leb_ℤ, pos_part, neg_part, int64_max, nat_abs, InInt64,
  +ℤ_parts, *ℤ_parts,
}
use mlk.Poly.Checked.{add, mul}
use mlk.Poly.Checked.Laws.{add_exact, mul_exact, add_total, mul_total}
use mlk.Poly.Row.{total_vars, ConstraintRow}
use mlk.Poly.Row.Value.{dot, row_value, RowHolds, Satisfies}
use mlk.Poly.System.{Polyhedron, eval_terms, eval_step, row_accepts, rows_accept, contains_point}

-- The point lies in the system.
pub record Holds (x : List ℤ) (p : Polyhedron) : Type 0 where
  pub live : p.is_empty_flag ≡ false
  pub all_rows : All (RowHolds x) p.rows

-- Every row has one coefficient for each variable.
abbrev pub HasWidth : ℕ → ConstraintRow → Type 0
HasWidth n r = length r.coeffs ≡ n

abbrev pub IsWide : Polyhedron → Type 0
IsWide p = All (HasWidth (total_vars p.space)) p.rows

eval_step_sound : (acc c v : ℤ) {r : ℤ} → eval_step acc c (some v) ≡ some r → r ≡ c *ℤ v +ℤ acc
eval_step_sound acc c v {r} h = elim (Bool-cases (eqb_ℤ c (pos 0))) [
  | inl z ↦
      let same : some acc ≡ some r = rw z at h in
      let c0 : c ≡ pos 0 = (Int.eqb_ℤ_iff c (pos 0)).0 z in
      rw (c0, Int.zero-*ℤ, Int.zero-+ℤ) (cc same)
  | inr nz ↦
      let (t, et, e) = and_then-eq-some (mul c v) (λ term. add acc term) (rw nz at h) in
      omega (int_laws, (add_exact acc t e).0, (mul_exact c v et).0)
]

eval_step-none : (acc c : ℤ) {r : ℤ} → eval_step acc c none ≡ some r → r ≡ acc
eval_step-none acc c h = ground arith

dot_nil : (cs : List ℤ) → dot cs [] ≡ pos 0
dot_nil [] = refl
dot_nil (c ∷ cs) = refl

-- An evaluation that does not overflow gives the value of the linear form.
pub eval_terms_sound :
    (acc : ℤ) (cs xs : List ℤ) {r : ℤ} → eval_terms acc cs xs ≡ some r → r ≡ dot cs xs +ℤ acc
unfolding eval_terms
eval_terms_sound acc [] xs h = cc (Int.zero-+ℤ acc)
eval_terms_sound acc (c ∷ cs) [] h =
    let (acc', e, h') = and_then-eq-some (eval_step acc c none) _ h in
    omega (int_laws, eval_step-none acc c e, eval_terms_sound acc' cs [] h', dot_nil cs)
eval_terms_sound acc (c ∷ cs) (x ∷ xs) h =
    let (acc', e, h') = and_then-eq-some (eval_step acc c (some x)) _ h in
    omega (int_laws, eval_step_sound acc c x e, eval_terms_sound acc' cs xs h')

-- An upper bound of every partial sum of the evaluation.
abbrev pub weight : List ℤ → List ℤ → ℕ
weight [] xs = 0
weight (c ∷ cs) [] = 0
weight (c ∷ cs) (x ∷ xs) = nat_abs c * nat_abs x + weight cs xs

eval_step_total :
    (acc c x : ℤ)
    → nat_abs acc + nat_abs c * nat_abs x ≤ int64_max
    → (r : ℤ) × (eval_step acc c (some x) ≡ some r)
      × (nat_abs r ≤ nat_abs acc + nat_abs c * nat_abs x)
eval_step_total acc c x h = elim (Bool-cases (eqb_ℤ c (pos 0))) [
  | inl z ↦ (acc, rw z, omega arith)
  | inr nz ↦
      let p = Int.nat_abs-*ℤ c x in
      let q = Int.nat_abs-+ℤ-le acc (c *ℤ x) in
      let m = mul_total c x (Int.nat_abs-InInt64 (c *ℤ x) (omega arith)) in
      let a = add_total acc (c *ℤ x) (Int.nat_abs-InInt64 (acc +ℤ c *ℤ x) (omega arith)) in
      (acc +ℤ c *ℤ x, rw (nz, m) a, omega arith)
]

-- A sum whose terms stay in range together is evaluated, where there is a coordinate for each term.
pub eval_terms_total :
    (acc : ℤ) (cs xs : List ℤ)
    → length cs ≤ length xs
    → nat_abs acc + weight cs xs ≤ int64_max
    → (r : ℤ) × (eval_terms acc cs xs ≡ some r)
unfolding eval_terms
eval_terms_total acc [] xs hl h = (acc, refl)
eval_terms_total acc (c ∷ cs) [] hl h = absurd (omega arith)
eval_terms_total acc (c ∷ cs) (x ∷ xs) hl h =
    let (acc', e, small) = eval_step_total acc c x (omega arith) in
    let (r, er) = eval_terms_total acc' cs xs (omega arith) (omega arith) in (r, rw e er)

Satisfies-sound :
    (kind : Bool) (v : ℤ)
    → (if kind then eqb_ℤ v (pos 0) else leb_ℤ (pos 0) v) ≡ true
    → Satisfies kind v
Satisfies-sound true v h = (Int.eqb_ℤ_iff v (pos 0)).0 h
Satisfies-sound false v h = ground arith

Satisfies-complete :
    (kind : Bool) (v : ℤ)
    → Satisfies kind v
    → (if kind then eqb_ℤ v (pos 0) else leb_ℤ (pos 0) v) ≡ true
Satisfies-complete true v h = (Int.eqb_ℤ_iff v (pos 0)).1 h
Satisfies-complete false v h = ground arith

pub row_accepts_sound : (x : List ℤ) (r : ConstraintRow) → row_accepts x r ≡ true → RowHolds x r
unfolding row_accepts
row_accepts_sound x r h = elim (Option-cases (eval_terms r.constant r.coeffs x)) [
  | inl e ↦ cc (rw (e, row_accepts) at h)
  | inr (v, e) ↦
      rw (← eval_terms_sound r.constant r.coeffs x e)
        (Satisfies-sound r.is_equality v (rw (e, row_accepts) at h))
]

rows_accept_sound :
    (x : List ℤ) (rs : List ConstraintRow) → rows_accept x rs ≡ true → All (RowHolds x) rs
rows_accept_sound x [] h = tt
rows_accept_sound x (r ∷ rs) h =
    (row_accepts_sound x r (ground arith), rows_accept_sound x rs (ground arith))

-- A point that the code accepts lies in the system.
pub contains_point_sound : (p : Polyhedron) (x : List ℤ) → contains_point p x ≡ true → Holds x p
unfolding contains_point
contains_point_sound p x h = record {
  live = ground arith;
  all_rows = rows_accept_sound x p.rows (ground arith);
}

-- Each product and each sum of an evaluation, from the left on, is in the range of int64_t.
abbrev pub StaysIn : ℤ → List ℤ → List ℤ → Type 0
StaysIn acc [] xs = Unit
StaysIn acc (c ∷ cs) [] = Unit
StaysIn acc (c ∷ cs) (x ∷ xs) =
    InInt64 (c *ℤ x) × InInt64 (acc +ℤ c *ℤ x) × StaysIn (acc +ℤ c *ℤ x) cs xs

eval_step_in_range :
    (acc c x : ℤ)
    → InInt64 (c *ℤ x)
    → InInt64 (acc +ℤ c *ℤ x)
    → eval_step acc c (some x) ≡ some (acc +ℤ c *ℤ x)
eval_step_in_range acc c x hm ha = elim (Bool-cases (eqb_ℤ c (pos 0))) [
  | inl z ↦
      let c0 : c ≡ pos 0 = (Int.eqb_ℤ_iff c (pos 0)).0 z in
      rw (z, c0, Int.zero-*ℤ) (ap some (omega int_laws))
  | inr nz ↦ rw (nz, mul_total c x hm) (add_total acc (c *ℤ x) ha)
]

eval_terms_in_range :
    (acc : ℤ) (cs xs : List ℤ)
    → length cs ≤ length xs
    → StaysIn acc cs xs
    → (r : ℤ) × (eval_terms acc cs xs ≡ some r)
unfolding eval_terms
eval_terms_in_range acc [] xs hl h = (acc, refl)
eval_terms_in_range acc (c ∷ cs) [] hl h = absurd (omega arith)
eval_terms_in_range acc (c ∷ cs) (x ∷ xs) hl h =
    let (product, sum, later) = h in
    let (r, er) = eval_terms_in_range (acc +ℤ c *ℤ x) cs xs (omega arith) later in
    (r, rw (eval_step_in_range acc c x product sum) er)

-- The evaluation of a row at a point stays within int64_t.
abbrev pub FitsAt : List ℤ → ConstraintRow → Type 0
FitsAt x r = (length r.coeffs ≤ length x) × StaysIn r.constant r.coeffs x

row_accepts_complete :
    (x : List ℤ) (r : ConstraintRow) → FitsAt x r → RowHolds x r → row_accepts x r ≡ true
unfolding row_accepts
row_accepts_complete x r f h =
    let (v, e) = eval_terms_in_range r.constant r.coeffs x f.0 f.1 in
    let same : v ≡ row_value r x = eval_terms_sound r.constant r.coeffs x e in
    rw (e, row_accepts) (Satisfies-complete r.is_equality v (rw same h))

rows_accept_complete :
    (x : List ℤ) (rs : List ConstraintRow)
    → All (FitsAt x) rs
    → All (RowHolds x) rs
    → rows_accept x rs ≡ true
rows_accept_complete x [] f h = refl
rows_accept_complete x (r ∷ rs) f h =
    rw (row_accepts_complete x r f.0 h.0, rows_accept_complete x rs f.1 h.1)

-- A point of the system is accepted, where its evaluation does not overflow.
pub contains_point_complete :
    (p : Polyhedron) (x : List ℤ)
    → total_vars p.space ≤ length x
    → All (FitsAt x) p.rows
    → Holds x p
    → contains_point p x ≡ true
unfolding contains_point
contains_point_complete p x hl f h =
    ground (arith, h.live, rows_accept_complete x p.rows f h.all_rows)

-- `containsPoint` decides the system: at a point with a coordinate for each variable and each
-- coefficient, where each product and each sum of the evaluation of a row is in the range of int64_t,
-- it accepts the point exactly where the point satisfies every row.
pub contains_point_exact :
    (p : Polyhedron) (x : List ℤ)
    → total_vars p.space ≤ length x
    → All (FitsAt x) p.rows
    → contains_point p x ≡ true ↔ Holds x p
contains_point_exact p x hl f = (contains_point_sound p x, contains_point_complete p x hl f)
