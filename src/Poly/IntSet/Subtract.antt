-- ===== src/Poly/IntSet/Subtract.antt =====
-- `complement` and `subtract`: sets of inequalities, and what an equality does.
use mlk.Base.{
  ℕ, ◌+◌, ◌*◌, ◌≤◌, ◌≡◌, refl, sym, subst, Bool, true, false, ◌⊎◌, inl, inr, ◌↔◌, List, [], ◌∷◌,
  length, All, Bool-cases, Any, arith,
}
use mlk.Base.Int.{ℤ, pos, leb_ℤ}
use mlk.Base.Res.{ok, >>=-eq-ok}
use mlk.Poly.Row.{VarSpace, ConstraintRow}
use mlk.Poly.Row.Value.{row_value, RowHolds, Satisfies}
use mlk.Poly.System.{Polyhedron, max_rows_per_system}
use mlk.Poly.System.Eval.{Holds}
use mlk.Poly.IntSet.{PresburgerSet, complement, subtract}
use mlk.Poly.IntSet.Meet.{Contains, RowsWithin}
use mlk.Poly.IntSet.Intersect.{intersect_exact}
use mlk.Poly.IntSet.Negate.{NegatableRow, negate_row_sound, negate_inequality, negate_equality}
use mlk.Poly.IntSet.Complement.{Negated, Escapes, complement_exact}

-- The numbers of every row of every disjunct can be negated.
abbrev pub NegatableSet : PresburgerSet → Type 0
NegatableSet a = All (λ p. All NegatableRow p.rows) a.disjuncts

-- Every row of every disjunct is an inequality.
abbrev pub OnlyInequalities : PresburgerSet → Type 0
OnlyInequalities a = All (λ p. All (λ r. r.is_equality ≡ false) p.rows) a.disjuncts

escape_row :
    (space : VarSpace) (x : List ℤ) (rs : List ConstraintRow)
    → All NegatableRow rs
    → All (RowHolds x) rs
    → ¬ Any (Negated space x) rs
escape_row space x [] n h z = z
escape_row space x (r ∷ rs) n h (inl bad) = negate_row_sound x space r n.0 bad h.0
escape_row space x (r ∷ rs) n h (inr rest) = escape_row space x rs n.1 h.1 rest

escape-All :
    (space : VarSpace) (x : List ℤ) (ps : List Polyhedron)
    → All (λ p. All NegatableRow p.rows) ps
    → All (Escapes space x) ps
    → ¬ Any (Holds x) ps
escape-All space x [] n h z = z
escape-All space x (p ∷ ps) n (inl dead, rest) (inl held) = cc (dead, held.live)
escape-All space x (p ∷ ps) n (inr bad, rest) (inl held) =
    escape_row space x p.rows n.0 held.all_rows bad
escape-All space x (p ∷ ps) n (first, rest) (inr held) = escape-All space x ps n.1 rest held

-- An inequality holds or fails.
decide_row :
    (space : VarSpace) (x : List ℤ) (r : ConstraintRow)
    → NegatableRow r
    → r.is_equality ≡ false
    → RowHolds x r ⊎ Negated space x r
decide_row space x r n kind = elim (Bool-cases (leb_ℤ (pos 0) (row_value r x))) [
  | inl t ↦ inl (subst (λ b. Satisfies b (row_value r x)) (sym kind) (ground arith))
  | inr f ↦ inr ((negate_inequality x space r kind n).1 (ground arith))
]

decide_rows :
    (space : VarSpace) (x : List ℤ) (rs : List ConstraintRow)
    → All NegatableRow rs
    → All (λ r. r.is_equality ≡ false) rs
    → All (RowHolds x) rs ⊎ Any (Negated space x) rs
decide_rows space x [] n k = inl tt
decide_rows space x (r ∷ rs) n k =
    join (decide_row space x r n.0 k.0) (decide_rows space x rs n.1 k.1)
  where
    join :
        RowHolds x r ⊎ Negated space x r
        → All (RowHolds x) rs ⊎ Any (Negated space x) rs
        → (RowHolds x r × All (RowHolds x) rs) ⊎ (Negated space x r ⊎ Any (Negated space x) rs)
    join (inr bad) rest = inr (inl bad)
    join (inl good) (inl rest) = inl (good, rest)
    join (inl good) (inr bad) = inr (inr bad)

decide-All :
    (space : VarSpace) (x : List ℤ) (ps : List Polyhedron)
    → All (λ p. All NegatableRow p.rows) ps
    → All (λ p. All (λ r. r.is_equality ≡ false) p.rows) ps
    → Any (Holds x) ps ⊎ All (Escapes space x) ps
decide-All space x [] n k = inr tt
decide-All space x (p ∷ ps) n k =
    join p.is_empty_flag refl (decide_rows space x p.rows n.0 k.0) (decide-All space x ps n.1 k.1)
  where
    join :
        (b : Bool)
        → p.is_empty_flag ≡ b
        → All (RowHolds x) p.rows ⊎ Any (Negated space x) p.rows
        → Any (Holds x) ps ⊎ All (Escapes space x) ps
        → (Holds x p ⊎ Any (Holds x) ps) ⊎ (Escapes space x p × All (Escapes space x) ps)
    join b e rows (inl held) = inl (inr held)
    join true e rows (inr rest) = inr (inl e, rest)
    join false e (inl held) (inr rest) = inl (inl (record { live = e; all_rows = held }))
    join false e (inr bad) (inr rest) = inr (inr bad, rest)

-- A complement never holds a point of the set, and where every row of the set is an inequality it
-- holds every point outside it. The conditions: the numbers of the rows can be negated in int64_t,
-- and two rows for each disjunct fit into a system.
pub complement_correct :
    (a : PresburgerSet) {c : PresburgerSet}
    → 2 * length a.disjuncts ≤ max_rows_per_system
    → NegatableSet a
    → complement a ≡ ok c
    → ((x : List ℤ) → Contains x c → ¬ Contains x a)
      × (OnlyInequalities a → (x : List ℤ) → Contains x a ⊎ Contains x c)
complement_correct a {c} fits n e =
    let (points, _) = complement_exact a fits e in
    (
      λ x h. escape-All a.space x a.disjuncts n ((points x).0 h),
      λ k x. outside x (points x) (decide-All a.space x a.disjuncts n k),
    )
  where
    outside :
        (x : List ℤ)
        → Contains x c ↔ All (Escapes a.space x) a.disjuncts
        → Any (Holds x) a.disjuncts ⊎ All (Escapes a.space x) a.disjuncts
        → Contains x a ⊎ Contains x c
    outside x f (inl h) = inl h
    outside x f (inr h) = inr (f.1 h)

-- A difference never holds a point outside the first set or inside the second; where every row of
-- the second set is an inequality, it holds all the others. The conditions are those of the
-- complement, with room for the rows of the first set.
pub subtract_correct :
    (a b : PresburgerSet) (m : ℕ) {s : PresburgerSet}
    → m + 2 * length b.disjuncts ≤ max_rows_per_system
    → All (RowsWithin m) a.disjuncts
    → NegatableSet b
    → subtract a b ≡ ok s
    → ((x : List ℤ) → Contains x s → Contains x a × ¬ Contains x b)
      × (OnlyInequalities b → (x : List ℤ) → Contains x a → ¬ Contains x b → Contains x s)
unfolding subtract
subtract_correct a b m {s} fits h n e =
    let (c, ec, e') = >>=-eq-ok (complement b) _ e in
    let (apart, cover) = complement_correct b (omega arith) n ec in
    let (_, bound) = complement_exact b (omega arith) ec in
    let (both, _) = intersect_exact a c m (2 * length b.disjuncts) fits h bound e' in
    (
      λ x t. let p = (both x).0 t in (p.0, apart x p.1),
      λ k x ta tb. (both x).1 (ta, outside x c tb (cover k x)),
    )
  where
    outside :
        (x : List ℤ) (c : PresburgerSet)
        → ¬ Contains x b
        → Contains x b ⊎ Contains x c
        → Contains x c
    outside x c tb (inl h) = absurd (tb h)
    outside x c tb (inr h) = h

no_escape :
    (space : VarSpace) (x : List ℤ) (rs : List ConstraintRow)
    → All NegatableRow rs
    → All (λ r. r.is_equality ≡ true) rs
    → ¬ Any (Negated space x) rs
no_escape space x [] n k z = z
no_escape space x (r ∷ rs) n k (inl h) = negate_equality x space r k.0 n.0 h
no_escape space x (r ∷ rs) n k (inr h) = no_escape space x rs n.1 k.1 h

-- A live disjunct whose rows are all equalities.
abbrev pub IsEqualities : Polyhedron → Type 0
IsEqualities p = (p.is_empty_flag ≡ false) × All (λ r. r.is_equality ≡ true) p.rows

no_escape-All :
    (space : VarSpace) (x : List ℤ) (ps : List Polyhedron)
    → All (λ p. All NegatableRow p.rows) ps
    → Any IsEqualities ps
    → ¬ All (Escapes space x) ps
no_escape-All space x [] n z h = z
no_escape-All space x (p ∷ ps) n (inl k) (inl dead, rest) = cc (dead, k.0)
no_escape-All space x (p ∷ ps) n (inl k) (inr bad, rest) = no_escape space x p.rows n.0 k.1 bad
no_escape-All space x (p ∷ ps) n (inr k) (first, rest) = no_escape-All space x ps n.1 k rest

-- The complement of a set that has a live disjunct of equalities alone holds no point at all, not
-- even a point outside the set. The conditions on sizes and numbers are those of the complement.
pub complement_loses_equalities :
    (a : PresburgerSet) {c : PresburgerSet}
    → 2 * length a.disjuncts ≤ max_rows_per_system
    → NegatableSet a
    → Any IsEqualities a.disjuncts
    → complement a ≡ ok c
    → (x : List ℤ) → ¬ Contains x c
complement_loses_equalities a fits n k e x h =
    no_escape-All a.space x a.disjuncts n k (((complement_exact a fits e).0 x).0 h)
