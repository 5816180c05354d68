-- ===== src/Ir/Graph/Renumber/Positions.antt =====
-- Where a node stands in the order that `renumberTopological` gives, and in the nodes that it moves.
use mlk.Base.{
  ℕ, zero, suc, ◌+◌, ◌≤◌, ◌<◌, ◌≡◌, refl, sym, ap, ◌∙◌, subst, ◌⊎◌, inl, inr, Bool, true, false,
  Bool-cases, some, some_inj, List, [], ◌∷◌, ◌++◌, if_ind, if◌then◌else◌, ◌==◌, length, get_elem?,
  get_or, set, length-set, All, arith,
}
use mlk.Core.SparseSet.Arrays.{get_or-set}
use mlk.Ir.Graph.{Node, has_id}
use mlk.Ir.Graph.Edit.{is_dead}
use mlk.Ir.Graph.Renumber.{dead_from, unplaced_from, remap_from, count_moved}

-- The number is in the list, at a position.
abbrev pub Occurs : List ℕ → ℕ → Type 0
Occurs xs v = (p : ℕ) × (get_elem? xs p ≡ some v)

pub has_id-Occurs : (v : ℕ) (xs : List ℕ) → has_id v xs ≡ true → Occurs xs v
has_id-Occurs v [] h = cc
has_id-Occurs v (x ∷ xs) h = elim (Bool-cases (x == v)) [
  | inl same ↦ (0, ap some (ground (arith, same)))
  | inr differs ↦ let (p, at) = has_id-Occurs v xs (ground (arith, h, differs)) in (suc p, at)
]

pub get_elem?-append_right :
    (xs ys : List ℕ) (p : ℕ) {v : ℕ}
    → get_elem? ys p ≡ some v
    → get_elem? (xs ++ ys) (length xs + p) ≡ some v
get_elem?-append_right [] ys p h = let here : 0 + p ≡ p = omega arith in ap (get_elem? ys) here ∙ h
get_elem?-append_right (x ∷ xs) ys p h =
    let next : suc (length xs) + p ≡ suc (length xs + p) = omega arith in
    ap (get_elem? (x ∷ xs ++ ys)) next ∙ get_elem?-append_right xs ys p h

Occurs-cons : (x v : ℕ) (xs : List ℕ) → Occurs xs v → Occurs (x ∷ xs) v
Occurs-cons x v xs (p, at) = (suc p, at)

-- A dead node is among the dead nodes.
pub dead_from-Occurs :
    (i : ℕ) (ns : List Node) (j : ℕ) (nd : Node)
    → get_elem? ns j ≡ some nd
    → is_dead nd ≡ true
    → Occurs (dead_from i ns) (i + j)
dead_from-Occurs i [] j nd at dead = cc
dead_from-Occurs i (n ∷ ns) zero nd at dead =
    if_ind (λ xs. Occurs xs (i + 0)) (is_dead n) (λ _. (0, ap some (omega arith)))
      (λ live. absurd (clash (is_dead n) live (ap is_dead (some_inj at) ∙ dead)))
  where
    clash : (b : Bool) → b ≡ false → b ≡ true → ⊥
    clash b e f = cc
dead_from-Occurs i (n ∷ ns) (suc j) nd at dead =
    let next : suc i + j ≡ i + suc j = omega arith in
    let later =
      subst (Occurs (dead_from (suc i) ns)) next (dead_from-Occurs (suc i) ns j nd at dead) in
    if_ind (λ xs. Occurs xs (i + suc j)) (is_dead n) (λ _. Occurs-cons i _ _ later) (λ _. later)

-- A node that is not placed is among the nodes that are not.
pub unplaced_from-Occurs :
    (i : ℕ) (bs : List Bool) (j : ℕ)
    → j < length bs
    → get_or bs j false ≡ false
    → Occurs (unplaced_from i bs) (i + j)
unplaced_from-Occurs i [] j below h = absurd (omega (arith, below))
unplaced_from-Occurs i (true ∷ bs) zero below h = cc
unplaced_from-Occurs i (false ∷ bs) zero below h = (0, ap some (omega arith))
unplaced_from-Occurs i (true ∷ bs) (suc j) below h =
    let next : suc i + j ≡ i + suc j = omega arith in
    subst (Occurs (unplaced_from (suc i) bs)) next
      (unplaced_from-Occurs (suc i) bs j (omega (arith, below)) h)
unplaced_from-Occurs i (false ∷ bs) (suc j) below h =
    let next : suc i + j ≡ i + suc j = omega arith in
    Occurs-cons i _ _ (
      subst (Occurs (unplaced_from (suc i) bs)) next
        (unplaced_from-Occurs (suc i) bs j (omega (arith, below)) h))

-- The position is the last one of the number.
abbrev pub LastAt : List ℕ → ℕ → ℕ → Type 0
LastAt xs v p = (get_elem? xs p ≡ some v) × ((q : ℕ) → get_elem? xs q ≡ some v → q ≤ p)

abbrev Absent : List ℕ → ℕ → Type 0
Absent xs v = (q : ℕ) → get_elem? xs q ≡ some v → ⊥

LastAt-cons : (x v : ℕ) (xs : List ℕ) (p : ℕ) → LastAt xs v p → LastAt (x ∷ xs) v (suc p)
LastAt-cons x v xs p (at, last) = (at, below)
  where
    below : (q : ℕ) → get_elem? (x ∷ xs) q ≡ some v → q ≤ suc p
    below zero h = omega arith
    below (suc q) h = omega (arith, last q h)

LastAt-head : (x v : ℕ) (xs : List ℕ) → x ≡ v → Absent xs v → LastAt (x ∷ xs) v 0
LastAt-head x v xs same absent = (ap some same, below)
  where
    below : (q : ℕ) → get_elem? (x ∷ xs) q ≡ some v → q ≤ 0
    below zero h = omega arith
    below (suc q) h = absurd (absent q h)

Absent-cons : (x v : ℕ) (xs : List ℕ) → (x == v) ≡ false → Absent xs v → Absent (x ∷ xs) v
Absent-cons x v xs differs absent zero h = ground (arith, differs, some_inj h)
Absent-cons x v xs differs absent (suc q) h = absent q h

-- The later positions overwrite the earlier ones.
remap_cases :
    (at : ℕ) (order remap : List ℕ) (i d : ℕ)
    → All (λ k. k < length remap) order
    → ((get_or (remap_from at order remap) i d ≡ get_or remap i d) × Absent order i)
      ⊎ ((p : ℕ) × (get_or (remap_from at order remap) i d ≡ at + p) × LastAt order i p)
unfolding remap_from
remap_cases at [] remap i d below = inl (refl, λ q h. cc)
remap_cases at (n ∷ ns) remap i d below =
    let sized = sym (length-set remap n at) in
    elim (remap_cases (suc at) ns (set remap n at) i d
      (subst (λ m. All (λ k. k < m) ns) sized below.1)) [
        | inr (p, e, last) ↦ inr (suc p, e ∙ omega arith, LastAt-cons n i ns p last)
        | inl (e, absent) ↦
            let written = e ∙ get_or-set remap n i at d below.0 in
            elim (Bool-cases (n == i)) [
              | inl same ↦ inr (
                0,
                written ∙ ap (λ b. if b then at else get_or remap i d) same ∙ omega arith,
                LastAt-head n i ns (ground (arith, same)) absent,
              )
              | inr differs ↦ inl (
                written ∙ ap (λ b. if b then at else get_or remap i d) differs,
                Absent-cons n i ns differs absent,
              )
            ]
      ]

-- A number of the order is mapped to its last position.
pub remap-LastAt :
    (order remap : List ℕ) (i d : ℕ)
    → All (λ k. k < length remap) order
    → Occurs order i
    → LastAt order i (get_or (remap_from 0 order remap) i d)
remap-LastAt order remap i d below (q, at) = elim (remap_cases 0 order remap i d below) [
  | inl (e, absent) ↦ absurd (absent q at)
  | inr (p, e, last) ↦
      let here : p ≡ 0 + p = omega arith in subst (LastAt order i) (here ∙ sym e) last
]

pub length-remap_from :
    (at : ℕ) (order remap : List ℕ) → length (remap_from at order remap) ≡ length remap
unfolding remap_from
length-remap_from at [] remap = refl
length-remap_from at (n ∷ ns) remap =
    length-remap_from (suc at) ns (set remap n at) ∙ length-set remap n at

count_moved-parts :
    (k r : ℕ) (rs : List ℕ) → count_moved k (r ∷ rs) ≡ 0 → (r ≡ k) × (count_moved (suc k) rs ≡ 0)
count_moved-parts k r rs h = elim (Bool-cases (r == k)) [
  | inl same ↦ (ground (arith, same), ground (arith, h, same))
  | inr differs ↦ absurd (ground (arith, h, differs))
]

-- Where no node moved, every node is mapped to its own position.
pub none_moved :
    (k : ℕ) (rs : List ℕ) (i d : ℕ) → count_moved k rs ≡ 0 → i < length rs → get_or rs i d ≡ k + i
none_moved k [] i d h below = absurd (omega (arith, below))
none_moved k (r ∷ rs) zero d h below = (count_moved-parts k r rs h).0 ∙ omega arith
none_moved k (r ∷ rs) (suc i) d h below =
    none_moved (suc k) rs i d (count_moved-parts k r rs h).1 (omega (arith, below)) ∙ omega arith
