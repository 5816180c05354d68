-- ===== src/Ir/Graph/Renumber/Complete.antt =====
-- The order that `renumberTopological` renumbers by: every node is in it, and a dead node twice.
use mlk.Base.{
  ℕ, suc, ◌+◌, ◌<◌, ◌≡◌, sym, ap, ◌∙◌, subst, inl, inr, Bool, true, false, Bool-cases, none, some,
  List, [], ◌∷◌, ◌++◌, if_ind, length, get_elem?, get_elem?_in, get_elem?-append_left, get_or, All,
  All-append, All-map, arith,
}
use mlk.Ir.Graph.{Node, MathGraph}
use mlk.Ir.Graph.Edit.{is_dead}
use mlk.Ir.Graph.Renumber.{Placing, dead_from, unplaced_from, final_order}
use mlk.Ir.Graph.Renumber.Order.{Sound}
use mlk.Ir.Graph.Renumber.Positions.{
  Occurs, has_id-Occurs, get_elem?-append_right, dead_from-Occurs, unplaced_from-Occurs,
}

-- The order has nodes of the graph only, each of them, and a dead one at two positions.
pub record Complete (nodes : List Node) (order : List ℕ) : Type 0 where
  pub in_range : All (λ i. i < length nodes) order
  pub every : (i : ℕ) → i < length nodes → Occurs order i
  pub twice :
      (i : ℕ) (nd : Node)
      → get_elem? nodes i ≡ some nd
      → is_dead nd ≡ true
      → (p : ℕ) × (q : ℕ) × (p < q) × (get_elem? order p ≡ some i) × (get_elem? order q ≡ some i)

from_next : (i n : ℕ) (xs : List ℕ) → All (λ k. k < suc i + n) xs → All (λ k. k < i + suc n) xs
from_next i n xs = All-map _ _ (λ k h. omega (arith, h)) xs

from_zero : (n : ℕ) (xs : List ℕ) → All (λ k. k < 0 + n) xs → All (λ k. k < n) xs
from_zero n xs = All-map _ _ (λ k h. omega (arith, h)) xs

dead_from-below : (i : ℕ) (nodes : List Node) → All (λ k. k < i + length nodes) (dead_from i nodes)
dead_from-below i [] = tt
dead_from-below i (n ∷ ns) =
    let later = from_next i (length ns) _ (dead_from-below (suc i) ns) in
    if_ind (All (λ k. k < i + suc (length ns))) (is_dead n) (λ _. (omega arith, later)) (λ _. later)

unplaced_from-below : (i : ℕ) (bs : List Bool) → All (λ k. k < i + length bs) (unplaced_from i bs)
unplaced_from-below i [] = tt
unplaced_from-below i (b ∷ bs) =
    let later = from_next i (length bs) _ (unplaced_from-below (suc i) bs) in
    if_ind (All (λ k. k < i + suc (length bs))) b (λ _. later) (λ _. (omega arith, later))

Occurs-left : (xs ys : List ℕ) (v : ℕ) → Occurs xs v → Occurs (xs ++ ys) v
Occurs-left xs ys v (p, at) = (p, get_elem?-append_left xs ys p at)

Occurs-right : (xs ys : List ℕ) (v : ℕ) → Occurs ys v → Occurs (xs ++ ys) v
Occurs-right xs ys v (p, at) = (length xs + p, get_elem?-append_right xs ys p at)

-- Twice in two parts is at two positions.
Occurs-both :
    (xs ys : List ℕ) (v : ℕ)
    → Occurs xs v
    → Occurs ys v
    → (p : ℕ) × (q : ℕ) × (p < q)
      × (get_elem? (xs ++ ys) p ≡ some v)
      × (get_elem? (xs ++ ys) q ≡ some v)
Occurs-both xs ys v (p, at) (q, there) = (
  p,
  length xs + q,
  omega (arith, get_elem?_in xs p at),
  get_elem?-append_left xs ys p at,
  get_elem?-append_right xs ys q there,
)

-- A node that is not placed is in the last part of the order.
unplaced-Occurs :
    (nodes : List Node) (p : Placing) (i : ℕ)
    → Sound nodes p
    → i < length nodes
    → get_or p.placed i false ≡ false
    → Occurs (unplaced_from 0 p.placed) i
unplaced-Occurs nodes p i h below unplaced =
    let here : 0 + i ≡ i = omega arith in
    subst (Occurs (unplaced_from 0 p.placed)) here
      (unplaced_from-Occurs 0 p.placed i (omega (arith, below, h.sized)) unplaced)

final_order-every :
    (g : MathGraph) (p : Placing)
    → Sound g.nodes p
    → (i : ℕ) → i < length g.nodes
    → Occurs (final_order g p) i
final_order-every g p h i below = elim (Bool-cases (get_or p.placed i false)) [
  | inl placed ↦
      let (at, e) = has_id-Occurs i p.order (h.placed_live i placed).0 in
      (
        at,
        get_elem?-append_left (p.order ++ dead_from 0 g.nodes) _ at
            (get_elem?-append_left p.order _ at e),
      )
  | inr unplaced ↦
      Occurs-right (p.order ++ dead_from 0 g.nodes) _ i
        (unplaced-Occurs g.nodes p i h below unplaced)
]

-- A dead node is never placed.
dead_unplaced :
    (nodes : List Node) (p : Placing) (i : ℕ) (nd : Node)
    → Sound nodes p
    → get_elem? nodes i ≡ some nd
    → is_dead nd ≡ true
    → get_or p.placed i false ≡ false
dead_unplaced nodes p i nd h at dead = elim (Bool-cases (get_or p.placed i false)) [
  | inl placed ↦ absurd (
      clash (is_dead nd)
        (sym (ap (λ found. elim found [ none ↦ false | some n ↦ is_dead n ]) at)
          ∙ (h.placed_live i placed).1)
        dead)
  | inr unplaced ↦ unplaced
]
  where
    clash : (b : Bool) → b ≡ false → b ≡ true → ⊥
    clash b e f = cc

final_order-twice :
    (g : MathGraph) (p : Placing)
    → Sound g.nodes p
    → (i : ℕ) (nd : Node) → get_elem? g.nodes i ≡ some nd
    → is_dead nd ≡ true
    → (a : ℕ) × (b : ℕ) × (a < b)
      × (get_elem? (final_order g p) a ≡ some i)
      × (get_elem? (final_order g p) b ≡ some i)
final_order-twice g p h i nd at dead =
    let here : 0 + i ≡ i = omega arith in
    let among =
      subst (Occurs (dead_from 0 g.nodes)) here (dead_from-Occurs 0 g.nodes i nd at dead) in
    Occurs-both (p.order ++ dead_from 0 g.nodes) _ i (Occurs-right p.order _ i among) (
      unplaced-Occurs g.nodes p i h (get_elem?_in g.nodes i at)
        (dead_unplaced g.nodes p i nd h at dead))

pub final_order-Complete :
    (g : MathGraph) (p : Placing) → Sound g.nodes p → Complete g.nodes (final_order g p)
final_order-Complete g p h = record {
  in_range =
      All-append _ (p.order ++ dead_from 0 g.nodes) _
        (All-append _ p.order _ h.ordered (from_zero _ _ (dead_from-below 0 g.nodes)))
        (subst (λ n. All (λ i. i < n) (unplaced_from 0 p.placed)) h.sized
          (from_zero _ _ (unplaced_from-below 0 p.placed)));
  every = final_order-every g p h;
  twice = final_order-twice g p h;
}
