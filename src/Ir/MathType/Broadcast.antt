-- ===== src/Ir/MathType/Broadcast.antt =====
-- Broadcasting is the merge of the two shapes, padded with ones on the left to the larger rank.
use mlk.Base.{
  ℕ, zero, suc, ◌+◌, ◌-◌, ◌≤◌, ◌<◌, ◌≡◌, refl, sym, ap₂, ◌∙◌, Option, none, some, [], ◌∷◌, ◌++◌,
  if◌then◌else◌, ltb, length, get_or, replicate, arith, length-append, length-replicate,
}
use mlk.Base.Int
use mlk.Base.Int.{ℤ, pos, eqb_ℤ}
use mlk.Ir.MathType.{
  Shape, max_rank, dynamic_dim, merge_dim, put_dim, broadcast_from, larger, broadcast,
}

-- Merging two lists of dimensions, one by one.
unfoldable pub merge_dims : Shape → Shape → Option Shape
merge_dims [] ys = some []
merge_dims (x ∷ xs) [] = some []
merge_dims (x ∷ xs) (y ∷ ys) = put_dim (merge_dim x y) (merge_dims xs ys)

abbrev padded : ℕ → Shape → Shape
padded r a = replicate (r - length a) (pos 1) ++ a

-- Broadcasting by padding.
abbrev pub broadcast_by_padding : Shape → Shape → Option Shape
broadcast_by_padding a b =
    if ltb max_rank (larger (length a) (length b))
    then none
    else merge_dims (padded (larger (length a) (length b)) a)
        (padded (larger (length a) (length b)) b)

padded_at :
    (k i : ℕ) (a : Shape)
    → get_or (replicate k (pos 1) ++ a) i (pos 0)
      ≡ (if ltb i k then pos 1 else get_or a (i - k) (pos 0))
padded_at zero i a = ground arith
padded_at (suc k) zero a = ground arith
padded_at (suc k) (suc i) a =
    let e : suc i - suc k ≡ i - k = omega arith in rw (padded_at k i a, e) (ground arith)

-- The dimensions from `i` on.
abbrev from : ℕ → Shape → Shape
from zero xs = xs
from (suc i) [] = []
from (suc i) (x ∷ xs) = from i xs

from_step : (i : ℕ) (xs : Shape) → i < length xs → from i xs ≡ get_or xs i (pos 0) ∷ from (suc i) xs
from_step i [] h = absurd (omega arith)
from_step zero (x ∷ xs) h = refl
from_step (suc i) (x ∷ xs) h = from_step i xs (omega arith)

from_end : (i : ℕ) (xs : Shape) → length xs ≤ i → from i xs ≡ []
from_end zero [] h = refl
from_end zero (x ∷ xs) h = absurd (omega arith)
from_end (suc i) [] h = refl
from_end (suc i) (x ∷ xs) h = from_end i xs (omega arith)

module _ (a b : Shape) (r : ℕ) (wide_a : length (padded r a) ≡ r)
    (wide_b : length (padded r b) ≡ r) where
  broadcast_from_lem :
      (left i : ℕ)
      → i + left ≡ r
      → broadcast_from a b r left i ≡ merge_dims (from i (padded r a)) (from i (padded r b))
  unfolding broadcast_from merge_dims
  broadcast_from_lem zero i h = rw (from_end i (padded r a) (omega arith)) refl
  broadcast_from_lem (suc left) i h =
      rw
        (
          from_step i (padded r a) (omega arith),
          from_step i (padded r b) (omega arith),
          padded_at (r - length a) i a,
          padded_at (r - length b) i b,
          broadcast_from_lem left (suc i) (omega arith),
        )
        refl

length-padded : (r : ℕ) (a : Shape) → length a ≤ r → length (padded r a) ≡ r
length-padded r a h = omega (
  arith,
  length-append {0} (replicate (r - length a) (pos 1)) a,
  length-replicate {0} (r - length a) (pos 1),
)

broadcast-padding : (a b : Shape) → broadcast a b ≡ broadcast_by_padding a b
unfolding broadcast
broadcast-padding a b =
    let r = larger (length a) (length b) in
    rw
      (broadcast_from_lem a b r (length-padded r a (ground arith))
        (length-padded r b (ground arith)) r 0 (omega arith))
      refl

merge_dim_comm : (x y : ℤ) → merge_dim x y ≡ merge_dim y x
unfolding merge_dim
merge_dim_comm x y = ground (
  arith,
  Int.eqb_ℤ_iff x y,
  Int.eqb_ℤ_iff y x,
  Int.eqb_ℤ_iff x (pos 1),
  Int.eqb_ℤ_iff y (pos 1),
  Int.eqb_ℤ_iff x dynamic_dim,
  Int.eqb_ℤ_iff y dynamic_dim,
)

merge_dims_comm : (xs ys : Shape) → length xs ≡ length ys → merge_dims xs ys ≡ merge_dims ys xs
unfolding merge_dims
merge_dims_comm [] [] h = refl
merge_dims_comm [] (y ∷ ys) h = absurd (omega arith)
merge_dims_comm (x ∷ xs) [] h = absurd (omega arith)
merge_dims_comm (x ∷ xs) (y ∷ ys) h =
    ap₂ put_dim (merge_dim_comm x y) (merge_dims_comm xs ys (omega arith))

-- Broadcasting: the loop over the aligned dimensions, from the right, computes what padding both
-- shapes with ones on the left to the larger rank and merging them one by one does, up to rank 8, and
-- it does not depend on the order of the operands.
pub broadcast_exact :
    (a b : Shape) → (broadcast a b ≡ broadcast_by_padding a b) × (broadcast a b ≡ broadcast b a)
broadcast_exact a b = (broadcast-padding a b, commutes)
  where
    r : ℕ
    r = larger (length a) (length b)

    same : larger (length b) (length a) ≡ r
    same = ground arith

    commutes : broadcast a b ≡ broadcast b a
    commutes =
        rw
          (
            broadcast-padding a b,
            broadcast-padding b a,
            same,
            merge_dims_comm (padded r a) (padded r b)
                (length-padded r a (ground arith) ∙ sym (length-padded r b (ground arith))),
          )
          refl
