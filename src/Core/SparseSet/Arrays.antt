-- ===== src/Core/SparseSet/Arrays.antt =====
-- Writes into the arrays of the sparse set.
use mlk.Base.{
  ℕ, zero, suc, ◌-◌, ◌<◌, ◌≡◌, ◌≢◌, refl, none, some, List, [], ◌∷◌, if◌then◌else◌, ◌==◌, ltb,
  length, get_elem?, get_or, set, arith,
}
use mlk.Core.SparseSet.{last_of, pop_back}

pub get_or-set :
    (xs : List ℕ) (i j v d : ℕ)
    → i < length xs
    → get_or (set xs i v) j d ≡ (if i == j then v else get_or xs j d)
get_or-set [] i j v d h = absurd (omega arith)
get_or-set (x ∷ xs) zero zero v d h = ground arith
get_or-set (x ∷ xs) zero (suc j) v d h = ground arith
get_or-set (x ∷ xs) (suc i) zero v d h = ground arith
get_or-set (x ∷ xs) (suc i) (suc j) v d h = rw (get_or-set xs i j v d (omega arith)) (ground arith)

pub get_or_in : (xs : List ℕ) (i d : ℕ) → get_or xs i d ≢ d → i < length xs
get_or_in [] i d h = absurd (h refl)
get_or_in (x ∷ xs) zero d h = omega arith
get_or_in (x ∷ xs) (suc i) d h = omega (arith, get_or_in xs i d h)

pub get_elem?-set :
    (xs : List ℕ) (i j v : ℕ)
    → i < length xs
    → get_elem? (set xs i v) j ≡ (if i == j then some v else get_elem? xs j)
get_elem?-set [] i j v h = absurd (omega arith)
get_elem?-set (x ∷ xs) zero zero v h = ground arith
get_elem?-set (x ∷ xs) zero (suc j) v h = ground arith
get_elem?-set (x ∷ xs) (suc i) zero v h = ground arith
get_elem?-set (x ∷ xs) (suc i) (suc j) v h =
    rw (get_elem?-set xs i j v (omega arith)) (ground arith)

pub get_elem?-pop_back :
    (xs : List ℕ) (i : ℕ)
    → get_elem? (pop_back xs) i ≡ (if ltb (suc i) (length xs) then get_elem? xs i else none)
get_elem?-pop_back [] i = ground arith
get_elem?-pop_back (x ∷ []) zero = ground arith
get_elem?-pop_back (x ∷ []) (suc i) = ground arith
get_elem?-pop_back (x ∷ y ∷ xs) zero = ground arith
get_elem?-pop_back (x ∷ y ∷ xs) (suc i) = rw (get_elem?-pop_back (y ∷ xs) i) (ground arith)

pub length-pop_back : (xs : List ℕ) → length (pop_back xs) ≡ length xs - 1
length-pop_back [] = refl
length-pop_back (x ∷ []) = refl
length-pop_back (x ∷ y ∷ xs) = omega (arith, length-pop_back (y ∷ xs))

pub last_of_lem : (xs : List ℕ) → 0 < length xs → get_elem? xs (length xs - 1) ≡ some (last_of xs)
last_of_lem xs h = at xs (length xs - 1) (omega arith)
  where
    at : (ys : List ℕ) (i : ℕ) → i < length ys → get_elem? ys i ≡ some (get_or ys i 0)
    at [] i l = absurd (omega arith)
    at (y ∷ ys) zero l = refl
    at (y ∷ ys) (suc i) l = at ys i (omega arith)
