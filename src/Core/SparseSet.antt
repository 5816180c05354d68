-- ===== src/Core/SparseSet.antt =====
-- compiler/include/mlk/core/sparse_set.h: a set of small numbers with constant-time operations.
pub mod Arrays
pub mod Valid
pub mod Change
pub mod Laws
use mlk.Base.{
  ℕ, zero, suc, ◌-◌, ◌^◌, Bool, true, false, not, ◌&&◌, Option, none, some, List, [], ◌∷◌, ◌++◌,
  if◌then◌else◌, ◌==◌, ltb, length, get_elem?, get_or, set, replicate,
}

-- kNotFound
abbrev pub not_found : ℕ
not_found = 2 ^ 32 - 1

pub record SparseSet : Type 0 where
  pub universe : ℕ
  pub dense : List ℕ
  pub sparse : List ℕ

-- The constructor and `reset`.
abbrev pub reset : ℕ → SparseSet
reset universe = record { universe = universe; dense = []; sparse = replicate universe not_found }

abbrev pub sparse_at : SparseSet → ℕ → ℕ
sparse_at s v = get_or s.sparse v not_found

abbrev pub holds_at : Option ℕ → ℕ → Bool
holds_at none v = false
holds_at (some w) v = w == v

unfoldable pub contains : SparseSet → ℕ → Bool
contains s v =
    ltb v s.universe
    && not (sparse_at s v == not_found)
    && holds_at (get_elem? s.dense (sparse_at s v)) v

-- A write out of the universe, which the source makes out of bounds, changes nothing.
unfoldable pub insert : SparseSet → ℕ → SparseSet
insert s v =
    if contains s v
    then s
    else record s { dense = s.dense ++ v ∷ []; sparse = set s.sparse v (length s.dense) }

abbrev pub last_of : List ℕ → ℕ
last_of xs = get_or xs (length xs - 1) 0

abbrev pub pop_back : List ℕ → List ℕ
pop_back [] = []
pop_back (x ∷ []) = []
pop_back (x ∷ y ∷ xs) = x ∷ pop_back (y ∷ xs)

unfoldable pub remove : SparseSet → ℕ → SparseSet
remove s v =
    if contains s v
    then record s {
      dense = pop_back (set s.dense (sparse_at s v) (last_of s.dense));
      sparse = set (set s.sparse (last_of s.dense) (sparse_at s v)) v not_found;
    }
    else s

abbrev pub forget_all : List ℕ → List ℕ → List ℕ
forget_all [] sparse = sparse
forget_all (v ∷ vs) sparse = forget_all vs (set sparse v not_found)

unfoldable pub clear : SparseSet → SparseSet
clear s = record s { dense = []; sparse = forget_all s.dense s.sparse }
