-- ===== src/Core/SparseSet/Valid.antt =====
-- When a sparse set is valid, and what it then contains.
use mlk.Base.{
  ℕ, zero, suc, ◌≤◌, ◌<◌, ◌≡◌, ◌≢◌, refl, sym, ◌∙◌, Bool, true, false, inl, inr, some, ◌==◌, length,
  get_elem?, get_or, replicate, arith, length-replicate, Bool-cases,
}
use mlk.Core.SparseSet.{SparseSet, not_found, reset, sparse_at, contains}

pub record IsValid (s : SparseSet) : Type 0 where
  pub sized : length s.sparse ≡ s.universe
  pub placed : (i v : ℕ) → get_elem? s.dense i ≡ some v → (v < s.universe) × (sparse_at s v ≡ i)
  pub back : (v : ℕ) → sparse_at s v ≢ not_found → get_elem? s.dense (sparse_at s v) ≡ some v
  pub short : length s.dense ≤ not_found

-- What `contains` reads, in a valid set.
pub contains_iff :
    (s : SparseSet) (v : ℕ)
    → IsValid s
    → (contains s v ≡ true → sparse_at s v ≢ not_found)
      × (sparse_at s v ≢ not_found → contains s v ≡ true)
unfolding contains
contains_iff s v h = (λ e f. ground arith, there)
  where
    there : sparse_at s v ≢ not_found → contains s v ≡ true
    there n =
        let stored = h.back v n in
        let (small, _) = h.placed (sparse_at s v) v stored in rw stored (ground arith)

pub contains_not :
    (s : SparseSet) (v : ℕ) → IsValid s → contains s v ≡ false → sparse_at s v ≡ not_found
contains_not s v h e = elim (Bool-cases (sparse_at s v == not_found)) [
  | inl same ↦ ground arith
  | inr differ ↦ cc (e, (contains_iff s v h).1 (λ same. ground arith))
]

pub reset-IsValid : (universe : ℕ) → IsValid (reset universe)
reset-IsValid universe = record {
  sized = length-replicate universe not_found;
  placed = λ i v h. cc;
  back = λ v h. absurd (h (empty universe v));
  short = omega arith;
}
  where
    empty : (n v : ℕ) → get_or (replicate n not_found) v not_found ≡ not_found
    empty zero v = refl
    empty (suc n) zero = refl
    empty (suc n) (suc v) = empty n v

-- What a valid set contains, from where its element stands.
pub contains_by :
    (t : SparseSet) (w : ℕ) (test : Bool)
    → IsValid t
    → (sparse_at t w ≢ not_found → test ≡ true)
    → (sparse_at t w ≡ not_found → test ≡ false)
    → contains t w ≡ test
contains_by t w test ht there absent = elim (Bool-cases (contains t w)) [
  | inl e ↦ e ∙ sym (there ((contains_iff t w ht).0 e))
  | inr e ↦ e ∙ sym (absent (contains_not t w ht e))
]
