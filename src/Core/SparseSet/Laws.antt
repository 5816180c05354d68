-- ===== src/Core/SparseSet/Laws.antt =====
-- The sparse set is a set: its operations keep its two arrays inverse to one another, and change what
-- it contains by one element.
use mlk.Base.{
  ℕ, zero, suc, ◌-◌, ◌<◌, ◌≡◌, ◌≢◌, refl, ap, ◌∙◌, ◌⊎◌, true, false, not, ◌&&◌, ◌||◌, inl, inr,
  some, List, [], ◌∷◌, if◌then◌else◌, ◌==◌, length, get_elem?, get_or, set, arith, length-set,
  Bool-cases,
}
use mlk.Core.SparseSet.{
  SparseSet, not_found, sparse_at, contains, insert, remove, forget_all, clear,
}
use mlk.Core.SparseSet.Arrays.{get_or-set}
use mlk.Core.SparseSet.Valid.{IsValid, contains_iff, contains_not, contains_by}
use mlk.Core.SparseSet.Change.{
  grown, shrunk, grown_at, grown-IsValid, idx_in, final_placed, shrunk_at, shrunk-IsValid,
}

forget_all_at :
    (vs sparse : List ℕ) (w : ℕ)
    → ((i v : ℕ) → get_elem? vs i ≡ some v → v < length sparse)
    → (get_or sparse w not_found ≡ not_found) ⊎ ((i : ℕ) × (get_elem? vs i ≡ some w))
    → get_or (forget_all vs sparse) w not_found ≡ not_found
forget_all_at [] sparse w h (inl e) = e
forget_all_at [] sparse w h (inr (i, e)) = cc
forget_all_at (v ∷ vs) sparse w h which =
    let v_in : v < length sparse = h 0 v refl in
    let at = get_or-set sparse v w not_found not_found v_in in
    forget_all_at vs (set sparse v not_found) w
      (λ i u e. rw (length-set sparse v not_found) (h (suc i) u e)) (step at which)
  where
    step :
        get_or (set sparse v not_found) w not_found
          ≡ (if v == w then not_found else get_or sparse w not_found)
        → (get_or sparse w not_found ≡ not_found) ⊎ ((i : ℕ) × (get_elem? (v ∷ vs) i ≡ some w))
        → (get_or (set sparse v not_found) w not_found ≡ not_found)
          ⊎ ((i : ℕ) × (get_elem? vs i ≡ some w))
    step at (inl e) = inl (ground arith)
    step at (inr (zero, e)) = inl (ground arith)
    step at (inr (suc i, e)) = inr (i, e)

length-forget_all : (vs sparse : List ℕ) → length (forget_all vs sparse) ≡ length sparse
length-forget_all [] sparse = refl
length-forget_all (v ∷ vs) sparse =
    length-forget_all vs (set sparse v not_found) ∙ length-set sparse v not_found

-- Clearing leaves no entry.
clear_at : (s : SparseSet) (w : ℕ) → IsValid s → sparse_at (clear s) w ≡ not_found
unfolding clear
clear_at s w valid =
    forget_all_at s.dense s.sparse w (λ i v e. omega (arith, valid.sized, (valid.placed i v e).0))
      (elim (Bool-cases (sparse_at s w == not_found)) [
        | inl e ↦ inl (ground arith)
        | inr e ↦ inr (sparse_at s w, valid.back w (λ z. ground arith))
      ])

clear-IsValid : (s : SparseSet) → IsValid s → IsValid (clear s)
unfolding clear
clear-IsValid s valid = record {
  sized = length-forget_all s.dense s.sparse ∙ valid.sized;
  placed = λ i v e. cc;
  back = λ v n. absurd (n (clear_at s v valid));
  short = omega arith;
}

-- What the operations do to what the set contains.
pub record Updates (s : SparseSet) (v : ℕ) : Type 0 where
  pub insert_valid : IsValid (insert s v)
  pub insert_contains : (w : ℕ) → contains (insert s v) w ≡ (v == w || contains s w)
  pub remove_valid : IsValid (remove s v)
  pub remove_contains : (w : ℕ) → contains (remove s v) w ≡ (not (v == w) && contains s w)
  pub clear_valid : IsValid (clear s)
  pub clear_contains : (w : ℕ) → contains (clear s) w ≡ false

module _ (s : SparseSet) (v : ℕ) (valid : IsValid s) (inside : v < s.universe)
    (room : length s.dense < not_found) where
  same_contains : (w : ℕ) → (v == w) ≡ true → contains s w ≡ contains s v
  same_contains w e = ap (contains s) (ground arith)

  contains-grown :
      (absent : contains s v ≡ false) (w : ℕ) → contains (grown s v) w ≡ (v == w || contains s w)
  contains-grown absent w =
      let none_at = contains_not s v valid absent in
      let new_valid = grown-IsValid s v valid inside room none_at in
      let at = grown_at s v valid inside room none_at w in
      contains_by (grown s v) w (v == w || contains s w) new_valid
        (λ n. elim (Bool-cases (v == w)) [
          | inl e ↦ rw e refl
          | inr e ↦ rw (e, (contains_iff s w valid).1 (λ z. n (rw (at, e) z))) refl
        ])
        (λ z. elim (Bool-cases (v == w)) [
          | inl e ↦ ground (arith, at)
          | inr e ↦ elim (Bool-cases (contains s w)) [
            | inl c ↦ absurd ((contains_iff s w valid).0 c (rw (at, e) at z))
            | inr c ↦ rw (e, c) refl
          ]
        ])

  contains-shrunk :
      (stored : contains s v ≡ true) (w : ℕ)
      → contains (shrunk s v) w ≡ (not (v == w) && contains s w)
  contains-shrunk stored w =
      let n = (contains_iff s v valid).0 stored in
      let at = shrunk_at s v valid n w in
      contains_by (shrunk s v) w (not (v == w) && contains s w) (shrunk-IsValid s v valid n)
        (λ m. elim (Bool-cases (v == w)) [
          | inl e ↦ absurd (m (rw (at, e) refl))
          | inr e ↦ rw (e, (contains_iff s w valid).1 (λ z. m (missing e z))) refl
        ])
        (λ z. elim (Bool-cases (v == w)) [
          | inl e ↦ rw e refl
          | inr e ↦ elim (Bool-cases (contains s w)) [
            | inl c ↦ absurd (missing_not e c z)
            | inr c ↦ rw (e, c) refl
          ]
        ])
    where
      missing : (v == w) ≡ false → sparse_at s w ≡ not_found → sparse_at (shrunk s v) w ≡ not_found
      missing e z =
          let n = (contains_iff s v valid).0 stored in
          let (_, last_at) = final_placed s v valid n in
          let short : length s.dense - 1 < not_found =
            omega (arith, valid.short, idx_in s v valid n) in
          ground (arith, shrunk_at s v valid n w, last_at)

      missing_not : (v == w) ≡ false → contains s w ≡ true → sparse_at (shrunk s v) w ≢ not_found
      missing_not e c z =
          let n = (contains_iff s v valid).0 stored in
          let m = (contains_iff s w valid).0 c in
          let short : sparse_at s v < not_found = omega (arith, valid.short, idx_in s v valid n) in
          m (ground (arith, shrunk_at s v valid n w))

  nothing_left : (w : ℕ) → contains (clear s) w ≡ false
  nothing_left w =
      contains_by (clear s) w false (clear-IsValid s valid) (λ n. absurd (n (clear_at s w valid)))
        (λ _. refl)

  -- The sparse set is a set: in a valid sparse set with room, for an element of its universe,
  -- `insert` and `remove` keep it valid, with its two arrays inverse to one another, and `contains`
  -- answers as it does in the set with the element added, and taken away; `clear` leaves
  -- it valid and empty.
  pub insert_remove_correct : Updates s v
  unfolding insert remove
  insert_remove_correct = elim (Bool-cases (contains s v)) [
    | inl c ↦ record {
      insert_valid = rw c valid;
      insert_contains = λ w.
          rw c (elim (Bool-cases (v == w)) [
            | inl e ↦ rw e (same_contains w e ∙ c)
            | inr e ↦ rw e refl
          ]);
      remove_valid = rw c (shrunk-IsValid s v valid ((contains_iff s v valid).0 c));
      remove_contains = λ w. rw c (contains-shrunk c w);
      clear_valid = clear-IsValid s valid;
      clear_contains = nothing_left;
    }
    | inr c ↦ record {
      insert_valid = rw c (grown-IsValid s v valid inside room (contains_not s v valid c));
      insert_contains = λ w. rw c (contains-grown c w);
      remove_valid = rw c valid;
      remove_contains = λ w.
          rw c (elim (Bool-cases (v == w)) [
            | inl e ↦ rw e (same_contains w e ∙ c)
            | inr e ↦ rw e refl
          ]);
      clear_valid = clear-IsValid s valid;
      clear_contains = nothing_left;
    }
  ]
