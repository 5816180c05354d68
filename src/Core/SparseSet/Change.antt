-- ===== src/Core/SparseSet/Change.antt =====
-- The sparse set after an element is added, and after one is taken out.
use mlk.Base.{
  ℕ, suc, ◌-◌, ◌<◌, ◌≡◌, ◌≢◌, refl, ap, ◌∙◌, false, inl, inr, none, some, [], ◌∷◌, ◌++◌,
  if◌then◌else◌, ◌==◌, ltb, length, get_elem?, set, arith, length-append, length-set,
  get_elem?-append_left, get_elem?-append_last, get_elem?-append-cases, get_elem?_in, Bool-cases,
}
use mlk.Core.SparseSet.{SparseSet, not_found, sparse_at, last_of, pop_back}
use mlk.Core.SparseSet.Arrays.{
  get_or-set, get_elem?-set, get_elem?-pop_back, length-pop_back, last_of_lem,
}
use mlk.Core.SparseSet.Valid.{IsValid}

-- The set after an insertion and after a removal.
abbrev pub grown : SparseSet → ℕ → SparseSet
grown s v = record s { dense = s.dense ++ v ∷ []; sparse = set s.sparse v (length s.dense) }

abbrev pub shrunk : SparseSet → ℕ → SparseSet
shrunk s v = record s {
  dense = pop_back (set s.dense (sparse_at s v) (last_of s.dense));
  sparse = set (set s.sparse (last_of s.dense) (sparse_at s v)) v not_found;
}

module _ (s : SparseSet) (v : ℕ) (valid : IsValid s) where
  module _ (inside : v < s.universe) (room : length s.dense < not_found)
      (absent : sparse_at s v ≡ not_found) where
    pub grown_at :
        (w : ℕ) → sparse_at (grown s v) w ≡ (if v == w then length s.dense else sparse_at s w)
    grown_at w = get_or-set s.sparse v w (length s.dense) not_found (omega (arith, valid.sized))

    pub grown-IsValid : IsValid (grown s v)
    grown-IsValid = record {
      sized = length-set s.sparse v (length s.dense) ∙ valid.sized;
      placed = λ i w h. elim (get_elem?-append-cases s.dense v i h) [
        | inl old ↦
            let (small, at) = valid.placed i w old in
            let ne : i < length s.dense = get_elem?_in s.dense i old in
            (small, ground (arith, grown_at w, at, absent))
        | inr (e, same) ↦ (ground arith, ground (arith, grown_at w))
      ];
      back = λ w n. elim (Bool-cases (v == w)) [
        | inl same ↦
            let at : sparse_at (grown s v) w ≡ length s.dense = ground (arith, grown_at w) in
            rw at (get_elem?-append_last s.dense v ∙ ap some (ground arith))
        | inr differ ↦
            let at : sparse_at (grown s v) w ≡ sparse_at s w = ground (arith, grown_at w) in
            rw at (
              get_elem?-append_left s.dense (v ∷ []) (sparse_at s w)
                (valid.back w (λ e. n (at ∙ e))))
      ];
      short = omega (arith, length-append {0} s.dense (v ∷ []));
    }

  module _ (stored : sparse_at s v ≢ not_found) where
    abbrev idx : ℕ
    idx = sparse_at s v

    abbrev final : ℕ
    final = last_of s.dense

    at_idx : get_elem? s.dense idx ≡ some v
    at_idx = valid.back v stored

    pub idx_in : idx < length s.dense
    idx_in = get_elem?_in s.dense idx at_idx

    at_end : get_elem? s.dense (length s.dense - 1) ≡ some final
    at_end = last_of_lem s.dense (omega (arith, idx_in))

    pub final_placed : (final < s.universe) × (sparse_at s final ≡ length s.dense - 1)
    final_placed = valid.placed (length s.dense - 1) final at_end

    pub shrunk_at :
        (w : ℕ)
        → sparse_at (shrunk s v) w
          ≡ (if v == w then not_found else if final == w then idx else sparse_at s w)
    shrunk_at w =
        let v_in : v < length s.sparse =
          omega (arith, valid.sized, (valid.placed idx v at_idx).0) in
        rw
          (
            get_or-set (set s.sparse final idx) v w not_found not_found
                (rw (length-set s.sparse final idx) v_in),
            get_or-set s.sparse final w idx not_found (omega (arith, valid.sized, final_placed.0)),
          )
          refl

    dense_at :
        (i : ℕ)
        → get_elem? (shrunk s v).dense i ≡ (
            if ltb (suc i) (length s.dense)
            then if idx == i then some final else get_elem? s.dense i
            else none)
    dense_at i =
        rw
          (
            get_elem?-pop_back (set s.dense idx final) i,
            length-set s.dense idx final,
            get_elem?-set s.dense idx i final idx_in,
          )
          refl

    pub shrunk-IsValid : IsValid (shrunk s v)
    shrunk-IsValid = record {
      sized =
          length-set (set s.sparse final idx) v not_found
          ∙ length-set s.sparse final idx
          ∙ valid.sized;
      placed = placed;
      back = λ w n. back w n;
      short = omega (
        arith,
        valid.short,
        length-pop_back (set s.dense idx final),
        length-set {0} s.dense idx final,
      );
    }
      where
        placed :
            (i w : ℕ)
            → get_elem? (shrunk s v).dense i ≡ some w
            → (w < s.universe) × (sparse_at (shrunk s v) w ≡ i)
        placed i w h = elim (Bool-cases (idx == i)) [
          | inl same ↦
              let (le, e) : (suc i < length s.dense) × (final ≡ w) = ground (arith, dense_at i) in
              ground (arith, shrunk_at w, final_placed, valid.placed idx v at_idx)
          | inr differ ↦
              let (le, e) : (suc i < length s.dense) × (get_elem? s.dense i ≡ some w) =
                ground (arith, dense_at i) in
              ground
                (arith, shrunk_at w, final_placed, valid.placed i w e, valid.placed idx v at_idx)
        ]

        back :
            (w : ℕ)
            → sparse_at (shrunk s v) w ≢ not_found
            → get_elem? (shrunk s v).dense (sparse_at (shrunk s v) w) ≡ some w
        back w n = elim (Bool-cases (v == w)) [
          | inl self ↦ absurd (n (ground (arith, shrunk_at w)))
          | inr other ↦ elim (Bool-cases (final == w)) [
            | inl same ↦
                let at : sparse_at (shrunk s v) w ≡ idx = ground (arith, shrunk_at w) in
                let inner : suc idx < length s.dense = ground (arith, at_end, at_idx, idx_in) in
                rw (at, dense_at idx) (ground arith)
            | inr differ ↦
                let at : sparse_at (shrunk s v) w ≡ sparse_at s w = ground (arith, shrunk_at w) in
                let e : get_elem? s.dense (sparse_at s w) ≡ some w =
                  valid.back w (λ z. n (at ∙ z)) in
                let within = get_elem?_in s.dense (sparse_at s w) e in
                let inner : suc (sparse_at s w) < length s.dense =
                  ground (arith, at_end, e, within) in
                let apart : (idx == sparse_at s w) ≡ false = ground (arith, at_idx, e) in
                rw (at, dense_at (sparse_at s w), apart) (ground arith)
          ]
        ]
