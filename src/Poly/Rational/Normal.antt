-- ===== src/Poly/Rational/Normal.antt =====
-- `normalizeLimited` keeps the value, and its result is in lowest terms, with a positive denominator.
use mlk.Base.{
  ℕ, suc, ◌*◌, ◌/◌, ◌≤◌, ◌<◌, ◌∣◌, ◌≡◌, refl, sym, ap, subst, ◌∙◌, false, ◌||◌, arith, inl, inr,
  Bool-cases, if_ind,
}
use mlk.Base.Int
use mlk.Base.Int.{
  ℤ, pos, negsuc, pos_part, neg_part, ◌*ℤ◌, ◌<ℤ◌, int_laws, eqb_ℤ, ltb_ℤ, tdiv, nat_abs, neg64,
  neg_ℤ, int64_max, wrap64_exact,
}
use mlk.Base.Res.{ok, ok_inj}
use mlk.Base.Gcd.{IsGcd, IsGcd-div}
use mlk.Poly.Checked.{magnitude_limit}
use mlk.Poly.Checked.Laws.{IsLimited}
use mlk.Poly.Rational.{
  Rational, abs64, out_of_limit, within_limit, reduce, normalize_limited, from_parts,
}
use mlk.Poly.Rational.Gcd.{rat_gcd-IsGcd, abs64_exact}
use native.Mathlib.Nat

-- The invariant of the engine's rationals.
pub record IsNormal (r : Rational) : Type 0 where
  pub positive : pos 0 <ℤ r.den
  pub lowest : IsGcd 1 (nat_abs r.num) (nat_abs r.den)
  pub num_limited : IsLimited r.num
  pub den_limited : IsLimited r.den

-- The value of a fraction, kept by a result.
abbrev pub SameValue : Rational → ℤ → ℤ → Type 0
SameValue r num den = r.num *ℤ den ≡ num *ℤ r.den

within_limit_exact :
    (num den : ℤ) {r : Rational}
    → pos 0 <ℤ den
    → within_limit num den ≡ ok r
    → (record { num = num; den = den } ≡ r) × IsLimited num × IsLimited den
unfolding within_limit
within_limit_exact num den {r} p =
    if_ind (λ m. m ≡ ok r → (record { num = num; den = den } ≡ r) × IsLimited num × IsLimited den)
      (out_of_limit num || ltb_ℤ magnitude_limit den) (λ _ e. cc)
      (λ f e. (ok_inj e, (ground arith, ground arith), (ground arith, ground arith)))

pub minus_quotient : (k : ℕ) → Int.sub_ℕ 0 k ≡ neg_ℤ (pos k)
unfolding neg_ℤ
minus_quotient k = ground arith

pub tdiv_cancel : (a : ℤ) (g : ℕ) → g ∣ nat_abs a → tdiv a (pos g) *ℤ pos g ≡ a
unfolding tdiv
tdiv_cancel (pos n) g h =
    omega
      (int_laws, Int.*ℤ_parts (pos (n / g)) (pos g), Nat.div-mul_cancel g (rw Nat.add-zero at h))
tdiv_cancel (negsuc n) g h =
    rw (minus_quotient (suc n / g), Int.neg_ℤ-*ℤ (pos (suc n / g)) (pos g))
      (omega (
        int_laws,
        Int.*ℤ_parts (pos (suc n / g)) (pos g),
        Nat.div-mul_cancel g (rw Nat.zero-add at h),
      ))

tdiv_abs : (a : ℤ) (g : ℕ) → nat_abs (tdiv a (pos g)) ≡ nat_abs a / g
unfolding tdiv
tdiv_abs (pos n) g = ground arith
tdiv_abs (negsuc n) g = ground arith

-- Dividing both parts by a divisor keeps the value.
quotient_value :
    (num den : ℤ) (g : ℕ)
    → g ∣ nat_abs num
    → g ∣ nat_abs den
    → tdiv num (pos g) *ℤ den ≡ num *ℤ tdiv den (pos g)
quotient_value num den g hn hd =
    let n = tdiv num (pos g) in
    let d = tdiv den (pos g) in
    ap (◌*ℤ◌ n) (sym (tdiv_cancel den g hd) ∙ Int.*ℤ_comm d (pos g))
    ∙ sym (Int.*ℤ_assoc n (pos g) d)
    ∙ ap (λ t. t *ℤ d) (tdiv_cancel num g hn)

tdiv_positive : (a : ℤ) (g : ℕ) → pos 0 <ℤ a → 0 < g → g ∣ nat_abs a → pos 0 <ℤ tdiv a (pos g)
unfolding tdiv
tdiv_positive (negsuc n) g ha hg h = absurd (omega arith)
tdiv_positive (pos n) g ha hg h = elim (Nat.eq-zero-or-pos (n / g)) [
  | inl z ↦
      absurd
        (omega (arith, ha, subst (λ t. t * g ≡ n) z (Nat.div-mul_cancel g (rw Nat.add-zero at h))))
  | inr p ↦ omega (arith, p)
]

module _ (num den : ℤ) (hn : nat_abs num ≤ int64_max) (hd : nat_abs den ≤ int64_max)
    (p : pos 0 <ℤ den) where
  -- The two branches of the reduction, for the divisor that was found.
  divided :
      (g : ℕ) {r : Rational}
      → 0 < g
      → IsGcd g (nat_abs num) (nat_abs den)
      → within_limit (tdiv num (pos g)) (tdiv den (pos g)) ≡ ok r
      → SameValue r num den × IsNormal r
  divided g {r} hg d e =
      let pd = tdiv_positive den g p hg d.right in
      let (same, ln, ld) = within_limit_exact (tdiv num (pos g)) (tdiv den (pos g)) pd e in
      subst (λ t. SameValue t num den × IsNormal t) same
        (
          quotient_value num den g d.left d.right,
          record {
            positive = pd;
            lowest =
                rw (tdiv_abs num g, tdiv_abs den g) (IsGcd-div g (nat_abs num) (nat_abs den) hg d);
            num_limited = ln;
            den_limited = ld;
          },
        )

  undivided :
      (g : ℕ) {r : Rational}
      → g ≡ 1
      → IsGcd g (nat_abs num) (nat_abs den)
      → within_limit num den ≡ ok r
      → SameValue r num den × IsNormal r
  undivided g e1 d e =
      let (same, ln, ld) = within_limit_exact num den p e in
      subst (λ t. SameValue t num den × IsNormal t) same
        (
          refl,
          record {
            positive = p;
            lowest = subst (λ t. IsGcd t (nat_abs num) (nat_abs den)) e1 d;
            num_limited = ln;
            den_limited = ld;
          },
        )

  pub reduce_exact : {r : Rational} → reduce num den ≡ ok r → SameValue r num den × IsNormal r
  unfolding reduce
  reduce_exact {r} e =
      let same : nat_abs (abs64 num) ≡ nat_abs num =
        ap nat_abs (abs64_exact num hn) ∙ omega arith in
      let (g, eg, d, _) = rat_gcd-IsGcd (abs64 num) den (omega (arith, same)) hd in
      let d' = subst (λ t. IsGcd g t (nat_abs den)) same d in
      let g_pos = Nat.pos_of_dvd_of_pos d.right (omega arith) in
      if_ind (λ m. m ≡ ok r → SameValue r num den × IsNormal r) (ltb_ℤ (pos 1) (pos g))
        (λ _ e'. divided g g_pos d' e') (λ f e'. undivided g (ground arith) d' e')
        (rw (eg, reduce) at e)

-- Normalization keeps the value of a fraction whose parts are in the range of int64_t, its lower end
-- left out, and whose denominator is not 0: the result has a positive denominator, is in lowest
-- terms, and stays within the magnitude limit.
pub normalize_limited_exact :
    (num den : ℤ) {r : Rational}
    → nat_abs num ≤ int64_max
    → nat_abs den ≤ int64_max
    → ¬ (den ≡ pos 0)
    → normalize_limited num den ≡ ok r
    → SameValue r num den × IsNormal r
unfolding normalize_limited
normalize_limited_exact num den {r} hn hd nz =
    if_ind (λ m. m ≡ ok r → SameValue r num den × IsNormal r) (ltb_ℤ den (pos 0))
      (λ low e.
        let en = wrap64_exact (neg_ℤ num) (omega (arith, Int.neg_ℤ_abs num)) in
        let ed = wrap64_exact (neg_ℤ den) (omega (arith, Int.neg_ℤ_abs den)) in
        let (v, n) =
          reduce_exact (neg_ℤ num) (neg_ℤ den) (omega (arith, Int.neg_ℤ_abs num))
            (omega (arith, Int.neg_ℤ_abs den)) (ground (arith, Int.neg_ℤ_abs den))
            (rw (en, ed) at e) in
        (negated r v, n))
      (λ high e. reduce_exact num den hn hd (ground (arith, not_zero nz)) e)
  where
    not_zero : ¬ (den ≡ pos 0) → eqb_ℤ den (pos 0) ≡ false
    not_zero h = elim (Bool-cases (eqb_ℤ den (pos 0))) [
      | inl t ↦ absurd (h ((Int.eqb_ℤ_iff den (pos 0)).0 t))
      | inr f ↦ f
    ]

    negated : (r : Rational) → SameValue r (neg_ℤ num) (neg_ℤ den) → SameValue r num den
    negated r v = omega (
      int_laws,
      v,
      Int.*ℤ_comm r.num (neg_ℤ den),
      Int.neg_ℤ-*ℤ den r.num,
      Int.*ℤ_comm den r.num,
      Int.neg_ℤ-*ℤ num r.den,
    )

-- `fromParts` rejects a zero denominator, and where it succeeds, its result is normal and has the
-- value of the fraction.
pub from_parts_exact :
    (n d : ℤ) {r : Rational} → from_parts n d ≡ ok r → ¬ (d ≡ pos 0) × SameValue r n d × IsNormal r
unfolding from_parts
from_parts_exact n d {r} e =
    if_ind (λ m. m ≡ ok r → ¬ (d ≡ pos 0) × SameValue r n d × IsNormal r) (eqb_ℤ d (pos 0))
      (λ _ e'. cc)
      (λ nz.
        if_ind (λ m. m ≡ ok r → ¬ (d ≡ pos 0) × SameValue r n d × IsNormal r)
          (out_of_limit n || out_of_limit d) (λ _ e'. cc)
          (λ fits e'.
            let nonzero : ¬ (d ≡ pos 0) = λ h. cc (nz, (Int.eqb_ℤ_iff d (pos 0)).1 h) in
            let (value, normal) =
              normalize_limited_exact n d (limited_abs n (ground arith))
                (limited_abs d (ground arith)) nonzero e' in
            (nonzero, value, normal)))
      e
  where
    limited_abs : (a : ℤ) → out_of_limit a ≡ false → nat_abs a ≤ int64_max
    limited_abs a h = ground arith
