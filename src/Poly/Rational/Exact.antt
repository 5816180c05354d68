-- ===== src/Poly/Rational/Exact.antt =====
-- Arithmetic on normal rationals is exact: no intermediate value overflows, and the result has the
-- value of the sum, difference, product or quotient.
use mlk.Base.{◌≤◌, ◌<◌, ◌^◌, ◌≡◌, refl, ap, true, false, arith, inl, inr, Bool-cases}
use mlk.Base.Int
use mlk.Base.Int.{
  ℤ, pos, negsuc, pos_part, neg_part, nat_abs, ◌+ℤ◌, ◌-ℤ◌, ◌*ℤ◌, ◌<ℤ◌, eqb_ℤ, InInt64, int_laws,
  nat_abs-*ℤ, nat_abs-+ℤ-le, nat_abs-InInt64,
}
use mlk.Base.Res.{ok, err, invalid_argument}
use mlk.Poly.Checked.{mul}
use mlk.Poly.Checked.Laws.{IsLimited, add_total, sub_total, mul_total}
use mlk.Poly.Rational.{
  Rational, is_zero, checked, normalize_limited, rat_add, rat_sub, rat_mul, rat_div,
}
use mlk.Poly.Rational.Normal.{IsNormal, SameValue, normalize_limited_exact}
use native.Mathlib.Nat

pub product_bound : (a b : ℤ) → IsLimited a → IsLimited b → nat_abs (a *ℤ b) ≤ 2 ^ 60
product_bound a b ha hb =
    let bound : (x : ℤ) → IsLimited x → nat_abs x ≤ 2 ^ 30 = λ x h. abs_bound x h in
    omega (arith, nat_abs-*ℤ a b, Nat.mul-le-mul (bound a ha) (bound b hb))
  where
    abs_bound : (x : ℤ) → IsLimited x → nat_abs x ≤ 2 ^ 30
    abs_bound (pos n) h = omega arith
    abs_bound (negsuc n) h = omega arith

-- So the checked product is the product.
pub mul_limited_parts : (a b : ℤ) → IsLimited a → IsLimited b → checked (mul a b) ≡ ok (a *ℤ b)
mul_limited_parts a b ha hb =
    let m = mul_total a b (nat_abs-InInt64 (a *ℤ b) (omega (arith, product_bound a b ha hb))) in
    rw m refl

product_nonzero : (a b : ℤ) → pos 0 <ℤ a → ¬ (b ≡ pos 0) → ¬ (a *ℤ b ≡ pos 0)
product_nonzero a b ha hb e = elim (Nat.eq-zero-or-pos (nat_abs b)) [
  | inl z ↦ hb (omega (int_laws, z))
  | inr p ↦
      let both = nat_abs-*ℤ a b in
      let zero_abs : nat_abs (a *ℤ b) ≡ 0 = ap nat_abs e in
      absurd (omega (arith, both, zero_abs, Nat.mul-pos (abs_pos a ha) p))
]
  where
    abs_pos : (x : ℤ) → pos 0 <ℤ x → 0 < nat_abs x
    abs_pos x h = omega arith

module _ (a b : Rational) (na : IsNormal a) (nb : IsNormal b) where
  -- The products that the operations form stay far within int64_t.
  left_bound : nat_abs (a.num *ℤ b.den) ≤ 2 ^ 60
  left_bound = product_bound a.num b.den na.num_limited nb.den_limited

  right_bound : nat_abs (b.num *ℤ a.den) ≤ 2 ^ 60
  right_bound = product_bound b.num a.den nb.num_limited na.den_limited

  dens_bound : nat_abs (a.den *ℤ b.den) ≤ 2 ^ 60
  dens_bound = product_bound a.den b.den na.den_limited nb.den_limited

  dens_nonzero : ¬ (a.den *ℤ b.den ≡ pos 0)
  dens_nonzero = product_nonzero a.den b.den na.positive (λ e. absurd (den_positive e nb.positive))
    where
      den_positive : b.den ≡ pos 0 → pos 0 <ℤ b.den → ⊥
      den_positive e p = omega (int_laws, e, p)

  add_normalized :
      rat_add a b ≡ normalize_limited (a.num *ℤ b.den +ℤ b.num *ℤ a.den) (a.den *ℤ b.den)
  unfolding rat_add
  add_normalized =
      let sum = add_total (a.num *ℤ b.den) (b.num *ℤ a.den) (
        nat_abs-InInt64 (a.num *ℤ b.den +ℤ b.num *ℤ a.den) (
          omega
            (arith, nat_abs-+ℤ-le (a.num *ℤ b.den) (b.num *ℤ a.den), left_bound, right_bound))) in
      rw
        (
          mul_limited_parts a.num b.den na.num_limited nb.den_limited,
          mul_limited_parts b.num a.den nb.num_limited na.den_limited,
          sum,
          mul_limited_parts a.den b.den na.den_limited nb.den_limited,
        )
        refl

  sub_normalized :
      rat_sub a b ≡ normalize_limited (a.num *ℤ b.den -ℤ b.num *ℤ a.den) (a.den *ℤ b.den)
  unfolding rat_sub
  sub_normalized =
      let difference = sub_total (a.num *ℤ b.den) (b.num *ℤ a.den) (
        nat_abs-InInt64 (a.num *ℤ b.den -ℤ b.num *ℤ a.den) (
          omega (
            arith,
            Int.nat_abs--ℤ-le (a.num *ℤ b.den) (b.num *ℤ a.den),
            left_bound,
            right_bound,
          ))) in
      rw
        (
          mul_limited_parts a.num b.den na.num_limited nb.den_limited,
          mul_limited_parts b.num a.den nb.num_limited na.den_limited,
          difference,
          mul_limited_parts a.den b.den na.den_limited nb.den_limited,
        )
        refl

  mul_normalized : rat_mul a b ≡ normalize_limited (a.num *ℤ b.num) (a.den *ℤ b.den)
  unfolding rat_mul
  mul_normalized =
      rw
        (
          mul_limited_parts a.num b.num na.num_limited nb.num_limited,
          mul_limited_parts a.den b.den na.den_limited nb.den_limited,
        )
        refl

  div_by_zero : is_zero b ≡ true → rat_div a b ≡ err invalid_argument
  unfolding rat_div
  div_by_zero z = rw z refl

  div_normalized :
      is_zero b ≡ false → rat_div a b ≡ normalize_limited (a.num *ℤ b.den) (a.den *ℤ b.num)
  unfolding rat_div
  div_normalized nz =
      rw
        (
          nz,
          mul_limited_parts a.num b.den na.num_limited nb.den_limited,
          mul_limited_parts a.den b.num na.den_limited nb.num_limited,
        )
        refl

-- A sum of normal rationals is exact: where `ratAdd` succeeds, its result is normal and has the value
-- of the sum.
pub rat_add_exact :
    (a b : Rational) {r : Rational}
    → IsNormal a
    → IsNormal b
    → rat_add a b ≡ ok r
    → SameValue r (a.num *ℤ b.den +ℤ b.num *ℤ a.den) (a.den *ℤ b.den) × IsNormal r
rat_add_exact a b na nb e =
    normalize_limited_exact (a.num *ℤ b.den +ℤ b.num *ℤ a.den) (a.den *ℤ b.den)
      (omega (
        arith,
        nat_abs-+ℤ-le (a.num *ℤ b.den) (b.num *ℤ a.den),
        left_bound a b na nb,
        right_bound a b na nb,
      ))
      (omega (arith, dens_bound a b na nb)) (dens_nonzero a b na nb)
      (rw (add_normalized a b na nb) at e)

-- A difference of normal rationals is exact: where `ratSub` succeeds, its result is normal and has
-- the value of the difference.
pub rat_sub_exact :
    (a b : Rational) {r : Rational}
    → IsNormal a
    → IsNormal b
    → rat_sub a b ≡ ok r
    → SameValue r (a.num *ℤ b.den -ℤ b.num *ℤ a.den) (a.den *ℤ b.den) × IsNormal r
rat_sub_exact a b na nb e =
    normalize_limited_exact (a.num *ℤ b.den -ℤ b.num *ℤ a.den) (a.den *ℤ b.den)
      (omega (
        arith,
        Int.nat_abs--ℤ-le (a.num *ℤ b.den) (b.num *ℤ a.den),
        left_bound a b na nb,
        right_bound a b na nb,
      ))
      (omega (arith, dens_bound a b na nb)) (dens_nonzero a b na nb)
      (rw (sub_normalized a b na nb) at e)

-- A product of normal rationals is exact: where `ratMul` succeeds, its result is normal and has the
-- value of the product.
pub rat_mul_exact :
    (a b : Rational) {r : Rational}
    → IsNormal a
    → IsNormal b
    → rat_mul a b ≡ ok r
    → SameValue r (a.num *ℤ b.num) (a.den *ℤ b.den) × IsNormal r
rat_mul_exact a b na nb e =
    normalize_limited_exact (a.num *ℤ b.num) (a.den *ℤ b.den)
      (omega (arith, product_bound a.num b.num na.num_limited nb.num_limited))
      (omega (arith, dens_bound a b na nb)) (dens_nonzero a b na nb)
      (rw (mul_normalized a b na nb) at e)

-- A quotient of normal rationals is exact: where `ratDiv` succeeds, the divisor is not zero, and the
-- result is normal and has the value of the quotient.
pub rat_div_exact :
    (a b : Rational) {r : Rational}
    → IsNormal a
    → IsNormal b
    → rat_div a b ≡ ok r
    → ¬ (b.num ≡ pos 0) × SameValue r (a.num *ℤ b.den) (a.den *ℤ b.num) × IsNormal r
rat_div_exact a b {r} na nb e = elim (Bool-cases (is_zero b)) [
  | inl z ↦ cc (e, div_by_zero a b na nb z)
  | inr nz ↦
      let nonzero : ¬ (b.num ≡ pos 0) = λ h. cc (nz, (Int.eqb_ℤ_iff b.num (pos 0)).1 h) in
      let (value, normal) =
        normalize_limited_exact (a.num *ℤ b.den) (a.den *ℤ b.num)
          (omega (arith, left_bound a b na nb))
          (omega (arith, product_bound a.den b.num na.den_limited nb.num_limited))
          (product_nonzero a.den b.num na.positive nonzero)
          (rw (div_normalized a b na nb nz) at e) in
      (nonzero, value, normal)
]
