-- ===== src/Poly/Rational/Gcd.antt =====
-- `ratGcd` computes the greatest common divisor, and its loop ends.
use mlk.Base.{ℕ, zero, suc, ◌≤◌, ◌<◌, ◌%◌, ◌≡◌, subst, false, arith, inl, inr, Bool-cases}
use mlk.Base.Int.{ℤ, pos, negsuc, eqb_ℤ, tmod, nat_abs, neg_ℤ, wrap64, int64_max}
use mlk.Base.Gcd.{IsGcd, IsGcd-zero, IsGcd-mod}
use mlk.Poly.Rational.{gcd_loop, rat_gcd, abs64}

nat_abs-tmod : (a b : ℤ) → nat_abs (tmod a b) ≡ nat_abs a % nat_abs b
unfolding tmod
nat_abs-tmod (pos a) (pos b) = ground arith
nat_abs-tmod (pos a) (negsuc b) = ground arith
nat_abs-tmod (negsuc a) (pos b) = ground arith
nat_abs-tmod (negsuc a) (negsuc b) = ground arith

remainder_below : (a b : ℤ) → eqb_ℤ b (pos 0) ≡ false → nat_abs a % nat_abs b < nat_abs b
remainder_below a b h = ground arith

-- The loop computes a greatest common divisor of the absolute values, within their bound.
gcd_loop-IsGcd :
    (fuel m : ℕ) (a b : ℤ)
    → nat_abs b < fuel
    → nat_abs a ≤ m
    → nat_abs b ≤ m
    → IsGcd (nat_abs (gcd_loop fuel a b)) (nat_abs a) (nat_abs b)
      × (nat_abs (gcd_loop fuel a b) ≤ m)
unfolding gcd_loop
gcd_loop-IsGcd zero m a b h ha hb = absurd (omega arith)
gcd_loop-IsGcd (suc fuel) m a b h ha hb = elim (Bool-cases (eqb_ℤ b (pos 0))) [
  | inl z ↦
      let b0 : nat_abs b ≡ 0 = ground arith in rw (z, gcd_loop, b0) (IsGcd-zero (nat_abs a), ha)
  | inr nz ↦
      let e = nat_abs-tmod a b in
      let low = remainder_below a b nz in
      let (g, bound) =
        gcd_loop-IsGcd fuel m b (tmod a b) (omega (arith, e, low)) hb (omega (arith, e, low)) in
      rw (nz, gcd_loop)
        (IsGcd-mod _ (nat_abs a) (nat_abs b) (subst (IsGcd _ (nat_abs b)) e g), bound)
]

pub abs64_exact : (a : ℤ) → nat_abs a ≤ int64_max → abs64 a ≡ pos (nat_abs a)
unfolding neg_ℤ wrap64
abs64_exact (pos n) h = ground arith
abs64_exact (negsuc n) h = ground arith

-- `ratGcd` returns the greatest common divisor of the absolute values of two numbers in the range of
-- int64_t, its lower end left out: a number that is not negative, that divides both, and that every
-- common divisor divides, with any factor; it stays in that range.
pub rat_gcd-IsGcd :
    (a b : ℤ)
    → nat_abs a ≤ int64_max
    → nat_abs b ≤ int64_max
    → (g : ℕ) × (rat_gcd a b ≡ pos g) × IsGcd g (nat_abs a) (nat_abs b) × (g ≤ int64_max)
unfolding rat_gcd
rat_gcd-IsGcd a b ha hb =
    let (g, bound) = gcd_loop-IsGcd (suc (nat_abs b)) int64_max a b (omega arith) ha hb in
    (
      nat_abs (gcd_loop (suc (nat_abs b)) a b),
      abs64_exact (gcd_loop (suc (nat_abs b)) a b) bound,
      g,
      bound,
    )
