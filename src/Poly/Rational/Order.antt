-- ===== src/Poly/Rational/Order.antt =====
-- Comparison, equality, floor and ceiling of normal rationals.
use mlk.Base.{
  ℕ, suc, ◌+◌, ◌*◌, ◌/◌, ◌%◌, ◌≤◌, ◌<◌, ◌^◌, ◌≡◌, refl, sym, ap, ◌∙◌, subst, true, not, ◌&&◌, some,
  ◌↔◌, arith, if_ind, and_parts, if◌then◌else◌,
}
use mlk.Base.Int
use mlk.Base.Int.{
  ℤ, pos, negsuc, pos_part, neg_part, nat_abs, ◌+ℤ◌, ◌-ℤ◌, ◌*ℤ◌, ◌≤ℤ◌, ◌<ℤ◌, ltb_ℤ, eqb_ℤ, int_laws,
  tdiv, tmod, nat_abs-*ℤ, nat_abs-InInt64, wrap64, wrap64_exact, eq_of_parts, sub64, add64,
}
use mlk.Base.Res.{ok}
use mlk.Base.Gcd.{lowest_terms}
use mlk.Poly.Checked.{mul}
use mlk.Poly.Checked.Laws.{IsLimited, mul_total}
use mlk.Poly.Rational.{Rational, rat_less, rat_equal, rat_floor, rat_ceil}
use mlk.Poly.Rational.Normal.{IsNormal, minus_quotient}
use mlk.Poly.Rational.Exact.{product_bound}
use native.Mathlib.Nat

product_total : (a b : ℤ) → IsLimited a → IsLimited b → mul a b ≡ some (a *ℤ b)
product_total a b ha hb =
    mul_total a b (nat_abs-InInt64 (a *ℤ b) (omega (arith, product_bound a b ha hb)))

-- `ratLess` compares normal rationals by their values, as it compares their cross products without
-- overflow.
rat_less_correct :
    (a b : Rational)
    → IsNormal a
    → IsNormal b
    → rat_less a b ≡ true ↔ a.num *ℤ b.den <ℤ b.num *ℤ a.den
unfolding rat_less
rat_less_correct a b na nb =
    rw
      (
        product_total a.num b.den na.num_limited nb.den_limited,
        product_total b.num a.den nb.num_limited na.den_limited,
      )
      (ground arith)

times_cancel : (a b d : ℤ) → pos 0 <ℤ d → a *ℤ d ≡ b *ℤ d → a ≡ b
times_cancel a b (negsuc d) p e = absurd (omega arith)
times_cancel a b (pos d) p e =
    let same : (pos_part a + neg_part b) * d ≡ (pos_part b + neg_part a) * d =
      omega (int_laws, e, Int.*ℤ_parts a (pos d), Int.*ℤ_parts b (pos d)) in
    eq_of_parts a b (cancelled same)
  where
    cancelled : {m n : ℕ} → m * d ≡ n * d → m ≡ n
    cancelled {m} {n} h =
        sym (Nat.mul-div_cancel m (omega (arith, p)))
        ∙ ap (λ t. t / d) h
        ∙ Nat.mul-div_cancel n (omega (arith, p))

-- `ratEqual` compares the parts, which decides the equality of the values of normal rationals: two of
-- them with the same value have the same parts.
rat_equal_correct :
    (a b : Rational)
    → IsNormal a
    → IsNormal b
    → rat_equal a b ≡ true ↔ a.num *ℤ b.den ≡ b.num *ℤ a.den
unfolding rat_equal
rat_equal_correct a b na nb = (there, back)
  where
    there : (eqb_ℤ a.num b.num && eqb_ℤ a.den b.den) ≡ true → a.num *ℤ b.den ≡ b.num *ℤ a.den
    there h =
        let (en, ed) = and_parts (eqb_ℤ a.num b.num) (eqb_ℤ a.den b.den) h in
        rw ((Int.eqb_ℤ_iff a.num b.num).0 en, (Int.eqb_ℤ_iff a.den b.den).0 ed) refl

    back : a.num *ℤ b.den ≡ b.num *ℤ a.den → (eqb_ℤ a.num b.num && eqb_ℤ a.den b.den) ≡ true
    back e =
        let abs_same : nat_abs a.num * nat_abs b.den ≡ nat_abs b.num * nat_abs a.den =
          sym (nat_abs-*ℤ a.num b.den) ∙ ap nat_abs e ∙ nat_abs-*ℤ b.num a.den in
        let (_, dens) =
          lowest_terms (nat_abs a.num) (nat_abs a.den) (nat_abs b.num) (nat_abs b.den)
            (omega (arith, na.positive)) (omega (arith, nb.positive)) na.lowest nb.lowest
            abs_same in
        let den_same : a.den ≡ b.den = same_positive a.den b.den na.positive nb.positive dens in
        let num_same : a.num ≡ b.num =
          times_cancel a.num b.num a.den na.positive
            (subst (λ d. a.num *ℤ d ≡ b.num *ℤ a.den) (sym den_same) e) in
        rw ((Int.eqb_ℤ_iff a.num b.num).1 num_same, (Int.eqb_ℤ_iff a.den b.den).1 den_same) refl
      where
        same_positive : (x y : ℤ) → pos 0 <ℤ x → pos 0 <ℤ y → nat_abs x ≡ nat_abs y → x ≡ y
        same_positive (pos x) (pos y) hx hy h = ground arith
        same_positive (pos x) (negsuc y) hx hy h = absurd (omega arith)
        same_positive (negsuc x) y hx hy h = absurd (omega arith)

-- The integer next to a quotient, on the side that its definition names.
abbrev pub IsFloor : ℤ → Rational → Type 0
IsFloor q r = (q *ℤ r.den ≤ℤ r.num) × (r.num <ℤ q *ℤ r.den +ℤ r.den)

abbrev pub IsCeil : ℤ → Rational → Type 0
IsCeil q r = (r.num ≤ℤ q *ℤ r.den) × (q *ℤ r.den <ℤ r.num +ℤ r.den)

minus_one : (k : ℕ) → k ≤ 2 ^ 30 → sub64 (Int.sub_ℕ 0 k) (pos 1) ≡ negsuc k
unfolding ◌-ℤ◌ wrap64
minus_one k h = ground arith

plus_one : (k : ℕ) → k ≤ 2 ^ 30 → add64 (pos k) (pos 1) ≡ pos (suc k)
unfolding ◌+ℤ◌ wrap64
plus_one k h = ground arith

IsFloor-cases :
    (n : ℤ) (d : ℕ)
    → 0 < d
    → IsLimited n
    → IsFloor
        (if not (eqb_ℤ (tmod n (pos d)) (pos 0)) && ltb_ℤ n (pos 0)
          then sub64 (tdiv n (pos d)) (pos 1)
          else tdiv n (pos d))
        (record { num = n; den = pos d })
unfolding tdiv tmod
IsFloor-cases (pos n) d hd h =
    let exact = Nat.div-add-mod' n d in
    let below = Nat.mod-lt n hd in
    if_ind (λ q. IsFloor q (record { num = pos n; den = pos d }))
      (not (eqb_ℤ (pos (n % d)) (pos 0)) && ltb_ℤ (pos n) (pos 0)) (λ t. absurd (ground (arith)))
      (λ _. (
        omega (int_laws, Int.*ℤ_parts (pos (n / d)) (pos d), exact),
        omega (int_laws, Int.*ℤ_parts (pos (n / d)) (pos d), exact, below),
      ))
IsFloor-cases (negsuc n) d hd h =
    let exact = Nat.div-add-mod' (suc n) d in
    let below = Nat.mod-lt (suc n) hd in
    let k = suc n / d in
    if_ind (λ q. IsFloor q (record { num = negsuc n; den = pos d }))
      (not (eqb_ℤ (Int.sub_ℕ 0 (suc n % d)) (pos 0)) && ltb_ℤ (negsuc n) (pos 0))
      (λ t.
        let rest : 0 < suc n % d = ground arith in
        let one_less = minus_one k (omega (arith, h, Nat.div-le_self (suc n) d)) in
        rw one_less (
          omega (int_laws, Int.*ℤ_parts (negsuc k) (pos d), exact, below),
          omega (int_laws, Int.*ℤ_parts (negsuc k) (pos d), exact, rest),
        ))
      (λ f.
        let none_left : suc n % d ≡ 0 = ground arith in
        rw (minus_quotient k, Int.neg_ℤ-*ℤ (pos k) (pos d))
          (
            omega (int_laws, Int.*ℤ_parts (pos k) (pos d), exact, none_left),
            omega (int_laws, Int.*ℤ_parts (pos k) (pos d), exact, none_left, hd),
          ))

IsCeil-cases :
    (n : ℤ) (d : ℕ)
    → 0 < d
    → IsLimited n
    → IsCeil
        (if not (eqb_ℤ (tmod n (pos d)) (pos 0)) && ltb_ℤ (pos 0) n
          then add64 (tdiv n (pos d)) (pos 1)
          else tdiv n (pos d))
        (record { num = n; den = pos d })
unfolding tdiv tmod
IsCeil-cases (negsuc n) d hd h =
    let exact = Nat.div-add-mod' (suc n) d in
    let below = Nat.mod-lt (suc n) hd in
    let k = suc n / d in
    if_ind (λ q. IsCeil q (record { num = negsuc n; den = pos d }))
      (not (eqb_ℤ (Int.sub_ℕ 0 (suc n % d)) (pos 0)) && ltb_ℤ (pos 0) (negsuc n))
      (λ t. absurd (ground arith))
      (λ f.
        rw (minus_quotient k, Int.neg_ℤ-*ℤ (pos k) (pos d))
          (
            omega (int_laws, Int.*ℤ_parts (pos k) (pos d), exact),
            omega (int_laws, Int.*ℤ_parts (pos k) (pos d), exact, below),
          ))
IsCeil-cases (pos n) d hd h =
    let exact = Nat.div-add-mod' n d in
    let below = Nat.mod-lt n hd in
    let k = n / d in
    if_ind (λ q. IsCeil q (record { num = pos n; den = pos d }))
      (not (eqb_ℤ (pos (n % d)) (pos 0)) && ltb_ℤ (pos 0) (pos n))
      (λ t.
        let rest : 0 < n % d = ground arith in
        rw (plus_one k (omega (arith, h, Nat.div-le_self n d))) (
          omega (int_laws, Int.*ℤ_parts (pos (suc k)) (pos d), exact, below),
          omega (int_laws, Int.*ℤ_parts (pos (suc k)) (pos d), exact, rest),
        ))
      (λ f.
        let none_left : n % d ≡ 0 = ground (arith, exact) in
        (
          omega (int_laws, Int.*ℤ_parts (pos k) (pos d), exact, none_left),
          omega (int_laws, Int.*ℤ_parts (pos k) (pos d), exact, none_left, hd),
        ))

IsFloor-any :
    (n d : ℤ)
    → pos 0 <ℤ d
    → IsLimited n
    → IsFloor
        (if not (eqb_ℤ (tmod n d) (pos 0)) && ltb_ℤ n (pos 0)
          then sub64 (tdiv n d) (pos 1)
          else tdiv n d)
        (record { num = n; den = d })
IsFloor-any n (pos d) p h = IsFloor-cases n d (omega (arith, p)) h
IsFloor-any n (negsuc d) p h = absurd (omega (arith, p))

rat_floor_correct : (r : Rational) → IsNormal r → (q : ℤ) × (rat_floor r ≡ ok q) × IsFloor q r
unfolding rat_floor
rat_floor_correct r nr = (_, refl, IsFloor-any r.num r.den nr.positive nr.num_limited)

IsCeil-any :
    (n d : ℤ)
    → pos 0 <ℤ d
    → IsLimited n
    → IsCeil
        (if not (eqb_ℤ (tmod n d) (pos 0)) && ltb_ℤ (pos 0) n
          then add64 (tdiv n d) (pos 1)
          else tdiv n d)
        (record { num = n; den = d })
IsCeil-any n (pos d) p h = IsCeil-cases n d (omega (arith, p)) h
IsCeil-any n (negsuc d) p h = absurd (omega (arith, p))

rat_ceil_correct : (r : Rational) → IsNormal r → (q : ℤ) × (rat_ceil r ≡ ok q) × IsCeil q r
unfolding rat_ceil
rat_ceil_correct r nr = (_, refl, IsCeil-any r.num r.den nr.positive nr.num_limited)

-- Normal rationals are compared by their values: `ratLess` decides their order and `ratEqual`, which
-- compares the parts, their equality.
pub rat_compare_correct :
    (a b : Rational)
    → IsNormal a
    → IsNormal b
    → (rat_less a b ≡ true ↔ a.num *ℤ b.den <ℤ b.num *ℤ a.den)
      × (rat_equal a b ≡ true ↔ a.num *ℤ b.den ≡ b.num *ℤ a.den)
rat_compare_correct a b na nb = (rat_less_correct a b na nb, rat_equal_correct a b na nb)

-- Rounding a normal rational succeeds: `ratFloor` gives the greatest integer that is not above it, and
-- `ratCeil` the least that is not below it.
pub rat_round_correct :
    (r : Rational)
    → IsNormal r
    → ((q : ℤ) × (rat_floor r ≡ ok q) × IsFloor q r) × ((q : ℤ) × (rat_ceil r ≡ ok q) × IsCeil q r)
rat_round_correct r nr = (rat_floor_correct r nr, rat_ceil_correct r nr)
