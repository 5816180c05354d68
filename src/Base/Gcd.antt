-- ===== src/Base/Gcd.antt =====
-- Greatest common divisors of native numbers, by their divisibility properties.
use Prim.Native.Nat.{ℕ, ◌+◌, ◌*◌, ◌/◌, ◌%◌, ◌<◌, ◌∣◌}
use mathlib.Core.Path.{◌≡◌, refl, sym, ap, subst, ◌∙◌}
use native.Mathlib.Nat

-- `g` divides both numbers, and what divides a multiple of both divides that multiple of `g`.
pub record IsGcd (g a b : ℕ) : Type 0 where
  pub left : g ∣ a
  pub right : g ∣ b
  pub greatest : (k c : ℕ) → k ∣ a * c → k ∣ b * c → k ∣ g * c

pub IsGcd-zero : (a : ℕ) → IsGcd a a 0
IsGcd-zero a = record { left = Nat.dvd_refl a; right = Nat.dvd-zero a; greatest = λ k c h _. h }

-- One step of Euclid's algorithm.
pub IsGcd-mod : (g a b : ℕ) → IsGcd g b (a % b) → IsGcd g a b
IsGcd-mod g a b h = record {
  left = (Nat.dvd-mod_iff _ h.left).0 h.right;
  right = h.left;
  greatest = λ k c ka kb. h.greatest k c kb (rest k c ka kb);
}
  where
    rest : (k c : ℕ) → k ∣ a * c → k ∣ b * c → k ∣ a % b * c
    rest k c ka kb =
        let whole : a * c ≡ b * c * (a / b) + a % b * c =
          rw (Nat.mul_right_comm b c, ← Nat.add-mul, Nat.div-add-mod) refl in
        (Nat.dvd-add_iff_right k (Nat.dvd-mul_right_of_dvd k kb (a / b))).1 (subst (◌∣◌ k) whole ka)

-- Dividing both numbers by their divisor leaves coprime numbers.
pub IsGcd-div : (g a b : ℕ) → 0 < g → IsGcd g a b → IsGcd 1 (a / g) (b / g)
IsGcd-div g a b pos h = record {
  left = Nat.one-dvd (a / g);
  right = Nat.one-dvd (b / g);
  greatest = λ k c ka kb.
      let step = h.greatest (k * g) c (scaled k c a h.left ka) (scaled k c b h.right kb) in
      rw Nat.one-mul
        (Nat.dvd_of_mul-dvd-mul_right k pos (subst (λ t. k * g ∣ t) (Nat.mul_comm g c) step));
}
  where
    scaled : (k c n : ℕ) → g ∣ n → k ∣ n / g * c → k * g ∣ n * c
    scaled k c n hn hk =
        let same : n / g * c * g ≡ n * c = rw (Nat.mul_right_comm, Nat.div-mul_cancel g hn) refl in
        subst (λ t. k * g ∣ t) same (Nat.mul-dvd-mul_right k hk g)

-- Fractions in lowest terms with the same value are the same.
pub lowest_terms :
    (a b c d : ℕ) → 0 < b → 0 < d → IsGcd 1 a b → IsGcd 1 c d → a * d ≡ c * b → (a ≡ c) × (b ≡ d)
lowest_terms a b c d hb hd ab cd e = (cancelled (subst (λ t. a * t ≡ c * b) (sym same) e), same)
  where
    cancelled : a * b ≡ c * b → a ≡ c
    cancelled h = sym (Nat.mul-div_cancel a hb) ∙ ap (λ t. t / b) h ∙ Nat.mul-div_cancel c hb

    b-dvd-d : b ∣ d
    b-dvd-d =
        rw Nat.one-mul at (ab.greatest b d (rw e (Nat.dvd-mul_left b c)) (Nat.dvd-mul_right b d))

    d-dvd-b : d ∣ b
    d-dvd-b =
        rw Nat.one-mul at
          (cd.greatest d b (rw (← e) (Nat.dvd-mul_left d a)) (Nat.dvd-mul_right d b))

    same : b ≡ d
    same = Nat.dvd_antisymm b-dvd-d d-dvd-b
