-- ===== src/Poly/Affine/Reduce.antt =====
-- `gcdNormalize` divides an expression by a positive number.
use mlk.Base.{
  ℕ, ◌≤◌, ◌<◌, ◌∣◌, ◌≡◌, refl, sym, ap, ◌∙◌, subst, Option, none, some, some_inj, List, [], ◌∷◌,
  map, All, arith, if_ind, if◌then◌else◌,
}
use mlk.Base.Int
use mlk.Base.Int.{
  ℤ, pos, negsuc, ◌+ℤ◌, ◌*ℤ◌, ◌<ℤ◌, eqb_ℤ, leb_ℤ, tdiv, nat_abs, int64_max, int_laws,
}
use mlk.Poly.Rational.{rat_gcd}
use mlk.Poly.Rational.Gcd.{rat_gcd-IsGcd}
use mlk.Poly.Rational.Normal.{tdiv_cancel}
use mlk.Poly.Row.Value.{dot}
use mlk.Poly.Affine.{AffineExpr, coeffs_gcd, divided_by, gcd_normalize}
use mlk.Poly.Affine.Linear.{value}
use native.Mathlib.Nat

-- The range of int64_t without its lower end.
abbrev pub IsNegatable : ℤ → Type 0
IsNegatable c = nat_abs c ≤ int64_max

coeffs_gcd-divides :
    (g : ℕ) (cs : List ℤ) {r : ℤ}
    → g ≤ int64_max
    → All IsNegatable cs
    → coeffs_gcd (pos g) cs ≡ some r
    → (k : ℕ) × (r ≡ pos k) × (k ∣ g) × All (λ c. k ∣ nat_abs c) cs × (k ≤ int64_max)
unfolding coeffs_gcd
coeffs_gcd-divides g [] hg h e = (g, sym (some_inj e), Nat.dvd_refl g, tt, hg)
coeffs_gcd-divides g (c ∷ cs) {r} hg h e =
    let (d, ed, gcd, bound) = rat_gcd-IsGcd (pos g) c (omega (arith, hg)) h.0 in
    let rest = coeffs_gcd-divides d cs {r = r} bound h.1 in
    if_ind
      (λ m.
        m ≡ some r
        → (k : ℕ) × (r ≡ pos k)
          × (k ∣ g)
          × (k ∣ nat_abs c × All (λ c. k ∣ nat_abs c) cs)
          × (k ≤ int64_max))
      (eqb_ℤ (rat_gcd (pos g) c) (pos 1)) (λ _ e'. cc)
      (λ _ e'.
        let (k, ek, kd, all, kb) = rest (rw ed at e') in
        (
          k,
          ek,
          Nat.dvd_trans k kd (rw Nat.add-zero at gcd.left),
          (Nat.dvd_trans k kd gcd.right, all),
          kb,
        ))
      e

dot_quotients :
    (k : ℕ) (cs x : List ℤ)
    → All (λ c. k ∣ nat_abs c) cs
    → dot cs x ≡ pos k *ℤ dot (map (λ c. tdiv c (pos k)) cs) x
dot_quotients k [] x h = sym (Int.*ℤ-zero (pos k))
dot_quotients k (c ∷ cs) [] h = sym (Int.*ℤ-zero (pos k))
dot_quotients k (c ∷ cs) (v ∷ x) h =
    let q = tdiv c (pos k) in
    let exact : c ≡ pos k *ℤ q = sym (tdiv_cancel c k h.0) ∙ Int.*ℤ_comm q (pos k) in
    let term : c *ℤ v ≡ pos k *ℤ (q *ℤ v) = ap (λ t. t *ℤ v) exact ∙ Int.*ℤ_assoc (pos k) q v in
    ap (λ t. t +ℤ dot cs x) term
    ∙ ap (◌+ℤ◌ (pos k *ℤ (q *ℤ v))) (dot_quotients k cs x h.1)
    ∙ sym (Int.*ℤ-+ℤ (pos k) (q *ℤ v) (dot (map (λ c. tdiv c (pos k)) cs) x))

divided_value :
    (k : ℕ) (e : AffineExpr) (x : List ℤ)
    → All (λ c. k ∣ nat_abs c) e.coeffs
    → k ∣ nat_abs e.constant
    → value e x ≡ pos k *ℤ value (divided_by (pos k) e) x
divided_value k e x h hc =
    let q = tdiv e.constant (pos k) in
    let quotients = dot (map (λ c. tdiv c (pos k)) e.coeffs) x in
    ap (λ t. t +ℤ e.constant) (dot_quotients k e.coeffs x h)
    ∙ ap (◌+ℤ◌ (pos k *ℤ quotients)) (sym (tdiv_cancel e.constant k hc) ∙ Int.*ℤ_comm q (pos k))
    ∙ sym (Int.*ℤ-+ℤ (pos k) quotients q)

-- `gcdNormalize` keeps the row that an expression stands for: where the numbers of the expression are
-- in the range of int64_t, its lower end left out, the expression is a positive multiple of its
-- normal form at every point, so that both have the same sign and the same zeros.
pub gcd_normalize_correct :
    (e : AffineExpr)
    → All IsNegatable e.coeffs
    → IsNegatable e.constant
    → (k : ℕ) × (0 < k) × ((x : List ℤ) → value e x ≡ pos k *ℤ value (gcd_normalize e) x)
unfolding gcd_normalize
gcd_normalize_correct e h hc = by_gcd (coeffs_gcd (pos 0) e.coeffs) refl
  where
    Multiple : AffineExpr → Type 0
    Multiple n = (k : ℕ) × (0 < k) × ((x : List ℤ) → value e x ≡ pos k *ℤ value n x)

    same : Multiple e
    same = (1, omega arith, λ x. sym (Int.one-*ℤ (value e x)))

    by_gcd :
        (o : Option ℤ)
        → coeffs_gcd (pos 0) e.coeffs ≡ o
        → Multiple (elim o [
          | none ↦ e
          | some g ↦
              if leb_ℤ (rat_gcd g e.constant) (pos 1)
              then e
              else divided_by (rat_gcd g e.constant) e
        ])
    by_gcd none eo = same
    by_gcd (some g) eo =
        let (k, ek, _, all, kb) = coeffs_gcd-divides 0 e.coeffs (omega arith) h eo in
        let (d, ed, gcd, _) = rat_gcd-IsGcd (pos k) e.constant (omega (arith, kb)) hc in
        let found : rat_gcd g e.constant ≡ pos d = ap (λ t. rat_gcd t e.constant) ek ∙ ed in
        let divides_k : d ∣ k = rw Nat.add-zero at gcd.left in
        if_ind Multiple (leb_ℤ (rat_gcd g e.constant) (pos 1)) (λ _. same)
          (λ big.
            subst (λ t. Multiple (divided_by t e)) (sym found)
              (
                d,
                ground (arith, found),
                λ x. divided_value d e x (all_divided d k divides_k e.coeffs all) gcd.right,
              ))
      where
        all_divided :
            (d k : ℕ)
            → d ∣ k
            → (cs : List ℤ) → All (λ c. k ∣ nat_abs c) cs
            → All (λ c. d ∣ nat_abs c) cs
        all_divided d k dk [] a = tt
        all_divided d k dk (c ∷ cs) a = (Nat.dvd_trans d dk a.0, all_divided d k dk cs a.1)
