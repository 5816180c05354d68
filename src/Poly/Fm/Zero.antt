-- ===== src/Poly/Fm/Zero.antt =====
-- The coefficients of `fmEliminate`'s merged rows at the variable cancel, wrap-around included.
use mlk.Base.{ℕ, ◌≡◌, refl, sym, ◌∙◌, true, false, ◌⊎◌, inl, inr, arith, Bool-cases}
use mlk.Base.Int
use mlk.Base.Int.{
  ℤ, pos, negsuc, ◌+ℤ◌, ◌-ℤ◌, ◌*ℤ◌, ◌<ℤ◌, pos_part, neg_part, int_laws, eqb_ℤ, ltb_ℤ, leb_ℤ, neg_ℤ,
  neg64, mul64, InInt64, wrap64, wrap64_exact,
}
use mlk.Poly.Row.{ConstraintRow, coeff_of}
use mlk.Poly.Row.Ops.{add_rows-IsSum, sub_rows-IsDifference}
use mlk.Poly.System.Eval.{HasWidth}
use mlk.Poly.Fm.{abs_of, factor_of, size_of}
use mlk.Poly.Fm.Merge.{Merged, kept, taken, added, Combined, Combined-IsSum}

-- A negation that is positive did not wrap.
neg64_positive : (a : ℤ) → InInt64 a → pos 0 <ℤ neg64 a → neg64 a ≡ neg_ℤ a
unfolding neg_ℤ wrap64
neg64_positive (pos n) h p = ground arith
neg64_positive (negsuc n) h p = ground arith

-- Two negations cancel, also where they wrap.
neg64_twice : (a : ℤ) → InInt64 a → neg64 (neg64 a) ≡ a
unfolding neg_ℤ wrap64
neg64_twice (pos n) h = ground arith
neg64_twice (negsuc n) h = ground arith

times_one : (a : ℤ) → InInt64 a → mul64 a (pos 1) ≡ a
times_one a h =
    let same : a *ℤ pos 1 ≡ a = Int.*ℤ_comm a (pos 1) ∙ Int.one-*ℤ a in rw same (wrap64_exact a h)

times_minus_one : (a : ℤ) → mul64 a (negsuc 0) ≡ neg64 a
times_minus_one a =
    let same : a *ℤ negsuc 0 ≡ neg_ℤ a = omega (int_laws, Int.*ℤ_parts a (negsuc 0)) in rw same refl

-- The size and the factor of the merge, by the sign of the coefficient of the equality.
signs :
    (cv cw : ℤ)
    → InInt64 cv
    → InInt64 cw
    → pos 0 <ℤ abs_of cv
    → ((abs_of cv ≡ cv) × (factor_of cv cw ≡ cw))
      ⊎ ((abs_of cv ≡ neg_ℤ cv) × (factor_of cv cw ≡ neg64 cw))
signs cv cw hv hw p = elim (Bool-cases (ltb_ℤ (pos 0) cv)) [
  | inl t ↦ inl (rw t refl, rw t (times_one cw hw))
  | inr f ↦ inr (rw f (neg64_positive cv hv (rw f at p)), rw f (times_minus_one cw))
]

taken_zero :
    (cv cw : ℤ)
    → InInt64 cv
    → InInt64 cw
    → pos 0 <ℤ abs_of cv
    → pos 0 <ℤ size_of (factor_of cv cw)
    → leb_ℤ (pos 0) (factor_of cv cw) ≡ true
    → abs_of cv *ℤ cw -ℤ size_of (factor_of cv cw) *ℤ cv ≡ pos 0
taken_zero cv cw hv hw pv pf t =
    let size : size_of (factor_of cv cw) ≡ factor_of cv cw = ground arith in
    elim (signs cv cw hv hw pv) [
      | inl (a, f) ↦ rw (size, a, f) (omega (int_laws, Int.*ℤ_comm cv cw))
      | inr (a, f) ↦
          let n : neg64 cw ≡ neg_ℤ cw = neg64_positive cw hw (rw (size, f) at pf) in
          rw (size, a, f, n, Int.neg_ℤ-*ℤ cv cw, Int.neg_ℤ-*ℤ cw cv)
            (omega (int_laws, Int.*ℤ_comm cv cw))
    ]

added_zero :
    (cv cw : ℤ)
    → InInt64 cv
    → InInt64 cw
    → pos 0 <ℤ abs_of cv
    → pos 0 <ℤ size_of (factor_of cv cw)
    → leb_ℤ (pos 0) (factor_of cv cw) ≡ false
    → abs_of cv *ℤ cw +ℤ size_of (factor_of cv cw) *ℤ cv ≡ pos 0
added_zero cv cw hv hw pv pf t =
    let size : size_of (factor_of cv cw) ≡ neg64 (factor_of cv cw) = ground arith in
    elim (signs cv cw hv hw pv) [
      | inl (a, f) ↦
          let n : neg64 cw ≡ neg_ℤ cw = neg64_positive cw hw (rw (size, f) at pf) in
          rw (size, a, f, n, Int.neg_ℤ-*ℤ cw cv) (omega (int_laws, Int.*ℤ_comm cv cw))
      | inr (a, f) ↦
          rw (size, a, f, neg64_twice cw hw, Int.neg_ℤ-*ℤ) (omega (int_laws, Int.*ℤ_comm cv cw))
    ]

-- A merged row does not mention the variable.
pub Merged-zero :
    {n var : ℕ} {eq w r : ConstraintRow}
    → Merged var eq w r
    → HasWidth n eq
    → HasWidth n w
    → InInt64 (coeff_of eq var)
    → InInt64 (coeff_of w var)
    → coeff_of r var ≡ pos 0
Merged-zero {var = var} {eq} {w} (kept z) he hw fe fw = (Int.eqb_ℤ_iff (coeff_of w var) (pos 0)).0 z
Merged-zero {var = var} {eq} {w} (taken t ws es e) he hw fe fw =
    let d = sub_rows-IsDifference _ _ (ws.same_length ∙ hw ∙ sym he ∙ sym es.same_length) e in
    rw (d.coeff var, ws.coeff var, es.coeff var)
      (taken_zero (coeff_of eq var) (coeff_of w var) fe fw ws.positive es.positive t)
Merged-zero {var = var} {eq} {w} (added t ws es e) he hw fe fw =
    let d = add_rows-IsSum _ _ (ws.same_length ∙ hw ∙ sym he ∙ sym es.same_length) e in
    rw (d.coeff var, ws.coeff var, es.coeff var)
      (added_zero (coeff_of eq var) (coeff_of w var) fe fw ws.positive es.positive t)

pub Merged-wide :
    {n var : ℕ} {eq w r : ConstraintRow}
    → Merged var eq w r
    → HasWidth n eq
    → HasWidth n w
    → HasWidth n r
Merged-wide (kept z) he hw = hw
Merged-wide (taken t ws es e) he hw =
    (sub_rows-IsDifference _ _ (ws.same_length ∙ hw ∙ sym he ∙ sym es.same_length) e).same_length
    ∙ ws.same_length
    ∙ hw
Merged-wide (added t ws es e) he hw =
    (add_rows-IsSum _ _ (ws.same_length ∙ hw ∙ sym he ∙ sym es.same_length) e).same_length
    ∙ ws.same_length
    ∙ hw

-- Nor does the combination of a pair.
pub Combined-zero :
    {w var : ℕ} {p n r : ConstraintRow}
    → Combined var p n r
    → HasWidth w p
    → HasWidth w n
    → InInt64 (coeff_of n var)
    → coeff_of r var ≡ pos 0
Combined-zero {var = var} {p} {n} c hp hn f =
    let s = Combined-IsSum c hp hn in
    let neg = neg64_positive (coeff_of n var) f c.p_scaled.positive in
    rw (s.coeff var, c.p_scaled.coeff var, c.n_scaled.coeff var, neg, Int.neg_ℤ-*ℤ)
      (omega (int_laws, Int.*ℤ_comm (coeff_of p var) (coeff_of n var)))
