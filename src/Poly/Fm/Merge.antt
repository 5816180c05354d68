-- ===== src/Poly/Fm/Merge.antt =====
-- The rows that elimination builds hold wherever the rows that they are built from hold.
use mlk.Base.{ℕ, ◌≡◌, sym, ◌∙◌, subst, Bool, true, false, ◌&&◌, List, arith, if_ind}
use mlk.Base.Int
use mlk.Base.Int.{
  ℤ, pos, negsuc, ◌+ℤ◌, ◌-ℤ◌, ◌*ℤ◌, ◌≤ℤ◌, ◌<ℤ◌, pos_part, neg_part, int_laws, eqb_ℤ, ltb_ℤ, leb_ℤ,
  neg64, mul64,
}
use mlk.Base.Res.{ok, ok_inj, >>=-eq-ok}
use mlk.Poly.Row.{ConstraintRow, coeff_of, scale_row, add_rows, sub_rows}
use mlk.Poly.Row.Value.{row_value, Satisfies, RowHolds}
use mlk.Poly.Row.Ops.{
  IsScaled, scale_row-IsScaled, IsSum, add_rows-IsSum, IsDifference, sub_rows-IsDifference,
}
use mlk.Poly.System.Eval.{HasWidth}
use mlk.Poly.Fm.{abs_of, factor_of, size_of, merge_equality, combine_pair}

Satisfies-scale : (kind : Bool) (k v : ℤ) → pos 0 <ℤ k → Satisfies kind v → Satisfies kind (k *ℤ v)
Satisfies-scale true k v hk h = rw h (Int.*ℤ-zero k)
Satisfies-scale false k v hk h = Int.*ℤ_nonneg k v (omega arith) h

Satisfies-add : (a b : Bool) (u v : ℤ) → Satisfies a u → Satisfies b v → Satisfies (a && b) (u +ℤ v)
Satisfies-add true true u v hu hv = rw (hu, hv) (omega int_laws)
Satisfies-add true false u v hu hv = rw (hu, Int.zero-+ℤ v) hv
Satisfies-add false true u v hu hv = rw (hv, Int.+ℤ-zero u) hu
Satisfies-add false false u v hu hv = omega int_laws

-- A row of which an equality is taken away, or to which it is added.
Satisfies-sub_zero :
    (a b : Bool) (u v : ℤ) → b ≡ true → v ≡ pos 0 → Satisfies a u → Satisfies (a && b) (u -ℤ v)
Satisfies-sub_zero true true u v hb hv hu = rw (hu, hv) (omega int_laws)
Satisfies-sub_zero false true u v hb hv hu = rw hv (omega int_laws)
Satisfies-sub_zero a false u v hb hv hu = cc

module _ (x : List ℤ) where
  -- A positive multiple of a row holds where the row holds.
  IsScaled-holds :
      {row r : ConstraintRow} {k : ℤ} → IsScaled row k r → RowHolds x row → RowHolds x r
  IsScaled-holds {row} {r} {k} s h =
      rw (s.same_kind, s.value x) (Satisfies-scale row.is_equality k (row_value row x) s.positive h)

  IsSum-holds : {a b r : ConstraintRow} → IsSum a b r → RowHolds x a → RowHolds x b → RowHolds x r
  IsSum-holds {a} {b} s ha hb =
      rw (s.kind, s.value x)
        (Satisfies-add a.is_equality b.is_equality (row_value a x) (row_value b x) ha hb)

  IsDifference-holds :
      {a b r : ConstraintRow}
      → IsDifference a b r
      → b.is_equality ≡ true
      → RowHolds x a
      → RowHolds x b
      → RowHolds x r
  IsDifference-holds {a} {b} s eq ha hb =
      rw (s.kind, s.value x)
        (Satisfies-sub_zero a.is_equality b.is_equality (row_value a x) (row_value b x) eq
          (rw eq at hb) ha)

-- What a merge can return: the row itself, or a combination with the equality.
pub data Merged (var : ℕ) (eq w : ConstraintRow) : ConstraintRow → Type 0 where
  kept : eqb_ℤ (coeff_of w var) (pos 0) ≡ true → Merged var eq w w
  taken :
      {ws es r : ConstraintRow}
      → leb_ℤ (pos 0) (factor_of (coeff_of eq var) (coeff_of w var)) ≡ true
      → IsScaled w (abs_of (coeff_of eq var)) ws
      → IsScaled eq (size_of (factor_of (coeff_of eq var) (coeff_of w var))) es
      → sub_rows ws es ≡ ok r
      → Merged var eq w r
  added :
      {ws es r : ConstraintRow}
      → leb_ℤ (pos 0) (factor_of (coeff_of eq var) (coeff_of w var)) ≡ false
      → IsScaled w (abs_of (coeff_of eq var)) ws
      → IsScaled eq (size_of (factor_of (coeff_of eq var) (coeff_of w var))) es
      → add_rows ws es ≡ ok r
      → Merged var eq w r

pub merge_equality-Merged :
    (var : ℕ) (eq w : ConstraintRow) {r : ConstraintRow}
    → merge_equality var eq w ≡ ok r
    → Merged var eq w r
unfolding merge_equality
merge_equality-Merged var eq w {r} =
    if_ind (λ m. m ≡ ok r → Merged var eq w r) (eqb_ℤ (coeff_of w var) (pos 0))
      (λ z h. subst (Merged var eq w) (ok_inj h) (kept z))
      (λ nz h.
        let (ws, ew, h1) = >>=-eq-ok (scale_row w (abs_of cv)) _ h in
        let (es, ee, h2) = >>=-eq-ok (scale_row eq (size_of factor)) _ h1 in
        if_ind (λ m. m ≡ ok r → Merged var eq w r) (leb_ℤ (pos 0) factor)
          (λ t. taken t (scale_row-IsScaled w _ ew) (scale_row-IsScaled eq _ ee))
          (λ f. added f (scale_row-IsScaled w _ ew) (scale_row-IsScaled eq _ ee)) h2)
  where
    cv : ℤ
    cv = coeff_of eq var

    factor : ℤ
    factor = factor_of cv (coeff_of w var)

-- The merged row is as wide, and holds where both rows hold.
pub Merged-holds :
    (x : List ℤ) {n var : ℕ} {eq w r : ConstraintRow}
    → Merged var eq w r
    → HasWidth n eq
    → HasWidth n w
    → eq.is_equality ≡ true
    → RowHolds x eq
    → RowHolds x w
    → HasWidth n r × RowHolds x r
Merged-holds x (kept z) he hw kind heq hr = (hw, hr)
Merged-holds x (taken t ws es e) he hw kind heq hr =
    let d = sub_rows-IsDifference _ _ (ws.same_length ∙ hw ∙ sym he ∙ sym es.same_length) e in
    (
      d.same_length ∙ ws.same_length ∙ hw,
      IsDifference-holds x d (es.same_kind ∙ kind) (IsScaled-holds x ws hr)
          (IsScaled-holds x es heq),
    )
Merged-holds x (added f ws es e) he hw kind heq hr =
    let d = add_rows-IsSum _ _ (ws.same_length ∙ hw ∙ sym he ∙ sym es.same_length) e in
    (
      d.same_length ∙ ws.same_length ∙ hw,
      IsSum-holds x d (IsScaled-holds x ws hr) (IsScaled-holds x es heq),
    )

-- A pair of rows with opposing signs.
pub record Combined (var : ℕ) (p n r : ConstraintRow) : Type 0 where
  pub ps : ConstraintRow
  pub ns : ConstraintRow
  pub p_scaled : IsScaled p (neg64 (coeff_of n var)) ps
  pub n_scaled : IsScaled n (coeff_of p var) ns
  pub summed : add_rows ps ns ≡ ok r

pub combine_pair-Combined :
    (var : ℕ) (p n : ConstraintRow) {r : ConstraintRow}
    → combine_pair var p n ≡ ok r
    → Combined var p n r
unfolding combine_pair
combine_pair-Combined var p n h =
    let (ps, ep, h1) = >>=-eq-ok (scale_row p (neg64 (coeff_of n var))) _ h in
    let (ns, en, h2) = >>=-eq-ok (scale_row n (coeff_of p var)) _ h1 in
    record {
      ps = ps;
      ns = ns;
      p_scaled = scale_row-IsScaled p _ ep;
      n_scaled = scale_row-IsScaled n _ en;
      summed = h2;
    }

pub Combined-IsSum :
    {w var : ℕ} {p n r : ConstraintRow}
    → (c : Combined var p n r) → HasWidth w p
    → HasWidth w n
    → IsSum c.ps c.ns r
Combined-IsSum c hp hn =
    add_rows-IsSum c.ps c.ns (c.p_scaled.same_length ∙ hp ∙ sym hn ∙ sym c.n_scaled.same_length)
      c.summed

pub Combined-holds :
    (x : List ℤ) {w var : ℕ} {p n r : ConstraintRow}
    → Combined var p n r
    → HasWidth w p × RowHolds x p
    → HasWidth w n × RowHolds x n
    → HasWidth w r × RowHolds x r
Combined-holds x c hp hn =
    let s = Combined-IsSum c hp.0 hn.0 in
    (
      s.same_length ∙ c.p_scaled.same_length ∙ hp.0,
      IsSum-holds x s (IsScaled-holds x c.p_scaled hp.1) (IsScaled-holds x c.n_scaled hn.1),
    )
