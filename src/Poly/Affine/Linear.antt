-- ===== src/Poly/Affine/Linear.antt =====
-- Affine expressions as functions of a point: evaluation is exact, and the operations are linear.
use mlk.Base.{
  ◌+◌, ◌≤◌, ◌≡◌, refl, sym, ap, ◌∙◌, subst, false, not, List, length, ltb, arith, if_ind, Option,
  none, some,
}
use mlk.Base.Int
use mlk.Base.Int.{ℤ, pos, negsuc, ◌+ℤ◌, ◌-ℤ◌, ◌*ℤ◌, nat_abs, int_laws, int64_max, +ℤ_interchange}
use mlk.Base.Res.{
  ok, err, resource_exhausted, ok_inj, >>=-eq-ok, traverse, traverse_zip, traverse-Traversed,
  traverse_zip-Zipped,
}
use mlk.Poly.Checked.{add_limited, mul_limited}
use mlk.Poly.Checked.Laws.{add_limited_exact, mul_limited_exact}
use mlk.Poly.Row.{total_vars}
use mlk.Poly.Row.Value.{dot}
use mlk.Poly.Row.Ops.{scale_dot, scale_length, add_dot, zip_length}
use mlk.Poly.System.{eval_terms}
use mlk.Poly.System.Eval.{eval_terms_sound, eval_terms_total, weight}
use mlk.Poly.Affine.{AffineExpr, eval_at, expr_spaces_match, expr_add, expr_scale, expr_sub}

-- The value of an expression at a point.
abbrev pub value : AffineExpr → List ℤ → ℤ
value e x = dot e.coeffs x +ℤ e.constant

-- One coefficient for each variable.
abbrev pub IsDense : AffineExpr → Type 0
IsDense e = length e.coeffs ≡ total_vars e.space

-- `evalAt` is exact: where it succeeds it returns the value of the expression, and it succeeds where
-- the point has a coordinate for each coefficient and the absolute values of the terms and of the
-- constant sum up within int64_t.
pub eval_at_exact :
    (e : AffineExpr) (x : List ℤ)
    → ((v : ℤ) → eval_at e x ≡ ok v → v ≡ value e x)
      × (length e.coeffs ≤ length x
          → nat_abs e.constant + weight e.coeffs x ≤ int64_max
          → eval_at e x ≡ ok (value e x))
unfolding eval_at
eval_at_exact e x = (sound, total)
  where
    sound : (v : ℤ) → eval_at e x ≡ ok v → v ≡ value e x
    sound v h =
        if_ind (λ m. m ≡ ok v → v ≡ value e x) (ltb (length x) (length e.coeffs)) (λ _ h'. cc)
          (λ _ h'. found (eval_terms e.constant e.coeffs x) refl h') h
      where
        found :
            (o : Option ℤ)
            → eval_terms e.constant e.coeffs x ≡ o
            → elim o [ none ↦ err resource_exhausted | some acc ↦ ok acc ] ≡ ok v
            → v ≡ value e x
        found none eo h' = cc
        found (some acc) eo h' = sym (ok_inj h') ∙ eval_terms_sound e.constant e.coeffs x eo

    total :
        length e.coeffs ≤ length x
        → nat_abs e.constant + weight e.coeffs x ≤ int64_max
        → eval_at e x ≡ ok (value e x)
    total hl hw =
        let (v, ev) = eval_terms_total e.constant e.coeffs x hl hw in
        let wide : ltb (length x) (length e.coeffs) ≡ false = ground arith in
        rw (wide, eval_at, ev) (ap ok (eval_terms_sound e.constant e.coeffs x ev))

-- `exprAdd` adds: the result of a successful sum of dense expressions is dense, over the same space,
-- and has the sum of the values at every point.
pub expr_add_exact :
    (a b : AffineExpr) {r : AffineExpr}
    → length a.coeffs ≡ length b.coeffs
    → expr_add a b ≡ ok r
    → (r.space ≡ a.space)
      × (length r.coeffs ≡ length a.coeffs)
      × ((x : List ℤ) → value r x ≡ value a x +ℤ value b x)
unfolding expr_add
expr_add_exact a b {r} hl =
    if_ind
      (λ m.
        m ≡ ok r
        → (r.space ≡ a.space)
          × (length r.coeffs ≡ length a.coeffs)
          × ((x : List ℤ) → value r x ≡ value a x +ℤ value b x))
      (not (expr_spaces_match a b)) (λ _ e. cc)
      (λ _ e.
        let (c, ec, e1) = >>=-eq-ok (add_limited a.constant b.constant) _ e in
        let (ds, ed, e2) = >>=-eq-ok (traverse_zip add_limited a.coeffs b.coeffs) _ e1 in
        let t = traverse_zip-Zipped add_limited a.coeffs b.coeffs ed in
        subst
          (λ q.
            (q.space ≡ a.space)
            × (length q.coeffs ≡ length a.coeffs)
            × ((x : List ℤ) → value q x ≡ value a x +ℤ value b x))
          (ok_inj e2)
          (
            refl,
            zip_length hl t,
            λ x.
                rw ((add_limited_exact a.constant b.constant ec).0, add_dot x hl t)
                  (+ℤ_interchange (dot a.coeffs x) (dot b.coeffs x) a.constant b.constant),
          ))

-- `exprScale` scales: the result has as many coefficients, is over the same space, and has the scaled
-- value at every point.
pub expr_scale_exact :
    (a : AffineExpr) (k : ℤ) {r : AffineExpr}
    → expr_scale a k ≡ ok r
    → (r.space ≡ a.space)
      × (length r.coeffs ≡ length a.coeffs)
      × ((x : List ℤ) → value r x ≡ k *ℤ value a x)
unfolding expr_scale
expr_scale_exact a k {r} e =
    let (c, ec, e1) = >>=-eq-ok (mul_limited a.constant k) _ e in
    let (ds, ed, e2) = >>=-eq-ok (traverse (λ c. mul_limited c k) a.coeffs) _ e1 in
    let t = traverse-Traversed (λ c. mul_limited c k) a.coeffs ed in
    subst
      (λ q.
        (q.space ≡ a.space)
        × (length q.coeffs ≡ length a.coeffs)
        × ((x : List ℤ) → value q x ≡ k *ℤ value a x))
      (ok_inj e2)
      (
        refl,
        scale_length k t,
        λ x.
            rw
              (
                (mul_limited_exact a.constant k ec).0,
                scale_dot k x t,
                Int.*ℤ-+ℤ,
                Int.*ℤ_comm a.constant k,
              )
              refl,
      )

-- `exprSub` subtracts: the result of a successful difference of dense expressions has the difference
-- of the values at every point, with as many coefficients and over the same space.
pub expr_sub_exact :
    (a b : AffineExpr) {r : AffineExpr}
    → length a.coeffs ≡ length b.coeffs
    → expr_sub a b ≡ ok r
    → (r.space ≡ a.space)
      × (length r.coeffs ≡ length a.coeffs)
      × ((x : List ℤ) → value r x ≡ value a x -ℤ value b x)
unfolding expr_sub
expr_sub_exact a b {r} hl e =
    let (n, en, e1) = >>=-eq-ok (expr_scale b (negsuc 0)) _ e in
    let (_, wide, negated) = expr_scale_exact b (negsuc 0) en in
    let (space, width, summed) = expr_add_exact a n (hl ∙ sym wide) e1 in
    (
      space,
      width,
      λ x. summed x ∙ ap (◌+ℤ◌ (value a x)) (negated x) ∙ minus (value a x) (value b x),
    )
  where
    minus : (u v : ℤ) → u +ℤ negsuc 0 *ℤ v ≡ u -ℤ v
    minus u v = omega (int_laws, Int.*ℤ_parts (negsuc 0) v)
