-- ===== src/Poly/AffineMap/Compose.antt =====
-- What composition computes: the outer map at the values of the inner one. The symbol coefficients
-- of the outer map are read by nobody.
use mlk.Base.{
  ℕ, zero, suc, ◌≡◌, refl, sym, ap, ap₂, ◌∙◌, subst, not, List, [], ◌∷◌, ◌++◌, map, ◌==◌, length,
  get_or, arith, if_ind, All, length-replicate,
}
use mlk.Base.Int
use mlk.Base.Int.{ℤ, pos, ◌+ℤ◌, ◌-ℤ◌, ◌*ℤ◌, int_laws}
use mlk.Base.Res.{ok, ok_inj, >>=-eq-ok, traverse, Traversed, nil, cons, traverse-Traversed}
use mlk.Poly.Row.{VarSpace, total_vars}
use mlk.Poly.Row.Value.{dot, zeros_dot}
use mlk.Poly.Affine.{AffineExpr, from_constant, expr_add, expr_scale, expr_coeff_of, within_limits}
use mlk.Poly.Affine.Linear.{value, expr_add_exact, expr_scale_exact}
use mlk.Poly.AffineMap.{AffineMap, compose_terms, compose_output, map_compose}

-- The coefficients from a place on.
abbrev dropped : ℕ → List ℤ → List ℤ
dropped zero cs = cs
dropped (suc n) [] = []
dropped (suc n) (c ∷ cs) = dropped n cs

dropped_step :
    (j : ℕ) (cs : List ℤ) (v : ℤ) (vs : List ℤ)
    → dot (dropped j cs) (v ∷ vs) ≡ get_or cs j (pos 0) *ℤ v +ℤ dot (dropped (suc j) cs) vs
dropped_step zero [] v vs = rw (Int.zero-*ℤ v) (omega int_laws)
dropped_step zero (c ∷ cs) v vs = refl
dropped_step (suc j) [] v vs = rw (Int.zero-*ℤ v) (omega int_laws)
dropped_step (suc j) (c ∷ cs) v vs = dropped_step j cs v vs

dropped_nil : (j : ℕ) (cs : List ℤ) → dot (dropped j cs) [] ≡ pos 0
dropped_nil zero [] = refl
dropped_nil zero (c ∷ cs) = refl
dropped_nil (suc j) [] = refl
dropped_nil (suc j) (c ∷ cs) = dropped_nil j cs

-- The values of the outputs at a point.
abbrev pub values : List AffineExpr → List ℤ → List ℤ
values es x = map (λ e. value e x) es

-- The expressions of the inner map are dense over the one space.
abbrev pub IsOver : VarSpace → AffineExpr → Type 0
IsOver space e = (length e.coeffs ≡ total_vars space) × (e.space ≡ space)

compose_terms_exact :
    (space : VarSpace) (oe : AffineExpr) (left j : ℕ) (inner : List AffineExpr) (acc : AffineExpr)
    {r : AffineExpr}
    → compose_terms oe left j inner acc ≡ ok r
    → left ≡ length inner
    → All (IsOver space) inner
    → IsOver space acc
    → IsOver space r
      × ((x : List ℤ) → value r x ≡ value acc x +ℤ dot (dropped j oe.coeffs) (values inner x))
unfolding compose_terms
compose_terms_exact space oe zero j [] acc {r} e hl hi ha =
    subst
      (λ q.
        IsOver space q × ((x : List ℤ) → value q x ≡ value acc x +ℤ dot (dropped j oe.coeffs) []))
      (ok_inj e) (ha, λ x. rw (dropped_nil j oe.coeffs) (omega int_laws))
compose_terms_exact space oe zero j (ie ∷ ies) acc e hl hi ha = absurd (omega arith)
compose_terms_exact space oe (suc left) j [] acc e hl hi ha = absurd (omega arith)
compose_terms_exact space oe (suc left) j (ie ∷ ies) acc e hl hi ha =
    let (scaled, es, e1) = >>=-eq-ok (expr_scale ie (expr_coeff_of oe j)) _ e in
    let (sum, ea, e2) = >>=-eq-ok (expr_add acc scaled) _ e1 in
    let (space_s, width_s, value_s) = expr_scale_exact ie (expr_coeff_of oe j) es in
    let (space_a, width_a, value_a) =
      expr_add_exact acc scaled (ha.0 ∙ sym (width_s ∙ hi.0.0)) ea in
    let (over, rest) =
      compose_terms_exact space oe left (suc j) ies sum e2 (omega arith) hi.1
        (width_a ∙ ha.0, space_a ∙ ha.1) in
    (
      over,
      λ x.
          rw (rest x, value_a x, value_s x, dropped_step j oe.coeffs (value ie x) (values ies x))
            (omega int_laws),
    )

compose_output_exact :
    (inner : AffineMap) (oe : AffineExpr) {r : AffineExpr}
    → compose_output inner oe ≡ ok r
    → inner.n_out ≡ length inner.outputs
    → All (IsOver inner.in_space) inner.outputs
    → IsOver inner.in_space r × ((x : List ℤ) → value r x ≡ value oe (values inner.outputs x))
unfolding compose_output
compose_output_exact inner oe {r} e hl hi =
    let start = from_constant inner.in_space oe.constant in
    let (acc, ea, e1) = >>=-eq-ok (compose_terms oe inner.n_out 0 inner.outputs start) _ e in
    let (over, sum) =
      compose_terms_exact inner.in_space oe inner.n_out 0 inner.outputs start ea hl hi
        (length-replicate (total_vars inner.in_space) (pos 0), refl) in
    let result : (x : List ℤ) → value acc x ≡ value oe (values inner.outputs x) =
      λ x. rw (sum x, zeros_dot (total_vars inner.in_space) x) (omega int_laws) in
    if_ind
      (λ m.
        m ≡ ok r
        → IsOver inner.in_space r × ((x : List ℤ) → value r x ≡ value oe (values inner.outputs x)))
      (within_limits acc)
      (λ _ e2.
        subst
          (λ q.
            IsOver inner.in_space q
            × ((x : List ℤ) → value q x ≡ value oe (values inner.outputs x)))
          (ok_inj e2) (over, result))
      (λ _ e2. cc) e1

dot-append : (cs vs ws : List ℤ) → dot cs (vs ++ ws) ≡ dot cs vs +ℤ dot (dropped (length vs) cs) ws
dot-append [] [] ws = sym (Int.zero-+ℤ (pos 0))
dot-append [] (v ∷ vs) ws = sym (Int.zero-+ℤ (pos 0))
dot-append (c ∷ cs) [] ws = sym (Int.zero-+ℤ (dot (c ∷ cs) ws))
dot-append (c ∷ cs) (v ∷ vs) ws =
    rw (dot-append cs vs ws)
      (sym (Int.+ℤ_assoc (c *ℤ v) (dot cs vs) (dot (dropped (length vs) cs) ws)))

length-values : (es : List AffineExpr) (x : List ℤ) → length (values es x) ≡ length es
length-values [] x = refl
length-values (e ∷ es) x = ap suc (length-values es x)

-- The part of an expression beyond so many coefficients, at the symbols.
abbrev pub symbol_part : ℕ → AffineExpr → List ℤ → ℤ
symbol_part n oe syms = dot (dropped n oe.coeffs) syms

value-append :
    (inner : AffineMap) (oe : AffineExpr) (x syms : List ℤ)
    → inner.n_out ≡ length inner.outputs
    → value oe (values inner.outputs x)
      ≡ value oe (values inner.outputs x ++ syms) -ℤ symbol_part inner.n_out oe syms
value-append inner oe x syms hl =
    let n : length (values inner.outputs x) ≡ inner.n_out =
      length-values inner.outputs x ∙ sym hl in
    rw (dot-append oe.coeffs (values inner.outputs x) syms, n) (omega int_laws)

composed_outputs :
    (inner : AffineMap) (oes rs : List AffineExpr)
    → inner.n_out ≡ length inner.outputs
    → All (IsOver inner.in_space) inner.outputs
    → Traversed (compose_output inner) oes rs
    → All (IsOver inner.in_space) rs
      × ((x syms : List ℤ)
          → values rs x
            ≡ map
                (λ oe. value oe (values inner.outputs x ++ syms) -ℤ symbol_part inner.n_out oe syms)
                oes)
composed_outputs inner oes rs hl hi nil = (tt, λ x syms. refl)
composed_outputs inner oes rs hl hi (cons {x = oe} {y = r} {xs = rest} {ys = out} e t) =
    let (over, one) = compose_output_exact inner oe e hl hi in
    let (all_over, others) = composed_outputs inner rest out hl hi t in
    ((over, all_over), λ x syms. ap₂ ◌∷◌ (one x ∙ value-append inner oe x syms hl) (others x syms))

-- What `mapCompose` computes. Where the outputs of the inner map are as many as it says, and dense
-- over its space, a successful composition is over that space, its outputs are dense over it too,
-- and its values at a point are those of the outer map at the values of the inner one and any
-- symbols, less the terms of the outer map in the symbols: the composition loses these terms.
pub map_compose_exact :
    (outer inner : AffineMap) {r : AffineMap}
    → inner.n_out ≡ length inner.outputs
    → All (IsOver inner.in_space) inner.outputs
    → map_compose outer inner ≡ ok r
    → (r.in_space ≡ inner.in_space)
      × (r.n_out ≡ outer.n_out)
      × All (IsOver inner.in_space) r.outputs
      × ((x syms : List ℤ)
          → values r.outputs x
            ≡ map
                (λ oe. value oe (values inner.outputs x ++ syms) -ℤ symbol_part inner.n_out oe syms)
                outer.outputs)
unfolding map_compose
map_compose_exact outer inner {r} hl hi =
    if_ind (λ m. m ≡ ok r → Exact r) (not (outer.in_space.n_dims == inner.n_out)) (λ _ e. cc)
      (λ _.
        if_ind (λ m. m ≡ ok r → Exact r) (not (outer.in_space.n_syms == inner.in_space.n_syms))
          (λ _ e. cc)
          (λ _ e.
            let (rs, er, e1) = >>=-eq-ok (traverse (compose_output inner) outer.outputs) _ e in
            let (over, same) =
              composed_outputs inner outer.outputs rs hl hi
                (traverse-Traversed (compose_output inner) outer.outputs er) in
            subst Exact (ok_inj e1) (refl, refl, over, same)))
  where
    Exact : AffineMap → Type 0
    Exact q =
        (q.in_space ≡ inner.in_space)
        × (q.n_out ≡ outer.n_out)
        × All (IsOver inner.in_space) q.outputs
        × ((x syms : List ℤ)
            → values q.outputs x
              ≡ map
                  (λ oe.
                    value oe (values inner.outputs x ++ syms) -ℤ symbol_part inner.n_out oe syms)
                  outer.outputs)
