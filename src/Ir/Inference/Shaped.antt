-- ===== src/Ir/Inference/Shaped.antt =====
-- The type of a result has the shape of its tensor.
use mlk.Base.{
  ◌≡◌, ap, subst, Bool, true, false, not, ◌&&◌, ◌||◌, inl, inr, Option, none, some, some_inj, List,
  [], ◌∷◌, if_ind, ◌==◌, length, replicate, is_yes, and_then, Option-cases,
}
use mlk.Base.Int.{eqb_ℤ}
use mlk.Base.Res.{Run, undefined, returns}
use mlk.Ir.Op
use mlk.Ir.Op.{MathOp, is_elementwise_math}
use mlk.Ir.Domain.{Dtype-discrete}
use mlk.Ir.MathType.{MathType, Shape, TensorDescriptor, dynamic_dim, is_scalar_like}
use mlk.Ir.Graph.{AttrValue}
use mlk.Ir.Inference.{
  shaped, unshaped, broadcast_all, all_same_type, all_same_dtype, if_some, infer_elementwise, dim,
  matmul_type, infer_matmul, infer_dot, infer_transpose, asked_rank, infer_reshape, infer_reduce,
  infer_lift, infer_total, infer_type,
}

-- A type with a tensor has the tensor's shape.
abbrev pub IsShaped : MathType → Type 0
IsShaped t = (td : TensorDescriptor) → t.tensor ≡ some td → t.shape ≡ some td.shape

-- The same of a result that may be missing.
unfoldable pub ShapedResult : Option MathType → Type 0
ShapedResult o = (t : MathType) → o ≡ some t → IsShaped t

pub shaped-IsShaped : (s : Shape) (t : MathType) (td : TensorDescriptor) → IsShaped (shaped s t td)
shaped-IsShaped s t td td' e = ap (λ (d : TensorDescriptor). some d.shape) (some_inj e)

pub if_some-Shaped : (b : Bool) (t : MathType) → IsShaped t → ShapedResult (if_some b t)
unfolding ShapedResult
if_some-Shaped true t h u e = subst IsShaped (some_inj e) h
if_some-Shaped false t h u e = cc

pub some-Shaped : (t : MathType) → IsShaped t → ShapedResult (some t)
unfolding ShapedResult
some-Shaped t h u e = subst IsShaped (some_inj e) h

pub and_then-Shaped :
    {A : Type 0} (o : Option A) (f : A → Option MathType)
    → ((a : A) → ShapedResult (f a))
    → ShapedResult (and_then o f)
unfolding ShapedResult
and_then-Shaped none f h u e = cc
and_then-Shaped (some a) f h u e = h a u e

pub infer_elementwise-Shaped :
    (t0 : MathType) (rest : List MathType) → IsShaped t0 → ShapedResult (infer_elementwise t0 rest)
unfolding infer_elementwise
infer_elementwise-Shaped t0 rest h = elim (Option-cases t0.tensor) [
  | inl e ↦
      rw (infer_elementwise, e)
        (if_some-Shaped (all_same_type t0 rest && all_same_dtype t0 rest) t0 h)
  | inr (td, e) ↦
      rw (infer_elementwise, e)
        (and_then-Shaped (broadcast_all td.shape rest) _ (λ acc.
          if_some-Shaped (all_same_dtype t0 rest) (shaped acc t0 td) (shaped-IsShaped acc t0 td)))
]

pub none-Shaped : ShapedResult none
unfolding ShapedResult
none-Shaped t e = cc

pub unshaped-IsShaped : (t : MathType) → IsShaped (unshaped t)
unshaped-IsShaped t td e = cc

-- The same of a run that returns.
unfoldable pub ShapedRun : Run (Option MathType) → Type 0
unfolding ShapedResult
ShapedRun undefined = Unit
ShapedRun (returns o) = ShapedResult o

pub infer_matmul-Shaped : (t0 : MathType) (rest : List MathType) → ShapedRun (infer_matmul t0 rest)
unfolding infer_matmul ShapedRun
infer_matmul-Shaped t0 [] = tt
infer_matmul-Shaped t0 (t1 ∷ _) =
    and_then-Shaped t0.tensor _ (λ a. and_then-Shaped t1.tensor _ (λ b. product a b))
  where
    product : (a b : TensorDescriptor) → ShapedResult (matmul_type t0 a b)
    product a b =
        let s = dim a.shape 0 ∷ dim b.shape 1 ∷ [] in
        unfold matmul_type in
        if_ind ShapedResult (not (is_yes (Dtype-discrete a.element b.element))) (λ _. none-Shaped)
          (λ _.
            if_ind ShapedResult (not (length a.shape == 2) || not (length b.shape == 2))
              (λ _. none-Shaped)
              (λ _.
                if_ind ShapedResult (not (eqb_ℤ (dim a.shape 1) (dim b.shape 0))) (λ _. none-Shaped)
                  (λ _. some-Shaped (shaped s t0 a) (shaped-IsShaped s t0 a))))

pub infer_reshape-Shaped :
    (t0 : MathType) (attr : Option AttrValue) → IsShaped t0 → ShapedRun (infer_reshape t0 attr)
unfolding infer_reshape ShapedRun
infer_reshape-Shaped t0 attr h = elim (Option-cases (asked_rank attr)) [
  | inl e ↦ rw (infer_reshape, e) (some-Shaped t0 h)
  | inr (rank, e) ↦ elim (Option-cases t0.tensor) [
    | inl no_tensor ↦ rw (infer_reshape, e, no_tensor) tt
    | inr (td, tensor) ↦
        rw (infer_reshape, e, tensor)
          (some-Shaped (shaped (replicate rank dynamic_dim) t0 td)
            (shaped-IsShaped (replicate rank dynamic_dim) t0 td))
  ]
]

pub infer_lift-IsShaped :
    (t0 annotated : MathType)
    → IsShaped t0
    → IsShaped annotated
    → IsShaped (infer_lift t0 annotated)
unfolding infer_lift
infer_lift-IsShaped t0 annotated h0 ha = elim (Option-cases annotated.tensor) [
  | inl e ↦ rw (infer_lift, e) h0
  | inr (td, e) ↦
      rw (infer_lift, e)
        (if_ind IsShaped (is_scalar_like t0 && is_yes (Dtype-discrete td.element t0.dtype))
          (λ _. ha) (λ _. h0))
]

pub infer_total-Shaped :
    (op : MathOp) (t0 : MathType) (rest : List MathType) (annotated : MathType)
    → IsShaped t0
    → IsShaped annotated
    → ShapedResult (infer_total op t0 rest annotated)
unfolding infer_total infer_dot infer_transpose infer_reduce
infer_total-Shaped Op.dot t0 rest annotated h0 ha =
    and_then-Shaped t0.tensor _
      (λ td. if_some-Shaped (length td.shape == 1) (unshaped t0) (unshaped-IsShaped t0))
infer_total-Shaped Op.transpose t0 rest annotated h0 ha = and_then-Shaped t0.tensor _ (λ td.
    if_some-Shaped (length td.shape == 2) _
      (shaped-IsShaped (dim td.shape 1 ∷ dim td.shape 0 ∷ []) t0 td))
infer_total-Shaped Op.reduce_sum t0 rest annotated h0 ha =
    and_then-Shaped t0.tensor _ (λ td. some-Shaped (unshaped t0) (unshaped-IsShaped t0))
infer_total-Shaped Op.reduce_max t0 rest annotated h0 ha =
    and_then-Shaped t0.tensor _ (λ td. some-Shaped (unshaped t0) (unshaped-IsShaped t0))
infer_total-Shaped Op.reduce_mean t0 rest annotated h0 ha =
    and_then-Shaped t0.tensor _ (λ td. some-Shaped (unshaped t0) (unshaped-IsShaped t0))
infer_total-Shaped Op.int_to_float t0 rest annotated h0 ha = some-Shaped _ (λ td e. h0 td e)
infer_total-Shaped Op.float_to_int t0 rest annotated h0 ha = some-Shaped _ (λ td e. h0 td e)
infer_total-Shaped Op.real_to_complex t0 rest annotated h0 ha = some-Shaped _ (λ td e. h0 td e)
infer_total-Shaped Op.scalar_to_tensor t0 rest annotated h0 ha =
    some-Shaped (infer_lift t0 annotated) (infer_lift-IsShaped t0 annotated h0 ha)
infer_total-Shaped op t0 rest annotated h0 ha =
    if_ind ShapedResult (is_elementwise_math op) (λ _. infer_elementwise-Shaped t0 rest h0)
      (λ _. some-Shaped t0 h0)

pub infer_type-Shaped :
    (op : MathOp) (t0 : MathType) (rest : List MathType) (attr : Option AttrValue)
    (annotated : MathType)
    → IsShaped t0
    → IsShaped annotated
    → ShapedRun (infer_type op t0 rest attr annotated)
unfolding infer_type ShapedRun
infer_type-Shaped Op.mat_mul t0 rest attr annotated h0 ha = infer_matmul-Shaped t0 rest
infer_type-Shaped Op.reshape t0 rest attr annotated h0 ha = infer_reshape-Shaped t0 attr h0
infer_type-Shaped op t0 rest attr annotated h0 ha = infer_total-Shaped op t0 rest annotated h0 ha
