-- ===== src/Ir/Inference/Defined.antt =====
-- Where the inference of a node is defined.
use mlk.Base.{
  ℕ, ◌<◌, ◌≡◌, ◌≢◌, ◌⊎◌, refl, subst, true, inl, inr, Option, Option-cases, none, some, List, [],
  ◌∷◌, map, replicate, length, arith,
}
use mlk.Base.Res.{returns}
use mlk.Ir.Op
use mlk.Ir.Op.{MathOp, arity_accepts}
use mlk.Ir.MathType.{MathType, TensorDescriptor, dynamic_dim}
use mlk.Ir.Graph.{Node, MathGraph, AttrValue, find_attr}
use mlk.Ir.Inference.{
  infer_matmul, infer_reshape, infer_type, infer_result_type, asked_rank, type_at, first_or,
  tail_of, shaped,
}

-- A Reshape that asks for a rank does so of a tensor.
abbrev pub ReshapesTensor : MathOp → MathType → Option AttrValue → Type 0
ReshapesTensor op t0 attr =
    (op ≢ Op.reshape) ⊎ (asked_rank attr ≡ none) ⊎ ((td : TensorDescriptor) × (t0.tensor ≡ some td))

-- The same of a node of a graph, by its first operand and its attribute.
abbrev pub NodeReshapes : ℕ → MathGraph → Node → Type 0
NodeReshapes shape_dims g n =
    ReshapesTensor n.op (type_at g (first_or n.inputs)) (find_attr n.attrs shape_dims)

reshape_defined :
    (t0 : MathType) (attr : Option AttrValue)
    → ReshapesTensor Op.reshape t0 attr
    → (o : Option MathType) × (infer_reshape t0 attr ≡ returns o)
unfolding infer_reshape
reshape_defined t0 attr (inl differ) = absurd (differ refl)
reshape_defined t0 attr (inr (inl no_rank)) = (some t0, rw (infer_reshape, no_rank) refl)
reshape_defined t0 attr (inr (inr (td, tensor))) = elim (Option-cases (asked_rank attr)) [
  | inl no_rank ↦ (some t0, rw (infer_reshape, no_rank) refl)
  | inr (rank, asked) ↦
      (some (shaped (replicate rank dynamic_dim) t0 td), rw (infer_reshape, asked, tensor) refl)
]

none_below : ¬ (0 < 0)
none_below h = omega (arith, h)

infer_type_defined :
    (op : MathOp) (t0 : MathType) (rest : List MathType) (attr : Option AttrValue)
    (annotated : MathType)
    → (op ≡ Op.mat_mul → 0 < length rest)
    → ReshapesTensor op t0 attr
    → (o : Option MathType) × (infer_type op t0 rest attr annotated ≡ returns o)
unfolding infer_type infer_matmul
infer_type_defined Op.mat_mul t0 [] attr annotated two reshapes = absurd (none_below (two refl))
infer_type_defined Op.mat_mul t0 (t1 ∷ _) attr annotated two reshapes = (_, refl)
infer_type_defined Op.reshape t0 rest attr annotated two reshapes = reshape_defined t0 attr reshapes
infer_type_defined op t0 rest attr annotated two reshapes = (_, refl)

second_operand :
    (g : MathGraph) (inputs : List ℕ)
    → arity_accepts Op.mat_mul (length inputs) ≡ true
    → 0 < length (map (type_at g) (tail_of inputs))
unfolding arity_accepts
second_operand g [] h = cc
second_operand g (_ ∷ []) h = cc
second_operand g (_ ∷ _ ∷ _) h = omega arith

-- The inference of a node of legal arity is defined, unless it reshapes a value with no tensor.
pub infer_result_type_defined :
    (shape_dims : ℕ) (g : MathGraph) (n : Node)
    → arity_accepts n.op (length n.inputs) ≡ true
    → NodeReshapes shape_dims g n
    → (o : Option MathType) × (infer_result_type shape_dims g n ≡ returns o)
unfolding infer_result_type
infer_result_type_defined shape_dims g n arity reshapes =
    infer_type_defined n.op _ _ _ _
      (λ e.
        second_operand g n.inputs (subst (λ op. arity_accepts op (length n.inputs) ≡ true) e arity))
      reshapes
