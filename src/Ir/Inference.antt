-- ===== src/Ir/Inference.antt =====
-- compiler/src/type/type_inference.cpp: the types of results from the types of operands.
pub mod Defined
pub mod Shaped
pub mod Shapes
use mlk.Base.{
  ℕ, suc, ◌+◌, Bool, true, false, not, ◌&&◌, ◌||◌, Option, none, some, List, [], ◌∷◌, map,
  if◌then◌else◌, ◌==◌, ltb, length, get_elem?, get_or, replicate, is_yes, and_then,
}
use mlk.Base.Int.{ℤ, pos, negsuc, eqb_ℤ, ltb_ℤ, leb_ℤ, pos_part}
use mlk.Base.Res.{Run, undefined, returns, after, Result, ok, err, invalid_graph}
use mlk.Ir.Op
use mlk.Ir.Op.{MathOp, is_elementwise_math}
use mlk.Ir.Domain
use mlk.Ir.Domain.{Dtype-discrete, Domain-discrete}
use mlk.Ir.MathType.{
  MathType, default_type, Shape, TensorDescriptor, dynamic_dim, broadcast, type_equal,
  is_scalar_like, max_rank,
}
use mlk.Ir.Graph.{Node, Value, MathGraph, AttrValue, int_attr, find_attr, Attr}
use mlk.Ir.Graph.Edit.{is_dead, topo_order, change_value}

-- The type with a shape, and with the shape of its tensor.
abbrev pub shaped : Shape → MathType → TensorDescriptor → MathType
shaped s t td = record t { shape = some s; tensor = some (record td { shape = s }) }

abbrev pub unshaped : MathType → MathType
unshaped t = record t { shape = none; tensor = none }

-- The loop that broadcasts the shapes of the operands after the first.
unfoldable pub broadcast_all : Shape → List MathType → Option Shape
broadcast_all acc [] = some acc
broadcast_all acc (ti ∷ rest) =
    and_then ti.tensor
      (λ td. and_then (broadcast acc td.shape) (λ merged. broadcast_all merged rest))

abbrev pub all_same_type : MathType → List MathType → Bool
all_same_type t0 [] = true
all_same_type t0 (ti ∷ rest) = type_equal ti t0 && all_same_type t0 rest

abbrev pub all_same_dtype : MathType → List MathType → Bool
all_same_dtype t0 [] = true
all_same_dtype t0 (ti ∷ rest) = is_yes (Dtype-discrete ti.dtype t0.dtype) && all_same_dtype t0 rest

abbrev pub if_some : {A : Type 0} → Bool → A → Option A
if_some b a = if b then some a else none

unfoldable pub infer_elementwise : MathType → List MathType → Option MathType
infer_elementwise t0 rest = elim t0.tensor [
  | some td ↦
      and_then (broadcast_all td.shape rest)
        (λ acc. if_some (all_same_dtype t0 rest) (shaped acc t0 td))
  | none ↦ if_some (all_same_type t0 rest && all_same_dtype t0 rest) t0
]

-- A dimension by its index.
abbrev pub dim : Shape → ℕ → ℤ
dim s i = get_or s i (pos 0)

unfoldable pub matmul_type : MathType → TensorDescriptor → TensorDescriptor → Option MathType
matmul_type t0 a b =
    if not (is_yes (Dtype-discrete a.element b.element))
    then none
    else if not (length a.shape == 2) || not (length b.shape == 2)
    then none
    else if not (eqb_ℤ (dim a.shape 1) (dim b.shape 0))
    then none
    else some (shaped (dim a.shape 0 ∷ dim b.shape 1 ∷ []) t0 a)

-- Operand 1 is read without a test that it is there.
unfoldable pub infer_matmul : MathType → List MathType → Run (Option MathType)
infer_matmul t0 [] = undefined
infer_matmul t0 (t1 ∷ _) =
    returns (and_then t0.tensor (λ a. and_then t1.tensor (λ b. matmul_type t0 a b)))

unfoldable pub infer_dot : MathType → Option MathType
infer_dot t0 = and_then t0.tensor (λ td. if_some (length td.shape == 1) (unshaped t0))

unfoldable pub infer_transpose : MathType → Option MathType
infer_transpose t0 =
    and_then t0.tensor
      (λ td. if_some (length td.shape == 2) (shaped (dim td.shape 1 ∷ dim td.shape 0 ∷ []) t0 td))

-- The rank that the attribute `shape_dims` asks for, if it is an int64_t from 0 to kMaxRank.
abbrev pub asked_rank : Option AttrValue → Option ℕ
asked_rank (some (int_attr r)) =
    if leb_ℤ (pos 0) r && leb_ℤ r (pos max_rank) then some (pos_part r) else none
asked_rank _ = none

-- A new shape is written through `out.tensor`, also where that is empty.
unfoldable pub infer_reshape : MathType → Option AttrValue → Run (Option MathType)
infer_reshape t0 attr = elim (asked_rank attr) [
  | none ↦ returns (some t0)
  | some rank ↦ elim t0.tensor [
    | some td ↦ returns (some (shaped (replicate rank dynamic_dim) t0 td))
    | none ↦ undefined
  ]
]

unfoldable pub infer_reduce : MathType → Option MathType
infer_reduce t0 = and_then t0.tensor (λ td. some (unshaped t0))

-- The annotation of the result, where it is a tensor of the scalar operand's element type.
unfoldable pub infer_lift : MathType → MathType → MathType
infer_lift t0 annotated = elim annotated.tensor [
  | none ↦ t0
  | some td ↦
      if is_scalar_like t0 && is_yes (Dtype-discrete td.element t0.dtype) then annotated else t0
]

-- The operations whose inference is defined on every type.
unfoldable pub infer_total : MathOp → MathType → List MathType → MathType → Option MathType
infer_total Op.dot t0 rest annotated = infer_dot t0
infer_total Op.transpose t0 rest annotated = infer_transpose t0
infer_total Op.reduce_sum t0 rest annotated = infer_reduce t0
infer_total Op.reduce_max t0 rest annotated = infer_reduce t0
infer_total Op.reduce_mean t0 rest annotated = infer_reduce t0
infer_total Op.int_to_float t0 rest annotated =
    some (record t0 { domain = Domain.Domain.float; dtype = Domain.Dtype.f64 })
infer_total Op.float_to_int t0 rest annotated =
    some (record t0 { domain = Domain.Domain.int; dtype = Domain.Dtype.i64 })
infer_total Op.real_to_complex t0 rest annotated =
    some (record t0 { domain = Domain.Domain.complex; dtype = Domain.Dtype.c128 })
infer_total Op.scalar_to_tensor t0 rest annotated = some (infer_lift t0 annotated)
infer_total op t0 rest annotated =
    if is_elementwise_math op then infer_elementwise t0 rest else some t0

-- The operands by their types, the first apart; the attribute `shape_dims`; and the type that the
-- result has so far.
unfoldable pub infer_type :
    MathOp → MathType → List MathType → Option AttrValue → MathType → Run (Option MathType)
infer_type Op.mat_mul t0 rest attr annotated = infer_matmul t0 rest
infer_type Op.reshape t0 rest attr annotated = infer_reshape t0 attr
infer_type op t0 rest attr annotated = returns (infer_total op t0 rest annotated)

-- The type of a value; an id out of range has none.
abbrev pub type_at : MathGraph → ℕ → MathType
type_at g v = elim (get_elem? g.values v) [ none ↦ default_type | some val ↦ val.type ]

abbrev pub first_or : List ℕ → ℕ
first_or [] = 0
first_or (v ∷ _) = v

abbrev pub tail_of : List ℕ → List ℕ
tail_of [] = []
tail_of (_ ∷ vs) = vs

-- `inferResultType` of a node; `shape_dims` is the interned name of the attribute.
unfoldable pub infer_result_type : ℕ → MathGraph → Node → Run (Option MathType)
infer_result_type shape_dims g n =
    infer_type n.op (type_at g (first_or n.inputs)) (map (type_at g) (tail_of n.inputs))
      (find_attr n.attrs shape_dims) (type_at g (first_or n.results))

abbrev pub null : List ℕ → Bool
null [] = true
null (_ ∷ _) = false

abbrev pub set_type : MathType → Value → Value
set_type t v = record v { type = t }

-- What the loop of `inferTypes` does with an inferred type.
abbrev pub retype : MathGraph → ℕ → Option MathType → Result (ℕ × MathGraph)
retype g result none = err invalid_graph
retype g result (some inferred) =
    if type_equal (type_at g result) inferred
    then ok (0, g)
    else ok (1, record g { values = change_value (set_type inferred) result g.values })

-- The body of that loop, and the loop over the nodes.
unfoldable pub infer_step : ℕ → MathGraph → Node → Run (Result (ℕ × MathGraph))
infer_step shape_dims g n =
    if is_dead n || null n.inputs
    then returns (ok (0, g))
    else after (infer_result_type shape_dims g n) (λ o. returns (retype g (first_or n.results) o))

-- Go on after a step that did not fail.
abbrev pub on_step :
    Result (ℕ × MathGraph)
    → (ℕ → MathGraph → Run (Result (ℕ × MathGraph)))
    → Run (Result (ℕ × MathGraph))
on_step (err code) next = returns (err code)
on_step (ok (more, g)) next = next more g

unfoldable pub infer_nodes : ℕ → List ℕ → MathGraph → ℕ → Run (Result (ℕ × MathGraph))
infer_nodes shape_dims [] g changed = returns (ok (changed, g))
infer_nodes shape_dims (nid ∷ nids) g changed = elim (get_elem? g.nodes nid) [
  | none ↦ infer_nodes shape_dims nids g changed
  | some n ↦
      after (infer_step shape_dims g n)
        (λ done. on_step done (λ more g'. infer_nodes shape_dims nids g' (changed + more)))
]

-- `inferTypes`, with the number of types that it changed.
unfoldable pub infer_types : ℕ → MathGraph → Run (Result (ℕ × MathGraph))
infer_types shape_dims g = after (infer_nodes shape_dims (topo_order g.nodes) g 0) (λ done.
    on_step done (λ changed g'. returns (ok (changed, record g' { version = suc g'.version }))))

-- The shape of a value and that of its tensor have different ranks.
abbrev pub rank_mismatch : MathType → Bool
rank_mismatch t = elim t.shape [
  | none ↦ false
  | some s ↦ elim t.tensor [ none ↦ false | some td ↦ not (length s == length td.shape) ]
]

unfoldable pub check_shapes : List Value → ℕ → Result ℕ
check_shapes [] validated = ok validated
check_shapes (v ∷ vs) validated =
    let rest = check_shapes vs (suc validated) in
    if rank_mismatch v.type then err invalid_graph else rest

-- `inferShapes`
unfoldable pub infer_shapes : MathGraph → Result ℕ
unfolding check_shapes
infer_shapes g = check_shapes g.values 0
