-- ===== src/Ir/MathType.antt =====
-- compiler/include/mlk/type/shape.h and math_type.h, with `Shape::broadcast` of
-- compiler/src/type/domain.cpp: the mathematical types of values.
pub mod Equal
pub mod Broadcast
use mlk.Base.{
  ℕ, zero, suc, ◌+◌, ◌-◌, Bool, true, false, not, ◌&&◌, Option, none, some, List, [], ◌∷◌,
  if◌then◌else◌, ltb, length, get_or, is_yes,
}
use mlk.Base.Int.{ℤ, pos, negsuc, eqb_ℤ, mul64}
use mlk.Ir.Domain.{
  Domain, Dtype, AlgebraicClass, Differentiability, Domain-discrete, Dtype-discrete,
  AlgebraicClass-discrete, Differentiability-discrete,
}

-- kMaxRank
abbrev pub max_rank : ℕ
max_rank = 8

-- kDynamicDim
abbrev pub dynamic_dim : ℤ
dynamic_dim = negsuc 0

abbrev pub Shape : Type 0
Shape = List ℤ

abbrev pub has_dynamic : Shape → Bool
has_dynamic [] = false
has_dynamic (d ∷ ds) = if eqb_ℤ d dynamic_dim then true else has_dynamic ds

abbrev numel_of : ℤ → Shape → Option ℤ
numel_of n [] = some n
numel_of n (d ∷ ds) = if eqb_ℤ d dynamic_dim then none else numel_of (mul64 n d) ds

-- `Shape::numel`, a product of int64_t.
unfoldable pub numel : Shape → Option ℤ
numel s = numel_of (pos 1) s

-- `Shape::operator==`
abbrev pub shape_equal : Shape → Shape → Bool
shape_equal [] [] = true
shape_equal [] (b ∷ bs) = false
shape_equal (a ∷ as') [] = false
shape_equal (a ∷ as') (b ∷ bs) = eqb_ℤ a b && shape_equal as' bs

-- The dimension `i` of a shape of rank `ra` in a result of rank `r`.
abbrev pub dim_at : ℕ → Shape → ℕ → ℤ
dim_at r a i = if ltb i (r - length a) then pos 1 else get_or a (i - (r - length a)) (pos 0)

unfoldable pub merge_dim : ℤ → ℤ → Option ℤ
merge_dim da db =
    if eqb_ℤ da db
    then some da
    else if eqb_ℤ da (pos 1)
    then some db
    else if eqb_ℤ db (pos 1)
    then some da
    else if eqb_ℤ da dynamic_dim
    then some db
    else if eqb_ℤ db dynamic_dim
    then some da
    else none

abbrev pub put_dim : Option ℤ → Option Shape → Option Shape
put_dim none rest = none
put_dim (some d) none = none
put_dim (some d) (some ds) = some (d ∷ ds)

-- The loop of `Shape::broadcast`, `left` dimensions from `i` on.
unfoldable pub broadcast_from : Shape → Shape → ℕ → ℕ → ℕ → Option Shape
broadcast_from a b r zero i = some []
broadcast_from a b r (suc left) i =
    put_dim (merge_dim (dim_at r a i) (dim_at r b i)) (broadcast_from a b r left (suc i))

abbrev pub larger : ℕ → ℕ → ℕ
larger ra rb = if ltb rb ra then ra else rb

unfoldable pub broadcast : Shape → Shape → Option Shape
broadcast a b =
    if ltb max_rank (larger (length a) (length b))
    then none
    else broadcast_from a b (larger (length a) (length b)) (larger (length a) (length b)) 0

pub record TensorDescriptor : Type 0 where
  pub element : Dtype
  pub shape : Shape
  pub strides : List ℤ
  pub contiguous : Bool

pub record FunctionSig : Type 0 where
  pub params : List Domain
  pub result : Domain

pub record MathType : Type 0 where
  pub domain : Domain
  pub algebra : AlgebraicClass
  pub diff : Differentiability
  pub dtype : Dtype
  pub shape : Option Shape
  pub tensor : Option TensorDescriptor
  pub func : Option FunctionSig

abbrev pub is_scalar_like : MathType → Bool
is_scalar_like t = elim t.shape [
  | some _ ↦ false
  | none ↦ elim t.tensor [ some _ ↦ false | none ↦ elim t.func [ some _ ↦ false | none ↦ true ] ]
]

abbrev pub bool_eq : Bool → Bool → Bool
bool_eq true b = b
bool_eq false b = not b

unfoldable pub tensor_equal : TensorDescriptor → TensorDescriptor → Bool
tensor_equal a b =
    is_yes (Dtype-discrete a.element b.element)
    && shape_equal a.shape b.shape
    && shape_equal a.strides b.strides
    && bool_eq a.contiguous b.contiguous

abbrev pub params_equal : List Domain → List Domain → Bool
params_equal [] [] = true
params_equal [] (b ∷ bs) = false
params_equal (a ∷ as') [] = false
params_equal (a ∷ as') (b ∷ bs) = is_yes (Domain-discrete a b) && params_equal as' bs

unfoldable pub sig_equal : FunctionSig → FunctionSig → Bool
sig_equal a b = is_yes (Domain-discrete a.result b.result) && params_equal a.params b.params

-- Equality of `std::optional`.
abbrev pub option_equal : {A : Type 0} → (A → A → Bool) → Option A → Option A → Bool
option_equal eq none none = true
option_equal eq none (some b) = false
option_equal eq (some a) none = false
option_equal eq (some a) (some b) = eq a b

-- `MathType::operator==`
unfoldable pub type_equal : MathType → MathType → Bool
type_equal a b =
    is_yes (Domain-discrete a.domain b.domain)
    && is_yes (AlgebraicClass-discrete a.algebra b.algebra)
    && is_yes (Differentiability-discrete a.diff b.diff)
    && is_yes (Dtype-discrete a.dtype b.dtype)
    && option_equal shape_equal a.shape b.shape
    && option_equal tensor_equal a.tensor b.tensor
    && option_equal sig_equal a.func b.func

-- A type with every field at its default.
abbrev pub default_type : MathType
default_type = record {
  domain = Domain.unknown;
  algebra = AlgebraicClass.unknown;
  diff = Differentiability.unknown;
  dtype = Dtype.none;
  shape = none;
  tensor = none;
  func = none;
}
