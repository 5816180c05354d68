-- ===== src/Ir/Op.antt =====
-- compiler/include/mlk/ir/math_op.h and compiler/src/ir/math_op.cpp: the operations of the graph,
-- with the table of their names and arities.
pub mod Names
use Prim.Native.String.{String, ◌++◌}
use text.Mathlib.Text.{◌==◌}
use mlk.Base.{
  ℕ, suc, Bool, true, false, ◌&&◌, ◌||◌, Option, none, some, List, [], ◌∷◌, if◌then◌else◌, leb,
  get_or,
}

pub data MathOp : Type 0 where
  add sub mul div neg pow : MathOp
  exp log sin cos tan tanh sqrt rsqrt erf gelu : MathOp
  mat_mul dot transpose reshape broadcast reduce_sum reduce_max reduce_mean softmax einsum conv :
      MathOp
  derivative integral gradient limit : MathOp
  solve apply lambda : MathOp
  int_to_float float_to_int real_to_complex scalar_to_tensor tensor_to_scalar layout_transform
        reinterpret bit_cast box unbox native_to_math_ref math_to_native_ref :
      MathOp

-- The value of the enumerator.
abbrev pub op_index : MathOp → ℕ
op_index add = 0
op_index sub = 1
op_index mul = 2
op_index div = 3
op_index neg = 4
op_index pow = 5
op_index exp = 6
op_index log = 7
op_index sin = 8
op_index cos = 9
op_index tan = 10
op_index tanh = 11
op_index sqrt = 12
op_index rsqrt = 13
op_index erf = 14
op_index gelu = 15
op_index mat_mul = 16
op_index dot = 17
op_index transpose = 18
op_index reshape = 19
op_index broadcast = 20
op_index reduce_sum = 21
op_index reduce_max = 22
op_index reduce_mean = 23
op_index softmax = 24
op_index einsum = 25
op_index conv = 26
op_index derivative = 27
op_index integral = 28
op_index gradient = 29
op_index limit = 30
op_index solve = 31
op_index apply = 32
op_index lambda = 33
op_index int_to_float = 34
op_index float_to_int = 35
op_index real_to_complex = 36
op_index scalar_to_tensor = 37
op_index tensor_to_scalar = 38
op_index layout_transform = 39
op_index reinterpret = 40
op_index bit_cast = 41
op_index box = 42
op_index unbox = 43
op_index native_to_math_ref = 44
op_index math_to_native_ref = 45

-- `max` is 255 where the operation takes any number of operands.
pub record OpArity : Type 0 where
  pub min : ℕ
  pub max : ℕ

pub record OpInfo : Type 0 where
  pub op : MathOp
  pub name : String
  pub arity : OpArity

abbrev pub arity1 : OpArity
arity1 = record { min = 1; max = 1 }

abbrev pub arity2 : OpArity
arity2 = record { min = 2; max = 2 }

abbrev pub arityv : OpArity
arityv = record { min = 1; max = 255 }

abbrev entry : MathOp → String → OpArity → OpInfo
entry op name arity = record { op = op; name = name; arity = arity }

-- kOpTable
abbrev pub op_table : List OpInfo
op_table =
    entry add "add" arityv
    ∷ entry sub "sub" arity2
    ∷ entry mul "mul" arityv
    ∷ entry div "div" arity2
    ∷ entry neg "neg" arity1
    ∷ entry pow "pow" arity2
    ∷ entry exp "exp" arity1
    ∷ entry log "log" arity1
    ∷ entry sin "sin" arity1
    ∷ entry cos "cos" arity1
    ∷ entry tan "tan" arity1
    ∷ entry tanh "tanh" arity1
    ∷ entry sqrt "sqrt" arity1
    ∷ entry rsqrt "rsqrt" arity1
    ∷ entry erf "erf" arity1
    ∷ entry gelu "gelu" arity1
    ∷ entry mat_mul "matmul" arity2
    ∷ entry dot "dot" arity2
    ∷ entry transpose "transpose" arity1
    ∷ entry reshape "reshape" arity1
    ∷ entry broadcast "broadcast" arity1
    ∷ entry reduce_sum "reduce_sum" arity1
    ∷ entry reduce_max "reduce_max" arity1
    ∷ entry reduce_mean "reduce_mean" arity1
    ∷ entry softmax "softmax" arity1
    ∷ entry einsum "einsum" arity2
    ∷ entry conv "conv" arity2
    ∷ entry derivative "derivative" arity2
    ∷ entry integral "integral" arity1
    ∷ entry gradient "gradient" arity2
    ∷ entry limit "limit" arity2
    ∷ entry solve "solve" arity2
    ∷ entry apply "apply" arityv
    ∷ entry lambda "lambda" arityv
    ∷ entry int_to_float "int_to_float" arity1
    ∷ entry float_to_int "float_to_int" arity1
    ∷ entry real_to_complex "real_to_complex" arity1
    ∷ entry scalar_to_tensor "scalar_to_tensor" arity1
    ∷ entry tensor_to_scalar "tensor_to_scalar" arity1
    ∷ entry layout_transform "layout_transform" arity1
    ∷ entry reinterpret "reinterpret" arity1
    ∷ entry bit_cast "bitcast" arity1
    ∷ entry box "box" arity1
    ∷ entry unbox "unbox" arity1
    ∷ entry native_to_math_ref "native_to_math_ref" arity1
    ∷ entry math_to_native_ref "math_to_native_ref" arity1
    ∷ []

-- An index past the end of the table reads its first entry.
unfoldable pub op_info : MathOp → OpInfo
op_info op = get_or op_table (op_index op) (entry add "add" arityv)

abbrev pub op_name : MathOp → String
op_name op = (op_info op).name

-- The name of the result of a node.
unfoldable pub result_name : MathOp → String
unfolding op_info
result_name op = op_name op ++ "_out"

abbrev pub find_name : String → List OpInfo → Option MathOp
find_name name [] = none
find_name name (info ∷ infos) = if info.name == name then some info.op else find_name name infos

-- `opByName`; `none` is the answer false.
unfoldable pub op_by_name : String → Option MathOp
op_by_name name = find_name name op_table

unfoldable pub is_variadic : MathOp → Bool
unfolding op_info
is_variadic op = leb 255 (op_info op).arity.max

unfoldable pub arity_accepts : MathOp → ℕ → Bool
unfolding op_info
arity_accepts op n =
    leb (op_info op).arity.min n && (leb 255 (op_info op).arity.max || leb n (op_info op).arity.max)

unfoldable pub is_elementwise_math : MathOp → Bool
is_elementwise_math add = true
is_elementwise_math sub = true
is_elementwise_math mul = true
is_elementwise_math div = true
is_elementwise_math neg = true
is_elementwise_math pow = true
is_elementwise_math exp = true
is_elementwise_math log = true
is_elementwise_math sin = true
is_elementwise_math cos = true
is_elementwise_math tan = true
is_elementwise_math tanh = true
is_elementwise_math sqrt = true
is_elementwise_math rsqrt = true
is_elementwise_math erf = true
is_elementwise_math gelu = true
is_elementwise_math _ = false

unfoldable pub is_reduction : MathOp → Bool
is_reduction reduce_sum = true
is_reduction reduce_max = true
is_reduction reduce_mean = true
is_reduction dot = true
is_reduction _ = false

unfoldable pub is_tensor_op : MathOp → Bool
unfolding is_reduction
is_tensor_op mat_mul = true
is_tensor_op transpose = true
is_tensor_op reshape = true
is_tensor_op broadcast = true
is_tensor_op softmax = true
is_tensor_op einsum = true
is_tensor_op conv = true
is_tensor_op layout_transform = true
is_tensor_op op = is_reduction op

unfoldable pub is_calculus_op : MathOp → Bool
is_calculus_op derivative = true
is_calculus_op integral = true
is_calculus_op gradient = true
is_calculus_op limit = true
is_calculus_op _ = false

unfoldable pub is_conversion_op : MathOp → Bool
is_conversion_op int_to_float = true
is_conversion_op float_to_int = true
is_conversion_op real_to_complex = true
is_conversion_op scalar_to_tensor = true
is_conversion_op tensor_to_scalar = true
is_conversion_op layout_transform = true
is_conversion_op reinterpret = true
is_conversion_op bit_cast = true
is_conversion_op box = true
is_conversion_op unbox = true
is_conversion_op native_to_math_ref = true
is_conversion_op math_to_native_ref = true
is_conversion_op _ = false
