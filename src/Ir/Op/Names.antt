-- ===== src/Ir/Op/Names.antt =====
-- The names of the operations tell them apart.
use Prim.Native.String.{String}
use text.Mathlib.Text.{◌==◌}
use text.Mathlib.TextEquality.{eq_iff}
use mlk.Base.{
  ◌≡◌, refl, sym, ap, ◌∙◌, ◌↔◌, Bool, true, ◌&&◌, and_parts, some, some_inj, List, [], ◌∷◌, if_ind,
}
use mlk.Ir.Op

-- The entries name each operation by its own name.
names_agree : List Op.OpInfo → Bool
names_agree [] = true
names_agree (info ∷ infos) = Op.op_name info.op == info.name && names_agree infos

find_name-names :
    (name : String) (infos : List Op.OpInfo) {op : Op.MathOp}
    → names_agree infos ≡ true
    → Op.find_name name infos ≡ some op
    → name ≡ Op.op_name op
unfolding names_agree
find_name-names name [] h e = cc
find_name-names name (info ∷ infos) {op} h e =
    let (here, later) = and_parts (Op.op_name info.op == info.name) (names_agree infos) h in
    if_ind (λ o. o ≡ some op → name ≡ Op.op_name op) (info.name == name)
      (λ same e'.
        sym ((eq_iff (Op.op_name info.op) info.name).0 here ∙ (eq_iff info.name name).0 same)
        ∙ ap Op.op_name (some_inj e'))
      (λ _ e'. find_name-names name infos later e') e

op_table-names : names_agree Op.op_table ≡ true
unfolding names_agree Op.op_info
op_table-names = refl

op_by_name-op_name : (op : Op.MathOp) → Op.op_by_name (Op.op_name op) ≡ some op
unfolding Op.op_by_name Op.op_info
op_by_name-op_name Op.add = refl
op_by_name-op_name Op.sub = refl
op_by_name-op_name Op.mul = refl
op_by_name-op_name Op.div = refl
op_by_name-op_name Op.neg = refl
op_by_name-op_name Op.pow = refl
op_by_name-op_name Op.exp = refl
op_by_name-op_name Op.log = refl
op_by_name-op_name Op.sin = refl
op_by_name-op_name Op.cos = refl
op_by_name-op_name Op.tan = refl
op_by_name-op_name Op.tanh = refl
op_by_name-op_name Op.sqrt = refl
op_by_name-op_name Op.rsqrt = refl
op_by_name-op_name Op.erf = refl
op_by_name-op_name Op.gelu = refl
op_by_name-op_name Op.mat_mul = refl
op_by_name-op_name Op.dot = refl
op_by_name-op_name Op.transpose = refl
op_by_name-op_name Op.reshape = refl
op_by_name-op_name Op.broadcast = refl
op_by_name-op_name Op.reduce_sum = refl
op_by_name-op_name Op.reduce_max = refl
op_by_name-op_name Op.reduce_mean = refl
op_by_name-op_name Op.softmax = refl
op_by_name-op_name Op.einsum = refl
op_by_name-op_name Op.conv = refl
op_by_name-op_name Op.derivative = refl
op_by_name-op_name Op.integral = refl
op_by_name-op_name Op.gradient = refl
op_by_name-op_name Op.limit = refl
op_by_name-op_name Op.solve = refl
op_by_name-op_name Op.apply = refl
op_by_name-op_name Op.lambda = refl
op_by_name-op_name Op.int_to_float = refl
op_by_name-op_name Op.float_to_int = refl
op_by_name-op_name Op.real_to_complex = refl
op_by_name-op_name Op.scalar_to_tensor = refl
op_by_name-op_name Op.tensor_to_scalar = refl
op_by_name-op_name Op.layout_transform = refl
op_by_name-op_name Op.reinterpret = refl
op_by_name-op_name Op.bit_cast = refl
op_by_name-op_name Op.box = refl
op_by_name-op_name Op.unbox = refl
op_by_name-op_name Op.native_to_math_ref = refl
op_by_name-op_name Op.math_to_native_ref = refl

-- Reading a name undoes printing it: `opByName` finds an operation exactly for the name that `opName`
-- gives it, so that the names of the table are all different, and any other text is refused.
pub op_by_name_exact :
    (name : String) (op : Op.MathOp) → Op.op_by_name name ≡ some op ↔ name ≡ Op.op_name op
unfolding Op.op_by_name
op_by_name_exact name op = (
  find_name-names name Op.op_table op_table-names,
  λ e. ap Op.op_by_name e ∙ op_by_name-op_name op,
)
