-- ===== src/Ir/Graph.antt =====
-- compiler/include/mlk/ir/node.h, value.h, attrs.h and math_graph.h with compiler/src/ir/math_graph.cpp,
-- and the effects of a node (compiler/include/mlk/effect/effect_chain.h and
-- compiler/src/effect/effect_inference.cpp). The cached hashes are left out.
pub mod Edit
pub mod Renumber
use mlk.Base.{
  ℕ, zero, suc, ◌+◌, ◌^◌, ◌-◌, Bool, true, false, not, ◌&&◌, ◌||◌, Option, none, some, List, [],
  ◌∷◌, ◌++◌, map, if◌then◌else◌, ◌==◌, ltb, length, get_elem?, set, replicate, is_yes,
}
use mlk.Base.Int.{ℤ, pos}
use mlk.Base.Res.{Run, returns, after, Result, ok, err, invalid_graph}
use mlk.Core.SymbolTable.{SymbolTable, intern}
use mlk.Ir.Op.{MathOp, result_name}
use mlk.Ir.Op
use mlk.Ir.MathType.{MathType, default_type}
use mlk.Ir.Fact.{FactSet, set_tri_state, tri_true}
use mlk.Ir.Fact

-- kInvalidId
abbrev pub invalid_id : ℕ
invalid_id = 2 ^ 32 - 1

-- A double is carried by its bits.
pub data AttrValue : Type 0 where
  int_attr : ℤ → AttrValue
  float_attr : ℕ → AttrValue
  bool_attr : Bool → AttrValue
  symbol_attr : ℕ → AttrValue

pub record Attr : Type 0 where
  pub name : ℕ
  pub value : AttrValue

abbrev pub find_attr : List Attr → ℕ → Option AttrValue
find_attr [] name = none
find_attr (a ∷ rest) name = if a.name == name then some a.value else find_attr rest name

pub data EffectKind : Type 0 where
  pure memory_read memory_write domain_state_mutation random_state solver_state io ffi : EffectKind
  allocation tracing approximation_switch exception guard reference_barrier : EffectKind
  physical_placement : EffectKind

-- The kinds that are set.
abbrev pub EffectSet : Type 0
EffectSet = List EffectKind

abbrev pub is_pure : EffectSet → Bool
is_pure [] = true
is_pure (_ ∷ _) = false

-- `inferNodeEffects`
unfoldable pub infer_node_effects : MathOp → EffectSet
infer_node_effects Op.native_to_math_ref = ffi ∷ []
infer_node_effects Op.math_to_native_ref = ffi ∷ []
infer_node_effects _ = []

pub data SpeculationSource : Type 0 where
  no_source profile benchmark static_proof : SpeculationSource

-- Without the estimates, the guard plan and the ids that only later passes read.
pub record SpeculationInfo : Type 0 where
  pub source : SpeculationSource
  pub fallback_target : ℕ

pub record NodeFlags : Type 0 where
  pub canonical : Bool
  pub folded : Bool
  pub speculative : Bool
  pub dead : Bool
  pub has_graph_state : Bool

pub record Node : Type 0 where
  pub id : ℕ
  pub op : MathOp
  pub inputs : List ℕ
  pub results : List ℕ
  pub attrs : List Attr
  pub effects : EffectSet
  pub flags : NodeFlags
  pub facts : FactSet
  pub speculation : SpeculationInfo

pub data ValueKind : Type 0 where
  constant variable placeholder node_result symbol : ValueKind

abbrev pub is_node_result : ValueKind → Bool
is_node_result node_result = true
is_node_result _ = false

pub record ConstantPayload : Type 0 where
  pub is_int : Bool
  pub f64 : ℕ
  pub i64 : ℤ

-- Without the version, which nothing here reads.
pub record Value : Type 0 where
  pub id : ℕ
  pub kind : ValueKind
  pub payload : ConstantPayload
  pub type : MathType
  pub facts : FactSet
  pub name : ℕ
  pub producer : ℕ
  pub dead : Bool
  pub canonical : Bool

-- The containers of the source are lists here: `effects` is the order of the effect chain,
-- `representative` the entries of an OpenHashMap, `lowered_away` the keys of an OpenHashSet.
pub record MathGraph : Type 0 where
  pub symbols : SymbolTable
  pub values : List Value
  pub nodes : List Node
  pub users : List (List ℕ)
  pub outputs : List ℕ
  pub effects : List ℕ
  pub representative : List (ℕ × ℕ)
  pub lowered_away : List ℕ
  pub version : ℕ

abbrev pub no_flags : NodeFlags
no_flags = record {
  canonical = false;
  folded = false;
  speculative = false;
  dead = false;
  has_graph_state = false;
}

abbrev pub no_payload : ConstantPayload
no_payload = record { is_int = false; f64 = 0; i64 = pos 0 }

abbrev pub fresh_value : ValueKind → Value
fresh_value kind = record {
  id = invalid_id;
  kind = kind;
  payload = no_payload;
  type = default_type;
  facts = [];
  name = invalid_id;
  producer = invalid_id;
  dead = false;
  canonical = false;
}

-- The ids of the next value and the next node; both are far below 2 ^ 32.
unfoldable pub allocate_value : MathGraph → Value → ℕ × MathGraph
allocate_value g v = (
  length g.values,
  record g {
    values = g.values ++ record v { id = length g.values } ∷ [];
    users = g.users ++ [] ∷ [];
  },
)

abbrev pub add_input_like : MathGraph → ValueKind → ℕ → MathType → ℕ × MathGraph
add_input_like g kind name type =
    allocate_value g (record (fresh_value kind) { name = name; type = type })

abbrev pub add_placeholder : MathGraph → ℕ → MathType → ℕ × MathGraph
add_placeholder g name type = add_input_like g placeholder name type

abbrev pub add_variable : MathGraph → ℕ → MathType → ℕ × MathGraph
add_variable g name type = add_input_like g variable name type

abbrev pub add_symbol : MathGraph → ℕ → MathType → ℕ × MathGraph
add_symbol g name type = add_input_like g symbol name type

-- `addConstant` and `addIntConstant`
abbrev pub add_payload : MathGraph → ConstantPayload → MathType → ℕ × MathGraph
add_payload g payload type = allocate_value g (record (fresh_value constant) {
  payload = payload;
  type = type;
  facts = set_tri_state Fact.pure tri_true [];
})

abbrev pub add_constant : MathGraph → ℕ → MathType → ℕ × MathGraph
add_constant g v type = add_payload g (record { is_int = false; f64 = v; i64 = pos 0 }) type

abbrev pub add_int_constant : MathGraph → ℤ → MathType → ℕ × MathGraph
add_int_constant g v type = add_payload g (record { is_int = true; f64 = 0; i64 = v }) type

-- Every operand is the id of a value.
abbrev pub all_below : ℕ → List ℕ → Bool
all_below n [] = true
all_below n (v ∷ vs) = ltb v n && all_below n vs

-- `users_[v].push_back(n)`
abbrev pub push_user : ℕ → ℕ → List (List ℕ) → List (List ℕ)
push_user n v [] = []
push_user n zero (us ∷ uss) = (us ++ n ∷ []) ∷ uss
push_user n (suc v) (us ∷ uss) = us ∷ push_user n v uss

abbrev pub push_uses : ℕ → List ℕ → List (List ℕ) → List (List ℕ)
push_uses n [] users = users
push_uses n (v ∷ vs) users = push_uses n vs (push_user n v users)

-- `attachEffects`: an effecting node joins the chain.
abbrev pub append_effect : EffectSet → ℕ → List ℕ → List ℕ
append_effect e n chain = if is_pure e then chain else chain ++ n ∷ []

abbrev pub fresh_node : ℕ → MathOp → List ℕ → List Attr → ℕ → Node
fresh_node id op inputs attrs result = record {
  id = id;
  op = op;
  inputs = inputs;
  results = result ∷ [];
  attrs = attrs;
  effects = infer_node_effects op;
  flags = no_flags;
  facts = [];
  speculation = record { source = no_source; fallback_target = invalid_id };
}

-- The graph with the node in it, after the name of its result is interned.
unfoldable pub with_node : MathGraph → MathOp → List ℕ → List Attr → ℕ × SymbolTable → ℕ × MathGraph
with_node g op inputs attrs (name, symbols) = (
  length g.values,
  record g {
    symbols = symbols;
    values =
        g.values
        ++ record (fresh_value node_result) {
          id = length g.values;
          producer = length g.nodes;
          name = name;
        }
          ∷ [];
    nodes = g.nodes ++ fresh_node (length g.nodes) op inputs attrs (length g.values) ∷ [];
    users = push_uses (length g.nodes) inputs (g.users ++ [] ∷ []);
    effects = append_effect (infer_node_effects op) (length g.nodes) g.effects;
    version = suc g.version;
  },
)

unfoldable pub add_node : MathGraph → MathOp → List ℕ → List Attr → Run (Result (ℕ × MathGraph))
add_node g op inputs attrs =
    if all_below (length g.values) inputs
    then after (intern g.symbols (result_name op))
        (λ named. returns (ok (with_node g op inputs attrs named)))
    else returns (err invalid_graph)

abbrev pub has_id : ℕ → List ℕ → Bool
has_id v [] = false
has_id v (w ∷ ws) = w == v || has_id v ws

abbrev pub add_output : MathGraph → ℕ → MathGraph
add_output g v = if has_id v g.outputs then g else record g { outputs = g.outputs ++ v ∷ [] }
