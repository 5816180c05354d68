-- ===== src/Ir/Examples.antt =====
-- Runs of the graph, its types and its verifier.
use mlk.Base.{
  ℕ, ◌<◌, ◌≡◌, refl, ◌↔◌, inl, true, Option, none, some, [], ◌∷◌, if◌then◌else◌, length, arith, All,
}
use mlk.Base.Int.{ℤ, pos}
use mlk.Base.Res.{ok, returns}
use mlk.Core.SymbolTable
use mlk.Ir.Op
use mlk.Ir.Op.{op_by_name, op_name}
use mlk.Ir.Op.Names.{op_by_name_exact}
use mlk.Ir.Domain
use mlk.Ir.MathType.{MathType, Shape, TensorDescriptor, default_type, type_equal, broadcast}
use mlk.Ir.MathType.Equal.{type_equal_exact}
use mlk.Ir.MathType.Broadcast.{broadcast_by_padding, broadcast_exact}
use mlk.Ir.Fact
use mlk.Ir.Fact.{
  Fact, FactSet, PropertyId, tri_state_fact, tri_true, tri_false, set_fact, get_fact, same_property,
}
use mlk.Ir.Fact.Laws.{IsMap, set_fact_correct}
use mlk.Ir.Graph
use mlk.Ir.Graph.Edit
use mlk.Ir.Graph.Renumber
use mlk.Ir.Inference
use mlk.Ir.MathType
use mlk.Ir.Graph.{MathGraph, add_input_like, placeholder, with_node, add_node}
use mlk.Ir.Graph.Edit.{replace_operand_uses, rebuild_users, kill_node, change_value}
use mlk.Ir.Graph.Edit.Replace.{Replaced, replace_operand_uses_correct}
use mlk.Ir.Graph.Renumber.{renumber_topological}
use mlk.Ir.Inference.{infer_types, infer_shapes, set_type}
use mlk.Ir.Inference.Defined.{NodeReshapes}
use mlk.Ir.Inference.Shapes.{AllShaped, infer_types_keeps_shapes}
use mlk.Ir.Verifier.{VerifyOptions, verify_graph}
use mlk.Ir.Verifier.Legal.{empty_graph}
use mlk.Ir.Verifier.Built.{Built, start, next, input, node, output}
use mlk.Ir.Verifier.Passes.{built_graphs_verify}

op_by_name_exact_example : op_by_name "matmul" ≡ some Op.mat_mul ↔ "matmul" ≡ op_name Op.mat_mul
op_by_name_exact_example = op_by_name_exact "matmul" Op.mat_mul

abbrev vector : ℤ → MathType
vector n = record default_type {
  domain = Domain.Domain.real;
  dtype = Domain.Dtype.f64;
  shape = some (n ∷ []);
  tensor = some (record {
    element = Domain.Dtype.f64;
    shape = n ∷ [];
    strides = pos 1 ∷ [];
    contiguous = true;
  });
}

type_equal_exact_example :
    (type_equal (vector (pos 3)) (vector (pos 4)) ≡ true) ↔ (vector (pos 3) ≡ vector (pos 4))
type_equal_exact_example = type_equal_exact (vector (pos 3)) (vector (pos 4))

abbrev column : Shape
column = pos 2 ∷ pos 1 ∷ []

abbrev line : Shape
line = pos 3 ∷ []

broadcast_exact_example :
    (broadcast column line ≡ broadcast_by_padding column line)
    × (broadcast column line ≡ broadcast line column)
broadcast_exact_example = broadcast_exact column line

abbrev known : FactSet
known = tri_state_fact Fact.pure tri_true ∷ []

abbrev new_fact : Fact
new_fact = tri_state_fact Fact.pure tri_false

set_fact_correct_example :
    IsMap (set_fact new_fact known)
    × ((p : PropertyId)
        → get_fact p (set_fact new_fact known)
          ≡ (if same_property new_fact.property p then some new_fact else get_fact p known))
unfolding get_fact
set_fact_correct_example = set_fact_correct new_fact known (refl, tt)

-- Two inputs.
abbrev one_input : MathGraph
one_input = (add_input_like empty_graph placeholder 0 (vector (pos 3))).1

abbrev two_inputs : MathGraph
two_inputs = (add_input_like one_input placeholder 1 (vector (pos 3))).1

-- The sum of the inputs, and the sum as an output.
abbrev sum_graph : MathGraph
sum_graph =
    (with_node two_inputs Op.add (0 ∷ 1 ∷ []) []
      (0, record { pool = "add_out" ∷ []; lookup = ("add_out", 0) ∷ [] })).1

add-two_inputs : add_node two_inputs Op.add (0 ∷ 1 ∷ []) [] ≡ returns (ok (2, sum_graph))
unfolding add_node SymbolTable.intern Graph.allocate_value with_node Op.result_name
add-two_inputs = refl

two_inputs-Built : Built two_inputs
two_inputs-Built =
    next (next start (input placeholder 0 (vector (pos 3)) (inl refl)))
      (input placeholder 1 (vector (pos 3)) (inl refl))

sum_graph-Built : Built sum_graph
unfolding Op.arity_accepts
sum_graph-Built =
    next two_inputs-Built (node Op.add (0 ∷ 1 ∷ []) [] (2, sum_graph) refl add-two_inputs)

abbrev finished_graph : MathGraph
finished_graph = Graph.add_output sum_graph 2

abbrev every_check : VerifyOptions
every_check = record {
  check_types = true;
  check_effects = true;
  check_guards = true;
  check_facts = true;
  check_acyclic = true;
}

next_output : 2 < length sum_graph.values
unfolding Graph.allocate_value with_node
next_output = omega arith

in_sum : 1 < length sum_graph.values
unfolding Graph.allocate_value with_node
in_sum = omega arith

sum_graph-NodeReshapes : true ≡ true → All (NodeReshapes 9 finished_graph) finished_graph.nodes
unfolding with_node Graph.allocate_value
sum_graph-NodeReshapes _ = (inl (λ e. cc), tt)

built_graphs_verify_example :
    (verify_graph 9 finished_graph true every_check ≡ returns [])
    × (rebuild_users finished_graph ≡ finished_graph)
built_graphs_verify_example =
    built_graphs_verify 9 finished_graph true every_check sum_graph-NodeReshapes
      (next sum_graph-Built (output 2 next_output))

replace_operand_uses_correct_example : Replaced 0 1 sum_graph (replace_operand_uses sum_graph 0 1)
replace_operand_uses_correct_example =
    replace_operand_uses_correct sum_graph 0 1 (omega arith) (omega (arith, in_sum)) in_sum

-- The sum is dead.
abbrev dead_graph : MathGraph
dead_graph = (kill_node sum_graph 0).0

-- The one node, which is dead, is there twice.
abbrev node_count : Option (ℕ × MathGraph) → ℕ
node_count none = 0
node_count (some (moved, g)) = length g.nodes

renumber-dead_graph : node_count (renumber_topological dead_graph) ≡ 2
unfolding renumber_topological Renumber.place_all Renumber.start_placing kill_node with_node
    Graph.allocate_value Renumber.renumber_by
renumber-dead_graph = refl

vectors-AllShaped : AllShaped sum_graph.values
unfolding Graph.allocate_value with_node
vectors-AllShaped = (λ td e. cc, (λ td e. cc, (λ td e. cc, tt)))

abbrev typed_graph : MathGraph
typed_graph = record sum_graph {
  values = change_value (set_type (vector (pos 3))) 2 sum_graph.values;
  version = 2;
}

infer-sum_graph : infer_types 9 sum_graph ≡ returns (ok (1, typed_graph))
unfolding infer_types Inference.infer_nodes Edit.topo_order with_node Graph.allocate_value
    Inference.infer_step Inference.infer_result_type Inference.infer_type Inference.infer_total
    Op.is_elementwise_math Inference.infer_elementwise Inference.broadcast_all broadcast
    MathType.broadcast_from MathType.merge_dim Domain.Dtype-discrete type_equal
    Domain.Domain-discrete
infer-sum_graph = refl

infer_types_keeps_shapes_example :
    AllShaped typed_graph.values
    × (length typed_graph.values ≡ length sum_graph.values)
    × (infer_shapes typed_graph ≡ ok (length sum_graph.values))
infer_types_keeps_shapes_example =
    infer_types_keeps_shapes 9 sum_graph vectors-AllShaped infer-sum_graph
