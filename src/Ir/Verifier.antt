-- ===== src/Ir/Verifier.antt =====
-- compiler/src/verifier/graph_verifier.cpp: the structural checks of a graph. A diagnostic is the node
-- that it is about and what is wrong; the texts are left out.
pub mod Legal
pub mod Built
pub mod Uses
pub mod Passes
use mlk.Base.{
  ℕ, zero, suc, Bool, true, false, not, ◌&&◌, ◌||◌, Option, none, some, List, [], ◌∷◌, ◌++◌,
  if◌then◌else◌, ltb, leb, ◌==◌, length, get_elem?, is_yes,
}
use mlk.Base.Res.{Run, returns, after}
use mlk.Ir.Op.{arity_accepts}
use mlk.Ir.Domain
use mlk.Ir.Domain.{Domain-discrete}
use mlk.Ir.MathType.{MathType, type_equal}
use mlk.Ir.Fact.{
  FactSet, TriState-discrete, tri_true, tri_state, monotonic_increasing, monotonic_decreasing,
  is_true,
}
use mlk.Ir.Graph.{
  Node, Value, ValueKind, is_node_result, MathGraph, invalid_id, is_pure, SpeculationSource,
  no_source,
}
use mlk.Ir.Graph.Edit.{is_dead, topo_order}
use mlk.Ir.Graph.Renumber.{dead_at}
use mlk.Ir.Inference.{infer_result_type, type_at, first_or, null}

pub data Fault : Type 0 where
  dangling_operand dangling_result illegal_arity output_out_of_range dead_output : Fault
  result_without_producer operand_after_consumer type_mismatch missing_in_chain : Fault
  dead_in_chain pure_in_chain no_graph_state no_evidence no_fallback contradictory_facts : Fault

abbrev pub Report : Type 0
Report = List (ℕ × Fault)

pub record VerifyOptions : Type 0 where
  pub check_types : Bool
  pub check_effects : Bool
  pub check_guards : Bool
  pub check_facts : Bool
  pub check_acyclic : Bool

abbrev pub fail_if : Bool → ℕ → Fault → Report
fail_if b node fault = if b then (node, fault) ∷ [] else []

-- A check on each element, in order.
abbrev pub each {ℓ} : {A : Type ℓ} → (A → Report) → List A → Report
each check [] = []
each check (a ∷ rest) = check a ++ each check rest

-- 1. and 2.: the references and the arity of a node.
unfoldable pub index_faults : MathGraph → Node → Report
index_faults g n =
    if is_dead n
    then []
    else each (λ v. fail_if (leb (length g.values) v) n.id dangling_operand) n.inputs
      ++ each (λ v. fail_if (leb (length g.values) v) n.id dangling_result) n.results
      ++ fail_if (not (arity_accepts n.op (length n.inputs))) n.id illegal_arity

-- 3.: an output.
unfoldable pub output_faults : MathGraph → ℕ → Report
output_faults g out = elim (get_elem? g.values out) [
  | none ↦ (invalid_id, output_out_of_range) ∷ []
  | some v ↦ fail_if (is_node_result v.kind && dead_at g.nodes v.producer) v.producer dead_output
]

-- 4.: the producer of a value.
unfoldable pub producer_faults : MathGraph → Value → Report
producer_faults g v =
    fail_if (is_node_result v.kind && leb (length g.nodes) v.producer) invalid_id
      result_without_producer

-- 5.: an operand that is produced too late; one that is out of range was reported.
abbrev pub late_operand : MathGraph → Node → ℕ → Report
late_operand g n v = elim (get_elem? g.values v) [
  | none ↦ []
  | some val ↦
      fail_if (is_node_result val.kind && leb n.id val.producer) n.id operand_after_consumer
]

unfoldable pub cycle_faults : MathGraph → Node → Report
cycle_faults g n = if is_dead n then [] else each (late_operand g n) n.inputs

-- 6.: the type of a result, if it has one.
abbrev pub inferred_differs : Option MathType → MathType → Bool
inferred_differs none t = true
inferred_differs (some inferred) t = not (type_equal t inferred)

unfoldable pub result_faults : ℕ → MathGraph → ℕ → Node → Run Report
result_faults shape_dims g nid n =
    if is_dead n || null n.inputs
    then returns []
    else after (infer_result_type shape_dims g n) (λ inferred. returns (
        if is_yes (Domain-discrete (type_at g (first_or n.results)).domain Domain.Domain.unknown)
        then []
        else fail_if (inferred_differs inferred (type_at g (first_or n.results))) nid
            type_mismatch))

unfoldable pub type_faults : ℕ → MathGraph → ℕ → Run Report
unfolding result_faults
type_faults shape_dims g nid = elim (get_elem? g.nodes nid) [
  | none ↦ returns []
  | some n ↦ result_faults shape_dims g nid n
]

-- The same on each element, in order, unless one is undefined.
abbrev pub each_run {ℓ} : {A : Type ℓ} → (A → Run Report) → List A → Run Report
each_run check [] = returns []
each_run check (a ∷ rest) =
    after (check a) (λ here. after (each_run check rest) (λ later. returns (here ++ later)))

-- 7.: an entry of the effect chain.
unfoldable pub chain_faults : MathGraph → ℕ → Report
chain_faults g nid = elim (get_elem? g.nodes nid) [
  | none ↦ (nid, missing_in_chain) ∷ []
  | some n ↦ fail_if (is_dead n) nid dead_in_chain ++ fail_if (is_pure n.effects) nid pure_in_chain
]

abbrev pub has_no_source : SpeculationSource → Bool
has_no_source no_source = true
has_no_source _ = false

-- 8.: the guards of a speculative node.
unfoldable pub guard_faults : Node → Report
guard_faults n =
    if is_dead n || not n.flags.speculative
    then []
    else fail_if (not n.flags.has_graph_state) n.id no_graph_state
      ++ fail_if (has_no_source n.speculation.source) n.id no_evidence
      ++ fail_if (n.speculation.fallback_target == invalid_id) n.id no_fallback

-- 9.: the facts of a value.
unfoldable pub fact_faults : Value → Report
fact_faults v =
    fail_if (is_true monotonic_increasing v.facts && is_true monotonic_decreasing v.facts)
      v.producer contradictory_facts

-- The checks before the types, and those after them.
unfoldable pub faults_before : MathGraph → VerifyOptions → Report
faults_before g opts =
    each (index_faults g) g.nodes
    ++ each (output_faults g) g.outputs
    ++ each (producer_faults g) g.values
    ++ (if opts.check_acyclic then each (cycle_faults g) g.nodes else [])

unfoldable pub faults_after : MathGraph → VerifyOptions → Report
faults_after g opts =
    (if opts.check_effects then each (chain_faults g) g.effects else [])
    ++ (if opts.check_guards then each guard_faults g.nodes else [])
    ++ (if opts.check_facts then each fact_faults g.values else [])

-- `verifyGraph`: what it reports. The graph is legal where that is nothing. Check 6 needs a profile.
unfoldable pub verify_graph : ℕ → MathGraph → Bool → VerifyOptions → Run Report
verify_graph shape_dims g has_profile opts =
    after
      (if opts.check_types && has_profile
        then each_run (type_faults shape_dims g) (topo_order g.nodes)
        else returns [])
      (λ types. returns (faults_before g opts ++ types ++ faults_after g opts))
