-- ===== src/Ir/Verifier/Passes.antt =====
-- What `verify_graph` says of the graphs that the construction API builds.
use mlk.Base.{
  ℕ, ◌<◌, ◌≡◌, refl, ap, ap₂, ◌∙◌, subst, Bool, true, false, not, ◌&&◌, ◌||◌, is_yes, Option, none,
  some, List, [], ◌∷◌, ◌++◌, if◌then◌else◌, if_ind, leb, length, get_elem?, get_elem?_in, below_get,
  All, All-get_elem?, All-map, arith,
}
use mlk.Ir.Domain.{Domain-discrete}
use mlk.Ir.Domain
use mlk.Ir.MathType.{default_type}
use mlk.Ir.Graph.{
  Node, Value, ValueKind, constant, variable, placeholder, symbol, is_node_result, node_result,
  MathGraph, is_pure, invalid_id,
}
use mlk.Ir.Graph.Edit.{is_dead, topo_order, rebuild_users}
use mlk.Ir.Graph.Renumber.{dead_at}
use mlk.Base.Res.{Run, returns, after}
use mlk.Ir.Inference.Defined.{NodeReshapes, infer_result_type_defined}
use mlk.Ir.Inference.{type_at, first_or, null}
use mlk.Ir.Verifier.{
  Report, Fault, VerifyOptions, fail_if, each, index_faults, output_faults, producer_faults,
  late_operand, cycle_faults, result_faults, output_out_of_range, dead_output,
  operand_after_consumer, missing_in_chain, dead_in_chain, pure_in_chain, type_faults, chain_faults,
  guard_faults, fact_faults, each_run, faults_before, faults_after, verify_graph,
}
use mlk.Ir.Verifier.Legal.{IsLegal, NodeOk, ValueOk, OperandOk, ResultOk, ChainOk}
use mlk.Ir.Verifier.Built.{Built, Built-IsLegal}
use mlk.Ir.Verifier.Uses.{rebuild_users-Built}

each_none {ℓ} :
    {A : Type ℓ} (check : A → Report) (xs : List A)
    → All (λ a. check a ≡ []) xs
    → each check xs ≡ []
each_none check [] h = refl
each_none check (x ∷ xs) h = ap₂ (λ a b. a ++ b) h.0 (each_none check xs h.1)

-- A check that finds nothing, one after the other.
both_none : {a b : Report} → a ≡ [] → b ≡ [] → a ++ b ≡ []
both_none h k = ap₂ (λ a b. a ++ b) h k

option_none : (b : Bool) {r : Report} → r ≡ [] → (if b then r else []) ≡ []
option_none b h = if_ind (λ r. r ≡ []) b (λ _. h) (λ _. refl)

fail_if_none : (b : Bool) (node : ℕ) (fault : Fault) → b ≡ false → fail_if b node fault ≡ []
fail_if_none b node fault h = ap (λ c. fail_if c node fault) h

leb_no : (m n : ℕ) → n < m → leb m n ≡ false
leb_no m n h = ground arith

result_only :
    (kind : ValueKind) (b : Bool)
    → (kind ≡ node_result → b ≡ false)
    → (is_node_result kind && b) ≡ false
result_only node_result b h = h refl
result_only constant b h = refl
result_only variable b h = refl
result_only placeholder b h = refl
result_only symbol b h = refl

skipped : (b : Bool) {r : Report} → (b ≡ false → r ≡ []) → (if b then [] else r) ≡ []
skipped b h = if_ind (λ r. r ≡ []) b (λ _. refl) h

passed_over : {b : Bool} (r : Report) → b ≡ true → (if b then [] else r) ≡ []
passed_over r h = ap (λ c. if c then [] else r) h

operand_there : (values : List Value) (id v : ℕ) → OperandOk values id v → v < length values
operand_there values id v (val, there, _) = get_elem?_in values v there

result_there : (values : List Value) (v : ℕ) → ResultOk values v → v < length values
result_there values v (val, there, _) = get_elem?_in values v there

index_none : (g : MathGraph) (n : Node) → NodeOk g.values n → index_faults g n ≡ []
unfolding index_faults
index_none g n h = skipped (is_dead n) (λ _.
    both_none
      (both_none
        (each_none _ n.inputs (
          All-map _ _
            (λ v ok. fail_if_none _ n.id _ (leb_no _ v (operand_there g.values n.id v ok))) n.inputs
            h.operands))
        (each_none _ n.results (
          All-map _ _ (λ v ok. fail_if_none _ n.id _ (leb_no _ v (result_there g.values v ok)))
            n.results h.results)))
      (fail_if_none _ n.id _ (ap not h.arity)))

live_found :
    (values : List Value) (nodes : List Node) (i : ℕ) (found : Option Node)
    → get_elem? nodes i ≡ found
    → All (NodeOk values) nodes
    → elim found [ none ↦ false | some nd ↦ is_dead nd ] ≡ false
live_found values nodes i none e h = refl
live_found values nodes i (some nd) e h = (All-get_elem? _ nodes i nd h e).live

live_at : (g : MathGraph) (i : ℕ) → All (NodeOk g.values) g.nodes → dead_at g.nodes i ≡ false
live_at g i h = live_found g.values g.nodes i _ refl h

output_none :
    (g : MathGraph) (out : ℕ) → IsLegal g → out < length g.values → output_faults g out ≡ []
unfolding output_faults
output_none g out h below =
    let (val, there) = below_get g.values out below in
    ap seen there
    ∙ fail_if_none _ val.producer _
        (result_only val.kind _ (λ _. live_at g val.producer h.nodes_ok))
  where
    seen : Option Value → Report
    seen found = elim found [
      | none ↦ (invalid_id, output_out_of_range) ∷ []
      | some v ↦
          fail_if (is_node_result v.kind && dead_at g.nodes v.producer) v.producer dead_output
    ]

producer_none : (g : MathGraph) (v : Value) → ValueOk (length g.nodes) v → producer_faults g v ≡ []
unfolding producer_faults
producer_none g v h =
    fail_if_none _ _ _
      (result_only v.kind _ (λ e. leb_no (length g.nodes) v.producer (h.produced e)))

late_none : (g : MathGraph) (n : Node) (v : ℕ) → OperandOk g.values n.id v → late_operand g n v ≡ []
late_none g n v (val, there, early) =
    ap seen there
    ∙ fail_if_none _ n.id _ (result_only val.kind _ (λ e. leb_no n.id val.producer (early e)))
  where
    seen : Option Value → Report
    seen found = elim found [
      | none ↦ []
      | some w ↦ fail_if (is_node_result w.kind && leb n.id w.producer) n.id operand_after_consumer
    ]

cycle_none : (g : MathGraph) (n : Node) → NodeOk g.values n → cycle_faults g n ≡ []
unfolding cycle_faults
cycle_none g n h =
    skipped (is_dead n)
      (λ _. each_none (late_operand g n) n.inputs (All-map _ _ (late_none g n) n.inputs h.operands))

-- A result that has no type yet is not compared.
untyped :
    (g : MathGraph) (n : Node) → NodeOk g.values n → type_at g (first_or n.results) ≡ default_type
untyped g n h =
    let (r, one) = h.one_result in
    let (val, there, plain) = (subst (All (ResultOk g.values)) one h.results).0 in
    ap (λ rs. type_at g (first_or rs)) one
    ∙ ap (λ found. elim found [ none ↦ default_type | some v ↦ v.type ]) there
    ∙ plain

untyped_unknown :
    (g : MathGraph) (n : Node)
    → NodeOk g.values n
    → is_yes (Domain-discrete (type_at g (first_or n.results)).domain Domain.Domain.unknown) ≡ true
unfolding Domain-discrete
untyped_unknown g n h =
    ap (λ t. is_yes (Domain-discrete t.domain Domain.Domain.unknown)) (untyped g n h)

result_none :
    (shape_dims : ℕ) (g : MathGraph) (nid : ℕ) (n : Node)
    → NodeOk g.values n
    → NodeReshapes shape_dims g n
    → result_faults shape_dims g nid n ≡ returns []
unfolding result_faults
result_none shape_dims g nid n h reshapes =
    let (o, inferred) = infer_result_type_defined shape_dims g n h.arity reshapes in
    if_ind (λ r. r ≡ returns []) (is_dead n || null n.inputs) (λ _. refl)
      (λ _. rw (inferred, untyped_unknown g n h) refl)

type_none :
    (shape_dims : ℕ) (g : MathGraph) (nid : ℕ)
    → All (NodeOk g.values) g.nodes
    → All (NodeReshapes shape_dims g) g.nodes
    → type_faults shape_dims g nid ≡ returns []
unfolding type_faults
type_none shape_dims g nid h reshapes = found (get_elem? g.nodes nid) refl
  where
    found :
        (at : Option Node)
        → get_elem? g.nodes nid ≡ at
        → elim at [ none ↦ returns [] | some n ↦ result_faults shape_dims g nid n ] ≡ returns []
    found none e = refl
    found (some n) e =
        result_none shape_dims g nid n (All-get_elem? _ g.nodes nid n h e)
          (All-get_elem? _ g.nodes nid n reshapes e)

each_run_none {ℓ} :
    {A : Type ℓ} (check : A → Run Report) (xs : List A)
    → ((x : A) → check x ≡ returns [])
    → each_run check xs ≡ returns []
each_run_none check [] h = refl
each_run_none check (x ∷ xs) h = rw (h x, each_run_none check xs h) refl

types_none :
    (shape_dims : ℕ) (g : MathGraph) (checked : Bool)
    → IsLegal g
    → (checked ≡ true → All (NodeReshapes shape_dims g) g.nodes)
    → (if checked then each_run (type_faults shape_dims g) (topo_order g.nodes) else returns [])
      ≡ returns []
types_none shape_dims g checked h reshapes =
    if_ind (λ r. r ≡ returns []) checked
      (λ yes.
        each_run_none (type_faults shape_dims g) (topo_order g.nodes)
          (λ nid. type_none shape_dims g nid h.nodes_ok (reshapes yes)))
      (λ _. refl)

chain_none : (g : MathGraph) (k : ℕ) → ChainOk g.nodes k → chain_faults g k ≡ []
unfolding chain_faults
chain_none g k (n, there, live, impure) =
    ap seen there ∙ both_none (fail_if_none _ k _ live) (fail_if_none _ k _ impure)
  where
    seen : Option Node → Report
    seen found = elim found [
      | none ↦ (k, missing_in_chain) ∷ []
      | some m ↦ fail_if (is_dead m) k dead_in_chain ++ fail_if (is_pure m.effects) k pure_in_chain
    ]

plain_guard : (d : Bool) {s : Bool} → s ≡ false → (d || not s) ≡ true
plain_guard d h = ground (arith, h)

guard_none : {values : List Value} (n : Node) → NodeOk values n → guard_faults n ≡ []
unfolding guard_faults
guard_none n h = passed_over _ (plain_guard (is_dead n) h.plain)

before_none : (g : MathGraph) (opts : VerifyOptions) → IsLegal g → faults_before g opts ≡ []
unfolding faults_before
before_none g opts h =
    both_none
      (both_none
        (both_none (each_none _ g.nodes (All-map _ _ (index_none g) g.nodes h.nodes_ok)) (
          each_none _ g.outputs
            (All-map _ _ (λ out below. output_none g out h below) g.outputs h.outputs_ok)))
        (each_none _ g.values (All-map _ _ (producer_none g) g.values h.values_ok)))
      (option_none opts.check_acyclic
        (each_none _ g.nodes (All-map _ _ (cycle_none g) g.nodes h.nodes_ok)))

after_none : (g : MathGraph) (opts : VerifyOptions) → IsLegal g → faults_after g opts ≡ []
unfolding faults_after fact_faults
after_none g opts h =
    both_none
      (both_none
        (option_none opts.check_effects
          (each_none _ g.effects (All-map _ _ (chain_none g) g.effects h.chain_ok)))
        (option_none opts.check_guards
          (each_none _ g.nodes (All-map _ _ guard_none g.nodes h.nodes_ok))))
      (option_none opts.check_facts (
        each_none _ g.values
          (All-map _ _ (λ v ok. fail_if_none _ v.producer _ ok.consistent) g.values h.values_ok)))

-- What `verify_graph` finds on a legal graph: nothing.
legal_none :
    (shape_dims : ℕ) (g : MathGraph) (has_profile : Bool) (opts : VerifyOptions)
    → ((opts.check_types && has_profile) ≡ true → All (NodeReshapes shape_dims g) g.nodes)
    → IsLegal g
    → verify_graph shape_dims g has_profile opts ≡ returns []
unfolding verify_graph
legal_none shape_dims g has_profile opts reshapes h =
    ap (λ m. after m (λ types. returns (faults_before g opts ++ types ++ faults_after g opts)))
      (types_none shape_dims g (opts.check_types && has_profile) h reshapes)
    ∙ ap returns (both_none (both_none (before_none g opts h) refl) (after_none g opts h))

-- A graph that the construction API builds, with operations of legal arity and outputs that are values
-- of the graph, passes every check of `verify_graph`, whatever the options are, where the check of the
-- types, if it runs, meets no Reshape that asks for a rank of a value with no tensor: that inference is
-- undefined. The lists of users that the graph keeps are those that `rebuild_users` computes. Its
-- results have no types before type inference runs, so that the check has none to compare.
pub built_graphs_verify :
    (shape_dims : ℕ) (g : MathGraph) (has_profile : Bool) (opts : VerifyOptions)
    → ((opts.check_types && has_profile) ≡ true → All (NodeReshapes shape_dims g) g.nodes)
    → Built g
    → (verify_graph shape_dims g has_profile opts ≡ returns []) × (rebuild_users g ≡ g)
built_graphs_verify shape_dims g has_profile opts reshapes built = (
  legal_none shape_dims g has_profile opts reshapes (Built-IsLegal built),
  rebuild_users-Built built,
)
