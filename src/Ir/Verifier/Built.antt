-- ===== src/Ir/Verifier/Built.antt =====
-- The graphs that the construction API of MathGraph builds are legal.
use mlk.Base.{
  ℕ, ◌≤◌, ◌<◌, ◌≡◌, refl, subst, ◌⊎◌, true, false, and_parts, List, [], ◌∷◌, ◌++◌, if_ind, ltb→lt,
  length, get_elem?-append_last, below_get, All, All-get_elem?, All-append, All-map, length-append,
  arith, inl, inr,
}
use mlk.Base.Res.{ok, ok_inj, returns, returns_inj, after-eq-returns}
use mlk.Core.SymbolTable.{SymbolTable, intern}
use mlk.Ir.Op.{MathOp, arity_accepts, result_name}
use mlk.Ir.MathType.{MathType}
use mlk.Ir.Graph.{
  Node, Value, ValueKind, node_result, variable, placeholder, symbol, MathGraph, ConstantPayload,
  Attr, allocate_value, add_input_like, add_payload, add_node, with_node, add_output, has_id,
  all_below, append_effect, is_pure, fresh_node, fresh_value,
}
use mlk.Ir.Graph.Edit.{is_dead}
use mlk.Ir.Verifier.Legal.{
  empty_graph, OperandOk, NodeOk, ValueOk, ChainOk, IsLegal, empty-IsLegal, OperandOk-more,
  NodeOk-more, ValueOk-more, ChainOk-more, Numbered-append, below_more, no_facts, purity_only,
}

-- A call of the construction API: an input, a constant, a node of legal arity, or an output that is a
-- value of the graph.
pub data Step (g : MathGraph) : MathGraph → Type 0 where
  input :
      (kind : ValueKind) (name : ℕ) (type : MathType)
      → (kind ≡ placeholder) ⊎ (kind ≡ variable) ⊎ (kind ≡ symbol)
      → Step g (add_input_like g kind name type).1
  literal : (payload : ConstantPayload) (type : MathType) → Step g (add_payload g payload type).1
  node :
      (op : MathOp) (inputs : List ℕ) (attrs : List Attr) (out : ℕ × MathGraph)
      → arity_accepts op (length inputs) ≡ true
      → add_node g op inputs attrs ≡ returns (ok out)
      → Step g out.1
  output : (v : ℕ) → v < length g.values → Step g (add_output g v)

-- The graphs that such calls build.
pub data Built : MathGraph → Type 0 where
  start : Built empty_graph
  next : {g h : MathGraph} → Built g → Step g h → Built h

-- A step that adds a value, and no node.
allocate-IsLegal :
    (g : MathGraph) (v : Value)
    → ValueOk (length g.nodes) (record v { id = length g.values })
    → IsLegal g
    → IsLegal (allocate_value g v).1
unfolding allocate_value
allocate-IsLegal g v fits h = record {
  numbered = h.numbered;
  nodes_ok = All-map _ _ (NodeOk-more g.values _) g.nodes h.nodes_ok;
  values_ok = All-append _ g.values _ h.values_ok (fits, tt);
  outputs_ok = All-map _ _ (below_more g.values _) g.outputs h.outputs_ok;
  chain_ok = h.chain_ok;
}

all_below-All : (n : ℕ) (vs : List ℕ) → all_below n vs ≡ true → All (λ v. v < n) vs
all_below-All n [] h = tt
all_below-All n (v ∷ vs) h =
    let (here, there) = and_parts _ _ h in (ltb→lt v n here, all_below-All n vs there)

-- An operand that is there is produced before a node that is yet to come.
below-OperandOk :
    (g : MathGraph) (v : ℕ)
    → IsLegal g
    → v < length g.values
    → OperandOk g.values (length g.nodes) v
below-OperandOk g v h below =
    let (val, there) = below_get g.values v below in
    (val, there, (All-get_elem? _ g.values v val h.values_ok there).produced)

chain_more :
    (g : MathGraph) (n : Node)
    → IsLegal g
    → is_dead n ≡ false
    → All (ChainOk (g.nodes ++ n ∷ [])) (append_effect n.effects (length g.nodes) g.effects)
chain_more g n h live =
    if_ind (All (ChainOk (g.nodes ++ n ∷ []))) (is_pure n.effects) (λ _. old)
      (λ no. All-append _ g.effects _ old ((n, get_elem?-append_last g.nodes n, live, no), tt))
  where
    old : All (ChainOk (g.nodes ++ n ∷ [])) g.effects
    old = All-map _ _ (ChainOk-more g.nodes _) g.effects h.chain_ok

added-NodeOk :
    (g : MathGraph) (op : MathOp) (inputs : List ℕ) (attrs : List Attr) (name : ℕ)
    → arity_accepts op (length inputs) ≡ true
    → all_below (length g.values) inputs ≡ true
    → IsLegal g
    → NodeOk
        (g.values
          ++ record (fresh_value node_result) {
            id = length g.values;
            producer = length g.nodes;
            name = name;
          }
            ∷ [])
        (fresh_node (length g.nodes) op inputs attrs (length g.values))
added-NodeOk g op inputs attrs name arity below h = record {
  live = refl;
  plain = refl;
  operands =
      All-map _ _
        (λ v early. OperandOk-more g.values _ (length g.nodes) v (below-OperandOk g v h early))
        inputs (all_below-All (length g.values) inputs below);
  results = ((_, get_elem?-append_last g.values _, refl), tt);
  one_result = (length g.values, refl);
  arity = arity;
}

with_node-IsLegal :
    (g : MathGraph) (op : MathOp) (inputs : List ℕ) (attrs : List Attr) (named : ℕ × SymbolTable)
    → arity_accepts op (length inputs) ≡ true
    → all_below (length g.values) inputs ≡ true
    → IsLegal g
    → IsLegal (with_node g op inputs attrs named).1
unfolding with_node
with_node-IsLegal g op inputs attrs (name, symbols) arity below h = record {
  numbered = Numbered-append 0 g.nodes new h.numbered (omega arith);
  nodes_ok =
      All-append _ g.nodes _ (All-map _ _ (NodeOk-more g.values _) g.nodes h.nodes_ok)
        (added-NodeOk g op inputs attrs name arity below h, tt);
  values_ok =
      All-append _ g.values _
        (All-map _ _ (ValueOk-more (length g.nodes) _ more_nodes) g.values h.values_ok)
        (record { produced = λ _. one_more; consistent = no_facts }, tt);
  outputs_ok = All-map _ _ (below_more g.values _) g.outputs h.outputs_ok;
  chain_ok = chain_more g _ h refl;
}
  where
    new : Node
    new = fresh_node (length g.nodes) op inputs attrs (length g.values)

    one_more : length g.nodes < length (g.nodes ++ new ∷ [])
    one_more = omega (arith, length-append {0} g.nodes (new ∷ []))

    more_nodes : length g.nodes ≤ length (g.nodes ++ new ∷ [])
    more_nodes = omega (arith, length-append {0} g.nodes (new ∷ []))

add_output-IsLegal :
    (g : MathGraph) (v : ℕ) → v < length g.values → IsLegal g → IsLegal (add_output g v)
add_output-IsLegal g v below h =
    if_ind IsLegal (has_id v g.outputs) (λ _. h)
      (λ _. record {
        numbered = h.numbered;
        nodes_ok = h.nodes_ok;
        values_ok = h.values_ok;
        outputs_ok = All-append _ g.outputs _ h.outputs_ok (below, tt);
        chain_ok = h.chain_ok;
      })

pub add_node_parts :
    (g : MathGraph) (op : MathOp) (inputs : List ℕ) (attrs : List Attr) (out : ℕ × MathGraph)
    → add_node g op inputs attrs ≡ returns (ok out)
    → (named : ℕ × SymbolTable) × (all_below (length g.values) inputs ≡ true)
      × (with_node g op inputs attrs named ≡ out)
unfolding add_node
add_node_parts g op inputs attrs out =
    if_ind
      (λ r.
        r ≡ returns (ok out)
        → (named : ℕ × SymbolTable) × (all_below (length g.values) inputs ≡ true)
          × (with_node g op inputs attrs named ≡ out))
      (all_below (length g.values) inputs)
      (λ yes done.
        let (named, _, made) = after-eq-returns (intern g.symbols (result_name op)) _ done in
        (named, yes, ok_inj (returns_inj made)))
      (λ no done. cc)

-- A step keeps the graph legal.
Step-IsLegal : {g h : MathGraph} → Step g h → IsLegal g → IsLegal h
Step-IsLegal {g} (input kind name type is) legal =
    allocate-IsLegal g _
      (record { produced = λ e. absurd (not_result kind is e); consistent = no_facts }) legal
  where
    not_result :
        (k : ValueKind) → (k ≡ placeholder) ⊎ (k ≡ variable) ⊎ (k ≡ symbol) → ¬ (k ≡ node_result)
    not_result k (inl e) f = cc
    not_result k (inr (inl e)) f = cc
    not_result k (inr (inr e)) f = cc
Step-IsLegal {g} (literal payload type) legal =
    allocate-IsLegal g _ (record { produced = λ e. cc; consistent = purity_only }) legal
Step-IsLegal {g} (node op inputs attrs out arity done) legal =
    let (named, below, made) = add_node_parts g op inputs attrs out done in
    subst (λ o. IsLegal o.1) made (with_node-IsLegal g op inputs attrs named arity below legal)
Step-IsLegal {g} (output v below) legal = add_output-IsLegal g v below legal

pub Built-IsLegal : {g : MathGraph} → Built g → IsLegal g
Built-IsLegal start = empty-IsLegal
Built-IsLegal (next before step) = Step-IsLegal step (Built-IsLegal before)
