-- ===== src/Ir/Verifier/Legal.antt =====
-- What the verifier checks of a graph, as an invariant, and what more values and nodes leave of it.
use mlk.Base.{
  ℕ, suc, ◌+◌, ◌≤◌, ◌<◌, ◌≡◌, refl, true, false, ◌&&◌, some, List, [], ◌∷◌, ◌++◌, length, get_elem?,
  get_elem?-append_left, All, All-map, length-append, arith,
}
use mlk.Core.SymbolTable.{empty_table}
use mlk.Ir.Op.{arity_accepts}
use mlk.Ir.MathType.{default_type}
use mlk.Ir.Fact.{
  tri_true, tri_state, set_fact, set_tri_state, is_true, monotonic_increasing, monotonic_decreasing,
}
use mlk.Ir.Fact
use mlk.Ir.Graph.{Node, Value, node_result, MathGraph, is_pure}
use mlk.Ir.Graph.Edit.{is_dead}

abbrev pub empty_graph : MathGraph
empty_graph = record {
  symbols = empty_table;
  values = [];
  nodes = [];
  users = [];
  outputs = [];
  effects = [];
  representative = [];
  lowered_away = [];
  version = 0;
}

-- The value is there, and is produced before the node `id`.
abbrev pub OperandOk : List Value → ℕ → ℕ → Type 0
OperandOk values id v =
    (val : Value) × (get_elem? values v ≡ some val) × (val.kind ≡ node_result → val.producer < id)

-- The value is there, and has no type yet.
abbrev pub ResultOk : List Value → ℕ → Type 0
ResultOk values v = (val : Value) × (get_elem? values v ≡ some val) × (val.type ≡ default_type)

pub record NodeOk (values : List Value) (n : Node) : Type 0 where
  pub live : is_dead n ≡ false
  pub plain : n.flags.speculative ≡ false
  pub operands : All (OperandOk values n.id) n.inputs
  pub results : All (ResultOk values) n.results
  pub one_result : (r : ℕ) × (n.results ≡ r ∷ [])
  pub arity : arity_accepts n.op (length n.inputs) ≡ true

-- The producer of a result is a node, and no fact contradicts another.
pub record ValueOk (count : ℕ) (v : Value) : Type 0 where
  pub produced : v.kind ≡ node_result → v.producer < count
  pub consistent :
      (is_true monotonic_increasing v.facts && is_true monotonic_decreasing v.facts) ≡ false

abbrev pub ChainOk : List Node → ℕ → Type 0
ChainOk nodes k =
    (n : Node) × (get_elem? nodes k ≡ some n) × (is_dead n ≡ false) × (is_pure n.effects ≡ false)

-- The ids are the indices, from `k` on.
abbrev pub Numbered : ℕ → List Node → Type 0
Numbered k [] = Unit
Numbered k (n ∷ ns) = (n.id ≡ k) × Numbered (suc k) ns

pub record IsLegal (g : MathGraph) : Type 0 where
  pub numbered : Numbered 0 g.nodes
  pub nodes_ok : All (NodeOk g.values) g.nodes
  pub values_ok : All (ValueOk (length g.nodes)) g.values
  pub outputs_ok : All (λ v. v < length g.values) g.outputs
  pub chain_ok : All (ChainOk g.nodes) g.effects

pub empty-IsLegal : IsLegal empty_graph
empty-IsLegal = record {
  numbered = tt;
  nodes_ok = tt;
  values_ok = tt;
  outputs_ok = tt;
  chain_ok = tt;
}

-- More values, and more nodes, keep what holds of the old ones.
pub OperandOk-more :
    (values more : List Value) (id v : ℕ) → OperandOk values id v → OperandOk (values ++ more) id v
OperandOk-more values more id v (val, there, early) =
    (val, get_elem?-append_left values more v there, early)

pub ResultOk-more :
    (values more : List Value) (v : ℕ) → ResultOk values v → ResultOk (values ++ more) v
ResultOk-more values more v (val, there, untyped) =
    (val, get_elem?-append_left values more v there, untyped)

pub NodeOk-more :
    (values more : List Value) (n : Node) → NodeOk values n → NodeOk (values ++ more) n
NodeOk-more values more n h = record {
  live = h.live;
  plain = h.plain;
  operands = All-map _ _ (OperandOk-more values more n.id) n.inputs h.operands;
  results = All-map _ _ (ResultOk-more values more) n.results h.results;
  one_result = h.one_result;
  arity = h.arity;
}

pub ValueOk-more : (m n : ℕ) → m ≤ n → (v : Value) → ValueOk m v → ValueOk n v
ValueOk-more m n le v h = record {
  produced = λ e. omega (arith, h.produced e);
  consistent = h.consistent;
}

pub ChainOk-more : (nodes more : List Node) (k : ℕ) → ChainOk nodes k → ChainOk (nodes ++ more) k
ChainOk-more nodes more k (n, there, live, impure) =
    (n, get_elem?-append_left nodes more k there, live, impure)

pub Numbered-append :
    (k : ℕ) (ns : List Node) (n : Node)
    → Numbered k ns
    → n.id ≡ k + length ns
    → Numbered k (ns ++ n ∷ [])
Numbered-append k [] n h e = (omega arith, tt)
Numbered-append k (m ∷ ns) n h e = (h.0, Numbered-append (suc k) ns n h.1 (omega arith))

pub below_more :
    (values more : List Value) (v : ℕ) → v < length values → v < length (values ++ more)
below_more values more v h = omega (arith, length-append {0} values more)

pub no_facts : (is_true monotonic_increasing [] && is_true monotonic_decreasing []) ≡ false
unfolding tri_state Fact.TriState-discrete
no_facts = refl

pub purity_only :
    (is_true monotonic_increasing (set_tri_state Fact.pure tri_true [])
      && is_true monotonic_decreasing (set_tri_state Fact.pure tri_true []))
    ≡ false
unfolding tri_state set_fact Fact.TriState-discrete Fact.PropertyId-discrete
purity_only = refl
