-- ===== src/Ir/Graph/Renumber.antt =====
-- `renumberTopological` of compiler/src/ir/math_graph.cpp.
pub mod Ends
pub mod Order
pub mod Positions
pub mod Complete
pub mod Nodes
pub mod Moves
use mlk.Base.{
  ℕ, zero, suc, ◌+◌, ◌-◌, Bool, true, false, not, ◌&&◌, ◌||◌, Option, none, some, List, [], ◌∷◌,
  ◌++◌, map, if◌then◌else◌, ◌==◌, ltb, leb, length, get_elem?, get_or, set, replicate,
}
use mlk.Ir.Graph.{Node, Value, ValueKind, is_node_result, MathGraph, append_effect, invalid_id}
use mlk.Ir.Graph.Edit.{is_dead}

-- A node that is there and dead.
abbrev pub dead_at : List Node → ℕ → Bool
dead_at nodes n = elim (get_elem? nodes n) [ none ↦ false | some nd ↦ is_dead nd ]

-- The operand is the result of a live node.
abbrev pub waits_for : List Node → List Value → ℕ → Bool
waits_for nodes values v = elim (get_elem? values v) [
  | none ↦ false
  | some val ↦
      is_node_result val.kind && ltb val.producer (length nodes) && not (dead_at nodes val.producer)
]

abbrev pub count_deps : List Node → List Value → List ℕ → ℕ
count_deps nodes values [] = 0
count_deps nodes values (v ∷ vs) =
    let rest = count_deps nodes values vs in if waits_for nodes values v then suc rest else rest

-- `pendingDeps`; 0 for a dead node.
abbrev pub pending_deps : List Node → List Value → List Node → List ℕ
pending_deps nodes values [] = []
pending_deps nodes values (n ∷ ns) =
    (if is_dead n then 0 else count_deps nodes values n.inputs) ∷ pending_deps nodes values ns

-- The live nodes that wait for none, from the node `i` on.
abbrev pub first_ready : ℕ → List Node → List ℕ → List ℕ
first_ready i [] deps = []
first_ready i (n ∷ ns) [] = []
first_ready i (n ∷ ns) (d ∷ ds) =
    let rest = first_ready (suc i) ns ds in if not (is_dead n) && d == 0 then i ∷ rest else rest

-- The state of the queue: `ready` holds what is not taken from it yet.
pub record Placing : Type 0 where
  pub pending : List ℕ
  pub placed : List Bool
  pub ready : List ℕ
  pub order : List ℕ

-- One dependency less; the last one puts the user in the queue.
abbrev pub wake : ℕ → Placing → Placing
wake user p = record p {
  pending = set p.pending user (get_or p.pending user 0 - 1);
  ready = if get_or p.pending user 0 == 1 then p.ready ++ user ∷ [] else p.ready;
}

-- One user of a result of the node that was placed.
unfoldable pub release_user : List Node → ℕ → Placing → Placing
release_user nodes user p =
    if leb (length nodes) user || dead_at nodes user || get_or p.placed user false
    then p
    else if get_or p.pending user 0 == 0
    then p
    else wake user p

abbrev pub release_users : List Node → List ℕ → Placing → Placing
release_users nodes [] p = p
release_users nodes (u ∷ us) p = release_users nodes us (release_user nodes u p)

abbrev pub release_results : List Node → List (List ℕ) → List ℕ → Placing → Placing
release_results nodes users [] p = p
release_results nodes users (r ∷ rs) p =
    release_results nodes users rs (release_users nodes (get_or users r []) p)

abbrev pub results_of : List Node → ℕ → List ℕ
results_of nodes n = elim (get_elem? nodes n) [ none ↦ [] | some nd ↦ nd.results ]

abbrev pub place : MathGraph → ℕ → List ℕ → Placing → Placing
place g cur rest p =
    release_results g.nodes g.users (results_of g.nodes cur)
      (record p { placed = set p.placed cur true; ready = rest; order = p.order ++ cur ∷ [] })

-- The loop over the queue.
unfoldable pub place_all : ℕ → MathGraph → Placing → Option Placing
place_all zero g p = none
place_all (suc fuel) g p = elim p.ready [
  | [] ↦ some p
  | cur ∷ rest ↦ place_all fuel g (place g cur rest p)
]

unfoldable pub start_placing : MathGraph → Placing
start_placing g =
    let deps = pending_deps g.nodes g.values g.nodes in
    record {
      pending = deps;
      placed = replicate (length g.nodes) false;
      ready = first_ready 0 g.nodes deps;
      order = [];
    }

-- The dead nodes, and then all nodes that were not placed: a dead node is among both.
abbrev pub dead_from : ℕ → List Node → List ℕ
dead_from i [] = []
dead_from i (n ∷ ns) = let rest = dead_from (suc i) ns in if is_dead n then i ∷ rest else rest

abbrev pub unplaced_from : ℕ → List Bool → List ℕ
unplaced_from i [] = []
unplaced_from i (b ∷ bs) = let rest = unplaced_from (suc i) bs in if b then rest else i ∷ rest

abbrev pub final_order : MathGraph → Placing → List ℕ
final_order g p = p.order ++ dead_from 0 g.nodes ++ unplaced_from 0 p.placed

-- `remap[order[pos]] = pos`, from a position on.
unfoldable pub remap_from : ℕ → List ℕ → List ℕ → List ℕ
remap_from at [] remap = remap
remap_from at (n ∷ ns) remap = remap_from (suc at) ns (set remap n at)

abbrev pub count_moved : ℕ → List ℕ → ℕ
count_moved i [] = 0
count_moved i (r ∷ rs) = let rest = count_moved (suc i) rs in if r == i then rest else suc rest

abbrev pub moved_nodes : List Node → List ℕ → List ℕ → List Node
moved_nodes nodes remap [] = []
moved_nodes nodes remap (n ∷ ns) = elim (get_elem? nodes n) [
  | none ↦ moved_nodes nodes remap ns
  | some nd ↦ record nd { id = get_or remap n invalid_id } ∷ moved_nodes nodes remap ns
]

abbrev pub moved_value : ℕ → List ℕ → Value → Value
moved_value count remap v =
    if is_node_result v.kind && ltb v.producer count
    then record v { producer = get_or remap v.producer invalid_id }
    else v

abbrev pub moved_user : ℕ → List ℕ → ℕ → ℕ
moved_user count remap u = if ltb u count then get_or remap u invalid_id else u

abbrev pub moved_chain : ℕ → List ℕ → List ℕ → List ℕ
moved_chain count remap [] = []
moved_chain count remap (n ∷ ns) =
    let rest = moved_chain count remap ns in
    if ltb n count then get_or remap n invalid_id ∷ rest else rest

-- From the order on; the number of nodes that moved, and the graph.
unfoldable pub renumber_by : MathGraph → List ℕ → ℕ × MathGraph
unfolding remap_from
renumber_by g order =
    let count = length g.nodes in
    let remap = remap_from 0 order (replicate count invalid_id) in
    if count_moved 0 remap == 0 then (0, g) else (
      count_moved 0 remap,
      record g {
        nodes = moved_nodes g.nodes remap order;
        values = map (moved_value count remap) g.values;
        users = map (map (moved_user count remap)) g.users;
        effects = moved_chain count remap g.effects;
        version = suc g.version;
      },
    )

-- A node is placed once, so that the queue is empty after as many rounds as there are nodes.
unfoldable pub renumber_topological : MathGraph → Option (ℕ × MathGraph)
renumber_topological g = elim (place_all (suc (length g.nodes)) g (start_placing g)) [
  | none ↦ none
  | some p ↦ some (renumber_by g (final_order g p))
]
