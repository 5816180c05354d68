-- ===== src/Ir/Graph/Edit.antt =====
-- compiler/src/ir/math_graph.cpp: users, replacement, equivalences and removal. An id out of range,
-- which the source asserts against, changes nothing.
pub mod Replace
use mlk.Base.{
  ℕ, zero, suc, ◌+◌, ◌^◌, Bool, true, false, not, ◌&&◌, ◌||◌, Option, none, some, List, [], ◌∷◌,
  ◌++◌, map, if◌then◌else◌, ◌==◌, leb, length, get_elem?, set, replicate,
}
use mlk.Ir.Graph.{Node, NodeFlags, Value, MathGraph, push_uses, has_id}

abbrev pub is_dead : Node → Bool
is_dead n = n.flags.dead

-- The uses that the live nodes make.
abbrev pub add_uses : List Node → List (List ℕ) → List (List ℕ)
add_uses [] users = users
add_uses (n ∷ ns) users = add_uses ns (if is_dead n then users else push_uses n.id n.inputs users)

unfoldable pub rebuild_users : MathGraph → MathGraph
rebuild_users g = record g { users = add_uses g.nodes (replicate (length g.values) []) }

abbrev pub redirect : ℕ → ℕ → ℕ → ℕ
redirect old new v = if v == old then new else v

abbrev pub redirect_node : ℕ → ℕ → Node → Node
redirect_node old new n =
    if is_dead n then n else record n { inputs = map (redirect old new) n.inputs }

unfoldable pub replace_operand_uses : MathGraph → ℕ → ℕ → MathGraph
unfolding rebuild_users
replace_operand_uses g old new =
    if old == new || leb (length g.values) old || leb (length g.values) new
    then g
    else record (rebuild_users (record g {
      nodes = map (redirect_node old new) g.nodes;
      outputs = map (redirect old new) g.outputs;
    })) { version = suc g.version }

-- `*representative_.findOrInsert(old, ..) = new`
abbrev pub put_entry : ℕ → ℕ → List (ℕ × ℕ) → List (ℕ × ℕ)
put_entry k v [] = (k, v) ∷ []
put_entry k v ((j, w) ∷ rest) = if j == k then (k, v) ∷ rest else (j, w) ∷ put_entry k v rest

abbrev pub find_entry : ℕ → List (ℕ × ℕ) → Option ℕ
find_entry k [] = none
find_entry k ((j, w) ∷ rest) = if j == k then some w else find_entry k rest

abbrev pub change_value : (Value → Value) → ℕ → List Value → List Value
change_value f i [] = []
change_value f zero (v ∷ vs) = f v ∷ vs
change_value f (suc i) (v ∷ vs) = v ∷ change_value f i vs

abbrev pub set_canonical : Bool → Value → Value
set_canonical b v = record v { canonical = b }

unfoldable pub record_equivalent : MathGraph → ℕ → ℕ → MathGraph
record_equivalent g old new = record g {
  representative = put_entry old new g.representative;
  values = change_value (set_canonical true) new (change_value (set_canonical false) old g.values);
  version = suc g.version;
}

-- kMaxEquivalenceDepth
abbrev pub max_equivalence_depth : ℕ
max_equivalence_depth = 64

unfoldable pub follow : ℕ → List (ℕ × ℕ) → ℕ → ℕ
follow zero entries cur = cur
follow (suc depth) entries cur = elim (find_entry cur entries) [
  | none ↦ cur
  | some next ↦ follow depth entries next
]

unfoldable pub representative_of : MathGraph → ℕ → ℕ
representative_of g v = follow max_equivalence_depth g.representative v

unfoldable pub mark_lowered_away : MathGraph → ℕ → MathGraph
mark_lowered_away g v = record g {
  lowered_away = if has_id v g.lowered_away then g.lowered_away else g.lowered_away ++ v ∷ [];
  values = change_value (λ w. record w { dead = true }) v g.values;
  version = suc g.version;
}

-- `EffectChain::remove`: the first entry only.
abbrev pub remove_first : ℕ → List ℕ → List ℕ
remove_first n [] = []
remove_first n (m ∷ ms) = if m == n then ms else m ∷ remove_first n ms

abbrev pub bury : Node → Node
bury n = record n { flags = record n.flags { dead = true } }

abbrev pub change_node : (Node → Node) → ℕ → List Node → List Node
change_node f i [] = []
change_node f zero (n ∷ ns) = f n ∷ ns
change_node f (suc i) (n ∷ ns) = n ∷ change_node f i ns

-- The node is live: `killNode` returns false where it is dead already.
abbrev pub is_live_at : MathGraph → ℕ → Bool
is_live_at g n = elim (get_elem? g.nodes n) [ none ↦ false | some nd ↦ not (is_dead nd) ]

unfoldable pub kill_node : MathGraph → ℕ → MathGraph × Bool
kill_node g n =
    if is_live_at g n
    then (
      record g {
        nodes = change_node bury n g.nodes;
        effects = remove_first n g.effects;
        version = suc g.version;
      },
      true,
    )
    else (g, false)

unfoldable pub live_node_count : List Node → ℕ
live_node_count [] = 0
live_node_count (n ∷ ns) = let rest = live_node_count ns in if is_dead n then rest else suc rest

unfoldable pub topo_order : List Node → List ℕ
topo_order [] = []
topo_order (n ∷ ns) = let rest = topo_order ns in if is_dead n then rest else n.id ∷ rest
