-- ===== src/Ir/Graph/Renumber/Moves.antt =====
-- The graph that `renumberTopological` leaves: its nodes at their new ids, and what names them renamed.
use mlk.Base.{ℕ, suc, ◌<◌, ◌≡◌, ◌≢◌, ◌⊎◌, true, false, some, map, length, get_elem?, All}
use mlk.Ir.Graph.{Node, MathGraph}
use mlk.Ir.Graph.Edit.{is_dead}
use mlk.Ir.Graph.Renumber.Complete.{Complete}
use mlk.Ir.Graph.Renumber.Nodes.{renamed, chained, at_id, produced}

-- `h` is `g` with each node `i` at `moved i`, and there with the id `moved i`. A dead node is also
-- at a position before that. There is no other node. The producers, the users and the effect chain
-- name the nodes by their new ids, nothing else changes but the version.
pub record Renumbered (moved : ℕ → ℕ) (g h : MathGraph) : Type 0 where
  lands :
      (i : ℕ) (nd : Node)
      → get_elem? g.nodes i ≡ some nd
      → get_elem? h.nodes (moved i) ≡ some (at_id nd (moved i))
  repeats :
      (i : ℕ) (nd : Node)
      → get_elem? g.nodes i ≡ some nd
      → is_dead nd ≡ true
      → (p : ℕ) × (p < moved i) × (get_elem? h.nodes p ≡ some (at_id nd (moved i)))
  origin :
      (p : ℕ) (m : Node)
      → get_elem? h.nodes p ≡ some m
      → (i : ℕ) × (nd : Node) × (get_elem? g.nodes i ≡ some nd) × (m ≡ at_id nd (moved i))
  producers : h.values ≡ map (produced moved (length g.nodes)) g.values
  users : h.users ≡ map (map (renamed moved (length g.nodes))) g.users
  effects : h.effects ≡ map moved (chained (length g.nodes) g.effects)
  others :
      record h {
        nodes = g.nodes;
        values = g.values;
        users = g.users;
        effects = g.effects;
        version = g.version;
      }
      ≡ g
  version : h.version ≡ suc g.version

-- Nothing moved and no node is dead, or the graph is renumbered.
abbrev Outcome : MathGraph → ℕ × MathGraph → Type 0
Outcome g out =
    ((out.0 ≡ 0) × (out.1 ≡ g) × All (λ n. is_dead n ≡ false) g.nodes)
    ⊎ ((out.0 ≢ 0) × ((moved : ℕ → ℕ) × Renumbered moved g out.1))
