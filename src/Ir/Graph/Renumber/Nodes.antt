-- ===== src/Ir/Graph/Renumber/Nodes.antt =====
-- What `renumberTopological` makes of the nodes, the values and the effect chain, by the new ids.
use mlk.Base.{
  ℕ, zero, suc, ◌<◌, ◌≡◌, refl, sym, ap, ◌∙◌, Bool, true, false, ◌&&◌, none, some, some_inj, List,
  [], ◌∷◌, map, if◌then◌else◌, ltb, length, below_get, get_elem?, get_elem?_in, get_or, All,
  All-get_elem?, arith,
}
use mlk.Ir.Graph.{Node, Value, is_node_result, invalid_id}
use mlk.Ir.Graph.Renumber.{moved_nodes, moved_value, moved_chain}

-- The new id of a node; another number stays.
abbrev pub renamed : (ℕ → ℕ) → ℕ → ℕ → ℕ
renamed moved count n = if ltb n count then moved n else n

abbrev pub chained : ℕ → List ℕ → List ℕ
chained count [] = []
chained count (n ∷ ns) = let rest = chained count ns in if ltb n count then n ∷ rest else rest

-- The value of a node names the node by its new id.
abbrev pub produced : (ℕ → ℕ) → ℕ → Value → Value
produced moved count v = record v {
  producer = if is_node_result v.kind then renamed moved count v.producer else v.producer;
}

-- The node with its new id; everything else of it is kept.
abbrev pub at_id : Node → ℕ → Node
at_id nd n = record nd { id = n }

abbrev pub new_ids : List ℕ → ℕ → ℕ
new_ids remap i = get_or remap i invalid_id

pub moved_nodes-at :
    (nodes : List Node) (remap order : List ℕ) (p i : ℕ) (nd : Node)
    → All (λ k. k < length nodes) order
    → get_elem? order p ≡ some i
    → get_elem? nodes i ≡ some nd
    → get_elem? (moved_nodes nodes remap order) p ≡ some (at_id nd (new_ids remap i))
moved_nodes-at nodes remap [] p i nd below at found = cc
moved_nodes-at nodes remap (n ∷ ns) p i nd below at found =
    let (m, there) = below_get nodes n below.0 in
    ap
      (λ o.
        get_elem?
          (elim o [
            | none ↦ moved_nodes nodes remap ns
            | some x ↦ record x { id = get_or remap n invalid_id } ∷ moved_nodes nodes remap ns
          ])
          p)
      there
    ∙ placed p m there at (λ q here. moved_nodes-at nodes remap ns q i nd below.1 here found)
  where
    placed :
        (q : ℕ) (m : Node)
        → get_elem? nodes n ≡ some m
        → get_elem? (n ∷ ns) q ≡ some i
        → ((k : ℕ)
            → get_elem? ns k ≡ some i
            → get_elem? (moved_nodes nodes remap ns) k ≡ some (at_id nd (new_ids remap i)))
        → get_elem? (at_id m (new_ids remap n) ∷ moved_nodes nodes remap ns) q
          ≡ some (at_id nd (new_ids remap i))
    placed zero m there here later =
        let same = some_inj (sym there ∙ ap (get_elem? nodes) (some_inj here) ∙ found) in
        ap some (
          ap (λ k. at_id m (new_ids remap k)) (some_inj here)
          ∙ ap (λ x. at_id x (new_ids remap i)) same)
    placed (suc q) m there here later = later q here

length-moved_nodes :
    (nodes : List Node) (remap order : List ℕ)
    → All (λ i. i < length nodes) order
    → length (moved_nodes nodes remap order) ≡ length order
length-moved_nodes nodes remap [] h = refl
length-moved_nodes nodes remap (n ∷ ns) h =
    let (nd, there) = below_get nodes n h.0 in
    ap
      (λ found. length (elim found [
        | none ↦ moved_nodes nodes remap ns
        | some nd ↦ record nd { id = get_or remap n invalid_id } ∷ moved_nodes nodes remap ns
      ]))
      there
    ∙ ap suc (length-moved_nodes nodes remap ns h.1)

pub moved_nodes-origin :
    (nodes : List Node) (remap order : List ℕ) (p : ℕ) (m : Node)
    → All (λ k. k < length nodes) order
    → get_elem? (moved_nodes nodes remap order) p ≡ some m
    → (i : ℕ) × (nd : Node) × (get_elem? nodes i ≡ some nd) × (m ≡ at_id nd (new_ids remap i))
moved_nodes-origin nodes remap order p m below h =
    let (i, at) =
      below_get order p
        (omega (arith, get_elem?_in _ p h, length-moved_nodes nodes remap order below)) in
    let (nd, found) = below_get nodes i (All-get_elem? _ order p i below at) in
    (i, nd, found, some_inj (sym h ∙ moved_nodes-at nodes remap order p i nd below at found))

moved_value-produced :
    (count : ℕ) (remap : List ℕ) (v : Value)
    → moved_value count remap v ≡ produced (new_ids remap) count v
moved_value-produced count remap v = step (is_node_result v.kind) (ltb v.producer count)
  where
    step :
        (a b : Bool)
        → (if a && b then record v { producer = get_or remap v.producer invalid_id } else v)
          ≡ record v {
            producer = if a then if b then new_ids remap v.producer else v.producer else v.producer;
          }
    step true true = refl
    step true false = refl
    step false b = refl

pub moved_values :
    (count : ℕ) (remap : List ℕ) (vs : List Value)
    → map (moved_value count remap) vs ≡ map (produced (new_ids remap) count) vs
moved_values count remap [] = refl
moved_values count remap (v ∷ vs) =
    ap (λ w. w ∷ map (moved_value count remap) vs) (moved_value-produced count remap v)
    ∙ ap (λ ws. produced (new_ids remap) count v ∷ ws) (moved_values count remap vs)

pub moved_effects :
    (count : ℕ) (remap es : List ℕ)
    → moved_chain count remap es ≡ map (new_ids remap) (chained count es)
moved_effects count remap [] = refl
moved_effects count remap (n ∷ ns) = step (ltb n count) (moved_effects count remap ns)
  where
    step :
        (b : Bool)
        → moved_chain count remap ns ≡ map (new_ids remap) (chained count ns)
        → (if b
            then get_or remap n invalid_id ∷ moved_chain count remap ns
            else moved_chain count remap ns)
          ≡ map (new_ids remap) (if b then n ∷ chained count ns else chained count ns)
    step true e = ap (λ rest. get_or remap n invalid_id ∷ rest) e
    step false e = e
