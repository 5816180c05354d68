-- ===== src/Ir/Graph/Edit/Replace.antt =====
-- The graph after `replaceOperandUses`.
use mlk.Base.{
  ℕ, zero, suc, ◌<◌, ◌≡◌, ◌≢◌, refl, sym, ap, ap₂, ◌∙◌, ◌⊎◌, inl, inr, Bool, true, false, ◌||◌,
  Bool-cases, List, [], ◌∷◌, ◌++◌, append-nil, append_assoc, map, if◌then◌else◌, if_ind, ◌==◌, leb,
  length, length-replicate, get_or, replicate, arith, below_zero,
}
use mlk.Ir.Graph.{Node, MathGraph, push_user, push_uses}
use mlk.Ir.Graph.Edit.{
  is_dead, add_uses, rebuild_users, redirect, redirect_node, replace_operand_uses,
}

-- The second list is the first with `new` for `old`.
abbrev pub Substituted : ℕ → ℕ → List ℕ → List ℕ → Type 0
Substituted old new [] [] = Unit
Substituted old new [] (w ∷ ws) = ⊥
Substituted old new (v ∷ vs) [] = ⊥
Substituted old new (v ∷ vs) (w ∷ ws) =
    (((v ≡ old) × (w ≡ new)) ⊎ ((v ≢ old) × (w ≡ v))) × Substituted old new vs ws

-- A dead node stays as it is; a live one differs in its operands, which are substituted.
abbrev pub NodeSubstituted : ℕ → ℕ → Node → Node → Type 0
NodeSubstituted old new n m =
    ((is_dead n ≡ true) × (m ≡ n))
    ⊎ ((is_dead n ≡ false)
        × (m ≡ record n { inputs = m.inputs })
        × Substituted old new n.inputs m.inputs)

abbrev pub NodesSubstituted : ℕ → ℕ → List Node → List Node → Type 0
NodesSubstituted old new [] [] = Unit
NodesSubstituted old new [] (m ∷ ms) = ⊥
NodesSubstituted old new (n ∷ ns) [] = ⊥
NodesSubstituted old new (n ∷ ns) (m ∷ ms) =
    NodeSubstituted old new n m × NodesSubstituted old new ns ms

-- The id once for each operand that is the value `k`.
abbrev pub reads : ℕ → ℕ → List ℕ → List ℕ
reads id k [] = []
reads id k (v ∷ vs) = let rest = reads id k vs in if v == k then id ∷ rest else rest

-- The live nodes that read the value `k`, in order, once for each operand.
abbrev pub readers : ℕ → List Node → List ℕ
readers k [] = []
readers k (n ∷ ns) =
    let rest = readers k ns in if is_dead n then rest else reads n.id k n.inputs ++ rest

redirect-Substituted :
    (old new : ℕ) (vs : List ℕ) → Substituted old new vs (map (redirect old new) vs)
redirect-Substituted old new [] = tt
redirect-Substituted old new (v ∷ vs) = (one, redirect-Substituted old new vs)
  where
    one : ((v ≡ old) × (redirect old new v ≡ new)) ⊎ ((v ≢ old) × (redirect old new v ≡ v))
    one = elim (Bool-cases (v == old)) [
      | inl same ↦ inl (ground (arith, same), rw same refl)
      | inr differ ↦ inr (ground (arith, differ), rw differ refl)
    ]

redirect_node-NodeSubstituted :
    (old new : ℕ) (n : Node) → NodeSubstituted old new n (redirect_node old new n)
redirect_node-NodeSubstituted old new n =
    if_ind (NodeSubstituted old new n) (is_dead n) (λ dead. inl (dead, refl))
      (λ live. inr (live, refl, redirect-Substituted old new n.inputs))

redirect_nodes :
    (old new : ℕ) (ns : List Node) → NodesSubstituted old new ns (map (redirect_node old new) ns)
redirect_nodes old new [] = tt
redirect_nodes old new (n ∷ ns) =
    (redirect_node-NodeSubstituted old new n, redirect_nodes old new ns)

pub length-push_user :
    (n v : ℕ) (users : List (List ℕ)) → length (push_user n v users) ≡ length users
length-push_user n v [] = refl
length-push_user n zero (us ∷ uss) = refl
length-push_user n (suc v) (us ∷ uss) = ap suc (length-push_user n v uss)

pub length-push_uses :
    (n : ℕ) (vs : List ℕ) (users : List (List ℕ)) → length (push_uses n vs users) ≡ length users
length-push_uses n [] users = refl
length-push_uses n (v ∷ vs) users =
    length-push_uses n vs (push_user n v users) ∙ length-push_user n v users

get_or-push_user :
    (n v k : ℕ) (users : List (List ℕ))
    → k < length users
    → get_or (push_user n v users) k [] ≡ get_or users k [] ++ (if v == k then n ∷ [] else [])
get_or-push_user n v k [] h = absurd (below_zero h)
get_or-push_user n zero zero (us ∷ uss) h = refl
get_or-push_user n zero (suc k) (us ∷ uss) h =
    let differ : (0 == suc k) ≡ false = ground arith in rw differ (sym (append-nil _))
get_or-push_user n (suc v) zero (us ∷ uss) h =
    let differ : (suc v == 0) ≡ false = ground arith in rw differ (sym (append-nil _))
get_or-push_user n (suc v) (suc k) (us ∷ uss) h =
    let same : (suc v == suc k) ≡ (v == k) = ground arith in
    rw same (get_or-push_user n v k uss (omega (arith, h)))

cons_if :
    (b : Bool) (n : ℕ) (rest : List ℕ)
    → (if b then n ∷ [] else []) ++ rest ≡ (if b then n ∷ rest else rest)
cons_if true n rest = refl
cons_if false n rest = refl

get_or-push_uses :
    (n k : ℕ) (vs : List ℕ) (users : List (List ℕ))
    → k < length users
    → get_or (push_uses n vs users) k [] ≡ get_or users k [] ++ reads n k vs
get_or-push_uses n k [] users h = sym (append-nil _)
get_or-push_uses n k (v ∷ vs) users h =
    get_or-push_uses n k vs (push_user n v users) (omega (arith, h, length-push_user n v users))
    ∙ ap (λ us. us ++ reads n k vs) (get_or-push_user n v k users h)
    ∙ append_assoc (get_or users k []) (if v == k then n ∷ [] else []) (reads n k vs)
    ∙ ap (◌++◌ (get_or users k [])) (cons_if (v == k) n (reads n k vs))

length-add_uses :
    (ns : List Node) (users : List (List ℕ)) → length (add_uses ns users) ≡ length users
length-add_uses [] users = refl
length-add_uses (n ∷ ns) users =
    length-add_uses ns _
    ∙ if_ind (λ us. length us ≡ length users) (is_dead n) (λ _. refl)
        (λ _. length-push_uses n.id n.inputs users)

-- Rebuilding the users node by node lists, for each value, the live nodes that read it.
get_or-add_uses :
    (k : ℕ) (ns : List Node) (users : List (List ℕ))
    → k < length users
    → get_or (add_uses ns users) k [] ≡ get_or users k [] ++ readers k ns
get_or-add_uses k [] users h = sym (append-nil _)
get_or-add_uses k (n ∷ ns) users h = elim (Bool-cases (is_dead n)) [
  | inl dead ↦ rw dead (get_or-add_uses k ns users h)
  | inr live ↦ rw live (
      get_or-add_uses k ns (push_uses n.id n.inputs users)
        (omega (arith, h, length-push_uses n.id n.inputs users))
      ∙ ap (λ us. us ++ readers k ns) (get_or-push_uses n.id k n.inputs users h)
      ∙ append_assoc (get_or users k []) (reads n.id k n.inputs) (readers k ns))
]

no_users : (n k : ℕ) → get_or (replicate {A = List ℕ} n []) k [] ≡ []
no_users zero k = refl
no_users (suc n) zero = refl
no_users (suc n) (suc k) = no_users n k

rebuilt_users :
    (count k : ℕ) (ns : List Node)
    → k < count
    → get_or (add_uses ns (replicate count [])) k [] ≡ readers k ns
rebuilt_users count k ns h =
    get_or-add_uses k ns (replicate count [])
      (omega (arith, h, length-replicate {A = List ℕ} count []))
    ∙ ap (λ us. us ++ readers k ns) (no_users count k)

other_value :
    (old new v w : ℕ)
    → old ≢ new
    → ((v ≡ old) × (w ≡ new)) ⊎ ((v ≢ old) × (w ≡ v))
    → (w == old) ≡ false
other_value old new v w differ (inl (e, f)) = ground (arith, differ, f)
other_value old new v w differ (inr (e, f)) = ground (arith, e, f)

-- A node whose operands are substituted does not read the old value.
Substituted-reads :
    (id old new : ℕ) (vs ws : List ℕ) → old ≢ new → Substituted old new vs ws → reads id old ws ≡ []
Substituted-reads id old new [] [] differ h = refl
Substituted-reads id old new [] (w ∷ ws) differ h = absurd h
Substituted-reads id old new (v ∷ vs) [] differ h = absurd h
Substituted-reads id old new (v ∷ vs) (w ∷ ws) differ (here, later) =
    let other : (w == old) ≡ false = other_value old new v w differ here in
    rw other (Substituted-reads id old new vs ws differ later)

no_readers :
    (old new : ℕ) (ns ms : List Node)
    → old ≢ new
    → NodesSubstituted old new ns ms
    → readers old ms ≡ []
no_readers old new [] [] differ h = refl
no_readers old new [] (m ∷ ms) differ h = absurd h
no_readers old new (n ∷ ns) [] differ h = absurd h
no_readers old new (n ∷ ns) (m ∷ ms) differ (inl (dead, same), later) =
    if_ind (λ r. r ≡ []) (is_dead m) (λ _. no_readers old new ns ms differ later)
      (λ live. cc (ap is_dead same, dead, live))
no_readers old new (n ∷ ns) (m ∷ ms) differ (inr (live, _, operands), later) =
    let rest = no_readers old new ns ms differ later in
    if_ind (λ r. r ≡ []) (is_dead m) (λ _. rest)
      (λ _. ap₂ ◌++◌ (Substituted-reads m.id old new n.inputs m.inputs differ operands) rest)

-- What the replacement of `old` by `new` promises of the graph after it.
pub record Replaced (old new : ℕ) (g h : MathGraph) : Type 0 where
  pub nodes : NodesSubstituted old new g.nodes h.nodes
  pub outputs : Substituted old new g.outputs h.outputs
  pub users : (k : ℕ) → k < length g.values → get_or h.users k [] ≡ readers k h.nodes
  pub old_unused : get_or h.users old [] ≡ []
  pub others :
      record h { nodes = g.nodes; outputs = g.outputs; users = g.users; version = g.version } ≡ g
  pub version : h.version ≡ suc g.version

in_range : (m o w : ℕ) → o ≢ w → o < m → w < m → (o == w || leb m o || leb m w) ≡ false
in_range m o w h i j = ground (arith, h, i, j)

-- After a value is replaced by another, both of the graph, each operand of a live node and each output
-- that was the old value is the new one and all others are as they were, dead nodes and the rest of the
-- graph are unchanged, the users of each value are the live nodes that read it, once for each operand,
-- and the old value has none.
pub replace_operand_uses_correct :
    (g : MathGraph) (old new : ℕ)
    → old ≢ new
    → old < length g.values
    → new < length g.values
    → Replaced old new g (replace_operand_uses g old new)
unfolding replace_operand_uses rebuild_users
replace_operand_uses_correct g old new differ i j =
    if_ind (Replaced old new g)
      (old == new || leb (length g.values) old || leb (length g.values) new)
      (λ skip. cc (skip, in_range (length g.values) old new differ i j))
      (λ _. record {
        nodes = redirect_nodes old new g.nodes;
        outputs = redirect-Substituted old new g.outputs;
        users = λ k below.
            rebuilt_users (length g.values) k (map (redirect_node old new) g.nodes) below;
        old_unused =
            rebuilt_users (length g.values) old (map (redirect_node old new) g.nodes) i
            ∙ no_readers old new g.nodes _ differ (redirect_nodes old new g.nodes);
        others = refl;
        version = refl;
      })
