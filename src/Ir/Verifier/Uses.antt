-- ===== src/Ir/Verifier/Uses.antt =====
-- The lists of users that the construction API keeps are those that `rebuildUsers` computes.
use mlk.Base.{
  ℕ, zero, suc, ◌<◌, ◌≡◌, refl, sym, ap, ◌∙◌, subst, false, List, [], ◌∷◌, ◌++◌, if◌then◌else◌,
  if_ind, length, length-append, replicate, length-replicate, All, All-map, arith, below_zero,
  Bool-cases, inl, inr, get_elem?_in,
}
use mlk.Core.SymbolTable.{SymbolTable}
use mlk.Ir.Op.{MathOp}
use mlk.Ir.Graph.{
  Node, Value, MathGraph, Attr, allocate_value, with_node, has_id, push_user, push_uses, fresh_node,
}
use mlk.Ir.Graph.Edit.{is_dead, add_uses, rebuild_users}
use mlk.Ir.Graph.Edit.Replace.{length-push_user, length-push_uses}
use mlk.Ir.Verifier.Legal.{IsLegal, OperandOk}
use mlk.Ir.Verifier.Built.{
  Built, Step, start, next, input, literal, node, output, Built-IsLegal, add_node_parts,
}

push_user-append :
    (n v : ℕ) (users more : List (List ℕ))
    → v < length users
    → push_user n v (users ++ more) ≡ push_user n v users ++ more
push_user-append n v [] more h = absurd (below_zero h)
push_user-append n zero (us ∷ uss) more h = refl
push_user-append n (suc v) (us ∷ uss) more h =
    ap (◌∷◌ us) (push_user-append n v uss more (omega (arith, h)))

push_uses-append :
    (n : ℕ) (vs : List ℕ) (users more : List (List ℕ))
    → All (λ v. v < length users) vs
    → push_uses n vs (users ++ more) ≡ push_uses n vs users ++ more
push_uses-append n [] users more h = refl
push_uses-append n (v ∷ vs) users more h =
    ap (push_uses n vs) (push_user-append n v users more h.0)
    ∙ push_uses-append n vs (push_user n v users) more
        (All-map _ _ (λ w k. omega (arith, k, length-push_user n v users)) vs h.1)

still_below :
    (ns : List Node) (users : List (List ℕ)) (n : Node)
    → All (λ m. All (λ v. v < length users) m.inputs) ns
    → All (λ m. All (λ v. v < length (push_uses n.id n.inputs users)) m.inputs) ns
still_below ns users n =
    All-map _ _
      (λ m h.
        All-map _ _ (λ v k. omega (arith, k, length-push_uses n.id n.inputs users)) m.inputs h)
      ns

add_uses-append_users :
    (ns : List Node) (users more : List (List ℕ))
    → All (λ n. All (λ v. v < length users) n.inputs) ns
    → add_uses ns (users ++ more) ≡ add_uses ns users ++ more
add_uses-append_users [] users more h = refl
add_uses-append_users (n ∷ ns) users more h = elim (Bool-cases (is_dead n)) [
  | inl dead ↦
      ap (λ d. add_uses ns (if d then users ++ more else push_uses n.id n.inputs (users ++ more)))
        dead
      ∙ add_uses-append_users ns users more h.1
      ∙ ap (λ d. add_uses ns (if d then users else push_uses n.id n.inputs users) ++ more)
          (sym dead)
  | inr live ↦
      ap (λ d. add_uses ns (if d then users ++ more else push_uses n.id n.inputs (users ++ more)))
        live
      ∙ ap (add_uses ns) (push_uses-append n.id n.inputs users more h.0)
      ∙ add_uses-append_users ns (push_uses n.id n.inputs users) more (still_below ns users n h.1)
      ∙ ap (λ d. add_uses ns (if d then users else push_uses n.id n.inputs users) ++ more)
          (sym live)
]

add_uses-append_node :
    (ns : List Node) (n : Node) (users : List (List ℕ))
    → is_dead n ≡ false
    → add_uses (ns ++ n ∷ []) users ≡ push_uses n.id n.inputs (add_uses ns users)
add_uses-append_node [] n users live =
    ap (λ d. if d then users else push_uses n.id n.inputs users) live
add_uses-append_node (m ∷ ns) n users live = add_uses-append_node ns n _ live

replicate_more : {A : Type 0} (n : ℕ) (a : A) → replicate (suc n) a ≡ replicate n a ++ a ∷ []
replicate_more zero a = refl
replicate_more (suc n) a = ap (◌∷◌ a) (replicate_more n a)

-- The operands of the nodes of a legal graph are values.
operands_below :
    (g : MathGraph)
    → IsLegal g
    → All
        (λ n. All (λ v. v < length (replicate {A = List ℕ} (length g.values) [])) n.inputs)
        g.nodes
operands_below g h =
    All-map _ _ (λ n ok. All-map _ _ (λ v there. operand_below g n.id v there) n.inputs ok.operands)
      g.nodes h.nodes_ok
  where
    operand_below :
        (g : MathGraph) (id v : ℕ)
        → OperandOk g.values id v
        → v < length (replicate {A = List ℕ} (length g.values) [])
    operand_below g id v (val, there, _) =
        omega
          (arith, get_elem?_in g.values v there, length-replicate {A = List ℕ} (length g.values) [])

abbrev UsersExact : MathGraph → Type 0
UsersExact g = g.users ≡ add_uses g.nodes (replicate (length g.values) [])

one_more_value :
    (g : MathGraph) (v : Value)
    → IsLegal g
    → UsersExact g
    → g.users ++ [] ∷ [] ≡ add_uses g.nodes (replicate (length (g.values ++ v ∷ [])) [])
one_more_value g v legal exact =
    let longer : length (g.values ++ v ∷ []) ≡ suc (length g.values) =
      omega (arith, length-append {0} g.values (v ∷ [])) in
    ap (λ us. us ++ [] ∷ []) exact
    ∙ sym (
        add_uses-append_users g.nodes (replicate (length g.values) []) ([] ∷ [])
          (operands_below g legal))
    ∙ ap (add_uses g.nodes) (sym (replicate_more (length g.values) []))
    ∙ ap (λ k. add_uses g.nodes (replicate k [])) (sym longer)

allocate-UsersExact :
    (g : MathGraph) (v : Value) → IsLegal g → UsersExact g → UsersExact (allocate_value g v).1
unfolding allocate_value
allocate-UsersExact g v legal exact =
    one_more_value g (record v { id = length g.values }) legal exact

with_node-UsersExact :
    (g : MathGraph) (op : MathOp) (inputs : List ℕ) (attrs : List Attr) (named : ℕ × SymbolTable)
    → IsLegal g
    → UsersExact g
    → UsersExact (with_node g op inputs attrs named).1
unfolding with_node
with_node-UsersExact g op inputs attrs (name, symbols) legal exact =
    ap (push_uses (length g.nodes) inputs) (one_more_value g _ legal exact)
    ∙ sym (
        add_uses-append_node g.nodes (fresh_node (length g.nodes) op inputs attrs (length g.values))
          _ refl)

Step-UsersExact : {g h : MathGraph} → Step g h → IsLegal g → UsersExact g → UsersExact h
Step-UsersExact {g} (input kind name type is) legal exact = allocate-UsersExact g _ legal exact
Step-UsersExact {g} (literal payload type) legal exact = allocate-UsersExact g _ legal exact
Step-UsersExact {g} (node op inputs attrs out arity done) legal exact =
    let (named, below, made) = add_node_parts g op inputs attrs out done in
    subst (λ o. UsersExact o.1) made (with_node-UsersExact g op inputs attrs named legal exact)
Step-UsersExact {g} (output v below) legal exact =
    if_ind UsersExact (has_id v g.outputs) (λ _. exact) (λ _. exact)

Built-UsersExact : {g : MathGraph} → Built g → UsersExact g
Built-UsersExact start = refl
Built-UsersExact (next before step) =
    Step-UsersExact step (Built-IsLegal before) (Built-UsersExact before)

-- `rebuildUsers` changes nothing.
pub rebuild_users-Built : {g : MathGraph} → Built g → rebuild_users g ≡ g
unfolding rebuild_users
rebuild_users-Built {g} built = ap (λ us. record g { users = us }) (sym (Built-UsersExact built))
