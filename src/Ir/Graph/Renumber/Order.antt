-- ===== src/Ir/Graph/Renumber/Order.antt =====
-- The order that `renumberTopological` gives the nodes: every node is in it, and a dead one twice.
use mlk.Base.{
  ℕ, zero, suc, ◌+◌, ◌-◌, ◌≤◌, ◌<◌, ◌≡◌, refl, sym, ap, ◌∙◌, subst, ◌⊎◌, inl, inr, Bool, true,
  false, not, ◌&&◌, ◌||◌, some, some_inj, List, [], ◌∷◌, ◌++◌, if_ind, ◌==◌, leb, length,
  length-set, length-replicate, get_or, set, replicate, All, All-append, All-map, arith,
}
use mlk.Ir.Graph.{Node, MathGraph, has_id}
use mlk.Ir.Graph.Edit.{is_dead}
use mlk.Ir.Graph.Renumber.{
  Placing, pending_deps, first_ready, dead_at, wake, release_user, release_users, release_results,
  results_of, place, place_all, start_placing,
}

-- A node of the graph that is not dead.
abbrev Live : List Node → ℕ → Type 0
Live nodes i = (i < length nodes) × (dead_at nodes i ≡ false)

-- The queue holds live nodes, and the nodes that are placed are live and in the order.
pub record Sound (nodes : List Node) (p : Placing) : Type 0 where
  pub queued : All (Live nodes) p.ready
  pub ordered : All (λ i. i < length nodes) p.order
  pub sized : length p.placed ≡ length nodes
  pub placed_live :
      (i : ℕ)
      → get_or p.placed i false ≡ true
      → (has_id i p.order ≡ true) × (dead_at nodes i ≡ false)

-- A node `k` of a list that starts at `i`, and is not dead there.
abbrev LiveFrom : ℕ → List Node → ℕ → Type 0
LiveFrom i ns k = (i ≤ k) × (k < i + length ns) × (dead_at ns (k - i) ≡ false)

LiveFrom-suc :
    (i : ℕ) (n : Node) (ns : List Node) (k : ℕ) → LiveFrom (suc i) ns k → LiveFrom i (n ∷ ns) k
LiveFrom-suc i n ns k (le, lt, live) = (
  omega (arith, le),
  omega (arith, lt),
  let step : k - i ≡ suc (k - suc i) = omega (arith, le) in ap (dead_at (n ∷ ns)) step ∙ live,
)

LiveFrom-here : (i : ℕ) (n : Node) (ns : List Node) → is_dead n ≡ false → LiveFrom i (n ∷ ns) i
LiveFrom-here i n ns live = (
  omega arith,
  omega arith,
  let none_left : i - i ≡ 0 = omega arith in ap (dead_at (n ∷ ns)) none_left ∙ live,
)

not-false : (a b : Bool) → (not a && b) ≡ true → a ≡ false
not-false a b h = ground (arith, h)

first_ready-LiveFrom :
    (i : ℕ) (ns : List Node) (ds : List ℕ) → All (LiveFrom i ns) (first_ready i ns ds)
first_ready-LiveFrom i [] ds = tt
first_ready-LiveFrom i (n ∷ ns) [] = tt
first_ready-LiveFrom i (n ∷ ns) (d ∷ ds) =
    let later = All-map _ _ (LiveFrom-suc i n ns) _ (first_ready-LiveFrom (suc i) ns ds) in
    if_ind (All (LiveFrom i (n ∷ ns))) (not (is_dead n) && d == 0)
      (λ live. (LiveFrom-here i n ns (not-false (is_dead n) _ live), later)) (λ _. later)

no_true : (n i : ℕ) → get_or (replicate n false) i false ≡ true → ⊥
no_true zero i h = cc
no_true (suc n) zero h = cc
no_true (suc n) (suc i) h = no_true n i h

pub start-Sound : (g : MathGraph) → Sound g.nodes (start_placing g)
unfolding start_placing
start-Sound g = record {
  queued =
      All-map _ _ (λ k h. (omega (arith, h.1), ap (dead_at g.nodes) (sym (minus_zero k)) ∙ h.2)) _
        (first_ready-LiveFrom 0 g.nodes (pending_deps g.nodes g.values g.nodes));
  ordered = tt;
  sized = length-replicate (length g.nodes) false;
  placed_live = λ i h. absurd (no_true (length g.nodes) i h);
}
  where
    minus_zero : (k : ℕ) → k - 0 ≡ k
    minus_zero k = omega arith

wake-Sound :
    (nodes : List Node) (user : ℕ) (p : Placing)
    → Live nodes user
    → Sound nodes p
    → Sound nodes (wake user p)
wake-Sound nodes user p live h = record {
  queued =
      if_ind (All (Live nodes)) (get_or p.pending user 0 == 1)
        (λ _. All-append _ p.ready _ h.queued (live, tt)) (λ _. h.queued);
  ordered = h.ordered;
  sized = h.sized;
  placed_live = h.placed_live;
}

live_part : (n i : ℕ) (b c : Bool) → (leb n i || b || c) ≡ false → (i < n) × (b ≡ false)
live_part n i b c h = ground (arith, h)

release_user-Sound :
    (nodes : List Node) (user : ℕ) (p : Placing)
    → Sound nodes p
    → Sound nodes (release_user nodes user p)
unfolding release_user
release_user-Sound nodes user p h =
    if_ind (Sound nodes)
      (leb (length nodes) user || dead_at nodes user || get_or p.placed user false) (λ _. h)
      (λ live.
        if_ind (Sound nodes) (get_or p.pending user 0 == 0) (λ _. h)
          (λ _. wake-Sound nodes user p (live_part (length nodes) user _ _ live) h))

release_users-Sound :
    (nodes : List Node) (us : List ℕ) (p : Placing)
    → Sound nodes p
    → Sound nodes (release_users nodes us p)
release_users-Sound nodes [] p h = h
release_users-Sound nodes (u ∷ us) p h =
    release_users-Sound nodes us (release_user nodes u p) (release_user-Sound nodes u p h)

release_results-Sound :
    (nodes : List Node) (users : List (List ℕ)) (rs : List ℕ) (p : Placing)
    → Sound nodes p
    → Sound nodes (release_results nodes users rs p)
release_results-Sound nodes users [] p h = h
release_results-Sound nodes users (r ∷ rs) p h =
    release_results-Sound nodes users rs (release_users nodes (get_or users r []) p)
      (release_users-Sound nodes (get_or users r []) p h)

pub has_id-append : (v : ℕ) (xs ys : List ℕ) → has_id v (xs ++ ys) ≡ (has_id v xs || has_id v ys)
has_id-append v [] ys = refl
has_id-append v (x ∷ xs) ys = ground (arith, has_id-append v xs ys)

placed_cases :
    (bs : List Bool) (k i : ℕ)
    → get_or (set bs k true) i false ≡ true
    → (k ≡ i) ⊎ (get_or bs i false ≡ true)
placed_cases [] k i h = inr h
placed_cases (b ∷ bs) zero zero h = inl refl
placed_cases (b ∷ bs) zero (suc i) h = inr h
placed_cases (b ∷ bs) (suc k) zero h = inr h
placed_cases (b ∷ bs) (suc k) (suc i) h = elim (placed_cases bs k i h) [
  | inl same ↦ inl (ap suc same)
  | inr before ↦ inr before
]

place-Sound :
    (g : MathGraph) (cur : ℕ) (rest : List ℕ) (p : Placing)
    → All (Live g.nodes) (cur ∷ rest)
    → Sound g.nodes p
    → Sound g.nodes (place g cur rest p)
place-Sound g cur rest p live h =
    release_results-Sound g.nodes g.users (results_of g.nodes cur) _ record {
      queued = live.1;
      ordered = All-append _ p.order _ h.ordered (live.0.0, tt);
      sized = length-set p.placed cur true ∙ h.sized;
      placed_live = λ i at. elim (placed_cases p.placed cur i at) [
        | inl same ↦ (
          ground (arith, has_id-append i p.order (cur ∷ []), same),
          ap (dead_at g.nodes) (sym same) ∙ live.0.1,
        )
        | inr before ↦ (
          ground (arith, has_id-append i p.order (cur ∷ []), h.placed_live i before),
          (h.placed_live i before).1,
        )
      ];
    }

pub place_all-Sound :
    (fuel : ℕ) (g : MathGraph) (p q : Placing)
    → Sound g.nodes p
    → place_all fuel g p ≡ some q
    → Sound g.nodes q
unfolding place_all
place_all-Sound zero g p q h = λ e. cc
place_all-Sound (suc fuel) g p q h = found p.ready h.queued (λ cur rest live.
    place_all-Sound fuel g (place g cur rest p) q (place-Sound g cur rest p live h))
  where
    found :
        (queue : List ℕ)
        → All (Live g.nodes) queue
        → ((cur : ℕ) (rest : List ℕ)
            → All (Live g.nodes) (cur ∷ rest)
            → place_all fuel g (place g cur rest p) ≡ some q
            → Sound g.nodes q)
        → elim queue [ [] ↦ some p | cur ∷ rest ↦ place_all fuel g (place g cur rest p) ] ≡ some q
        → Sound g.nodes q
    found [] live later e = subst (Sound g.nodes) (some_inj e) h
    found (cur ∷ rest) live later e = later cur rest live e
