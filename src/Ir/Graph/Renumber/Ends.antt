-- ===== src/Ir/Graph/Renumber/Ends.antt =====
-- `renumberTopological` ends: a node enters the queue at most once, when its last dependency is placed.
use mlk.Base.{
  ℕ, zero, suc, ◌+◌, ◌-◌, ◌≤◌, ◌<◌, ◌≡◌, refl, ap, ◌∙◌, true, false, some, List, [], ◌∷◌, ◌++◌,
  if◌then◌else◌, if_ind, ◌==◌, length, length-append, get_or, set, arith, ◌||◌, leb, ◌≢◌,
  Bool-cases, inl, inr, below_zero,
}
use mlk.Ir.Graph.{Node, MathGraph}
use mlk.Ir.Graph.Renumber.{
  Placing, pending_deps, first_ready, release_user, wake, dead_at, release_users, release_results,
  results_of, place, place_all, start_placing,
}

-- The nodes that still wait for another.
abbrev waiting : List ℕ → ℕ
waiting [] = 0
waiting (d ∷ ds) = let rest = waiting ds in if d == 0 then rest else suc rest

-- The nodes that the queue may still take.
abbrev to_come : Placing → ℕ
to_come p = length p.ready + waiting p.pending

waiting-last : (ds : List ℕ) (i : ℕ) → get_or ds i 0 ≡ 1 → suc (waiting (set ds i 0)) ≡ waiting ds
waiting-last [] i h = cc
waiting-last (d ∷ ds) zero h = ground (arith, h)
waiting-last (d ∷ ds) (suc i) h = ground (arith, waiting-last ds i h)

waiting-less :
    (ds : List ℕ) (i d : ℕ) → 1 < get_or ds i 0 → 0 < d → waiting (set ds i d) ≡ waiting ds
waiting-less [] i d h pos_d = refl
waiting-less (x ∷ ds) zero d h pos_d = ground (arith, h, pos_d)
waiting-less (x ∷ ds) (suc i) d h pos_d = ground (arith, waiting-less ds i d h pos_d)

last_left : (d : ℕ) → (d == 1) ≡ true → d - 1 ≡ 0
last_left d h = ground (arith, h)

several : (d : ℕ) → d ≢ 0 → (d == 1) ≡ false → 1 < d
several d h k = ground (arith, h, k)

some_left : (d : ℕ) → d ≢ 0 → (d == 1) ≡ false → 0 < d - 1
some_left d h k = ground (arith, h, k)

wake-to_come :
    (user : ℕ) (p : Placing) → get_or p.pending user 0 ≢ 0 → to_come (wake user p) ≡ to_come p
wake-to_come user p waits = elim (Bool-cases (get_or p.pending user 0 == 1)) [
  | inl last ↦
      let now_zero =
        ap (λ d. waiting (set p.pending user d)) (last_left (get_or p.pending user 0) last) in
      omega (
        arith,
        ap (λ b. length (if b then p.ready ++ user ∷ [] else p.ready)) last,
        length-append {0} p.ready (user ∷ []),
        now_zero,
        waiting-last p.pending user (ground (arith, last)),
      )
  | inr more ↦ omega (
    arith,
    ap (λ b. length (if b then p.ready ++ user ∷ [] else p.ready)) more,
    waiting-less p.pending user (get_or p.pending user 0 - 1)
        (several (get_or p.pending user 0) waits more)
        (some_left (get_or p.pending user 0) waits more),
  )
]

release_user-to_come :
    (nodes : List Node) (user : ℕ) (p : Placing) → to_come (release_user nodes user p) ≡ to_come p
unfolding release_user
release_user-to_come nodes user p =
    if_ind (λ q. to_come q ≡ to_come p)
      (leb (length nodes) user || dead_at nodes user || get_or p.placed user false) (λ _. refl)
      (λ _.
        if_ind (λ q. to_come q ≡ to_come p) (get_or p.pending user 0 == 0) (λ _. refl)
          (λ waits. wake-to_come user p (ground (arith, waits))))

release_users-to_come :
    (nodes : List Node) (users : List ℕ) (p : Placing)
    → to_come (release_users nodes users p) ≡ to_come p
release_users-to_come nodes [] p = refl
release_users-to_come nodes (u ∷ us) p =
    release_users-to_come nodes us (release_user nodes u p) ∙ release_user-to_come nodes u p

release_results-to_come :
    (nodes : List Node) (users : List (List ℕ)) (rs : List ℕ) (p : Placing)
    → to_come (release_results nodes users rs p) ≡ to_come p
release_results-to_come nodes users [] p = refl
release_results-to_come nodes users (r ∷ rs) p =
    release_results-to_come nodes users rs (release_users nodes (get_or users r []) p)
    ∙ release_users-to_come nodes (get_or users r []) p

first_ready-waiting :
    (i : ℕ) (nodes : List Node) (ds : List ℕ)
    → length (first_ready i nodes ds) + waiting ds ≤ length ds
first_ready-waiting i [] [] = omega arith
first_ready-waiting i [] (d ∷ ds) = ground (arith, first_ready-waiting i [] ds)
first_ready-waiting i (n ∷ ns) [] = omega arith
first_ready-waiting i (n ∷ ns) (d ∷ ds) = ground (arith, first_ready-waiting (suc i) ns ds)

length-pending_deps :
    (nodes : List Node) (values : _) (ns : List Node)
    → length (pending_deps nodes values ns) ≡ length ns
length-pending_deps nodes values [] = refl
length-pending_deps nodes values (n ∷ ns) = ap suc (length-pending_deps nodes values ns)

-- A round takes one node off.
place-to_come :
    (g : MathGraph) (cur : ℕ) (rest : List ℕ) (p : Placing)
    → p.ready ≡ cur ∷ rest
    → suc (to_come (place g cur rest p)) ≡ to_come p
place-to_come g cur rest p e = omega (
  arith,
  release_results-to_come g.nodes g.users (results_of g.nodes cur)
      (record p { placed = set p.placed cur true; ready = rest; order = p.order ++ cur ∷ [] }),
  ap length e,
)

-- Enough rounds for the queue empty it.
place_all_ends :
    (fuel : ℕ) (g : MathGraph) (p : Placing)
    → to_come p < fuel
    → (q : Placing) × (place_all fuel g p ≡ some q)
unfolding place_all
place_all_ends zero g p h = absurd (below_zero h)
place_all_ends (suc fuel) g p h = found p.ready refl (λ cur rest e.
    place_all_ends fuel g (place g cur rest p) (omega (arith, place-to_come g cur rest p e, h)))
  where
    found :
        (queue : List ℕ)
        → p.ready ≡ queue
        → ((cur : ℕ) (rest : List ℕ)
            → p.ready ≡ cur ∷ rest
            → (q : Placing) × (place_all fuel g (place g cur rest p) ≡ some q))
        → (q : Placing) × (elim queue [
          | [] ↦ some p
          | cur ∷ rest ↦ place_all fuel g (place g cur rest p)
        ]
            ≡ some q)
    found [] e after = (p, refl)
    found (cur ∷ rest) e after = after cur rest e

start-to_come : (g : MathGraph) → to_come (start_placing g) ≤ length g.nodes
unfolding start_placing
start-to_come g = omega (
  arith,
  first_ready-waiting 0 g.nodes (pending_deps g.nodes g.values g.nodes),
  length-pending_deps g.nodes g.values g.nodes,
)

-- The fuel of `renumber_topological` is enough for its queue.
pub start_ends :
    (g : MathGraph)
    → (q : Placing) × (place_all (suc (length g.nodes)) g (start_placing g) ≡ some q)
start_ends g =
    place_all_ends (suc (length g.nodes)) g (start_placing g) (omega (arith, start-to_come g))
