-- ===== src/Poly/Lex/Ends.antt =====
-- The search is never cut short: each node it enters is taken from the budget, so that the walk over
-- the candidates of a dimension makes no more rounds than there are nodes left.
use mlk.Base.{
  ℕ, zero, suc, ◌≤◌, ◌<◌, ◌≢◌, Bool, true, false, ◌||◌, Option, none, some, List, [], ◌∷◌,
  if◌then◌else◌, ◌==◌, length, arith, if_ind,
}
use mlk.Base.Int.{ℤ, pos, negsuc, eqb_ℤ, ltb_ℤ, add64, int64_max}
use mlk.Base.Res.{ErrorCode, Result, ok, err, invalid_argument}
use mlk.Poly.System.{Polyhedron, contains_point}
use mlk.Poly.IntSet.{PresburgerSet}
use mlk.Poly.Lex.{
  LexState, Search, out_of_fuel, failed, finished, Interval, go_on, walk_on, walk, leaf, enter,
  branch, take_node, int64_min, lex_search, project_deeper, interval_of, Optimum, cut_short,
  loop_on, lex_loop, lex_min, lex_max, keep_best, lex_bb_node_budget,
}

-- The search answers, and leaves less than the budget where it finished.
Leaves : ℕ → Search → Type 0
Leaves bound out_of_fuel = ⊥
Leaves bound (failed code) = Unit
Leaves bound (finished found st) = st.node_budget < bound

finished-Leaves :
    (bound : ℕ) (b : Bool) (st : LexState) → st.node_budget < bound → Leaves bound (finished b st)
unfolding Leaves
finished-Leaves bound b st h = h

failed-Leaves : (bound : ℕ) (code : ErrorCode) → Leaves bound (failed code)
unfolding Leaves
failed-Leaves bound code = tt

Leaves-mono : (m n : ℕ) (o : Search) → m ≤ n → Leaves m o → Leaves n o
unfolding Leaves
Leaves-mono m n out_of_fuel h l = l
Leaves-mono m n (failed code) h l = tt
Leaves-mono m n (finished found st) h l = omega arith

go_on-Leaves :
    {A : Type 0} (bound : ℕ) (st : LexState) (m : Result (Option A)) (next : A → Search)
    → st.node_budget < bound
    → ((a : A) → Leaves bound (next a))
    → Leaves bound (go_on st m next)
unfolding Leaves
go_on-Leaves bound st (err code) next h k = tt
go_on-Leaves bound st (ok none) next h k = h
go_on-Leaves bound st (ok (some a)) next h k = k a

walk_on-Leaves :
    (bound : ℕ) (at_stop : Bool) (rest : LexState → Search) (o : Search)
    → Leaves bound o
    → ((st : LexState) → st.node_budget < bound → Leaves bound (rest st))
    → Leaves bound (walk_on at_stop rest o)
unfolding Leaves
walk_on-Leaves bound at_stop rest out_of_fuel h k = h
walk_on-Leaves bound at_stop rest (failed code) h k = tt
walk_on-Leaves bound at_stop rest (finished true st) h k = h
walk_on-Leaves bound at_stop rest (finished false st) h k =
    if_ind (Leaves bound) at_stop (λ _. h)
      (λ _. if_ind (Leaves bound) (st.node_budget == 0) (λ _. tt) (λ _. k st h))

module _ (search : LexState → Polyhedron → List ℤ → Search) (maximize : Bool) where
  -- The search below spends a node, or fails.
  abbrev Spends : Type 0
  Spends =
      (st : LexState) (p : Polyhedron) (prefix : List ℤ)
      → Leaves st.node_budget (search st p prefix)

  walk-Leaves :
      Spends
      → (fuel : ℕ) (residual : Polyhedron) (prefix : List ℤ) (stop cand : ℤ) (st : LexState)
      → st.node_budget < fuel
      → Leaves (suc st.node_budget) (walk search maximize fuel residual prefix stop cand st)
  unfolding walk
  walk-Leaves spends zero residual prefix stop cand st h = absurd (omega arith)
  walk-Leaves spends (suc fuel) residual prefix stop cand st h =
      let next = add64 cand (if maximize then negsuc 0 else pos 1) in
      let step = walk-Leaves spends fuel residual prefix stop next in
      go_on-Leaves (suc st.node_budget) st _ _ (omega arith) (λ rows.
        Leaves-mono st.node_budget (suc st.node_budget) _ (omega arith) (
          walk_on-Leaves st.node_budget (eqb_ℤ cand stop) _ _ (spends st _ _) (λ st' less.
            Leaves-mono (suc st'.node_budget) st.node_budget _ (omega arith)
              (step st' (omega arith)))))

  enter-Leaves :
      Spends
      → (st : LexState) (residual : Polyhedron) (prefix : List ℤ) (i : Interval)
      → Leaves (suc st.node_budget) (enter search maximize st residual prefix i)
  unfolding enter
  enter-Leaves spends st residual prefix i =
      let start = if maximize then i.ub else i.lb in
      let stop = if maximize then i.lb else i.ub in
      if_ind (Leaves (suc st.node_budget)) (ltb_ℤ i.ub i.lb)
        (λ _. finished-Leaves (suc st.node_budget) false st (omega arith))
        (λ _.
          if_ind (Leaves (suc st.node_budget))
            (if maximize then eqb_ℤ i.ub (pos int64_max) else eqb_ℤ i.lb int64_min)
            (λ _. failed-Leaves (suc st.node_budget) invalid_argument)
            (λ _.
              walk-Leaves spends (suc st.node_budget) residual prefix stop start st (omega arith)))

  branch-Leaves :
      Spends
      → (left : ℕ) (st : LexState) (residual : Polyhedron) (prefix : List ℤ)
      → Leaves (suc st.node_budget) (branch search maximize left st residual prefix)
  unfolding branch
  branch-Leaves spends left st residual prefix =
      go_on-Leaves (suc st.node_budget) st (project_deeper left (suc (length prefix)) residual) _
        (omega arith)
        (λ (projected : Polyhedron).
          go_on-Leaves (suc st.node_budget) st
            (ok (
              interval_of (length prefix) projected.rows
                (record { lb = int64_min; ub = pos int64_max })))
            _ (omega arith) (λ i. enter-Leaves spends st residual prefix i))

leaf-Leaves :
    (source : Polyhedron) (st : LexState) (prefix : List ℤ)
    → Leaves (suc st.node_budget) (leaf source st prefix)
unfolding leaf
leaf-Leaves source st prefix =
    if_ind (Leaves (suc st.node_budget)) (contains_point source prefix)
      (λ _.
        finished-Leaves (suc st.node_budget) true (record st { best = some prefix }) (omega arith))
      (λ _. finished-Leaves (suc st.node_budget) false st (omega arith))

-- A search answers, whatever its system, and spends a node where it does not fail.
lex_search-Leaves :
    (source : Polyhedron) (maximize : Bool) (left : ℕ) (st : LexState) (p : Polyhedron)
    (prefix : List ℤ)
    → Leaves st.node_budget (lex_search source maximize left st p prefix)
unfolding lex_search
lex_search-Leaves source maximize zero st p prefix =
    if_ind (Leaves st.node_budget) (st.node_budget == 0) (λ _. failed-Leaves _ _)
      (λ some_left.
        Leaves-mono (suc (take_node st).node_budget) st.node_budget _ (ground arith)
          (leaf-Leaves source (take_node st) prefix))
lex_search-Leaves source maximize (suc left) st p prefix =
    if_ind (Leaves st.node_budget) (st.node_budget == 0) (λ _. failed-Leaves _ _)
      (λ some_left. Leaves-mono (suc (take_node st).node_budget) st.node_budget _ (ground arith) (
        branch-Leaves (lex_search source maximize left) maximize
          (lex_search-Leaves source maximize left) left (take_node st) p prefix))

loop_on_ends :
    (maximize : Bool) (best : Option (List ℤ)) (rest : Option (List ℤ) → Optimum) (bound : ℕ)
    (o : Search)
    → Leaves bound o
    → ((b : Option (List ℤ)) → rest b ≢ cut_short)
    → loop_on maximize best rest o ≢ cut_short
unfolding Leaves
loop_on_ends maximize best rest bound out_of_fuel h k = absurd h
loop_on_ends maximize best rest bound (failed code) h k = λ e. cc
loop_on_ends maximize best rest bound (finished false st) h k = k best
loop_on_ends maximize best rest bound (finished true st) h k = k (keep_best maximize st.best best)

lex_loop_ends :
    (maximize : Bool) (ps : List Polyhedron) (best : Option (List ℤ))
    → lex_loop maximize ps best ≢ cut_short
unfolding lex_loop
lex_loop_ends maximize [] best = λ e. cc
lex_loop_ends maximize (p ∷ ps) best =
    let st : LexState = record { node_budget = lex_bb_node_budget; best = none } in
    let later = lex_loop_ends maximize ps in
    if_ind (λ o. o ≢ cut_short) (p.is_empty_flag || p.rows_overflow) (λ _. later best)
      (λ _.
        loop_on_ends maximize best (lex_loop maximize ps) lex_bb_node_budget _
          (lex_search-Leaves p maximize p.space.n_dims st p []) later)

-- `lexMin` and `lexMax` end on every set: the walks over the candidates of a dimension, also those
-- towards a missing bound, make no more rounds than the node budget allows.
pub lex_optima_end : (s : PresburgerSet) → (lex_min s ≢ cut_short) × (lex_max s ≢ cut_short)
unfolding lex_min lex_max
lex_optima_end s = (
  if_ind (λ o. o ≢ cut_short) (s.space.n_syms == 0) (λ _. lex_loop_ends false s.disjuncts none)
      (λ _ e. cc),
  if_ind (λ o. o ≢ cut_short) (s.space.n_syms == 0) (λ _. lex_loop_ends true s.disjuncts none)
      (λ _ e. cc),
)
