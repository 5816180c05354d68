-- ===== src/Poly/Lex/Sound.antt =====
-- A point that the search returns lies in the set.
use mlk.Base.{
  ℕ, zero, suc, ◌≡◌, subst, Bool, true, false, ◌||◌, Option, none, some, List, [], ◌∷◌,
  if◌then◌else◌, ◌==◌, length, arith, if_ind,
}
use mlk.Base.Int.{ℤ, pos, negsuc, eqb_ℤ, ltb_ℤ, add64, int64_max}
use mlk.Base.Res.{ErrorCode, Result, ok, err, budget_exceeded, invalid_argument}
use mlk.Poly.System.{Polyhedron, contains_point}
use mlk.Poly.IntSet.{PresburgerSet, any_contains, set_contains_point}
use mlk.Poly.Lex.{
  LexState, Search, out_of_fuel, failed, finished, Interval, go_on, walk_on, walk, leaf, enter,
  branch, take_node, int64_min, lex_search, project_deeper, interval_of, substitute_rows, Optimum,
  cut_short, refused, optimum, loop_on, lex_loop, lex_min, lex_max, keep_best, lex_less,
  lex_bb_node_budget,
}

-- A property of the best point so far.
abbrev Best : (List ℤ → Type 0) → Option (List ℤ) → Type 0
Best P none = ⊥
Best P (some b) = P b

-- Where a search finished with true, its best point has the property.
Finds : (List ℤ → Type 0) → Search → Type 0
Finds P out_of_fuel = Unit
Finds P (failed code) = Unit
Finds P (finished false st) = Unit
Finds P (finished true st) = Best P st.best

module _ (P : List ℤ → Type 0) where
  failed-Finds : (code : ErrorCode) → Finds P (failed code)
  unfolding Finds
  failed-Finds code = tt

  missed-Finds : (st : LexState) → Finds P (finished false st)
  unfolding Finds
  missed-Finds st = tt

  go_on-Finds :
      {A : Type 0} (st : LexState) (m : Result (Option A)) (next : A → Search)
      → ((a : A) → Finds P (next a))
      → Finds P (go_on st m next)
  unfolding Finds
  go_on-Finds st (err code) next k = tt
  go_on-Finds st (ok none) next k = tt
  go_on-Finds st (ok (some a)) next k = k a

  walk_on-Finds :
      (at_stop : Bool) (rest : LexState → Search) (o : Search)
      → Finds P o
      → ((st : LexState) → Finds P (rest st))
      → Finds P (walk_on at_stop rest o)
  unfolding Finds
  walk_on-Finds at_stop rest out_of_fuel h k = tt
  walk_on-Finds at_stop rest (failed code) h k = tt
  walk_on-Finds at_stop rest (finished true st) h k = h
  walk_on-Finds at_stop rest (finished false st) h k =
      if_ind (Finds P) at_stop (λ _. tt)
        (λ _. if_ind (Finds P) (st.node_budget == 0) (λ _. tt) (λ _. k st))

module _ (P : List ℤ → Type 0) (search : LexState → Polyhedron → List ℤ → Search) (maximize : Bool)
    (below : (st : LexState) (p : Polyhedron) (prefix : List ℤ)
      → Finds P (search st p prefix)) where
  walk-Finds :
      (fuel : ℕ) (residual : Polyhedron) (prefix : List ℤ) (stop cand : ℤ) (st : LexState)
      → Finds P (walk search maximize fuel residual prefix stop cand st)
  unfolding walk Finds
  walk-Finds zero residual prefix stop cand st = tt
  walk-Finds (suc fuel) residual prefix stop cand st =
      let later =
        walk-Finds fuel residual prefix stop (add64 cand (if maximize then negsuc 0 else pos 1)) in
      go_on-Finds P st (substitute_rows (length prefix) cand residual.rows) _
        (λ rows. walk_on-Finds P (eqb_ℤ cand stop) _ _ (below st _ _) later)

  enter-Finds :
      (st : LexState) (residual : Polyhedron) (prefix : List ℤ) (i : Interval)
      → Finds P (enter search maximize st residual prefix i)
  unfolding enter
  enter-Finds st residual prefix i =
      let start = if maximize then i.ub else i.lb in
      let stop = if maximize then i.lb else i.ub in
      if_ind (Finds P) (ltb_ℤ i.ub i.lb) (λ _. missed-Finds P st)
        (λ _.
          if_ind (Finds P) (if maximize then eqb_ℤ i.ub (pos int64_max) else eqb_ℤ i.lb int64_min)
            (λ _. failed-Finds P invalid_argument)
            (λ _. walk-Finds (suc st.node_budget) residual prefix stop start st))

  branch-Finds :
      (left : ℕ) (st : LexState) (residual : Polyhedron) (prefix : List ℤ)
      → Finds P (branch search maximize left st residual prefix)
  unfolding branch
  branch-Finds left st residual prefix =
      go_on-Finds P st (project_deeper left (suc (length prefix)) residual) _
        (λ (projected : Polyhedron).
          go_on-Finds P st
            (ok (
              interval_of (length prefix) projected.rows
                (record { lb = int64_min; ub = pos int64_max })))
            _ (enter-Finds st residual prefix))

-- The property of a leaf: the system accepts the point.
abbrev Accepted : Polyhedron → List ℤ → Type 0
Accepted p x = contains_point p x ≡ true

leaf-Finds :
    (source : Polyhedron) (st : LexState) (prefix : List ℤ)
    → Finds (Accepted source) (leaf source st prefix)
unfolding leaf Finds
leaf-Finds source st prefix =
    if_ind (Finds (Accepted source)) (contains_point source prefix) (λ e. e) (λ _. tt)

lex_search-Finds :
    (source : Polyhedron) (maximize : Bool) (left : ℕ) (st : LexState) (p : Polyhedron)
    (prefix : List ℤ)
    → Finds (Accepted source) (lex_search source maximize left st p prefix)
unfolding lex_search
lex_search-Finds source maximize zero st p prefix =
    if_ind (Finds (Accepted source)) (st.node_budget == 0)
      (λ _. failed-Finds (Accepted source) budget_exceeded)
      (λ _. leaf-Finds source (take_node st) prefix)
lex_search-Finds source maximize (suc left) st p prefix =
    if_ind (Finds (Accepted source)) (st.node_budget == 0)
      (λ _. failed-Finds (Accepted source) budget_exceeded)
      (λ _.
        branch-Finds (Accepted source) (lex_search source maximize left) maximize
          (lex_search-Finds source maximize left) left (take_node st) p prefix)

-- The best point so far, if there is one, has the property, as has the one that is returned.
abbrev Keeps : (List ℤ → Type 0) → Option (List ℤ) → Type 0
Keeps P none = Unit
Keeps P (some b) = P b

Yields : (List ℤ → Type 0) → Optimum → Type 0
Yields P cut_short = Unit
Yields P (refused code) = Unit
Yields P (optimum best) = Keeps P best

module _ (P : List ℤ → Type 0) (maximize : Bool) where
  keep_best-Keeps :
      (found best : Option (List ℤ))
      → Keeps P found
      → Keeps P best
      → Keeps P (keep_best maximize found best)
  unfolding keep_best
  keep_best-Keeps none best hf hb = hb
  keep_best-Keeps (some x) none hf hb = hf
  keep_best-Keeps (some x) (some b) hf hb =
      if_ind (Keeps P) (if maximize then lex_less b x else lex_less x b) (λ _. hf) (λ _. hb)

  loop_on-Yields :
      (best : Option (List ℤ)) (rest : Option (List ℤ) → Optimum) (o : Search)
      → Keeps P best
      → Finds P o
      → ((b : Option (List ℤ)) → Keeps P b → Yields P (rest b))
      → Yields P (loop_on maximize best rest o)
  unfolding Yields Finds
  loop_on-Yields best rest out_of_fuel hb hf k = tt
  loop_on-Yields best rest (failed code) hb hf k = tt
  loop_on-Yields best rest (finished false st) hb hf k = k best hb
  loop_on-Yields best rest (finished true st) hb hf k =
      k (keep_best maximize st.best best) (keep_best-Keeps st.best best (kept st.best hf) hb)
    where
      kept : (o : Option (List ℤ)) → Best P o → Keeps P o
      kept none h = tt
      kept (some b) h = h

Finds-mono :
    (P Q : List ℤ → Type 0) → ((x : List ℤ) → P x → Q x) → (o : Search) → Finds P o → Finds Q o
unfolding Finds
Finds-mono P Q f out_of_fuel h = tt
Finds-mono P Q f (failed code) h = tt
Finds-mono P Q f (finished false st) h = tt
Finds-mono P Q f (finished true st) h = best st.best h
  where
    best : (o : Option (List ℤ)) → Best P o → Best Q o
    best none z = z
    best (some b) z = f b z

lex_loop-Yields :
    (P : List ℤ → Type 0) (maximize : Bool) (ps : List Polyhedron) (best : Option (List ℤ))
    → ((x : List ℤ) → any_contains ps x ≡ true → P x)
    → Keeps P best
    → Yields P (lex_loop maximize ps best)
unfolding lex_loop
lex_loop-Yields P maximize [] best f hb = unfold Yields in hb
lex_loop-Yields P maximize (p ∷ ps) best f hb =
    let st : LexState = record { node_budget = lex_bb_node_budget; best = none } in
    let tail : (x : List ℤ) → any_contains ps x ≡ true → P x = λ x e. f x (ground (arith, e)) in
    let later : (b : Option (List ℤ)) → Keeps P b → Yields P (lex_loop maximize ps b) =
      λ b h. lex_loop-Yields P maximize ps b tail h in
    if_ind (Yields P) (p.is_empty_flag || p.rows_overflow) (λ _. later best hb)
      (λ _.
        loop_on-Yields P maximize best (lex_loop maximize ps) _ hb
          (Finds-mono (Accepted p) P (λ x e. f x (ground (arith, e))) _
            (lex_search-Finds p maximize p.space.n_dims st p []))
          later)

found_point :
    (maximize : Bool) (s : PresburgerSet) (x : List ℤ)
    → (if s.space.n_syms == 0 then lex_loop maximize s.disjuncts none else refused invalid_argument)
      ≡ optimum (some x)
    → any_contains s.disjuncts x ≡ true
unfolding Yields
found_point maximize s x e =
    let P : List ℤ → Type 0 = λ y. any_contains s.disjuncts y ≡ true in
    subst (Yields P) e (
      if_ind (Yields P) (s.space.n_syms == 0)
        (λ _. lex_loop-Yields P maximize s.disjuncts none (λ y h. h) tt) (λ _. tt))

-- A point that `lexMin` or `lexMax` returns is one that `containsPoint` of the set accepts.
pub lex_optima_sound :
    (maximize : Bool) (s : PresburgerSet) (x : List ℤ)
    → (if maximize then lex_max s else lex_min s) ≡ optimum (some x)
    → set_contains_point s x ≡ true
unfolding lex_min lex_max set_contains_point
lex_optima_sound true s x e = found_point true s x e
lex_optima_sound false s x e = found_point false s x e
