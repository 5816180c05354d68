-- ===== src/Ir/Inference/Shapes.antt =====
-- Type inference over a graph keeps the shape of each type and that of its tensor the same.
use mlk.Base.{
  ℕ, zero, suc, ◌+◌, ◌≡◌, refl, sym, ap, ◌∙◌, subst, false, ◌||◌, inl, inr, Option, none, some,
  some_inj, List, [], ◌∷◌, map, if_ind, length, get_elem?, All, All-get_elem?, arith, Option-cases,
}
use mlk.Base.Res.{Run, returns, returns_inj, after, after-eq-returns, Result, ok, err, ok_inj}
use mlk.Ir.MathType.{MathType, default_type, type_equal}
use mlk.Ir.Graph.{Node, Value, MathGraph, find_attr}
use mlk.Ir.Graph.Edit.{is_dead, topo_order, change_value}
use mlk.Ir.Inference.{
  type_at, first_or, tail_of, infer_result_type, null, set_type, retype, on_step, infer_step,
  infer_nodes, infer_types, rank_mismatch, check_shapes, infer_shapes,
}
use mlk.Ir.Inference.Shaped.{IsShaped, ShapedResult, ShapedRun, infer_type-Shaped}

abbrev pub AllShaped : List Value → Type 0
AllShaped vs = All (λ v. IsShaped v.type) vs

type_at-IsShaped : (g : MathGraph) (v : ℕ) → AllShaped g.values → IsShaped (type_at g v)
type_at-IsShaped g v h = elim (Option-cases (get_elem? g.values v)) [
  | inl e ↦
      let same : type_at g v ≡ default_type = rw (type_at, e) refl in
      subst IsShaped (sym same) (λ td f. cc f)
  | inr (val, e) ↦
      let same : type_at g v ≡ val.type = rw (type_at, e) refl in
      subst IsShaped (sym same) (All-get_elem? (λ w. IsShaped w.type) g.values v val h e)
]

change_value-AllShaped :
    (t : MathType) (i : ℕ) (vs : List Value)
    → IsShaped t
    → AllShaped vs
    → AllShaped (change_value (set_type t) i vs)
change_value-AllShaped t i [] h hs = tt
change_value-AllShaped t zero (v ∷ vs) h hs = (h, hs.1)
change_value-AllShaped t (suc i) (v ∷ vs) h hs = (hs.0, change_value-AllShaped t i vs h hs.1)

length-change_value :
    (t : MathType) (i : ℕ) (vs : List Value) → length (change_value (set_type t) i vs) ≡ length vs
length-change_value t i [] = refl
length-change_value t zero (v ∷ vs) = refl
length-change_value t (suc i) (v ∷ vs) = ap suc (length-change_value t i vs)

-- What a step, and so the loop, keeps: the types are shaped, and the values are as many.
Kept : MathGraph → ℕ × MathGraph → Type 0
Kept g out = AllShaped out.1.values × (length out.1.values ≡ length g.values)

retype_keeps :
    (g : MathGraph) (result : ℕ) (o : Option MathType) {out : ℕ × MathGraph}
    → ShapedResult o
    → AllShaped g.values
    → retype g result o ≡ ok out
    → Kept g out
unfolding ShapedResult Kept
retype_keeps g result none shape h = λ e. cc
retype_keeps g result (some t) {out} shape h =
    if_ind (λ m. m ≡ ok out → Kept g out) (type_equal (type_at g result) t)
      (λ _ f. subst (Kept g) (ok_inj f) (h, refl))
      (λ _ f. subst (Kept g) (ok_inj f) (
        change_value-AllShaped t result g.values (shape t refl) h,
        length-change_value t result g.values,
      ))

infer_result_type-Shaped :
    (shape_dims : ℕ) (g : MathGraph) (n : Node) {o : Option MathType}
    → AllShaped g.values
    → infer_result_type shape_dims g n ≡ returns o
    → ShapedResult o
unfolding infer_result_type ShapedRun
infer_result_type-Shaped shape_dims g n h e = subst ShapedRun e (
    infer_type-Shaped n.op (type_at g (first_or n.inputs)) (map (type_at g) (tail_of n.inputs))
      (find_attr n.attrs shape_dims) (type_at g (first_or n.results))
      (type_at-IsShaped g (first_or n.inputs) h) (type_at-IsShaped g (first_or n.results) h))

infer_step_keeps :
    (shape_dims : ℕ) (g : MathGraph) (n : Node) {out : ℕ × MathGraph}
    → infer_step shape_dims g n ≡ returns (ok out)
    → AllShaped g.values
    → Kept g out
unfolding infer_step Kept
infer_step_keeps shape_dims g n {out} e h =
    if_ind (λ m. m ≡ returns (ok out) → Kept g out) (is_dead n || null n.inputs)
      (λ _ e'. subst (Kept g) (ok_inj (returns_inj e')) (h, refl))
      (λ _ e'.
        let (o, there, made) = after-eq-returns (infer_result_type shape_dims g n) _ e' in
        retype_keeps g (first_or n.results) o (infer_result_type-Shaped shape_dims g n h there) h
          (returns_inj made))
      e

-- Inversion of a loop that goes on.
on_step-eq :
    (done : Result (ℕ × MathGraph)) (later : ℕ → MathGraph → Run (Result (ℕ × MathGraph)))
    {out : ℕ × MathGraph}
    → on_step done later ≡ returns (ok out)
    → (step : ℕ × MathGraph) × (done ≡ ok step) × (later step.0 step.1 ≡ returns (ok out))
on_step-eq (err code) later e = cc
on_step-eq (ok step) later e = (step, refl, e)

infer_nodes_keeps :
    (shape_dims : ℕ) (nids : List ℕ) (g : MathGraph) (changed : ℕ) {out : ℕ × MathGraph}
    → infer_nodes shape_dims nids g changed ≡ returns (ok out)
    → AllShaped g.values
    → Kept g out
unfolding infer_nodes Kept
infer_nodes_keeps shape_dims [] g changed {out} e h =
    subst (Kept g) (ok_inj (returns_inj e)) (h, refl)
infer_nodes_keeps shape_dims (nid ∷ nids) g changed {out} e h =
    go (λ g' c e' h'. infer_nodes_keeps shape_dims nids g' c e' h') (get_elem? g.nodes nid) e
  where
    go :
        ((g' : MathGraph) (c : ℕ)
          → infer_nodes shape_dims nids g' c ≡ returns (ok out)
          → AllShaped g'.values
          → Kept g' out)
        → (o : Option Node)
        → elim o [
          | none ↦ infer_nodes shape_dims nids g changed
          | some n ↦
              after
                (infer_step shape_dims g n)
                (λ done. on_step done (λ more g'. infer_nodes shape_dims nids g' (changed + more)))
        ]
          ≡ returns (ok out)
        → Kept g out
    go later none e' = later g changed e' h
    go later (some n) e' =
        let (done, ed, e1) = after-eq-returns (infer_step shape_dims g n) _ e' in
        let ((more, g'), es, rest) = on_step-eq done _ e1 in
        let (shaped', same) = infer_step_keeps shape_dims g n (ed ∙ ap returns es) h in
        let (kept, length') = later g' (changed + more) rest shaped' in (kept, length' ∙ same)

shaped_ranks : (t : MathType) → IsShaped t → rank_mismatch t ≡ false
shaped_ranks t h = elim (Option-cases t.shape) [
  | inl e ↦ rw (rank_mismatch, e) refl
  | inr (s, e) ↦ elim (Option-cases t.tensor) [
    | inl f ↦ rw (rank_mismatch, e, f) refl
    | inr (td, f) ↦
        let same : s ≡ td.shape = some_inj (sym e ∙ h td f) in
        rw (rank_mismatch, e, f, same) (ground arith)
  ]
]

check_shapes_ok :
    (vs : List Value) (validated : ℕ)
    → AllShaped vs
    → check_shapes vs validated ≡ ok (validated + length vs)
unfolding check_shapes
check_shapes_ok [] validated h = ap ok (omega arith)
check_shapes_ok (v ∷ vs) validated h =
    rw (shaped_ranks v.type h.0, check_shapes_ok vs (suc validated) h.1) (ap ok (omega arith))

-- Inference keeps shapes: where every value whose type has a tensor has the tensor's shape, a run of
-- `inferTypes` that is defined and succeeds leaves as many values, all with that property, and the check
-- of `inferShapes` then passes and counts all of them. A run is undefined where it infers a Reshape with
-- the attribute `shape_dims` of a value with no tensor, or a MatMul of one operand.
pub infer_types_keeps_shapes :
    (shape_dims : ℕ) (g : MathGraph) {out : ℕ × MathGraph}
    → AllShaped g.values
    → infer_types shape_dims g ≡ returns (ok out)
    → AllShaped out.1.values
      × (length out.1.values ≡ length g.values)
      × (infer_shapes out.1 ≡ ok (length g.values))
unfolding infer_types infer_shapes Kept
infer_types_keeps_shapes shape_dims g {out} h e =
    let (done, ed, e1) = after-eq-returns (infer_nodes shape_dims (topo_order g.nodes) g 0) _ e in
    let ((changed, g'), es, rest) = on_step-eq done _ e1 in
    let (kept, same) =
      infer_nodes_keeps shape_dims (topo_order g.nodes) g 0 (ed ∙ ap returns es) h in
    let goal : (r : ℕ × MathGraph) → Type 0 = λ r.
      AllShaped r.1.values
      × (length r.1.values ≡ length g.values)
      × (check_shapes r.1.values 0 ≡ ok (length g.values)) in
    subst goal (ok_inj (returns_inj rest))
      (kept, same, check_shapes_ok g'.values 0 kept ∙ ap ok (omega arith))
