-- ===== src/Poly/AffineMap/Image.antt =====
-- polyhedral/src/affine_map.cpp: the image and the preimage of a set under an affine map.
use mlk.Base.{
  ℕ, zero, suc, ◌+◌, Bool, true, false, not, ◌||◌, ◌&&◌, List, [], ◌∷◌, if◌then◌else◌, ◌==◌, ltb,
  leb, length, replicate, set, get_or,
}
use mlk.Base.Int.{ℤ, pos, neg64, sub64}
use mlk.Base.Res.{Result, ok, err, ◌>>=◌, invalid_argument, resource_exhausted}
use mlk.Poly.Row.{VarSpace, total_vars, same_as, ConstraintRow}
use mlk.Poly.System.{Polyhedron, universe, flagged, add_row}
use mlk.Poly.Affine.{AffineExpr}
use mlk.Poly.IntSet.{PresburgerSet, empty_set, exists_project}
use mlk.Poly.AffineMap.{AffineMap}

-- The dims of a row of a source system, `left` of them from `d` on, in the place `t` and after it.
unfoldable pub embed_dims : List ℤ → ℕ → ℕ → ℕ → List ℤ → Result (List ℤ)
embed_dims cs zero d t shifted = ok shifted
embed_dims cs (suc left) d t shifted =
    let rest = embed_dims cs left (suc d) (suc t) (set shifted t (get_or cs d (pos 0))) in
    if not (ltb d (length cs))
    then ok shifted
    else if leb (length shifted) t
    then err invalid_argument
    else rest

-- Its symbols.
unfoldable pub move_syms : List ℤ → ℕ → ℕ → ℕ → List ℤ → List ℤ
move_syms cs zero src_idx t shifted = shifted
move_syms cs (suc left) src_idx t shifted = move_syms cs left (suc src_idx) (suc t) (
    if ltb src_idx (length cs) && ltb t (length shifted)
    then set shifted t (get_or cs src_idx (pos 0))
    else shifted)

unfoldable pub embed_row : VarSpace → ℕ → ℕ → VarSpace → ConstraintRow → Result ConstraintRow
embed_row src dim_offset sym_base target r = do
  dims ← embed_dims r.coeffs src.n_dims 0 dim_offset (replicate (total_vars target) (pos 0))
  ok (record r { coeffs = move_syms r.coeffs src.n_syms src.n_dims sym_base dims })

unfoldable pub embed_rows : VarSpace → ℕ → ℕ → List ConstraintRow → Polyhedron → Result Polyhedron
embed_rows src dim_offset sym_base [] target = ok target
embed_rows src dim_offset sym_base (r ∷ rs) target = do
  shifted ← embed_row src dim_offset sym_base target.space r
  if (add_row target shifted).is_empty_flag
      then ok (add_row target shifted)
      else embed_rows src dim_offset sym_base rs (add_row target shifted)

-- `embedSystem`, with the system that it writes to.
unfoldable pub embed_system : Polyhedron → ℕ → ℕ → Polyhedron → Result Polyhedron
embed_system src dim_offset sym_base target =
    if src.is_empty_flag
    then ok (flagged target)
    else if src.rows_overflow
    then err resource_exhausted
    else embed_rows src.space dim_offset sym_base src.rows target

-- The loop over the dims to keep, and the rows of a projected system.
unfoldable pub kept_dims : List ℤ → List ℕ → ℕ → ℕ → List ℤ → List ℤ
kept_dims cs slots zero d out = out
kept_dims cs [] (suc left) d out = out
kept_dims cs (slot ∷ slots) (suc left) d out =
    kept_dims cs slots left (suc d)
      (if ltb slot (length cs) then set out d (get_or cs slot (pos 0)) else out)

unfoldable pub moved_syms : List ℤ → ℕ → ℕ → ℕ → List ℤ → List ℤ
moved_syms cs zero src_slot t out = out
moved_syms cs (suc left) src_slot t out =
    moved_syms cs left (suc src_slot) (suc t)
      (if ltb src_slot (length cs) then set out t (get_or cs src_slot (pos 0)) else out)

unfoldable pub remap_row : List ℕ → ℕ → VarSpace → ConstraintRow → ConstraintRow
remap_row slots sym_base space r = record r {
  coeffs =
      moved_syms r.coeffs space.n_syms sym_base space.n_dims
        (kept_dims r.coeffs slots space.n_dims 0 (replicate (total_vars space) (pos 0)));
}

unfoldable pub remap_rows : List ℕ → ℕ → VarSpace → List ConstraintRow → Polyhedron → Polyhedron
remap_rows slots sym_base space [] out = out
remap_rows slots sym_base space (r ∷ rs) out =
    remap_rows slots sym_base space rs (add_row out (remap_row slots sym_base space r))

-- `remapToDimFirst`
unfoldable pub remap_to_dim_first : Polyhedron → List ℕ → ℕ → VarSpace → Polyhedron
remap_to_dim_first sys slots sym_base space =
    remap_rows slots sym_base space sys.rows
      (record (universe space) { is_empty_flag = sys.is_empty_flag })

-- `tie.coeffs[t] -= f.coeffs[i]`, unchecked, `left` times. A write out of the row changes nothing.
unfoldable pub subtract_terms : List ℤ → ℕ → ℕ → ℕ → List ℤ → List ℤ
subtract_terms cs zero i t tie = tie
subtract_terms cs (suc left) i t tie =
    subtract_terms cs left (suc i) (suc t)
      (set tie t (sub64 (get_or tie t (pos 0)) (get_or cs i (pos 0))))

unfoldable pub tie_row : VarSpace → ℕ → ℕ → VarSpace → AffineExpr → ConstraintRow
tie_row in_space x sym_base target f = record {
  coeffs = subtract_terms f.coeffs in_space.n_syms in_space.n_dims sym_base (
      subtract_terms f.coeffs in_space.n_dims 0 0
        (set (replicate (total_vars target) (pos 0)) x (pos 1)));
  constant = neg64 f.constant;
  is_equality = true;
}

-- The loop over the outputs, `left` of them; a map has as many as it says.
unfoldable pub tie_rows : VarSpace → ℕ → ℕ → ℕ → List AffineExpr → Polyhedron → Result Polyhedron
tie_rows in_space x sym_base zero fs target = ok target
tie_rows in_space x sym_base (suc left) [] target = ok target
tie_rows in_space x sym_base (suc left) (f ∷ fs) target =
    let tied = add_row target (tie_row in_space x sym_base target.space f) in
    if not (same_as f.space in_space)
    then err invalid_argument
    else if tied.is_empty_flag
    then ok tied
    else tie_rows in_space (suc x) sym_base left fs tied

-- `addTieRows`
unfoldable pub add_tie_rows : AffineMap → ℕ → ℕ → Polyhedron → Result Polyhedron
add_tie_rows m x_base sym_base target = tie_rows m.in_space x_base sym_base m.n_out m.outputs target

-- dims in, dims out, symbols
abbrev pub product_space : AffineMap → VarSpace
product_space m = record { n_dims = m.in_space.n_dims + m.n_out; n_syms = m.in_space.n_syms }

-- The loop that embeds the live disjuncts of a set into one system, with the flag `anyLive`. It
-- stops where the system becomes empty.
unfoldable pub embed_set : List Polyhedron → ℕ → ℕ → Bool → Polyhedron → Result (Bool × Polyhedron)
embed_set [] dim_offset sym_base any_live p = ok (any_live, p)
embed_set (src ∷ srcs) dim_offset sym_base any_live p =
    let passed_over = embed_set srcs dim_offset sym_base any_live p in
    if src.is_empty_flag then passed_over else do
      p' ← embed_system src dim_offset sym_base p
      if p'.is_empty_flag then ok (true, p') else embed_set srcs dim_offset sym_base true p'

-- The slots from `base` on.
abbrev pub slots_from : ℕ → ℕ → List ℕ
slots_from base zero = []
slots_from base (suc n) = base ∷ slots_from (suc base) n

-- From the tied system on: project on the dims to keep, and compact.
unfoldable pub project_and_compact :
    AffineMap → List Bool → List ℕ → VarSpace → Polyhedron → Result PresburgerSet
project_and_compact m keep slots result p = do
  projected ← exists_project (record { space = product_space m; disjuncts = p ∷ [] }) keep
  ok (record {
    space = result;
    disjuncts = elim projected.disjuncts [
      | [] ↦ []
      | q ∷ _ ↦ remap_to_dim_first q slots (m.in_space.n_dims + m.n_out) result ∷ []
    ];
  })

-- `keep[d] = false`, `left` times.
abbrev pub cleared : ℕ → ℕ → List Bool → List Bool
cleared zero d keep = keep
cleared (suc left) d keep = cleared left (suc d) (set keep d false)

-- From the embedded set on.
unfoldable pub tie_and_project :
    AffineMap → List Bool → List ℕ → VarSpace → Bool × Polyhedron → Result PresburgerSet
tie_and_project m keep slots result (any_live, p) =
    if not any_live || p.is_empty_flag then ok (empty_set result) else do
      tied ← add_tie_rows m m.in_space.n_dims (m.in_space.n_dims + m.n_out) p
      if tied.is_empty_flag
          then ok (empty_set result)
          else project_and_compact m keep slots result tied

abbrev pub all_dims : AffineMap → List Bool
all_dims m = replicate (m.in_space.n_dims + m.n_out) true

abbrev pub image_space : AffineMap → VarSpace
image_space m = record { n_dims = m.n_out; n_syms = m.in_space.n_syms }

unfoldable pub map_image : PresburgerSet → AffineMap → Result PresburgerSet
map_image s m =
    if not (s.space.n_dims == m.in_space.n_dims) || not (s.space.n_syms == m.in_space.n_syms)
    then err invalid_argument
    else do
      embedded ←
          embed_set s.disjuncts 0 (m.in_space.n_dims + m.n_out) false (universe (product_space m))
      tie_and_project m (cleared m.in_space.n_dims 0 (all_dims m))
          (slots_from m.in_space.n_dims m.n_out) (image_space m) embedded

unfoldable pub map_preimage : PresburgerSet → AffineMap → Result PresburgerSet
map_preimage s m =
    if not (s.space.n_dims == m.n_out) || not (s.space.n_syms == m.in_space.n_syms)
    then err invalid_argument
    else do
      embedded ←
          embed_set s.disjuncts m.in_space.n_dims (m.in_space.n_dims + m.n_out) false
            (universe (product_space m))
      tie_and_project m (cleared m.n_out m.in_space.n_dims (all_dims m))
          (slots_from 0 m.in_space.n_dims) m.in_space embedded
