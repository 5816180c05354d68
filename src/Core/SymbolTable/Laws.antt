-- ===== src/Core/SymbolTable/Laws.antt =====
-- Interning and viewing undo one another.
use Prim.Native.String.{String}
use text.Mathlib.Text.{◌==◌}
use text.Mathlib.TextEquality.{eq_iff}
use mlk.Base.{
  ℕ, ◌≤◌, ◌<◌, suc, lt→ltb, length-append, ◌≡◌, refl, sym, ap, ◌∙◌, inl, inr, none, some, some_inj,
  [], ◌∷◌, ◌++◌, if_ind, length, get_elem?, get_elem?-append_left, get_elem?-append_last,
  get_elem?-append-cases, arith, Option-cases,
}
use mlk.Core.SymbolTable.{SymbolTable, find_id, next_id, intern, view, symbol_initial_buckets}
use mlk.Base.Res.{returns}

-- The two fields say the same: a name maps to an id exactly where it stands in the pool.
pub record IsValid (t : SymbolTable) : Type 0 where
  pub found : (name : String) (id : ℕ) → find_id name t.lookup ≡ some id → view t id ≡ some name
  pub kept : (name : String) (id : ℕ) → view t id ≡ some name → find_id name t.lookup ≡ some id

module _ (t : SymbolTable) (name : String) (valid : IsValid t)
    (small : length t.pool < symbol_initial_buckets) where
  abbrev added : SymbolTable
  added = record { pool = t.pool ++ name ∷ []; lookup = (name, next_id t) ∷ t.lookup }

  next : next_id t ≡ length t.pool
  next = omega arith

  added-IsValid : find_id name t.lookup ≡ none → IsValid added
  added-IsValid absent = record { found = found; kept = kept }
    where
      found :
          (other : String) (id : ℕ)
          → find_id other added.lookup ≡ some id
          → view added id ≡ some other
      found other id =
          if_ind (λ o. o ≡ some id → view added id ≡ some other) (name == other)
            (λ same e.
              ap (get_elem? (t.pool ++ name ∷ [])) (sym (some_inj e) ∙ next)
              ∙ get_elem?-append_last t.pool name
              ∙ ap some ((eq_iff name other).0 same))
            (λ _ e. get_elem?-append_left t.pool (name ∷ []) id (valid.found other id e))

      kept :
          (other : String) (id : ℕ)
          → view added id ≡ some other
          → find_id other added.lookup ≡ some id
      kept other id h = elim (get_elem?-append-cases t.pool name id h) [
        | inl old ↦
            if_ind (λ o. o ≡ some id) (name == other)
              (λ same. cc (absent, valid.kept other id old, (eq_iff name other).0 same))
              (λ _. valid.kept other id old)
        | inr (e, same) ↦
            if_ind (λ o. o ≡ some id) (name == other) (λ _. ap some (next ∙ sym e))
              (λ differ. cc (differ, (eq_iff name other).1 same))
      ]

-- What `intern` promises, with the table after it.
pub record Interned (t : SymbolTable) (name : String) (out : ℕ × SymbolTable) : Type 0 where
  pub still_valid : IsValid out.1
  pub reads_back : view out.1 out.0 ≡ some name
  pub others_stay : (id : ℕ) (s : String) → view t id ≡ some s → view out.1 id ≡ some s
  pub again : intern out.1 name ≡ returns out
  pub one_more : length out.1.pool ≤ suc (length t.pool)

-- Interning is right while the pool has room: in a table that is valid and holds fewer names than its
-- constructor reserves room for, `intern` returns an id that views as the name, leaves all other ids
-- with their names and the table valid, so that different names have different ids, adds at most one
-- name, and interning the name again changes nothing and returns the same id.
pub intern_correct :
    (t : SymbolTable) (name : String)
    → IsValid t
    → length t.pool < symbol_initial_buckets
    → (out : ℕ × SymbolTable) × (intern t name ≡ returns out) × Interned t name out
unfolding intern
intern_correct t name valid small = elim (Option-cases (find_id name t.lookup)) [
  | inr (id, e) ↦ (
    (id, t),
    rw (e, intern) refl,
    record {
      still_valid = valid;
      reads_back = valid.found name id e;
      others_stay = λ _ _ h. h;
      again = rw (intern, e) refl;
      one_more = omega arith;
    },
  )
  | inl absent ↦
      let same : find_id name ((name, next_id t) ∷ t.lookup) ≡ some (next_id t) =
        rw ((eq_iff name name).1 refl) refl in
      (
        (next_id t, added t name valid small),
        rw (absent, intern, lt→ltb (length t.pool) symbol_initial_buckets small) refl,
        record {
          still_valid = added-IsValid t name valid small absent;
          reads_back =
              ap (get_elem? (t.pool ++ name ∷ [])) (next t name valid small)
              ∙ get_elem?-append_last t.pool name;
          others_stay = λ id s h. get_elem?-append_left t.pool (name ∷ []) id h;
          again = rw (intern, same) refl;
          one_more = omega (arith, length-append {0} t.pool (name ∷ []));
        },
      )
]
