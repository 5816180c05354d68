-- ===== src/Core/SymbolTable.antt =====
-- compiler/include/mlk/core/symbol_table.h: interned names. The lock of `intern` makes it one step.
pub mod Laws
use Prim.Native.String.{String}
use text.Mathlib.Text.{◌==◌}
use mlk.Base.{
  ℕ, ◌%◌, ◌^◌, Option, none, some, List, [], ◌∷◌, ◌++◌, if◌then◌else◌, ltb, length, get_elem?,
}
use mlk.Base.Res.{Run, undefined, returns}

-- kSymbolInitialBuckets: the room that the constructor reserves in the pool.
abbrev pub symbol_initial_buckets : ℕ
symbol_initial_buckets = 1024

-- The map from names to ids is a `std::unordered_map`, here by its entries. Its keys are views of the
-- strings of the pool, and read as those strings while the pool stays within its reserve.
pub record SymbolTable : Type 0 where
  pub pool : List String
  pub lookup : List (String × ℕ)

abbrev pub empty_table : SymbolTable
empty_table = record { pool = []; lookup = [] }

abbrev pub find_id : String → List (String × ℕ) → Option ℕ
find_id name [] = none
find_id name ((s, id) ∷ rest) = if s == name then some id else find_id name rest

-- The id that the next new name gets, a uint32_t.
abbrev pub next_id : SymbolTable → ℕ
next_id t = length t.pool % 2 ^ 32

-- A pool that grows past its reserve moves its strings, and the keys that view short names dangle: what
-- the source does from there on is undefined.
unfoldable pub intern : SymbolTable → String → Run (ℕ × SymbolTable)
intern t name = elim (find_id name t.lookup) [
  | some id ↦ returns (id, t)
  | none ↦
      if ltb (length t.pool) symbol_initial_buckets
      then returns
          (next_id t, record { pool = t.pool ++ name ∷ []; lookup = (name, next_id t) ∷ t.lookup })
      else undefined
]

-- `none` is an index out of bounds.
abbrev pub view : SymbolTable → ℕ → Option String
view t id = get_elem? t.pool id
