-- ===== src/Core/Examples.antt =====
-- Runs of the symbol table and the sparse set at concrete inputs.
use mlk.Base.Res.{returns, returns_inj}
use mlk.Base.{ℕ, ◌≡◌, refl, sym, subst, [], ◌∷◌, arith}
use mlk.Core.SymbolTable.{SymbolTable, empty_table, intern}
use mlk.Core.SymbolTable.Laws as Table
use mlk.Core.SparseSet
use mlk.Core.SparseSet.{SparseSet, reset, insert}
use mlk.Core.SparseSet.Laws as Sparse
use mlk.Core.SparseSet.Valid

empty-IsValid : Table.IsValid empty_table
empty-IsValid = record { found = λ name id h. cc; kept = λ name id h. cc }

abbrev one_name : SymbolTable
one_name = record { pool = "x" ∷ []; lookup = ("x", 0) ∷ [] }

one_name-IsValid : Table.IsValid one_name
unfolding intern
one_name-IsValid =
    let (out, made, laws) = Table.intern_correct empty_table "x" empty-IsValid (omega arith) in
    subst (λ o. Table.IsValid o.1) (sym (returns_inj made)) laws.still_valid

intern_correct_example :
    (out : ℕ × SymbolTable) × (intern one_name "y" ≡ returns out) × Table.Interned one_name "y" out
intern_correct_example = Table.intern_correct one_name "y" one_name-IsValid (omega arith)

intern-one_name :
    intern one_name "y"
    ≡ returns (1, record { pool = "x" ∷ "y" ∷ []; lookup = ("y", 1) ∷ ("x", 0) ∷ [] })
unfolding intern
intern-one_name = refl

abbrev one_inside : SparseSet
one_inside = record {
  universe = 4;
  dense = 3 ∷ [];
  sparse = SparseSet.not_found ∷ SparseSet.not_found ∷ SparseSet.not_found ∷ 0 ∷ [];
}

abbrev fresh : SparseSet
fresh = reset 4

one_inside-IsValid : Valid.IsValid one_inside
unfolding insert SparseSet.contains
one_inside-IsValid =
    (Sparse.insert_remove_correct fresh 3 (Valid.reset-IsValid 4) (omega arith)
      (omega arith)).insert_valid

insert_remove_correct_example : Sparse.Updates one_inside 1
insert_remove_correct_example =
    Sparse.insert_remove_correct one_inside 1 one_inside-IsValid (omega arith) (omega arith)
