-- ===== src/Lib.antt =====
-- Verification of the exact integer engine and of the graph core of MLK+: the code under polyhedral/ and
-- compiler/.
--
-- MLK+ is a compiler for mathematical graphs. A program is a graph of values and nodes (compiler/), which
-- passes type, check and rewrite. Its loop transformations rest on mlk_poly, a library of exact
-- arithmetic, affine expressions and Presburger sets (polyhedral/): the passes ask it whether a dependence
-- is provably empty, and a wrong answer there is a miscompilation. Both stand on the containers and the
-- result type of compiler/include/mlk/core/.
--
--   compiler/include/mlk/core/result.h          Base/Res: ErrorCode, Result, MLK_TRY_VAR as a bind
--   compiler/include/mlk/core/symbol_table.h    Core/SymbolTable: intern, view
--   compiler/include/mlk/core/sparse_set.h      Core/SparseSet: reset, insert, remove, contains, clear
--
--   polyhedral/include/mlk/poly/checked.h       Poly/Checked: add, sub, mul, div and the Limited forms
--   polyhedral/src/rational.cpp                 Poly/Rational: Rational, ratGcd, normalizeLimited, ratAdd ...
--   polyhedral/src/affine_expr.cpp              Poly/Affine: AffineExpr, evalAt, exprAdd, gcdNormalize ...
--   polyhedral/src/affine_map.cpp               Poly/AffineMap: evalAt, mapCompose, mapImage, mapPreimage
--   polyhedral/include/mlk/poly/int_set.h       Poly/Row, Poly/System: VarSpace, ConstraintRow, Polyhedron
--   polyhedral/src/int_set.cpp                  Poly/Row (scaleRow, addRows, subRows), Poly/System (addRow,
--                                               containsPoint, simplifySystem), Poly/Fm (fmEliminate),
--                                               Poly/Feasibility (eliminateAll), Poly/IntSet (PresburgerSet),
--                                               Poly/AffineBox (affineBox), Poly/Lex (lexMin, lexMax)
--
--   compiler/src/ir/math_op.cpp                 Ir/Op: the table of operations, opByName, arityAccepts
--   compiler/include/mlk/type/                  Ir/Domain, Ir/MathType: domains, Shape, MathType
--   compiler/include/mlk/property/              Ir/Fact: TriState, Fact, FactSet
--   compiler/src/ir/math_graph.cpp              Ir/Graph: MathGraph, addNode, addConstant ...; Ir/Graph/Edit:
--                                               replaceOperandUses, killNode ...; Ir/Graph/Renumber:
--                                               renumberTopological
--   compiler/src/type/type_inference.cpp        Ir/Inference: inferResultType, inferTypes, inferShapes
--   compiler/src/verifier/graph_verifier.cpp    Ir/Verifier: verifyGraph
--
-- Each component is a module with the definitions, in the words of the source (camelCase names become
-- snake_case), and child modules named for what they prove. Base holds what all share: the integers
-- over the native numbers with the range and the wrap-around of int64_t (Base/Int), lists (Base/Lists),
-- Boolean tests (Base/Tests), divisors (Base/Gcd), results and undefined behaviour (Base/Res). The modules
-- called Examples run the code on concrete inputs.
--
-- How the model stands for the code:
--   * int64_t is the type ℤ with the operations of Base/Int. Where the source checks for overflow, so does
--     the model; where it does not (a negation, a product of a coefficient with a sign), the result is
--     wrapped by `wrap64`. A theorem that needs a number to be in range says so. Ids are natural numbers;
--     a double is its bits, which no code here computes with.
--   * A SmallVector is a list. An update in place, such as `addRow`, returns the new system. A loop with an
--     early return is a recursive function, with the return value in its result.
--   * A Result is `ok` or `err` with the code; the messages are left out, since no code branches on them.
--   * Undefined behaviour is a value: `Base.Res.Run` says `undefined` or what the code returns, and
--     `after` runs on from a value only. It stands for a new name past the reserve of the symbol table's
--     pool, whose views of short names then dangle; for a MatMul that reads a missing operand; and for a
--     Reshape that writes a shape through an empty optional. A theorem that the code returns shows that
--     none of it happens, under the conditions it states.
--   * A point is a list of integers. `Poly.System.Eval.Holds x p` says that it satisfies a system: the
--     system is not flagged as empty and every row has the right sign at the point. This is the
--     specification that the operations are proved against, by exact integers without a bound.
--     `Poly.IntSet.Meet.Contains x s` says that the point lies in a disjunct of a set.
--   * A graph is a record of lists, and an id is an index. An id out of range, which the source asserts
--     against, reads as a default and changes nothing. `Ir.Verifier.Built.Step` is a call of the
--     construction API, and `Built` says that such calls built the graph.
--
-- Fuel. Phase 1 of `fmEliminate` repeats until no equality mentions the variable. Each round uses up a row,
-- so the model runs as many rounds as the system has rows, and `Poly/Fm/Enough` shows that the loop is over
-- by then. The loop of `ratGcd` runs one round more than the absolute value of its second argument, which
-- falls in each round; `Poly/Rational/Gcd` shows that the result is then the divisor. A walk of `lexSearch`
-- over the candidates runs on the node budget, which each candidate uses up; `Poly/Lex/Ends` shows that it
-- is never cut short. The queue of `renumberTopological` runs one round more than there are nodes;
-- `Ir/Graph/Renumber/Ends` shows that it is empty by then. All other loops are recursion on the data.
--
-- Widths. `addRow` pads a row that is shorter than the space and keeps a longer one; the row operations stop
-- at the end of the shorter row. The theorems about elimination ask for rows exactly as wide as the space
-- (`IsWide`), which is how every caller builds them.
--
-- Not modelled: the printing of expressions; linear programs, dependences, schedules and code
-- generation; the structural hash of a graph and the cached hashes, text forms, the rewriting passes
-- and the e-graph; and the runtime, tuner, emitters and tools, which work with floating-point numbers,
-- text, files and the host compiler.
pub mod Base
pub mod Core
pub mod Ir
pub mod Poly
