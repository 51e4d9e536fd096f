-- ===== src/Lib.antt =====
-- sqlite_ivm: incremental view maintenance. A program is data (crates/ivm-ir): relations, a graph of
-- operator nodes and strata. An engine lowers it, lets signed changes of source rows in, and settles
-- them; terms and texts are interned in a dictionary, so that a cell is always an `i64`.
--
-- Parts:
-- - Ir (crates/ivm-ir/src/0_ir.rs, 2_strings.rs, 3_str_ops.rs). Syntax holds the program's data types
--   and `type_inputs`, `LetRec::binds` and `Program::rel`; ExprType is `expr_type`; NodeTypes is
--   `node_types` and `op_types`; StrOp is the table of string operations. ExprType calls nothing else,
--   NodeTypes calls both.
-- - Terms (crates/ivm-ir/src/1_terms.rs). Terms is the `Interner`, an operation taking the dictionary
--   and returning the next one, with `none` where an `expect` panics; Slots is `by_id`, Float what is
--   read of an `f64`'s bits, Valid, Mint, MintText, MintVec and MintAny the invariants and the
--   mints. Compare is `compare` over any `resolve`, Key is `key_number`, `atom_key` and `term_key`.
-- - Engine (crates/ivm-engine/src/1_rel.rs): the errors; Walk is `walk_expr` and `eval_with_text`,
--   Typed is `eval_typed_with_text`, Lowering is `decoded`, `projected_join` and `lowered_inputs`.
-- - Sources (crates/ivm-dbsp/src/1_cells.rs): `guard`, over the source sets and a frontier. Its panics
--   and errors are outcomes; the call returns the sets after it beside its result.
-- - FrontierLab (labs/20260923.1.the-gang-builds-the-rust-frontier-engine/src): an engine in memory.
--   Types is 0_types.rs. Storage holds the engine's state, Install builds and installs programs, Snapshot
--   reads (1_storage.rs). Maps and Source are the weighted maps and the source writes, Propagate carries
--   a frontier's net changes through the nodes, Apply is `apply_frontier` and `Engine::apply`
--   (2_apply.rs). Journal is `unwind`, Scopes the transactions and savepoints (3_tx.rs). An action of
--   Step takes the engine and returns the next one beside a `Result` or a panic; Journal.View is what an
--   engine holds, its hash maps as functions, Journal.Edits a run with every change in the journal.
-- - Base: lists, numbers, orders and equality tests that the parts share. Tests: runs of the model.
--
-- Numbers are unbounded natural numbers where the source has indices and lengths, integers for `i64`
-- cells; wrapping, casts and byte widths are written out. A hash map is an association list with one
-- entry for a key, a `Vec` used as a stack is a list with its top first, and a `str` is its bytes.
--
-- Fuel: a `while let` loop over a stack takes fuel, and `none` is fuel that ran out. `visits`, `cost`
-- and `steps_of` count the steps of `expr_type`, `node_types` and `walk_expr`; for `compare` the fuel
-- depends on the dictionary, which must be acyclic. `Propagation::run` has one more than the node's
-- number, enough where a node reads only nodes before it, as an installed program's do; without it the
-- result is a panic.
--
-- Parameters: the hash of a vec's items, the arithmetic of `f64`, `resolve` of a dictionary, and the leaves
-- and the functions of an expression's walk.
--
-- Words: `+`, `-` and `*` of the frontier engine's `i64` wrap, as in a release build. Its hash maps are
-- gone through in the order of their lists.
--
-- Not modelled: the tracing and the printed errors of the frontier engine, `sort_key`, snapshots of the
-- dictionary, `compose`, the lowering of nodes, the engines on DBSP, differential dataflow, SQLite,
-- DuckDB and RxJS, whose work is done by libraries or by SQL, and the SQLite extension in src.
-- `any_key` has a definition and no theorem yet.
pub mod Base
pub mod Ir
pub mod Terms
pub mod Engine
pub mod Sources
pub mod FrontierLab
mod Tests
