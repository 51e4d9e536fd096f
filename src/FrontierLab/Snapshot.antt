-- ===== src/FrontierLab/Snapshot.antt =====
-- labs/20260923.1.the-gang-builds-the-rust-frontier-engine/src/1_storage.rs: what the engine answers
-- about its state.
pub mod Rows
use Prim.Native.Nat.{Ordering}
use sqlite_ivm.Base.{
  ℕ, suc, ◌+◌, ℤ, pos, Bool, not, Option, none, some, List, [], ◌∷◌, length, map, get_elem?, ◌==◌,
  nat_eq, list_eq, cmp_ℤ, then_with, if◌then◌else◌, ◌>>=◌,
}
use sqlite_ivm.Ir.Syntax.{Row, Text}
use sqlite_ivm.FrontierLab.Types.{
  RelId, RowId, ProgramId, Stage, ErrorKind, Outcome, and_then, expect,
}
use sqlite_ivm.FrontierLab.Storage.{
  Counts, Relation, Node, OutputState, ProgramState, Engine, relation, program,
}
use sqlite_ivm.FrontierLab.Maps.{is_positive, cmp_row, sort}
use sqlite_ivm.FrontierLab.Propagate.{row_of}
use sqlite_ivm.FrontierLab.Install.{is_empty, is_some}

unfoldable pub outputs : ProgramId → Engine → Outcome (List Text)
outputs p e = and_then (program e p) (λ state. Outcome.ok (map (λ o. o.name) state.outputs))

-- `slot.and_then(Option::as_deref)`
abbrev pub row_at : Relation → RowId → Option Row
row_at r id = get_elem? r.rows id >>= λ slot. slot

unfoldable pub source_row : RelId → RowId → Engine → Outcome (Option Row)
source_row id row_id e = and_then (relation e id Stage.snapshot) (λ r. Outcome.ok (row_at r row_id))

abbrev pub live_ids : ℕ → List (Option Row) → List RowId
live_ids n [] = []
live_ids n (slot ∷ slots) =
    let rest = live_ids (suc n) slots in if is_some slot then n ∷ rest else rest

unfoldable pub source_row_ids : RelId → Engine → Outcome (List RowId)
source_row_ids id e = and_then (relation e id Stage.snapshot) (λ r. Outcome.ok (live_ids 0 r.rows))

abbrev pub or_unknown_output : Text → Option OutputState → Outcome OutputState
or_unknown_output name (some o) = Outcome.ok o
or_unknown_output name none = Outcome.err (record {
  stage = Stage.snapshot;
  kind = ErrorKind.unknown_output name;
  relation = none;
  output = some name;
})

abbrev pub find_output : Text → List OutputState → Option OutputState
find_output name [] = none
find_output name (o ∷ outputs) =
    let rest = find_output name outputs in if o.name == name then some o else rest

abbrev pub not_empty : {A : Type 0} → List A → Bool
not_empty rows = not (is_empty rows)

-- The rows of a map that pass a test, each made into something.
abbrev pub pick : {A B : Type 0} → (A → Bool) → (A → B) → List A → List B
pick test f [] = []
pick test f (x ∷ xs) = let rest = pick test f xs in if test x then f x ∷ rest else rest

unfoldable pub support_rows : Engine → Node → Outcome Counts
support_rows e (Node.aggregate _ _ count sum groups) =
    Outcome.ok (map (λ entry. (row_of entry.0 count sum entry.1, entry.1.count)) groups)
support_rows e (Node.scan id) = and_then (relation e id Stage.snapshot) (λ r.
    Outcome.ok
      (pick (λ entry. not_empty entry.1) (λ entry. (entry.0, pos (length entry.1))) r.by_value))
support_rows e (Node.union _ counts) = Outcome.ok (pick (λ c. is_positive c.1) (λ c. c) counts)
support_rows e (Node.join _ _ _ _ counts _ _) =
    Outcome.ok (pick (λ c. is_positive c.1) (λ c. c) counts)
support_rows e (Node.project _ _ counts) = Outcome.ok (pick (λ c. is_positive c.1) (λ c. c) counts)

-- The order of `(Row, i64)`.
abbrev pub cmp_support : Row × ℤ → Row × ℤ → Ordering
cmp_support a b = then_with (cmp_row a.0 b.0) (cmp_ℤ a.1 b.1)

-- The node an output is at.
abbrev pub output_node : ProgramId → Text → Engine → Outcome Node
output_node p output e = and_then (program e p) (λ state.
    and_then (or_unknown_output output (find_output output state.outputs))
      (λ o. expect (get_elem? state.nodes o.root)))

unfoldable pub snapshot_support : ProgramId → Text → Engine → Outcome Counts
snapshot_support p output e =
    and_then (output_node p output e)
      (λ node. and_then (support_rows e node) (λ rows. Outcome.ok (sort cmp_support rows)))

unfoldable pub visible_rows : Engine → Node → Outcome (List Row)
visible_rows e (Node.aggregate _ _ count sum groups) =
    Outcome.ok (map (λ entry. row_of entry.0 count sum entry.1) groups)
visible_rows e (Node.scan id) =
    and_then (relation e id Stage.snapshot)
      (λ r. Outcome.ok (pick (λ entry. not_empty entry.1) (λ entry. entry.0) r.by_value))
visible_rows e (Node.union _ counts) = Outcome.ok (pick (λ c. is_positive c.1) (λ c. c.0) counts)
visible_rows e (Node.join _ _ _ _ counts _ _) =
    Outcome.ok (pick (λ c. is_positive c.1) (λ c. c.0) counts)
visible_rows e (Node.project _ _ counts) =
    Outcome.ok (pick (λ c. is_positive c.1) (λ c. c.0) counts)

unfoldable pub snapshot : ProgramId → Text → Engine → Outcome (List Row)
snapshot p output e =
    and_then (output_node p output e)
      (λ node. and_then (visible_rows e node) (λ rows. Outcome.ok (sort cmp_row rows)))

pub record EngineStats : Type 0 where
  pub installed_programs : ℕ
  pub operators : ℕ
  pub arrangements : ℕ
  pub source_rows : ℕ

-- `Relation::live_rows`
abbrev pub live_rows : List (Option Row) → ℕ
live_rows [] = 0
live_rows (none ∷ rows) = live_rows rows
live_rows (some row ∷ rows) = suc (live_rows rows)

abbrev pub program_stats : List (Option ProgramState) → EngineStats → EngineStats
program_stats [] stats = stats
program_stats (none ∷ programs) stats = program_stats programs stats
program_stats (some state ∷ programs) stats = program_stats programs (record stats {
  installed_programs = suc stats.installed_programs;
  operators = stats.operators + state.operators;
  arrangements = stats.arrangements + state.arrangements;
})

abbrev pub all_rows : List Relation → ℕ
all_rows [] = 0
all_rows (r ∷ relations) = live_rows r.rows + all_rows relations

unfoldable pub stats : Engine → EngineStats
stats e = program_stats e.programs (record {
  installed_programs = 0;
  operators = 0;
  arrangements = 0;
  source_rows = all_rows e.relations;
})
