-- ===== src/FrontierLab/Apply.antt =====
-- labs/20260923.1.the-gang-builds-the-rust-frontier-engine/src/2_apply.rs: `apply_frontier`, and the
-- autocommit `apply` of 1_storage.rs. The `tracing` spans are left out.
pub mod Journaled
pub mod Settled
pub mod Visible
use sqlite_ivm.Base.{
  ℕ, suc, ◌+◌, ℤ, pos, pos_part, neg_part, Bool, true, false, ◌&&◌, Option, none, some, List, [],
  ◌∷◌, length, map, ◌==◌, nat_eq, int_eq, list_eq, lookup, contains, wrapping_add, wrapping_sub,
  if◌then◌else◌, ◌||◌, get_elem?, ◌>>=◌,
}
use sqlite_ivm.Ir.Syntax.{Row}
use sqlite_ivm.FrontierLab.Types.{
  RelId, ProgramId, Sign, SourceChange, Frontier, OutputChange, OutputDelta, Stage, ErrorKind,
  Detail, EngineError, Outcome, expect, and_then,
}
use sqlite_ivm.FrontierLab.Storage.{
  NodeId, Counts, Relation, Node, counts_of, OutputState, ProgramState, Engine, relation, program,
  installed,
}
use sqlite_ivm.FrontierLab.Journal.{or_empty, unwind}
use sqlite_ivm.FrontierLab.Step.{Action, pure, ask, ◌then◌, for_each, fold_outcome}
use sqlite_ivm.FrontierLab.Maps.{
  or_zero, is_negative, is_positive, Net, cmp_row, consolidate_from, sort,
}
use sqlite_ivm.FrontierLab.Source.{write_source}
use sqlite_ivm.FrontierLab.Propagate.{read_node, node_at}
use sqlite_ivm.FrontierLab.Propagate.Nodes.{Memo, run}

abbrev pub fail_in : {A : Type 0} → Relation → ErrorKind → Outcome A
fail_in r kind =
    Outcome.err
      (record { stage = Stage.validate; kind = kind; relation = some r.name; output = none })

-- Step 1: the references and arities of the changes.
unfoldable pub validate : List SourceChange → Engine → Outcome Unit
validate [] e = Outcome.ok tt
validate (change ∷ changes) e =
    let rest = validate changes e in
    and_then (relation e change.relation Stage.validate) (λ r.
      if r.arity == length change.row
      then rest
      else fail_in r (ErrorKind.arity_mismatch r.arity (length change.row)))

-- Step 3, for one row: a removal needs as many rows.
unfoldable pub covered_row : Relation → Row × ℤ → Outcome Unit
covered_row r change =
    let present = pos (length (or_empty (lookup change.0 r.by_value))) in
    if is_negative change.1 && is_negative (wrapping_add present change.1)
    then fail_in r (ErrorKind.internal (Detail.removal change.0 present))
    else Outcome.ok tt

unfoldable pub covered : Net → Engine → Outcome Unit
covered net e =
    fold_outcome
      (λ _ entry.
        and_then (relation e entry.0 Stage.validate)
          (λ r. fold_outcome (λ _ change. covered_row r change) tt entry.1))
      tt net

-- Whether the program reads a relation that changed.
abbrev pub reads_any : List RelId → List RelId → Bool
reads_any [] changed = false
reads_any (r ∷ dependencies) changed = contains changed r || reads_any dependencies changed

abbrev pub counted : Engine → Engine
counted e = record e { frontiers_applied = suc e.frontiers_applied }

-- `engine.frontiers_applied += 1`
abbrev pub count_frontier : Action Unit
count_frontier e = (counted e, Outcome.ok tt)

abbrev pub no_changes : OutputState → OutputDelta
no_changes o = record { output = o.name; changes = [] }

-- The change of a row that is visible after a frontier and not before, or before and not after.
abbrev pub transition : Row → (pre post : Bool) → List OutputChange → List OutputChange
transition row false true rest = record { sign = Sign.plus; row = row } ∷ rest
transition row true false rest = record { sign = Sign.minus; row = row } ∷ rest
transition row true true rest = rest
transition row false false rest = rest

unfoldable pub transitions : Counts → Counts → List OutputChange
transitions counts [] = []
transitions counts ((row, w) ∷ delta) =
    let post = or_zero (lookup row counts) in
    transition row (is_positive (wrapping_sub post w)) (is_positive post) (transitions counts delta)

abbrev pub by_row : List OutputChange → List OutputChange
by_row changes = sort (λ a b. cmp_row a.row b.row) changes

-- `distinct_transitions` of 1_storage.rs
unfoldable pub distinct_transitions : Counts → Counts → List OutputChange
distinct_transitions counts delta = by_row (transitions counts delta)

abbrev pub row_support : Relation → Counts
row_support r = map (λ entry. (entry.0, pos (length entry.1))) r.by_value

-- The support of an output's rows.
abbrev pub support_of : Engine → Node → Option Counts
support_of e (Node.scan id) = get_elem? e.relations id >>= λ r. some (row_support r)
support_of e (Node.union _ counts) = some counts
support_of e (Node.join _ _ _ _ counts _ _) = some counts
support_of e (Node.aggregate _ _ _ _ _) = none
support_of e (Node.project _ _ counts) = some counts

abbrev pub group_changes : Counts → List OutputChange
group_changes delta = by_row (
    map
      (λ change. record {
        sign = if is_positive change.1 then Sign.plus else Sign.minus;
        row = change.0;
      })
      delta)

module _ (p : ProgramId) where
  abbrev pub output_changes : OutputState → Counts → Action (List OutputChange)
  output_changes o delta =
      if o.distinct
      then (ask (λ e. expect (node_at p o.root e >>= support_of e)) then λ counts.
          pure (by_row (distinct_transitions counts delta)))
      else pure (group_changes delta)

  -- Step 6: the transitions of every output, in the order of declaration.
  unfoldable pub outputs_of : Memo → List OutputState → Action (List OutputDelta)
  outputs_of memo [] = pure []
  outputs_of memo (o ∷ outputs) = ask (λ e. expect (lookup o.root memo)) then λ delta.
      output_changes o delta then λ changes. outputs_of memo outputs then λ deltas.
      pure (record { output = o.name; changes = changes } ∷ deltas)

  -- Steps 4 to 6, where the frontier changes what the program reads.
  unfoldable pub maintain : Net → ProgramState → Action (List OutputDelta)
  maintain net state = for_each (λ _ entry. write_source entry.0 entry.1) tt net then λ _.
      for_each (λ memo o. run p net (suc o.root) o.root memo then λ r. pure r.0) [] state.outputs
      then λ memo. outputs_of memo state.outputs then λ deltas. count_frontier then λ _. pure deltas

unfoldable pub apply_frontier : ProgramId → Frontier → Action (List OutputDelta)
apply_frontier p frontier = ask (validate frontier.changes) then λ _.
    let net = consolidate_from [] frontier.changes in
    ask (covered net) then λ _. ask (λ e. program e p) then λ state.
    if reads_any state.dependencies (map (λ entry. entry.0) net)
    then maintain p net state
    else (count_frontier then λ _. pure (map no_changes state.outputs))

-- `engine.marks.push(engine.journal.len())`
abbrev pub open_scope : Engine → Engine
open_scope e = record e { marks = length e.journal ∷ e.marks }

abbrev pub without_mark : List ℕ → Engine → Engine
without_mark marks e = record e { marks = marks }

abbrev pub settle_with : {A : Type 0} → Outcome A → List ℕ → Engine → Option (Engine × Outcome A)
settle_with result [] e = none
settle_with (Outcome.ok a) (mark ∷ marks) e = some (without_mark marks e, Outcome.ok a)
settle_with (Outcome.err x) (mark ∷ marks) e =
    unwind mark (without_mark marks e) >>= λ back. some (back, Outcome.err x)
settle_with Outcome.panic (mark ∷ marks) e = none

-- `Engine::apply`, and `apply_scoped` of 3_tx.rs; `none` is a panic.
unfoldable pub apply : ProgramId → Frontier → Engine → Option (Engine × Outcome (List OutputDelta))
apply p frontier e =
    let r = apply_frontier p frontier (open_scope e) in settle_with r.1 r.0.marks r.0
