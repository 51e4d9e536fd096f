-- ===== src/FrontierLab/Tests.antt =====
-- The theorems on the frontier engine at concrete engines, and runs of the model.
use sqlite_ivm.Base.{
  map, All, negsuc, arith, ◌++◌, pos, ◌≡◌, refl, true, false, none, some, [], ◌∷◌, nat_eq, int_eq,
  list_eq, lookup, insert, wrapping_add, wrapping_sub, wrapping_mul,
}
use sqlite_ivm.Ir.Syntax.{Row}
use sqlite_ivm.FrontierLab.Types.{and_then, Program, PlanNode, PlanNodes, Outcome, Sign, Frontier}
use sqlite_ivm.FrontierLab.Storage.{
  Relation, Counts, new_relation, Engine, Undo, new, Node, ProgramState, relation, program,
}
use sqlite_ivm.FrontierLab.Journal.{put_counts, in_program, in_relation}
use sqlite_ivm.FrontierLab.Journal.View.{view}
use sqlite_ivm.FrontierLab.Journal.Edits.{Restored}
use sqlite_ivm.FrontierLab.Step.{pure, ask, ◌then◌, for_each, times}
use sqlite_ivm.FrontierLab.Step.Journaled.{AllValid, Leaves}
use sqlite_ivm.FrontierLab.Maps.{
  nonzero, accumulate, accumulate_btree, update_btree, consolidate_from, cmp_row, sort,
  sorted_insert,
}
use sqlite_ivm.FrontierLab.Source.{insert_slot, insert_row, write_source}
use sqlite_ivm.FrontierLab.Propagate.{apply_counts}
use sqlite_ivm.FrontierLab.Propagate.Nodes.{step, run}
use sqlite_ivm.FrontierLab.Apply.{
  validate, covered, covered_row, transitions, distinct_transitions, outputs_of, maintain,
  apply_frontier, open_scope, apply,
}
use sqlite_ivm.FrontierLab.Apply.Visible.{signs_of, flip_of, signs_of-distinct_transitions}
use sqlite_ivm.FrontierLab.Apply.Settled.{Settles, apply-Settles}
use sqlite_ivm.FrontierLab.Maps.Up.{IsUp}
use sqlite_ivm.FrontierLab.Maps.Consolidated.{entry_of, consolidate_from-sum_of_signs}
use sqlite_ivm.FrontierLab.Source.Multiset.{multiplicity}
use sqlite_ivm.FrontierLab.Source.Multiset.Turns.{Turns}
use sqlite_ivm.FrontierLab.Source.Multiset.Net.{
  IsMap, IsCovered, with_net, write_source-multiplicity,
}
use sqlite_ivm.FrontierLab.Install.{node_arity, build_node, build_outputs, install}
use sqlite_ivm.FrontierLab.Install.Installed.{HasArities, Installs, install-Installs}
use sqlite_ivm.FrontierLab.Snapshot.{support_rows, snapshot_support, snapshot}
use sqlite_ivm.FrontierLab.Snapshot.Rows.{rows_in, snapshot-snapshot_support}
use sqlite_ivm.FrontierLab.Scopes.{Settle, Work, perform, transact}
use sqlite_ivm.FrontierLab.Scopes.Rollback.{perform-Leaves, transact-Restored}

-- A relation of pairs and a program that unites it with itself.
abbrev united : ProgramState
united = record {
  nodes = Node.scan 0 ∷ Node.scan 0 ∷ Node.union (0 ∷ 1 ∷ []) [] ∷ [];
  outputs = record { name = 111 ∷ []; root = 2; distinct = true } ∷ [];
  dependencies = 0 ∷ [];
  operators = 3;
  arrangements = 1;
}

abbrev engine : Engine
engine = record new {
  relations = record { name = 114 ∷ []; arity = 1; rows = []; free = []; by_value = [] } ∷ [];
  programs = some united ∷ [];
  next_program = 1;
}

engine-AllValid : AllValid (view engine)
unfolding lookup
engine-AllValid = (record { free = tt; free_once = tt; ids = λ row. tt; ids_once = λ row. tt }, tt)

abbrev added : Frontier
added = record {
  id = [];
  changes = record { relation = 0; sign = Sign.plus; row = pos 7 ∷ [] } ∷ [];
}

apply-Settles_example :
    Settles engine (apply_frontier 0 added (open_scope engine)) (apply 0 added engine)
apply-Settles_example = apply-Settles 0 added engine engine-AllValid

-- The row under support 2, with the entries that take it back.
abbrev grown : Engine
grown = record {
  relations =
      record {
        name = 114 ∷ [];
        arity = 1;
        rows = some (pos 7 ∷ []) ∷ [];
        free = [];
        by_value = (pos 7 ∷ [], 0 ∷ []) ∷ [];
      }
      ∷ [];
  programs =
      some (record united {
        nodes = Node.scan 0 ∷ Node.scan 0 ∷ Node.union (0 ∷ 1 ∷ []) ((pos 7 ∷ [], pos 2) ∷ []) ∷ [];
      })
      ∷ [];
  next_program = 1;
  journal = Undo.counts 0 2 (pos 7 ∷ []) none ∷ Undo.insert_ 0 0 false ∷ [];
  marks = 0 ∷ [];
  frontiers_applied = 1;
}

perform-grown : perform (Work.frontier 0 added Work.done) (open_scope engine) ≡ some grown
unfolding perform apply apply_frontier validate covered covered_row relation program maintain
    outputs_of distinct_transitions transitions sort sorted_insert consolidate_from accumulate
    accumulate_btree update_btree cmp_row write_source insert_row insert_slot apply_counts
    put_counts in_program in_relation step run pure ask ◌then◌ for_each times lookup insert
    wrapping_add wrapping_sub wrapping_mul
perform-grown = refl

transact-Restored_example :
    (back : Engine) × (transact (Work.frontier 0 added Work.done) Settle.rolled_back engine
      ≡ some back)
    × Restored engine back
transact-Restored_example =
    transact-Restored (Work.frontier 0 added Work.done) Settle.rolled_back engine grown
      engine-AllValid tt perform-grown

-- The pairs of a relation joined with themselves, by their first column, and one column of them.
abbrev paired : Program
paired = record {
  outputs =
      record {
        name = 112 ∷ [];
        plan = PlanNode.project (PlanNode.join (PlanNode.scan 0) (PlanNode.scan 0) 0 0) (1 ∷ []);
      }
      ∷ [];
}

abbrev pairs_of : ProgramState
pairs_of = record {
  nodes = Node.scan 0 ∷ Node.scan 0 ∷ Node.join 0 1 0 0 [] [] [] ∷ Node.project 2 (1 ∷ []) [] ∷ [];
  outputs = record { name = 112 ∷ []; root = 3; distinct = true } ∷ [];
  dependencies = 0 ∷ [];
  operators = 4;
  arrangements = 4;
}

abbrev two_programs : Engine
two_programs = record engine { programs = some united ∷ some pairs_of ∷ []; next_program = 2 }

paired-HasArities : HasArities engine paired.outputs (1 ∷ [])
unfolding node_arity relation
paired-HasArities = (refl, tt)

install-two_programs : install paired engine ≡ (two_programs, Outcome.ok 1)
unfolding install build_outputs build_node node_arity relation
install-two_programs = refl

install-Installs_example : Installs paired engine two_programs 1 (1 ∷ [])
install-Installs_example =
    install-Installs paired engine two_programs 1 (1 ∷ []) refl paired-HasArities
      install-two_programs

-- A union of inputs of different arities is built.
uneven :
    build_node engine
      (PlanNode.union (
        PlanNodes.cons
          (PlanNode.scan 0)
          (PlanNodes.cons (PlanNode.project (PlanNode.scan 0) (0 ∷ 0 ∷ [])) PlanNodes.nil)))
      []
      []
    ≡ Outcome.ok (
      3,
      Node.scan 0 ∷ Node.scan 0 ∷ Node.project 1 (0 ∷ 0 ∷ []) [] ∷ Node.union (0 ∷ 2 ∷ []) [] ∷ [],
      0 ∷ [],
    )
unfolding build_node node_arity relation
uneven = refl

-- A frontier that changes nothing its program reads succeeds and writes no row.
abbrev elsewhere : Engine
elsewhere = record engine { relations = engine.relations ++ new_relation [] 1 ∷ [] }

abbrev unread : Frontier
unread = record {
  id = [];
  changes = record { relation = 1; sign = Sign.plus; row = pos 7 ∷ [] } ∷ [];
}

unread_dropped :
    apply 0 unread elsewhere
    ≡ some (
      record elsewhere { frontiers_applied = 1 },
      Outcome.ok (record { output = 111 ∷ []; changes = [] } ∷ []),
    )
unfolding apply apply_frontier validate covered covered_row relation program consolidate_from
    accumulate_btree update_btree cmp_row pure ask ◌then◌ lookup
unread_dropped = refl

consolidate_from-sum_of_signs_example :
    entry_of
      (consolidate_from [] (
        record { relation = 3; sign = Sign.plus; row = pos 7 ∷ [] }
        ∷ record { relation = 3; sign = Sign.minus; row = pos 8 ∷ [] }
        ∷ record { relation = 3; sign = Sign.plus; row = pos 7 ∷ [] }
        ∷ []))
      3
      (pos 7 ∷ [])
    ≡ nonzero (pos 2)
unfolding wrapping_add
consolidate_from-sum_of_signs_example =
    consolidate_from-sum_of_signs
      (record { relation = 3; sign = Sign.plus; row = pos 7 ∷ [] }
        ∷ record { relation = 3; sign = Sign.minus; row = pos 8 ∷ [] }
        ∷ record { relation = 3; sign = Sign.plus; row = pos 7 ∷ [] }
        ∷ [])
      3 (pos 7 ∷ [])

-- Two rows of one value and a row of another.
abbrev rows_of : Relation
rows_of = record {
  name = 114 ∷ [];
  arity = 1;
  rows = some (pos 8 ∷ []) ∷ some (pos 8 ∷ []) ∷ some (pos 9 ∷ []) ∷ [];
  free = [];
  by_value = (pos 8 ∷ [], 1 ∷ 0 ∷ []) ∷ (pos 9 ∷ [], 2 ∷ []) ∷ [];
}

abbrev net_of : Counts
net_of = (pos 7 ∷ [], pos 2) ∷ (pos 8 ∷ [], negsuc 0) ∷ []

net_of-IsCovered : All (IsCovered rows_of) net_of
unfolding lookup
net_of-IsCovered =
    ((omega arith, omega arith, omega arith), ((omega arith, omega arith, omega arith), tt))

net_of-IsMap : IsMap net_of
net_of-IsMap = (((λ e. cc), tt), (tt, tt))

write_source-multiplicity_example :
    Turns 0
      (write_source 0 net_of)
      (record new { relations = rows_of ∷ [] })
      (with_net net_of (multiplicity rows_of))
write_source-multiplicity_example =
    write_source-multiplicity 0 net_of (record new { relations = rows_of ∷ [] }) rows_of refl
      net_of-IsMap net_of-IsCovered

abbrev held : Counts
held = (pos 7 ∷ [], pos 2) ∷ []

signs_of-distinct_transitions_example :
    IsUp (map (λ change. change.row) (distinct_transitions held net_of))
    × ((row : Row)
        → signs_of row (distinct_transitions held net_of) ≡ flip_of held row (lookup row net_of))
signs_of-distinct_transitions_example = signs_of-distinct_transitions held net_of net_of-IsMap

-- The row 8 goes from support 1 to 0.
row_8 : signs_of (pos 8 ∷ []) (distinct_transitions held net_of) ≡ Sign.minus ∷ []
unfolding lookup wrapping_sub
row_8 = (signs_of-distinct_transitions held net_of net_of-IsMap).1 (pos 8 ∷ [])

snapshot-snapshot_support_example :
    snapshot 0 (111 ∷ []) grown
    ≡ and_then (snapshot_support 0 (111 ∷ []) grown) (λ supports. Outcome.ok (rows_in supports))
snapshot-snapshot_support_example = snapshot-snapshot_support 0 (111 ∷ []) grown

grown_support : snapshot_support 0 (111 ∷ []) grown ≡ Outcome.ok ((pos 7 ∷ [], pos 2) ∷ [])
unfolding snapshot_support support_rows program sort sorted_insert
grown_support = refl

perform-Leaves_example : Leaves (open_scope engine) grown
perform-Leaves_example =
    perform-Leaves (Work.frontier 0 added Work.done) (open_scope engine) engine-AllValid
      perform-grown
