-- ===== src/FrontierLab/Storage.antt =====
-- labs/20260923.1.the-gang-builds-the-rust-frontier-engine/src/1_storage.rs and 3_tx.rs: the engine's
-- state and its undo journal. A `Vec` that is only pushed to and popped from has its top first.
use sqlite_ivm.Base.{
  ℕ, ℤ, Bool, Option, none, some, List, [], ◌∷◌, ◌++◌, length, get_elem?, nat_eq, int_eq, list_eq,
  ◌>>=◌,
}
use sqlite_ivm.Ir.Syntax.{Row, Text}
use sqlite_ivm.FrontierLab.Types.{RelId, ProgramId, Stage, ErrorKind, Outcome, fail}

abbrev pub NodeId : Type 0
NodeId = ℕ

-- Row multiplicities.
abbrev pub Counts : Type 0
Counts = List (Row × ℤ)

pub record Relation : Type 0 where
  pub name : Text
  pub arity : ℕ
  pub rows : List (Option Row)
  pub free : List ℕ
  pub by_value : List (Row × List ℕ)

pub record Group : Type 0 where
  pub count : ℤ
  pub sum : ℤ

-- `KeyIndex::rows`
abbrev pub KeyIndex : Type 0
KeyIndex = List (Row × Counts)

pub data Node : Type 0 where
  scan : (relation : RelId) → Node
  union : (inputs : List NodeId) (counts : Counts) → Node
  join :
      (left right : NodeId) (on_left on_right : ℕ) (counts : Counts)
      (left_index right_index : KeyIndex)
      → Node
  aggregate :
      (input : NodeId) (group_by : List ℕ) (count : Bool) (sum : Option ℕ)
      (groups : List (Row × Group))
      → Node
  project : (input : NodeId) (columns : List ℕ) (counts : Counts) → Node

-- `Node::counts`
abbrev pub counts_of : Node → Option Counts
counts_of (Node.scan _) = none
counts_of (Node.union _ counts) = some counts
counts_of (Node.join _ _ _ _ counts _ _) = some counts
counts_of (Node.aggregate _ _ _ _ _) = none
counts_of (Node.project _ _ counts) = some counts

-- `Node::counts_mut`: a node with another multiset.
abbrev pub with_counts : Counts → Node → Node
with_counts counts (Node.scan r) = Node.scan r
with_counts counts (Node.union inputs _) = Node.union inputs counts
with_counts counts (Node.join l r ol or _ li ri) = Node.join l r ol or counts li ri
with_counts counts (Node.aggregate i g c s groups) = Node.aggregate i g c s groups
with_counts counts (Node.project i columns _) = Node.project i columns counts

abbrev pub arrangement_count : Node → ℕ
arrangement_count (Node.scan _) = 0
arrangement_count (Node.union _ _) = 1
arrangement_count (Node.join _ _ _ _ _ _ _) = 3
arrangement_count (Node.aggregate _ _ _ _ _) = 1
arrangement_count (Node.project _ _ _) = 1

pub record OutputState : Type 0 where
  pub name : Text
  pub root : NodeId
  pub distinct : Bool

pub record ProgramState : Type 0 where
  pub nodes : List Node
  pub outputs : List OutputState
  pub dependencies : List RelId
  pub operators : ℕ
  pub arrangements : ℕ

-- One inverted state mutation.
pub data Undo : Type 0 where
  insert_ : (relation : RelId) (slot : ℕ) (recycled : Bool) → Undo
  remove_ : (relation : RelId) (slot : ℕ) (row : Row) → Undo
  counts : (program : ProgramId) (node : NodeId) (row : Row) (previous : Option ℤ) → Undo
  key_index :
      (program : ProgramId) (node : NodeId) (left : Bool) (key row : Row) (previous : Option ℤ)
      → Undo
  group : (program : ProgramId) (node : NodeId) (key : Row) (previous : Option Group) → Undo

pub record Engine : Type 0 where
  pub relations : List Relation
  pub programs : List (Option ProgramState)
  pub next_program : ℕ
  pub journal : List Undo
  pub marks : List ℕ
  pub frontiers_applied : ℕ

-- `Engine::new`
abbrev pub new : Engine
new = record {
  relations = [];
  programs = [];
  next_program = 0;
  journal = [];
  marks = [];
  frontiers_applied = 0;
}

-- `Relation::new`
abbrev pub new_relation : Text → ℕ → Relation
new_relation name arity = record { name = name; arity = arity; rows = []; free = []; by_value = [] }

unfoldable pub define_relation : Text → ℕ → Engine → Engine × RelId
define_relation name arity e =
    (record e { relations = e.relations ++ new_relation name arity ∷ [] }, length e.relations)

abbrev pub or_unknown : RelId → Stage → Option Relation → Outcome Relation
or_unknown id stage none = fail stage (ErrorKind.unknown_relation id)
or_unknown id stage (some r) = Outcome.ok r

unfoldable pub relation : Engine → RelId → Stage → Outcome Relation
relation e id stage = or_unknown id stage (get_elem? e.relations id)

abbrev pub installed : List (Option ProgramState) → ProgramId → Option ProgramState
installed programs id = get_elem? programs id >>= λ slot. slot

abbrev pub or_unknown_program : ProgramId → Option ProgramState → Outcome ProgramState
or_unknown_program id none = fail Stage.validate (ErrorKind.unknown_program id)
or_unknown_program id (some p) = Outcome.ok p

unfoldable pub program : Engine → ProgramId → Outcome ProgramState
program e id = or_unknown_program id (installed e.programs id)
