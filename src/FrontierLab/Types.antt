-- ===== src/FrontierLab/Types.antt =====
-- labs/20260923.1.the-gang-builds-the-rust-frontier-engine/src/0_types.rs: the contract of the
-- frontier engine. An error's formatted detail is kept as the values it is formatted from.
use Prim.Native.String.{String}
use sqlite_ivm.Base.{ℕ, ℤ, pos, negsuc, Bool, Option, none, some, List}
use sqlite_ivm.Ir.Syntax.{Row, Text}

abbrev pub RelId : Type 0
RelId = ℕ

abbrev pub RowId : Type 0
RowId = ℕ

abbrev pub ProgramId : Type 0
ProgramId = ℕ

pub data Sign : Type 0 where
  plus minus : Sign

-- `Sign::weight`
abbrev pub weight : Sign → ℤ
weight Sign.plus = pos 1
weight Sign.minus = negsuc 0

pub record SourceChange : Type 0 where
  pub relation : RelId
  pub sign : Sign
  pub row : Row

pub record Frontier : Type 0 where
  pub id : Text
  pub changes : List SourceChange

pub record OutputChange : Type 0 where
  pub sign : Sign
  pub row : Row

pub record OutputDelta : Type 0 where
  pub output : Text
  pub changes : List OutputChange

mutual
  pub data PlanNode : Type 0 where
    scan : (relation : RelId) → PlanNode
    union : (inputs : PlanNodes) → PlanNode
    join : (left right : PlanNode) (on_left on_right : ℕ) → PlanNode
    aggregate : (input : PlanNode) (group_by : List ℕ) (count : Bool) (sum : Option ℕ) → PlanNode
    project : (input : PlanNode) (columns : List ℕ) → PlanNode
    difference : (minuend subtrahend : PlanNode) → PlanNode

  pub data PlanNodes : Type 0 where
    nil : PlanNodes
    cons : PlanNode → PlanNodes → PlanNodes

pub record OutputDecl : Type 0 where
  pub name : Text
  pub plan : PlanNode

pub record Program : Type 0 where
  pub outputs : List OutputDecl

pub data Stage : Type 0 where
  validate install source maintain snapshot transaction : Stage

pub data Detail : Type 0 where
  removal : (row : Row) (present : ℤ) → Detail
  negative_support : (row : Row) (next : ℤ) → Detail
  negative_index : (key : Row) (next : ℤ) → Detail
  negative_group : (key : Row) → Detail

pub data ErrorKind : Type 0 where
  unknown_relation : RelId → ErrorKind
  arity_mismatch : (expected actual : ℕ) → ErrorKind
  unknown_output : Text → ErrorKind
  unknown_program : ProgramId → ErrorKind
  unsupported : (shape : String) → ErrorKind
  internal : Detail → ErrorKind
  scope : Text → ErrorKind

pub record EngineError : Type 0 where
  pub stage : Stage
  pub kind : ErrorKind
  pub relation : Option Text
  pub output : Option Text

-- A `Result`, or a panic.
pub data Outcome (A : Type 0) : Type 0 where
  ok : A → Outcome A
  err : EngineError → Outcome A
  panic : Outcome A

abbrev pub fail : {A : Type 0} → Stage → ErrorKind → Outcome A
fail stage kind =
    Outcome.err (record { stage = stage; kind = kind; relation = none; output = none })

abbrev pub and_then : {A B : Type 0} → Outcome A → (A → Outcome B) → Outcome B
and_then (Outcome.ok a) f = f a
and_then (Outcome.err e) f = Outcome.err e
and_then Outcome.panic f = Outcome.panic

-- An index or an `expect` that panics.
abbrev pub expect : {A : Type 0} → Option A → Outcome A
expect none = Outcome.panic
expect (some a) = Outcome.ok a
