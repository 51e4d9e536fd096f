-- ===== src/Engine.antt =====
-- crates/ivm-engine/src/1_rel.rs: the errors of an engine, and the outcome of an operation of it.
pub mod Walk
pub mod Typed
pub mod Lowering
use sqlite_ivm.Base.{ℕ, Option}
use sqlite_ivm.Ir.Syntax.{RelId, NodeId, Row, Text}

pub data Stage : Type 0 where
  check install settle snapshot : Stage

pub data ErrorKind : Type 0 where
  unsupported : Text → ErrorKind
  unknown_rel : RelId → ErrorKind
  unknown_node : NodeId → ErrorKind
  arity : (expected actual : ℕ) → ErrorKind
  present_insert : Row → ErrorKind
  worker : Text → ErrorKind
  let_rec_limit : ℕ → ErrorKind

pub record EngineError : Type 0 where
  pub stage : Stage
  pub rel : Option RelId
  pub kind : ErrorKind

-- `Result<A, EngineError>`, or the panic of an `unwrap`.
pub data Outcome {ℓ} (A : Type ℓ) : Type ℓ where
  ok : A → Outcome A
  err : EngineError → Outcome A
  panic : Outcome A

abbrev pub and_then {ℓ κ} : {A : Type ℓ} {B : Type κ} → Outcome A → (A → Outcome B) → Outcome B
and_then (Outcome.ok a) f = f a
and_then (Outcome.err e) f = Outcome.err e
and_then Outcome.panic f = Outcome.panic
