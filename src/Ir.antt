-- ===== src/Ir.antt =====
-- crates/ivm-ir/src: programs as data, their column types, and the string operations' signatures.
pub mod StrOp
pub mod Syntax
pub mod ExprType
pub mod NodeTypes
