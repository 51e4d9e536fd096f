-- ===== src/Engine/Typed.antt =====
-- crates/ivm-engine/src/1_rel.rs: `eval_typed_with_text`, which carries each value's type along. The
-- arithmetic of `f64` is a parameter.
pub mod Agrees
use sqlite_ivm.Base.{
  ℕ, ◌+◌, ℤ, pos, to_bits, of_bits, wrapping_add, wrapping_sub, Ordering, Bool, true, false, ◌||◌,
  not, Option, none, some, List, [], ◌∷◌, get_elem?, map, ◌>>=◌, ◌==◌, int_eq, if◌then◌else◌,
}
use sqlite_ivm.Ir.Syntax.{Cell, Row, Ty, ty_eq, Func, Expr}
use sqlite_ivm.Engine.Walk.{
  walk_expr, as_cell, is_true, is_lt, is_eq, is_gt, arithmetic, both, either, negated,
}

abbrev pub Typed : Type 0
Typed = Cell × Option Ty

abbrev pub cells : List Typed → Row
cells a = map (λ v. v.0) a

-- `(Func::Add | Func::Sub, [(_, Some(left)), (_, Some(right)), ..])`
abbrev pub sum_ty : List Typed → Option Ty
sum_ty ((_, some left) ∷ (_, some right) ∷ _) =
    some (if (left == Ty.real) || (right == Ty.real) then Ty.real else Ty.int)
sum_ty _ = none

abbrev pub apply_ty : Func → List Typed → Option Ty
apply_ty Func.add a = sum_ty a
apply_ty Func.sub a = sum_ty a
apply_ty _ a = some Ty.int

abbrev pub is_real : Option Ty → Bool
is_real (some ty) = ty == Ty.real
is_real none = false

-- What the walk takes from outside: the dictionary's cells and orders, and the arithmetic of `f64`
-- over bits.
pub record Host : Type 0 where
  pub term_lt : Cell → Cell → Bool
  pub text : ℕ → Cell
  pub term : ℕ → Cell
  pub nil : Cell
  pub compare : Ty → Cell → Ty → Cell → Ordering
  pub add_real : ℕ → ℕ → ℕ
  pub sub_real : ℕ → ℕ → ℕ
  pub real_of : Cell → ℕ

module _ (host : Host) where
  unfoldable pub typed_leaf : Row → List Ty → Expr → Option Typed
  typed_leaf row types (Expr.col c) = get_elem? row c >>= λ v. some (v, get_elem? types c)
  typed_leaf row types (Expr.lit v) = some (v, some Ty.int)
  typed_leaf row types (Expr.text index) = some (host.text index, some Ty.text)
  typed_leaf row types (Expr.term index) = some (host.term index, some Ty.id)
  typed_leaf row types (Expr.call _ _) = some (host.nil, some Ty.text)

  -- `cmp()`, and the test of its result.
  abbrev pub typed_order : (Ordering → Bool) → List Typed → Option Cell
  typed_order test ((a, some left) ∷ (b, some right) ∷ _) =
      some (as_cell (test (host.compare left a right b)))
  typed_order test _ = none

  abbrev pub number : Typed → ℕ
  number (a, ty) = if is_real ty then to_bits a else host.real_of a

  abbrev pub real_arithmetic : (ℕ → ℕ → ℕ) → List Typed → Option Cell
  real_arithmetic op (a ∷ b ∷ _) = some (of_bits (op (number a) (number b)))
  real_arithmetic op _ = none

  unfoldable pub typed_value : Func → List Typed → Option Cell
  typed_value Func.eq a = typed_order is_eq a
  typed_value Func.ne a = typed_order (λ o. not (is_eq o)) a
  typed_value Func.lt a = typed_order is_lt a
  typed_value Func.le a = typed_order (λ o. not (is_gt o)) a
  typed_value Func.gt a = typed_order is_gt a
  typed_value Func.ge a = typed_order (λ o. not (is_lt o)) a
  typed_value Func.add a =
      if is_real (sum_ty a)
      then real_arithmetic host.add_real a
      else arithmetic wrapping_add (cells a)
  typed_value Func.sub a =
      if is_real (sum_ty a)
      then real_arithmetic host.sub_real a
      else arithmetic wrapping_sub (cells a)
  typed_value Func.and a = both (cells a)
  typed_value Func.or a = either (cells a)
  typed_value Func.not a = negated (cells a)
  typed_value Func.term_lt a = arithmetic (λ x y. as_cell (host.term_lt x y)) (cells a)
  typed_value Func.str_nil a = none

  unfoldable pub typed_apply : Func → List Typed → Option Typed
  typed_apply func a = typed_value func a >>= λ v. some (v, apply_ty func a)

  unfoldable pub eval_typed_with_text : ℕ → Expr → Row → List Ty → Option (Option Typed)
  eval_typed_with_text fuel e row types = walk_expr (typed_leaf row types) typed_apply fuel e
