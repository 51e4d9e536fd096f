-- ===== src/Ir/ExprType.antt =====
-- crates/ivm-ir/src/0_ir.rs: `expr_node_type`, `type_operands` and `expr_type`. The loops run on
-- fuel; `none` outside stands for a panic or for fuel that ran out, `none` inside is the code's.
pub mod Loop
use sqlite_ivm.Base.{
  ℕ, zero, suc, ◌+◌, ◌==◌, Bool, true, false, ◌||◌, Option, none, some, List, [], ◌∷◌, ◌++◌,
  reverse, length, take, get_elem?, split_top, ◌>>=◌, if◌then◌else◌,
}
use sqlite_ivm.Ir.Syntax.{Ty, ty_eq, Func, Expr, Exprs, slice}

unfoldable pub is_sum : Func → Bool
is_sum Func.add = true
is_sum Func.sub = true
is_sum _ = false

-- The type of `Add` and `Sub` from the types of their operands.
abbrev pub sum_type : List (Option Ty) → Option Ty
sum_type (some l ∷ some r ∷ []) =
    some (if (l == Ty.real) || (r == Ty.real) then Ty.real else Ty.int)
sum_type _ = none

abbrev pub call_type : Func → List (Option Ty) → Option Ty
call_type Func.str_nil operands = some Ty.text
call_type Func.add operands = sum_type operands
call_type Func.sub operands = sum_type operands
call_type _ operands = some Ty.int

unfoldable pub expr_node_type : Expr → List Ty → List (Option Ty) → Option Ty
expr_node_type (Expr.col c) cols operands = get_elem? cols c
expr_node_type (Expr.text _) cols operands = some Ty.text
expr_node_type (Expr.lit _) cols operands = some Ty.int
expr_node_type (Expr.term _) cols operands = some Ty.id
expr_node_type (Expr.call func _) cols operands = call_type func operands

unfoldable pub type_operands : Expr → List Expr
unfolding is_sum
type_operands (Expr.call func args) = if is_sum func then take 2 (slice args) else []
type_operands _ = []

abbrev pub all_leaves : List Expr → Bool
all_leaves [] = true
all_leaves (e ∷ es) = elim (type_operands e) [ [] ↦ all_leaves es | _ ∷ _ ↦ false ]

abbrev pub leaf_types : List Expr → List Ty → List (Option Ty)
leaf_types [] cols = []
leaf_types (e ∷ es) cols = expr_node_type e cols [] ∷ leaf_types es cols

-- `while let Some(next) = walk.pop()`: the stack's top comes first, and so does the last of `order`.
unfoldable pub collect : ℕ → List Expr → List Expr → Option (List Expr)
collect fuel [] order = some order
collect zero (next ∷ walk) order = none
collect (suc fuel) (next ∷ walk) order =
    collect fuel (reverse (type_operands next) ++ walk) (next ∷ order)

-- The loop over `order`, reversed; the last pushed type comes first in `done`.
unfoldable pub assign : List Expr → List Ty → List (Option Ty) → Option (List (Option Ty))
assign [] cols done = some done
assign (e ∷ order) cols done = split_top (length (type_operands e)) done >>= λ parts.
    assign order cols (expr_node_type e cols parts.0 ∷ parts.1)

abbrev pub pop_type : List (Option Ty) → Option Ty
pop_type [] = none
pop_type (ty ∷ _) = ty

-- `expr_type`, with its shortcut for operands that have no operands.
unfoldable pub expr_type_run : ℕ → Expr → List Ty → Option (Option Ty)
expr_type_run fuel e cols =
    if all_leaves (type_operands e)
    then some (expr_node_type e cols (leaf_types (type_operands e) cols))
    else (collect fuel (e ∷ []) [] >>= λ order.
        assign order cols [] >>= λ done. some (pop_type done))

-- How many expressions the loop visits.
unfoldable mutual
  pub visits : Expr → ℕ
  visits (Expr.col c) = 1
  visits (Expr.lit v) = 1
  visits (Expr.text i) = 1
  visits (Expr.term i) = 1
  visits (Expr.call func args) = suc (if is_sum func then visits_args args 2 else 0)

  pub visits_args : Exprs → ℕ → ℕ
  visits_args Exprs.nil k = 0
  visits_args (Exprs.cons e es) zero = 0
  visits_args (Exprs.cons e es) (suc k) = visits e + visits_args es k

-- `expr_type` with the fuel that its loop uses.
unfoldable pub expr_type : Expr → List Ty → Option Ty
expr_type e cols = expr_type_run (visits e) e cols >>= λ ty. ty
