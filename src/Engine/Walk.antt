-- ===== src/Engine/Walk.antt =====
-- crates/ivm-engine/src/1_rel.rs: `walk_expr`, the post-order walk that evaluates an expression, and
-- `eval_with_text`, the cells it computes.
pub mod Correct
pub mod Shortcut
use sqlite_ivm.Base.{
  ℕ, zero, suc, ◌+◌, ℤ, pos, compare, Ordering, cmp_ℤ, wrapping_add, wrapping_sub, Bool, true,
  false, ◌&&◌, not, Option, none, some, List, [], ◌∷◌, ◌++◌, length, leb, get_elem?, traverse,
  split_top, ◌>>=◌, ◌==◌, int_eq, if◌then◌else◌,
}
use sqlite_ivm.Ir.Syntax.{Cell, Row, Func, Expr, Exprs, slice}

pub data ExprStep : Type 0 where
  enter : (e : Expr) → ExprStep
  apply : (func : Func) (arity : ℕ) → ExprStep

-- `Expr::Call(func, args) if *func != Func::StrNil`
abbrev pub call_of : Func → Exprs → Option (Func × Exprs)
call_of Func.str_nil args = none
call_of func args = some (func, args)

abbrev pub branch : Expr → Option (Func × Exprs)
branch (Expr.call func args) = call_of func args
branch _ = none

abbrev pub is_leaf : Expr → Bool
is_leaf e = elim (branch e) [ none ↦ true | some parts ↦ false ]

abbrev pub all_of : (Expr → Bool) → Exprs → Bool
all_of test Exprs.nil = true
all_of test (Exprs.cons e es) = test e && all_of test es

abbrev pub small : (Expr → Bool) → Exprs → Bool
small test args = leb (length (slice args)) 2 && all_of test args

unfoldable pub is_flat : Expr → Bool
is_flat e = elim (branch e) [ none ↦ true | some parts ↦ small is_leaf parts.1 ]

abbrev pub enters : Exprs → List ExprStep
enters Exprs.nil = []
enters (Exprs.cons e es) = ExprStep.enter e ∷ enters es

abbrev pub bottom {ℓ} : {V : Type ℓ} → List V → Option V
bottom [] = none
bottom (v ∷ []) = some v
bottom (v ∷ w ∷ vs) = bottom (w ∷ vs)

abbrev pub resume {ℓ κ} :
    {A : Type ℓ} {V : Type κ} → (A → Option (Option V)) → Option A → Option (Option V)
resume next none = some none
resume next (some a) = next a

-- A value is `none` where the source panics; the walk is `none` where the fuel runs out.
module _ {ℓ} {V : Type ℓ} (leaf : Expr → Option V) (apply : Func → List V → Option V) where
  abbrev pub flat_call : Expr → Option (Func × Exprs) → Option V
  flat_call e none = leaf e
  flat_call e (some (func, args)) = traverse leaf (slice args) >>= apply func

  unfoldable pub flat : Expr → Option V
  flat e = flat_call e (branch e)

  abbrev pub apply_top :
      (List V → Option (Option V)) → Func → Option (List V × List V) → Option (Option V)
  apply_top next func none = some none
  apply_top next func (some (args, rest)) = resume (λ v. next (v ∷ rest)) (apply func args)

  -- The tops of both stacks come first.
  unfoldable pub walk_loop : ℕ → List ExprStep → List V → Option (Option V)
  walk_loop fuel [] values = some (bottom values)
  walk_loop zero (step ∷ steps) values = none
  walk_loop (suc fuel) (ExprStep.enter e ∷ steps) values = elim (branch e) [
    | none ↦ resume (λ v. walk_loop fuel steps (v ∷ values)) (leaf e)
    | some parts ↦
        walk_loop fuel (enters parts.1 ++ (ExprStep.apply parts.0 (length (slice parts.1)) ∷ steps))
          values
  ]
  walk_loop (suc fuel) (ExprStep.apply func arity ∷ steps) values =
      apply_top (walk_loop fuel steps) func (split_top arity values)

  abbrev pub two_deep : Option (Func × Exprs) → Option (Option V) → Option (Option V)
  two_deep none long = long
  two_deep (some (func, args)) long =
      if small is_flat args then some (traverse flat (slice args) >>= apply func) else long

  unfoldable pub walk_expr : ℕ → Expr → Option (Option V)
  walk_expr fuel e =
      if is_flat e
      then some (flat e)
      else two_deep (branch e) (walk_loop fuel (ExprStep.enter e ∷ []) [])

abbrev pub call_steps : ℕ → Option (Func × Exprs) → ℕ
call_steps args none = 1
call_steps args (some parts) = suc (args + 1)

-- How many steps the walk takes.
unfoldable mutual
  pub steps_of : Expr → ℕ
  steps_of (Expr.call func args) = call_steps (steps_of_args args) (call_of func args)
  steps_of _ = 1

  pub steps_of_args : Exprs → ℕ
  steps_of_args Exprs.nil = 0
  steps_of_args (Exprs.cons e es) = steps_of e + steps_of_args es

abbrev pub as_cell : Bool → Cell
as_cell true = pos 1
as_cell false = pos 0

abbrev pub is_true : Cell → Bool
is_true a = not (a == pos 0)

abbrev pub ordered : (Ordering → Bool) → Row → Option Cell
ordered test (a ∷ b ∷ _) = some (as_cell (test (cmp_ℤ a b)))
ordered test _ = none

abbrev pub is_lt : Ordering → Bool
is_lt Ordering.lt = true
is_lt _ = false

abbrev pub is_eq : Ordering → Bool
is_eq Ordering.eq = true
is_eq _ = false

abbrev pub is_gt : Ordering → Bool
is_gt Ordering.gt = true
is_gt _ = false

abbrev pub arithmetic : (Cell → Cell → Cell) → Row → Option Cell
arithmetic op (a ∷ b ∷ _) = some (op a b)
arithmetic op _ = none

-- `a[0] != 0 && a[1] != 0`: the second operand is read when the first does not decide.
abbrev pub both : Row → Option Cell
both [] = none
both (a ∷ bs) =
    if is_true a then (get_elem? bs 0 >>= λ b. some (as_cell (is_true b))) else some (pos 0)

abbrev pub either : Row → Option Cell
either [] = none
either (a ∷ bs) =
    if is_true a then some (pos 1) else (get_elem? bs 0 >>= λ b. some (as_cell (is_true b)))

abbrev pub negated : Row → Option Cell
negated [] = none
negated (a ∷ _) = some (as_cell (not (is_true a)))

module _ (term_lt : Cell → Cell → Bool) (text term : ℕ → Cell) (nil : Cell) where
  unfoldable pub eval_leaf : Row → Expr → Option Cell
  eval_leaf row (Expr.col c) = get_elem? row c
  eval_leaf row (Expr.lit v) = some v
  eval_leaf row (Expr.text index) = some (text index)
  eval_leaf row (Expr.term index) = some (term index)
  eval_leaf row (Expr.call _ _) = some nil

  unfoldable pub eval_apply : Func → Row → Option Cell
  eval_apply Func.eq a = ordered is_eq a
  eval_apply Func.ne a = ordered (λ o. not (is_eq o)) a
  eval_apply Func.lt a = ordered is_lt a
  eval_apply Func.le a = ordered (λ o. not (is_gt o)) a
  eval_apply Func.gt a = ordered is_gt a
  eval_apply Func.ge a = ordered (λ o. not (is_lt o)) a
  eval_apply Func.add a = arithmetic wrapping_add a
  eval_apply Func.sub a = arithmetic wrapping_sub a
  eval_apply Func.and a = both a
  eval_apply Func.or a = either a
  eval_apply Func.not a = negated a
  eval_apply Func.term_lt a = arithmetic (λ x y. as_cell (term_lt x y)) a
  eval_apply Func.str_nil a = none

  unfoldable pub eval_with_text : ℕ → Expr → Row → Option (Option Cell)
  eval_with_text fuel e row = walk_expr (eval_leaf row) eval_apply fuel e
