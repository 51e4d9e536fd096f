-- ===== src/Engine/Walk/Correct.antt =====
-- The loop of the walk against recursion on the expression.
use Prim.Native.Nat.add
use sqlite_ivm.Base.{
  ℕ, suc, ◌+◌, ◌≡◌, refl, ap, ◌∙◌, ◌⊎◌, inl, inr, Bool, true, Option, none, some, List, [], ◌∷◌,
  ◌++◌, reverse, length, split_top-reverse, reverse-cons-append, ◌>>=◌, >>=-eq-some, some_injective,
  arith,
}
use sqlite_ivm.Ir.Syntax.{Func, Expr, Exprs, slice}
use sqlite_ivm.Engine.Walk.{
  ExprStep, call_of, branch, all_of, small, enters, resume, walk_loop, steps_of, steps_of_args,
}

abbrev pub call_value {ℓ} : {V : Type ℓ} → V → V → Option (Func × Exprs) → V
call_value alone applied none = alone
call_value alone applied (some parts) = applied

module _ {ℓ} {V : Type ℓ} (leaf : Expr → Option V) (apply : Func → List V → Option V) where
  -- The value by recursion: a call's function of its arguments' values.
  unfoldable mutual
    pub value_of : Expr → Option V
    value_of (Expr.call func args) =
        call_value (leaf (Expr.call func args)) (values_of args >>= apply func) (call_of func args)
    value_of e = leaf e

    pub values_of : Exprs → Option (List V)
    values_of Exprs.nil = some []
    values_of (Exprs.cons e es) = value_of e >>= λ v. values_of es >>= λ vs. some (v ∷ vs)

pub call_of-cases :
    (func : Func) (args : Exprs)
    → (call_of func args ≡ none) ⊎ (call_of func args ≡ some (func, args))
call_of-cases func args = ground arith

one_add : (n : ℕ) → 1 + n ≡ suc n
one_add n = omega arith

zero_add : (n : ℕ) → 0 + n ≡ n
zero_add n = omega arith

add_swap : (a b c : ℕ) → a + b + c ≡ a + (b + c)
add_swap a b c = omega arith

pub small-all :
    (test : Expr → Bool) (args : Exprs) → small test args ≡ true → all_of test args ≡ true
small-all test args h = ground arith

steps-none :
    (func : Func) (args : Exprs) → call_of func args ≡ none → steps_of (Expr.call func args) ≡ 1
unfolding steps_of
steps-none func args h = rw (h, steps_of) refl

steps-some :
    (func : Func) (args : Exprs)
    → call_of func args ≡ some (func, args)
    → steps_of (Expr.call func args) ≡ suc (steps_of_args args + 1)
unfolding steps_of
steps-some func args h = rw (h, steps_of) refl

module _ {ℓ} {V : Type ℓ} (leaf : Expr → Option V) (apply : Func → List V → Option V) where
  pub value-none :
      (func : Func) (args : Exprs)
      → call_of func args ≡ none
      → value_of leaf apply (Expr.call func args) ≡ leaf (Expr.call func args)
  unfolding value_of
  value-none func args h = rw (h, value_of) refl

  pub value-some :
      (func : Func) (args : Exprs)
      → call_of func args ≡ some (func, args)
      → value_of leaf apply (Expr.call func args) ≡ (values_of leaf apply args >>= apply func)
  unfolding value_of
  value-some func args h = rw (h, value_of) refl

module _ {ℓ} {V : Type ℓ} (leaf : Expr → Option V) (apply : Func → List V → Option V) where
  loop-leaf :
      (e : Expr) (n : ℕ) (steps : List ExprStep) (values : List V)
      → branch e ≡ none
      → walk_loop leaf apply (1 + n) (ExprStep.enter e ∷ steps) values
        ≡ resume (λ v. walk_loop leaf apply n steps (v ∷ values)) (leaf e)
  unfolding walk_loop
  loop-leaf e n steps values h = rw (one_add, h, walk_loop) refl

  loop-call :
      (e : Expr) (func : Func) (args : Exprs) (m n : ℕ) (steps : List ExprStep) (values : List V)
      → branch e ≡ some (func, args)
      → walk_loop leaf apply (suc m + n) (ExprStep.enter e ∷ steps) values
        ≡ walk_loop leaf apply
            (m + n)
            (enters args ++ (ExprStep.apply func (length (slice args)) ∷ steps))
            values
  unfolding walk_loop
  loop-call e func args m n steps values h = rw (add.suc, h, walk_loop) refl

  length-values_of :
      (es : Exprs) {vs : List V} → values_of leaf apply es ≡ some vs → length (slice es) ≡ length vs
  unfolding values_of
  length-values_of Exprs.nil h = ground arith
  length-values_of (Exprs.cons e es) h =
      let (v, _, rest) = >>=-eq-some (value_of leaf apply e) _ h in
      let (ws, more, whole) = >>=-eq-some (values_of leaf apply es) _ rest in
      ap suc (length-values_of es more) ∙ ap length (some_injective whole)

  loop-apply :
      (func : Func) (es : Exprs) (n : ℕ) (steps : List ExprStep) (values : List V)
      → resume
          (λ vs.
            walk_loop leaf apply
              (1 + n)
              (ExprStep.apply func (length (slice es)) ∷ steps)
              (reverse vs ++ values))
          (values_of leaf apply es)
        ≡ resume
            (λ v. walk_loop leaf apply n steps (v ∷ values))
            (values_of leaf apply es >>= apply func)
  unfolding walk_loop
  loop-apply func es n steps values = go (values_of leaf apply es) refl
    where
      go :
          (o : Option (List V))
          → values_of leaf apply es ≡ o
          → resume
              (λ vs.
                walk_loop leaf apply
                  (1 + n)
                  (ExprStep.apply func (length (slice es)) ∷ steps)
                  (reverse vs ++ values))
              o
            ≡ resume (λ v. walk_loop leaf apply n steps (v ∷ values)) (o >>= apply func)
      go none h = refl
      go (some vs) h = rw (one_add, length-values_of es h, split_top-reverse vs values) refl

  loop-cons :
      (n : ℕ) (steps : List ExprStep) (values : List V) (first : Option V) (rest : Option (List V))
      (run : List V → Option (Option V))
      → ((below : List V)
          → run below ≡ resume (λ vs. walk_loop leaf apply n steps (reverse vs ++ below)) rest)
      → resume (λ v. run (v ∷ values)) first
        ≡ resume
            (λ vs. walk_loop leaf apply n steps (reverse vs ++ values))
            (first >>= λ v. rest >>= λ vs. some (v ∷ vs))
  loop-cons n steps values none rest run h = refl
  loop-cons n steps values (some v) none run h = h (v ∷ values)
  loop-cons n steps values (some v) (some vs) run h = h (v ∷ values) ∙ rw reverse-cons-append refl

  mutual
    unfolding value_of values_of steps_of steps_of_args

    pub loop-value_of :
        (e : Expr) (n : ℕ) (steps : List ExprStep) (values : List V)
        → walk_loop leaf apply (steps_of e + n) (ExprStep.enter e ∷ steps) values
          ≡ resume (λ v. walk_loop leaf apply n steps (v ∷ values)) (value_of leaf apply e)
    loop-value_of (Expr.call func args) n steps values = elim (call_of-cases func args) [
      | inl none_ ↦
          rw (value-none leaf apply func args none_, steps-none func args none_)
            (loop-leaf (Expr.call func args) n steps values none_)
      | inr some_ ↦
          rw (value-some leaf apply func args some_, steps-some func args some_)
            (loop-call (Expr.call func args) func args (steps_of_args args + 1) n steps values some_
              ∙ rw (add_swap (steps_of_args args) 1 n)
                  (loop-values_of args (1 + n) _ values ∙ loop-apply func args n steps values))
    ]
    loop-value_of (Expr.col c) n steps values = loop-leaf (Expr.col c) n steps values refl
    loop-value_of (Expr.lit c) n steps values = loop-leaf (Expr.lit c) n steps values refl
    loop-value_of (Expr.text c) n steps values = loop-leaf (Expr.text c) n steps values refl
    loop-value_of (Expr.term c) n steps values = loop-leaf (Expr.term c) n steps values refl

    loop-values_of :
        (es : Exprs) (n : ℕ) (steps : List ExprStep) (values : List V)
        → walk_loop leaf apply (steps_of_args es + n) (enters es ++ steps) values
          ≡ resume
              (λ vs. walk_loop leaf apply n steps (reverse vs ++ values))
              (values_of leaf apply es)
    loop-values_of Exprs.nil n steps values = rw zero_add refl
    loop-values_of (Exprs.cons e es) n steps values =
        rw (add_swap (steps_of e) (steps_of_args es) n) (
          loop-value_of e (steps_of_args es + n) (enters es ++ steps) values
          ∙ loop-cons n steps values (value_of leaf apply e) (values_of leaf apply es) _
              (loop-values_of es n steps))
