-- ===== src/Engine/Walk/Shortcut.antt =====
-- The shortcuts of `walk_expr` for shallow expressions, and the whole walk.
use sqlite_ivm.Base.{
  ℕ, ◌+◌, ◌-◌, ◌≤◌, ◌≡◌, refl, sym, ap, ◌∙◌, inl, inr, Bool, true, false, Option, none, some, List,
  [], ◌∷◌, traverse, Bool-cases, ◌>>=◌, arith,
}
use sqlite_ivm.Ir.Syntax.{Func, Expr, Exprs, slice}
use sqlite_ivm.Engine.Walk.{
  ExprStep, branch, is_leaf, all_of, small, is_flat, resume, flat, walk_loop, two_deep, walk_expr,
  steps_of,
}
use sqlite_ivm.Engine.Walk.Correct.{
  value_of, values_of, call_of-cases, small-all, value-none, value-some, loop-value_of,
}

module _ {ℓ} {V : Type ℓ} (leaf : Expr → Option V) (apply : Func → List V → Option V) where
  leaf-value_of : (e : Expr) → is_leaf e ≡ true → leaf e ≡ value_of leaf apply e
  unfolding value_of
  leaf-value_of (Expr.call func args) h = elim (call_of-cases func args) [
    | inl none_ ↦ sym (value-none leaf apply func args none_)
    | inr some_ ↦ cc (sym h ∙ ap (λ o. elim o [ none ↦ true | some parts ↦ false ]) some_)
  ]
  leaf-value_of (Expr.col c) h = refl
  leaf-value_of (Expr.lit c) h = refl
  leaf-value_of (Expr.text c) h = refl
  leaf-value_of (Expr.term c) h = refl

  -- A shortcut that is right for each argument is right for all of them.
  traverse-values_of :
      (test : Expr → Bool) (short : Expr → Option V)
      → ((e : Expr) → test e ≡ true → short e ≡ value_of leaf apply e)
      → (es : Exprs) → all_of test es ≡ true
      → traverse short (slice es) ≡ values_of leaf apply es
  unfolding traverse values_of
  traverse-values_of test short right Exprs.nil h = refl
  traverse-values_of test short right (Exprs.cons e es) h =
      rw (right e (ground arith), traverse-values_of test short right es (ground arith)) refl

  flat-value_of : (e : Expr) → is_flat e ≡ true → flat leaf apply e ≡ value_of leaf apply e
  unfolding flat is_flat value_of
  flat-value_of (Expr.call func args) h = elim (call_of-cases func args) [
    | inl none_ ↦ rw none_ refl
    | inr some_ ↦ rw some_ (
        ap (λ o. o >>= apply func)
          (traverse-values_of is_leaf leaf leaf-value_of args (
            small-all is_leaf args (
              sym (ap (λ o. elim o [ none ↦ true | some parts ↦ small is_leaf parts.1 ]) some_)
              ∙ h))))
  ]
  flat-value_of (Expr.col c) h = refl
  flat-value_of (Expr.lit c) h = refl
  flat-value_of (Expr.text c) h = refl
  flat-value_of (Expr.term c) h = refl

  walk_loop-value_of :
      (e : Expr) (fuel : ℕ)
      → steps_of e ≤ fuel
      → walk_loop leaf apply fuel (ExprStep.enter e ∷ []) [] ≡ some (value_of leaf apply e)
  unfolding walk_loop
  walk_loop-value_of e fuel h =
      rw enough
        (loop-value_of leaf apply e (fuel - steps_of e) [] [] ∙ last (value_of leaf apply e))
    where
      enough : fuel ≡ steps_of e + (fuel - steps_of e)
      enough = omega arith

      last :
          (o : Option V)
          → resume (λ v. walk_loop leaf apply (fuel - steps_of e) [] (v ∷ [])) o ≡ some o
      last none = refl
      last (some v) = refl

  two_deep-value_of :
      (e : Expr) (long : Option (Option V))
      → long ≡ some (value_of leaf apply e)
      → two_deep leaf apply (branch e) long ≡ some (value_of leaf apply e)
  two_deep-value_of (Expr.call func args) long h = elim (call_of-cases func args) [
    | inl none_ ↦ rw none_ h
    | inr some_ ↦ rw some_ (elim (Bool-cases (small is_flat args)) [
      | inl yes_ ↦
          rw (yes_, value-some leaf apply func args some_)
            (ap (λ o. some (o >>= apply func))
              (traverse-values_of is_flat (flat leaf apply) flat-value_of args
                (small-all is_flat args yes_)))
      | inr no_ ↦ rw no_ h
    ])
  ]
  two_deep-value_of (Expr.col c) long h = h
  two_deep-value_of (Expr.lit c) long h = h
  two_deep-value_of (Expr.text c) long h = h
  two_deep-value_of (Expr.term c) long h = h

  -- With as much fuel as `steps_of` counts, `walk_expr` ends, shortcuts and stacks alike, and gives
  -- the value by recursion on the expression, or the panic that one of its values is.
  pub walk_expr-value_of :
      (e : Expr) (fuel : ℕ)
      → steps_of e ≤ fuel
      → walk_expr leaf apply fuel e ≡ some (value_of leaf apply e)
  unfolding walk_expr
  walk_expr-value_of e fuel h = elim (Bool-cases (is_flat e)) [
    | inl short ↦ rw short (ap some (flat-value_of e short))
    | inr long ↦ rw long (two_deep-value_of e _ (walk_loop-value_of e fuel h))
  ]
