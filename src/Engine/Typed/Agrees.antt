-- ===== src/Engine/Typed/Agrees.antt =====
-- The type that `eval_typed_with_text` carries along is the one that `expr_type` computes.
use sqlite_ivm.Base.{
  ℕ, suc, zero, ◌≤◌, ◌≡◌, refl, sym, ap, ◌∙◌, inl, inr, Option, none, some, some_injective, List,
  ◌∷◌, get_elem?, take, map, ◌>>=◌, >>=-eq-some, arith,
}
use sqlite_ivm.Ir.Syntax.{Row, Ty, Func, Expr, Exprs}
use sqlite_ivm.Ir.ExprType.{is_sum, sum_type, expr_node_type, expr_type}
use sqlite_ivm.Ir.ExprType.Loop.{type_of, types_of, expr_type-type_of}
use sqlite_ivm.Engine.Walk.{call_of, steps_of}
use sqlite_ivm.Engine.Walk.Correct.{value_of, values_of, call_of-cases, value-none, value-some}
use sqlite_ivm.Engine.Walk.Shortcut.{walk_expr-value_of}
use sqlite_ivm.Engine.Typed.{
  Typed, Host, sum_ty, apply_ty, typed_leaf, typed_value, typed_apply, eval_typed_with_text,
}

ap₂_cons : {x y : Option Ty} {xs ys : List (Option Ty)} → x ≡ y → xs ≡ ys → x ∷ xs ≡ y ∷ ys
ap₂_cons h hs = λ i. h i ∷ hs i

sum_ty-take : (a : List Typed) → sum_ty a ≡ sum_type (map (λ v. v.1) (take 2 a))
sum_ty-take a = ground arith

call_of-none : (func : Func) (args : Exprs) → call_of func args ≡ none → func ≡ Func.str_nil
call_of-none func args h = ground arith

apply_ty-call_type :
    (func : Func) (args : Exprs) (a : List Typed) (types : List Ty)
    → call_of func args ≡ some (func, args)
    → map (λ v. v.1) (take 2 a) ≡ types_of args 2 types
    → apply_ty func a ≡ type_of (Expr.call func args) types
unfolding type_of is_sum
apply_ty-call_type Func.add args a types h same = sum_ty-take a ∙ ap sum_type same
apply_ty-call_type Func.sub args a types h same = sum_ty-take a ∙ ap sum_type same
apply_ty-call_type Func.str_nil args a types h same = cc
apply_ty-call_type _ args a types h same = refl

module _ (host : Host) (row : Row) (types : List Ty) where
  leaf_type :
      (func : Func) (args : Exprs) {v : Typed}
      → call_of func args ≡ none
      → typed_leaf host row types (Expr.call func args) ≡ some v
      → v.1 ≡ type_of (Expr.call func args) types
  unfolding typed_leaf type_of
  leaf_type func args h held =
      sym (ap (λ v. v.1) (some_injective held)) ∙ rw (call_of-none func args h) refl

  call_typed :
      (func : Func) (args : Exprs) {v : Typed}
      → call_of func args ≡ some (func, args)
      → ((vs : List Typed)
          → values_of (typed_leaf host row types) (typed_apply host) args ≡ some vs
          → map (λ v. v.1) (take 2 vs) ≡ types_of args 2 types)
      → (values_of (typed_leaf host row types) (typed_apply host) args >>= typed_apply host func)
        ≡ some v
      → v.1 ≡ type_of (Expr.call func args) types
  unfolding typed_apply
  call_typed func args some_ operands h =
      let (vs, given, applied) =
        >>=-eq-some (values_of (typed_leaf host row types) (typed_apply host) args) _ h in
      let (w, _, whole) = >>=-eq-some (typed_value host func vs) _ applied in
      sym (ap (λ v. v.1) (some_injective whole))
      ∙ apply_ty-call_type func args vs types some_ (operands vs given)

  mutual
    unfolding value_of typed_leaf type_of expr_node_type values_of

    typed-type_of :
        (e : Expr) {v : Typed}
        → value_of (typed_leaf host row types) (typed_apply host) e ≡ some v
        → v.1 ≡ type_of e types
    typed-type_of (Expr.col c) h =
        let (w, _, whole) = >>=-eq-some (get_elem? row c) _ h in
        sym (ap (λ v. v.1) (some_injective whole))
    typed-type_of (Expr.lit c) h = sym (ap (λ v. v.1) (some_injective h))
    typed-type_of (Expr.text i) h = sym (ap (λ v. v.1) (some_injective h))
    typed-type_of (Expr.term i) h = sym (ap (λ v. v.1) (some_injective h))
    typed-type_of (Expr.call func args) {v} h = elim (call_of-cases func args) [
      | inl none_ ↦
          leaf_type func args none_
            (sym (value-none (typed_leaf host row types) (typed_apply host) func args none_) ∙ h)
      | inr some_ ↦
          call_typed func args some_ (λ vs. typed-types_of args 2 vs)
            (sym (value-some (typed_leaf host row types) (typed_apply host) func args some_) ∙ h)
    ]

    typed-types_of :
        (es : Exprs) (k : ℕ) (vs : List Typed)
        → values_of (typed_leaf host row types) (typed_apply host) es ≡ some vs
        → map (λ v. v.1) (take k vs) ≡ types_of es k types
    typed-types_of Exprs.nil zero vs h = refl
    typed-types_of Exprs.nil (suc k) vs h =
        ap (λ vs. map (λ v. v.1) (take (suc k) vs)) (sym (some_injective h))
    typed-types_of (Exprs.cons e es) zero vs h = refl
    typed-types_of (Exprs.cons e es) (suc k) vs h =
        let (v, first, rest) =
          >>=-eq-some (value_of (typed_leaf host row types) (typed_apply host) e) _ h in
        let (ws, more, whole) =
          >>=-eq-some (values_of (typed_leaf host row types) (typed_apply host) es) _ rest in
        ap (λ vs. map (λ v. v.1) (take (suc k) vs)) (sym (some_injective whole))
        ∙ ap₂_cons (typed-type_of e first) (typed-types_of es k ws more)

  -- With as much fuel as `steps_of` counts, a value that `eval_typed_with_text` returns carries the type
  -- that `expr_type` gives the expression at the row's column types.
  pub eval_typed-expr_type :
      (e : Expr) (fuel : ℕ) {v : Typed}
      → steps_of e ≤ fuel
      → eval_typed_with_text host fuel e row types ≡ some (some v)
      → v.1 ≡ expr_type e types
  unfolding eval_typed_with_text
  eval_typed-expr_type e fuel enough h =
      typed-type_of e (
        some_injective (
          sym (walk_expr-value_of (typed_leaf host row types) (typed_apply host) e fuel enough)
          ∙ h))
      ∙ sym (expr_type-type_of e types)
