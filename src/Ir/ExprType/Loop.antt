-- ===== src/Ir/ExprType/Loop.antt =====
-- The two loops of `expr_type` compute the type by recursion on the expression.
use Prim.Native.Nat.add
use sqlite_ivm.Base.{
  ℕ, zero, suc, ◌+◌, ◌-◌, ◌≤◌, ◌≡◌, refl, ap, ◌∙◌, true, false, inl, inr, Option, some, List, [],
  ◌∷◌, ◌++◌, reverse, length, take, append_assoc, split_top-reverse, reverse-cons-append,
  Bool-cases, ◌>>=◌, if◌then◌else◌, arith,
}
use sqlite_ivm.Ir.Syntax.{Ty, Expr, Exprs, slice}
use sqlite_ivm.Ir.ExprType.{
  is_sum, visits, visits_args, call_type, expr_node_type, type_operands, all_leaves, leaf_types,
  collect, assign, pop_type, expr_type_run, expr_type,
}

-- The type by recursion: `Add` and `Sub` read their first two operands, nothing else reads any.
unfoldable mutual
  pub type_of : Expr → List Ty → Option Ty
  type_of (Expr.col c) cols = expr_node_type (Expr.col c) cols []
  type_of (Expr.lit v) cols = some Ty.int
  type_of (Expr.text i) cols = some Ty.text
  type_of (Expr.term i) cols = some Ty.id
  type_of (Expr.call func args) cols =
      call_type func (if is_sum func then types_of args 2 cols else [])

  pub types_of : Exprs → ℕ → List Ty → List (Option Ty)
  types_of Exprs.nil k cols = []
  types_of (Exprs.cons e es) zero cols = []
  types_of (Exprs.cons e es) (suc k) cols = type_of e cols ∷ types_of es k cols

-- The order in which the second loop meets them.
mutual
  post : Expr → List Expr
  post (Expr.col c) = Expr.col c ∷ []
  post (Expr.lit v) = Expr.lit v ∷ []
  post (Expr.text i) = Expr.text i ∷ []
  post (Expr.term i) = Expr.term i ∷ []
  post (Expr.call func args) =
      (if is_sum func then post_args args 2 else []) ++ Expr.call func args ∷ []

  post_args : Exprs → ℕ → List Expr
  post_args Exprs.nil k = []
  post_args (Exprs.cons e es) zero = []
  post_args (Exprs.cons e es) (suc k) = post e ++ post_args es k

one_add : (n : ℕ) → 1 + n ≡ suc n
one_add n = omega arith

zero_add : (n : ℕ) → 0 + n ≡ n
zero_add n = omega arith

add_swap : (a b c : ℕ) → a + b + c ≡ b + (a + c)
add_swap a b c = omega arith

collect_step :
    (m n : ℕ) (e : Expr) (walk order : List Expr)
    → collect (suc m + n) (e ∷ walk) order
      ≡ collect (m + n) (reverse (type_operands e) ++ walk) (e ∷ order)
unfolding collect
collect_step m n e walk order = rw add.suc

mutual
  unfolding post visits collect type_operands

  collect-post :
      (e : Expr) (n : ℕ) (walk order : List Expr)
      → collect (visits e + n) (e ∷ walk) order ≡ collect n walk (post e ++ order)
  collect-post (Expr.col c) n walk order = rw one_add
  collect-post (Expr.lit v) n walk order = rw one_add
  collect-post (Expr.text i) n walk order = rw one_add
  collect-post (Expr.term i) n walk order = rw one_add
  collect-post (Expr.call func args) n walk order =
      collect_step _ n (Expr.call func args) walk order
      ∙ elim (is_sum func)
          as (λ b.
            collect ((if b then visits_args args 2 else 0) + n)
              (reverse (if b then take 2 (slice args) else []) ++ walk)
              (Expr.call func args ∷ order)
            ≡ collect n walk
                (((if b then post_args args 2 else []) ++ Expr.call func args ∷ []) ++ order)) [
                  | true ↦
                      rw append_assoc
                        (collect-post_args args 2 n walk (Expr.call func args ∷ order))
                  | false ↦ rw zero_add
                ]

  collect-post_args :
      (es : Exprs) (k n : ℕ) (walk order : List Expr)
      → collect (visits_args es k + n) (reverse (take k (slice es)) ++ walk) order
        ≡ collect n walk (post_args es k ++ order)
  collect-post_args Exprs.nil zero n walk order = rw zero_add
  collect-post_args Exprs.nil (suc k) n walk order = rw zero_add
  collect-post_args (Exprs.cons e es) zero n walk order = rw zero_add
  collect-post_args (Exprs.cons e es) (suc k) n walk order =
      rw (reverse-cons-append, add_swap (visits e) (visits_args es k) n)
        (collect-post_args es k (visits e + n) (e ∷ walk) order
          ∙ rw append_assoc (collect-post e n walk (post_args es k ++ order)))

length-types_of :
    (es : Exprs) (k : ℕ) (cols : List Ty) → length (take k (slice es)) ≡ length (types_of es k cols)
unfolding type_of
length-types_of Exprs.nil zero cols = refl
length-types_of Exprs.nil (suc k) cols = refl
length-types_of (Exprs.cons e es) zero cols = refl
length-types_of (Exprs.cons e es) (suc k) cols = ap suc (length-types_of es k cols)

assign_step :
    (e : Expr) (cols : List Ty) (order : List Expr) (done operands : List (Option Ty))
    → length (type_operands e) ≡ length operands
    → assign (e ∷ order) cols (reverse operands ++ done)
      ≡ assign order cols (expr_node_type e cols operands ∷ done)
unfolding assign
assign_step e cols order done operands h = rw (h, split_top-reverse)

mutual
  unfolding post type_of assign type_operands expr_node_type

  assign-post :
      (e : Expr) (cols : List Ty) (order : List Expr) (done : List (Option Ty))
      → assign (post e ++ order) cols done ≡ assign order cols (type_of e cols ∷ done)
  assign-post (Expr.col c) cols order done = rw (split_top-reverse [] done)
  assign-post (Expr.lit v) cols order done = rw (split_top-reverse [] done)
  assign-post (Expr.text i) cols order done = rw (split_top-reverse [] done)
  assign-post (Expr.term i) cols order done = rw (split_top-reverse [] done)
  assign-post (Expr.call func args) cols order done =
      (elim (is_sum func)
          as (λ b.
            is_sum func ≡ b
            → assign (((if b then post_args args 2 else []) ++ Expr.call func args ∷ []) ++ order)
                cols done
              ≡ assign order cols
                  (call_type func (if b then types_of args 2 cols else []) ∷ done)) [
                    | true ↦ λ h. rw append_assoc (
                        assign-post_args args 2 cols (Expr.call func args ∷ order) done
                        ∙ assign_step (Expr.call func args) cols order done _
                            (rw h (length-types_of args 2 cols)))
                    | false ↦ λ h. assign_step (Expr.call func args) cols order done [] (rw h)
                  ])
        refl

  assign-post_args :
      (es : Exprs) (k : ℕ) (cols : List Ty) (order : List Expr) (done : List (Option Ty))
      → assign (post_args es k ++ order) cols done
        ≡ assign order cols (reverse (types_of es k cols) ++ done)
  assign-post_args Exprs.nil zero cols order done = refl
  assign-post_args Exprs.nil (suc k) cols order done = refl
  assign-post_args (Exprs.cons e es) zero cols order done = refl
  assign-post_args (Exprs.cons e es) (suc k) cols order done =
      rw (append_assoc, assign-post e cols (post_args es k ++ order) done, reverse-cons-append)
        (assign-post_args es k cols order (type_of e cols ∷ done))

-- Operands with no operands of their own have the types that the shortcut gives them.
leaf_type :
    (e : Expr) (cols : List Ty) → type_operands e ≡ [] → expr_node_type e cols [] ≡ type_of e cols
unfolding type_operands type_of expr_node_type
leaf_type (Expr.col c) cols h = refl
leaf_type (Expr.lit v) cols h = refl
leaf_type (Expr.text i) cols h = refl
leaf_type (Expr.term i) cols h = refl
leaf_type (Expr.call func Exprs.nil) cols h = ground arith
leaf_type (Expr.call func (Exprs.cons e es)) cols h = ground arith

leaf_types-types_of :
    (es : Exprs) (k : ℕ) (cols : List Ty)
    → all_leaves (take k (slice es)) ≡ true
    → leaf_types (take k (slice es)) cols ≡ types_of es k cols
unfolding type_of
leaf_types-types_of Exprs.nil zero cols h = refl
leaf_types-types_of Exprs.nil (suc k) cols h = refl
leaf_types-types_of (Exprs.cons e es) zero cols h = refl
leaf_types-types_of (Exprs.cons e es) (suc k) cols h =
    ground (arith, leaf_type e cols, leaf_types-types_of es k cols)

shortcut :
    (e : Expr) (cols : List Ty)
    → all_leaves (type_operands e) ≡ true
    → expr_node_type e cols (leaf_types (type_operands e) cols) ≡ type_of e cols
unfolding type_operands type_of expr_node_type
shortcut (Expr.call func args) cols h = ground (arith, leaf_types-types_of args 2 cols)
shortcut (Expr.col c) cols h = refl
shortcut _ cols h = refl

loops :
    (e : Expr) (n : ℕ) (cols : List Ty)
    → (collect (visits e + n) (e ∷ []) [] >>= λ order.
        assign order cols [] >>= λ done. some (pop_type done))
      ≡ some (type_of e cols)
unfolding collect assign
loops e n cols = rw (collect-post, assign-post)

-- With as much fuel as `visits` counts, `expr_type` neither panics nor runs out, and gives the type
-- that recursion on the expression gives.
pub expr_type_run-type_of :
    (e : Expr) (cols : List Ty) (fuel : ℕ)
    → visits e ≤ fuel
    → expr_type_run fuel e cols ≡ some (type_of e cols)
unfolding expr_type_run
expr_type_run-type_of e cols fuel h = elim (Bool-cases (all_leaves (type_operands e))) [
  | inl short ↦ rw short (ap some (shortcut e cols short))
  | inr long ↦ rw (long, enough) (loops e (fuel - visits e) cols)
]
  where
    enough : fuel ≡ visits e + (fuel - visits e)
    enough = omega arith

-- `expr_type` as the rest of the model calls it.
pub expr_type-type_of : (e : Expr) (cols : List Ty) → expr_type e cols ≡ type_of e cols
unfolding expr_type
expr_type-type_of e cols = rw (expr_type_run-type_of e cols (visits e) (omega arith))
