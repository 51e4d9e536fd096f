-- ===== src/Terms/Compare/Ends.antt =====
-- Over an acyclic dictionary the comparison ends.
use Prim.Native.Nat.add
use sqlite_ivm.Base.{
  ℕ, zero, suc, ◌+◌, ◌≤◌, ◌<◌, ◌≡◌, refl, ◌⊎◌, inl, inr, Ordering, pos_part, true, false, Option,
  none, some, List, [], ◌∷◌, ◌++◌, Bool-cases, ◌==◌, int_eq, arith,
}
use sqlite_ivm.Ir.Syntax.{Cell, Row, Ty}
use sqlite_ivm.Terms.{Term}
use sqlite_ivm.Terms.Compare.{
  Step, Verdict, arg_step, arg_steps, text_verdict, head_order, head_verdict, term_verdict, verdict,
  follow, compare_loop, compare,
}

module _ (resolve : Cell → Option Term) where
  -- A cell that names no term, or one whose id is below the bound.
  abbrev pub IsBelow : ℕ → Cell → Type 0
  IsBelow bound a = (resolve a ≡ none) ⊎ (pos_part a < bound)

  -- The `Id` and `Text` arguments of a term.
  abbrev pub ChildrenBelow : ℕ → Row → List Ty → Type 0
  ChildrenBelow bound (a ∷ as_) (Ty.id ∷ tys) = IsBelow bound a × ChildrenBelow bound as_ tys
  ChildrenBelow bound (a ∷ as_) (Ty.text ∷ tys) = IsBelow bound a × ChildrenBelow bound as_ tys
  ChildrenBelow bound (a ∷ as_) (_ ∷ tys) = ChildrenBelow bound as_ tys
  ChildrenBelow bound _ _ = Unit

  -- A term names only terms of smaller ids.
  abbrev pub IsAcyclic : Type 0
  IsAcyclic =
      (id : Cell) (t : Term) → resolve id ≡ some t → ChildrenBelow (pos_part id) t.args t.types

  abbrev Ends : List Step → Type 0
  Ends stack = (fuel : ℕ) × (order : Ordering) × (compare_loop resolve fuel stack ≡ some order)

  abbrev EndsFollow : List Step → Verdict → Type 0
  EndsFollow stack v =
      (fuel : ℕ) × (order : Ordering) × (follow (compare_loop resolve fuel) stack v ≡ some order)

  EndsWith : ℕ → Type 0
  EndsWith bound =
      (a b : Cell) (stack : List Step)
      → IsBelow bound a
      → Ends stack
      → Ends (Step.terms a b ∷ stack)

  Ends-done : (order : Ordering) (stack : List Step) → Ends stack → Ends (Step.done order ∷ stack)
  unfolding compare_loop
  Ends-done Ordering.eq stack (fuel, result, h) = (suc fuel, result, h)
  Ends-done Ordering.lt stack h = (1, Ordering.lt, refl)
  Ends-done Ordering.gt stack h = (1, Ordering.gt, refl)

  module _ (bound : ℕ) (ends : EndsWith bound) where
    Ends-arg_step :
        (a b : Cell) (ta tb : Ty) (as_ : Row) (tas : List Ty) (stack : List Step)
        → ChildrenBelow bound (a ∷ as_) (ta ∷ tas)
        → Ends stack
        → Ends (arg_step a ta b tb ∷ stack)
    unfolding arg_step EndsWith
    Ends-arg_step a b Ty.id Ty.id as_ tas stack below h = ends a b stack below.0 h
    Ends-arg_step a b Ty.id Ty.text as_ tas stack below h = ends a b stack below.0 h
    Ends-arg_step a b Ty.id _ as_ tas stack below h = Ends-done _ stack h
    Ends-arg_step a b Ty.text Ty.id as_ tas stack below h = ends a b stack below.0 h
    Ends-arg_step a b Ty.text Ty.text as_ tas stack below h = ends a b stack below.0 h
    Ends-arg_step a b Ty.text _ as_ tas stack below h = Ends-done _ stack h
    Ends-arg_step a b Ty.int Ty.int as_ tas stack below h = Ends-done _ stack h
    Ends-arg_step a b Ty.int _ as_ tas stack below h = Ends-done _ stack h
    Ends-arg_step a b Ty.any Ty.any as_ tas stack below h = Ends-done _ stack h
    Ends-arg_step a b Ty.any _ as_ tas stack below h = Ends-done _ stack h
    Ends-arg_step a b Ty.real Ty.real as_ tas stack below h = Ends-done _ stack h
    Ends-arg_step a b Ty.real _ as_ tas stack below h = Ends-done _ stack h

    ChildrenBelow-tail :
        (a : Cell) (ta : Ty) (as_ : Row) (tas : List Ty)
        → ChildrenBelow bound (a ∷ as_) (ta ∷ tas)
        → ChildrenBelow bound as_ tas
    ChildrenBelow-tail a Ty.id as_ tas h = h.1
    ChildrenBelow-tail a Ty.text as_ tas h = h.1
    ChildrenBelow-tail a _ as_ tas h = h

    Ends-arg_steps :
        (as_ : Row) (tas : List Ty) (bs : Row) (tbs : List Ty) (stack : List Step)
        → ChildrenBelow bound as_ tas
        → Ends stack
        → Ends (arg_steps as_ tas bs tbs ++ stack)
    unfolding arg_steps
    Ends-arg_steps (a ∷ as_) (ta ∷ tas) (b ∷ bs) (tb ∷ tbs) stack below h =
        Ends-arg_step a b ta tb as_ tas (arg_steps as_ tas bs tbs ++ stack) below
          (Ends-arg_steps as_ tas bs tbs stack (ChildrenBelow-tail a ta as_ tas below) h)
    Ends-arg_steps _ _ _ _ stack below h = h

    Ends-head :
        (order : Ordering) (x y : Term) (stack : List Step)
        → ChildrenBelow bound x.args x.types
        → Ends stack
        → EndsFollow stack (head_verdict order (arg_steps x.args x.types y.args y.types))
    Ends-head Ordering.eq x y stack below h =
        Ends-arg_steps x.args x.types y.args y.types stack below h
    Ends-head Ordering.lt x y stack below h = (0, Ordering.lt, refl)
    Ends-head Ordering.gt x y stack below h = (0, Ordering.gt, refl)

    Ends-term :
        (text : Option Ordering) (x y : Term) (stack : List Step)
        → ChildrenBelow bound x.args x.types
        → Ends stack
        → EndsFollow stack (term_verdict text x y)
    Ends-term (some order) x y stack below h = Ends-done order stack h
    Ends-term none x y stack below h = Ends-head (head_order x y) x y stack below h

  module _ (acyclic : IsAcyclic) (a b : Cell) (stack : List Step) (h : Ends stack) where
    Ends-verdict :
        (x y : Option Term)
        → resolve a ≡ x
        → ((t : Term) → resolve a ≡ some t → EndsWith (pos_part a))
        → EndsFollow stack (verdict a b x y)
    unfolding verdict
    Ends-verdict none none e deeper = Ends-done _ stack h
    Ends-verdict none (some y) e deeper = (0, Ordering.lt, refl)
    Ends-verdict (some x) none e deeper = (0, Ordering.gt, refl)
    Ends-verdict (some x) (some y) e deeper =
        Ends-term (pos_part a) (deeper x e) (text_verdict x.text y.text) x y stack (acyclic a x e) h

    Ends-terms :
        ((t : Term) → resolve a ≡ some t → EndsWith (pos_part a)) → Ends (Step.terms a b ∷ stack)
    unfolding compare_loop
    Ends-terms deeper = elim (Bool-cases (a == b)) [
      | inl same ↦ (suc h.0, h.1, rw (same, compare_loop) h.2)
      | inr other ↦
          let (fuel, order, out) = Ends-verdict (resolve a) (resolve b) refl deeper in
          (suc fuel, order, rw (other, compare_loop) out)
    ]

  EndsWith-mono : (bound k : ℕ) → k ≤ bound → EndsWith bound → EndsWith k
  unfolding EndsWith
  EndsWith-mono bound k small ends a b stack below h = ends a b stack (wider below) h
    where
      wider : IsBelow k a → IsBelow bound a
      wider (inl e) = inl e
      wider (inr lt) = inr (omega arith)

  ends_below : (bound : ℕ) → IsAcyclic → EndsWith bound
  unfolding EndsWith
  ends_below zero acyclic a b stack (inl e) h = Ends-terms acyclic a b stack h (λ t found. cc)
  ends_below zero acyclic a b stack (inr lt) h = elim lt [ ]
  ends_below (suc bound) acyclic a b stack (inl e) h =
      Ends-terms acyclic a b stack h (λ t found. cc)
  ends_below (suc bound) acyclic a b stack (inr lt) h =
      Ends-terms acyclic a b stack h
        (λ t found. EndsWith-mono bound (pos_part a) (omega arith) (ends_below bound acyclic))

  -- More fuel changes no result.
  compare_loop_more :
      (fuel more : ℕ) (stack : List Step) {order : Ordering}
      → compare_loop resolve fuel stack ≡ some order
      → compare_loop resolve (fuel + more) stack ≡ some order
  unfolding compare_loop
  compare_loop_more fuel more [] h = h
  compare_loop_more zero more (step ∷ stack) h = cc
  compare_loop_more (suc fuel) more (Step.done Ordering.eq ∷ stack) h =
      rw add.suc (compare_loop_more fuel more stack h)
  compare_loop_more (suc fuel) more (Step.done Ordering.lt ∷ stack) h = rw add.suc h
  compare_loop_more (suc fuel) more (Step.done Ordering.gt ∷ stack) h = rw add.suc h
  compare_loop_more (suc fuel) more (Step.terms a b ∷ stack) {order} h = rw add.suc (
      elim (a == b)
          as (λ c.
            (elim c [
              | true ↦ compare_loop resolve fuel stack
              | false ↦
                  follow (compare_loop resolve fuel) stack (verdict a b (resolve a) (resolve b))
            ])
              ≡ some order
            → (elim c [
              | true ↦ compare_loop resolve (fuel + more) stack
              | false ↦
                  follow (compare_loop resolve (fuel + more)) stack
                    (verdict a b (resolve a) (resolve b))
            ])
              ≡ some order) [
                | true ↦ compare_loop_more fuel more stack
                | false ↦
                    elim (verdict a b (resolve a) (resolve b))
                      as (λ v.
                        follow (compare_loop resolve fuel) stack v ≡ some order
                        → follow (compare_loop resolve (fuel + more)) stack v ≡ some order) [
                          | Verdict.push steps ↦ compare_loop_more fuel more (steps ++ stack)
                          | Verdict.stop out ↦ λ e. e
                        ]
              ]
        h)

  -- Over a dictionary whose terms name only terms of smaller ids, the comparison of two cells ends:
  -- there is a fuel with which, and with any more, it gives one and the same order.
  pub compare_ends :
      IsAcyclic
      → (a b : Cell)
      → (order : Ordering) × (fuel : ℕ) × ((more : ℕ)
          → compare resolve (fuel + more) a b ≡ some order)
  unfolding compare EndsWith compare_loop
  compare_ends acyclic a b =
      let (fuel, order, h) =
        ends_below (suc (pos_part a)) acyclic a b [] (inr (omega arith)) (0, Ordering.eq, refl) in
      (order, fuel, λ more. compare_loop_more fuel more (Step.terms a b ∷ []) h)
