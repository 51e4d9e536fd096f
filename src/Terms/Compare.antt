-- ===== src/Terms/Compare.antt =====
-- crates/ivm-ir/src/1_terms.rs: `compare`, the structural order of terms, over any dictionary.
pub mod Swap
pub mod Ends
use sqlite_ivm.Base.{
  ℕ, zero, suc, compare as cmp_ℕ, Ordering, ℤ, to_bits, cmp_ℤ, cmp_bytes, then_with, Bool, true,
  false, Option, none, some, List, [], ◌∷◌, ◌++◌, length, ◌==◌, nat_eq, int_eq, if◌then◌else◌,
}
use sqlite_ivm.Ir.Syntax.{Cell, Row, Text, Ty, ty_rank}
use sqlite_ivm.Terms.{Term}
use sqlite_ivm.Terms.Float.{partial_cmp}

pub data Step : Type 0 where
  terms : (a b : Cell) → Step
  done : (order : Ordering) → Step

-- What one pair of terms asks for: more steps, or the result of the whole comparison.
pub data Verdict : Type 0 where
  push : (steps : List Step) → Verdict
  stop : (order : Ordering) → Verdict

abbrev pub or_equal : Option Ordering → Ordering
or_equal none = Ordering.eq
or_equal (some order) = order

unfoldable pub arg_step : Cell → Ty → Cell → Ty → Step
arg_step a Ty.id b Ty.id = Step.terms a b
arg_step a Ty.id b Ty.text = Step.terms a b
arg_step a Ty.text b Ty.id = Step.terms a b
arg_step a Ty.text b Ty.text = Step.terms a b
arg_step a Ty.real b Ty.real = Step.done (or_equal (partial_cmp (to_bits a) (to_bits b)))
arg_step a ta b tb = Step.done (then_with (cmp_ℕ (ty_rank ta) (ty_rank tb)) (cmp_ℤ a b))

-- `x.args.iter().zip(&x.types).zip(y.args.iter().zip(&y.types))`
unfoldable pub arg_steps : Row → List Ty → Row → List Ty → List Step
arg_steps (a ∷ as_) (ta ∷ tas) (b ∷ bs) (tb ∷ tbs) = arg_step a ta b tb ∷ arg_steps as_ tas bs tbs
arg_steps _ _ _ _ = []

abbrev pub text_verdict : Option Text → Option Text → Option Ordering
text_verdict (some a) (some b) = some (cmp_bytes a b)
text_verdict (some a) none = some Ordering.lt
text_verdict none (some b) = some Ordering.gt
text_verdict none none = none

abbrev pub head_order : Term → Term → Ordering
head_order x y = then_with (cmp_ℕ (length x.args) (length y.args)) (cmp_bytes x.functor y.functor)

abbrev pub head_verdict : Ordering → List Step → Verdict
head_verdict Ordering.eq steps = Verdict.push steps
head_verdict order steps = Verdict.stop order

abbrev pub term_verdict : Option Ordering → Term → Term → Verdict
term_verdict (some order) x y = Verdict.push (Step.done order ∷ [])
term_verdict none x y = head_verdict (head_order x y) (arg_steps x.args x.types y.args y.types)

unfoldable pub verdict : Cell → Cell → Option Term → Option Term → Verdict
verdict a b none none = Verdict.push (Step.done (cmp_ℤ a b) ∷ [])
verdict a b none (some y) = Verdict.stop Ordering.lt
verdict a b (some x) none = Verdict.stop Ordering.gt
verdict a b (some x) (some y) = term_verdict (text_verdict x.text y.text) x y

abbrev pub follow : (List Step → Option Ordering) → List Step → Verdict → Option Ordering
follow next stack (Verdict.push steps) = next (steps ++ stack)
follow next stack (Verdict.stop order) = some order

-- The loop over the stack, its top first; `none` is fuel that ran out.
module _ (resolve : Cell → Option Term) where
  unfoldable pub compare_loop : ℕ → List Step → Option Ordering
  compare_loop fuel [] = some Ordering.eq
  compare_loop zero (step ∷ stack) = none
  compare_loop (suc fuel) (Step.done Ordering.eq ∷ stack) = compare_loop fuel stack
  compare_loop (suc fuel) (Step.done Ordering.lt ∷ stack) = some Ordering.lt
  compare_loop (suc fuel) (Step.done Ordering.gt ∷ stack) = some Ordering.gt
  compare_loop (suc fuel) (Step.terms a b ∷ stack) = elim (a == b) [
    | true ↦ compare_loop fuel stack
    | false ↦ follow (compare_loop fuel) stack (verdict a b (resolve a) (resolve b))
  ]

  unfoldable pub compare : ℕ → Cell → Cell → Option Ordering
  compare fuel a b = compare_loop fuel (Step.terms a b ∷ [])
