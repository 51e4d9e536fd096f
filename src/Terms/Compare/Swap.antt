-- ===== src/Terms/Compare/Swap.antt =====
-- Comparing the other way round reverses the order.
use sqlite_ivm.Base.{
  ℕ, zero, suc, ◌≡◌, refl, ap, compare as cmp_ℕ, Ordering, ℤ, to_bits, cmp_ℤ, then_with, reversed,
  reversed-then_with, compare_swap, cmp_ℤ_swap, cmp_bytes_swap, Option, none, some, List, [], ◌∷◌,
  ◌++◌, map, length, inl, inr, Bool-cases, ◌==◌, int_eq, arith,
}
use mathlib.Core.Option
use mathlib.Core.List.{map-append}
use sqlite_ivm.Ir.Syntax.{Cell, Row, Text, Ty, ty_rank}
use sqlite_ivm.Terms.{Term}
use sqlite_ivm.Terms.Float.{partial_cmp, is_nan, float_key}
use sqlite_ivm.Terms.Compare.{
  Step, Verdict, or_equal, arg_step, arg_steps, text_verdict, head_order, head_verdict,
  term_verdict, verdict, follow, compare_loop, compare,
}

abbrev swap : Step → Step
swap (Step.terms a b) = Step.terms b a
swap (Step.done order) = Step.done (reversed order)

abbrev swap_verdict : Verdict → Verdict
swap_verdict (Verdict.push steps) = Verdict.push (map swap steps)
swap_verdict (Verdict.stop order) = Verdict.stop (reversed order)

partial_cmp_swap : (a b : ℕ) → or_equal (partial_cmp b a) ≡ reversed (or_equal (partial_cmp a b))
unfolding partial_cmp is_nan
partial_cmp_swap a b = ground (arith, cmp_ℤ_swap (float_key a) (float_key b))

plain_swap :
    (a b : Cell) (ta tb : Ty)
    → then_with (cmp_ℕ (ty_rank tb) (ty_rank ta)) (cmp_ℤ b a)
      ≡ reversed (then_with (cmp_ℕ (ty_rank ta) (ty_rank tb)) (cmp_ℤ a b))
plain_swap a b ta tb =
    rw reversed-then_with (rw (compare_swap (ty_rank ta) (ty_rank tb), cmp_ℤ_swap a b))

arg_step-swap : (a b : Cell) (ta tb : Ty) → arg_step b tb a ta ≡ swap (arg_step a ta b tb)
unfolding arg_step
arg_step-swap a b ta tb =
    ground (arith, plain_swap a b ta tb, partial_cmp_swap (to_bits a) (to_bits b))

arg_steps-swap :
    (as_ bs : Row) (tas tbs : List Ty)
    → arg_steps bs tbs as_ tas ≡ map swap (arg_steps as_ tas bs tbs)
unfolding arg_steps
arg_steps-swap (a ∷ as_) (b ∷ bs) (ta ∷ tas) (tb ∷ tbs) =
    rw (arg_step-swap, arg_steps-swap as_ bs tas tbs)
arg_steps-swap [] [] tas tbs = refl
arg_steps-swap [] (b ∷ bs) tas [] = refl
arg_steps-swap [] (b ∷ bs) tas (tb ∷ tbs) = refl
arg_steps-swap (a ∷ as_) [] [] tbs = refl
arg_steps-swap (a ∷ as_) [] (ta ∷ tas) tbs = refl
arg_steps-swap (a ∷ as_) (b ∷ bs) [] [] = refl
arg_steps-swap (a ∷ as_) (b ∷ bs) [] (tb ∷ tbs) = refl
arg_steps-swap (a ∷ as_) (b ∷ bs) (ta ∷ tas) [] = refl

text_verdict_swap : (x y : Option Text) → text_verdict y x ≡ Option.map reversed (text_verdict x y)
text_verdict_swap none none = refl
text_verdict_swap none (some b) = refl
text_verdict_swap (some a) none = refl
text_verdict_swap (some a) (some b) = ap some (cmp_bytes_swap a b)

head_order_swap : (x y : Term) → head_order y x ≡ reversed (head_order x y)
head_order_swap x y =
    rw reversed-then_with
      (rw (compare_swap (length x.args) (length y.args), cmp_bytes_swap x.functor y.functor))

head_verdict-swap :
    (order : Ordering) (steps : List Step)
    → head_verdict (reversed order) (map swap steps) ≡ swap_verdict (head_verdict order steps)
head_verdict-swap Ordering.lt steps = refl
head_verdict-swap Ordering.eq steps = refl
head_verdict-swap Ordering.gt steps = refl

term_verdict_swap :
    (order : Option Ordering) (x y : Term)
    → term_verdict (Option.map reversed order) y x ≡ swap_verdict (term_verdict order x y)
term_verdict_swap (some order) x y = refl
term_verdict_swap none x y =
    rw (head_order_swap x y, arg_steps-swap x.args y.args x.types y.types)
      (head_verdict-swap (head_order x y) (arg_steps x.args x.types y.args y.types))

verdict_swap : (a b : Cell) (x y : Option Term) → verdict b a y x ≡ swap_verdict (verdict a b x y)
unfolding verdict
verdict_swap a b none none = ap (λ o. Verdict.push (Step.done o ∷ [])) (cmp_ℤ_swap a b)
verdict_swap a b none (some y) = refl
verdict_swap a b (some x) none = refl
verdict_swap a b (some x) (some y) =
    rw text_verdict_swap (term_verdict_swap (text_verdict x.text y.text) x y)

int_eqb_comm : (a b : ℤ) → (b == a) ≡ (a == b)
int_eqb_comm a b = ground arith

follow-swap :
    (next : List Step → Option Ordering) (stack : List Step)
    → ((steps : List Step) → next (map swap steps) ≡ Option.map reversed (next steps))
    → (v : Verdict)
    → follow next (map swap stack) (swap_verdict v) ≡ Option.map reversed (follow next stack v)
follow-swap next stack h (Verdict.push steps) = rw (← map-append) (h (steps ++ stack))
follow-swap next stack h (Verdict.stop order) = refl

module _ (resolve : Cell → Option Term) where
  loop_swap :
      (fuel : ℕ) (stack : List Step)
      → compare_loop resolve fuel (map swap stack)
        ≡ Option.map reversed (compare_loop resolve fuel stack)
  unfolding compare_loop
  loop_swap zero [] = refl
  loop_swap (suc fuel) [] = refl
  loop_swap zero (step ∷ stack) = refl
  loop_swap (suc fuel) (Step.done Ordering.eq ∷ stack) = loop_swap fuel stack
  loop_swap (suc fuel) (Step.done Ordering.lt ∷ stack) = refl
  loop_swap (suc fuel) (Step.done Ordering.gt ∷ stack) = refl
  loop_swap (suc fuel) (Step.terms a b ∷ stack) = elim (Bool-cases (a == b)) [
    | inl same ↦ rw (int_eqb_comm a b, same, compare_loop) (loop_swap fuel stack)
    | inr other ↦
        rw (int_eqb_comm a b, other, compare_loop)
          (rw (verdict_swap a b (resolve a) (resolve b)) (
            follow-swap (compare_loop resolve fuel) stack (loop_swap fuel)
              (verdict a b (resolve a) (resolve b))))
  ]

  -- With the same fuel, the comparison of two cells the other way round gives the reversed order, or
  -- runs out as the first does.
  pub compare_swap_terms :
      (fuel : ℕ) (a b : Cell)
      → compare resolve fuel b a ≡ Option.map reversed (compare resolve fuel a b)
  unfolding compare
  compare_swap_terms fuel a b = loop_swap fuel (Step.terms a b ∷ [])
