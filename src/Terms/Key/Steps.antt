-- ===== src/Terms/Key/Steps.antt =====
-- The steps that `compare` puts on its stack name `i64` cells.
use sqlite_ivm.Base.{◌≡◌, Ordering, IsI64, Option, none, some, List, [], ◌∷◌, ◌++◌, int_eq}
use sqlite_ivm.Ir.Syntax.{Cell, Row, Ty}
use sqlite_ivm.Terms.{Term}
use sqlite_ivm.Terms.Compare.{
  Step, Verdict, arg_step, arg_steps, text_verdict, head_order, head_verdict, term_verdict, verdict,
}
use sqlite_ivm.Terms.Key.Sorted.{ArgOk, ArgsOk, IsTyped}

-- The steps compare `i64` cells only.
abbrev pub StepsOk : List Step → Type 0
StepsOk [] = Unit
StepsOk (Step.done order ∷ steps) = StepsOk steps
StepsOk (Step.terms a b ∷ steps) = (IsI64 a × IsI64 b) × StepsOk steps

abbrev pub VerdictOk : Verdict → Type 0
VerdictOk (Verdict.push steps) = StepsOk steps
VerdictOk (Verdict.stop Ordering.eq) = ⊥
VerdictOk (Verdict.stop _) = Unit

pub StepsOk-append : (xs ys : List Step) → StepsOk xs → StepsOk ys → StepsOk (xs ++ ys)
StepsOk-append [] ys hx hy = hy
StepsOk-append (Step.done order ∷ xs) ys hx hy = StepsOk-append xs ys hx hy
StepsOk-append (Step.terms a b ∷ xs) ys hx hy = (hx.0, StepsOk-append xs ys hx.1 hy)

StepsOk-arg_step :
    (a b : Cell) (ta tb : Ty) (steps : List Step)
    → ArgOk a ta
    → ArgOk b tb
    → StepsOk steps
    → StepsOk (arg_step a ta b tb ∷ steps)
unfolding arg_step
StepsOk-arg_step a b Ty.id Ty.id steps ha hb h = ((ha, hb), h)
StepsOk-arg_step a b Ty.id Ty.text steps ha hb h = ((ha, hb), h)
StepsOk-arg_step a b Ty.id _ steps ha hb h = h
StepsOk-arg_step a b Ty.text Ty.id steps ha hb h = ((ha, hb), h)
StepsOk-arg_step a b Ty.text Ty.text steps ha hb h = ((ha, hb), h)
StepsOk-arg_step a b Ty.text _ steps ha hb h = h
StepsOk-arg_step a b Ty.int Ty.int steps ha hb h = h
StepsOk-arg_step a b Ty.int _ steps ha hb h = h
StepsOk-arg_step a b Ty.any Ty.any steps ha hb h = h
StepsOk-arg_step a b Ty.any _ steps ha hb h = h
StepsOk-arg_step a b Ty.real Ty.real steps ha hb h = h
StepsOk-arg_step a b Ty.real _ steps ha hb h = h

StepsOk-arg_steps :
    (as_ : Row) (tas : List Ty) (bs : Row) (tbs : List Ty)
    → ArgsOk as_ tas
    → ArgsOk bs tbs
    → StepsOk (arg_steps as_ tas bs tbs)
unfolding arg_steps
StepsOk-arg_steps (a ∷ as_) (ta ∷ tas) (b ∷ bs) (tb ∷ tbs) ha hb =
    StepsOk-arg_step a b ta tb _ ha.0 hb.0 (StepsOk-arg_steps as_ tas bs tbs ha.1 hb.1)
StepsOk-arg_steps _ _ _ _ ha hb = tt

VerdictOk-term :
    (text : Option Ordering) (x y : Term)
    → ArgsOk x.args x.types
    → ArgsOk y.args y.types
    → VerdictOk (term_verdict text x y)
VerdictOk-term (some order) x y ha hb = tt
VerdictOk-term none x y ha hb = head (head_order x y)
  where
    head : (o : Ordering) → VerdictOk (head_verdict o (arg_steps x.args x.types y.args y.types))
    head Ordering.lt = tt
    head Ordering.eq = StepsOk-arg_steps x.args x.types y.args y.types ha hb
    head Ordering.gt = tt

pub VerdictOk-verdict :
    (resolve : Cell → Option Term) (a b : Cell) (x y : Option Term)
    → IsTyped resolve
    → resolve a ≡ x
    → resolve b ≡ y
    → VerdictOk (verdict a b x y)
unfolding verdict
VerdictOk-verdict resolve a b none none typed ea eb = tt
VerdictOk-verdict resolve a b none (some y) typed ea eb = tt
VerdictOk-verdict resolve a b (some x) none typed ea eb = tt
VerdictOk-verdict resolve a b (some x) (some y) typed ea eb =
    VerdictOk-term (text_verdict x.text y.text) x y (typed.args_ok a x ea) (typed.args_ok b y eb)
