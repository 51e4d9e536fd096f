-- ===== src/Terms/Key/Loop.antt =====
-- The loop of `compare` on an acyclic dictionary and the order of the stored byte keys.
use sqlite_ivm.Base.{
  ℕ, zero, suc, ◌+◌, ◌≡◌, refl, sym, ap, subst, ◌∙◌, Ordering, IsI64, cmp_bytes, then_with, Bool,
  true, false, Option, some, some_injective, List, [], ◌∷◌, ◌++◌, append-nil, inl, inr, ◌==◌,
  int_eq, int_eqb_iff, Bool-cases,
}
use sqlite_ivm.Ir.Syntax.{Cell}
use sqlite_ivm.Terms.{Term}
use sqlite_ivm.Terms.Compare.{Step, Verdict, verdict, follow, compare_loop, compare}
use sqlite_ivm.Terms.Compare.Ends.{IsAcyclic, compare_ends}
use sqlite_ivm.Terms.Key.Sorted.{
  cmp_bytes_refl, then_with_eq, IsTyped, AreKeys, by_key, value, verdict_value, value-append,
}
use sqlite_ivm.Terms.Key.Pairs.{by_key-verdict}
use sqlite_ivm.Terms.Key.Steps.{StepsOk, VerdictOk, StepsOk-append, VerdictOk-verdict}

module _ (resolve : Cell → Option Term) (key : Cell → List ℕ) (acyclic : IsAcyclic resolve)
    (typed : IsTyped resolve) (keys : AreKeys resolve key) where
  abbrev Gives : ℕ → Ordering → Type 0
  Gives fuel order =
      (stack : List Step)
      → StepsOk stack
      → compare_loop resolve fuel stack ≡ some order
      → order ≡ value key stack

  follow-value :
      (fuel : ℕ) (stack : List Step) (v : Verdict) (order : Ordering)
      → Gives fuel order
      → VerdictOk v
      → StepsOk stack
      → follow (compare_loop resolve fuel) stack v ≡ some order
      → order ≡ then_with (verdict_value key v) (value key stack)
  follow-value fuel stack (Verdict.push steps) order next ok hs h =
      next (steps ++ stack) (StepsOk-append steps stack ok hs) h ∙ value-append key steps stack
  follow-value fuel stack (Verdict.stop Ordering.eq) order next ok hs h = elim ok [ ]
  follow-value fuel stack (Verdict.stop Ordering.lt) order next ok hs h = sym (some_injective h)
  follow-value fuel stack (Verdict.stop Ordering.gt) order next ok hs h = sym (some_injective h)

  by_key_refl : (a : Cell) → by_key key a a ≡ Ordering.eq
  unfolding cmp_bytes
  by_key_refl a = sym (ap (λ k. cmp_bytes k k) (append-nil (key a))) ∙ cmp_bytes_refl (key a) [] []

  loop-value : (fuel : ℕ) (order : Ordering) → Gives fuel order
  unfolding compare_loop
  loop-value fuel order [] hs h = sym (some_injective h)
  loop-value zero order (step ∷ stack) hs h = cc
  loop-value (suc fuel) order (Step.done Ordering.eq ∷ stack) hs h =
      loop-value fuel order stack hs h
  loop-value (suc fuel) order (Step.done Ordering.lt ∷ stack) hs h = sym (some_injective h)
  loop-value (suc fuel) order (Step.done Ordering.gt ∷ stack) hs h = sym (some_injective h)
  loop-value (suc fuel) order (Step.terms a b ∷ stack) hs h = elim (Bool-cases (a == b)) [
    | inl same ↦
        loop-value fuel order stack hs.1 (subst (λ c. branch c ≡ some order) same h)
        ∙ ap (λ o. then_with o (value key stack))
            (sym (
              subst (λ c. by_key key a c ≡ Ordering.eq) ((int_eqb_iff a b).0 same) (by_key_refl a)))
    | inr other ↦
        follow-value fuel stack (verdict a b (resolve a) (resolve b)) order (loop-value fuel order)
          (VerdictOk-verdict resolve a b (resolve a) (resolve b) typed refl refl) hs.1
          (subst (λ c. branch c ≡ some order) other h)
        ∙ ap (λ o. then_with o (value key stack))
            (sym (by_key-verdict resolve key acyclic typed keys a b hs.0.0 hs.0.1))
  ]
    where
      branch : Bool → Option Ordering
      branch true = compare_loop resolve fuel stack
      branch false = follow (compare_loop resolve fuel) stack (verdict a b (resolve a) (resolve b))

  -- Over a dictionary whose terms name only terms of smaller ids, with well-typed `i64` arguments that
  -- hold no NaN, fewer than 2^32 of them, and with types that functor and arity fix, and over the keys
  -- that `atom_key` and `term_key` give its cells: the comparison of two `i64` cells ends with some
  -- fuel, and with that or any more its result is the byte order of the two keys.
  pub compare-keys :
      (a b : Cell)
      → IsI64 a
      → IsI64 b
      → (fuel : ℕ) × ((more : ℕ)
          → compare resolve (fuel + more) a b ≡ some (cmp_bytes (key a) (key b)))
  unfolding compare
  compare-keys a b ha hb =
      let (order, fuel, out) = compare_ends resolve acyclic a b in
      (
        fuel,
        λ more.
            out more
            ∙ ap some (
                loop-value (fuel + more) order (Step.terms a b ∷ []) ((ha, hb), tt) (out more)
                ∙ then_with_eq (by_key key a b)),
      )
