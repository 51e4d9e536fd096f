-- ===== src/FrontierLab/Source/Multiset/Net.antt =====
-- The net changes of a relation, written.
use sqlite_ivm.Base.{
  ℕ, ◌+◌, ◌-◌, ◌≤◌, ◌<◌, ◌^◌, ℤ, pos, negsuc, pos_part, neg_part, wrapping_sub, ◌≡◌, ◌≢◌, refl, sym,
  ap, subst, ◌∙◌, inl, inr, Bool-cases, none, some, [], ◌∷◌, get_elem?, All, ◌==◌, int_eq, list_eq,
  list_eqb_iff, beq-ne, lookup, if◌then◌else◌, arith,
}
use sqlite_ivm.Ir.Syntax.{Row}
use sqlite_ivm.FrontierLab.Types.{RelId}
use sqlite_ivm.FrontierLab.Storage.{Counts, Relation, Engine}
use sqlite_ivm.FrontierLab.Step.{Action, pure, ◌then◌, for_each, times}
use sqlite_ivm.FrontierLab.Source.{write_source}
use sqlite_ivm.FrontierLab.Maps.{or_zero}
use sqlite_ivm.FrontierLab.Source.Multiset.{multiplicity}
use sqlite_ivm.FrontierLab.Source.Multiset.Turns.{
  Turns, Turns-then, Turns-eq, at_row, at_row_self, at_row-at_row,
}
use sqlite_ivm.FrontierLab.Source.Multiset.Rows.{
  insert_one, remove_one, Turns-insert_times, Turns-remove_times,
}

-- A map that has no key twice.
abbrev pub IsMap : Counts → Type 0
IsMap [] = Unit
IsMap (change ∷ net) = All (λ other. change.0 ≢ other.0) net × IsMap net

-- A change that a relation has rows enough for, of an `i64` that can be negated.
abbrev pub IsCovered : Relation → Row × ℤ → Type 0
IsCovered r change =
    (neg_part change.1 ≤ multiplicity r change.0)
    × (pos_part change.1 < 2 ^ 63)
    × (neg_part change.1 < 2 ^ 63)

negated :
    (w : ℤ)
    → pos_part w < 2 ^ 63
    → neg_part w < 2 ^ 63
    → pos_part (wrapping_sub (pos 0) w) ≡ neg_part w
unfolding wrapping_sub
negated (pos n) h k = ground arith
negated (negsuc n) h k = ground arith

-- The weight of a row in a map.
abbrev pub weight_in : Counts → Row → ℤ
weight_in net row = or_zero (lookup row net)

-- What a map makes of multiplicities.
abbrev pub with_net : Counts → (Row → ℕ) → Row → ℕ
with_net net f q = f q + pos_part (weight_in net q) - neg_part (weight_in net q)

module _ (id : RelId) (change : Row × ℤ) where
  abbrev write_one : Action Unit
  write_one = times (pos_part change.1) (insert_one id change.0) then λ _.
      times (pos_part (wrapping_sub (pos 0) change.1)) (remove_one id change.0)

  Turns-write_one :
      (e : Engine) (r : Relation)
      → get_elem? e.relations id ≡ some r
      → IsCovered r change
      → Turns id write_one e (
          at_row change.0
            (multiplicity r change.0 + pos_part change.1 - neg_part change.1)
            (multiplicity r))
  Turns-write_one e r at (enough, small, negative) =
      Turns-then id (times (pos_part change.1) (insert_one id change.0)) _ e
        (at_row change.0 (pos_part change.1 + multiplicity r change.0) (multiplicity r)) _
        (Turns-insert_times id change.0 (pos_part change.1) e r at)
        (λ s found counts.
          let size : multiplicity s change.0 ≡ pos_part change.1 + multiplicity r change.0 =
            counts change.0 ∙ at_row_self change.0 _ (multiplicity r) in
          let count = negated change.1 small negative in
          Turns-eq id _ _ _ _
            (λ q.
              at_row-at_row change.0 (pos_part change.1 + multiplicity r change.0)
                (multiplicity s change.0 - pos_part (wrapping_sub (pos 0) change.1))
                (multiplicity r) (multiplicity s) q counts
              ∙ ap (λ k. at_row change.0 k (multiplicity r) q) (omega (arith, size, count)))
            (Turns-remove_times id change.0 (pos_part (wrapping_sub (pos 0) change.1)) _ s found
              (omega (arith, size, count, enough))))

pub lookup-none :
    (row : Row) (net : Counts) → All (λ other. row ≢ other.0) net → lookup row net ≡ none
unfolding lookup
lookup-none row [] h = refl
lookup-none row ((key, w) ∷ net) h =
    rw (beq-ne key row (λ e. h.0 (sym e))) (lookup-none row net h.1)

at_row_ne : (row q : Row) (n : ℕ) (f : Row → ℕ) → row ≢ q → at_row row n f q ≡ f q
at_row_ne row q n f h = rw (beq-ne row q h) refl

with_net_cons :
    (change : Row × ℤ) (net : Counts) (f g : Row → ℕ) (q : Row)
    → All (λ other. change.0 ≢ other.0) net
    → ((x : Row) → g x ≡ at_row change.0 (f change.0 + pos_part change.1 - neg_part change.1) f x)
    → with_net net g q ≡ with_net (change ∷ net) f q
unfolding lookup
with_net_cons change net f g q fresh h = elim (Bool-cases (change.0 == q)) [
  | inl same ↦
      let e : change.0 ≡ q = (list_eqb_iff change.0 q).0 same in
      let gone : lookup q net ≡ none =
        subst (λ x. lookup x net ≡ none) e (lookup-none change.0 net fresh) in
      let here : g q ≡ f q + pos_part change.1 - neg_part change.1 =
        subst (λ x. g x ≡ f x + pos_part change.1 - neg_part change.1) e
          (h change.0 ∙ at_row_self change.0 _ f) in
      rw gone (rw same (omega (arith, here)))
  | inr other ↦
      rw other (
        ap (λ k. k + pos_part (weight_in net q) - neg_part (weight_in net q)) (h q ∙ rw other refl))
]

-- Writing the net changes of a relation, each row once and each removal covered by rows that are there,
-- with weights whose negation is an `i64`, neither fails nor panics: it leaves every row with the
-- multiplicity it had plus its weight.
pub write_source-multiplicity :
    (id : RelId) (net : Counts) (e : Engine) (r : Relation)
    → get_elem? e.relations id ≡ some r
    → IsMap net
    → All (IsCovered r) net
    → Turns id (write_source id net) e (with_net net (multiplicity r))
unfolding write_source for_each pure lookup
write_source-multiplicity id [] e r at once enough = record {
  returns = refl;
  relation = r;
  found = at;
  counts = λ q. unchanged (multiplicity r q);
}
  where
    unchanged : (n : ℕ) → n ≡ n + 0 - 0
    unchanged n = omega arith
write_source-multiplicity id (change ∷ net) e r at (fresh, once) (first, enough) =
    Turns-then id (write_one id change) (λ _. write_source id net) e
      (at_row change.0 (multiplicity r change.0 + pos_part change.1 - neg_part change.1)
        (multiplicity r))
      _ (Turns-write_one id change e r at first)
      (λ s found counts.
        Turns-eq id _ _ _ _
          (λ q. with_net_cons change net (multiplicity r) (multiplicity s) q fresh counts)
          (write_source-multiplicity id net (write_one id change e).0 s found once
            (still s counts net fresh enough)))
  where
    still :
        (s : Relation)
        → ((q : Row)
            → multiplicity s q
              ≡ at_row change.0
                  (multiplicity r change.0 + pos_part change.1 - neg_part change.1)
                  (multiplicity r)
                  q)
        → (rest : Counts) → All (λ other. change.0 ≢ other.0) rest
        → All (IsCovered r) rest
        → All (IsCovered s) rest
    still s counts [] fresh enough = tt
    still s counts (other ∷ rest) fresh enough =
        let same : multiplicity s other.0 ≡ multiplicity r other.0 =
          counts other.0 ∙ at_row_ne change.0 other.0 _ (multiplicity r) fresh.0 in
        (
          (omega (arith, same, enough.0.0), enough.0.1, enough.0.2),
          still s counts rest fresh.1 enough.1,
        )
