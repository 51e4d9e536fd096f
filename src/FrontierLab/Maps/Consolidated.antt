-- ===== src/FrontierLab/Maps/Consolidated.antt =====
-- The consolidation of a frontier's changes is their sum for every relation and row.
use Prim.Native.Nat.{compare, Ordering}
use sqlite_ivm.Base.{
  ℤ, pos, ◌≡◌, refl, sym, ap, subst, ◌∙◌, inl, inr, ◌&&◌, Bool-cases, Option, none, some, List, [],
  ◌∷◌, All, ◌==◌, nat_eq, int_eq, int_eqb_iff, list_eq, list_eqb_iff, nat_eqb_iff, lookup,
  wrapping_add, if◌then◌else◌,
}
use sqlite_ivm.Ir.Syntax.{Row}
use sqlite_ivm.FrontierLab.Types.{RelId, Sign, SourceChange, weight}
use sqlite_ivm.FrontierLab.Storage.{Counts}
use sqlite_ivm.FrontierLab.Journal.{or_empty}
use sqlite_ivm.FrontierLab.Maps.{
  nonzero, cmp_row, placed, place, update_btree, add_weight, accumulate_btree, Net, add_change,
  consolidate_from,
}
use sqlite_ivm.FrontierLab.Maps.Sorted.{nat_IsOrder, row_IsOrder, IsSorted}
use sqlite_ivm.FrontierLab.Maps.Update.{lookup-update_btree, IsSorted-update_btree}

-- What is kept for a row of a relation.
abbrev pub entry_of : Net → RelId → Row → Option ℤ
entry_of net id row = lookup row (or_empty (lookup id net))

-- The signs of the changes of a row of a relation, added up in order.
abbrev pub sum_of_signs : RelId → Row → ℤ → List SourceChange → ℤ
sum_of_signs id row sum [] = sum
sum_of_signs id row sum (change ∷ changes) =
    sum_of_signs id row
      (if (change.relation == id) && (change.row == row)
        then wrapping_add sum (weight change.sign)
        else sum)
      changes

nonzero_sign : (sign : Sign) → nonzero (weight sign) ≡ nonzero (wrapping_add (pos 0) (weight sign))
unfolding wrapping_add
nonzero_sign Sign.plus = refl
nonzero_sign Sign.minus = refl

add_weight-nonzero :
    (a : ℤ) (sign : Sign)
    → add_weight (weight sign) (nonzero a) ≡ nonzero (wrapping_add a (weight sign))
add_weight-nonzero a sign = elim (Bool-cases (a == pos 0)) [
  | inr other ↦ rw other refl
  | inl zero ↦ rw zero (
      subst (λ b. nonzero (weight sign) ≡ nonzero (wrapping_add b (weight sign)))
        (sym ((int_eqb_iff a (pos 0)).0 zero)) (nonzero_sign sign))
]

module _ {K V : Type 0} (cmp : K → K → Ordering) (P : V → Type 0)
    (change : Option V → Option V) where
  All-placed :
      (key : K) (value : Option V) (m : List (K × V))
      → ((v : V) → value ≡ some v → P v)
      → All (λ entry. P entry.1) m
      → All (λ entry. P entry.1) (placed cmp change key value m)
  All-placed key none m new h = h
  All-placed key (some v) m new h = (new v refl, h)

  All-update_btree :
      (key : K) (m : List (K × V))
      → ((v : V) → change none ≡ some v → P v)
      → ((v w : V) → P v → change (some v) ≡ some w → P w)
      → All (λ entry. P entry.1) m
      → All (λ entry. P entry.1) (update_btree cmp change key m)
  unfolding update_btree
  All-update_btree key [] new old h = All-placed key (change none) [] new tt
  All-update_btree key ((k, v) ∷ m) new old (first, rest) =
      go (All-update_btree key m new old rest) (cmp key k)
    where
      go :
          All (λ entry. P entry.1) (update_btree cmp change key m)
          → (c : Ordering)
          → All (λ entry. P entry.1) (place cmp change c key k v m (update_btree cmp change key m))
      go below Ordering.lt = All-placed key (change none) ((k, v) ∷ m) new (first, rest)
      go below Ordering.eq = All-placed k (change (some v)) m (λ w. old v w first) rest
      go below Ordering.gt = (first, below)

-- The maps of a net, in order.
abbrev pub IsSortedNet : Net → Type 0
IsSortedNet net =
    IsSorted compare nat_IsOrder net × All (λ entry. IsSorted cmp_row row_IsOrder entry.1) net

IsSorted-lookup :
    (id : RelId) (net : Net)
    → All (λ entry. IsSorted cmp_row row_IsOrder entry.1) net
    → IsSorted cmp_row row_IsOrder (or_empty (lookup id net))
unfolding lookup
IsSorted-lookup id [] h = tt
IsSorted-lookup id ((k, m) ∷ net) h = elim (Bool-cases (k == id)) [
  | inl same ↦ rw same h.0
  | inr other ↦ rw other (IsSorted-lookup id net h.1)
]

add_change_eq :
    (change : SourceChange) (o : Option Counts)
    → add_change change o ≡ some (accumulate_btree (or_empty o) change.row (weight change.sign))
add_change_eq change none = refl
add_change_eq change (some net) = refl

module _ (change : SourceChange) (net : Net) (sorted : IsSortedNet net) where
  abbrev next_net : Net
  next_net = update_btree compare (add_change change) change.relation net

  next_net-IsSortedNet : IsSortedNet next_net
  unfolding accumulate_btree
  next_net-IsSortedNet = (
    IsSorted-update_btree compare nat_IsOrder (add_change change) change.relation net sorted.0,
    All-update_btree compare (λ m. IsSorted cmp_row row_IsOrder m) (add_change change)
        change.relation net
        (λ v h.
          subst (λ m. IsSorted cmp_row row_IsOrder m) (some_eq h)
            (IsSorted-update_btree cmp_row row_IsOrder (add_weight (weight change.sign)) change.row
              [] tt))
        (λ v w old h.
          subst (λ m. IsSorted cmp_row row_IsOrder m) (some_eq h)
            (IsSorted-update_btree cmp_row row_IsOrder (add_weight (weight change.sign)) change.row
              v old))
        sorted.1,
  )
    where
      some_eq : {a b : Counts} → some a ≡ some b → a ≡ b
      some_eq e = cc

  entry_of-next_net :
      (id : RelId) (row : Row)
      → entry_of next_net id row ≡ (
          if (change.relation == id) && (change.row == row)
          then add_weight (weight change.sign) (entry_of net change.relation change.row)
          else entry_of net id row)
  unfolding accumulate_btree
  entry_of-next_net id row =
      ap (λ o. lookup row (or_empty o))
        (lookup-update_btree compare nat_IsOrder (add_change change) change.relation id net
          sorted.0)
      ∙ elim (Bool-cases (change.relation == id)) [
        | inr other ↦ rw other refl
        | inl same ↦ rw same (
            ap (λ o. lookup row (or_empty o)) (add_change_eq change (lookup change.relation net))
            ∙ lookup-update_btree cmp_row row_IsOrder (add_weight (weight change.sign)) change.row
                row (or_empty (lookup change.relation net))
                (IsSorted-lookup change.relation net sorted.1)
            ∙ ap
                (λ i.
                  if change.row == row
                  then add_weight (weight change.sign) (entry_of net change.relation change.row)
                  else lookup row (or_empty (lookup i net)))
                ((nat_eqb_iff change.relation id).0 same))
      ]

from_sums :
    (net : Net) (changes : List SourceChange) (sums : RelId → Row → ℤ)
    → IsSortedNet net
    → ((id : RelId) (row : Row) → entry_of net id row ≡ nonzero (sums id row))
    → (id : RelId) (row : Row)
    → entry_of (consolidate_from net changes) id row
      ≡ nonzero (sum_of_signs id row (sums id row) changes)
unfolding consolidate_from
from_sums net [] sums sorted h id row = h id row
from_sums net (change ∷ changes) sums sorted h id row =
    from_sums (next_net change net sorted) changes
      (λ i r.
        if (change.relation == i) && (change.row == r)
        then wrapping_add (sums i r) (weight change.sign)
        else sums i r)
      (next_net-IsSortedNet change net sorted)
      (λ i r. entry_of-next_net change net sorted i r ∙ added i r) id row
  where
    added :
        (i : RelId) (r : Row)
        → (if (change.relation == i) && (change.row == r)
            then add_weight (weight change.sign) (entry_of net change.relation change.row)
            else entry_of net i r)
          ≡ nonzero (
              if (change.relation == i) && (change.row == r)
              then wrapping_add (sums i r) (weight change.sign)
              else sums i r)
    added i r = elim (Bool-cases (change.relation == i)) [
      | inr other ↦ rw other (h i r)
      | inl same ↦ elim (Bool-cases (change.row == r)) [
        | inr other ↦ rw same (rw other (h i r))
        | inl here ↦ rw same (
            rw here (
              ap (add_weight (weight change.sign)) (
                ap (λ j. entry_of net j change.row) ((nat_eqb_iff change.relation i).0 same)
                ∙ ap (entry_of net i) ((list_eqb_iff change.row r).0 here)
                ∙ h i r)
              ∙ add_weight-nonzero (sums i r) change.sign))
      ]
    ]

-- Consolidation keeps, for every row of every relation, the sum of the signs of its changes, wrapping as
-- `i64` does, and keeps no entry where that sum is zero.
pub consolidate_from-sum_of_signs :
    (changes : List SourceChange) (id : RelId) (row : Row)
    → entry_of (consolidate_from [] changes) id row ≡ nonzero (sum_of_signs id row (pos 0) changes)
unfolding lookup
consolidate_from-sum_of_signs changes id row =
    from_sums [] changes (λ _ _. pos 0) (tt, tt) (λ _ _. refl) id row
