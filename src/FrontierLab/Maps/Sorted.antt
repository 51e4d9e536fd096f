-- ===== src/FrontierLab/Maps/Sorted.antt =====
-- A `BTreeMap` as a list in the order of its keys: what an update leaves under each key.
use Prim.Native.Nat.{compare, Ordering}
use sqlite_ivm.Base.{
  ℤ, ◌≡◌, ◌≢◌, ◌⊎◌, refl, sym, ap, subst, ◌∙◌, inl, inr, Bool-cases, Option, none, some, List, [],
  ◌∷◌, All, All-map, ◌==◌, Eq, nat_eq, int_eq, list_eq, beq-ne, lookup, cmp_ℤ, then_with,
  if◌then◌else◌, arith,
}
use sqlite_ivm.Ir.Syntax.{Row}
use sqlite_ivm.FrontierLab.Maps.{cmp_row, placed}

-- A strict order of keys.
pub record IsOrder {K : Type 0} (cmp : K → K → Ordering) : Type 0 where
  pub same : (a b : K) → cmp a b ≡ Ordering.eq → a ≡ b
  pub apart : (a b : K) → cmp a b ≡ Ordering.lt → a ≢ b
  pub swap : (a b : K) → cmp a b ≡ Ordering.gt → cmp b a ≡ Ordering.lt
  pub trans : (a b c : K) → cmp a b ≡ Ordering.lt → cmp b c ≡ Ordering.lt → cmp a c ≡ Ordering.lt

pub nat_IsOrder : IsOrder compare
nat_IsOrder = record {
  same = λ a b h. ground arith;
  apart = λ a b h. ground arith;
  swap = λ a b h. ground arith;
  trans = λ a b c h k. ground arith;
}

then_with_lt :
    (a b : Ordering)
    → then_with a b ≡ Ordering.lt
    → (a ≡ Ordering.lt) ⊎ ((a ≡ Ordering.eq) × (b ≡ Ordering.lt))
then_with_lt Ordering.lt b h = inl refl
then_with_lt Ordering.eq b h = inr (refl, h)
then_with_lt Ordering.gt b h = cc

cmp_ℤ_eq : (a b : ℤ) → cmp_ℤ a b ≡ Ordering.eq → a ≡ b
cmp_ℤ_eq a b h = ground arith

cmp_ℤ_trans :
    (a b c : ℤ) → cmp_ℤ a b ≡ Ordering.lt → cmp_ℤ b c ≡ Ordering.lt → cmp_ℤ a c ≡ Ordering.lt
cmp_ℤ_trans a b c h k = ground arith

then_with_eq :
    (a b : Ordering) → then_with a b ≡ Ordering.eq → (a ≡ Ordering.eq) × (b ≡ Ordering.eq)
then_with_eq Ordering.eq b h = (refl, h)
then_with_eq Ordering.lt b h = cc
then_with_eq Ordering.gt b h = cc

then_with_gt :
    (a b : Ordering)
    → then_with a b ≡ Ordering.gt
    → (a ≡ Ordering.gt) ⊎ ((a ≡ Ordering.eq) × (b ≡ Ordering.gt))
then_with_gt Ordering.gt b h = inl refl
then_with_gt Ordering.eq b h = inr (refl, h)
then_with_gt Ordering.lt b h = cc

cmp_ℤ_gt : (a b : ℤ) → cmp_ℤ a b ≡ Ordering.gt → cmp_ℤ b a ≡ Ordering.lt
cmp_ℤ_gt a b h = ground arith

cmp_ℤ_self : (a : ℤ) → cmp_ℤ a a ≡ Ordering.eq
cmp_ℤ_self a = ground arith

cmp_row_same : (a b : Row) → cmp_row a b ≡ Ordering.eq → a ≡ b
unfolding cmp_row
cmp_row_same [] [] h = refl
cmp_row_same [] (b ∷ bs) h = cc
cmp_row_same (a ∷ as_) [] h = cc
cmp_row_same (a ∷ as_) (b ∷ bs) h =
    let (head, tail) = then_with_eq (cmp_ℤ a b) (cmp_row as_ bs) h in
    ap (λ x. x ∷ as_) (cmp_ℤ_eq a b head) ∙ ap (λ xs. b ∷ xs) (cmp_row_same as_ bs tail)

cmp_row_self : (a : Row) → cmp_row a a ≡ Ordering.eq
unfolding cmp_row
cmp_row_self [] = refl
cmp_row_self (a ∷ as_) = rw (cmp_ℤ_self a) (cmp_row_self as_)

cmp_row_gt : (a b : Row) → cmp_row a b ≡ Ordering.gt → cmp_row b a ≡ Ordering.lt
unfolding cmp_row
cmp_row_gt [] [] h = cc
cmp_row_gt [] (b ∷ bs) h = cc
cmp_row_gt (a ∷ as_) [] h = refl
cmp_row_gt (a ∷ as_) (b ∷ bs) h = elim (then_with_gt (cmp_ℤ a b) (cmp_row as_ bs) h) [
  | inl head ↦ ap (λ o. then_with o (cmp_row bs as_)) (cmp_ℤ_gt a b head)
  | inr (head, tail) ↦
      ap (λ x. then_with (cmp_ℤ x a) (cmp_row bs as_)) (sym (cmp_ℤ_eq a b head))
      ∙ ap (λ o. then_with o (cmp_row bs as_)) (cmp_ℤ_self a)
      ∙ cmp_row_gt as_ bs tail
]

cmp_row_trans :
    (a b c : Row)
    → cmp_row a b ≡ Ordering.lt
    → cmp_row b c ≡ Ordering.lt
    → cmp_row a c ≡ Ordering.lt
unfolding cmp_row
cmp_row_trans [] [] c h k = cc
cmp_row_trans [] (b ∷ bs) [] h k = cc
cmp_row_trans [] (b ∷ bs) (c ∷ cs) h k = refl
cmp_row_trans (a ∷ as_) [] c h k = cc
cmp_row_trans (a ∷ as_) (b ∷ bs) [] h k = cc
cmp_row_trans (a ∷ as_) (b ∷ bs) (c ∷ cs) h k = elim (then_with_lt (cmp_ℤ a b) (cmp_row as_ bs) h) [
  | inl ab ↦ elim (then_with_lt (cmp_ℤ b c) (cmp_row bs cs) k) [
    | inl bc ↦ ap (λ o. then_with o (cmp_row as_ cs)) (cmp_ℤ_trans a b c ab bc)
    | inr (bc, _) ↦
        ap (λ x. then_with (cmp_ℤ a x) (cmp_row as_ cs)) (sym (cmp_ℤ_eq b c bc))
        ∙ ap (λ o. then_with o (cmp_row as_ cs)) ab
  ]
  | inr (ab, tail) ↦
      ap (λ x. then_with (cmp_ℤ x c) (cmp_row as_ cs)) (cmp_ℤ_eq a b ab)
      ∙ elim (then_with_lt (cmp_ℤ b c) (cmp_row bs cs) k) [
        | inl bc ↦ ap (λ o. then_with o (cmp_row as_ cs)) bc
        | inr (bc, rest) ↦
            ap (λ o. then_with o (cmp_row as_ cs)) bc ∙ cmp_row_trans as_ bs cs tail rest
      ]
]

pub row_IsOrder : IsOrder cmp_row
row_IsOrder = record {
  same = cmp_row_same;
  apart = λ a b h same. differ (sym (cmp_row_self a) ∙ ap (cmp_row a) same ∙ h);
  swap = cmp_row_gt;
  trans = cmp_row_trans;
}
  where
    differ : Ordering.eq ≡ Ordering.lt → ⊥
    differ e = cc

module _ {K V : Type 0} ⦃e : Eq K⦄ (cmp : K → K → Ordering) (o : IsOrder cmp) where
  abbrev pub IsAbove : K → List (K × V) → Type 0
  IsAbove key m = All (λ entry. cmp key entry.0 ≡ Ordering.lt) m

  abbrev pub IsSorted : List (K × V) → Type 0
  IsSorted [] = Unit
  IsSorted (entry ∷ m) = IsAbove entry.0 m × IsSorted m

  pub lookup-IsAbove : (key : K) (m : List (K × V)) → IsAbove key m → lookup key m ≡ none
  unfolding lookup
  lookup-IsAbove key [] h = refl
  lookup-IsAbove key ((k, v) ∷ m) h =
      rw (beq-ne k key (λ same. o.apart key k h.0 (sym same))) (lookup-IsAbove key m h.1)

  pub lookup-placed :
      (key wanted : K) (value : Option V) (m : List (K × V))
      → lookup key m ≡ none
      → lookup wanted (placed cmp (λ x. x) key value m)
        ≡ (if key == wanted then value else lookup wanted m)
  unfolding lookup
  lookup-placed key wanted (some v) m h = refl
  lookup-placed key wanted none m h = elim (Bool-cases (key == wanted)) [
    | inl same ↦ rw same (subst (λ k. lookup k m ≡ none) ((e.test_iff key wanted).0 same) h)
    | inr other ↦ rw other refl
  ]

  pub IsAbove-trans :
      (a b : K) (m : List (K × V)) → cmp a b ≡ Ordering.lt → IsAbove b m → IsAbove a m
  IsAbove-trans a b m h k = All-map m (λ entry l. o.trans a b entry.0 h l) k
