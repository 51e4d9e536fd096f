-- ===== src/Base/Equality.antt =====
-- Equality tests by instances, and the association lists that stand for hash maps.
use Prim.Native.Nat.{ℕ}
use mathlib.Core.Path.{◌≡◌, refl, ap}
use mathlib.Core.Logic.{◌↔◌, ◌≢◌, ◌⊎◌}
use mathlib.Core.Bool.{Bool, true, false, ◌&&◌, ◌||◌}
use mathlib.Core.Option.{Option, none, some}
use mathlib.Core.List.{List, [], ◌∷◌}
use native.Mathlib.Omega.{arith}
use sqlite_ivm.Base.Tests.{nat_eqb, nat_eqb_iff, if◌then◌else◌}
use sqlite_ivm.Base.Int.{ℤ, pos, negsuc}

-- A type whose values can be told apart: the test, and that it answers for equality.
pub record Eq {ℓ} (V : Type ℓ) : Type ℓ where
  pub test : V → V → Bool
  pub test_iff : (x y : V) → (test x y ≡ true) ↔ (x ≡ y)

module _ {ℓ} {V : Type ℓ} ⦃e : Eq V⦄ where
  infix 50 ◌==◌
  abbrev pub ◌==◌ : V → V → Bool
  x == y = e.test x y

abbrev pub beq_of {ℓ} : {A : Type ℓ} → Discrete A → A → A → Bool
beq_of d a b = elim (d a b) [ yes h ↦ true | no h ↦ false ]

pub beq_of_iff {ℓ} : {A : Type ℓ} (d : Discrete A) (a b : A) → (beq_of d a b ≡ true) ↔ (a ≡ b)
beq_of_iff d a b =
    elim (d a b) as (λ t. (elim t [ yes h ↦ true | no h ↦ false ] ≡ true) ↔ (a ≡ b)) [
      | yes h ↦ (λ _. h, λ _. refl)
      | no h ↦ (λ e. cc, λ e. absurd (h e))
    ]

-- The test of a type with decidable equality.
abbrev pub eq_of {ℓ} : {A : Type ℓ} → Discrete A → Eq A
eq_of d = record { test = beq_of d; test_iff = beq_of_iff d }

instance abbrev pub nat_eq : Eq ℕ
nat_eq = record { test = nat_eqb; test_iff = nat_eqb_iff }

abbrev pub int_eqb : ℤ → ℤ → Bool
int_eqb (pos a) (pos b) = nat_eqb a b
int_eqb (negsuc a) (negsuc b) = nat_eqb a b
int_eqb (pos a) (negsuc b) = false
int_eqb (negsuc a) (pos b) = false

pub int_eqb_iff : (a b : ℤ) → (int_eqb a b ≡ true) ↔ (a ≡ b)
int_eqb_iff a b = ground arith

instance abbrev pub int_eq : Eq ℤ
int_eq = record { test = int_eqb; test_iff = int_eqb_iff }

module _ {ℓ} {A : Type ℓ} ⦃e : Eq A⦄ where
  abbrev pub list_eqb : List A → List A → Bool
  list_eqb [] [] = true
  list_eqb [] (b ∷ bs) = false
  list_eqb (a ∷ xs) [] = false
  list_eqb (a ∷ xs) (b ∷ bs) = (a == b) && list_eqb xs bs

  pub list_eqb_iff : (xs ys : List A) → (list_eqb xs ys ≡ true) ↔ (xs ≡ ys)
  list_eqb_iff [] [] = (λ _. refl, λ _. refl)
  list_eqb_iff [] (b ∷ bs) = ground arith
  list_eqb_iff (a ∷ xs) [] = ground arith
  list_eqb_iff (a ∷ xs) (b ∷ bs) = ground (arith, e.test_iff a b, list_eqb_iff xs bs)

  instance abbrev pub list_eq : Eq (List A)
  list_eq = record { test = list_eqb; test_iff = list_eqb_iff }

module _ {ℓ κ} {A : Type ℓ} {B : Type κ} ⦃e : Eq A⦄ ⦃f : Eq B⦄ where
  abbrev pub pair_eqb : A × B → A × B → Bool
  pair_eqb (a, b) (c, d) = (a == c) && (b == d)

  pub pair_eqb_iff : (p q : A × B) → (pair_eqb p q ≡ true) ↔ (p ≡ q)
  pair_eqb_iff (a, b) (c, d) = ground (arith, e.test_iff a c, f.test_iff b d)

  instance abbrev pub pair_eq : Eq (A × B)
  pair_eq = record { test = pair_eqb; test_iff = pair_eqb_iff }

module _ {ℓ} {A : Type ℓ} ⦃e : Eq A⦄ where
  pub beq_refl : (a : A) → (a == a) ≡ true
  beq_refl a = (e.test_iff a a).1 refl

  pub beq-ne : (a b : A) → a ≢ b → (a == b) ≡ false
  beq-ne a b h = ground (arith, e.test_iff a b)

  -- `Vec::contains` and `HashSet::contains`
  abbrev pub contains : List A → A → Bool
  contains [] wanted = false
  contains (item ∷ items) wanted = (wanted == item) || contains items wanted

-- A map keeps one entry for a key: `insert` replaces it.
module _ {ℓ κ} {K : Type ℓ} {V : Type κ} ⦃e : Eq K⦄ where
  unfoldable pub lookup : K → List (K × V) → Option V
  lookup wanted [] = none
  lookup wanted ((key, value) ∷ entries) =
      if key == wanted then some value else lookup wanted entries

  unfoldable pub insert : K → V → List (K × V) → List (K × V)
  insert new value [] = (new, value) ∷ []
  insert new value ((key, old) ∷ entries) =
      let rest = insert new value entries in
      if key == new then (new, value) ∷ entries else (key, old) ∷ rest

  unfoldable pub remove : K → List (K × V) → List (K × V)
  remove wanted [] = []
  remove wanted ((key, value) ∷ entries) =
      let rest = remove wanted entries in if key == wanted then rest else (key, value) ∷ rest

  pub lookup-remove :
      (old wanted : K) (entries : List (K × V))
      → lookup wanted (remove old entries) ≡ (if old == wanted then none else lookup wanted entries)
  unfolding remove lookup
  lookup-remove old wanted [] = ground arith
  lookup-remove old wanted ((key, value) ∷ entries) = ground (
    e.test_iff key old,
    e.test_iff key wanted,
    e.test_iff old wanted,
    arith,
    lookup-remove old wanted entries,
  )

  pub lookup-insert :
      (new wanted : K) (value : V) (entries : List (K × V))
      → lookup wanted (insert new value entries)
        ≡ (if new == wanted then some value else lookup wanted entries)
  unfolding insert lookup
  lookup-insert new wanted value [] = refl
  lookup-insert new wanted value ((key, old) ∷ entries) = ground (
    e.test_iff key new,
    e.test_iff key wanted,
    e.test_iff new wanted,
    arith,
    lookup-insert new wanted value entries,
  )

  pub lookup-insert_self :
      (key : K) (value : V) (entries : List (K × V))
      → lookup key (insert key value entries) ≡ some value
  lookup-insert_self key value entries = simp (lookup-insert, beq_refl)

  pub lookup-insert_ne :
      (key other : K) (value : V) (entries : List (K × V))
      → key ≢ other
      → lookup other (insert key value entries) ≡ lookup other entries
  lookup-insert_ne key other value entries differ = rw (lookup-insert, beq-ne key other differ)

  pub lookup-insert_cases :
      (k j : K) (v : V) (m : List (K × V)) {w : V}
      → lookup j (insert k v m) ≡ some w
      → (k ≡ j) × (v ≡ w) ⊎ (lookup j m ≡ some w)
  lookup-insert_cases k j v m h = ground (arith, lookup-insert k j v m, e.test_iff k j)

  -- A new key hides none.
  pub lookup-insert_old :
      (k j : K) (v : V) (m : List (K × V)) {w : V}
      → lookup k m ≡ none
      → lookup j m ≡ some w
      → lookup j (insert k v m) ≡ some w
  lookup-insert_old k j v m new old =
      rw (lookup-insert, beq-ne k j (λ same. cc (ap (λ i. lookup i m) same))) old
