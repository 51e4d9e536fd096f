-- ===== src/Terms/Slots.antt =====
-- `Interner::put` on the vec of slots, and reading one.
use sqlite_ivm.Base.{
  ℕ, zero, suc, ◌+◌, ◌-◌, ◌≤◌, ◌<◌, ◌≡◌, refl, ◌∙◌, ◌==◌, beq-ne, nat_eq, true, ◌⊎◌, Option, none,
  some, List, [], ◌∷◌, ◌++◌, length, get_elem?, set, replicate, length-append, length-replicate,
  length-set, ◌>>=◌, leb, inl, inr, Bool-cases, arith, if◌then◌else◌,
}

module _ {ℓ} {A : Type ℓ} where
  abbrev pub get_slot : List (Option A) → ℕ → Option A
  get_slot xs n = get_elem? xs n >>= λ slot. slot

  -- `if by_id.len() <= slot { by_id.resize(slot + 1, None) }; by_id[slot] = Some(term)`
  unfoldable pub put_slot : List (Option A) → ℕ → A → List (Option A)
  put_slot xs n a =
      set (if leb (length xs) n then xs ++ replicate (n + 1 - length xs) none else xs) n (some a)

  pub get_slot-lt : (xs : List (Option A)) (j : ℕ) {a : A} → get_slot xs j ≡ some a → j < length xs
  get_slot-lt [] j h = cc
  get_slot-lt (x ∷ xs) zero h = omega arith
  get_slot-lt (x ∷ xs) (suc j) h = omega (arith, get_slot-lt xs j h)

  get_slot-set :
      (xs : List (Option A)) (n j : ℕ) (a : A)
      → n < length xs
      → get_slot (set xs n (some a)) j ≡ (if n == j then some a else get_slot xs j)
  get_slot-set [] n j a h = elim h [ ]
  get_slot-set (x ∷ xs) zero zero a h = refl
  get_slot-set (x ∷ xs) zero (suc j) a h = ground arith
  get_slot-set (x ∷ xs) (suc n) zero a h = ground arith
  get_slot-set (x ∷ xs) (suc n) (suc j) a h = ground (arith, get_slot-set xs n j a)

  get_slot-replicate : (n j : ℕ) → get_slot (replicate n none) j ≡ none
  get_slot-replicate zero j = refl
  get_slot-replicate (suc n) zero = refl
  get_slot-replicate (suc n) (suc j) = get_slot-replicate n j

  get_slot-resize :
      (xs : List (Option A)) (n j : ℕ) → get_slot (xs ++ replicate n none) j ≡ get_slot xs j
  get_slot-resize [] n j = get_slot-replicate n j
  get_slot-resize (x ∷ xs) n zero = refl
  get_slot-resize (x ∷ xs) n (suc j) = get_slot-resize xs n j

  pub get_slot-put_slot :
      (xs : List (Option A)) (n j : ℕ) (a : A)
      → get_slot (put_slot xs n a) j ≡ (if n == j then some a else get_slot xs j)
  unfolding put_slot
  get_slot-put_slot xs n j a = elim (Bool-cases (leb (length xs) n)) [
    | inl grown ↦ rw grown (
        get_slot-set (xs ++ replicate (n + 1 - length xs) none) n j a long_enough
        ∙ rw get_slot-resize)
    | inr held ↦ rw held (get_slot-set xs n j a (ground arith))
  ]
    where
      long_enough : n < length (xs ++ replicate (n + 1 - length xs) none)
      long_enough =
          rw length-append
            (omega (arith, length-replicate (n + 1 - length xs) (let o : Option A = none in o)))

  -- A slot at the end of the vec lengthens it by the slots up to it.
  pub length-put_slot :
      (xs : List (Option A)) (n : ℕ) (a : A) → length xs ≤ n → length (put_slot xs n a) ≡ n + 1
  unfolding put_slot
  length-put_slot xs n a h =
      rw (length-set, grown, length-append)
        (omega (arith, length-replicate (n + 1 - length xs) (let o : Option A = none in o)))
    where
      grown : leb (length xs) n ≡ true
      grown = ground arith

module _ {ℓ} {A : Type ℓ} (xs : List (Option A)) (n : ℕ) (a : A) where
  pub get_slot-put_slot_old :
      (j : ℕ) {b : A}
      → length xs ≤ n
      → get_slot xs j ≡ some b
      → get_slot (put_slot xs n a) j ≡ some b
  get_slot-put_slot_old j h old =
      let small : j < length xs = get_slot-lt xs j old in
      rw (get_slot-put_slot, beq-ne n j (λ e. absurd (omega arith))) old

  pub get_slot-put_slot_cases :
      (j : ℕ) {b : A}
      → get_slot (put_slot xs n a) j ≡ some b
      → (n ≡ j) × (a ≡ b) ⊎ (get_slot xs j ≡ some b)
  get_slot-put_slot_cases j h = ground (arith, get_slot-put_slot xs n j a)
