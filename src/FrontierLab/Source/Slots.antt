-- ===== src/FrontierLab/Source/Slots.antt =====
-- Lists written at one index, and lists without repetition.
use sqlite_ivm.Base.{
  ℕ, zero, suc, ◌≡◌, ◌≢◌, refl, sym, ap, ◌∙◌, some, List, [], ◌∷◌, ◌++◌, get_elem?, set, All,
  get_elem?-lt, get_elem?-append_left, some_injective,
}
use sqlite_ivm.FrontierLab.Journal.{init}

module _ {ℓ} {A : Type ℓ} where
  pub get_elem?-set :
      (xs : List A) (i : ℕ) (a : A) {b : A}
      → get_elem? xs i ≡ some b
      → get_elem? (set xs i a) i ≡ some a
  get_elem?-set [] i a h = cc
  get_elem?-set (x ∷ xs) zero a h = refl
  get_elem?-set (x ∷ xs) (suc i) a h = get_elem?-set xs i a h

  pub get_elem?-set_ne :
      (xs : List A) (i j : ℕ) (a : A) → i ≢ j → get_elem? (set xs i a) j ≡ get_elem? xs j
  get_elem?-set_ne [] i j a h = refl
  get_elem?-set_ne (x ∷ xs) zero zero a h = absurd (h refl)
  get_elem?-set_ne (x ∷ xs) zero (suc j) a h = refl
  get_elem?-set_ne (x ∷ xs) (suc i) zero a h = refl
  get_elem?-set_ne (x ∷ xs) (suc i) (suc j) a h = get_elem?-set_ne xs i j a (λ e. h (ap suc e))

  -- A write and then the old value again.
  pub set-set :
      (xs : List A) (i : ℕ) (a : A) {b : A} → get_elem? xs i ≡ some b → set (set xs i a) i b ≡ xs
  set-set [] i a h = refl
  set-set (x ∷ xs) zero a h = ap (λ y. y ∷ xs) (sym (some_injective h))
  set-set (x ∷ xs) (suc i) a h = ap (λ ys. x ∷ ys) (set-set xs i a h)

  pub init-append : (xs : List A) (a : A) → init (xs ++ a ∷ []) ≡ xs
  init-append [] a = refl
  init-append (x ∷ []) a = refl
  init-append (x ∷ y ∷ xs) a = ap (λ ys. x ∷ ys) (init-append (y ∷ xs) a)

  pub get_elem?-append_some :
      (xs ys : List A) (i : ℕ) {a : A} → get_elem? xs i ≡ some a → get_elem? (xs ++ ys) i ≡ some a
  get_elem?-append_some xs ys i h = get_elem?-append_left xs ys i (get_elem?-lt xs i h) ∙ h

  abbrev pub IsDistinct : List A → Type ℓ
  IsDistinct [] = Unit
  IsDistinct (x ∷ xs) = All (λ y. x ≢ y) xs × IsDistinct xs

  pub All-both {κ μ ν} :
      {P : A → Type κ} {Q : A → Type μ} {R : A → Type ν} (xs : List A)
      → ((a : A) → P a → Q a → R a)
      → All P xs
      → All Q xs
      → All R xs
  All-both [] f p q = tt
  All-both (x ∷ xs) f p q = (f x p.0 q.0, All-both xs f p.1 q.1)
