-- ===== src/FrontierLab/Journal/View/Lists.antt =====
-- A write to one element of a list, seen through a function of the elements.
use mathlib.Core.Option
use sqlite_ivm.Base.{
  ℕ, zero, suc, ◌≡◌, refl, ap, subst, ◌∙◌, Option, none, some, List, [], ◌∷◌, get_elem?, map, ◌>>=◌,
  >>=-eq-some, some_injective,
}
use sqlite_ivm.FrontierLab.Journal.{modify_at}

pub map-bind {ℓ} :
    {A B C D : Type ℓ} (m : Option A) (v : A → B) (w : C → D) (k : A → C) (l : B → D)
    → ((a : A) → w (k a) ≡ l (v a))
    → Option.map w (m >>= λ a. some (k a)) ≡ (Option.map v m >>= λ b. some (l b))
map-bind none v w k l h = refl
map-bind (some a) v w k l h = ap some (h a)

module _ {ℓ} {A B : Type ℓ} (v : A → B) (f : A → Option A) (g : B → Option B) where
  -- Writes that agree elementwise agree on the list.
  pub map-modify_at :
      ((a : A) → Option.map v (f a) ≡ g (v a))
      → (xs : List A) (i : ℕ) → Option.map (map v) (modify_at f xs i) ≡ modify_at g (map v xs) i
  map-modify_at h [] i = refl
  map-modify_at h (x ∷ xs) zero =
      map-bind (f x) v (map v) (λ y. y ∷ xs) (λ y. y ∷ map v xs) (λ y. refl)
      ∙ ap (λ m. m >>= λ y. some (y ∷ map v xs)) (h x)
  map-modify_at h (x ∷ xs) (suc i) =
      map-bind (modify_at f xs i) (map v) (map v) (λ ys. x ∷ ys) (λ ys. v x ∷ ys) (λ ys. refl)
      ∙ ap (λ m. m >>= λ ys. some (v x ∷ ys)) (map-modify_at h xs i)

  -- A write that another undoes at the element is undone on the list.
  pub modify_at_back :
      (xs : List A) (i : ℕ) (ys : List A)
      → ((x y : A) → get_elem? xs i ≡ some x → f x ≡ some y → g (v y) ≡ some (v x))
      → modify_at f xs i ≡ some ys
      → modify_at g (map v ys) i ≡ some (map v xs)
  modify_at_back [] i ys undo h = cc
  modify_at_back (x ∷ xs) zero ys undo h =
      let (y, changed, whole) = >>=-eq-some (f x) (λ z. some (z ∷ xs)) h in
      subst (λ zs. modify_at g (map v zs) 0 ≡ some (v x ∷ map v xs)) (some_injective whole)
        (ap (λ m. m >>= λ z. some (z ∷ map v xs)) (undo x y refl changed))
  modify_at_back (x ∷ xs) (suc i) ys undo h =
      let (zs, changed, whole) = >>=-eq-some (modify_at f xs i) (λ zs. some (x ∷ zs)) h in
      subst (λ zs. modify_at g (map v zs) (suc i) ≡ some (v x ∷ map v xs)) (some_injective whole)
        (ap (λ m. m >>= λ z. some (v x ∷ z)) (modify_at_back xs i zs undo changed))
