-- ===== src/FrontierLab/Maps/Update.antt =====
-- What an update of a `BTreeMap` leaves under each key, and that the keys stay in order.
use Prim.Native.Nat.{Ordering}
use sqlite_ivm.Base.{
  ◌≡◌, ◌≢◌, refl, sym, ap, subst, ◌∙◌, inl, inr, Bool, true, false, Bool-cases, Option, none, some,
  List, [], ◌∷◌, ◌==◌, Eq, beq_refl, beq-ne, lookup, if◌then◌else◌,
}
use sqlite_ivm.FrontierLab.Maps.{placed, place, update_btree}
use sqlite_ivm.FrontierLab.Maps.Sorted.{
  IsOrder, IsAbove, IsSorted, lookup-IsAbove, lookup-placed, IsAbove-trans,
}

module _ {K V : Type 0} ⦃e : Eq K⦄ (cmp : K → K → Ordering) (o : IsOrder cmp)
    (change : Option V → Option V) where
  pub lookup-update_btree :
      (key wanted : K) (m : List (K × V))
      → IsSorted cmp o m
      → lookup wanted (update_btree cmp change key m)
        ≡ (if key == wanted then change (lookup key m) else lookup wanted m)
  unfolding update_btree lookup
  lookup-update_btree key wanted [] h = lookup-placed cmp o key wanted (change none) [] refl
  lookup-update_btree key wanted ((k, v) ∷ m) (above, sorted) =
      go (lookup-update_btree key wanted m sorted) (cmp key k) refl
    where
      old : K → Option V
      old w = if k == w then some v else lookup w m

      go :
          (lookup wanted (update_btree cmp change key m)
            ≡ (if key == wanted then change (lookup key m) else lookup wanted m))
          → (c : Ordering) → cmp key k ≡ c
          → lookup wanted (place cmp change c key k v m (update_btree cmp change key m))
            ≡ (if key == wanted then change (old key) else old wanted)
      go below Ordering.lt h =
          let gone : lookup key ((k, v) ∷ m) ≡ none =
            lookup-IsAbove cmp o key ((k, v) ∷ m) (h, IsAbove-trans cmp o key k m h above) in
          lookup-placed cmp o key wanted (change none) ((k, v) ∷ m) gone
          ∙ ap (λ x. if key == wanted then change x else old wanted) (sym gone)
      go below Ordering.eq h =
          let same : key ≡ k = o.same key k h in
          lookup-placed cmp o k wanted (change (some v)) m (lookup-IsAbove cmp o k m above)
          ∙ subst
              (λ x.
                (if k == wanted then change (some v) else lookup wanted m)
                ≡ (if x == wanted then change (old x) else old wanted))
              (sym same) (here (k == wanted) refl)
        where
          here :
              (b : Bool)
              → (k == wanted) ≡ b
              → (if b then change (some v) else lookup wanted m)
                ≡ (if b then change (old k) else (if b then some v else lookup wanted m))
          here true h = rw (beq_refl k) refl
          here false h = refl
      go below Ordering.gt h =
          let key_ne : k ≢ key = o.apart k key (o.swap key k h) in
          let passed : old key ≡ lookup key m = rw (beq-ne k key key_ne) refl in
          elim (Bool-cases (k == wanted)) [
            | inl same ↦
                let other : (key == wanted) ≡ false =
                  beq-ne key wanted (λ x. key_ne ((e.test_iff k wanted).0 same ∙ sym x)) in
                rw other (rw same refl)
            | inr different ↦
                rw different (
                  below
                  ∙ ap (λ x. if key == wanted then change x else lookup wanted m) (sym passed))
          ]

  IsAbove-placed :
      (low key : K) (value : Option V) (m : List (K × V))
      → cmp low key ≡ Ordering.lt
      → IsAbove cmp o low m
      → IsAbove cmp o low (placed cmp change key value m)
  IsAbove-placed low key none m h k = k
  IsAbove-placed low key (some v) m h k = (h, k)

  IsAbove-update_btree :
      (low key : K) (m : List (K × V))
      → cmp low key ≡ Ordering.lt
      → IsAbove cmp o low m
      → IsAbove cmp o low (update_btree cmp change key m)
  unfolding update_btree
  IsAbove-update_btree low key [] h k = IsAbove-placed low key (change none) [] h tt
  IsAbove-update_btree low key ((k, v) ∷ m) h (first, rest) =
      go (IsAbove-update_btree low key m h rest) (cmp key k)
    where
      go :
          IsAbove cmp o low (update_btree cmp change key m)
          → (c : Ordering)
          → IsAbove cmp o low (place cmp change c key k v m (update_btree cmp change key m))
      go below Ordering.lt = IsAbove-placed low key (change none) ((k, v) ∷ m) h (first, rest)
      go below Ordering.eq = IsAbove-placed low k (change (some v)) m first rest
      go below Ordering.gt = (first, below)

  IsSorted-placed :
      (key : K) (value : Option V) (m : List (K × V))
      → IsAbove cmp o key m
      → IsSorted cmp o m
      → IsSorted cmp o (placed cmp change key value m)
  IsSorted-placed key none m h k = k
  IsSorted-placed key (some v) m h k = (h, k)

  pub IsSorted-update_btree :
      (key : K) (m : List (K × V))
      → IsSorted cmp o m
      → IsSorted cmp o (update_btree cmp change key m)
  unfolding update_btree
  IsSorted-update_btree key [] h = IsSorted-placed key (change none) [] tt tt
  IsSorted-update_btree key ((k, v) ∷ m) (above, sorted) =
      go (IsSorted-update_btree key m sorted) (cmp key k) refl
    where
      go :
          IsSorted cmp o (update_btree cmp change key m)
          → (c : Ordering) → cmp key k ≡ c
          → IsSorted cmp o (place cmp change c key k v m (update_btree cmp change key m))
      go below Ordering.lt h =
          IsSorted-placed key (change none) ((k, v) ∷ m) (h, IsAbove-trans cmp o key k m h above)
            (above, sorted)
      go below Ordering.eq h = IsSorted-placed k (change (some v)) m above sorted
      go below Ordering.gt h = (IsAbove-update_btree k key m (o.swap key k h) above, below)
