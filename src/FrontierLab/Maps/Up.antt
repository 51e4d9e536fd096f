-- ===== src/FrontierLab/Maps/Up.antt =====
-- Lists of rows that `sort` has put in order.
use Prim.Native.Nat.{Ordering}
use sqlite_ivm.Base.{◌≡◌, ◌≢◌, refl, sym, ap, ◌∙◌, List, [], ◌∷◌, map}
use sqlite_ivm.Ir.Syntax.{Row}
use sqlite_ivm.FrontierLab.Maps.{cmp_row, at, sort, sorted_insert}
use sqlite_ivm.FrontierLab.Maps.Sorted.{row_IsOrder}

-- Lists in which no row is followed by a smaller one.
abbrev pub IsUp : List Row → Type 0
IsUp [] = Unit
IsUp (r ∷ []) = Unit
IsUp (r ∷ q ∷ rows) = (cmp_row r q ≢ Ordering.gt) × IsUp (q ∷ rows)

pub IsUp-tail : (r : Row) (rows : List Row) → IsUp (r ∷ rows) → IsUp rows
IsUp-tail r [] h = tt
IsUp-tail r (q ∷ rows) h = h.1

-- A row that no row of the list comes before.
pub sorted_insert_first :
    (r : Row) (rows : List Row) → IsUp (r ∷ rows) → sorted_insert cmp_row r rows ≡ r ∷ rows
unfolding sorted_insert
sorted_insert_first r [] h = refl
sorted_insert_first r (q ∷ rows) h = go (cmp_row r q) h.0
  where
    go :
        (o : Ordering)
        → o ≢ Ordering.gt
        → at cmp_row o r q rows (sorted_insert cmp_row r rows) ≡ r ∷ q ∷ rows
    go Ordering.lt k = refl
    go Ordering.eq k = refl
    go Ordering.gt k = absurd (k refl)

abbrev IsFirst : Row → List Row → Type 0
IsFirst q [] = Unit
IsFirst q (r ∷ rows) = cmp_row q r ≢ Ordering.gt

IsUp-cons : (q : Row) (rows : List Row) → IsFirst q rows → IsUp rows → IsUp (q ∷ rows)
IsUp-cons q [] h k = tt
IsUp-cons q (r ∷ rows) h k = (h, k)

IsUp-IsFirst : (q : Row) (rows : List Row) → IsUp (q ∷ rows) → IsFirst q rows
IsUp-IsFirst q [] h = tt
IsUp-IsFirst q (r ∷ rows) h = h.0

not_gt : (o : Ordering) → o ≡ Ordering.lt → o ≢ Ordering.gt
not_gt o h k = cc

IsFirst-sorted_insert :
    (q r : Row) (rows : List Row)
    → cmp_row q r ≢ Ordering.gt
    → IsFirst q rows
    → IsFirst q (sorted_insert cmp_row r rows)
unfolding sorted_insert
IsFirst-sorted_insert q r [] h k = h
IsFirst-sorted_insert q r (z ∷ rows) h k = go (cmp_row r z)
  where
    go : (o : Ordering) → IsFirst q (at cmp_row o r z rows (sorted_insert cmp_row r rows))
    go Ordering.lt = h
    go Ordering.eq = h
    go Ordering.gt = k

IsUp-sorted_insert : (r : Row) (rows : List Row) → IsUp rows → IsUp (sorted_insert cmp_row r rows)
unfolding sorted_insert
IsUp-sorted_insert r [] h = tt
IsUp-sorted_insert r (q ∷ rows) h =
    go (IsUp-sorted_insert r rows (IsUp-tail q rows h)) (cmp_row r q) refl
  where
    go :
        IsUp (sorted_insert cmp_row r rows)
        → (o : Ordering) → cmp_row r q ≡ o
        → IsUp (at cmp_row o r q rows (sorted_insert cmp_row r rows))
    go below Ordering.lt k = ((λ g. not_gt (cmp_row r q) k g), h)
    go below Ordering.eq k = ((λ g. eq_not_gt (sym k ∙ g)), h)
      where
        eq_not_gt : Ordering.eq ≡ Ordering.gt → ⊥
        eq_not_gt e = cc
    go below Ordering.gt k =
        IsUp-cons q (sorted_insert cmp_row r rows)
          (IsFirst-sorted_insert q r rows (not_gt (cmp_row q r) (row_IsOrder.swap r q k))
            (IsUp-IsFirst q rows h))
          below

pub IsUp-sort : (rows : List Row) → IsUp (sort cmp_row rows)
unfolding sort
IsUp-sort [] = tt
IsUp-sort (r ∷ rows) = IsUp-sorted_insert r (sort cmp_row rows) (IsUp-sort rows)

-- Sorting by what is read of an element, and reading it.
module _ {A B : Type 0} (f : A → B) (cmp : B → B → Ordering) where
  map-sorted_insert :
      (x : A) (ys : List A)
      → map f (sorted_insert (λ a b. cmp (f a) (f b)) x ys) ≡ sorted_insert cmp (f x) (map f ys)
  unfolding sorted_insert
  map-sorted_insert x [] = refl
  map-sorted_insert x (y ∷ ys) = go (map-sorted_insert x ys) (cmp (f x) (f y))
    where
      go :
          map f (sorted_insert (λ a b. cmp (f a) (f b)) x ys) ≡ sorted_insert cmp (f x) (map f ys)
          → (o : Ordering)
          → map f
              (at (λ a b. cmp (f a) (f b)) o x y ys (sorted_insert (λ a b. cmp (f a) (f b)) x ys))
            ≡ at cmp o (f x) (f y) (map f ys) (sorted_insert cmp (f x) (map f ys))
      go below Ordering.lt = refl
      go below Ordering.eq = refl
      go below Ordering.gt = ap (λ zs. f y ∷ zs) below

  pub map-sort : (xs : List A) → map f (sort (λ a b. cmp (f a) (f b)) xs) ≡ sort cmp (map f xs)
  unfolding sort
  map-sort [] = refl
  map-sort (x ∷ xs) =
      map-sorted_insert x (sort (λ a b. cmp (f a) (f b)) xs)
      ∙ ap (sorted_insert cmp (f x)) (map-sort xs)
