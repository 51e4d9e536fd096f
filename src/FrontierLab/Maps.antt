-- ===== src/FrontierLab/Maps.antt =====
-- labs/20260923.1.the-gang-builds-the-rust-frontier-engine/src/2_apply.rs: the weighted maps. A
-- `BTreeMap` is an association list in the order of its keys.
pub mod Sorted
pub mod Up
pub mod Update
pub mod Consolidated
use Prim.Native.Nat.{compare, Ordering}
use sqlite_ivm.Base.{
  ℤ, pos, negsuc, Bool, true, false, not, Option, none, some, List, [], ◌∷◌, ◌==◌, nat_eq, int_eq,
  list_eq, lookup, insert, remove, wrapping_add, cmp_ℤ, then_with, if◌then◌else◌,
}
use sqlite_ivm.Ir.Syntax.{Row}
use sqlite_ivm.FrontierLab.Types.{RelId, SourceChange, weight}
use sqlite_ivm.FrontierLab.Storage.{Counts}

abbrev pub or_zero : Option ℤ → ℤ
or_zero none = pos 0
or_zero (some w) = w

abbrev pub is_negative : ℤ → Bool
is_negative (pos n) = false
is_negative (negsuc n) = true

abbrev pub is_positive : ℤ → Bool
is_positive (pos n) = not (n == 0)
is_positive (negsuc n) = false

-- An entry that is not kept when it is zero.
abbrev pub nonzero : ℤ → Option ℤ
nonzero w = if w == pos 0 then none else some w

abbrev pub accumulate_entry : Row → ℤ → Option ℤ → Counts → Counts
accumulate_entry row w (some value) m =
    let sum = wrapping_add value w in if sum == pos 0 then remove row m else insert row sum m
accumulate_entry row w none m = if w == pos 0 then m else insert row w m

-- `accumulate`
unfoldable pub accumulate : Counts → Row → ℤ → Counts
accumulate m row w = accumulate_entry row w (lookup row m) m

-- The order of rows: lexicographic.
unfoldable pub cmp_row : Row → Row → Ordering
cmp_row [] [] = Ordering.eq
cmp_row [] (b ∷ bs) = Ordering.lt
cmp_row (a ∷ as_) [] = Ordering.gt
cmp_row (a ∷ as_) (b ∷ bs) = then_with (cmp_ℤ a b) (cmp_row as_ bs)

-- A `BTreeMap` entry, written, or removed where the new value is none.
module _ {K V : Type 0} (cmp : K → K → Ordering) (change : Option V → Option V) where
  abbrev pub placed : K → Option V → List (K × V) → List (K × V)
  placed key none m = m
  placed key (some v) m = (key, v) ∷ m

  abbrev pub place : Ordering → K → K → V → List (K × V) → List (K × V) → List (K × V)
  place Ordering.lt key k v m rest = placed key (change none) ((k, v) ∷ m)
  place Ordering.eq key k v m rest = placed k (change (some v)) m
  place Ordering.gt key k v m rest = (k, v) ∷ rest

  unfoldable pub update_btree : K → List (K × V) → List (K × V)
  update_btree key [] = placed key (change none) []
  update_btree key ((k, v) ∷ m) = let rest = update_btree key m in place (cmp key k) key k v m rest

-- What an entry becomes: zeros disappear.
abbrev pub add_weight : ℤ → Option ℤ → Option ℤ
add_weight w none = nonzero w
add_weight w (some value) = nonzero (wrapping_add value w)

-- `accumulate_btree`
unfoldable pub accumulate_btree : Counts → Row → ℤ → Counts
accumulate_btree m row w = update_btree cmp_row (add_weight w) row m

-- `Net`
abbrev pub Net : Type 0
Net = List (RelId × Counts)

abbrev pub add_change : SourceChange → Option Counts → Option Counts
add_change change none = some (accumulate_btree [] change.row (weight change.sign))
add_change change (some net) = some (accumulate_btree net change.row (weight change.sign))

-- Step 2 of `apply_frontier`.
unfoldable pub consolidate_from : Net → List SourceChange → Net
consolidate_from net [] = net
consolidate_from net (change ∷ changes) =
    consolidate_from (update_btree compare (add_change change) change.relation net) changes

-- `rows.sort()` and `changes.sort_by(|a, b| a.row.cmp(&b.row))`: stable.
module _ {A : Type 0} (cmp : A → A → Ordering) where
  abbrev pub at : Ordering → A → A → List A → List A → List A
  at Ordering.gt x y ys rest = y ∷ rest
  at _ x y ys rest = x ∷ y ∷ ys

  unfoldable pub sorted_insert : A → List A → List A
  sorted_insert x [] = x ∷ []
  sorted_insert x (y ∷ ys) = let rest = sorted_insert x ys in at (cmp x y) x y ys rest

  unfoldable pub sort : List A → List A
  sort [] = []
  sort (x ∷ xs) = sorted_insert x (sort xs)
