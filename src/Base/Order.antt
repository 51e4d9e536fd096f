-- ===== src/Base/Order.antt =====
-- `std::cmp::Ordering`: `then_with`, `reverse`, and the lexicographic order of slices.
use Prim.Native.Nat.{ℕ, compare, Ordering}
use mathlib.Core.Path.{◌≡◌, refl}
use mathlib.Core.List.{List, [], ◌∷◌}
use native.Mathlib.Omega.{arith}
use sqlite_ivm.Base.Int.{ℤ, cmp_ℤ}

abbrev pub then_with : Ordering → Ordering → Ordering
then_with Ordering.eq next = next
then_with Ordering.lt next = Ordering.lt
then_with Ordering.gt next = Ordering.gt

abbrev pub reversed : Ordering → Ordering
reversed Ordering.lt = Ordering.gt
reversed Ordering.eq = Ordering.eq
reversed Ordering.gt = Ordering.lt

-- `Ord` of a slice of bytes, which is also that of `str`.
unfoldable pub cmp_bytes : List ℕ → List ℕ → Ordering
cmp_bytes [] [] = Ordering.eq
cmp_bytes [] (b ∷ bs) = Ordering.lt
cmp_bytes (a ∷ as_) [] = Ordering.gt
cmp_bytes (a ∷ as_) (b ∷ bs) = then_with (compare a b) (cmp_bytes as_ bs)

pub reversed-then_with :
    (a b : Ordering) → reversed (then_with a b) ≡ then_with (reversed a) (reversed b)
reversed-then_with Ordering.lt b = refl
reversed-then_with Ordering.eq b = refl
reversed-then_with Ordering.gt b = refl

pub compare_swap : (a b : ℕ) → compare b a ≡ reversed (compare a b)
compare_swap a b = ground arith

pub cmp_ℤ_swap : (a b : ℤ) → cmp_ℤ b a ≡ reversed (cmp_ℤ a b)
cmp_ℤ_swap a b = ground arith

pub cmp_bytes_swap : (as_ bs : List ℕ) → cmp_bytes bs as_ ≡ reversed (cmp_bytes as_ bs)
unfolding cmp_bytes
cmp_bytes_swap [] [] = refl
cmp_bytes_swap [] (b ∷ bs) = refl
cmp_bytes_swap (a ∷ as_) [] = refl
cmp_bytes_swap (a ∷ as_) (b ∷ bs) = ground (arith, cmp_bytes_swap as_ bs, compare_swap a b)
