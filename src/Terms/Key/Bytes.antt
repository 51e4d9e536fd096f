-- ===== src/Terms/Key/Bytes.antt =====
-- How the pieces of a key sort: numbers by value, reals by their order, texts by their bytes,
-- whatever bytes follow them.
use native.Mathlib.Nat.{
  mod-lt, mul-le-mul_right, mod-eq_of_lt, mul-add-mod_self_left, div-add-mod, pow-suc,
}
use sqlite_ivm.Base.{
  ℕ, zero, suc, ◌+◌, ◌*◌, ◌/◌, ◌%◌, ◌^◌, ◌≤◌, ◌<◌, ◌≡◌, refl, sym, ap, ◌∙◌, compare, Ordering,
  to_bits, pos, negsuc, cmp_ℤ, IsI64, cmp_bytes, then_with, List, [], ◌∷◌, ◌++◌, nat_eq, arith,
}
use sqlite_ivm.Ir.Syntax.{Cell, Text}
use sqlite_ivm.Terms.Float.{float_key}
use sqlite_ivm.Terms.Key.{be_bytes, key_number, escape, real_key}

pub then_with_assoc : (a b c : Ordering) → then_with (then_with a b) c ≡ then_with a (then_with b c)
then_with_assoc Ordering.lt b c = refl
then_with_assoc Ordering.eq b c = refl
then_with_assoc Ordering.gt b c = refl

-- The escapes of two texts, each followed by more bytes, sort as the texts, and as what follows where
-- the texts are equal.
pub cmp_bytes-escape :
    (a b : Text) (r s : List ℕ)
    → cmp_bytes (escape a ++ r) (escape b ++ s) ≡ then_with (cmp_bytes a b) (cmp_bytes r s)
unfolding cmp_bytes escape
cmp_bytes-escape [] [] r s = refl
cmp_bytes-escape [] (b ∷ bs) r s = ground arith
cmp_bytes-escape (a ∷ as_) [] r s = ground arith
cmp_bytes-escape (a ∷ as_) (b ∷ bs) r s = ground (arith, cmp_bytes-escape as_ bs r s)

compare_digits :
    (p q₁ q₂ r₁ r₂ : ℕ)
    → r₁ < p
    → r₂ < p
    → compare (q₁ * p + r₁) (q₂ * p + r₂) ≡ then_with (compare q₁ q₂) (compare r₁ r₂)
compare_digits p q₁ q₂ r₁ r₂ h₁ h₂ = split (compare q₁ q₂) refl
  where
    split :
        (o : Ordering)
        → compare q₁ q₂ ≡ o
        → compare (q₁ * p + r₁) (q₂ * p + r₂) ≡ then_with o (compare r₁ r₂)
    split Ordering.lt e =
        let less : q₁ + 1 ≤ q₂ = ground arith in
        let scaled : (q₁ + 1) * p ≤ q₂ * p = grind arith in ground arith
    split Ordering.eq e = let same : q₁ ≡ q₂ = ground arith in rw same (ground arith)
    split Ordering.gt e =
        let less : q₂ + 1 ≤ q₁ = ground arith in
        let scaled : (q₂ + 1) * p ≤ q₁ * p = grind arith in ground arith

mod_mul : (n p : ℕ) → 0 < p → n % (256 * p) ≡ n / p % 256 * p + n % p
mod_mul n p h =
    whole
    ∙ mul-add-mod_self_left (256 * p) (n / p / 256) (n / p % 256 * p + n % p)
    ∙ mod-eq_of_lt small
  where
    whole : n % (256 * p) ≡ ((256 * p) * (n / p / 256) + (n / p % 256 * p + n % p)) % (256 * p)
    whole =
        let digits : n / p ≡ 256 * (n / p / 256) + n / p % 256 = omega arith in
        let scaled = ap (λ (t : ℕ). p * t) digits in
        let parts : n ≡ (256 * p) * (n / p / 256) + (n / p % 256 * p + n % p) =
          omega (arith, scaled, div-add-mod n p) in
        ap (λ t. t % (256 * p)) parts

    small : n / p % 256 * p + n % p < 256 * p
    small =
        let digit : n / p % 256 ≤ 255 = omega arith in
        omega (arith, mod-lt n h, mul-le-mul_right p digit)

pow_pos : (k : ℕ) → 0 < 256 ^ k
pow_pos zero = omega arith
pow_pos (suc k) = rw pow-suc (omega (arith, pow_pos k))

pub cmp_bytes-be_bytes :
    (k m n : ℕ) (r s : List ℕ)
    → cmp_bytes (be_bytes k m ++ r) (be_bytes k n ++ s)
      ≡ then_with (compare (m % 256 ^ k) (n % 256 ^ k)) (cmp_bytes r s)
unfolding cmp_bytes be_bytes
cmp_bytes-be_bytes zero m n r s = ground arith
cmp_bytes-be_bytes (suc k) m n r s =
    rw
      (
        cmp_bytes-be_bytes k m n r s,
        width,
        mod_mul m (256 ^ k) (pow_pos k),
        mod_mul n (256 ^ k) (pow_pos k),
      )
      (sym (
        ap (λ o. then_with o (cmp_bytes r s))
          (compare_digits (256 ^ k) (m / 256 ^ k % 256) (n / 256 ^ k % 256) (m % 256 ^ k)
            (n % 256 ^ k) (mod-lt m (pow_pos k)) (mod-lt n (pow_pos k)))
        ∙ then_with_assoc (compare (m / 256 ^ k % 256) (n / 256 ^ k % 256))
            (compare (m % 256 ^ k) (n % 256 ^ k)) (cmp_bytes r s)))
  where
    width : 256 ^ suc k ≡ 256 * 256 ^ k
    width = pow-suc 256 k ∙ omega arith

pub real_key_order :
    (a b : ℕ)
    → a < 2 ^ 64
    → b < 2 ^ 64
    → compare (real_key a) (real_key b) ≡ cmp_ℤ (float_key a) (float_key b)
unfolding real_key
real_key_order a b ha hb = ground arith

-- The eight bytes of two `i64` values, each followed by more bytes, sort as the values, and as what
-- follows where the values are equal.
pub cmp_bytes-key_number :
    (a b : Cell) (r s : List ℕ)
    → IsI64 a
    → IsI64 b
    → cmp_bytes (key_number a ++ r) (key_number b ++ s) ≡ then_with (cmp_ℤ a b) (cmp_bytes r s)
unfolding key_number
cmp_bytes-key_number a b r s ha hb =
    cmp_bytes-be_bytes 8 ((to_bits a + 2 ^ 63) % 2 ^ 64) ((to_bits b + 2 ^ 63) % 2 ^ 64) r s
    ∙ ap (λ o. then_with o (cmp_bytes r s)) (shifted a b ha hb)
  where
    shifted :
        (a b : Cell)
        → IsI64 a
        → IsI64 b
        → compare
            ((to_bits a + 2 ^ 63) % 2 ^ 64 % 256 ^ 8)
            ((to_bits b + 2 ^ 63) % 2 ^ 64 % 256 ^ 8)
          ≡ cmp_ℤ a b
    shifted (pos m) (pos n) ha hb = ground arith
    shifted (pos m) (negsuc n) ha hb = ground arith
    shifted (negsuc m) (pos n) ha hb = ground arith
    shifted (negsuc m) (negsuc n) ha hb = ground arith
