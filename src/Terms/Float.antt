-- ===== src/Terms/Float.antt =====
-- What the interner reads of an `f64`, from its bits: sign, 11 bits of exponent, 52 of fraction.
use sqlite_ivm.Base.{
  ℕ, ◌+◌, ◌-◌, ◌*◌, ◌/◌, ◌%◌, ◌^◌, ℤ, pos, Bool, Option, none, some, Ordering, ◌==◌, nat_eq, ltb,
  leb, cmp_ℤ, sub_ℕ, if◌then◌else◌,
}

abbrev pub negative : ℕ → Bool
negative bits = leb (2 ^ 63) bits

abbrev pub magnitude : ℕ → ℕ
magnitude bits = bits % 2 ^ 63

abbrev pub exponent : ℕ → ℕ
exponent bits = magnitude bits / 2 ^ 52

abbrev pub fraction : ℕ → ℕ
fraction bits = bits % 2 ^ 52

-- `f64::is_nan`
unfoldable pub is_nan : ℕ → Bool
is_nan bits = ltb (2047 * 2 ^ 52) (magnitude bits)

abbrev pub signed : ℕ → ℕ → ℤ
signed bits n = if negative bits then sub_ℕ 0 n else pos n

-- `n.is_finite() && n >= i64::MIN as f64 && n < 2^63 && (n as i64) as f64 == n`, and then `n as i64`.
unfoldable pub integral : ℕ → Option ℤ
integral bits =
    if magnitude bits == 0
    then some (pos 0)
    else if ltb (exponent bits) 1023
    then none
    else if ltb (exponent bits) 1075
    then (if significand % 2 ^ (1075 - exponent bits) == 0
        then some (signed bits (significand / 2 ^ (1075 - exponent bits)))
        else none)
    else if ltb (exponent bits) 1086
    then some (signed bits (significand * 2 ^ (exponent bits - 1075)))
    else if (bits == 2 ^ 63 + 1086 * 2 ^ 52)
    then some (sub_ℕ 0 (2 ^ 63))
    else none
  where
    significand : ℕ
    significand = 2 ^ 52 + fraction bits

-- The order of the finite and infinite values, with both zeros equal.
abbrev pub float_key : ℕ → ℤ
float_key bits = signed bits (magnitude bits)

-- `f64::partial_cmp`
unfoldable pub partial_cmp : ℕ → ℕ → Option Ordering
unfolding is_nan
partial_cmp a b =
    if is_nan a then none else if is_nan b then none else some (cmp_ℤ (float_key a) (float_key b))
