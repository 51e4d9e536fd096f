-- ===== src/Terms/Key.antt =====
-- crates/ivm-ir/src/1_terms.rs: `key_number`, `atom_key` and `term_key`, the byte keys that sort as
-- `compare` does.
pub mod Bytes
pub mod Sorted
pub mod Agrees
pub mod Pairs
pub mod Steps
pub mod Loop
use sqlite_ivm.Base.{
  ℕ, zero, suc, ◌+◌, ◌-◌, ◌/◌, ◌%◌, ◌^◌, to_bits, Option, none, some, List, [], ◌∷◌, ◌++◌, length,
  ◌==◌, nat_eq, leb, if◌then◌else◌,
}
use sqlite_ivm.Ir.Syntax.{Cell, Row, Text, Ty}
use sqlite_ivm.Terms.{Term}
use sqlite_ivm.Terms.Float.{magnitude, negative}

-- `to_be_bytes`, the last `k` bytes.
unfoldable pub be_bytes : ℕ → ℕ → List ℕ
be_bytes zero n = []
be_bytes (suc k) n = (n / 256 ^ k % 256) ∷ be_bytes k n

-- `(value as u64) ^ (1 << 63)`: turning the top bit over adds it, modulo 2^64.
unfoldable pub key_number : Cell → List ℕ
key_number value = be_bytes 8 ((to_bits value + 2 ^ 63) % 2 ^ 64)

unfoldable pub atom_key : Cell → List ℕ
atom_key id = 0 ∷ key_number id

-- A zero byte is escaped, and two zeros end the text.
unfoldable pub escape : Text → List ℕ
escape [] = 0 ∷ 0 ∷ []
escape (b ∷ bs) = let rest = escape bs in if b == 0 then 0 ∷ 255 ∷ rest else b ∷ rest

-- The bits of a real, both zeros as one, turned into a number that sorts as the real does.
unfoldable pub real_key : ℕ → ℕ
real_key bits =
    if magnitude bits == 0
    then 2 ^ 63
    else if negative bits
    then 2 ^ 64 - 1 - bits
    else bits + 2 ^ 63

module _ (child_key : Cell → List ℕ) where
  unfoldable pub arg_key : Cell → Ty → List ℕ
  arg_key arg Ty.int = 0 ∷ key_number arg
  arg_key arg Ty.id = 1 ∷ child_key arg
  arg_key arg Ty.text = 2 ∷ child_key arg
  arg_key arg Ty.real = 3 ∷ be_bytes 8 (real_key (to_bits arg))
  arg_key arg Ty.any = 4 ∷ key_number arg

  unfoldable pub args_key : Row → List Ty → List ℕ
  args_key (arg ∷ args) (ty ∷ types) = arg_key arg ty ++ args_key args types
  args_key _ _ = []

  abbrev pub body_key : Option Text → Term → List ℕ
  body_key (some text) term = 1 ∷ escape text
  body_key none term =
      2 ∷ be_bytes 4 (length term.args) ++ (escape term.functor ++ args_key term.args term.types)

  unfoldable pub term_key : Term → List ℕ
  term_key term = body_key term.text term
