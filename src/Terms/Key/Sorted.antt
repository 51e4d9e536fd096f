-- ===== src/Terms/Key/Sorted.antt =====
-- The stored byte keys sort as `compare` orders the terms.
use sqlite_ivm.Base.{
  ◌%◌, ℕ, ◌^◌, ◌<◌, ◌≡◌, refl, sym, ap, ◌∙◌, Ordering, to_bits, to_bits-lt, IsI64, cmp_bytes,
  then_with, false, Option, none, some, List, [], ◌∷◌, ◌++◌, append_assoc, length, nat_eq, int_eq,
  arith,
}
use sqlite_ivm.Ir.Syntax.{Cell, Row, Ty}
use sqlite_ivm.Terms.{Term}
use sqlite_ivm.Terms.Float.{is_nan, partial_cmp}
use sqlite_ivm.Terms.Compare.{Step, Verdict, or_equal, arg_step, arg_steps}
use sqlite_ivm.Terms.Key.{atom_key, be_bytes, real_key, arg_key, args_key, term_key}
use sqlite_ivm.Terms.Key.Bytes.{
  then_with_assoc, cmp_bytes-key_number, cmp_bytes-be_bytes, real_key_order,
}

pub cmp_bytes_refl : (k r s : List ℕ) → cmp_bytes (k ++ r) (k ++ s) ≡ cmp_bytes r s
unfolding cmp_bytes
cmp_bytes_refl [] r s = refl
cmp_bytes_refl (b ∷ k) r s = ground (arith, cmp_bytes_refl k r s)

-- What the arguments of a term are: `i64` cells, no NaN among the reals.
abbrev pub ArgOk : Cell → Ty → Type 0
ArgOk a Ty.real = (is_nan (to_bits a) ≡ false)
ArgOk a _ = IsI64 a

abbrev pub ArgsOk : Row → List Ty → Type 0
ArgsOk (a ∷ as_) (ty ∷ tys) = ArgOk a ty × ArgsOk as_ tys
ArgsOk _ _ = Unit

abbrev pub IsId : Ty → Type 0
IsId Ty.id = Unit
IsId Ty.text = Unit
IsId _ = ⊥

pub then_with_eq : (o : Ordering) → then_with o Ordering.eq ≡ o
then_with_eq Ordering.lt = refl
then_with_eq Ordering.eq = refl
then_with_eq Ordering.gt = refl

real_key_small : (a : ℕ) → a < 2 ^ 64 → real_key a % 256 ^ 8 ≡ real_key a
unfolding real_key
real_key_small a h = ground arith

cmp_bytes-real_key :
    (a b : ℕ) (r s : List ℕ)
    → a < 2 ^ 64
    → b < 2 ^ 64
    → is_nan a ≡ false
    → is_nan b ≡ false
    → cmp_bytes (be_bytes 8 (real_key a) ++ r) (be_bytes 8 (real_key b) ++ s)
      ≡ then_with (or_equal (partial_cmp a b)) (cmp_bytes r s)
unfolding partial_cmp
cmp_bytes-real_key a b r s la lb ha hb =
    rw (ha, hb)
      (cmp_bytes-be_bytes 8 (real_key a) (real_key b) r s
        ∙ rw (real_key_small a la, real_key_small b lb)
            (ap (λ o. then_with o (cmp_bytes r s)) (real_key_order a b la lb)))

-- A dictionary whose terms have as many arguments as a `u32` counts, all of them in order, and
-- whose constructors have fixed types.
pub record IsTyped (resolve : Cell → Option Term) : Type 0 where
  pub args_ok : (id : Cell) (t : Term) → resolve id ≡ some t → ArgsOk t.args t.types
  pub arity : (id : Cell) (t : Term) → resolve id ≡ some t → length t.args < 2 ^ 32
  pub fixed :
      (i j : Cell) (t u : Term)
      → resolve i ≡ some t
      → resolve j ≡ some u
      → t.functor ≡ u.functor
      → length t.args ≡ length u.args
      → t.types ≡ u.types

-- The key of each cell as the source stores it: an atom's, or its term's over its children's.
pub record AreKeys (resolve : Cell → Option Term) (key : Cell → List ℕ) : Type 0 where
  pub atoms : (id : Cell) → resolve id ≡ none → key id ≡ atom_key id
  pub terms : (id : Cell) (t : Term) → resolve id ≡ some t → key id ≡ term_key key t

module _ (key : Cell → List ℕ) where
  abbrev pub by_key : Cell → Cell → Ordering
  by_key a b = cmp_bytes (key a) (key b)

  -- The keys of `a` and `b` decide before any byte that follows them.
  unfoldable pub Cuts : Cell → Cell → Type 0
  Cuts a b =
      (r s : List ℕ) → cmp_bytes (key a ++ r) (key b ++ s) ≡ then_with (by_key a b) (cmp_bytes r s)

  abbrev pub CutsAll : Row → Row → List Ty → Type 0
  CutsAll (a ∷ as_) (b ∷ bs) (ty ∷ tys) = (IsId ty → Cuts a b) × CutsAll as_ bs tys
  CutsAll _ _ _ = Unit

  -- What the steps on a stack come to, with terms ordered by their keys.
  abbrev pub value : List Step → Ordering
  value [] = Ordering.eq
  value (Step.done order ∷ stack) = then_with order (value stack)
  value (Step.terms a b ∷ stack) = then_with (by_key a b) (value stack)

  abbrev pub verdict_value : Verdict → Ordering
  verdict_value (Verdict.push steps) = value steps
  verdict_value (Verdict.stop order) = order

  pub value-append : (xs ys : List Step) → value (xs ++ ys) ≡ then_with (value xs) (value ys)
  value-append [] ys = refl
  value-append (Step.done order ∷ xs) ys =
      rw (value-append xs ys) (sym (then_with_assoc order (value xs) (value ys)))
  value-append (Step.terms a b ∷ xs) ys =
      rw (value-append xs ys) (sym (then_with_assoc (by_key a b) (value xs) (value ys)))

  -- One argument of the same type on both sides.
  arg_key_order :
      (a b : Cell) (ty : Ty) (r s : List ℕ)
      → ArgOk a ty
      → ArgOk b ty
      → (IsId ty → Cuts a b)
      → cmp_bytes (arg_key key a ty ++ r) (arg_key key b ty ++ s)
        ≡ then_with (value (arg_step a ty b ty ∷ [])) (cmp_bytes r s)
  unfolding arg_key arg_step cmp_bytes Cuts
  arg_key_order a b Ty.int r s ha hb cuts =
      cmp_bytes-key_number a b r s ha hb
      ∙ ap (λ o. then_with o (cmp_bytes r s)) (sym (then_with_eq _))
  arg_key_order a b Ty.any r s ha hb cuts =
      cmp_bytes-key_number a b r s ha hb
      ∙ ap (λ o. then_with o (cmp_bytes r s)) (sym (then_with_eq _))
  arg_key_order a b Ty.id r s ha hb cuts =
      cuts tt r s ∙ ap (λ o. then_with o (cmp_bytes r s)) (sym (then_with_eq _))
  arg_key_order a b Ty.text r s ha hb cuts =
      cuts tt r s ∙ ap (λ o. then_with o (cmp_bytes r s)) (sym (then_with_eq _))
  arg_key_order a b Ty.real r s ha hb cuts =
      cmp_bytes-real_key (to_bits a) (to_bits b) r s (to_bits-lt a) (to_bits-lt b) ha hb
      ∙ ap (λ o. then_with o (cmp_bytes r s)) (sym (then_with_eq _))

  pub args_key_order :
      (as_ bs : Row) (tys : List Ty) (r s : List ℕ)
      → length as_ ≡ length bs
      → ArgsOk as_ tys
      → ArgsOk bs tys
      → CutsAll as_ bs tys
      → cmp_bytes (args_key key as_ tys ++ r) (args_key key bs tys ++ s)
        ≡ then_with (value (arg_steps as_ tys bs tys)) (cmp_bytes r s)
  unfolding args_key arg_steps
  args_key_order [] [] tys r s len ha hb cuts = refl
  args_key_order [] (b ∷ bs) tys r s len ha hb cuts = absurd (omega arith)
  args_key_order (a ∷ as_) [] tys r s len ha hb cuts = absurd (omega arith)
  args_key_order (a ∷ as_) (b ∷ bs) [] r s len ha hb cuts = refl
  args_key_order (a ∷ as_) (b ∷ bs) (ty ∷ tys) r s len ha hb cuts =
      rw (append_assoc, append_assoc)
        (arg_key_order a b ty _ _ ha.0 hb.0 cuts.0
          ∙ ap (then_with (value (arg_step a ty b ty ∷ [])))
              (args_key_order as_ bs tys r s (omega arith) ha.1 hb.1 cuts.1)
          ∙ sym (
              ap (λ o. then_with o (cmp_bytes r s))
                (value-append (arg_step a ty b ty ∷ []) (arg_steps as_ tys bs tys))
              ∙ then_with_assoc (value (arg_step a ty b ty ∷ [])) (value (arg_steps as_ tys bs tys))
                  (cmp_bytes r s)))
