-- ===== src/Terms/Key/Agrees.antt =====
-- The frame of a stored key (arity, functor, arguments) and `head_order`, the first test of two terms.
use sqlite_ivm.Base.{
  ℕ, ◌^◌, ◌%◌, ◌<◌, ◌≡◌, refl, sym, ap, subst, ◌∙◌, compare as cmp_ℕ, Ordering, IsI64, cmp_bytes,
  then_with, Option, none, List, [], ◌∷◌, ◌++◌, append_assoc, append-nil, length, int_eq, arith,
}
use sqlite_ivm.Ir.Syntax.{Cell, Row, Text, Ty}
use sqlite_ivm.Terms.{Term}
use sqlite_ivm.Terms.Compare.{arg_steps, head_order, head_verdict, term_verdict}
use sqlite_ivm.Terms.Compare.Ends.{IsBelow, ChildrenBelow}
use sqlite_ivm.Terms.Key.{be_bytes, escape, args_key, body_key}
use sqlite_ivm.Terms.Key.Bytes.{then_with_assoc, cmp_bytes-escape, cmp_bytes-be_bytes}
use sqlite_ivm.Terms.Key.Sorted.{
  then_with_eq, ArgsOk, by_key, Cuts, CutsAll, value, verdict_value, args_key_order,
}

pub cmp_bytes-eq : (as_ bs : List ℕ) → cmp_bytes as_ bs ≡ Ordering.eq → as_ ≡ bs
unfolding cmp_bytes
cmp_bytes-eq [] [] h = refl
cmp_bytes-eq [] (b ∷ bs) h = cc
cmp_bytes-eq (a ∷ as_) [] h = cc
cmp_bytes-eq (a ∷ as_) (b ∷ bs) h = ground (arith, cmp_bytes-eq as_ bs)

head_same :
    (m n : ℕ) (f g : Text) → then_with (cmp_ℕ m n) (cmp_bytes f g) ≡ Ordering.eq → (m ≡ n) × (f ≡ g)
head_same m n f g h = (ground arith, cmp_bytes-eq f g (ground arith))

frame_assoc : (p q u r : List ℕ) → (p ++ (q ++ u)) ++ r ≡ p ++ (q ++ (u ++ r))
frame_assoc p q u r = rw (append_assoc, append_assoc) refl

frame_order :
    (m n : ℕ) (f g : Text) (u v r s : List ℕ)
    → m < 2 ^ 32
    → n < 2 ^ 32
    → cmp_bytes ((be_bytes 4 m ++ (escape f ++ u)) ++ r) ((be_bytes 4 n ++ (escape g ++ v)) ++ s)
      ≡ then_with (then_with (cmp_ℕ m n) (cmp_bytes f g)) (cmp_bytes (u ++ r) (v ++ s))
frame_order m n f g u v r s hm hn =
    rw (frame_assoc (be_bytes 4 m) (escape f) u r, frame_assoc (be_bytes 4 n) (escape g) v s)
      (cmp_bytes-be_bytes 4 m n _ _
        ∙ rw (small m hm, small n hn) (ap (then_with (cmp_ℕ m n)) (cmp_bytes-escape f g _ _))
        ∙ sym (then_with_assoc (cmp_ℕ m n) (cmp_bytes f g) (cmp_bytes (u ++ r) (v ++ s))))
  where
    small : (k : ℕ) → k < 2 ^ 32 → k % 256 ^ 4 ≡ k
    small k h = omega arith

module _ (resolve : Cell → Option Term) (key : Cell → List ℕ) where
  -- The keys of `a` and `b` compare as `order`, whatever bytes follow them.
  abbrev pub Sorts : Cell → Cell → Ordering → Type 0
  Sorts a b order =
      (r s : List ℕ) → cmp_bytes (key a ++ r) (key b ++ s) ≡ then_with order (cmp_bytes r s)

  pub by_key_of : (a b : Cell) (order : Ordering) → Sorts a b order → by_key key a b ≡ order
  unfolding cmp_bytes
  by_key_of a b order h =
      sym (
        ap (λ k. cmp_bytes k (key b ++ [])) (append-nil (key a))
        ∙ ap (cmp_bytes (key a)) (append-nil (key b)))
      ∙ h [] []
      ∙ then_with_eq order

  pub Cuts-of : (a b : Cell) (order : Ordering) → Sorts a b order → Cuts key a b
  unfolding Cuts
  Cuts-of a b order h r s =
      h r s ∙ ap (λ o. then_with o (cmp_bytes r s)) (sym (by_key_of a b order h))

  head_key_order :
      (x y : Term) (r s : List ℕ)
      → length x.args < 2 ^ 32
      → length y.args < 2 ^ 32
      → cmp_bytes (body_key key none x ++ r) (body_key key none y ++ s)
        ≡ then_with
            (head_order x y)
            (cmp_bytes (args_key key x.args x.types ++ r) (args_key key y.args y.types ++ s))
  unfolding cmp_bytes
  head_key_order x y r s hx hy =
      frame_order (length x.args) (length y.args) x.functor y.functor _ _ r s hx hy

  -- The `Id` and `Text` arguments of two terms, by their keys.
  module _ (bound : ℕ)
      (cuts : (a b : Cell) → IsBelow resolve bound a → IsI64 a → IsI64 b → Cuts key a b) where
    CutsAll-args :
        (as_ bs : Row) (tys : List Ty)
        → ChildrenBelow resolve bound as_ tys
        → ArgsOk as_ tys
        → ArgsOk bs tys
        → CutsAll key as_ bs tys
    CutsAll-args (a ∷ as_) (b ∷ bs) (Ty.id ∷ tys) below ha hb =
        (λ h. cuts a b below.0 ha.0 hb.0, CutsAll-args as_ bs tys below.1 ha.1 hb.1)
    CutsAll-args (a ∷ as_) (b ∷ bs) (Ty.text ∷ tys) below ha hb =
        (λ h. cuts a b below.0 ha.0 hb.0, CutsAll-args as_ bs tys below.1 ha.1 hb.1)
    CutsAll-args (a ∷ as_) (b ∷ bs) (Ty.int ∷ tys) below ha hb =
        (λ h. absurd h, CutsAll-args as_ bs tys below ha.1 hb.1)
    CutsAll-args (a ∷ as_) (b ∷ bs) (Ty.real ∷ tys) below ha hb =
        (λ h. absurd h, CutsAll-args as_ bs tys below ha.1 hb.1)
    CutsAll-args (a ∷ as_) (b ∷ bs) (Ty.any ∷ tys) below ha hb =
        (λ h. absurd h, CutsAll-args as_ bs tys below ha.1 hb.1)
    CutsAll-args _ _ _ below ha hb = tt

    pub body_key_order :
        (x y : Term) (r s : List ℕ)
        → length x.args < 2 ^ 32
        → length y.args < 2 ^ 32
        → (x.functor ≡ y.functor → length x.args ≡ length y.args → x.types ≡ y.types)
        → ChildrenBelow resolve bound x.args x.types
        → ArgsOk x.args x.types
        → ArgsOk y.args y.types
        → cmp_bytes (body_key key none x ++ r) (body_key key none y ++ s)
          ≡ then_with (verdict_value key (term_verdict none x y)) (cmp_bytes r s)
    body_key_order x y r s hx hy fixed below okx oky =
        head_key_order x y r s hx hy ∙ split (head_order x y) refl
      where
        split :
            (o : Ordering)
            → head_order x y ≡ o
            → then_with o
                (cmp_bytes (args_key key x.args x.types ++ r) (args_key key y.args y.types ++ s))
              ≡ then_with
                  (verdict_value key (head_verdict o (arg_steps x.args x.types y.args y.types)))
                  (cmp_bytes r s)
        split Ordering.lt e = refl
        split Ordering.gt e = refl
        split Ordering.eq e =
            let same = head_same (length x.args) (length y.args) x.functor y.functor e in
            let types = fixed same.1 same.0 in
            subst
              (λ tys.
                cmp_bytes (args_key key x.args x.types ++ r) (args_key key y.args tys ++ s)
                ≡ then_with (value key (arg_steps x.args x.types y.args tys)) (cmp_bytes r s))
              types
              (args_key_order key x.args y.args x.types r s same.0 okx
                (subst (ArgsOk y.args) (sym types) oky)
                (CutsAll-args x.args y.args x.types below okx
                  (subst (ArgsOk y.args) (sym types) oky)))
