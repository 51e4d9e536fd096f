-- ===== src/Terms/Key/Pairs.antt =====
-- The keys of two cells and `compare`'s verdict on the pair.
use sqlite_ivm.Base.{
  ℕ, zero, suc, ◌≡◌, refl, Ordering, pos_part, IsI64, cmp_bytes, then_with, Option, none, some,
  List, ◌∷◌, ◌++◌, inl, inr, int_eq, arith,
}
use sqlite_ivm.Ir.Syntax.{Cell, Text}
use sqlite_ivm.Terms.{Term}
use sqlite_ivm.Terms.Compare.{text_verdict, term_verdict, verdict}
use sqlite_ivm.Terms.Compare.Ends.{IsBelow, IsAcyclic}
use sqlite_ivm.Terms.Key.{atom_key, body_key, term_key}
use sqlite_ivm.Terms.Key.Bytes.{cmp_bytes-escape, cmp_bytes-key_number}
use sqlite_ivm.Terms.Key.Sorted.{then_with_eq, IsTyped, AreKeys, by_key, Cuts, verdict_value}
use sqlite_ivm.Terms.Key.Agrees.{Sorts, by_key_of, Cuts-of, body_key_order}

module _ (resolve : Cell → Option Term) (key : Cell → List ℕ) (acyclic : IsAcyclic resolve)
    (typed : IsTyped resolve) (keys : AreKeys resolve key) where
  abbrev AllCuts : ℕ → Type 0
  AllCuts bound = (a b : Cell) → IsBelow resolve bound a → IsI64 a → IsI64 b → Cuts key a b

  -- The keys of two terms, from those of two terms that are no texts.
  bodies_order :
      (x y : Term) (tx ty : Option Text) (r s : List ℕ)
      → cmp_bytes (body_key key none x ++ r) (body_key key none y ++ s)
        ≡ then_with (verdict_value key (term_verdict none x y)) (cmp_bytes r s)
      → cmp_bytes (body_key key tx x ++ r) (body_key key ty y ++ s)
        ≡ then_with (verdict_value key (term_verdict (text_verdict tx ty) x y)) (cmp_bytes r s)
  unfolding cmp_bytes
  bodies_order x y none none r s h = h
  bodies_order x y (some a) none r s h = refl
  bodies_order x y none (some b) r s h = refl
  bodies_order x y (some a) (some b) r s h = rw then_with_eq (cmp_bytes-escape a b r s)

  atom_first :
      (y : Term) (ty : Option Text) (k s : List ℕ)
      → cmp_bytes (0 ∷ k) (body_key key ty y ++ s) ≡ Ordering.lt
  unfolding cmp_bytes
  atom_first y none k s = refl
  atom_first y (some b) k s = refl

  atom_last :
      (x : Term) (tx : Option Text) (k r : List ℕ)
      → cmp_bytes (body_key key tx x ++ r) (0 ∷ k) ≡ Ordering.gt
  unfolding cmp_bytes
  atom_last x none k s = refl
  atom_last x (some b) k s = refl

  Sorts-verdict :
      (a b : Cell) (x y : Option Term)
      → resolve a ≡ x
      → resolve b ≡ y
      → ((t : Term) → resolve a ≡ some t → AllCuts (pos_part a))
      → IsI64 a
      → IsI64 b
      → Sorts resolve key a b (verdict_value key (verdict a b x y))
  unfolding verdict atom_key term_key cmp_bytes
  Sorts-verdict a b none none ea eb deeper ha hb r s =
      rw (keys.atoms a ea, keys.atoms b eb, then_with_eq) (cmp_bytes-key_number a b r s ha hb)
  Sorts-verdict a b none (some y) ea eb deeper ha hb r s =
      rw (keys.atoms a ea, keys.terms b y eb) (atom_first y y.text _ s)
  Sorts-verdict a b (some x) none ea eb deeper ha hb r s =
      rw (keys.terms a x ea, keys.atoms b eb) (atom_last x x.text _ r)
  Sorts-verdict a b (some x) (some y) ea eb deeper ha hb r s =
      rw (keys.terms a x ea, keys.terms b y eb)
        (bodies_order x y x.text y.text r s (
          body_key_order resolve key (pos_part a) (deeper x ea) x y r s (typed.arity a x ea)
            (typed.arity b y eb) (typed.fixed a b x y ea eb) (acyclic a x ea) (typed.args_ok a x ea)
            (typed.args_ok b y eb)))

  Cuts-terms :
      (a b : Cell)
      → ((t : Term) → resolve a ≡ some t → AllCuts (pos_part a))
      → IsI64 a
      → IsI64 b
      → Cuts key a b
  Cuts-terms a b deeper ha hb =
      Cuts-of resolve key a b _ (Sorts-verdict a b (resolve a) (resolve b) refl refl deeper ha hb)

  AllCuts-below : (bound : ℕ) → AllCuts bound
  AllCuts-below zero a b (inl e) = Cuts-terms a b (λ t found. cc)
  AllCuts-below zero a b (inr lt) = elim lt [ ]
  AllCuts-below (suc bound) a b (inl e) = Cuts-terms a b (λ t found. cc)
  AllCuts-below (suc bound) a b (inr lt) =
      Cuts-terms a b (λ t found x y below. AllCuts-below bound x y (wider below))
    where
      wider : {x : Cell} → IsBelow resolve (pos_part a) x → IsBelow resolve bound x
      wider (inl e) = inl e
      wider (inr small) = inr (omega arith)

  pub by_key-verdict :
      (a b : Cell)
      → IsI64 a
      → IsI64 b
      → by_key key a b ≡ verdict_value key (verdict a b (resolve a) (resolve b))
  by_key-verdict a b ha hb = by_key_of resolve key a b _ (
      Sorts-verdict a b (resolve a) (resolve b) refl refl (λ t found. AllCuts-below (pos_part a)) ha
        hb)
