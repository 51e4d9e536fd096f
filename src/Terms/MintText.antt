-- ===== src/Terms/MintText.antt =====
-- `mint_text`: what it returns, and that it keeps the dictionary valid.
use sqlite_ivm.Base.{
  ◌+◌, some_injective, ◌≡◌, refl, sym, ap, subst, ◌∙◌, pos, none, some, [], lookup,
  lookup-insert_self, lookup-insert_cases, lookup-insert_old, ◌⊎◌, inl, inr, pair_eq, list_eq,
  nat_eq, int_eq, arith,
}
use sqlite_ivm.Ir.Syntax.{Cell, Text}
use sqlite_ivm.Terms.{Term, Interner, known_or_new, mint_text, text_new, get, text}
use sqlite_ivm.Terms.Slots.{length-put_slot}
use sqlite_ivm.Terms.Valid.{
  HoldsText, TermsValid, known_or_new-cases, get-new, get-old, get-cases, Extends, HoldsTerm-mono,
  HoldsText-mono,
}

module _ (x : Text) (s : Interner) where
  pub mint_text-cases :
      {id : Cell} {s' : Interner}
      → mint_text x s ≡ some (id, s')
      → (lookup x s.by_text ≡ some id) × (s' ≡ s)
        ⊎ (lookup x s.by_text ≡ none) × (id ≡ pos (s.next + 1)) × (s' ≡ text_new x s (s.next + 1))
  unfolding mint_text
  mint_text-cases h = known_or_new-cases (lookup x s.by_text) (text_new x s) s h

  module _ (v : TermsValid s) (unknown : lookup x s.by_text ≡ none) where
    abbrev s' : Interner
    s' = text_new x s (s.next + 1)

    abbrev minted : Term
    minted = record { functor = []; args = []; types = []; text = some x }

    new_at : get s' (pos (s.next + 1)) ≡ some minted
    new_at = get-new s s' (s.next + 1) minted refl

    text_new-Extends : Extends s s'
    text_new-Extends = get-old s s' (s.next + 1) minted refl v.slots

    text_new-texts_lead : (y : Text) (id : Cell) → lookup y s'.by_text ≡ some id → HoldsText s' y id
    text_new-texts_lead y id h = elim (lookup-insert_cases x y (pos (s.next + 1)) s.by_text h) [
      | inl (same, here) ↦ record {
        held = minted;
        at = subst (λ i. get s' i ≡ some minted) here new_at;
        same_text = ap some same;
      }
      | inr old ↦ HoldsText-mono text_new-Extends (v.texts_lead y id old)
    ]

    text_new-terms_keyed :
        (id : Cell) (t : Term)
        → get s' id ≡ some t
        → t.text ≡ none
        → lookup (t.functor, t.args) s'.by_key ≡ some id
    text_new-terms_keyed id t h bare = elim (get-cases s s' (s.next + 1) minted refl id h) [
      | inl (here, same) ↦ cc (ap (λ u. u.text) same)
      | inr old ↦ v.terms_keyed id t old bare
    ]

    text_new-texts_keyed :
        (id : Cell) (t : Term) (y : Text)
        → get s' id ≡ some t
        → t.text ≡ some y
        → lookup y s'.by_text ≡ some id
    text_new-texts_keyed id t y h texted = elim (get-cases s s' (s.next + 1) minted refl id h) [
      | inl (here, same) ↦
          let xy : x ≡ y = some_injective (ap (λ u. u.text) same ∙ texted) in
          subst (λ z. lookup z s'.by_text ≡ some id) xy
            (lookup-insert_self x (pos (s.next + 1)) s.by_text ∙ ap some here)
      | inr old ↦
          lookup-insert_old x y (pos (s.next + 1)) s.by_text unknown
            (v.texts_keyed id t y old texted)
    ]

    text_new-TermsValid : TermsValid s'
    text_new-TermsValid = record {
      slots = omega (arith, length-put_slot s.by_id (s.next + 1) minted v.slots);
      keys_lead = λ f a id h. HoldsTerm-mono text_new-Extends (v.keys_lead f a id h);
      texts_lead = text_new-texts_lead;
      terms_keyed = text_new-terms_keyed;
      texts_keyed = text_new-texts_keyed;
    }

  pub mint_text-TermsValid :
      {id : Cell} {s' : Interner}
      → TermsValid s
      → mint_text x s ≡ some (id, s')
      → TermsValid s' × Extends s s'
  mint_text-TermsValid v h = elim (mint_text-cases h) [
    | inl (_, same) ↦ subst (λ u. TermsValid u × Extends s u) (sym same) (v, λ id t at. at)
    | inr (unknown, _, made) ↦
        subst (λ u. TermsValid u × Extends s u) (sym made)
          (text_new-TermsValid v unknown, text_new-Extends v unknown)
  ]

  mint_text-lookup :
      {id : Cell} {s' : Interner} → mint_text x s ≡ some (id, s') → lookup x s'.by_text ≡ some id
  mint_text-lookup h = elim (mint_text-cases h) [
    | inl (known, same) ↦ rw same known
    | inr (_, here, made) ↦ rw (made, here) (lookup-insert_self x (pos (s.next + 1)) s.by_text)
  ]

  -- In a valid dictionary, the id that a text is minted under reads back as the text, and minting the
  -- text again gives that id and changes nothing.
  pub text-mint_text :
      {id : Cell} {s' : Interner}
      → TermsValid s
      → mint_text x s ≡ some (id, s')
      → (text s' id ≡ some x) × (mint_text x s' ≡ some (id, s'))
  unfolding text mint_text known_or_new
  text-mint_text {id} {s'} v h =
      let keyed = mint_text-lookup h in
      let there = (mint_text-TermsValid v h).0.texts_lead x id keyed in
      (rw there.at there.same_text, rw keyed)
