-- ===== src/Terms/Mint.antt =====
-- `mint`, `mint_text`: what they return, and that they keep the dictionary valid.
use sqlite_ivm.Base.{
  ◌+◌, some_injective, ◌≡◌, refl, sym, ap, subst, ◌∙◌, pos, none, some, List, lookup,
  lookup-insert_self, lookup-insert_cases, lookup-insert_old, ◌⊎◌, inl, inr, pair_eq, list_eq,
  nat_eq, int_eq, arith,
}
use sqlite_ivm.Ir.Syntax.{Cell, Row, Text, Ty}
use sqlite_ivm.Terms.{Term, Interner, mint, mint_new, known_or_new, get}
use sqlite_ivm.Terms.Slots.{length-put_slot}
use sqlite_ivm.Terms.Valid.{
  HoldsTerm, TermsValid, known_or_new-cases, get-new, get-old, get-cases, Extends, HoldsTerm-mono,
  HoldsText-mono,
}

module _ (f : Text) (a : Row) (types : List Ty) (s : Interner) where
  -- A known key gives its id and changes nothing; another takes the next id.
  pub mint-cases :
      {id : Cell} {s' : Interner}
      → mint f a types s ≡ some (id, s')
      → (lookup (f, a) s.by_key ≡ some id) × (s' ≡ s)
        ⊎ (lookup (f, a) s.by_key ≡ none)
          × (id ≡ pos (s.next + 1))
          × (s' ≡ mint_new f a types s (s.next + 1))
  unfolding mint
  mint-cases h = known_or_new-cases (lookup (f, a) s.by_key) (mint_new f a types s) s h

  module _ (v : TermsValid s) (unknown : lookup (f, a) s.by_key ≡ none) where
    abbrev s' : Interner
    s' = mint_new f a types s (s.next + 1)

    abbrev minted : Term
    minted = record { functor = f; args = a; types = types; text = none }

    new_at : get s' (pos (s.next + 1)) ≡ some minted
    new_at = get-new s s' (s.next + 1) minted refl

    pub mint_new-Extends : Extends s s'
    mint_new-Extends = get-old s s' (s.next + 1) minted refl v.slots

    mint_new-keys_lead :
        (g : Text) (b : Row) (id : Cell) → lookup (g, b) s'.by_key ≡ some id → HoldsTerm s' g b id
    mint_new-keys_lead g b id h =
        elim (lookup-insert_cases (f, a) (g, b) (pos (s.next + 1)) s.by_key h) [
          | inl (same, here) ↦ record {
            held = minted;
            at = subst (λ i. get s' i ≡ some minted) here new_at;
            same_functor = ap (λ k. k.0) same;
            same_args = ap (λ k. k.1) same;
            no_text = refl;
          }
          | inr old ↦ HoldsTerm-mono mint_new-Extends (v.keys_lead g b id old)
        ]

    mint_new-terms_keyed :
        (id : Cell) (t : Term)
        → get s' id ≡ some t
        → t.text ≡ none
        → lookup (t.functor, t.args) s'.by_key ≡ some id
    mint_new-terms_keyed id t h bare = elim (get-cases s s' (s.next + 1) minted refl id h) [
      | inl (here, same) ↦
          subst (λ u. lookup (u.functor, u.args) s'.by_key ≡ some id) same
            (lookup-insert_self (f, a) (pos (s.next + 1)) s.by_key ∙ ap some here)
      | inr old ↦
          lookup-insert_old (f, a) (t.functor, t.args) (pos (s.next + 1)) s.by_key unknown
            (v.terms_keyed id t old bare)
    ]

    mint_new-texts_keyed :
        (id : Cell) (t : Term) (x : Text)
        → get s' id ≡ some t
        → t.text ≡ some x
        → lookup x s'.by_text ≡ some id
    mint_new-texts_keyed id t x h texted = elim (get-cases s s' (s.next + 1) minted refl id h) [
      | inl (here, same) ↦ cc (ap (λ u. u.text) same)
      | inr old ↦ v.texts_keyed id t x old texted
    ]

    mint_new-TermsValid : TermsValid s'
    mint_new-TermsValid = record {
      slots = omega (arith, length-put_slot s.by_id (s.next + 1) minted v.slots);
      keys_lead = mint_new-keys_lead;
      texts_lead = λ x id h. HoldsText-mono mint_new-Extends (v.texts_lead x id h);
      terms_keyed = mint_new-terms_keyed;
      texts_keyed = mint_new-texts_keyed;
    }

  -- A mint that returns from a valid dictionary leaves a valid one, with every earlier entry in its
  -- place.
  pub mint-TermsValid :
      {id : Cell} {s' : Interner}
      → TermsValid s
      → mint f a types s ≡ some (id, s')
      → TermsValid s' × Extends s s'
  mint-TermsValid v h = elim (mint-cases h) [
    | inl (_, same) ↦ subst (λ u. TermsValid u × Extends s u) (sym same) (v, λ id t at. at)
    | inr (unknown, _, made) ↦
        subst (λ u. TermsValid u × Extends s u) (sym made)
          (mint_new-TermsValid v unknown, mint_new-Extends v unknown)
  ]

  -- The id that a mint returns from a valid dictionary is the one its key leads to, and the slot of
  -- that id holds a term of the minted functor and arguments.
  pub mint-HoldsTerm :
      {id : Cell} {s' : Interner}
      → TermsValid s
      → mint f a types s ≡ some (id, s')
      → (lookup (f, a) s'.by_key ≡ some id) × HoldsTerm s' f a id
  mint-HoldsTerm {id} {s'} v h =
      let keyed : lookup (f, a) s'.by_key ≡ some id = elim (mint-cases h) [
        | inl (known, same) ↦ rw same known
        | inr (_, here, made) ↦
            rw (made, here) (lookup-insert_self (f, a) (pos (s.next + 1)) s.by_key)
      ] in
      (keyed, (mint-TermsValid v h).0.keys_lead f a id keyed)

  -- After a mint in a valid dictionary, minting the same functor and arguments again, whatever the
  -- types, gives the same id and changes nothing.
  pub mint-again :
      {id : Cell} {s' : Interner} (again : List Ty)
      → TermsValid s
      → mint f a types s ≡ some (id, s')
      → mint f a again s' ≡ some (id, s')
  unfolding mint known_or_new
  mint-again again v h = rw (mint-HoldsTerm v h).0

-- Two mints in a row, the first in a valid dictionary, that return the same id had the same functor
-- and the same arguments.
pub mint_injective :
    (f g : Text) (a b : Row) (ft gt : List Ty) (s : Interner) {id : Cell} {s₁ s₂ : Interner}
    → TermsValid s
    → mint f a ft s ≡ some (id, s₁)
    → mint g b gt s₁ ≡ some (id, s₂)
    → (f ≡ g) × (a ≡ b)
mint_injective f g a b ft gt s {id} {s₁} {s₂} v first second =
    let v₁ = (mint-TermsValid f a ft s v first).0 in
    let kept = (mint-TermsValid g b gt s₁ v₁ second).1 in
    let x = HoldsTerm-mono kept (mint-HoldsTerm f a ft s v first).1 in
    let y = (mint-HoldsTerm g b gt s₁ v₁ second).1 in
    let same : x.held ≡ y.held = some_injective (sym x.at ∙ y.at) in
    (
      sym x.same_functor ∙ ap (λ t. t.functor) same ∙ y.same_functor,
      sym x.same_args ∙ ap (λ t. t.args) same ∙ y.same_args,
    )
