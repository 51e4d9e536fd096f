-- ===== src/Terms/Valid.antt =====
-- What a valid dictionary of terms and texts is: each key and each text leads to the slot that
-- holds it, each slot is found by its key or its text, and no slot lies above the ids handed out.
use sqlite_ivm.Base.{
  ℕ, ◌+◌, ◌≤◌, ◌≡◌, refl, ap, pos, negsuc, Option, none, some, length, lookup, ◌⊎◌, inl, inr,
  pair_eq, list_eq, nat_eq, int_eq, beq_refl, arith,
}
use sqlite_ivm.Ir.Syntax.{Cell, Row, Text}
use sqlite_ivm.Terms.{Term, Interner, empty, get, known_or_new}
use sqlite_ivm.Terms.Slots.{
  put_slot, get_slot-put_slot, get_slot-put_slot_old, get_slot-put_slot_cases,
}

-- Slot `id` holds a term made of `functor` and `args`.
pub record HoldsTerm (s : Interner) (functor : Text) (args : Row) (id : Cell) : Type 0 where
  pub held : Term
  pub at : get s id ≡ some held
  pub same_functor : held.functor ≡ functor
  pub same_args : held.args ≡ args
  pub no_text : held.text ≡ none

pub record HoldsText (s : Interner) (text : Text) (id : Cell) : Type 0 where
  pub held : Term
  pub at : get s id ≡ some held
  pub same_text : held.text ≡ some text

pub record TermsValid (s : Interner) : Type 0 where
  pub slots : length s.by_id ≤ s.next + 1
  pub keys_lead :
      (f : Text) (a : Row) (id : Cell) → lookup (f, a) s.by_key ≡ some id → HoldsTerm s f a id
  pub texts_lead : (x : Text) (id : Cell) → lookup x s.by_text ≡ some id → HoldsText s x id
  pub terms_keyed :
      (id : Cell) (t : Term)
      → get s id ≡ some t
      → t.text ≡ none
      → lookup (t.functor, t.args) s.by_key ≡ some id
  pub texts_keyed :
      (id : Cell) (t : Term) (x : Text)
      → get s id ≡ some t
      → t.text ≡ some x
      → lookup x s.by_text ≡ some id

pub empty-TermsValid : TermsValid empty
unfolding lookup get
empty-TermsValid = record {
  slots = omega arith;
  keys_lead = λ f a id h. cc;
  texts_lead = λ x id h. cc;
  terms_keyed = none_held;
  texts_keyed = none_texted;
}
  where
    none_held :
        (id : Cell) (t : Term)
        → get empty id ≡ some t
        → t.text ≡ none
        → lookup (t.functor, t.args) empty.by_key ≡ some id
    none_held (pos n) t h = cc
    none_held (negsuc n) t h = cc

    none_texted :
        (id : Cell) (t : Term) (x : Text)
        → get empty id ≡ some t
        → t.text ≡ some x
        → lookup x empty.by_text ≡ some id
    none_texted (pos n) t x h = cc
    none_texted (negsuc n) t x h = cc

-- An operation that finds its value gives the known id and changes nothing; otherwise it takes the
-- next id.
pub known_or_new-cases :
    (found : Option Cell) (make : ℕ → Interner) (s : Interner) {id : Cell} {s' : Interner}
    → known_or_new found make s ≡ some (id, s')
    → (found ≡ some id) × (s' ≡ s)
      ⊎ (found ≡ none) × (id ≡ pos (s.next + 1)) × (s' ≡ make (s.next + 1))
unfolding known_or_new
known_or_new-cases (some old) make s h = inl (ground arith, ground arith)
known_or_new-cases none make s h = inr (refl, ground arith, ground arith)

-- A state whose slots are those of `s` with one more, above them.
module _ (s s' : Interner) (n : ℕ) (t : Term) (grown : s'.by_id ≡ put_slot s.by_id n t) where
  pub get-new : get s' (pos n) ≡ some t
  unfolding get
  get-new = rw (grown, get_slot-put_slot, beq_refl)

  pub get-old : length s.by_id ≤ n → (id : Cell) (u : Term) → get s id ≡ some u → get s' id ≡ some u
  unfolding get
  get-old h (pos j) u old = rw grown (get_slot-put_slot_old s.by_id n t j h old)
  get-old h (negsuc j) u old = old

  pub get-cases :
      (id : Cell) {u : Term} → get s' id ≡ some u → (pos n ≡ id) × (t ≡ u) ⊎ (get s id ≡ some u)
  unfolding get
  get-cases (pos j) h = elim (get_slot-put_slot_cases s.by_id n t j (rw grown at h)) [
    | inl new ↦ inl (ap pos new.0, new.1)
    | inr old ↦ inr old
  ]
  get-cases (negsuc j) h = inr h

-- Every term of `s` is a term of `s'`, at its id.
abbrev pub Extends : Interner → Interner → Type 0
Extends s s' = (id : Cell) (t : Term) → get s id ≡ some t → get s' id ≡ some t

module _ {s s' : Interner} (more : Extends s s') where
  pub HoldsTerm-mono : {f : Text} {a : Row} {id : Cell} → HoldsTerm s f a id → HoldsTerm s' f a id
  HoldsTerm-mono {id = id} h = record {
    held = h.held;
    at = more id h.held h.at;
    same_functor = h.same_functor;
    same_args = h.same_args;
    no_text = h.no_text;
  }

  pub HoldsText-mono : {x : Text} {id : Cell} → HoldsText s x id → HoldsText s' x id
  HoldsText-mono {id = id} h = record {
    held = h.held;
    at = more id h.held h.at;
    same_text = h.same_text;
  }
