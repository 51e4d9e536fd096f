-- ===== src/Terms/MintAny.antt =====
-- `Any` values minted, with the integers that integral reals bring along.
use sqlite_ivm.Base.{
  ℕ, nat_eq, ◌==◌, ◌&&◌, not, if◌then◌else◌, ℤ, ◌+◌, ◌≤◌, ◌≡◌, refl, ap, subst, ◌∙◌, inl, inr, pos,
  pos_part, Option, none, some, some_injective, lookup, int_eq, lookup-insert_self, lookup-insert,
  Bool-cases, lookup-insert_ne, lookup-insert_cases, >>=-eq-some, arith,
}
use sqlite_ivm.Ir.Syntax.{Cell, AnyValue, any_value_eq}
use sqlite_ivm.Terms.{
  Interner, empty, any_new, insert_any, without_nan, with_integer, with_companion, mint_companion,
  any_or_new, mint_any, any_value,
}
use sqlite_ivm.Terms.Float.{integral, is_nan, exponent, fraction}
use sqlite_ivm.Terms.Valid.{known_or_new-cases}

-- A real that is an integer has the integer's id.
abbrev pub HasCompanion : AnyValue → Interner → Type 0
HasCompanion (AnyValue.real bits) s =
    (i : ℤ)
    → integral bits ≡ some i
    → (id : Cell) × (lookup (AnyValue.integer i) s.by_any ≡ some id)
HasCompanion AnyValue.null s = Unit
HasCompanion (AnyValue.integer i) s = Unit
HasCompanion (AnyValue.text t) s = Unit
HasCompanion (AnyValue.blob b) s = Unit

-- Each value leads to the id that holds it, one that was handed out, and each real that is an integer
-- is there with that integer.
pub record AnyValid (s : Interner) : Type 0 where
  pub leads :
      (v : AnyValue) (id : Cell)
      → lookup v s.by_any ≡ some id
      → (lookup id s.any_by_id ≡ some v) × (pos_part id ≤ s.next)
  pub companion : (v : AnyValue) (id : Cell) → lookup v s.by_any ≡ some id → HasCompanion v s

pub empty-AnyValid : AnyValid empty
unfolding lookup
empty-AnyValid = record { leads = λ v id h. cc; companion = λ v id h. cc }

module _ (v : AnyValue) (s : Interner) (valid : AnyValid s) (with_it : HasCompanion v s) where
  abbrev made : Interner
  made = any_new v s (s.next + 1)

  above : (id : Cell) → pos_part id ≤ s.next → s.next + 1 ≡ pos_part id → ⊥
  above id small same = omega arith

  made-leads :
      (w : AnyValue) (id : Cell)
      → lookup w made.by_any ≡ some id
      → (lookup id made.any_by_id ≡ some w) × (pos_part id ≤ s.next + 1)
  made-leads w id h = elim (lookup-insert_cases v w (pos (s.next + 1)) s.by_any h) [
    | inl (value, here) ↦
        let number = ap pos_part here in
        (
          subst (λ i. lookup i made.any_by_id ≡ some w) here
              (lookup-insert_self (pos (s.next + 1)) v s.any_by_id ∙ ap some value),
          omega arith,
        )
    | inr old ↦
        let (held, small) = valid.leads w id old in
        (
          lookup-insert_ne (pos (s.next + 1)) id v s.any_by_id
                (λ same. above id small (ap pos_part same))
              ∙ held,
          omega arith,
        )
  ]

  -- A value that had an id has one.
  made_kept :
      (w : AnyValue) (id : Cell)
      → lookup w s.by_any ≡ some id
      → (now : Cell) × (lookup w made.by_any ≡ some now)
  made_kept w id h = elim (Bool-cases (v == w)) [
    | inl same ↦ (pos (s.next + 1), rw (lookup-insert, same) refl)
    | inr other ↦ (id, rw (lookup-insert, other) h)
  ]

  made-HasCompanion : (w : AnyValue) → HasCompanion w s → HasCompanion w made
  made-HasCompanion (AnyValue.real bits) h =
      λ i whole. let (id, at) = h i whole in made_kept (AnyValue.integer i) id at
  made-HasCompanion AnyValue.null h = tt
  made-HasCompanion (AnyValue.integer i) h = tt
  made-HasCompanion (AnyValue.text t) h = tt
  made-HasCompanion (AnyValue.blob b) h = tt

  made-companion : (w : AnyValue) (id : Cell) → lookup w made.by_any ≡ some id → HasCompanion w made
  made-companion w id h = elim (lookup-insert_cases v w (pos (s.next + 1)) s.by_any h) [
    | inl (value, _) ↦ made-HasCompanion w (subst (λ u. HasCompanion u s) value with_it)
    | inr old ↦ made-HasCompanion w (valid.companion w id old)
  ]

  insert_any-AnyValid :
      {id : Cell} {s' : Interner}
      → insert_any v s ≡ some (id, s')
      → AnyValid s' × (any_value s' id ≡ some v) × (lookup v s'.by_any ≡ some id)
  unfolding insert_any any_value
  insert_any-AnyValid {id} {s'} h = elim (known_or_new-cases none (any_new v s) s h) [
    | inl (no_, _) ↦ cc
    | inr (_, here, grown) ↦
        rw (grown, here)
          (
            record { leads = made-leads; companion = made-companion },
            lookup-insert_self (pos (s.next + 1)) v s.any_by_id,
            lookup-insert_self v (pos (s.next + 1)) s.by_any,
          )
  ]

with_integer-AnyValid :
    (i : ℤ) (found : Option Cell) (s : Interner) {s' : Interner}
    → lookup (AnyValue.integer i) s.by_any ≡ found
    → AnyValid s
    → with_integer i found s ≡ some s'
    → AnyValid s' × ((id : Cell) × (lookup (AnyValue.integer i) s'.by_any ≡ some id))
with_integer-AnyValid i (some id) s at valid h =
    subst (λ n. AnyValid n × ((id : Cell) × (lookup (AnyValue.integer i) n.by_any ≡ some id)))
      (some_injective h) (valid, (id, at))
with_integer-AnyValid i none s at valid h =
    let ((id, next), out, whole) = >>=-eq-some (insert_any (AnyValue.integer i) s) _ h in
    let (after, _, leads) = insert_any-AnyValid (AnyValue.integer i) s valid tt out in
    subst (λ n. AnyValid n × ((id : Cell) × (lookup (AnyValue.integer i) n.by_any ≡ some id)))
      (some_injective whole) (after, (id, leads))

with_companion-AnyValid :
    (i : Option ℤ) (s : Interner) {s' : Interner}
    → AnyValid s
    → with_companion i s ≡ some s'
    → AnyValid s'
      × ((k : ℤ) → i ≡ some k → (id : Cell) × (lookup (AnyValue.integer k) s'.by_any ≡ some id))
with_companion-AnyValid none s valid h = (subst AnyValid (some_injective h) valid, λ k e. cc)
with_companion-AnyValid (some i) s {s'} valid h =
    let (after, (id, leads)) =
      with_integer-AnyValid i (lookup (AnyValue.integer i) s.by_any) s refl valid h in
    (
      after,
      λ k e. (
        id,
        subst (λ j. lookup (AnyValue.integer j) s'.by_any ≡ some id) (some_injective e) leads,
      ),
    )

mint_companion-AnyValid :
    (v : AnyValue) (s : Interner) {s' : Interner}
    → AnyValid s
    → mint_companion v s ≡ some s'
    → AnyValid s' × HasCompanion v s'
unfolding mint_companion
mint_companion-AnyValid (AnyValue.real bits) s valid h =
    with_companion-AnyValid (integral bits) s valid h
mint_companion-AnyValid AnyValue.null s valid h = (subst AnyValid (some_injective h) valid, tt)
mint_companion-AnyValid (AnyValue.integer i) s valid h =
    (subst AnyValid (some_injective h) valid, tt)
mint_companion-AnyValid (AnyValue.text t) s valid h = (subst AnyValid (some_injective h) valid, tt)
mint_companion-AnyValid (AnyValue.blob b) s valid h = (subst AnyValid (some_injective h) valid, tt)

any_or_new-AnyValid :
    (v : AnyValue) (found : Option Cell) (s : Interner) {id : Cell} {s' : Interner}
    → lookup v s.by_any ≡ found
    → AnyValid s
    → any_or_new v found s ≡ some (id, s')
    → (any_value s' id ≡ some v) × AnyValid s' × (lookup v s'.by_any ≡ some id)
unfolding any_value
any_or_new-AnyValid v (some old) s known valid h =
    let same = some_injective h in
    subst
      (λ (out : Cell × Interner).
        (any_value out.1 out.0 ≡ some v) × AnyValid out.1 × (lookup v out.1.by_any ≡ some out.0))
      same ((valid.leads v old known).0, valid, known)
any_or_new-AnyValid v none s known valid h =
    let (next, companion, out) = >>=-eq-some (mint_companion v s) _ h in
    let (grown, with_it) = mint_companion-AnyValid v s valid companion in
    let (after, held, leads) = insert_any-AnyValid v next grown with_it out in (held, after, leads)

-- The value as it is held: a real whose exponent's bits are all ones, with a fraction, is a NaN.
abbrev pub stored : AnyValue → AnyValue
stored (AnyValue.real bits) =
    if (exponent bits == 2047) && not (fraction bits == 0)
    then AnyValue.null
    else AnyValue.real bits
stored value = value

is_nan-fraction : (bits : ℕ) → is_nan bits ≡ ((exponent bits == 2047) && not (fraction bits == 0))
unfolding is_nan
is_nan-fraction bits = ground arith

without_nan-stored : (v : AnyValue) → without_nan v ≡ stored v
unfolding without_nan
without_nan-stored (AnyValue.real bits) =
    ap (λ b. if b then AnyValue.null else AnyValue.real bits) (is_nan-fraction bits)
without_nan-stored AnyValue.null = refl
without_nan-stored (AnyValue.integer i) = refl
without_nan-stored (AnyValue.text t) = refl
without_nan-stored (AnyValue.blob b) = refl

-- Where each value leads to the id that holds it and a real that is an integer is there with that
-- integer: the id that a value is minted under is the one that the value, or `Null` for a real with the
-- bits of a NaN, leads to; it reads back as that; and in the next state, too, each value leads to the id
-- that holds it and a real that is an integer is there with that integer.
pub any_value-mint_any :
    (v : AnyValue) (s : Interner) {id : Cell} {s' : Interner}
    → AnyValid s
    → mint_any v s ≡ some (id, s')
    → (any_value s' id ≡ some (stored v)) × (lookup (stored v) s'.by_any ≡ some id) × AnyValid s'
unfolding mint_any
any_value-mint_any v s {id} {s'} valid h =
    let (held, after, leads) =
      any_or_new-AnyValid (without_nan v) (lookup (without_nan v) s.by_any) s refl valid h in
    (
      held ∙ ap some (without_nan-stored v),
      subst (λ w. lookup w s'.by_any ≡ some id) (without_nan-stored v) leads,
      after,
    )
