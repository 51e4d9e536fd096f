-- ===== src/Engine/Lowering/Decoded.antt =====
-- The side of a join that `decoded` finds.
use sqlite_ivm.Base.{
  ℕ, ◌≡◌, refl, ap, ◌∙◌, Bool, true, false, Option, none, some, List, [], ◌∷◌, length, get_elem?,
  >>=-eq-some, some_injective, subst, not, ◌&&◌, ◌||◌, if◌then◌else◌, ◌==◌, nat_eq, nat_eqb_iff,
  ◌⊎◌, sym, inl, inr, arith,
}
use sqlite_ivm.Ir.Syntax.{
  RelId, NodeId, ColId, Op, Program, RelKind, Relation, rel, kind_eq, kind_eqb_iff,
}
use sqlite_ivm.Engine.Lowering.{
  Port, any_defined, gotten, is_constructor, decoded_side, or_else, decoded,
}

if-some {ℓ} :
    {A : Type ℓ} (b : Bool) {a x : A} → (if b then some a else none) ≡ some x → (b ≡ true) × (a ≡ x)
if-some true h = (refl, some_injective h)
if-some false h = cc

if-none {ℓ} :
    {A : Type ℓ} (b : Bool) {o : Option A} {x : A}
    → (if b then none else o) ≡ some x
    → (b ≡ false) × (o ≡ some x)
if-none true h = cc
if-none false h = (refl, h)

module _ {ℓ} {C : Type ℓ} (p : Program) (defined : List (RelId × C)) where
  -- A join of two inputs has one class of two ports on different sides. One is the first column of the
  -- rows of a constructor that is not defined, `found.2`, on the side `found.0`; the other is the
  -- column `found.1`.
  pub record Decodes (inputs : List NodeId) (equivalences : List (List Port))
      (found : ℕ × ColId × RelId) : Type 0 where
    pub node : NodeId
    pub relation : Relation
    pub two : length inputs ≡ 2
    pub at : get_elem? inputs found.0 ≡ some node
    pub reads : get_elem? p.nodes node ≡ some (Op.get found.2)
    pub known : rel p found.2 ≡ some relation
    pub kind : relation.kind ≡ RelKind.constructor
    pub is_open : any_defined p defined found.2 defined ≡ false
    pub other : ℕ
    pub apart : (other == found.0) ≡ false
    pub class :
        (equivalences ≡ ((found.0, 0) ∷ (other, found.1) ∷ []) ∷ [])
        ⊎ (equivalences ≡ ((other, found.1) ∷ (found.0, 0) ∷ []) ∷ [])

  gotten-get : (op : Op) {id : RelId} → gotten p defined op ≡ some id → op ≡ Op.get id
  gotten-get op h = ground arith

  -- One side, where the class has the port `(side, col)` and another.
  Decodes-side :
      (inputs : List NodeId) (first second : Port) (side other : ℕ) (col key : ColId)
      {found : ℕ × ColId × RelId}
      → length inputs ≡ 2
      → (other == side) ≡ false
      → (if first.0 == side then second.1 else first.1) ≡ key
      → (((first ∷ second ∷ []) ∷ []) ≡ ((side, col) ∷ (other, key) ∷ []) ∷ [])
        ⊎ (((first ∷ second ∷ []) ∷ []) ≡ ((other, key) ∷ (side, col) ∷ []) ∷ [])
      → decoded_side p defined inputs first second (side, col) ≡ some found
      → Decodes inputs ((first ∷ second ∷ []) ∷ []) found
  unfolding decoded_side
  Decodes-side inputs first second side other col key {found} two apart named class h =
      let (n, at_n, h₁) = >>=-eq-some (get_elem? inputs side) _ h in
      let (op, at_op, h₂) = >>=-eq-some (get_elem? p.nodes n) _ h₁ in
      let (id, got, h₃) = >>=-eq-some (gotten p defined op) _ h₂ in
      let (r, known, h₄) = >>=-eq-some (rel p id) _ h₃ in
      let (yes_, whole) = if-some (is_constructor p defined id r && (col == 0)) h₄ in
      let zeroth : col ≡ 0 = (nat_eqb_iff col 0).0 (ground arith) in
      subst (Decodes inputs ((first ∷ second ∷ []) ∷ []))
        (ap (λ k. (side, k, id)) (sym named) ∙ whole)
        (record {
          node = n;
          relation = r;
          two = two;
          at = at_n;
          reads = at_op ∙ ap some (gotten-get op got);
          known = known;
          kind = (kind_eqb_iff r.kind RelKind.constructor).0 (ground arith);
          is_open = ground arith;
          other = other;
          apart = apart;
          class =
              subst
                (λ c.
                  (((first ∷ second ∷ []) ∷ []) ≡ ((side, c) ∷ (other, key) ∷ []) ∷ [])
                  ⊎ (((first ∷ second ∷ []) ∷ []) ≡ ((other, key) ∷ (side, c) ∷ []) ∷ []))
                zeroth class;
        })

  -- What `decoded` finds.
  pub Decodes-found :
      (inputs : List NodeId) (equivalences : List (List Port)) {found : ℕ × ColId × RelId}
      → decoded p defined inputs equivalences ≡ some found
      → Decodes inputs equivalences found
  unfolding decoded
  Decodes-found inputs [] h = cc
  Decodes-found inputs ([] ∷ []) h = cc
  Decodes-found inputs ((a ∷ []) ∷ []) h = cc
  Decodes-found inputs ((a ∷ b ∷ c ∷ rest) ∷ []) h = cc
  Decodes-found inputs (x ∷ y ∷ rest) h = cc
  Decodes-found inputs (((i, a) ∷ (j, b) ∷ []) ∷ []) {found} h =
      let (fits, found_) = if-none (not (length inputs == 2) || (i == j)) h in
      let two : length inputs ≡ 2 = (nat_eqb_iff (length inputs) 2).0 (ground arith) in
      let apart : (i == j) ≡ false = ground arith in
      elim (or_else-cases _ _ found_) [
        | inl left ↦
            Decodes-side inputs (i, a) (j, b) i j a b two (eq-swap apart)
              (rw ((nat_eqb_iff i i).1 refl) refl) (inl refl) left
        | inr right ↦
            Decodes-side inputs (i, a) (j, b) j i b a two apart (rw apart refl) (inr refl) right
      ]
    where
      eq-swap : (i == j) ≡ false → (j == i) ≡ false
      eq-swap h = ground arith

      or_else-cases :
          (x y : Option (ℕ × ColId × RelId))
          → or_else p defined x y ≡ some found
          → (x ≡ some found) ⊎ (y ≡ some found)
      or_else-cases none y h = inr h
      or_else-cases (some f) y h = inl h

  -- What an answer says of a join: that the side decodes, or that no side does.
  abbrev pub Decoding : List NodeId → List (List Port) → Option (ℕ × ColId × RelId) → Type 0
  Decoding inputs equivalences (some found) = Decodes inputs equivalences found
  Decoding inputs equivalences none =
      (found : ℕ × ColId × RelId) → ¬ Decodes inputs equivalences found
