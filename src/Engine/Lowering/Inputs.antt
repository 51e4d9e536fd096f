-- ===== src/Engine/Lowering/Inputs.antt =====
-- `lowered_inputs` returns.
use sqlite_ivm.Base.{
  ℕ, zero, suc, ◌-◌, ◌≡◌, refl, Bool, true, false, Option, none, some, List, [], ◌∷◌, length,
  get_elem?, nat_eq, leb, Option-cases, inl, inr, arith,
}
use sqlite_ivm.Ir.Syntax.{RelId, NodeId, ColId, Op, Program, kind_eq}
use sqlite_ivm.Engine.Lowering.{
  Port, decoded, projected_join, join_inputs, op_inputs, lowered_inputs,
}
use sqlite_ivm.Engine.Lowering.Decoded.{Decodes, Decodes-found}

-- The other of two inputs.
other_side :
    (inputs : List NodeId) (side : ℕ) {n : NodeId}
    → length inputs ≡ 2
    → get_elem? inputs side ≡ some n
    → (m : NodeId) × (leb side 1 ≡ true) × (get_elem? inputs (1 - side) ≡ some m)
other_side [] side two at = absurd (omega arith)
other_side (a ∷ []) side two at = absurd (omega arith)
other_side (a ∷ b ∷ []) zero two at = (b, refl, refl)
other_side (a ∷ b ∷ []) (suc zero) two at = (a, refl, refl)
other_side (a ∷ b ∷ []) (suc (suc side)) two at = cc
other_side (a ∷ b ∷ c ∷ inputs) side two at = absurd (omega arith)

module _ {ℓ} {C : Type ℓ} (p : Program) (defined : List (RelId × C)) where
  join_inputs-total :
      (inputs : List NodeId) (equivalences : List (List Port)) (found : Option (ℕ × ColId × RelId))
      → ((f : ℕ × ColId × RelId) → found ≡ some f → Decodes p defined inputs equivalences f)
      → (ns : List NodeId) × (join_inputs p defined inputs found ≡ some ns)
  join_inputs-total inputs equivalences none finds = (inputs, refl)
  join_inputs-total inputs equivalences (some (side, col, id)) finds =
      let d = finds (side, col, id) refl in
      let (n, low, at) = other_side inputs side d.two d.at in (n ∷ [], rw (low, at) refl)

  op_inputs-total : (op : Op) → (ns : List NodeId) × (op_inputs p defined op ≡ some ns)
  unfolding op_inputs
  op_inputs-total (Op.join inputs equivalences _) =
      join_inputs-total inputs equivalences (decoded p defined inputs equivalences)
        (λ f h. Decodes-found p defined inputs equivalences h)
  op_inputs-total (Op.get _) = (_, refl)
  op_inputs-total (Op.delay _) = (_, refl)
  op_inputs-total (Op.mint _ _ _) = (_, refl)
  op_inputs-total (Op.str_cons _ _) = (_, refl)
  op_inputs-total (Op.str _ _ _) = (_, refl)
  op_inputs-total (Op.vec _ _ _) = (_, refl)
  op_inputs-total (Op.mfp _ _ _ _) = (_, refl)
  op_inputs-total (Op.negate _) = (_, refl)
  op_inputs-total (Op.reduce _ _ _) = (_, refl)
  op_inputs-total (Op.threshold _) = (_, refl)
  op_inputs-total (Op.topk _ _ _ _) = (_, refl)
  op_inputs-total (Op.window _ _ _ _) = (_, refl)
  op_inputs-total (Op.union _) = (_, refl)
  op_inputs-total (Op.antijoin _ _ _ _) = (_, refl)

  -- `lowered_inputs` of every operator returns, without a panic: where a join decodes a constructor on
  -- a side, the other side's number does not underflow and is in bounds.
  pub lowered_inputs-total :
      (op : Op) (fuse : Bool)
      → (inputs : List NodeId) × (lowered_inputs p defined op fuse ≡ some inputs)
  unfolding lowered_inputs
  lowered_inputs-total op fuse = elim (Option-cases (projected_join p defined op)) [
    | inl none_ ↦ let (ns, h) = op_inputs-total op in (ns, rw (none_, lowered_inputs) h)
    | inr (join, some_) ↦ fused join fuse some_
  ]
    where
      fused :
          (join : List NodeId × List (List Port) × List ColId) (fuse : Bool)
          → projected_join p defined op ≡ some join
          → (inputs : List NodeId) × (lowered_inputs p defined op fuse ≡ some inputs)
      fused join true h = (join.0, rw (h, lowered_inputs) refl)
      fused join false h = let (ns, out) = op_inputs-total op in (ns, rw (h, lowered_inputs) out)
