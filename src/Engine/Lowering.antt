-- ===== src/Engine/Lowering.antt =====
-- crates/ivm-engine/src/1_rel.rs: which nodes an operator is lowered from. `decoded` finds the join
-- that reads a constructor, `projected_join` the join that is built with its projection.
pub mod Decoded
pub mod Inputs
use sqlite_ivm.Base.{
  ℕ, zero, suc, ◌-◌, Bool, true, false, ◌&&◌, ◌||◌, not, Option, none, some, List, [], ◌∷◌, length,
  get_elem?, ◌>>=◌, ◌==◌, nat_eq, leb, if◌then◌else◌,
}
use sqlite_ivm.Ir.Syntax.{RelId, NodeId, ColId, RelKind, Relation, kind_eq, Expr, Op, Program, rel}

abbrev pub Port : Type 0
Port = ℕ × ColId

abbrev pub is_empty {ℓ} : {A : Type ℓ} → List A → Bool
is_empty [] = true
is_empty (x ∷ xs) = false

module _ {ℓ} {C : Type ℓ} (p : Program) (defined : List (RelId × C)) where
  abbrev pub any_defined : RelId → List (RelId × C) → Bool
  any_defined id [] = false
  any_defined id ((r, c) ∷ rest) = (r == id) || any_defined id rest

  -- `let Op::Get(rel) = .. else { return None }`
  abbrev pub gotten : Op → Option RelId
  gotten (Op.get id) = some id
  gotten _ = none

  abbrev pub is_constructor : RelId → Relation → Bool
  is_constructor id r = (r.kind == RelKind.constructor) && not (any_defined id defined)

  -- One candidate side of the class `first`, `second`.
  unfoldable pub decoded_side : List NodeId → Port → Port → Port → Option (ℕ × ColId × RelId)
  decoded_side inputs first second port = get_elem? inputs port.0 >>= λ node.
      get_elem? p.nodes node >>= λ op. gotten op >>= λ id. rel p id >>= λ r.
      if is_constructor id r && (port.1 == 0)
      then some (port.0, (if first.0 == port.0 then second.1 else first.1), id)
      else none

  abbrev pub or_else {κ} : {A : Type κ} → Option A → Option A → Option A
  or_else none next = next
  or_else (some a) next = some a

  abbrev pub decoded_pair : List NodeId → List Port → Option (ℕ × ColId × RelId)
  decoded_pair inputs (first ∷ second ∷ []) =
      if not (length inputs == 2) || (first.0 == second.0)
      then none
      else or_else (decoded_side inputs first second first)
          (decoded_side inputs first second second)
  decoded_pair inputs _ = none

  unfoldable pub decoded : List NodeId → List (List Port) → Option (ℕ × ColId × RelId)
  decoded inputs (class ∷ []) = decoded_pair inputs class
  decoded inputs _ = none

  abbrev pub Joined : Type 0
  Joined = List NodeId × List (List Port) × List ColId

  abbrev pub unprojected : List ColId → Op → Option Joined
  unprojected project (Op.join inputs equivalences []) = some (inputs, equivalences, project)
  unprojected project _ = none

  -- The join and the projection, before the tests of its shape.
  abbrev pub join_of : Op → Option Joined
  join_of (Op.join inputs equivalences project) =
      if is_empty project then none else some (inputs, equivalences, project)
  join_of (Op.mfp input filter map project) =
      if not (is_empty filter) || not (is_empty map) || is_empty project
      then none
      else (get_elem? p.nodes input >>= unprojected project)
  join_of _ = none

  abbrev pub is_none {κ} : {A : Type κ} → Option A → Bool
  is_none none = true
  is_none (some a) = false

  unfoldable pub projected_join : Op → Option Joined
  projected_join op = join_of op >>= λ (inputs, equivalences, project).
      if (length inputs == 2) && is_none (decoded inputs equivalences)
      then some (inputs, equivalences, project)
      else none

  -- `inputs[1 - side]`: where the side is over 1 the subtraction underflows, and panics like an
  -- index out of bounds.
  abbrev pub join_inputs : List NodeId → Option (ℕ × ColId × RelId) → Option (List NodeId)
  join_inputs inputs none = some inputs
  join_inputs inputs (some (side, col, id)) =
      if leb side 1 then (get_elem? inputs (1 - side) >>= λ other. some (other ∷ [])) else none

  unfoldable pub op_inputs : Op → Option (List NodeId)
  op_inputs (Op.get _) = some []
  op_inputs (Op.delay _) = some []
  op_inputs (Op.mint input _ _) = some (input ∷ [])
  op_inputs (Op.str_cons input _) = some (input ∷ [])
  op_inputs (Op.str input _ _) = some (input ∷ [])
  op_inputs (Op.vec input _ _) = some (input ∷ [])
  op_inputs (Op.mfp input _ _ _) = some (input ∷ [])
  op_inputs (Op.negate input) = some (input ∷ [])
  op_inputs (Op.reduce input _ _) = some (input ∷ [])
  op_inputs (Op.threshold input) = some (input ∷ [])
  op_inputs (Op.topk input _ _ _) = some (input ∷ [])
  op_inputs (Op.window input _ _ _) = some (input ∷ [])
  op_inputs (Op.join inputs equivalences _) = join_inputs inputs (decoded inputs equivalences)
  op_inputs (Op.union inputs) = some inputs
  op_inputs (Op.antijoin l r _ _) = some (l ∷ r ∷ [])

  unfoldable pub lowered_inputs : Op → Bool → Option (List NodeId)
  lowered_inputs op fuse = elim (projected_join op) [
    | none ↦ op_inputs op
    | some join ↦ if fuse then some join.0 else op_inputs op
  ]
