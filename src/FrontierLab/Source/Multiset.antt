-- ===== src/FrontierLab/Source/Multiset.antt =====
-- A relation as the multiset of its rows: what the source writes do to an engine.
pub mod Turns
pub mod Rows
pub mod Net
use sqlite_ivm.Base.{
  ℕ, zero, suc, ◌+◌, ◌-◌, ◌≤◌, ◌<◌, ◌^◌, ℤ, pos, negsuc, pos_part, neg_part, wrapping_sub, ◌≡◌, ◌≢◌,
  refl, sym, ap, subst, ◌∙◌, inl, inr, Bool, true, false, Bool-cases, Option, none, some, List, [],
  ◌∷◌, length, get_elem?, set, All, ◌==◌, int_eq, list_eq, list_eqb_iff, beq_refl, beq-ne, All-map,
  lookup, insert, remove, lookup-insert, if◌then◌else◌, arith,
}
use sqlite_ivm.Ir.Syntax.{Row}
use sqlite_ivm.FrontierLab.Types.{RelId, RowId, Stage, Outcome}
use sqlite_ivm.FrontierLab.Storage.{Counts, Relation, Undo, Engine, or_unknown, relation}
use sqlite_ivm.FrontierLab.Journal.{or_empty, put, modify_at, in_relation, pop_ids}
use sqlite_ivm.FrontierLab.Journal.View.{update}
use sqlite_ivm.FrontierLab.Journal.View.Replay.{ids-put}
use sqlite_ivm.FrontierLab.Step.{
  Action, pure, ask, continue_, ◌then◌, for_each, times, push_undo, store,
}
use sqlite_ivm.FrontierLab.Source.{
  allocate_from, allocate, place_row, insert_slot, write_relation, insert_row, popped_row,
  free_slot, remove_slot, last_id, remove_found, remove_row, write_source,
}
use sqlite_ivm.FrontierLab.Maps.{or_zero}
use sqlite_ivm.FrontierLab.Source.Slots.{get_elem?-set}

-- How many rows have a value.
abbrev pub multiplicity : Relation → Row → ℕ
multiplicity r row = length (or_empty (lookup row r.by_value))

modify_at-set :
    (f : Relation → Option Relation) (xs : List Relation) (i : ℕ) (x y : Relation)
    → get_elem? xs i ≡ some x
    → f x ≡ some y
    → modify_at f xs i ≡ some (set xs i y)
modify_at-set f [] i x y at h = cc
modify_at-set f (z ∷ xs) zero x y at h =
    let same : f z ≡ some y = subst (λ w. f w ≡ some y) (some_eq (sym at)) h in rw same refl
  where
    some_eq : {a b : Relation} → some a ≡ some b → a ≡ b
    some_eq e = cc
modify_at-set f (z ∷ xs) (suc i) x y at h = rw (modify_at-set f xs i x y at h) refl

-- An engine after a write to one relation.
abbrev pub written : RelId → Undo → Relation → Engine → Engine
written id undo s e = push_undo undo (record e { relations = set e.relations id s })

module _ (id : RelId) (e : Engine) (r : Relation) (at : get_elem? e.relations id ≡ some r) where
  write_relation-written :
      (undo : Undo) (f : Relation → Option Relation) (s : Relation)
      → f r ≡ some s
      → write_relation id undo f e ≡ (written id undo s e, Outcome.ok tt)
  unfolding in_relation
  write_relation-written undo f s h = rw (modify_at-set f e.relations id r s at h) refl

  relation-source : relation e id Stage.source ≡ Outcome.ok r
  unfolding relation
  relation-source = ap (or_unknown id Stage.source) at

  pub insert_row-written :
      (row : Row)
      → insert_row id row e ≡ (
        written id
            (Undo.insert_ id (allocate r).0 (allocate r).1)
            (place_row (allocate r).0 row (allocate r).2)
            e,
        Outcome.ok (allocate r).0,
      )
  unfolding insert_row insert_slot ask pure ◌then◌
  insert_row-written row = rw relation-source (
      rw
        (write_relation-written (Undo.insert_ id (allocate r).0 (allocate r).1) (insert_slot row)
          (place_row (allocate r).0 row (allocate r).2) refl)
        refl)

  pub remove_row-written :
      (row : Row) (slot : ℕ) (more : List ℕ) (left : List (Row × List ℕ))
      → lookup row r.by_value ≡ some (slot ∷ more)
      → pop_ids row (slot ∷ more) r.by_value ≡ some (slot, left)
      → remove_row id row e ≡ (
        written id (Undo.remove_ id slot row) (free_slot (slot, left) r) e,
        Outcome.ok (some slot),
      )
  unfolding remove_row remove_slot ask pure ◌then◌
  remove_row-written row slot more left looked popped = rw relation-source (
      rw looked (
        rw
          (write_relation-written (Undo.remove_ id slot row) (remove_slot row)
            (free_slot (slot, left) r) (rw looked (rw popped refl)))
          refl))
