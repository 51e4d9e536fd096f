-- ===== src/FrontierLab/Source/Journaled.antt =====
-- The source writes keep the relations valid and are in the journal.
use sqlite_ivm.Base.{
  ℕ, pos, pos_part, wrapping_sub, ◌≡◌, refl, sym, ap, subst, ◌∙◌, Option, none, some, List, [], ◌∷◌,
  get_elem?, int_eq, list_eq, lookup, some_injective,
}
use sqlite_ivm.Ir.Syntax.{Row}
use sqlite_ivm.FrontierLab.Types.{RelId, RowId, Stage, Outcome}
use sqlite_ivm.FrontierLab.Storage.{Counts, Relation, Undo, Engine, or_unknown, relation}
use sqlite_ivm.FrontierLab.Journal.View.{view_relation}
use sqlite_ivm.FrontierLab.Journal.View.Undo.{undo_insert_view, undo_remove_view}
use sqlite_ivm.FrontierLab.Step.{pure}
use sqlite_ivm.FrontierLab.Step.Journaled.{
  JournalsAt, Journals, JournalsAt-then, JournalsAt-ask, Journals-pure, Journals-then,
  Journals-for_each, Journals-times,
}
use sqlite_ivm.FrontierLab.Step.Journaled.Writes.{JournalsAt-write_relation}
use sqlite_ivm.FrontierLab.Source.{
  allocate, insert_slot, write_relation, insert_row, remove_slot, last_id, remove_found, remove_row,
  write_source,
}
use sqlite_ivm.FrontierLab.Source.Valid.{IsValid}
use sqlite_ivm.FrontierLab.Source.Undone.{insert_slot_undone, remove_slot_undone}

relation_found :
    (e : Engine) (id : RelId) (stage : Stage) {r : Relation}
    → relation e id stage ≡ Outcome.ok r
    → get_elem? e.relations id ≡ some r
unfolding relation
relation_found e id stage h = go (get_elem? e.relations id) h
  where
    go : (o : Option Relation) {r : Relation} → or_unknown id stage o ≡ Outcome.ok r → o ≡ some r
    go none h = cc
    go (some r) h = cc

insert-JournalsAt :
    (id : RelId) (row : Row) (r : Relation) (e : Engine)
    → get_elem? e.relations id ≡ some r
    → JournalsAt
        (write_relation id (Undo.insert_ id (allocate r).0 (allocate r).1) (insert_slot row))
        e
insert-JournalsAt id row r e at =
    JournalsAt-write_relation id (Undo.insert_ id (allocate r).0 (allocate r).1) (insert_slot row)
      (undo_insert_view (allocate r).0 (allocate r).1) e
      (λ q s here valid changed.
        subst
          (λ t.
            IsValid (view_relation s)
            × (undo_insert_view (allocate t).0 (allocate t).1 (view_relation s)
                ≡ some (view_relation q)))
          (some_injective (sym here ∙ at)) (insert_slot_undone row q s valid changed))
      (λ v. refl)

pub insert_row-Journals : (id : RelId) (row : Row) → Journals (insert_row id row)
unfolding insert_row
insert_row-Journals id row e =
    JournalsAt-ask (λ e. relation e id Stage.source) _ e
      (λ r found.
        JournalsAt-then
          (write_relation id (Undo.insert_ id (allocate r).0 (allocate r).1) (insert_slot row))
          (λ _. pure (allocate r).0) e
          (insert-JournalsAt id row r e (relation_found e id Stage.source found))
          (λ _ _. Journals-pure (allocate r).0 _))

last_id_found :
    (o : Option (List ℕ)) {slot : RowId}
    → last_id o ≡ Outcome.ok (some slot)
    → (more : List ℕ) × (o ≡ some (slot ∷ more))
last_id_found none h = cc
last_id_found (some []) h = cc
last_id_found (some (top ∷ more)) h = (more, cc)

remove-JournalsAt :
    (id : RelId) (row : Row) (r : Relation) (found : Option RowId) (e : Engine)
    → get_elem? e.relations id ≡ some r
    → last_id (lookup row r.by_value) ≡ Outcome.ok found
    → JournalsAt (remove_found id row found) e
remove-JournalsAt id row r none e at last = Journals-pure {A = Option RowId} none e
remove-JournalsAt id row r (some slot) e at last =
    let (more, looked) = last_id_found (lookup row r.by_value) last in
    JournalsAt-then (write_relation id (Undo.remove_ id slot row) (remove_slot row))
      (λ _. pure (some slot)) e
      (JournalsAt-write_relation id (Undo.remove_ id slot row) (remove_slot row)
        (λ w. undo_remove_view slot row w.free w) e
        (λ q s here valid changed.
          remove_slot_undone row q s slot more valid
            (ap (λ t. lookup row t.by_value) (some_injective (sym here ∙ at)) ∙ looked) changed)
        (λ v. refl))
      (λ _ _. Journals-pure (some slot) _)

pub remove_row-Journals : (id : RelId) (row : Row) → Journals (remove_row id row)
unfolding remove_row
remove_row-Journals id row e =
    JournalsAt-ask (λ e. relation e id Stage.source) _ e
      (λ r found.
        JournalsAt-ask (λ e. last_id (lookup row r.by_value)) (remove_found id row) e
          (λ slot last.
            remove-JournalsAt id row r slot e (relation_found e id Stage.source found) last))

pub write_source-Journals : (id : RelId) (net : Counts) → Journals (write_source id net)
unfolding write_source
write_source-Journals id net =
    Journals-for_each _
      (λ _ change.
        Journals-then _ _
          (Journals-times (pos_part change.1) _ (
            Journals-then (insert_row id change.0) _ (insert_row-Journals id change.0)
              (λ _. Journals-pure tt)))
          (λ _. Journals-times (pos_part (wrapping_sub (pos 0) change.1)) _ (
            Journals-then (remove_row id change.0) _ (remove_row-Journals id change.0)
              (λ _. Journals-pure tt))))
      net tt
