-- ===== src/FrontierLab/Source/Undone.antt =====
-- What `insert_row` and `remove_row` do to a relation, and that their undo entries take it back.
use sqlite_ivm.Base.{
  ℕ, ◌≡◌, refl, sym, ap, subst, ◌∙◌, Bool, true, false, none, some, List, [], ◌∷◌, ◌++◌, length,
  get_elem?, set, All, int_eq, list_eq, lookup, ◌>>◌, >>=-eq-some, some_injective,
}
use sqlite_ivm.Ir.Syntax.{Row}
use sqlite_ivm.FrontierLab.Storage.{Relation}
use sqlite_ivm.FrontierLab.Journal.{or_empty, init, pop_ids, undo_insert_rows, undo_insert_free}
use sqlite_ivm.FrontierLab.Journal.View.{
  RelationView, view_relation, update, update_self, update_back,
}
use sqlite_ivm.FrontierLab.Journal.View.Undo.{popped, undo_insert_view, undo_remove_view}
use sqlite_ivm.FrontierLab.Journal.View.Replay.{ids-put}
use sqlite_ivm.FrontierLab.Source.{
  allocate_from, allocate, place_row, insert_slot, free_slot, popped_row, remove_slot,
}
use sqlite_ivm.FrontierLab.Source.Slots.{get_elem?-set, set-set, init-append}
use sqlite_ivm.FrontierLab.Source.Valid.{
  IsValid, Holds, placed_view, freed_view, placed_view-IsValid, freed_view-IsValid,
  grown_view-IsValid,
}

module _ (slot : ℕ) (row : Row) where
  undo_insert_found :
      (recycled : Bool) (v : RelationView) (ids : List ℕ)
      → get_elem? v.rows slot ≡ some (some row)
      → v.ids row ≡ slot ∷ ids
      → undo_insert_view slot recycled v
        ≡ some (record v {
          rows = undo_insert_rows recycled slot v.rows;
          free = undo_insert_free recycled slot v.free;
          ids = update row ids v.ids;
        })
  undo_insert_found recycled v ids h k = rw h (rw k refl)

  placed_back :
      (recycled : Bool) (v w : RelationView)
      → get_elem? v.rows slot ≡ some none
      → undo_insert_rows recycled slot (set v.rows slot (some row)) ≡ w.rows
      → undo_insert_free recycled slot v.free ≡ w.free
      → ((q : Row) → v.ids q ≡ w.ids q)
      → v.name ≡ w.name
      → v.arity ≡ w.arity
      → undo_insert_view slot recycled (placed_view slot row v) ≡ some w
  placed_back recycled v w is rows free ids name arity =
      undo_insert_found recycled (placed_view slot row v) (v.ids row)
        (get_elem?-set v.rows slot (some row) is) (update_self row (slot ∷ v.ids row) v.ids)
      ∙ (λ i. some (record {
        name = name i;
        arity = arity i;
        rows = rows i;
        free = free i;
        ids = λ q. (update_back row (slot ∷ v.ids row) v.ids q ∙ ids q) i;
      }))

  view-place_row :
      (r : Relation) → view_relation (place_row slot row r) ≡ placed_view slot row (view_relation r)
  view-place_row r = λ i. record (view_relation r) {
    rows = set r.rows slot (some row);
    ids = λ q. ids-put row (some (slot ∷ or_empty (lookup row r.by_value))) r.by_value q i;
  }

-- A row inserted: the relation stays valid, and the undo entry gives the relation back.
pub insert_slot_undone :
    (row : Row) (r s : Relation)
    → IsValid (view_relation r)
    → insert_slot row r ≡ some s
    → IsValid (view_relation s)
      × (undo_insert_view (allocate r).0 (allocate r).1 (view_relation s) ≡ some (view_relation r))
unfolding insert_slot
insert_slot_undone row r s valid h = go r.free refl s (some_injective h)
  where
    go :
        (free : List ℕ)
        → r.free ≡ free
        → (s : Relation) → (let a = allocate_from free r in place_row a.0 row a.2) ≡ s
        → IsValid (view_relation s)
          × (undo_insert_view (allocate_from free r).0 (allocate_from free r).1 (view_relation s)
              ≡ some (view_relation r))
    go (slot ∷ free) e s h =
        let here : IsValid (record (view_relation r) { free = slot ∷ free }) =
          subst (λ f. IsValid (record (view_relation r) { free = f })) e valid in
        let seen : view_relation s
            ≡ placed_view slot row (record (view_relation r) { free = free }) =
          ap view_relation (sym h) ∙ view-place_row slot row (record r { free = free }) in
        (
          subst (λ v. IsValid v) (sym seen)
              (placed_view-IsValid slot row free (view_relation r) here),
          ap (undo_insert_view slot true) seen
              ∙ placed_back slot row true (record (view_relation r) { free = free })
                  (view_relation r) here.free.0 (set-set r.rows slot (some row) here.free.0) (sym e)
                  (λ q. refl) refl refl,
        )
    go [] e s h =
        let grown = record r { rows = r.rows ++ none ∷ [] } in
        let here = grown_view-IsValid (view_relation r) e valid in
        let seen : view_relation s ≡ placed_view (length r.rows) row (view_relation grown) =
          ap view_relation (sym h) ∙ view-place_row (length r.rows) row grown in
        (
          subst (λ v. IsValid v)
              (sym (
                seen ∙ (λ i. record (placed_view (length r.rows) row (view_relation grown)) {
                  free = e i;
                })))
              (placed_view-IsValid (length r.rows) row []
                (record (view_relation grown) { free = length r.rows ∷ [] }) here),
          ap (undo_insert_view (length r.rows) false) seen
              ∙ placed_back (length r.rows) row false (view_relation grown) (view_relation r)
                  here.free.0
                  (ap init (set-set grown.rows (length r.rows) (some row) here.free.0)
                    ∙ init-append r.rows none)
                  refl (λ q. refl) refl refl,
        )

module _ (row : Row) (r : Relation) where
  -- What popping an id leaves in the value index.
  view-pop :
      (ids : List ℕ) (popped : ℕ × List (Row × List ℕ))
      → lookup row r.by_value ≡ some ids
      → pop_ids row ids r.by_value ≡ some popped
      → (rest : List ℕ) × (ids ≡ popped.0 ∷ rest)
        × (view_relation (free_slot popped r) ≡ freed_view popped.0 row rest (view_relation r))
  view-pop [] popped found h = cc
  view-pop (slot ∷ []) popped found h = (
    [],
    ap (λ p. p.0 ∷ []) (some_injective h),
    subst (λ p. view_relation (free_slot p r) ≡ freed_view p.0 row [] (view_relation r))
        (some_injective h)
        (λ i. record (view_relation r) {
          rows = set r.rows slot none;
          free = slot ∷ r.free;
          ids = λ q. ids-put row none r.by_value q i;
        }),
  )
  view-pop (slot ∷ next ∷ ids) popped found h = (
    next ∷ ids,
    ap (λ p. p.0 ∷ next ∷ ids) (some_injective h),
    subst (λ p. view_relation (free_slot p r) ≡ freed_view p.0 row (next ∷ ids) (view_relation r))
        (some_injective h)
        (λ i. record (view_relation r) {
          rows = set r.rows slot none;
          free = slot ∷ r.free;
          ids = λ q. ids-put row (some (next ∷ ids)) r.by_value q i;
        }),
  )

  freed_back :
      (slot : ℕ) (ids : List ℕ) (v : RelationView)
      → get_elem? v.rows slot ≡ some (some row)
      → v.ids row ≡ slot ∷ ids
      → undo_remove_view slot row (slot ∷ v.free) (freed_view slot row ids v) ≡ some v
  freed_back slot ids v holds e =
      ap
        (λ o.
          o
          >> some (record v {
            rows = set (set v.rows slot none) slot (some row);
            ids = update row (slot ∷ update row ids v.ids row) (update row ids v.ids);
          }))
        (get_elem?-set v.rows slot none holds)
      ∙ (λ i. some (record v {
        rows = set-set v.rows slot none holds i;
        ids = λ q.
            (ap (λ is. update row is (update row ids v.ids) q)
                  (ap (λ is. slot ∷ is) (update_self row ids v.ids) ∙ sym e)
                ∙ update_back row ids v.ids q)
              i;
      }))

head_eq : {a b : ℕ} {as_ bs : List ℕ} → a ∷ as_ ≡ b ∷ bs → a ≡ b
head_eq h = cc

-- A row removed from the slot that its undo entry names.
pub remove_slot_undone :
    (row : Row) (r s : Relation) (slot : ℕ) (more : List ℕ)
    → IsValid (view_relation r)
    → lookup row r.by_value ≡ some (slot ∷ more)
    → remove_slot row r ≡ some s
    → IsValid (view_relation s)
      × (undo_remove_view slot row s.free (view_relation s) ≡ some (view_relation r))
unfolding remove_slot
remove_slot_undone row r s slot more valid found h =
    let (p, first, whole) = >>=-eq-some (popped_row row r) (λ p. some (free_slot p r)) h in
    let (ids, looked, taken) =
      >>=-eq-some (lookup row r.by_value) (λ ids. pop_ids row ids r.by_value) first in
    let (rest, split, seen) = view-pop row r ids p looked taken in
    let e : (view_relation r).ids row ≡ p.0 ∷ rest = ap or_empty looked ∙ split in
    let holds = (subst (λ is. All (Holds row r.rows) is) e (valid.ids row)).0 in
    let same : p.0 ≡ slot = head_eq (sym split ∙ some_injective (sym looked ∙ found)) in
    subst
      (λ t.
        IsValid (view_relation t)
        × (undo_remove_view slot row t.free (view_relation t) ≡ some (view_relation r)))
      (some_injective whole)
      (
        subst (λ v. IsValid v) (sym seen)
            (freed_view-IsValid p.0 row rest (view_relation r) e valid),
        subst
            (λ n.
              undo_remove_view n row (p.0 ∷ r.free) (view_relation (free_slot p r))
              ≡ some (view_relation r))
            same
            (ap (undo_remove_view p.0 row (p.0 ∷ r.free)) seen
              ∙ freed_back row r p.0 rest (view_relation r) holds e),
      )
