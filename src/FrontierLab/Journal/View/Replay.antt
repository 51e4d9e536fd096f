-- ===== src/FrontierLab/Journal/View/Replay.antt =====
-- An undo entry does to the view what it does to the engine.
use mathlib.Core.Option
use sqlite_ivm.Base.{
  ℕ, ◌≡◌, refl, ap, inl, inr, Bool, Bool-cases, Option, none, some, List, [], ◌∷◌, get_elem?, set,
  ◌==◌, int_eq, list_eq, lookup, insert, ◌>>=◌, ◌>>◌,
}
use sqlite_ivm.Ir.Syntax.{Row}
use sqlite_ivm.FrontierLab.Storage.{Relation, Undo, Engine}
use sqlite_ivm.FrontierLab.Journal.{
  or_empty, put, pop_ids, undo_insert_rows, undo_insert_free, undo_insert, undo_remove_free,
  undo_remove, put_counts, put_index, put_group, undo_one,
}
use sqlite_ivm.FrontierLab.Journal.View.{RelationView, view_relation, view, update, lookup-put}
use sqlite_ivm.FrontierLab.Journal.View.Nodes.{
  put_counts_view, put_index_view, put_group_view, view-put_counts, view-put_index, view-put_group,
}
use sqlite_ivm.FrontierLab.Journal.View.Undo.{
  popped, undo_insert_view, undo_remove_view, undo_view, view-in_program, view-in_relation,
}

-- The ids of every value, after a write of one.
pub ids-put :
    (row : Row) (value : Option (List ℕ)) (m : List (Row × List ℕ)) (q : Row)
    → or_empty (lookup q (put row value m))
      ≡ update row (or_empty value) (λ r. or_empty (lookup r m)) q
ids-put row value m q =
    rw (lookup-put row q value m)
      (elim (Bool-cases (row == q)) [ inl same ↦ rw same refl | inr other ↦ rw other refl ])

module _ (slot : ℕ) (recycled : Bool) (r : Relation) where
  abbrev restored : List (Row × List ℕ) → Relation
  restored by_value = record r {
    rows = undo_insert_rows recycled slot r.rows;
    free = undo_insert_free recycled slot r.free;
    by_value = by_value;
  }

  abbrev restored_view : (Row → List ℕ) → RelationView
  restored_view ids = record (view_relation r) {
    rows = undo_insert_rows recycled slot r.rows;
    free = undo_insert_free recycled slot r.free;
    ids = ids;
  }

  view-restored :
      (row : Row) (value : Option (List ℕ))
      → view_relation (restored (put row value r.by_value))
        ≡ restored_view (update row (or_empty value) (λ q. or_empty (lookup q r.by_value)))
  view-restored row value = λ i. restored_view (λ q. ids-put row value r.by_value q i)

  view-pop_ids :
      (row : Row) (o : Option (List ℕ))
      → Option.map view_relation
          (o >>= λ ids. pop_ids row ids r.by_value >>= λ left. some (restored left.1))
        ≡ (popped (or_empty o) >>= λ ids.
            some (restored_view (update row ids (λ q. or_empty (lookup q r.by_value)))))
  view-pop_ids row none = refl
  view-pop_ids row (some []) = refl
  view-pop_ids row (some (top ∷ [])) = ap some (view-restored row none)
  view-pop_ids row (some (top ∷ next ∷ ids)) = ap some (view-restored row (some (next ∷ ids)))

  pub view-undo_insert :
      Option.map view_relation (undo_insert slot recycled r)
      ≡ undo_insert_view slot recycled (view_relation r)
  unfolding undo_insert
  view-undo_insert = go (get_elem? r.rows slot)
    where
      go :
          (o : Option (Option Row))
          → Option.map view_relation (
              o >>= λ held. held >>= λ row. lookup row r.by_value >>= λ ids.
              pop_ids row ids r.by_value >>= λ left. some (restored left.1))
            ≡ (o >>= λ held. held >>= λ row. popped (or_empty (lookup row r.by_value)) >>= λ ids.
                some (restored_view (update row ids (λ q. or_empty (lookup q r.by_value)))))
      go none = refl
      go (some none) = refl
      go (some (some row)) = view-pop_ids row (lookup row r.by_value)

pub view-undo_remove :
    (slot : ℕ) (row : Row) (r : Relation)
    → Option.map view_relation (undo_remove slot row r)
      ≡ undo_remove_view slot row r.free (view_relation r)
unfolding undo_remove
view-undo_remove slot row r = go r.free
  where
    taken :
        (free : List ℕ)
        → view_relation (record r {
          rows = set r.rows slot (some row);
          free = free;
          by_value = insert row (slot ∷ or_empty (lookup row r.by_value)) r.by_value;
        })
          ≡ record (view_relation r) {
            rows = set r.rows slot (some row);
            free = free;
            ids =
                update row
                  (slot ∷ or_empty (lookup row r.by_value))
                  (λ q. or_empty (lookup q r.by_value));
          }
    taken free = λ i. record (view_relation r) {
      rows = set r.rows slot (some row);
      free = free;
      ids = λ q. ids-put row (some (slot ∷ or_empty (lookup row r.by_value))) r.by_value q i;
    }

    bound :
        (o : Option (Option Row)) (after : Relation) (viewed : RelationView)
        → view_relation after ≡ viewed
        → Option.map view_relation (o >> some after) ≡ (o >> some viewed)
    bound none after viewed h = refl
    bound (some slot) after viewed h = ap some h

    go :
        (free : List ℕ)
        → Option.map view_relation (undo_remove_free slot row free r)
          ≡ undo_remove_view slot row free (view_relation r)
    go [] = refl
    go (top ∷ free) = bound (get_elem? r.rows slot) _ _ (taken free)

pub view-undo_one : (u : Undo) (e : Engine) → Option.map view (undo_one u e) ≡ undo_view u (view e)
unfolding undo_one
view-undo_one (Undo.insert_ id slot recycled) e =
    view-in_relation id (undo_insert slot recycled) (undo_insert_view slot recycled)
      (view-undo_insert slot recycled) e
view-undo_one (Undo.remove_ id slot row) e =
    view-in_relation id (undo_remove slot row) (λ w. undo_remove_view slot row w.free w)
      (view-undo_remove slot row) e
view-undo_one (Undo.counts p node row previous) e =
    view-in_program node (put_counts row previous) (put_counts_view row previous) p
      (view-put_counts row previous) e
view-undo_one (Undo.key_index p node left key row previous) e =
    view-in_program node (put_index left key row previous) (put_index_view left key row previous) p
      (view-put_index left key row previous) e
view-undo_one (Undo.group p node key previous) e =
    view-in_program node (put_group key previous) (put_group_view key previous) p
      (view-put_group key previous) e
