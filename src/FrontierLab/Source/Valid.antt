-- ===== src/FrontierLab/Source/Valid.antt =====
-- When the rows of a relation, its free slots and its value index agree.
use sqlite_ivm.Base.{
  ℕ, ◌≡◌, ◌≢◌, sym, ap, subst, ◌∙◌, inl, inr, Bool, true, false, Bool-cases, Option, none, some,
  List, [], ◌∷◌, ◌++◌, length, get_elem?, set, All, All-map, ◌==◌, int_eq, list_eq, list_eqb_iff,
  get_elem?-append_last,
}
use sqlite_ivm.Ir.Syntax.{Row}
use sqlite_ivm.FrontierLab.Journal.View.{RelationView, update}
use sqlite_ivm.FrontierLab.Source.Slots.{
  get_elem?-set, get_elem?-set_ne, get_elem?-append_some, IsDistinct, All-both,
}

-- A slot that is free, and one that holds a row.
abbrev pub IsFree : List (Option Row) → ℕ → Type 0
IsFree rows slot = get_elem? rows slot ≡ some none

abbrev pub Holds : Row → List (Option Row) → ℕ → Type 0
Holds row rows slot = get_elem? rows slot ≡ some (some row)

-- Free slots are empty, the ids of a value are slots that hold it, and neither repeats.
pub record IsValid (v : RelationView) : Type 0 where
  pub free : All (IsFree v.rows) v.free
  pub free_once : IsDistinct v.free
  pub ids : (row : Row) → All (Holds row v.rows) (v.ids row)
  pub ids_once : (row : Row) → IsDistinct (v.ids row)

free_ne_held :
    (rows : List (Option Row)) (row : Row) (i j : ℕ) → IsFree rows i → Holds row rows j → i ≢ j
free_ne_held rows row i j f h same = cc

abbrev pub placed_view : ℕ → Row → RelationView → RelationView
placed_view slot row v = record v {
  rows = set v.rows slot (some row);
  ids = update row (slot ∷ v.ids row) v.ids;
}

abbrev pub freed_view : ℕ → Row → List ℕ → RelationView → RelationView
freed_view slot row ids v = record v {
  rows = set v.rows slot none;
  free = slot ∷ v.free;
  ids = update row ids v.ids;
}

-- What holds of a function's values holds after a change at one row.
update_all :
    (P : Row → List ℕ → Type 0) (row : Row) (value : List ℕ) (f : Row → List ℕ)
    → P row value
    → ((q : Row) → row ≢ q → P q (f q))
    → (q : Row) → P q (update row value f q)
update_all P row value f here there q = elim (Bool-cases (row == q)) [
  | inl same ↦ rw same (subst (λ r. P r value) ((list_eqb_iff row q).0 same) here)
  | inr other ↦ rw other (there q (λ e. differ ((list_eqb_iff row q).1 e) other))
]
  where
    differ : {b : Bool} → b ≡ true → b ≡ false → ⊥
    differ h k = cc

-- A row put at the first free slot.
module _ (slot : ℕ) (row : Row) (free : List ℕ) (v : RelationView) where
  pub placed_view-IsValid :
      IsValid (record v { free = slot ∷ free })
      → IsValid (placed_view slot row (record v { free = free }))
  placed_view-IsValid h = record {
    free =
        All-both free (λ y ne is. get_elem?-set_ne v.rows slot y (some row) ne ∙ is) h.free_once.0
          h.free.1;
    free_once = h.free_once.1;
    ids =
        update_all (λ q ids. All (Holds q (set v.rows slot (some row))) ids) row (slot ∷ v.ids row)
          v.ids (get_elem?-set v.rows slot (some row) h.free.0, kept row) (λ q ne. kept q);
    ids_once =
        update_all (λ q ids. IsDistinct ids) row (slot ∷ v.ids row) v.ids
          (
            All-map (v.ids row) (λ y holds. free_ne_held v.rows row slot y h.free.0 holds)
                (h.ids row),
            h.ids_once row,
          )
          (λ q ne. h.ids_once q);
  }
    where
      kept : (q : Row) → All (Holds q (set v.rows slot (some row))) (v.ids q)
      kept q =
          All-map (v.ids q)
            (λ y holds.
              get_elem?-set_ne v.rows slot y (some row)
                (free_ne_held v.rows q slot y h.free.0 holds)
              ∙ holds)
            (h.ids q)

-- A row taken from the last slot that holds it.
module _ (slot : ℕ) (row : Row) (ids : List ℕ) (v : RelationView) where
  pub freed_view-IsValid : v.ids row ≡ slot ∷ ids → IsValid v → IsValid (freed_view slot row ids v)
  freed_view-IsValid e h = record {
    free = (
      get_elem?-set v.rows slot none held.0,
      All-map v.free (λ y is. get_elem?-set_ne v.rows slot y none (apart y is) ∙ is) h.free,
    );
    free_once = (All-map v.free apart h.free, h.free_once);
    ids =
        update_all (λ q is. All (Holds q (set v.rows slot none)) is) row ids v.ids
          (All-both ids (λ y ne holds. get_elem?-set_ne v.rows slot y none ne ∙ holds) once.0
            held.1)
          (λ q ne.
            All-map (v.ids q)
              (λ y holds.
                get_elem?-set_ne v.rows slot y none (λ same. ne (other y q same holds)) ∙ holds)
              (h.ids q));
    ids_once = update_all (λ q is. IsDistinct is) row ids v.ids once.1 (λ q ne. h.ids_once q);
  }
    where
      held : All (Holds row v.rows) (slot ∷ ids)
      held = subst (λ is. All (Holds row v.rows) is) e (h.ids row)

      once : IsDistinct (slot ∷ ids)
      once = subst (λ is. IsDistinct is) e (h.ids_once row)

      apart : (y : ℕ) → IsFree v.rows y → slot ≢ y
      apart y is same = free_ne_held v.rows row y slot is held.0 (sym same)

      held_same : {q : Row} → some (some row) ≡ some (some q) → row ≡ q
      held_same k = cc

      other : (y : ℕ) (q : Row) → slot ≡ y → Holds q v.rows y → row ≡ q
      other y q same holds = held_same (sym held.0 ∙ ap (λ j. get_elem? v.rows j) same ∙ holds)

-- A new slot at the end of the rows is free.
pub grown_view-IsValid :
    (v : RelationView)
    → v.free ≡ []
    → IsValid v
    → IsValid (record v { rows = v.rows ++ none ∷ []; free = length v.rows ∷ [] })
grown_view-IsValid v e h = record {
  free = (get_elem?-append_last v.rows none, tt);
  free_once = (tt, tt);
  ids = λ q.
      All-map (v.ids q) (λ y holds. get_elem?-append_some v.rows (none ∷ []) y holds) (h.ids q);
  ids_once = h.ids_once;
}
