-- ===== src/FrontierLab/Journal/View/Entries.antt =====
-- What the key index of a join holds after a write under one key.
use sqlite_ivm.Base.{
  ℤ, ◌≡◌, refl, sym, ap, subst, ◌∙◌, inl, inr, ◌&&◌, Option, none, some, [], ◌∷◌, ◌==◌, int_eq,
  list_eq, list_eqb_iff, Bool-cases, lookup, insert, remove, lookup-insert, lookup-remove,
  if◌then◌else◌,
}
use sqlite_ivm.Ir.Syntax.{Row}
use sqlite_ivm.FrontierLab.Storage.{Counts, KeyIndex}
use sqlite_ivm.FrontierLab.Journal.{or_empty, put, keep_entry, drop_row, restore_index}
use sqlite_ivm.FrontierLab.Journal.View.{entry_at, lookup-put}

entry_at-insert :
    (key : Row) (entry : Counts) (index : KeyIndex) (k r : Row)
    → entry_at (insert key entry index) k r
      ≡ (if key == k then lookup r entry else entry_at index k r)
entry_at-insert key entry index k r =
    rw (lookup-insert key k entry index)
      (elim (Bool-cases (key == k)) [ inl same ↦ rw same refl | inr other ↦ rw other refl ])

entry_at-remove :
    (key : Row) (index : KeyIndex) (k r : Row)
    → entry_at (remove key index) k r ≡ (if key == k then lookup r [] else entry_at index k r)
entry_at-remove key index k r =
    rw (lookup-remove key k index)
      (elim (Bool-cases (key == k)) [ inl same ↦ rw same refl | inr other ↦ rw other refl ])

entry_at-keep :
    (key : Row) (entry : Counts) (index : KeyIndex) (k r : Row)
    → entry_at (keep_entry key entry index) k r
      ≡ (if key == k then lookup r entry else entry_at index k r)
entry_at-keep key [] index k r = entry_at-remove key index k r
entry_at-keep key (e ∷ entry) index k r = entry_at-insert key (e ∷ entry) index k r

-- An index that differs under one key, where one row is written.
module _ (key row : Row) (value : Option ℤ) (index : KeyIndex) where
  written :
      (after : KeyIndex)
      → ((k r : Row)
          → entry_at after k r ≡ (
              if key == k
              then lookup r (put row value (or_empty (lookup key index)))
              else entry_at index k r))
      → (k r : Row)
      → entry_at after k r ≡ (if (key == k) && (row == r) then value else entry_at index k r)
  written after h k r = h k r ∙ elim (Bool-cases (key == k)) [
    | inl same ↦ rw same (
        subst
          (λ j.
            lookup r (put row value (or_empty (lookup key index)))
            ≡ (if row == r then value else entry_at index j r))
          ((list_eqb_iff key k).0 same) (lookup-put row r value (or_empty (lookup key index))))
    | inr other ↦ rw other refl
  ]

  -- The forward write: an entry that is empty goes.
  pub entry_at-keep_put :
      (k r : Row)
      → entry_at (keep_entry key (put row value (or_empty (lookup key index))) index) k r
        ≡ (if (key == k) && (row == r) then value else entry_at index k r)
  entry_at-keep_put = written _ (entry_at-keep key _ index)

  pub entry_at-touch :
      (k r : Row)
      → entry_at (insert key (or_empty (lookup key index)) index) k r ≡ entry_at index k r
  entry_at-touch k r =
      entry_at-insert key (or_empty (lookup key index)) index k r ∙ elim (Bool-cases (key == k)) [
        | inl same ↦ rw same (ap (λ j. entry_at index j r) ((list_eqb_iff key k).0 same))
        | inr other ↦ rw other refl
      ]

pub entry_at-restore :
    (key row : Row) (value : Option ℤ) (index : KeyIndex) (k r : Row)
    → entry_at (restore_index key row value index) k r
      ≡ (if (key == k) && (row == r) then value else entry_at index k r)
unfolding restore_index lookup
entry_at-restore key row (some value) index =
    written key row (some value) index _ (entry_at-insert key _ index)
entry_at-restore key row none index = go (lookup key index) refl
  where
    kept :
        (entry : Counts)
        → lookup key index ≡ some entry
        → (k r : Row)
        → entry_at (keep_entry key (remove row entry) index) k r ≡ (
            if key == k
            then lookup r (remove row (or_empty (lookup key index)))
            else entry_at index k r)
    kept entry h k r =
        subst
          (λ o.
            entry_at (keep_entry key (remove row entry) index) k r
            ≡ (if key == k then lookup r (remove row (or_empty o)) else entry_at index k r))
          (sym h) (entry_at-keep key (remove row entry) index k r)

    go :
        (o : Option Counts)
        → lookup key index ≡ o
        → (k r : Row)
        → entry_at (drop_row key row o index) k r
          ≡ (if (key == k) && (row == r) then none else entry_at index k r)
    go (some entry) h k r =
        written key row none index (keep_entry key (remove row entry) index) (kept entry h) k r
    go none h k r = elim (Bool-cases (key == k)) [
      | inl same ↦ rw same (
          let nothing : entry_at index k r ≡ none =
            ap (λ j. entry_at index j r) (sym ((list_eqb_iff key k).0 same))
            ∙ ap (λ o. lookup r (or_empty o)) h in
          nothing ∙ (elim (Bool-cases (row == r)) [
            | inl here ↦ rw here refl
            | inr there ↦ rw there (sym nothing)
          ]))
      | inr other ↦ rw other refl
    ]
