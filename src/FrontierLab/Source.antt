-- ===== src/FrontierLab/Source.antt =====
-- labs/20260923.1.the-gang-builds-the-rust-frontier-engine/src/2_apply.rs: `insert_row`, `remove_row`
-- and `write_source`.
pub mod Slots
pub mod Valid
pub mod Undone
pub mod Journaled
pub mod Multiset
use sqlite_ivm.Base.{
  ℕ, zero, suc, ℤ, pos, pos_part, Bool, true, false, Option, none, some, List, [], ◌∷◌, ◌++◌,
  length, get_elem?, set, ◌==◌, nat_eq, int_eq, list_eq, lookup, insert, remove, wrapping_sub,
  if◌then◌else◌, ◌>>=◌,
}
use sqlite_ivm.Ir.Syntax.{Row}
use sqlite_ivm.FrontierLab.Types.{RelId, RowId, Stage, Outcome}
use sqlite_ivm.FrontierLab.Storage.{Counts, Relation, Undo, Engine, relation}
use sqlite_ivm.FrontierLab.Journal.{or_empty, modify_at, in_relation, pop_ids}
use sqlite_ivm.FrontierLab.Step.{Action, pure, ask, ◌then◌, for_each, times, push_undo, store}

-- The slot a new row takes, whether it is recycled, and the relation with that slot free of both.
abbrev pub allocate_from : List ℕ → Relation → ℕ × Bool × Relation
allocate_from (slot ∷ free) r = (slot, true, record r { free = free })
allocate_from [] r = (length r.rows, false, record r { rows = r.rows ++ none ∷ [] })

abbrev pub allocate : Relation → ℕ × Bool × Relation
allocate r = allocate_from r.free r

-- A row put at a slot and into the value index.
-- A slot out of bounds, which `IsValid` rules out, is written nowhere.
abbrev pub place_row : ℕ → Row → Relation → Relation
place_row slot row r = record r {
  rows = set r.rows slot (some row);
  by_value = insert row (slot ∷ or_empty (lookup row r.by_value)) r.by_value;
}

unfoldable pub insert_slot : Row → Relation → Option Relation
insert_slot row r = let a = allocate r in some (place_row a.0 row a.2)

-- `let relation_state = ...; ...; engine.journal.push(undo)`
abbrev pub write_relation : RelId → Undo → (Relation → Option Relation) → Action Unit
write_relation id undo f e = store (in_relation id f e) (push_undo undo) e

unfoldable pub insert_row : RelId → Row → Action RowId
insert_row id row = ask (λ e. relation e id Stage.source) then λ r.
    write_relation id (Undo.insert_ id (allocate r).0 (allocate r).1) (insert_slot row) then λ _.
    pure (allocate r).0

-- The relation without its last row of a value, and the slot of that row.
abbrev pub free_slot : ℕ × List (Row × List ℕ) → Relation → Relation
free_slot popped r = record r {
  rows = set r.rows popped.0 none;
  free = popped.0 ∷ r.free;
  by_value = popped.1;
}

abbrev pub popped_row : Row → Relation → Option (ℕ × List (Row × List ℕ))
popped_row row r = lookup row r.by_value >>= λ ids. pop_ids row ids r.by_value

unfoldable pub remove_slot : Row → Relation → Option Relation
remove_slot row r = popped_row row r >>= λ popped. some (free_slot popped r)

-- The last row id of an entry of the value index: none when there is no entry, a panic when it is empty.
abbrev pub last_id : Option (List ℕ) → Outcome (Option RowId)
last_id none = Outcome.ok none
last_id (some []) = Outcome.panic
last_id (some (slot ∷ ids)) = Outcome.ok (some slot)

abbrev pub remove_found : RelId → Row → Option RowId → Action (Option RowId)
remove_found id row none = pure none
remove_found id row (some slot) =
    write_relation id (Undo.remove_ id slot row) (remove_slot row) then λ _. pure (some slot)

unfoldable pub remove_row : RelId → Row → Action (Option RowId)
remove_row id row = ask (λ e. relation e id Stage.source) then λ r.
    ask (λ e. last_id (lookup row r.by_value)) then λ found. remove_found id row found

unfoldable pub write_source : RelId → Counts → Action Unit
write_source id net =
    for_each
      (λ _ change. times (pos_part change.1) (insert_row id change.0 then λ _. pure tt) then λ _.
        times (pos_part (wrapping_sub (pos 0) change.1)) (remove_row id change.0 then λ _. pure tt))
      tt net
