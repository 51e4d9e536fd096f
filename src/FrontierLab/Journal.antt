-- ===== src/FrontierLab/Journal.antt =====
-- labs/20260923.1.the-gang-builds-the-rust-frontier-engine/src/3_tx.rs: `unwind`, which replays the
-- undo journal to a mark. `none` is a panic.
pub mod View
pub mod Edits
use sqlite_ivm.Base.{
  ℕ, zero, suc, ◌-◌, ℤ, Bool, true, false, Option, none, some, List, [], ◌∷◌, length, get_elem?,
  set, ◌==◌, nat_eq, int_eq, list_eq, lookup, insert, remove, if◌then◌else◌, ◌>>=◌, ◌>>◌,
}
use sqlite_ivm.Ir.Syntax.{Row}
use sqlite_ivm.FrontierLab.Types.{RelId, ProgramId}
use sqlite_ivm.FrontierLab.Storage.{
  NodeId, Counts, Relation, Group, KeyIndex, Node, counts_of, with_counts, ProgramState, Undo,
  Engine, installed,
}

abbrev pub or_empty {ℓ} : {A : Type ℓ} → Option (List A) → List A
or_empty none = []
or_empty (some xs) = xs

-- The entry of a key: written, or removed.
abbrev pub put {ℓ} : {V : Type ℓ} → Row → Option V → List (Row × V) → List (Row × V)
put key none map = remove key map
put key (some value) map = insert key value map

-- `rows.pop()`
abbrev pub init {ℓ} : {A : Type ℓ} → List A → List A
init [] = []
init (x ∷ []) = []
init (x ∷ y ∷ xs) = x ∷ init (y ∷ xs)

-- `ids.pop()` of an occupied entry, which goes when it is empty.
abbrev pub pop_ids : Row → List ℕ → List (Row × List ℕ) → Option (ℕ × List (Row × List ℕ))
pop_ids row [] map = none
pop_ids row (slot ∷ []) map = some (slot, remove row map)
pop_ids row (slot ∷ next ∷ ids) map = some (slot, insert row (next ∷ ids) map)

abbrev pub undo_insert_rows : Bool → ℕ → List (Option Row) → List (Option Row)
undo_insert_rows true slot rows = set rows slot none
undo_insert_rows false slot rows = init (set rows slot none)

abbrev pub undo_insert_free : Bool → ℕ → List ℕ → List ℕ
undo_insert_free true slot free = slot ∷ free
undo_insert_free false slot free = free

unfoldable pub undo_insert : ℕ → Bool → Relation → Option Relation
undo_insert slot recycled r = get_elem? r.rows slot >>= λ held. held >>= λ row.
    lookup row r.by_value >>= λ ids. pop_ids row ids r.by_value >>= λ popped. some (record r {
      rows = undo_insert_rows recycled slot r.rows;
      free = undo_insert_free recycled slot r.free;
      by_value = popped.1;
    })

abbrev pub undo_remove_free : ℕ → Row → List ℕ → Relation → Option Relation
undo_remove_free slot row [] r = none
undo_remove_free slot row (top ∷ free) r =
    get_elem? r.rows slot
    >> some (record r {
      rows = set r.rows slot (some row);
      free = free;
      by_value = insert row (slot ∷ or_empty (lookup row r.by_value)) r.by_value;
    })

unfoldable pub undo_remove : ℕ → Row → Relation → Option Relation
undo_remove slot row r = undo_remove_free slot row r.free r

unfoldable pub put_counts : Row → Option ℤ → Node → Option Node
put_counts row value node =
    counts_of node >>= λ counts. some (with_counts (put row value counts) node)

-- The key index of one side of a join.
abbrev pub side_of : Bool → Node → Option KeyIndex
side_of left (Node.join _ _ _ _ _ left_index right_index) =
    some (if left then left_index else right_index)
side_of left (Node.scan _) = none
side_of left (Node.union _ _) = none
side_of left (Node.aggregate _ _ _ _ _) = none
side_of left (Node.project _ _ _) = none

abbrev pub with_side : Bool → KeyIndex → Node → Node
with_side left index (Node.join l r ol or counts li ri) =
    Node.join l r ol or counts (if left then index else li) (if left then ri else index)
with_side left index (Node.scan r) = Node.scan r
with_side left index (Node.union inputs counts) = Node.union inputs counts
with_side left index (Node.aggregate i g c s groups) = Node.aggregate i g c s groups
with_side left index (Node.project i columns counts) = Node.project i columns counts

abbrev pub keep_entry : Row → Counts → KeyIndex → KeyIndex
keep_entry key [] index = remove key index
keep_entry key (e ∷ entry) index = insert key (e ∷ entry) index

abbrev pub drop_row : Row → Row → Option Counts → KeyIndex → KeyIndex
drop_row key row none index = index
drop_row key row (some entry) index = keep_entry key (remove row entry) index

unfoldable pub restore_index : Row → Row → Option ℤ → KeyIndex → KeyIndex
restore_index key row none index = drop_row key row (lookup key index) index
restore_index key row (some value) index =
    insert key (insert row value (or_empty (lookup key index))) index

unfoldable pub put_index : Bool → Row → Row → Option ℤ → Node → Option Node
put_index left key row value node =
    side_of left node >>= λ index. some (with_side left (restore_index key row value index) node)

abbrev pub groups_of : Node → Option (List (Row × Group))
groups_of (Node.aggregate _ _ _ _ groups) = some groups
groups_of _ = none

abbrev pub with_groups : List (Row × Group) → Node → Node
with_groups groups (Node.aggregate input group_by count sum _) =
    Node.aggregate input group_by count sum groups
with_groups groups node = node

unfoldable pub put_group : Row → Option Group → Node → Option Node
put_group key value node =
    groups_of node >>= λ groups. some (with_groups (put key value groups) node)

-- An element through a write that may fail.
abbrev pub modify_at {ℓ} : {A : Type ℓ} → (A → Option A) → List A → ℕ → Option (List A)
modify_at f [] i = none
modify_at f (x ∷ xs) zero = f x >>= λ y. some (y ∷ xs)
modify_at f (x ∷ xs) (suc i) = modify_at f xs i >>= λ ys. some (x ∷ ys)

abbrev pub in_nodes :
    NodeId → (Node → Option Node) → Option ProgramState → Option (Option ProgramState)
in_nodes id f none = none
in_nodes id f (some state) =
    modify_at f state.nodes id >>= λ nodes. some (some (record state { nodes = nodes }))

-- `program_state_mut(engine, program).nodes[node]`, written.
unfoldable pub in_program : ProgramId → NodeId → (Node → Option Node) → Engine → Option Engine
in_program p id f e =
    modify_at (in_nodes id f) e.programs p >>= λ programs. some (record e { programs = programs })

unfoldable pub in_relation : RelId → (Relation → Option Relation) → Engine → Option Engine
in_relation id f e =
    modify_at f e.relations id >>= λ relations. some (record e { relations = relations })

unfoldable pub undo_one : Undo → Engine → Option Engine
undo_one (Undo.insert_ r slot recycled) e = in_relation r (undo_insert slot recycled) e
undo_one (Undo.remove_ r slot row) e = in_relation r (undo_remove slot row) e
undo_one (Undo.counts p node row previous) e = in_program p node (put_counts row previous) e
undo_one (Undo.key_index p node left key row previous) e =
    in_program p node (put_index left key row previous) e
undo_one (Undo.group p node key previous) e = in_program p node (put_group key previous) e

-- As many entries, the last first.
unfoldable pub unwind_steps : ℕ → List Undo → Engine → Option Engine
unwind_steps zero journal e = some (record e { journal = journal })
unwind_steps (suc n) [] e = none
unwind_steps (suc n) (undo ∷ journal) e = undo_one undo e >>= unwind_steps n journal

-- `while engine.journal.len() > mark`
unfoldable pub unwind : ℕ → Engine → Option Engine
unwind mark e = unwind_steps (length e.journal - mark) e.journal e
