-- ===== src/FrontierLab/Journal/View/Nodes.antt =====
-- What a write to a node's maps is to its view.
use mathlib.Core.Option
use sqlite_ivm.Base.{
  ℕ, ℤ, ◌≡◌, refl, ap, Bool, true, false, ◌&&◌, Option, none, some, ◌==◌, int_eq, list_eq, lookup,
  if◌then◌else◌,
}
use sqlite_ivm.Ir.Syntax.{Row}
use sqlite_ivm.FrontierLab.Storage.{Counts, Group, KeyIndex, Node}
use sqlite_ivm.FrontierLab.Journal.{put, with_side, restore_index, put_counts, put_index, put_group}
use sqlite_ivm.FrontierLab.Journal.View.{
  NodeView, view_node, update, update_index, entry_at, lookup-put,
}
use sqlite_ivm.FrontierLab.Journal.View.Entries.{entry_at-restore}

abbrev pub is_counted : Node → Bool
is_counted (Node.scan _) = false
is_counted (Node.union _ _) = true
is_counted (Node.join _ _ _ _ _ _ _) = true
is_counted (Node.aggregate _ _ _ _ _) = false
is_counted (Node.project _ _ _) = true

abbrev pub is_join : Node → Bool
is_join (Node.join _ _ _ _ _ _ _) = true
is_join _ = false

abbrev pub is_aggregate : Node → Bool
is_aggregate (Node.aggregate _ _ _ _ _) = true
is_aggregate _ = false

abbrev pub put_counts_view : Row → Option ℤ → NodeView → Option NodeView
put_counts_view row value v =
    if is_counted v.kind then some (record v { count_at = update row value v.count_at }) else none

abbrev pub put_index_view : Bool → Row → Row → Option ℤ → NodeView → Option NodeView
put_index_view left key row value v =
    if is_join v.kind
    then some (record v { index_at = update_index left key row value v.index_at })
    else none

abbrev pub put_group_view : Row → Option Group → NodeView → Option NodeView
put_group_view key value v =
    if is_aggregate v.kind then some (record v { group_at = update key value v.group_at }) else none

counted :
    (v : NodeView) (f g : Row → Option ℤ)
    → ((r : Row) → f r ≡ g r)
    → Path (Option NodeView) (some (record v { count_at = f })) (some (record v { count_at = g }))
counted v f g h = λ i. some (record v { count_at = λ r. h r i })

pub view-put_counts :
    (row : Row) (value : Option ℤ) (node : Node)
    → Option.map view_node (put_counts row value node) ≡ put_counts_view row value (view_node node)
unfolding put_counts
view-put_counts row value (Node.scan r) = refl
view-put_counts row value (Node.aggregate i g c s groups) = refl
view-put_counts row value (Node.union inputs counts) =
    counted (view_node (Node.union inputs counts)) (λ r. lookup r (put row value counts))
      (update row value (λ r. lookup r counts)) (λ r. lookup-put row r value counts)
view-put_counts row value (Node.join l r ol or counts li ri) =
    counted (view_node (Node.join l r ol or counts li ri)) (λ r. lookup r (put row value counts))
      (update row value (λ r. lookup r counts)) (λ r. lookup-put row r value counts)
view-put_counts row value (Node.project i columns counts) =
    counted (view_node (Node.project i columns counts)) (λ r. lookup r (put row value counts))
      (update row value (λ r. lookup r counts)) (λ r. lookup-put row r value counts)

-- A key index that holds what another does but for one row under one key.
abbrev pub Writes : Row → Row → Option ℤ → KeyIndex → KeyIndex → Type 0
Writes key row value before after =
    (k r : Row)
    → entry_at after k r ≡ (if (key == k) && (row == r) then value else entry_at before k r)

indexed :
    (v : NodeView) (f g : Bool → Row → Row → Option ℤ)
    → ((left : Bool) (k r : Row) → f left k r ≡ g left k r)
    → record v { index_at = f } ≡ record v { index_at = g }
indexed v f g h = λ i. record v { index_at = λ left k r. h left k r i }

module _ (key row : Row) (value : Option ℤ) (l r ol or : ℕ) (c : Counts)
    (li ri after : KeyIndex) where
  left_written :
      Writes key row value li after
      → (side : Bool) (k held : Row)
      → (view_node (Node.join l r ol or c after ri)).index_at side k held
        ≡ update_index true key row value
            (view_node (Node.join l r ol or c li ri)).index_at
            side
            k
            held
  left_written w true k held = w k held
  left_written w false k held = refl

  right_written :
      Writes key row value ri after
      → (side : Bool) (k held : Row)
      → (view_node (Node.join l r ol or c li after)).index_at side k held
        ≡ update_index false key row value
            (view_node (Node.join l r ol or c li ri)).index_at
            side
            k
            held
  right_written w true k held = refl
  right_written w false k held = w k held

-- Such an index in the place of a join's.
pub view-with_side :
    (left : Bool) (key row : Row) (value : Option ℤ) (l r : ℕ) (ol or : ℕ) (c : Counts)
    (li ri after : KeyIndex)
    → Writes key row value (if left then li else ri) after
    → view_node (with_side left after (Node.join l r ol or c li ri))
      ≡ record (view_node (Node.join l r ol or c li ri)) {
        index_at =
            update_index left key row value (view_node (Node.join l r ol or c li ri)).index_at;
      }
view-with_side true key row value l r ol or c li ri after w =
    indexed (view_node (Node.join l r ol or c li ri))
      (view_node (with_side true after (Node.join l r ol or c li ri))).index_at
      (update_index true key row value (view_node (Node.join l r ol or c li ri)).index_at)
      (left_written key row value l r ol or c li ri after w)
view-with_side false key row value l r ol or c li ri after w =
    indexed (view_node (Node.join l r ol or c li ri))
      (view_node (with_side false after (Node.join l r ol or c li ri))).index_at
      (update_index false key row value (view_node (Node.join l r ol or c li ri)).index_at)
      (right_written key row value l r ol or c li ri after w)

pub view-put_index :
    (left : Bool) (key row : Row) (value : Option ℤ) (node : Node)
    → Option.map view_node (put_index left key row value node)
      ≡ put_index_view left key row value (view_node node)
unfolding put_index
view-put_index true key row value (Node.join l r ol or c li ri) = ap some (
    view-with_side true key row value l r ol or c li ri (restore_index key row value li)
      (entry_at-restore key row value li))
view-put_index false key row value (Node.join l r ol or c li ri) = ap some (
    view-with_side false key row value l r ol or c li ri (restore_index key row value ri)
      (entry_at-restore key row value ri))
view-put_index left key row value (Node.scan _) = refl
view-put_index left key row value (Node.union _ _) = refl
view-put_index left key row value (Node.aggregate _ _ _ _ _) = refl
view-put_index left key row value (Node.project _ _ _) = refl

grouped :
    (v : NodeView) (f g : Row → Option Group)
    → ((r : Row) → f r ≡ g r)
    → Path (Option NodeView) (some (record v { group_at = f })) (some (record v { group_at = g }))
grouped v f g h = λ i. some (record v { group_at = λ r. h r i })

pub view-put_group :
    (key : Row) (value : Option Group) (node : Node)
    → Option.map view_node (put_group key value node) ≡ put_group_view key value (view_node node)
unfolding put_group
view-put_group key value (Node.aggregate i g c s groups) =
    grouped (view_node (Node.aggregate i g c s groups)) (λ r. lookup r (put key value groups))
      (update key value (λ r. lookup r groups)) (λ r. lookup-put key r value groups)
view-put_group key value (Node.scan _) = refl
view-put_group key value (Node.union _ _) = refl
view-put_group key value (Node.join _ _ _ _ _ _ _) = refl
view-put_group key value (Node.project _ _ _) = refl
