-- ===== src/FrontierLab/Propagate.antt =====
-- labs/20260923.1.the-gang-builds-the-rust-frontier-engine/src/2_apply.rs: `Propagation`, which carries
-- the net changes bottom-up through a program's nodes. The order of a hash map is that of its list.
pub mod Nodes
pub mod Journaled
use sqlite_ivm.Base.{
  ℕ, zero, suc, ℤ, pos, Bool, true, false, Option, none, some, List, [], ◌∷◌, ◌++◌, get_elem?, ◌==◌,
  nat_eq, int_eq, list_eq, lookup, insert, wrapping_add, wrapping_sub, wrapping_mul, if◌then◌else◌,
  ◌>>=◌,
}
use sqlite_ivm.Ir.Syntax.{Cell, Row}
use sqlite_ivm.FrontierLab.Types.{
  ProgramId, Stage, ErrorKind, Detail, Outcome, fail, and_then, expect,
}
use sqlite_ivm.FrontierLab.Storage.{
  NodeId, Counts, Group, KeyIndex, Node, counts_of, Undo, Engine, installed,
}
use sqlite_ivm.FrontierLab.Journal.{
  or_empty, put, side_of, with_side, keep_entry, put_counts, groups_of, put_group,
}
use sqlite_ivm.FrontierLab.Step.{
  Action, pure, ask, ◌then◌, for_each, fold_outcome, fold, write_node, touch_node,
}
use sqlite_ivm.FrontierLab.Maps.{
  or_zero, is_negative, is_positive, nonzero, accumulate, accumulate_btree, cmp_row, update_btree,
  Net,
}

-- `state.nodes[node]` of an installed program.
abbrev pub node_at : ProgramId → NodeId → Engine → Option Node
node_at p id e = installed e.programs p >>= λ state. get_elem? state.nodes id

-- A part of a node, where its absence is a panic.
abbrev pub read_node : {A : Type 0} → ProgramId → NodeId → (Node → Option A) → Action A
read_node p id f = ask (λ e. expect (node_at p id e >>= f))

-- `row[col]`
abbrev pub cell_at : Row → ℕ → Outcome Cell
cell_at row col = expect (get_elem? row col)

abbrev pub cells_at : Row → List ℕ → Outcome Row
cells_at row [] = Outcome.ok []
cells_at row (col ∷ cols) =
    and_then (cell_at row col) (λ c. and_then (cells_at row cols) (λ cs. Outcome.ok (c ∷ cs)))

unfoldable pub join_key : Row → ℕ → Outcome Row
join_key row col = and_then (cell_at row col) (λ c. Outcome.ok (c ∷ []))

-- The write of a key index, in the order of the code: an entry made by `or_default` goes again when
-- it is left empty.
abbrev pub set_index : Bool → Row → Row → Option ℤ → Node → Option Node
set_index left key row value node = side_of left node >>= λ index.
    some (with_side left (keep_entry key (put row value (or_empty (lookup key index))) index) node)

-- `index.entry(key).or_default()`
abbrev pub touch_index : Bool → Row → Node → Option Node
touch_index left key node = side_of left node >>= λ index.
    some (with_side left (insert key (or_empty (lookup key index)) index) node)

module _ (p : ProgramId) where
  -- One row of `apply_counts`, with its previous count.
  abbrev pub count_row : NodeId → Row → Option ℤ → ℤ → Action Unit
  count_row id row previous next =
      if is_negative next
      then ask (λ e. fail Stage.maintain (ErrorKind.internal (Detail.negative_support row next)))
      else write_node p id (Undo.counts p id row previous) (put_counts row (nonzero next))

  unfoldable pub apply_counts : NodeId → Counts → Action Unit
  apply_counts id delta =
      for_each
        (λ _ change. read_node p id counts_of then λ counts.
          let previous = lookup change.0 counts in
          count_row id change.0 previous (wrapping_add (or_zero previous) change.1))
        tt delta

  abbrev pub index_row : NodeId → Bool → Row → Row → Option ℤ → ℤ → Action Unit
  index_row id left key row previous next =
      if is_negative next
      then ask (λ e. fail Stage.maintain (ErrorKind.internal (Detail.negative_index key next)))
      else write_node p id (Undo.key_index p id left key row previous)
          (set_index left key row (nonzero next))

  unfoldable pub index_update : NodeId → Bool → Counts → ℕ → Action Unit
  index_update id left delta key_col =
      for_each
        (λ _ change. ask (λ e. join_key change.0 key_col) then λ key.
          touch_node p id (touch_index left key) then λ _.
          read_node p id (side_of left) then λ index.
          let previous = lookup change.0 (or_empty (lookup key index)) in
          index_row id left key change.0 previous (wrapping_add (or_zero previous) change.1))
        tt delta

-- The rows of one side under a key.
unfoldable pub index_rows : KeyIndex → Row → Counts
index_rows index key = or_empty (lookup key index)

-- Term 1 of a join: the left delta with the right index after the update.
unfoldable pub join_left : ℕ → KeyIndex → Counts → Counts → Outcome Counts
join_left on_left right_index out dl =
    fold_outcome
      (λ out l. and_then (join_key l.0 on_left) (λ key. Outcome.ok (
        fold (λ out r. accumulate out (l.0 ++ r.0) (wrapping_mul l.1 r.1)) out
          (index_rows right_index key))))
      out dl

-- Term 2: the left index before the update with the right delta.
abbrev pub join_pre : Counts → Row × ℤ → Counts → Row × ℤ → Counts
join_pre dl r out l =
    let pre = wrapping_sub l.1 (or_zero (lookup l.0 dl)) in
    if pre == pos 0 then out else accumulate out (l.0 ++ r.0) (wrapping_mul pre r.1)

unfoldable pub join_right : ℕ → KeyIndex → Counts → Counts → Counts → Outcome Counts
join_right on_right left_index dl out dr =
    fold_outcome
      (λ out r.
        and_then (join_key r.0 on_right)
          (λ key. Outcome.ok (fold (join_pre dl r) out (index_rows left_index key))))
      out dr

unfoldable pub project_rows : List ℕ → Counts → Outcome Counts
project_rows columns incoming =
    fold_outcome
      (λ out change.
        and_then (cells_at change.0 columns) (λ row. Outcome.ok (accumulate out row change.1)))
      [] incoming

abbrev pub sum_column : Option ℕ → Row → ℤ → Row → Counts → Outcome Counts
sum_column none row w key sums = Outcome.ok sums
sum_column (some col) row w key sums =
    and_then (cell_at row col)
      (λ cell. Outcome.ok (accumulate_btree sums key (wrapping_mul w cell)))

-- The change of every group's count and sum.
unfoldable pub group_deltas : List ℕ → Option ℕ → Counts → Outcome (Counts × Counts)
group_deltas group_by sum incoming =
    fold_outcome
      (λ acc change. and_then (cells_at change.0 group_by) (λ key.
        and_then (sum_column sum change.0 change.1 key acc.1)
          (λ sums. Outcome.ok (accumulate_btree acc.0 key change.1, sums))))
      ([], []) incoming

-- The keys of both maps, in order; the value beside a key says nothing.
abbrev pub key_set : Counts → Counts → List (Row × Bool)
key_set counts sums =
    fold (λ keys entry. update_btree cmp_row (λ _. some true) entry.0 keys) [] (counts ++ sums)

abbrev pub summed : Option ℕ → ℤ → Row
summed none total = []
summed (some _) total = total ∷ []

unfoldable pub row_of : Row → Bool → Option ℕ → Group → Row
row_of key count sum group = key ++ (if count then group.count ∷ [] else []) ++ summed sum group.sum
