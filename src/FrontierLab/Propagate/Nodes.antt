-- ===== src/FrontierLab/Propagate/Nodes.antt =====
-- `run` and `step` of `Propagation`.
use sqlite_ivm.Base.{
  ℕ, zero, suc, pos, negsuc, Bool, true, false, ◌&&◌, Option, none, some, List, [], ◌==◌, nat_eq,
  int_eq, list_eq, lookup, insert, wrapping_add, if◌then◌else◌,
}
use sqlite_ivm.Ir.Syntax.{Row}
use sqlite_ivm.FrontierLab.Types.{ProgramId, Stage, ErrorKind, Detail, Outcome, fail}
use sqlite_ivm.FrontierLab.Storage.{NodeId, Counts, Group, Node, Undo}
use sqlite_ivm.FrontierLab.Journal.{or_empty, side_of, groups_of, put_group}
use sqlite_ivm.FrontierLab.Step.{Action, pure, ask, ◌then◌, for_each, fold, write_node}
use sqlite_ivm.FrontierLab.Maps.{or_zero, is_negative, is_positive, accumulate, Net}
use sqlite_ivm.FrontierLab.Propagate.{
  read_node, apply_counts, index_update, join_left, join_right, project_rows, group_deltas, key_set,
  row_of,
}

-- `HashMap<u32, HashMap<Row, i64>>`
abbrev pub Memo : Type 0
Memo = List (NodeId × Counts)

abbrev pub group_eqb : Group → Group → Bool
group_eqb a b = (a.count == b.count) && (a.sum == b.sum)

abbrev pub or_new : Option Group → Group
or_new none = record { count = pos 0; sum = pos 0 }
or_new (some group) = group

-- `Some(new) == previous`
abbrev pub is_same : Group → Option Group → Bool
is_same new none = false
is_same new (some previous) = group_eqb new previous

-- `previous.map(|g| g.count > 0)`, where an absent group is as one without rows.
abbrev pub is_live : Option Group → Bool
is_live none = false
is_live (some group) = is_positive group.count

-- The old row of a group goes and the new one comes.
abbrev pub group_rows : Bool → Bool → Row → Row → Counts → Counts
group_rows true true old new out = accumulate (accumulate out old (negsuc 0)) new (pos 1)
group_rows true false old new out = accumulate out old (negsuc 0)
group_rows false true old new out = accumulate out new (pos 1)
group_rows false false old new out = out

module _ (p : ProgramId) (deltas : Net) where
  -- One group of an aggregate, with its state before and after.
  abbrev pub group_row :
      NodeId → Bool → Option ℕ → Row → Option Group → Group → Counts → Action Counts
  group_row id count sum key previous new out =
      if is_negative new.count
      then ask (λ e. fail Stage.maintain (ErrorKind.internal (Detail.negative_group key)))
      else if is_same new previous
      then pure out
      else (write_node p id (Undo.group p id key previous)
            (put_group key (if new.count == pos 0 then none else some new))
          then λ _. pure (
              group_rows (is_live previous) (is_positive new.count)
                (row_of key count sum (or_new previous)) (row_of key count sum new) out))

  unfoldable pub update_groups : NodeId → Bool → Option ℕ → Counts × Counts → Action Counts
  update_groups id count sum changes =
      for_each
        (λ out entry. read_node p id groups_of then λ groups.
          let previous = lookup entry.0 groups in
          group_row id count sum entry.0 previous
            (record {
              count = wrapping_add (or_new previous).count (or_zero (lookup entry.0 changes.0));
              sum = wrapping_add (or_new previous).sum (or_zero (lookup entry.0 changes.1));
            })
            out)
        [] (key_set changes.0 changes.1)

  -- The nodes below, run by a function, with the memo they leave.
  module _ (child : NodeId → Memo → Action (Memo × Counts)) where
    abbrev pub sum_inputs : List NodeId → Memo → Action (Memo × Counts)
    sum_inputs inputs memo =
        for_each
          (λ acc input. child input acc.0 then λ r.
            pure (r.0, fold (λ total change. accumulate total change.0 change.1) acc.1 r.1))
          (memo, []) inputs

    unfoldable pub step : NodeId → Node → Memo → Action (Memo × Counts)
    step id (Node.scan r) memo = pure (memo, or_empty (lookup r deltas))
    step id (Node.union inputs _) memo =
        sum_inputs inputs memo then λ total. apply_counts p id total.1 then λ _. pure total
    step id (Node.join left right on_left on_right _ _ _) memo = child left memo then λ dl.
        child right dl.0 then λ dr. index_update p id true dl.1 on_left then λ _.
        index_update p id false dr.1 on_right then λ _.
        read_node p id (side_of false) then λ right_index.
        ask (λ e. join_left on_left right_index [] dl.1) then λ first.
        read_node p id (side_of true) then λ left_index.
        ask (λ e. join_right on_right left_index dl.1 first dr.1) then λ out.
        apply_counts p id out then λ _. pure (dr.0, out)
    step id (Node.aggregate input group_by count sum _) memo = child input memo then λ incoming.
        ask (λ e. group_deltas group_by sum incoming.1) then λ changes.
        update_groups id count sum changes then λ out. pure (incoming.0, out)
    step id (Node.project input columns _) memo = child input memo then λ incoming.
        ask (λ e. project_rows columns incoming.1) then λ out.
        apply_counts p id out then λ _. pure (incoming.0, out)

  abbrev pub memoised :
      NodeId → Memo → Option Counts → Action (Memo × Counts) → Action (Memo × Counts)
  memoised id memo (some delta) body = pure (memo, delta)
  memoised id memo none body = body then λ r. pure (insert id r.1 r.0, r.1)

  -- On fuel; a node whose inputs are nodes before it needs one more than its number.
  unfoldable pub run : ℕ → NodeId → Memo → Action (Memo × Counts)
  run zero id memo = ask (λ e. Outcome.panic)
  run (suc fuel) id memo =
      memoised id memo (lookup id memo)
        (read_node p id (λ node. some node) then λ node. step (run fuel) id node memo)
