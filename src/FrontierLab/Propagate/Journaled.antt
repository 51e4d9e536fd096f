-- ===== src/FrontierLab/Propagate/Journaled.antt =====
-- The writes of a propagation are in the journal.
use sqlite_ivm.Base.{
  ℕ, zero, suc, ℤ, ◌≡◌, refl, subst, Bool, true, false, Option, none, some, List, [], nat_eq,
  int_eq, list_eq, lookup, ◌>>=◌,
}
use sqlite_ivm.Ir.Syntax.{Row}
use sqlite_ivm.FrontierLab.Types.{ProgramId, Outcome, expect}
use sqlite_ivm.FrontierLab.Storage.{NodeId, Counts, Group, KeyIndex, Node, counts_of, Undo, Engine}
use sqlite_ivm.FrontierLab.Journal.{or_empty, put_counts, side_of, groups_of, put_group}
use sqlite_ivm.FrontierLab.Journal.View.{view_node, entry_at}
use sqlite_ivm.FrontierLab.Journal.View.Nodes.{put_counts_view, put_index_view, put_group_view}
use sqlite_ivm.FrontierLab.Journal.View.Back.{
  put_counts_back, put_group_back, set_index_back, touch_index-view,
}
use sqlite_ivm.FrontierLab.Step.{Action, touch_node}
use sqlite_ivm.FrontierLab.Step.Journaled.{
  JournalsAt, Journals, JournalsAt-then, JournalsAt-ask, JournalsAt-if, Journals-pure, Journals-ask,
  Journals-then, Journals-for_each,
}
use sqlite_ivm.FrontierLab.Step.Journaled.Writes.{JournalsAt-write_node, JournalsAt-touch_node}
use sqlite_ivm.FrontierLab.Maps.{Net, nonzero, is_negative}
use sqlite_ivm.FrontierLab.Propagate.{
  node_at, count_row, apply_counts, set_index, touch_index, index_row, index_update, key_set,
}
use sqlite_ivm.FrontierLab.Propagate.Nodes.{
  group_row, is_same, update_groups, Memo, step, memoised, run,
}

-- What was read of a node is a part of the node that is there.
part_found :
    {A : Type 0} (p : ProgramId) (id : NodeId) (f : Node → Option A) (e : Engine) {a : A} (x : Node)
    → expect (node_at p id e >>= f) ≡ Outcome.ok a
    → node_at p id e ≡ some x
    → f x ≡ some a
part_found {A} p id f e {a} x h there =
    found (f x) (subst (λ o. expect (o >>= f) ≡ Outcome.ok a) there h)
  where
    found : (o : Option A) {a : A} → expect o ≡ Outcome.ok a → o ≡ some a
    found none k = cc
    found (some b) k = cc

module _ (p : ProgramId) where
  count_row-JournalsAt :
      (id : NodeId) (row : Row) (counts : Counts) (next : ℤ) (e : Engine)
      → expect (node_at p id e >>= counts_of) ≡ Outcome.ok counts
      → JournalsAt (count_row p id row (lookup row counts) next) e
  count_row-JournalsAt id row counts next e read =
      JournalsAt-if (is_negative next) _ _ e (Journals-ask _ e) (
        JournalsAt-write_node p id (put_counts row (nonzero next))
          (put_counts_view row (lookup row counts)) e (Undo.counts p id row (lookup row counts))
          (λ x y there changed.
            subst
              (λ o.
                put_counts_view row (lookup row (or_empty o)) (view_node y) ≡ some (view_node x))
              (part_found p id counts_of e x read there)
              (put_counts_back row (nonzero next) x y changed))
          (λ v. refl))

  pub apply_counts-Journals : (id : NodeId) (delta : Counts) → Journals (apply_counts p id delta)
  unfolding apply_counts
  apply_counts-Journals id delta =
      Journals-for_each _
        (λ _ change e.
          JournalsAt-ask _ _ e (λ counts read. count_row-JournalsAt id change.0 counts _ e read))
        delta tt

  index_row-JournalsAt :
      (id : NodeId) (left : Bool) (key row : Row) (index : KeyIndex) (next : ℤ) (e : Engine)
      → expect (node_at p id e >>= side_of left) ≡ Outcome.ok index
      → JournalsAt (index_row p id left key row (entry_at index key row) next) e
  index_row-JournalsAt id left key row index next e read =
      JournalsAt-if (is_negative next) _ _ e (Journals-ask _ e) (
        JournalsAt-write_node p id (set_index left key row (nonzero next))
          (put_index_view left key row (entry_at index key row)) e
          (Undo.key_index p id left key row (entry_at index key row))
          (λ x y there changed.
            subst
              (λ o.
                put_index_view left key row (entry_at (or_empty o) key row) (view_node y)
                ≡ some (view_node x))
              (part_found p id (side_of left) e x read there)
              (set_index_back left key row (nonzero next) x y changed))
          (λ v. refl))

  pub index_update-Journals :
      (id : NodeId) (left : Bool) (delta : Counts) (col : ℕ)
      → Journals (index_update p id left delta col)
  unfolding index_update
  index_update-Journals id left delta col =
      Journals-for_each _
        (λ _ change e. JournalsAt-ask _ _ e (λ key _.
          JournalsAt-then (touch_node p id (touch_index left key)) _ e
            (JournalsAt-touch_node p id (touch_index left key) e (touch_index-view left key))
            (λ _ _.
              JournalsAt-ask _ _ _
                (λ index read. index_row-JournalsAt id left key change.0 index _ _ read))))
        delta tt

  module _ (deltas : Net) where
    group_row-JournalsAt :
        (id : NodeId) (count : Bool) (sum : Option ℕ) (key : Row) (groups : List (Row × Group))
        (new : Group) (out : Counts) (e : Engine)
        → expect (node_at p id e >>= groups_of) ≡ Outcome.ok groups
        → JournalsAt (group_row p deltas id count sum key (lookup key groups) new out) e
    group_row-JournalsAt id count sum key groups new out e read =
        JournalsAt-if (is_negative new.count) _ _ e (Journals-ask _ e) (
          JournalsAt-if (is_same new (lookup key groups)) _ _ e (Journals-pure out e) (
            JournalsAt-then _ _ e
              (JournalsAt-write_node p id (put_group key _) (put_group_view key (lookup key groups))
                e (Undo.group p id key (lookup key groups))
                (λ x y there changed.
                  subst
                    (λ o.
                      put_group_view key (lookup key (or_empty o)) (view_node y)
                      ≡ some (view_node x))
                    (part_found p id groups_of e x read there) (put_group_back key _ x y changed))
                (λ v. refl))
              (λ _ _. Journals-pure _ _)))

    pub update_groups-Journals :
        (id : NodeId) (count : Bool) (sum : Option ℕ) (changes : Counts × Counts)
        → Journals (update_groups p deltas id count sum changes)
    unfolding update_groups
    update_groups-Journals id count sum changes =
        Journals-for_each _
          (λ out entry e.
            JournalsAt-ask _ _ e
              (λ groups read. group_row-JournalsAt id count sum entry.0 groups _ out e read))
          (key_set changes.0 changes.1) []

    -- One node, where the nodes below it journal.
    module _ (child : NodeId → Memo → Action (Memo × Counts))
        (below : (id : NodeId) (memo : Memo) → Journals (child id memo)) where
      step-Journals :
          (id : NodeId) (node : Node) (memo : Memo) → Journals (step p deltas child id node memo)
      unfolding step
      step-Journals id (Node.scan r) memo = Journals-pure _
      step-Journals id (Node.union inputs _) memo =
          Journals-then _ _
            (Journals-for_each _
              (λ acc input.
                Journals-then (child input acc.0) _ (below input acc.0) (λ r. Journals-pure _))
              inputs (memo, []))
            (λ total.
              Journals-then _ _ (apply_counts-Journals id total.1) (λ _. Journals-pure total))
      step-Journals id (Node.join left right on_left on_right _ _ _) memo =
          Journals-then _ _ (below left memo) (λ dl. Journals-then _ _ (below right dl.0) (λ dr.
            Journals-then _ _ (index_update-Journals id true dl.1 on_left) (λ _.
              Journals-then _ _ (index_update-Journals id false dr.1 on_right) (λ _.
                Journals-then _ _ (Journals-ask _) (λ right_index.
                  Journals-then _ _ (Journals-ask _) (λ first.
                    Journals-then _ _ (Journals-ask _) (λ left_index.
                      Journals-then _ _ (Journals-ask _) (λ out.
                        Journals-then _ _ (apply_counts-Journals id out)
                          (λ _. Journals-pure _)))))))))
      step-Journals id (Node.aggregate input group_by count sum _) memo =
          Journals-then _ _ (below input memo) (λ incoming.
            Journals-then _ _ (Journals-ask _) (λ changes.
              Journals-then _ _ (update_groups-Journals id count sum changes)
                (λ out. Journals-pure _)))
      step-Journals id (Node.project input columns _) memo =
          Journals-then _ _ (below input memo) (λ incoming.
            Journals-then _ _ (Journals-ask _)
              (λ out. Journals-then _ _ (apply_counts-Journals id out) (λ _. Journals-pure _)))

    memoised-Journals :
        (id : NodeId) (memo : Memo) (o : Option Counts) (body : Action (Memo × Counts))
        → Journals body
        → Journals (memoised p deltas id memo o body)
    memoised-Journals id memo none body h = Journals-then body _ h (λ r. Journals-pure _)
    memoised-Journals id memo (some delta) body h = Journals-pure _

    pub run-Journals : (fuel : ℕ) (id : NodeId) (memo : Memo) → Journals (run p deltas fuel id memo)
    unfolding run
    run-Journals zero id memo = Journals-ask _
    run-Journals (suc fuel) id memo = memoised-Journals id memo (lookup id memo) _ (
        Journals-then _ _ (Journals-ask _)
          (λ node. step-Journals (run p deltas fuel) (run-Journals fuel) id node memo))
