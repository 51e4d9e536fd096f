-- ===== src/FrontierLab/Apply/Journaled.antt =====
-- A frontier leaves every visible change in the journal and the relations valid.
use sqlite_ivm.Base.{
  ℕ, suc, ◌≡◌, refl, ap, ◌∙◌, Bool, true, false, List, [], ◌∷◌, map, nat_eq, if◌then◌else◌,
}
use sqlite_ivm.FrontierLab.Types.{ProgramId, Frontier, Outcome}
use sqlite_ivm.FrontierLab.Storage.{OutputState, ProgramState, Engine}
use sqlite_ivm.FrontierLab.Journal.View.{view}
use sqlite_ivm.FrontierLab.Journal.Edits.{Edits, Edits-trans}
use sqlite_ivm.FrontierLab.Step.{Action, pure, continue_, ◌then◌}
use sqlite_ivm.FrontierLab.Step.Journaled.{
  AllValid, Leaves, JournalsAt, Journals, JournalsAt-if, Journals-pure, Journals-ask, Journals-then,
  Journals-for_each,
}
use sqlite_ivm.FrontierLab.Maps.{Net, consolidate_from}
use sqlite_ivm.FrontierLab.Source.Journaled.{write_source-Journals}
use sqlite_ivm.FrontierLab.Propagate.Nodes.{Memo}
use sqlite_ivm.FrontierLab.Propagate.Journaled.{run-Journals}
use sqlite_ivm.FrontierLab.Apply.{
  count_frontier, group_changes, output_changes, outputs_of, reads_any, no_changes, maintain,
  apply_frontier,
}

-- A frontier that succeeds is counted.
abbrev pub applied_after : {A : Type 0} → Outcome A → ℕ → ℕ
applied_after (Outcome.ok a) n = suc n
applied_after (Outcome.err x) n = n
applied_after Outcome.panic n = n

-- An action that ends a frontier.
abbrev pub Finishes : {A : Type 0} → Action A → Engine → Type 0
Finishes m e =
    AllValid (view e)
    → Leaves e (m e).0 × ((m e).0.frontiers_applied ≡ applied_after (m e).1 e.frontiers_applied)

Finishes-then :
    {A B : Type 0} (m : Action A) (f : A → Action B) (e : Engine)
    → JournalsAt m e
    → ((a : A) → Finishes (f a) (m e).0)
    → Finishes (m then f) e
unfolding ◌then◌
Finishes-then {A} {B} m f e first rest valid = go (m e).1 refl
  where
    go :
        (o : Outcome A)
        → (m e).1 ≡ o
        → (let after = continue_ o f (m e).0 in
            Leaves e after.0
            × (after.0.frontiers_applied ≡ applied_after after.1 e.frontiers_applied))
    go (Outcome.ok a) h =
        let l = first valid in
        let (r, applied) = rest a l.valid in
        (
          record { edits = Edits-trans l.edits r.edits; valid = r.valid },
          applied ∙ ap (applied_after (f a (m e).0).1) l.applied,
        )
    go (Outcome.err x) h =
        let l = first valid in (record { edits = l.edits; valid = l.valid }, l.applied)
    go Outcome.panic h =
        let l = first valid in (record { edits = l.edits; valid = l.valid }, l.applied)

Finishes-counted : {A : Type 0} (a : A) (e : Engine) → Finishes (count_frontier then λ _. pure a) e
unfolding ◌then◌ pure
Finishes-counted a e valid =
    (record { edits = Edits.unseen Edits.done refl refl refl; valid = valid }, refl)

Finishes-if :
    {A : Type 0} (b : Bool) (m n : Action A) (e : Engine)
    → Finishes m e
    → Finishes n e
    → Finishes (if b then m else n) e
Finishes-if true m n e h k = h
Finishes-if false m n e h k = k

Journals-if :
    {A : Type 0} (b : Bool) (m n : Action A)
    → Journals m
    → Journals n
    → Journals (if b then m else n)
Journals-if b m n h k e = JournalsAt-if b m n e (h e) (k e)

module _ (p : ProgramId) where
  outputs_of-Journals :
      (memo : Memo) (outputs : List OutputState) → Journals (outputs_of p memo outputs)
  unfolding outputs_of
  outputs_of-Journals memo [] = Journals-pure []
  outputs_of-Journals memo (o ∷ outputs) = Journals-then _ _ (Journals-ask _) (λ delta.
      Journals-then (output_changes p o delta) _
        (Journals-if o.distinct _ _ (Journals-then _ _ (Journals-ask _) (λ counts. Journals-pure _))
          (Journals-pure (group_changes delta)))
        (λ changes.
          Journals-then _ _ (outputs_of-Journals memo outputs) (λ deltas. Journals-pure _)))

  maintain-Finishes :
      (net : Net) (state : ProgramState) (e : Engine) → Finishes (maintain p net state) e
  unfolding maintain
  maintain-Finishes net state e =
      Finishes-then _ _ e
        (Journals-for_each _ (λ _ entry. write_source-Journals entry.0 entry.1) net tt e)
        (λ _.
          Finishes-then _ _ _
            (Journals-for_each _
              (λ memo o.
                Journals-then _ _ (run-Journals p net (suc o.root) o.root memo)
                  (λ r. Journals-pure r.0))
              state.outputs [] _)
            (λ memo.
              Finishes-then _ _ _ (outputs_of-Journals memo state.outputs _)
                (λ deltas. Finishes-counted deltas _)))

-- A frontier leaves every visible change in the journal and the relations valid, and counts itself where
-- it succeeds.
pub apply_frontier-Finishes :
    (p : ProgramId) (frontier : Frontier) (e : Engine) → Finishes (apply_frontier p frontier) e
unfolding apply_frontier
apply_frontier-Finishes p frontier e = Finishes-then _ _ e (Journals-ask _ e) (λ _.
    Finishes-then _ _ _ (Journals-ask _ _) (λ _. Finishes-then _ _ _ (Journals-ask _ _) (λ state.
      Finishes-if (reads_any state.dependencies (map (λ entry. entry.0) net)) (maintain p net state)
        (count_frontier then λ _. pure (map no_changes state.outputs)) _
        (maintain-Finishes p net state _) (Finishes-counted (map no_changes state.outputs) _))))
  where
    net : Net
    net = consolidate_from [] frontier.changes
