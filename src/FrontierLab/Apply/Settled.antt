-- ===== src/FrontierLab/Apply/Settled.antt =====
-- How `apply` leaves the engine, on every outcome of the frontier.
use sqlite_ivm.Base.{
  ℕ, suc, ◌∙◌, ◌≡◌, refl, sym, ap, subst, Option, none, some, List, ◌∷◌, length, ◌>>=◌,
}
use sqlite_ivm.FrontierLab.Types.{ProgramId, Frontier, OutputDelta, Outcome}
use sqlite_ivm.FrontierLab.Storage.{Engine}
use sqlite_ivm.FrontierLab.Journal.{unwind}
use sqlite_ivm.FrontierLab.Journal.View.{view}
use sqlite_ivm.FrontierLab.Journal.Edits.{Edits, Edits-marks, Restored}
use sqlite_ivm.FrontierLab.Journal.Edits.Unwind.{unwind-Edits}
use sqlite_ivm.FrontierLab.Step.Journaled.{AllValid, Leaves}
use sqlite_ivm.FrontierLab.Apply.{apply_frontier, open_scope, without_mark, settle_with, apply}
use sqlite_ivm.FrontierLab.Apply.Journaled.{applied_after, apply_frontier-Finishes}

-- The same run, with the scopes left out.
Edits-without_mark :
    (marks : List ℕ) {a b : Engine}
    → Edits a b
    → Edits (without_mark marks a) (without_mark marks b)
Edits-without_mark marks Edits.done = Edits.done
Edits-without_mark marks (Edits.recorded u k undone j m) =
    Edits.recorded u (Edits-without_mark marks k) undone j refl
Edits-without_mark marks (Edits.unseen k v j m) = Edits.unseen (Edits-without_mark marks k) v j refl

-- A run within a scope, seen from outside when the scope is kept.
pub scope_kept : {e b : Engine} → Leaves (open_scope e) b → Leaves e (without_mark e.marks b)
scope_kept {e} l = record { edits = Edits-without_mark e.marks l.edits; valid = l.valid }

-- The same where the scope is rolled back.
pub scope_back :
    {e b : Engine}
    → Leaves (open_scope e) b
    → (back : Engine) × (unwind (length e.journal) (without_mark e.marks b) ≡ some back)
      × Restored e back
      × (back.frontiers_applied ≡ b.frontiers_applied)
scope_back {e} {b} l =
    let (back, runs, held, journal, marks, applied) =
      unwind-Edits l.edits (without_mark e.marks b) refl refl in
    (back, runs, record { held = held; journal = journal; marks = marks }, applied)

pub Restored-Leaves : {e b : Engine} → AllValid (view e) → Restored e b → Leaves e b
Restored-Leaves valid r = record {
  edits = Edits.unseen Edits.done r.held r.journal r.marks;
  valid = subst AllValid (sym r.held) valid;
}

-- What an engine is left as, given how the frontier ran within a scope.
abbrev pub Settles :
    Engine
    → Engine × Outcome (List OutputDelta)
    → Option (Engine × Outcome (List OutputDelta))
    → Type 0
Settles e (b, Outcome.ok deltas) r =
    (r ≡ some (without_mark e.marks b, Outcome.ok deltas))
    × Leaves e (without_mark e.marks b)
    × (b.frontiers_applied ≡ suc e.frontiers_applied)
Settles e (b, Outcome.err x) r =
    (back : Engine) × (r ≡ some (back, Outcome.err x))
    × Restored e back
    × (back.frontiers_applied ≡ e.frontiers_applied)
Settles e (b, Outcome.panic) r = r ≡ none

settled :
    (e b : Engine) (o : Outcome (List OutputDelta))
    → Leaves (open_scope e) b
    → b.frontiers_applied ≡ applied_after o e.frontiers_applied
    → Settles e (b, o) (settle_with o (length e.journal ∷ e.marks) b)
settled e b (Outcome.ok deltas) l applied = (refl, scope_kept l, applied)
settled e b (Outcome.err x) l applied =
    let (back, runs, restored, same) = scope_back l in
    (back, ap (λ o. o >>= λ back. some (back, Outcome.err x)) runs, restored, same ∙ applied)
settled e b Outcome.panic l applied = refl

-- Applying a frontier to an engine whose relations are valid. Where the frontier, run within a scope,
-- succeeds, its engine is kept, with the scopes there were before: the relations are valid, the journal
-- has every change, and one more frontier is counted. Where it fails, with the same error, the engine
-- is left with what it held, hash maps by their contents, and with the journal, the scopes and the count
-- it had. It panics only where the frontier itself does.
pub apply-Settles :
    (p : ProgramId) (frontier : Frontier) (e : Engine)
    → AllValid (view e)
    → Settles e (apply_frontier p frontier (open_scope e)) (apply p frontier e)
unfolding apply
apply-Settles p frontier e valid =
    let run = apply_frontier p frontier (open_scope e) in
    let (l, applied) = apply_frontier-Finishes p frontier (open_scope e) valid in
    subst (λ marks. Settles e run (settle_with run.1 marks run.0)) (sym (Edits-marks l.edits))
      (settled e run.0 run.1 l applied)
