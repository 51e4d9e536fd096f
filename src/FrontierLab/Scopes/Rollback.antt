-- ===== src/FrontierLab/Scopes/Rollback.antt =====
-- Rolling back a scope, whatever was done within it.
use sqlite_ivm.Base.{◌≡◌, sym, ap, subst, ◌∙◌, some, List, ◌>>=◌, >>=-eq-some, some_injective}
use sqlite_ivm.FrontierLab.Types.{ProgramId, Frontier, OutputDelta, Outcome}
use sqlite_ivm.FrontierLab.Storage.{Engine}
use sqlite_ivm.FrontierLab.Journal.{unwind}
use sqlite_ivm.FrontierLab.Journal.View.{view}
use sqlite_ivm.FrontierLab.Journal.Edits.{Edits, Edits-trans, Edits-marks, Restored}
use sqlite_ivm.FrontierLab.Step.Journaled.{AllValid, Leaves}
use sqlite_ivm.FrontierLab.Apply.{apply_frontier, open_scope, apply}
use sqlite_ivm.FrontierLab.Apply.Settled.{
  scope_kept, scope_back, Restored-Leaves, Settles, apply-Settles,
}
use sqlite_ivm.FrontierLab.Scopes.{
  pop_mark, rollback, release, Settle, settle, IsDiscarded, Work, perform, transact,
}

Leaves-trans : {a b c : Engine} → Leaves a b → Leaves b c → Leaves a c
Leaves-trans l k = record { edits = Edits-trans l.edits k.edits; valid = k.valid }

apply-Leaves :
    (p : ProgramId) (frontier : Frontier) (e : Engine) {r : Engine × Outcome (List OutputDelta)}
    → AllValid (view e)
    → apply p frontier e ≡ some r
    → Leaves e r.0
apply-Leaves p frontier e {r} valid h =
    let run = apply_frontier p frontier (open_scope e) in
    go run.0 run.1 (subst (λ o. Settles e run o) h (apply-Settles p frontier e valid))
  where
    go : (b : Engine) (o : Outcome (List OutputDelta)) → Settles e (b, o) (some r) → Leaves e r.0
    go b (Outcome.ok deltas) (same, l, _) = subst (λ s. Leaves e s.0) (sym (some_injective same)) l
    go b (Outcome.err x) (back, same, restored, _) =
        subst (λ s. Leaves e s.0) (sym (some_injective same)) (Restored-Leaves valid restored)
    go b Outcome.panic h = cc

-- Rolling back the innermost scope.
rollback-Restored :
    (e b : Engine)
    → Leaves (open_scope e) b
    → (back : Engine) × (rollback b ≡ some back) × Restored e back
unfolding rollback
rollback-Restored e b l =
    let (back, runs, restored, _) = scope_back l in
    (back, ap (λ marks. pop_mark marks unwind b) (Edits-marks l.edits) ∙ runs, restored)

released-Leaves :
    (e b : Engine) {c : Engine} → Leaves (open_scope e) b → release b ≡ some c → Leaves e c
unfolding release
released-Leaves e b l h =
    subst (λ x. Leaves e x)
      (some_injective
        (sym (ap (λ marks. pop_mark marks (λ _ back. some back) b) (Edits-marks l.edits)) ∙ h))
      (scope_kept l)

rolled_back-Leaves :
    (e b : Engine) {c : Engine}
    → AllValid (view e)
    → Leaves (open_scope e) b
    → rollback b ≡ some c
    → Leaves e c
rolled_back-Leaves e b valid l h =
    let (back, runs, restored) = rollback-Restored e b l in
    subst (λ x. Leaves e x) (some_injective (sym runs ∙ h)) (Restored-Leaves valid restored)

settle-Leaves :
    (how : Settle) (e b : Engine) {c : Engine}
    → AllValid (view e)
    → Leaves (open_scope e) b
    → settle how b ≡ some c
    → Leaves e c
unfolding settle
settle-Leaves Settle.committed e b valid l h = released-Leaves e b l h
settle-Leaves Settle.released e b valid l h = released-Leaves e b l h
settle-Leaves Settle.rolled_back e b valid l h = rolled_back-Leaves e b valid l h
settle-Leaves Settle.rolled_back_to e b valid l h = rolled_back-Leaves e b valid l h
settle-Leaves Settle.dropped e b valid l h = rolled_back-Leaves e b valid l h

discarded-Restored :
    (how : Settle) (e b : Engine)
    → IsDiscarded how
    → Leaves (open_scope e) b
    → (back : Engine) × (settle how b ≡ some back) × Restored e back
unfolding settle
discarded-Restored Settle.committed e b is l = absurd is
discarded-Restored Settle.released e b is l = absurd is
discarded-Restored Settle.rolled_back e b is l = rollback-Restored e b l
discarded-Restored Settle.rolled_back_to e b is l = rollback-Restored e b l
discarded-Restored Settle.dropped e b is l = rollback-Restored e b l

-- Work that returns, frontiers that fail and savepoints however they are settled included, keeps the
-- relations valid (free slots empty, the ids of a value slots that hold it, none twice) and leaves, from
-- where it began, a run with every visible change in the journal and with the same open scopes.
pub perform-Leaves :
    (work : Work) (e : Engine) {b : Engine}
    → AllValid (view e)
    → perform work e ≡ some b
    → Leaves e b
unfolding perform
perform-Leaves Work.done e valid h =
    subst (λ b. Leaves e b) (some_injective h) (record { edits = Edits.done; valid = valid })
perform-Leaves (Work.frontier p f rest) e valid h =
    let (r, applied, more) = >>=-eq-some (apply p f e) (λ r. perform rest r.0) h in
    let l = apply-Leaves p f e valid applied in
    Leaves-trans l (perform-Leaves rest r.0 l.valid more)
perform-Leaves (Work.savepoint inner how rest) e valid h =
    let (n, done, more) =
      >>=-eq-some (perform inner (open_scope e)) (λ n. settle how n >>= λ back. perform rest back)
        h in
    let (c, closed, last) = >>=-eq-some (settle how n) (perform rest) more in
    let l = settle-Leaves how e n valid (perform-Leaves inner (open_scope e) valid done) closed in
    Leaves-trans l (perform-Leaves rest c l.valid last)

-- Whatever a transaction did and returned from, frontiers that failed and savepoints however they were
-- settled included, its rollback or its drop succeeds and leaves the engine with what it held when the
-- transaction began, and with the journal and the scopes it had then, where the relations were valid.
pub transact-Restored :
    (work : Work) (how : Settle) (e n : Engine)
    → AllValid (view e)
    → IsDiscarded how
    → perform work (open_scope e) ≡ some n
    → (back : Engine) × (transact work how e ≡ some back) × Restored e back
unfolding transact
transact-Restored work how e n valid is h =
    let (back, runs, restored) =
      discarded-Restored how e n is (perform-Leaves work (open_scope e) valid h) in
    (back, ap (λ o. o >>= settle how) h ∙ runs, restored)
