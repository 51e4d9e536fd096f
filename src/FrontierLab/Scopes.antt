-- ===== src/FrontierLab/Scopes.antt =====
-- labs/20260923.1.the-gang-builds-the-rust-frontier-engine/src/3_tx.rs: transactions and savepoints.
-- A scope holds the engine exclusively, so the scopes nest: what is done within one is a tree.
pub mod Rollback
use sqlite_ivm.Base.{ℕ, Option, none, some, List, [], ◌∷◌, ◌>>=◌}
use sqlite_ivm.FrontierLab.Types.{ProgramId, Frontier, OutputDelta, Outcome}
use sqlite_ivm.FrontierLab.Storage.{Engine}
use sqlite_ivm.FrontierLab.Journal.{unwind}
use sqlite_ivm.FrontierLab.Apply.{apply, open_scope, without_mark}

-- `pop_mark`, and the engine with the mark popped.
abbrev pub pop_mark : List ℕ → (ℕ → Engine → Option Engine) → Engine → Option Engine
pop_mark [] f e = none
pop_mark (mark ∷ marks) f e = f mark (without_mark marks e)

-- `Transaction::rollback`.
unfoldable pub rollback : Engine → Option Engine
rollback e = pop_mark e.marks unwind e

abbrev pub rollback_to : Engine → Option Engine
rollback_to = rollback

-- The drop of a scope that is not settled.
abbrev pub drop_scope : Engine → Option Engine
drop_scope = rollback

-- `Savepoint::release`.
unfoldable pub release : Engine → Option Engine
release e = pop_mark e.marks (λ _ back. some back) e

abbrev pub commit : Engine → Option Engine
commit = release

-- `apply_scoped`, which does what the autocommit `apply` does.
abbrev pub apply_scoped :
    ProgramId → Frontier → Engine → Option (Engine × Outcome (List OutputDelta))
apply_scoped = apply

-- How a scope is settled.
pub data Settle : Type 0 where
  committed released rolled_back rolled_back_to dropped : Settle

unfoldable pub settle : Settle → Engine → Option Engine
settle Settle.committed e = commit e
settle Settle.released e = release e
settle Settle.rolled_back e = rollback e
settle Settle.rolled_back_to e = rollback_to e
settle Settle.dropped e = drop_scope e

-- What is done within a scope, in order.
pub data Work : Type 0 where
  done : Work
  frontier : (program : ProgramId) (frontier : Frontier) (rest : Work) → Work
  savepoint : (inner : Work) (how : Settle) (rest : Work) → Work

unfoldable pub perform : Work → Engine → Option Engine
perform Work.done e = some e
perform (Work.frontier p f rest) e = apply_scoped p f e >>= λ r. perform rest r.0
perform (Work.savepoint inner how rest) e =
    perform inner (open_scope e) >>= λ next. settle how next >>= λ back. perform rest back

-- How a scope is settled when it takes its work back.
abbrev pub IsDiscarded : Settle → Type 0
IsDiscarded Settle.committed = ⊥
IsDiscarded Settle.released = ⊥
IsDiscarded Settle.rolled_back = Unit
IsDiscarded Settle.rolled_back_to = Unit
IsDiscarded Settle.dropped = Unit

-- `Engine::begin`, the work of the transaction, and how it is settled.
unfoldable pub transact : Work → Settle → Engine → Option Engine
transact work how e = perform work (open_scope e) >>= λ next. settle how next
