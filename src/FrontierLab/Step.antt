-- ===== src/FrontierLab/Step.antt =====
-- How the code of labs/20260923.1.the-gang-builds-the-rust-frontier-engine/src/2_apply.rs runs: a
-- function on the engine that returns a `Result` or panics, and the loops over what it iterates.
pub mod Journaled
use sqlite_ivm.Base.{ℕ, zero, suc, Option, none, some, List, [], ◌∷◌}
use sqlite_ivm.FrontierLab.Types.{Outcome, EngineError, and_then, ProgramId}
use sqlite_ivm.FrontierLab.Storage.{NodeId, Node, Engine, Undo}
use sqlite_ivm.FrontierLab.Journal.{in_program}

abbrev pub Action : Type 0 → Type 0
Action A = Engine → Engine × Outcome A

unfoldable pub pure : {A : Type 0} → A → Action A
pure a e = (e, Outcome.ok a)

-- What the engine answers, unchanged.
unfoldable pub ask : {A : Type 0} → (Engine → Outcome A) → Action A
ask f e = (e, f e)

abbrev pub continue_ : {A B : Type 0} → Outcome A → (A → Action B) → Action B
continue_ (Outcome.ok a) f e = f a e
continue_ (Outcome.err x) f e = (e, Outcome.err x)
continue_ Outcome.panic f e = (e, Outcome.panic)

-- `?`: the rest runs on the engine that is left, unless it failed.
infixl 5 ◌then◌
unfoldable pub ◌then◌ : {A B : Type 0} → Action A → (A → Action B) → Action B
(m then f) e = let r = m e in continue_ r.1 f r.0

-- A loop that may return early.
unfoldable pub for_each : {A B : Type 0} → (B → A → Action B) → B → List A → Action B
for_each f acc [] = pure acc
for_each f acc (x ∷ xs) = f acc x then λ next. for_each f next xs

unfoldable pub times : ℕ → Action Unit → Action Unit
times zero m = pure tt
times (suc n) m = m then λ _. times n m

-- The same for a loop that only reads.
abbrev pub fold_outcome : {A B : Type 0} → (B → A → Outcome B) → B → List A → Outcome B
fold_outcome f acc [] = Outcome.ok acc
fold_outcome f acc (x ∷ xs) = and_then (f acc x) (λ next. fold_outcome f next xs)

abbrev pub fold : {A B : Type 0} → (B → A → B) → B → List A → B
fold f acc [] = acc
fold f acc (x ∷ xs) = fold f (f acc x) xs

-- `engine.journal.push(undo)`
abbrev pub push_undo : Undo → Engine → Engine
push_undo undo e = record e { journal = undo ∷ e.journal }

abbrev pub store : Option Engine → (Engine → Engine) → Action Unit
store none after e = (e, Outcome.panic)
store (some next) after e = (after next, Outcome.ok tt)

-- A write to a node's maps, with its undo entry in the journal.
abbrev pub write_node : ProgramId → NodeId → Undo → (Node → Option Node) → Action Unit
write_node p id undo f e = store (in_program p id f e) (push_undo undo) e

-- A write that the journal does not record.
abbrev pub touch_node : ProgramId → NodeId → (Node → Option Node) → Action Unit
touch_node p id f e = store (in_program p id f e) (λ next. next) e
