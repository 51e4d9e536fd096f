-- ===== src/FrontierLab/Step/Journaled.antt =====
-- Actions that leave every visible change in the journal and the relations valid, and how they compose.
pub mod Writes
use sqlite_ivm.Base.{
  Bool, true, false, if◌then◌else◌, ℕ, zero, suc, ◌≡◌, refl, sym, ap, subst, ◌∙◌, Option, none,
  some, List, [], ◌∷◌, All,
}
use sqlite_ivm.FrontierLab.Types.{Outcome, EngineError}
use sqlite_ivm.FrontierLab.Storage.{Engine}
use sqlite_ivm.FrontierLab.Journal.View.{EngineView, view}
use sqlite_ivm.FrontierLab.Journal.Edits.{Edits, Edits-trans}
use sqlite_ivm.FrontierLab.Source.Valid.{IsValid}
use sqlite_ivm.FrontierLab.Step.{Action, pure, ask, continue_, ◌then◌, for_each, times}

-- Every relation is valid.
abbrev pub AllValid : EngineView → Type 0
AllValid v = All IsValid v.relations

pub record Leaves (e b : Engine) : Type 0 where
  pub edits : Edits e b
  pub valid : AllValid (view b)

-- The same within a frontier, which is not counted yet.
pub record Proceeds (e b : Engine) : Type 0 where
  pub edits : Edits e b
  pub valid : AllValid (view b)
  pub applied : b.frontiers_applied ≡ e.frontiers_applied

abbrev pub JournalsAt : {A : Type 0} → Action A → Engine → Type 0
JournalsAt m e = AllValid (view e) → Proceeds e (m e).0

-- Wherever it runs.
abbrev pub Journals : {A : Type 0} → Action A → Type 0
Journals m = (e : Engine) → JournalsAt m e

pub nothing_left : (e : Engine) → AllValid (view e) → Proceeds e e
nothing_left e h = record { edits = Edits.done; valid = h; applied = refl }

pub JournalsAt-then :
    {A B : Type 0} (m : Action A) (f : A → Action B) (e : Engine)
    → JournalsAt m e
    → ((a : A) → (m e).1 ≡ Outcome.ok a → JournalsAt (f a) (m e).0)
    → JournalsAt (m then f) e
unfolding ◌then◌
JournalsAt-then {A} {B} m f e first rest valid = go (m e).1 refl
  where
    go : (o : Outcome A) → (m e).1 ≡ o → Proceeds e (continue_ o f (m e).0).0
    go (Outcome.ok a) h =
        let l = first valid in
        let r = rest a h l.valid in
        record {
          edits = Edits-trans l.edits r.edits;
          valid = r.valid;
          applied = r.applied ∙ l.applied;
        }
    go (Outcome.err x) h = first valid
    go Outcome.panic h = first valid

pub Journals-then :
    {A B : Type 0} (m : Action A) (f : A → Action B)
    → Journals m
    → ((a : A) → Journals (f a))
    → Journals (m then f)
Journals-then m f first rest e = JournalsAt-then m f e (first e) (λ a _. rest a (m e).0)

pub Journals-pure : {A : Type 0} (a : A) → Journals (pure a)
unfolding pure
Journals-pure a e h = nothing_left e h

pub Journals-ask : {A : Type 0} (g : Engine → Outcome A) → Journals (ask g)
unfolding ask
Journals-ask g e h = nothing_left e h

-- What is asked, and what is done where that is the answer.
pub JournalsAt-ask :
    {A B : Type 0} (g : Engine → Outcome A) (f : A → Action B) (e : Engine)
    → ((a : A) → g e ≡ Outcome.ok a → JournalsAt (f a) e)
    → JournalsAt (ask g then f) e
unfolding ask
JournalsAt-ask g f e rest = JournalsAt-then (ask g) f e (Journals-ask g e) rest

pub Journals-for_each :
    {A B : Type 0} (f : B → A → Action B)
    → ((acc : B) (x : A) → Journals (f acc x))
    → (xs : List A) (acc : B) → Journals (for_each f acc xs)
unfolding for_each
Journals-for_each f each [] acc = Journals-pure acc
Journals-for_each f each (x ∷ xs) acc =
    Journals-then (f acc x) (λ next. for_each f next xs) (each acc x)
      (λ next. Journals-for_each f each xs next)

pub Journals-times : (n : ℕ) (m : Action Unit) → Journals m → Journals (times n m)
unfolding times
Journals-times zero m h = Journals-pure tt
Journals-times (suc n) m h = Journals-then m (λ _. times n m) h (λ _. Journals-times n m h)

pub JournalsAt-if :
    {A : Type 0} (b : Bool) (m n : Action A) (e : Engine)
    → JournalsAt m e
    → JournalsAt n e
    → JournalsAt (if b then m else n) e
JournalsAt-if true m n e h k = h
JournalsAt-if false m n e h k = k
