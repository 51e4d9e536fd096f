-- ===== src/FrontierLab/Journal/Edits.antt =====
-- Runs of the engine whose every visible change is in the journal.
pub mod Unwind
use sqlite_ivm.Base.{◌≡◌, refl, ◌∙◌, List, ◌∷◌, Option, some}
use sqlite_ivm.FrontierLab.Storage.{Undo, Engine}
use sqlite_ivm.FrontierLab.Journal.View.{view}
use sqlite_ivm.FrontierLab.Journal.View.Undo.{undo_view}

pub data Edits (e : Engine) : Engine → Type 0 where
  done : Edits e e
  recorded :
      {a b : Engine} (u : Undo)
      → Edits e a
      → undo_view u (view b) ≡ some (view a)
      → b.journal ≡ u ∷ a.journal
      → b.marks ≡ a.marks
      → Edits e b
  unseen :
      {a b : Engine}
      → Edits e a
      → view b ≡ view a
      → b.journal ≡ a.journal
      → b.marks ≡ a.marks
      → Edits e b

pub Edits-trans : {a b c : Engine} → Edits a b → Edits b c → Edits a c
Edits-trans h Edits.done = h
Edits-trans h (Edits.recorded u k undone j m) = Edits.recorded u (Edits-trans h k) undone j m
Edits-trans h (Edits.unseen k v j m) = Edits.unseen (Edits-trans h k) v j m

pub Edits-marks : {a b : Engine} → Edits a b → b.marks ≡ a.marks
Edits-marks Edits.done = refl
Edits-marks (Edits.recorded u k undone j m) = m ∙ Edits-marks k
Edits-marks (Edits.unseen k v j m) = m ∙ Edits-marks k

-- An engine as it was: what it holds, its journal and its open scopes.
pub record Restored (e back : Engine) : Type 0 where
  pub held : view back ≡ view e
  pub journal : back.journal ≡ e.journal
  pub marks : back.marks ≡ e.marks
