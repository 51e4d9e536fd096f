-- ===== src/FrontierLab/Journal/Edits/Unwind.antt =====
-- `unwind` takes back what the journal recorded.
use mathlib.Core.Option
use sqlite_ivm.Base.{
  ℕ, suc, ◌+◌, ◌-◌, ◌≡◌, refl, sym, ap, subst, ◌∙◌, Option, none, some, length, ◌>>=◌, >>=-eq-some,
  some_injective, arith,
}
use sqlite_ivm.FrontierLab.Storage.{Undo, Engine}
use sqlite_ivm.FrontierLab.Journal.{
  modify_at, in_program, in_relation, undo_one, unwind_steps, unwind,
}
use sqlite_ivm.FrontierLab.Journal.View.{view}
use sqlite_ivm.FrontierLab.Journal.View.Undo.{undo_view}
use sqlite_ivm.FrontierLab.Journal.View.Replay.{view-undo_one}
use sqlite_ivm.FrontierLab.Journal.Edits.{Edits}

undo_one-marks : (u : Undo) (e : Engine) {b : Engine} → undo_one u e ≡ some b → b.marks ≡ e.marks
unfolding undo_one in_program in_relation
undo_one-marks (Undo.insert_ id slot recycled) e h =
    let (_, _, whole) = >>=-eq-some (modify_at _ e.relations id) _ h in
    ap (λ x. x.marks) (sym (some_injective whole))
undo_one-marks (Undo.remove_ id slot row) e h =
    let (_, _, whole) = >>=-eq-some (modify_at _ e.relations id) _ h in
    ap (λ x. x.marks) (sym (some_injective whole))
undo_one-marks (Undo.counts p node row previous) e h =
    let (_, _, whole) = >>=-eq-some (modify_at _ e.programs p) _ h in
    ap (λ x. x.marks) (sym (some_injective whole))
undo_one-marks (Undo.key_index p node left key row previous) e h =
    let (_, _, whole) = >>=-eq-some (modify_at _ e.programs p) _ h in
    ap (λ x. x.marks) (sym (some_injective whole))
undo_one-marks (Undo.group p node key previous) e h =
    let (_, _, whole) = >>=-eq-some (modify_at _ e.programs p) _ h in
    ap (λ x. x.marks) (sym (some_injective whole))

undo_one-frontiers_applied :
    (u : Undo) (e : Engine) {b : Engine}
    → undo_one u e ≡ some b
    → b.frontiers_applied ≡ e.frontiers_applied
unfolding undo_one in_program in_relation
undo_one-frontiers_applied (Undo.insert_ id slot recycled) e h =
    let (_, _, whole) = >>=-eq-some (modify_at _ e.relations id) _ h in
    ap (λ x. x.frontiers_applied) (sym (some_injective whole))
undo_one-frontiers_applied (Undo.remove_ id slot row) e h =
    let (_, _, whole) = >>=-eq-some (modify_at _ e.relations id) _ h in
    ap (λ x. x.frontiers_applied) (sym (some_injective whole))
undo_one-frontiers_applied (Undo.counts p node row previous) e h =
    let (_, _, whole) = >>=-eq-some (modify_at _ e.programs p) _ h in
    ap (λ x. x.frontiers_applied) (sym (some_injective whole))
undo_one-frontiers_applied (Undo.key_index p node left key row previous) e h =
    let (_, _, whole) = >>=-eq-some (modify_at _ e.programs p) _ h in
    ap (λ x. x.frontiers_applied) (sym (some_injective whole))
undo_one-frontiers_applied (Undo.group p node key previous) e h =
    let (_, _, whole) = >>=-eq-some (modify_at _ e.programs p) _ h in
    ap (λ x. x.frontiers_applied) (sym (some_injective whole))

-- What is seen of a result.
map-eq-some {ℓ} :
    {A B : Type ℓ} (f : A → B) (o : Option A) {b : B}
    → Option.map f o ≡ some b
    → (a : A) × (o ≡ some a) × (f a ≡ b)
map-eq-some f none h = cc
map-eq-some f (some a) h = (a, refl, some_injective h)

counted : (b a n e : ℕ) → b ≡ suc a → a ≡ n + e → b ≡ suc n + e
counted b a n e h k = omega arith

-- The entries of a run, replayed on an engine that looks as it left it.
replayed :
    {e b : Engine}
    → Edits e b
    → (n : ℕ) × (length b.journal ≡ n + length e.journal)
      × ((c : Engine)
          → view c ≡ view b
          → (back : Engine) × (unwind_steps n b.journal c ≡ some back)
            × (view back ≡ view e)
            × (back.journal ≡ e.journal)
            × (back.marks ≡ c.marks)
            × (back.frontiers_applied ≡ c.frontiers_applied))
unfolding unwind_steps
replayed {e} Edits.done =
    (0, omega arith, λ c h. (record c { journal = e.journal }, refl, h, refl, refl, refl))
replayed (Edits.unseen k v j m) =
    let (n, size, run) = replayed k in
    (
      n,
      ap length j ∙ size,
      λ c h.
          let (back, runs, held, journal, marks, applied) = run c (h ∙ v) in
          (
            back,
            subst (λ l. unwind_steps n l c ≡ some back) (sym j) runs,
            held,
            journal,
            marks,
            applied,
          ),
    )
replayed {e} {b} (Edits.recorded {a} u k undone j m) =
    let (n, size, run) = replayed k in
    (
      suc n,
      counted (length b.journal) (length a.journal) n (length e.journal) (ap length j) size,
      λ c h.
          let (d, first, seen) =
            map-eq-some view (undo_one u c) (view-undo_one u c ∙ ap (undo_view u) h ∙ undone) in
          let (back, runs, held, journal, marks, applied) = run d seen in
          (
            back,
            subst (λ l. unwind_steps (suc n) l c ≡ some back) (sym j)
                (subst (λ o. (o >>= unwind_steps n a.journal) ≡ some back) (sym first) runs),
            held,
            journal,
            marks ∙ undo_one-marks u c first,
            applied ∙ undo_one-frontiers_applied u c first,
          ),
    )

pub unwind-Edits :
    {e b : Engine}
    → Edits e b
    → (c : Engine) → view c ≡ view b
    → c.journal ≡ b.journal
    → (back : Engine) × (unwind (length e.journal) c ≡ some back)
      × (view back ≡ view e)
      × (back.journal ≡ e.journal)
      × (back.marks ≡ c.marks)
      × (back.frontiers_applied ≡ c.frontiers_applied)
unfolding unwind
unwind-Edits {e} {b} k c h j =
    let (n, size, run) = replayed k in
    let (back, runs, held, journal, marks, applied) = run c h in
    let steps : n ≡ length c.journal - length e.journal =
      let same : length c.journal ≡ length b.journal = ap length j in omega (arith, size, same) in
    (
      back,
      subst (λ l. unwind_steps (length c.journal - length e.journal) l c ≡ some back) (sym j)
          (subst (λ m. unwind_steps m b.journal c ≡ some back) steps runs),
      held,
      journal,
      marks,
      applied,
    )
