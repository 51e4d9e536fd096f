-- ===== src/Sources/Sequential.antt =====
-- `guard` lets in what the changes taken one after another let in.
use sqlite_ivm.Base.{
  pos, negsuc, ◌+ℤ◌, ◌≡◌, ◌≢◌, refl, sym, ap, subst, ◌∙◌, ◌⊎◌, inl, inr, Bool, true, false, Option,
  none, some, List, [], ◌∷◌, nat_eq, int_eq, list_eq, pair_eq, beq_refl, beq-ne, Bool-cases,
  contains, lookup, insert, arith,
}
use sqlite_ivm.Ir.Syntax.{Row, W, Relation, Program, kind_eq}
use sqlite_ivm.Engine.{Outcome, and_then}
use sqlite_ivm.Sources.{
  SourceChange, Frontier, Sources, Pending, row_insert, row_remove, is_positive, is_negative,
  weight_of, or_zero, checked, decide, decide_in, guard_change, guard_next, guard_loop,
  changed_rows, change_in, apply_changes, committed, with_sources, guard,
}
use sqlite_ivm.Sources.InOrder.{
  changed, changed_in, accept_first, next_in_order, in_order, checked-ok, contains-row_insert,
  contains-row_remove,
}
use sqlite_ivm.Sources.Tracks.{Agree, Tracks, add_weight, sub_weight, Tracks-insert}

-- The accepted change is put before those after it, on either side.
accept :
    (change : SourceChange) (now after : Sources) (rest : Outcome (List SourceChange))
    → change_in change now (lookup change.rel now) ≡ Outcome.ok after
    → and_then (and_then rest (with_sources after)) (accept_first change)
      ≡ and_then (and_then rest (λ accepted. Outcome.ok (change ∷ accepted))) (with_sources now)
unfolding apply_changes
accept change now after (Outcome.err e) h = refl
accept change now after Outcome.panic h = refl
accept change now after (Outcome.ok accepted) h = rw h (last (apply_changes accepted after))
  where
    last :
        (o : Outcome Sources)
        → and_then
            (and_then o (λ (last : Sources). Outcome.ok (accepted, last)))
            (accept_first change)
          ≡ and_then o (λ last. Outcome.ok (change ∷ accepted, last))
    last (Outcome.ok s) = refl
    last (Outcome.err e) = refl
    last Outcome.panic = refl

module _ (p : Program) (sources : Sources) (changes : List SourceChange) where
  abbrev Same : Type 0
  Same =
      (pending : Pending) (now : Sources)
      → Tracks sources pending now
      → in_order p changes now ≡ and_then (guard_loop p sources changes pending) (with_sources now)

  module _ (same : Same) (change : SourceChange) (pending : Pending) (now : Sources)
      (tracks : Tracks sources pending now) where
    abbrev ordered : Outcome (Option (List Row)) → Outcome (List SourceChange × Sources)
    ordered o = and_then o (next_in_order (in_order p changes) now change)

    abbrev guarded : Outcome (Option Pending) → Outcome (List SourceChange × Sources)
    guarded o =
        and_then (and_then o (guard_next (guard_loop p sources changes) pending change))
          (with_sources now)

    abbrev key_weight : W
    key_weight = or_zero (lookup (change.rel, change.row) pending)

    module _ (a rows : List Row) (found : lookup change.rel sources ≡ some a)
        (reached : lookup change.rel now ≡ some rows)
        (agree : key_weight +ℤ weight_of (contains a change.row)
          ≡ weight_of (contains rows change.row)) where
      taken :
          (after : List Row)
          → changed_rows change rows ≡ after
          → (key_weight +ℤ change.w) +ℤ weight_of (contains a change.row)
            ≡ weight_of (contains after change.row)
          → ((o : Row) → o ≢ change.row → contains after o ≡ contains rows o)
          → ordered (Outcome.ok (some after))
            ≡ guarded (
                Outcome.ok
                  (some (insert (change.rel, change.row) (key_weight +ℤ change.w) pending)))
      taken after effect self others =
          ap (λ o. and_then o (accept_first change))
            (same _ (insert change.rel after now) (
              Tracks-insert sources pending now change.rel change.row change.w a rows after found
                tracks reached self others))
          ∙ accept change now (insert change.rel after now) _ (rw (reached, effect) refl)

      inserted :
          change.w ≡ pos 1
          → contains rows change.row ≡ false
          → ordered (Outcome.ok (some (row_insert change.row rows)))
            ≡ guarded (
                Outcome.ok
                  (some (insert (change.rel, change.row) (key_weight +ℤ change.w) pending)))
      inserted plus absent =
          taken (row_insert change.row rows) (rw plus refl)
            (add_weight key_weight change.w (contains a change.row) (contains rows change.row) _
              agree plus absent
              (contains-row_insert change.row change.row rows ∙ rw (beq_refl change.row) refl))
            (λ o differ.
              contains-row_insert change.row o rows ∙ rw (beq-ne o change.row differ) refl)

      removed :
          change.w ≡ negsuc 0
          → contains rows change.row ≡ true
          → ordered (Outcome.ok (some (row_remove change.row rows)))
            ≡ guarded (
                Outcome.ok
                  (some (insert (change.rel, change.row) (key_weight +ℤ change.w) pending)))
      removed minus there =
          taken (row_remove change.row rows) (rw minus refl)
            (sub_weight key_weight change.w (contains a change.row) (contains rows change.row) _
              agree minus there
              (contains-row_remove change.row change.row rows ∙ rw (beq_refl change.row) refl))
            (λ o differ.
              contains-row_remove change.row o rows ∙ rw (beq-ne o change.row differ) refl)

      decided :
          (change.w ≡ pos 1) ⊎ (change.w ≡ negsuc 0)
          → ordered (changed change rows)
            ≡ guarded (decide change.rel change pending (weight_of (contains rows change.row)))
      decided (inl plus) = elim (Bool-cases (contains rows change.row)) [
        | inl there ↦ rw (there, plus) refl
        | inr absent ↦
            let positive : is_positive change.w ≡ true = ap is_positive plus in
            let negative : is_negative change.w ≡ false = ap is_negative plus in
            let left : changed change rows ≡ Outcome.ok (some (row_insert change.row rows)) =
              rw (positive, absent) refl in
            let right : decide change.rel change pending (weight_of (contains rows change.row))
                ≡ Outcome.ok
                    (some (insert (change.rel, change.row) (key_weight +ℤ change.w) pending)) =
              rw (positive, absent, negative) refl in
            ap ordered left ∙ inserted plus absent ∙ sym (ap guarded right)
      ]
      decided (inr minus) = elim (Bool-cases (contains rows change.row)) [
        | inl there ↦
            let positive : is_positive change.w ≡ false = ap is_positive minus in
            let negative : is_negative change.w ≡ true = ap is_negative minus in
            let left : changed change rows ≡ Outcome.ok (some (row_remove change.row rows)) =
              rw (positive, there) refl in
            let right : decide change.rel change pending (weight_of (contains rows change.row))
                ≡ Outcome.ok
                    (some (insert (change.rel, change.row) (key_weight +ℤ change.w) pending)) =
              rw (positive, there, negative) refl in
            ap ordered left ∙ removed minus there ∙ sym (ap guarded right)
        | inr absent ↦
            let positive : is_positive change.w ≡ false = ap is_positive minus in
            let negative : is_negative change.w ≡ true = ap is_negative minus in
            let left : changed change rows ≡ Outcome.ok none = rw (positive, absent) refl in
            let right : decide change.rel change pending (weight_of (contains rows change.row))
                ≡ Outcome.ok none =
              rw (positive, absent, negative) refl in
            ap ordered left ∙ same pending now tracks ∙ sym (ap guarded right)
      ]

    step :
        (before reached : Option (List Row))
        → lookup change.rel sources ≡ before
        → lookup change.rel now ≡ reached
        → (change.w ≡ pos 1) ⊎ (change.w ≡ negsuc 0)
        → Agree key_weight before reached change.row
        → ordered (changed_in change reached) ≡ guarded (decide_in change.rel change pending before)
    step none none found reach unit agree = refl
    step none (some rows) found reach unit agree = absurd agree
    step (some a) none found reach unit agree = absurd agree
    step (some a) (some rows) found reach unit agree =
        decided a rows found reach agree unit
        ∙ ap (λ w. guarded (decide change.rel change pending w)) (sym agree)

    guard_step :
        (o : Outcome Relation)
        → checked p change ≡ o
        → and_then o (λ r. ordered (changed_in change (lookup change.rel now)))
          ≡ guarded (and_then o (λ r. decide_in r.id change pending (lookup r.id sources)))
    unfolding Tracks
    guard_step (Outcome.err e) h = refl
    guard_step Outcome.panic h = refl
    guard_step (Outcome.ok r) h =
        let (id, unit) = checked-ok p change h in
        subst
          (λ id.
            ordered (changed_in change (lookup change.rel now))
            ≡ guarded (decide_in id change pending (lookup id sources)))
          (sym id)
          (step (lookup change.rel sources) (lookup change.rel now) refl refl unit
            (tracks change.rel change.row))

guard_loop-in_order :
    (p : Program) (sources : Sources) (changes : List SourceChange) → Same p sources changes
unfolding guard_loop in_order guard_change apply_changes
guard_loop-in_order p sources [] pending now tracks = refl
guard_loop-in_order p sources (change ∷ changes) pending now tracks =
    guard_step p sources changes (guard_loop-in_order p sources changes) change pending now tracks
      (checked p change) refl

zero_weight : (b : Bool) → pos 0 +ℤ weight_of b ≡ weight_of b
unfolding ◌+ℤ◌
zero_weight b = ground arith

-- `guard` returns and leaves what its changes taken one after another would: the accepted changes and
-- the sets after them, or the first error or panic with the sets as they were before the call.
pub guard-in_order :
    (p : Program) (sources : Sources) (frontier : Frontier)
    → guard p sources frontier ≡ committed sources (in_order p frontier.changes sources)
unfolding guard Tracks lookup
guard-in_order p sources frontier =
    sym (ap (committed sources) (guard_loop-in_order p sources frontier.changes [] sources start))
  where
    agree : (o : Option (List Row)) (row : Row) → Agree (pos 0) o o row
    agree none row = tt
    agree (some rows) row = zero_weight (contains rows row)

    start : Tracks sources [] sources
    start id row = agree (lookup id sources) row
