-- ===== src/Sources/InOrder.antt =====
-- `guard` against the sequential reading of a frontier.
use sqlite_ivm.Base.{
  pos, negsuc, ◌≡◌, refl, sym, ap, subst, ◌∙◌, ◌⊎◌, inl, inr, ◌&&◌, ◌||◌, not, Option, none, some,
  List, [], ◌∷◌, ◌==◌, nat_eq, nat_eqb_iff, int_eq, int_eqb_iff, list_eq, list_eqb_iff, pair_eq,
  beq_refl, Bool-cases, contains, lookup, insert, arith, if◌then◌else◌,
}
use sqlite_ivm.Ir.Syntax.{RelId, Row, Relation, Program, rel, find_rel, kind_eq}
use sqlite_ivm.Engine.{Stage, ErrorKind, Outcome, and_then}
use sqlite_ivm.Sources.{
  SourceChange, Sources, row_insert, row_remove, is_positive, checked_rel, checked,
}

abbrev pub present : SourceChange → Outcome (Option (List Row))
present change = Outcome.err (record {
  stage = Stage.settle;
  rel = some change.rel;
  kind = ErrorKind.present_insert change.row;
})

-- One change to a set of rows: an insert of a present row is an error, a delete of an absent row
-- is ignored.
abbrev pub changed : SourceChange → List Row → Outcome (Option (List Row))
changed change rows =
    if is_positive change.w
    then (if contains rows change.row
        then present change
        else Outcome.ok (some (row_insert change.row rows)))
    else (if contains rows change.row
        then Outcome.ok (some (row_remove change.row rows))
        else Outcome.ok none)

abbrev pub changed_in : SourceChange → Option (List Row) → Outcome (Option (List Row))
changed_in change none = Outcome.panic
changed_in change (some rows) = changed change rows

abbrev pub accept_first :
    SourceChange → List SourceChange × Sources → Outcome (List SourceChange × Sources)
accept_first change (accepted, after) = Outcome.ok (change ∷ accepted, after)

abbrev pub next_in_order :
    (Sources → Outcome (List SourceChange × Sources))
    → Sources
    → SourceChange
    → Option (List Row)
    → Outcome (List SourceChange × Sources)
next_in_order rest sources change none = rest sources
next_in_order rest sources change (some rows) =
    and_then (rest (insert change.rel rows sources)) (accept_first change)

-- The changes taken one after another, each on the sets that those before it left.
unfoldable pub in_order :
    Program → List SourceChange → Sources → Outcome (List SourceChange × Sources)
in_order p [] sources = Outcome.ok ([], sources)
in_order p (change ∷ changes) sources = and_then (checked p change) (λ r.
    and_then (changed_in change (lookup change.rel sources))
      (next_in_order (in_order p changes) sources change))

find_rel-id :
    (i : RelId) (rels : List Relation) {r : Relation} → find_rel i rels ≡ some r → r.id ≡ i
find_rel-id i [] h = cc
find_rel-id i (s ∷ rels) {r} h = ground (arith, find_rel-id i rels {r = r}, nat_eqb_iff s.id i)

pub checked-ok :
    (p : Program) (change : SourceChange) {r : Relation}
    → checked p change ≡ Outcome.ok r
    → (r.id ≡ change.rel) × ((change.w ≡ pos 1) ⊎ (change.w ≡ negsuc 0))
unfolding checked rel
checked-ok p change {r} h = go (rel p change.rel) refl h
  where
    go :
        (o : Option Relation)
        → rel p change.rel ≡ o
        → checked_rel change o ≡ Outcome.ok r
        → (r.id ≡ change.rel) × ((change.w ≡ pos 1) ⊎ (change.w ≡ negsuc 0))
    go none e h = cc
    go (some q) e h =
        let same : q ≡ r = ground arith in
        let id = find_rel-id change.rel p.rels e in
        (
          ap (λ (q : Relation). q.id) (sym same) ∙ id,
          ground (arith, int_eqb_iff change.w (pos 1), int_eqb_iff change.w (negsuc 0)),
        )

pub contains-row_insert :
    (row other : Row) (rows : List Row)
    → contains (row_insert row rows) other ≡ (other == row) || contains rows other
contains-row_insert row other rows = elim (Bool-cases (contains rows row)) [
  | inl here ↦ rw here (elim (Bool-cases (other == row)) [
    | inl same ↦
        subst (λ r. contains rows r ≡ (r == row) || contains rows r)
          (sym ((list_eqb_iff other row).0 same)) (rw (beq_refl row) here)
    | inr differ ↦ rw differ refl
  ])
  | inr new ↦ rw new refl
]

pub contains-row_remove :
    (row other : Row) (rows : List Row)
    → contains (row_remove row rows) other ≡ not (other == row) && contains rows other
unfolding row_remove
contains-row_remove row other [] = ground arith
contains-row_remove row other (r ∷ rows) = ground (
  arith,
  contains-row_remove row other rows,
  list_eqb_iff row r,
  list_eqb_iff other r,
  list_eqb_iff other row,
)
