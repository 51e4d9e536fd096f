-- ===== src/Sources.antt =====
-- crates/ivm-dbsp/src/1_cells.rs: `guard`, which lets a frontier's changes into the source sets.
pub mod InOrder
pub mod Tracks
pub mod Sequential
use sqlite_ivm.Base.{
  ℕ, zero, suc, ℤ, pos, negsuc, ◌+ℤ◌, Bool, true, false, ◌&&◌, ◌||◌, not, Option, none, some, List,
  [], ◌∷◌, length, ◌==◌, nat_eq, int_eq, list_eq, pair_eq, contains, lookup, insert, if◌then◌else◌,
}
use sqlite_ivm.Ir.Syntax.{RelId, Row, W, RelKind, Relation, Program, kind_eq, rel}
use sqlite_ivm.Engine.{Stage, ErrorKind, EngineError, Outcome, and_then}

pub record SourceChange : Type 0 where
  pub rel : RelId
  pub row : Row
  pub w : W

pub record Frontier : Type 0 where
  pub changes : List SourceChange

-- `BTreeMap<RelId, HashSet<Row>>`
abbrev pub Sources : Type 0
Sources = List (RelId × List Row)

abbrev pub Pending : Type 0
Pending = List ((RelId × Row) × W)

abbrev pub row_insert : Row → List Row → List Row
row_insert row rows = if contains rows row then rows else row ∷ rows

pub row_remove : Row → List Row → List Row
row_remove row [] = []
row_remove row (r ∷ rows) = let rest = row_remove row rows in if row == r then rest else r ∷ rest

abbrev pub is_positive : ℤ → Bool
is_positive (pos zero) = false
is_positive (pos (suc n)) = true
is_positive (negsuc n) = false

abbrev pub is_negative : ℤ → Bool
is_negative (pos n) = false
is_negative (negsuc n) = true

abbrev pub weight_of : Bool → W
weight_of true = pos 1
weight_of false = pos 0

abbrev pub or_zero : Option W → W
or_zero none = pos 0
or_zero (some w) = w

abbrev settle_error : {A : Type 0} → RelId → ErrorKind → Outcome A
settle_error id kind = Outcome.err (record { stage = Stage.settle; rel = some id; kind = kind })

-- "weight other than +1/-1"
abbrev pub bad_weight : List ℕ
bad_weight =
    119 ∷ 101 ∷ 105 ∷ 103 ∷ 104 ∷ 116 ∷ 32 ∷ 111 ∷ 116 ∷ 104 ∷ 101 ∷ 114 ∷ 32 ∷ 116 ∷ 104 ∷ 97 ∷ 110
    ∷ 32 ∷ 43 ∷ 49 ∷ 47 ∷ 45 ∷ 49 ∷ []

-- The tests of one change before the sets are read.
abbrev pub checked_rel : SourceChange → Option Relation → Outcome Relation
checked_rel change none = settle_error change.rel (ErrorKind.unknown_rel change.rel)
checked_rel change (some r) =
    if not (r.kind == RelKind.source)
    then settle_error change.rel (ErrorKind.unknown_rel change.rel)
    else if not (length change.row == length r.cols)
    then settle_error r.id (ErrorKind.arity (length r.cols) (length change.row))
    else if not ((change.w == pos 1) || (change.w == negsuc 0))
    then settle_error r.id (ErrorKind.unsupported bad_weight)
    else Outcome.ok r

unfoldable pub checked : Program → SourceChange → Outcome Relation
checked p change = checked_rel change (rel p change.rel)

-- What a change does, from the weight its row has: `none` when it is ignored.
abbrev pub decide : RelId → SourceChange → Pending → W → Outcome (Option Pending)
decide id change pending before =
    if is_positive change.w && is_positive before
    then settle_error id (ErrorKind.present_insert change.row)
    else if is_negative change.w && not (is_positive before)
    then Outcome.ok none
    else Outcome.ok (
        some
          (insert (id, change.row) (or_zero (lookup (id, change.row) pending) +ℤ change.w) pending))

abbrev pub decide_in : RelId → SourceChange → Pending → Option (List Row) → Outcome (Option Pending)
decide_in id change pending none = Outcome.panic
decide_in id change pending (some rows) =
    decide id change pending
      (or_zero (lookup (id, change.row) pending) +ℤ weight_of (contains rows change.row))

unfoldable pub guard_change : Program → Sources → Pending → SourceChange → Outcome (Option Pending)
guard_change p sources pending change =
    and_then (checked p change) (λ r. decide_in r.id change pending (lookup r.id sources))

-- `continue` on an ignored change.
abbrev pub guard_next :
    (Pending → Outcome (List SourceChange))
    → Pending
    → SourceChange
    → Option Pending
    → Outcome (List SourceChange)
guard_next rest pending change none = rest pending
guard_next rest pending change (some next) =
    and_then (rest next) (λ accepted. Outcome.ok (change ∷ accepted))

unfoldable pub guard_loop :
    Program → Sources → List SourceChange → Pending → Outcome (List SourceChange)
guard_loop p sources [] pending = Outcome.ok []
guard_loop p sources (change ∷ changes) pending =
    and_then (guard_change p sources pending change)
      (guard_next (guard_loop p sources changes) pending change)

abbrev pub changed_rows : SourceChange → List Row → List Row
changed_rows change rows =
    if is_positive change.w then row_insert change.row rows else row_remove change.row rows

abbrev pub change_in : SourceChange → Sources → Option (List Row) → Outcome Sources
change_in change sources none = Outcome.panic
change_in change sources (some rows) =
    Outcome.ok (insert change.rel (changed_rows change rows) sources)

unfoldable pub apply_changes : List SourceChange → Sources → Outcome Sources
apply_changes [] sources = Outcome.ok sources
apply_changes (change ∷ changes) sources =
    and_then (change_in change sources (lookup change.rel sources)) (apply_changes changes)

-- The sources after the call, and what it returns.
abbrev pub committed :
    Sources → Outcome (List SourceChange × Sources) → Sources × Outcome (List SourceChange)
committed sources (Outcome.ok (accepted, after)) = (after, Outcome.ok accepted)
committed sources (Outcome.err e) = (sources, Outcome.err e)
committed sources Outcome.panic = (sources, Outcome.panic)

abbrev pub with_sources : Sources → List SourceChange → Outcome (List SourceChange × Sources)
with_sources sources accepted =
    and_then (apply_changes accepted sources) (λ after. Outcome.ok (accepted, after))

unfoldable pub guard : Program → Sources → Frontier → Sources × Outcome (List SourceChange)
guard p sources frontier =
    committed sources (and_then (guard_loop p sources frontier.changes []) (with_sources sources))
