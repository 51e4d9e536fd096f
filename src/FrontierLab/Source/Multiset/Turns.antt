-- ===== src/FrontierLab/Source/Multiset/Turns.antt =====
-- Actions by what they leave of the multiplicities of a relation.
use sqlite_ivm.Base.{
  ℕ, ◌≡◌, refl, ap, ◌∙◌, inl, inr, Bool-cases, some, List, length, get_elem?, ◌==◌, int_eq, list_eq,
  list_eqb_iff, beq_refl, if◌then◌else◌,
}
use sqlite_ivm.Ir.Syntax.{Row}
use sqlite_ivm.FrontierLab.Types.{RelId, Outcome}
use sqlite_ivm.FrontierLab.Storage.{Relation, Engine}
use sqlite_ivm.FrontierLab.Journal.View.{update}
use sqlite_ivm.FrontierLab.Step.{Action, continue_, ◌then◌}
use sqlite_ivm.FrontierLab.Source.Multiset.{multiplicity}

-- An action that returns and leaves a relation whose multiplicities are those of a function.
pub record Turns (id : RelId) (m : Action Unit) (e : Engine) (g : Row → ℕ) : Type 0 where
  pub returns : (m e).1 ≡ Outcome.ok tt
  pub relation : Relation
  pub found : get_elem? (m e).0.relations id ≡ some relation
  pub counts : (q : Row) → multiplicity relation q ≡ g q

pub Turns-then :
    (id : RelId) (m : Action Unit) (f : Unit → Action Unit) (e : Engine) (g h : Row → ℕ)
    → Turns id m e g
    → ((s : Relation)
        → get_elem? (m e).0.relations id ≡ some s
        → ((q : Row) → multiplicity s q ≡ g q)
        → Turns id (f tt) (m e).0 h)
    → Turns id (m then f) e h
unfolding ◌then◌
Turns-then id m f e g h first rest =
    let r = rest first.relation first.found first.counts in
    let same : continue_ (m e).1 f (m e).0 ≡ f tt (m e).0 =
      ap (λ o. continue_ o f (m e).0) first.returns in
    record {
      returns = ap (λ x. x.1) same ∙ r.returns;
      relation = r.relation;
      found = ap (λ x. get_elem? x.0.relations id) same ∙ r.found;
      counts = r.counts;
    }

pub Turns-eq :
    (id : RelId) (m : Action Unit) (e : Engine) (g h : Row → ℕ)
    → ((q : Row) → g q ≡ h q)
    → Turns id m e g
    → Turns id m e h
Turns-eq id m e g h same t = record {
  returns = t.returns;
  relation = t.relation;
  found = t.found;
  counts = λ q. t.counts q ∙ same q;
}

-- The multiplicity of a row with others as they were.
abbrev pub at_row : Row → ℕ → (Row → ℕ) → Row → ℕ
at_row row n f q = if row == q then n else f q

pub length-update :
    (row : Row) (ids : List ℕ) (f : Row → List ℕ) (q : Row)
    → length (update row ids f q) ≡ at_row row (length ids) (λ x. length (f x)) q
length-update row ids f q = elim (Bool-cases (row == q)) [
  | inl same ↦ rw same refl
  | inr other ↦ rw other refl
]

pub at_row_same : (row : Row) (f : Row → ℕ) (q : Row) → at_row row (f row) f q ≡ f q
at_row_same row f q = elim (Bool-cases (row == q)) [
  | inl same ↦ rw same (ap f ((list_eqb_iff row q).0 same))
  | inr other ↦ rw other refl
]

pub at_row_self : (row : Row) (n : ℕ) (f : Row → ℕ) → at_row row n f row ≡ n
at_row_self row n f = rw (beq_refl row) refl

-- A change at a row of what was changed there.
pub at_row-at_row :
    (row : Row) (a b : ℕ) (f g : Row → ℕ) (q : Row)
    → ((x : Row) → g x ≡ at_row row a f x)
    → at_row row b g q ≡ at_row row b f q
at_row-at_row row a b f g q h = elim (Bool-cases (row == q)) [
  | inl same ↦ rw same refl
  | inr other ↦ rw other (h q ∙ rw other refl)
]
