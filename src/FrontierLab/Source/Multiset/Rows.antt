-- ===== src/FrontierLab/Source/Multiset/Rows.antt =====
-- Rows inserted and removed, one and several.
use sqlite_ivm.Base.{
  ℕ, zero, suc, ◌+◌, ◌-◌, ◌≤◌, ◌≡◌, refl, sym, ap, ◌∙◌, Option, none, some, List, [], ◌∷◌, length,
  get_elem?, int_eq, list_eq, lookup, insert, remove, if◌then◌else◌, arith,
}
use sqlite_ivm.Ir.Syntax.{Row}
use sqlite_ivm.FrontierLab.Types.{RelId, Outcome}
use sqlite_ivm.FrontierLab.Storage.{Relation, Undo, Engine}
use sqlite_ivm.FrontierLab.Journal.{or_empty, put, pop_ids}
use sqlite_ivm.FrontierLab.Journal.View.Replay.{ids-put}
use sqlite_ivm.FrontierLab.Step.{Action, pure, ◌then◌, times}
use sqlite_ivm.FrontierLab.Source.{
  allocate_from, allocate, place_row, insert_row, free_slot, remove_row,
}
use sqlite_ivm.FrontierLab.Source.Slots.{get_elem?-set}
use sqlite_ivm.FrontierLab.Source.Multiset.{
  multiplicity, written, insert_row-written, remove_row-written,
}
use sqlite_ivm.FrontierLab.Source.Multiset.Turns.{
  Turns, Turns-then, Turns-eq, at_row, length-update, at_row_same, at_row_self, at_row-at_row,
}

-- The multiplicities that a value index gives.
abbrev counted_in : List (Row × List ℕ) → Row → ℕ
counted_in by_value q = length (or_empty (lookup q by_value))

allocate_by_value : (r : Relation) → (allocate r).2.by_value ≡ r.by_value
allocate_by_value r = go r.free
  where
    go : (free : List ℕ) → (allocate_from free r).2.by_value ≡ r.by_value
    go [] = refl
    go (slot ∷ free) = refl

counted_in-put :
    (row : Row) (value : Option (List ℕ)) (m : List (Row × List ℕ)) (q : Row)
    → counted_in (put row value m) q ≡ at_row row (length (or_empty value)) (counted_in m) q
counted_in-put row value m q =
    ap length (ids-put row value m q)
    ∙ length-update row (or_empty value) (λ x. or_empty (lookup x m)) q

-- Popping an id of a value that has some.
pop_found :
    (row : Row) (slot : ℕ) (more : List ℕ) (m : List (Row × List ℕ))
    → (left : List (Row × List ℕ)) × (pop_ids row (slot ∷ more) m ≡ some (slot, left))
      × ((q : Row) → counted_in left q ≡ at_row row (length more) (counted_in m) q)
pop_found row slot [] m = (remove row m, refl, counted_in-put row none m)
pop_found row slot (next ∷ more) m =
    (insert row (next ∷ more) m, refl, counted_in-put row (some (next ∷ more)) m)

module _ (id : RelId) (row : Row) where
  abbrev pub insert_one : Action Unit
  insert_one = insert_row id row then λ _. pure tt

  abbrev pub remove_one : Action Unit
  remove_one = remove_row id row then λ _. pure tt

  Turns-insert :
      (e : Engine) (r : Relation)
      → get_elem? e.relations id ≡ some r
      → Turns id insert_one e (at_row row (suc (multiplicity r row)) (multiplicity r))
  unfolding ◌then◌ pure
  Turns-insert e r at =
      let s = place_row (allocate r).0 row (allocate r).2 in
      let undo = Undo.insert_ id (allocate r).0 (allocate r).1 in
      let runs : insert_one e ≡ (written id undo s e, Outcome.ok tt) =
        rw (insert_row-written id e r at row) refl in
      record {
        returns = ap (λ x. x.1) runs;
        relation = s;
        found = ap (λ x. get_elem? x.0.relations id) runs ∙ get_elem?-set e.relations id s at;
        counts = λ q.
            counted_in-put row
              (some ((allocate r).0 ∷ or_empty (lookup row (allocate r).2.by_value)))
              (allocate r).2.by_value q
            ∙ ap (λ m. at_row row (suc (counted_in m row)) (counted_in m) q) (allocate_by_value r);
      }

  Turns-remove :
      (e : Engine) (r : Relation) (n : ℕ)
      → get_elem? e.relations id ≡ some r
      → multiplicity r row ≡ suc n
      → Turns id remove_one e (at_row row n (multiplicity r))
  unfolding ◌then◌ pure
  Turns-remove e r n at size =
      let (slot, more, looked, rest) = ids_found (lookup row r.by_value) size in
      let (left, popped, counts) = pop_found row slot more r.by_value in
      let undo = Undo.remove_ id slot row in
      let runs : remove_one e ≡ (written id undo (free_slot (slot, left) r) e, Outcome.ok tt) =
        rw (remove_row-written id e r at row slot more left looked popped) refl in
      record {
        returns = ap (λ x. x.1) runs;
        relation = free_slot (slot, left) r;
        found =
            ap (λ x. get_elem? x.0.relations id) runs
            ∙ get_elem?-set e.relations id (free_slot (slot, left) r) at;
        counts = λ q. counts q ∙ ap (λ k. at_row row k (multiplicity r) q) rest;
      }
    where
      ids_found :
          (o : Option (List ℕ)) {n : ℕ}
          → length (or_empty o) ≡ suc n
          → (slot : ℕ) × (more : List ℕ) × (o ≡ some (slot ∷ more)) × (length more ≡ n)
      ids_found none h = absurd (omega (arith, h))
      ids_found (some []) h = absurd (omega (arith, h))
      ids_found (some (slot ∷ more)) h = (slot, more, refl, omega (arith, h))

  pub Turns-insert_times :
      (n : ℕ) (e : Engine) (r : Relation)
      → get_elem? e.relations id ≡ some r
      → Turns id (times n insert_one) e (at_row row (n + multiplicity r row) (multiplicity r))
  unfolding times pure
  Turns-insert_times zero e r at = record {
    returns = refl;
    relation = r;
    found = at;
    counts = λ q. sym (
        ap (λ k. at_row row k (multiplicity r) q) (zero_add (multiplicity r row))
        ∙ at_row_same row (multiplicity r) q);
  }
    where
      zero_add : (k : ℕ) → 0 + k ≡ k
      zero_add k = omega arith
  Turns-insert_times (suc n) e r at =
      Turns-then id insert_one (λ _. times n insert_one) e
        (at_row row (suc (multiplicity r row)) (multiplicity r)) _ (Turns-insert e r at)
        (λ s found counts.
          Turns-eq id (times n insert_one) (insert_one e).0 _ _
            (λ q.
              at_row-at_row row (suc (multiplicity r row)) (n + multiplicity s row) (multiplicity r)
                (multiplicity s) q counts
              ∙ ap (λ k. at_row row k (multiplicity r) q) (one_more s (counts row)))
            (Turns-insert_times n (insert_one e).0 s found))
    where
      one_more :
          (s : Relation)
          → multiplicity s row ≡ at_row row (suc (multiplicity r row)) (multiplicity r) row
          → n + multiplicity s row ≡ suc n + multiplicity r row
      one_more s h =
          let size : multiplicity s row ≡ suc (multiplicity r row) =
            h ∙ at_row_self row _ (multiplicity r) in
          omega (arith, size)

  pub Turns-remove_times :
      (n : ℕ) (e : Engine) (r : Relation)
      → get_elem? e.relations id ≡ some r
      → n ≤ multiplicity r row
      → Turns id (times n remove_one) e (at_row row (multiplicity r row - n) (multiplicity r))
  unfolding times pure
  Turns-remove_times zero e r at enough = record {
    returns = refl;
    relation = r;
    found = at;
    counts = λ q. sym (
        ap (λ k. at_row row k (multiplicity r) q) (sub_zero (multiplicity r row))
        ∙ at_row_same row (multiplicity r) q);
  }
    where
      sub_zero : (k : ℕ) → k - 0 ≡ k
      sub_zero k = omega arith
  Turns-remove_times (suc n) e r at enough =
      Turns-then id remove_one (λ _. times n remove_one) e
        (at_row row (multiplicity r row - 1) (multiplicity r)) _
        (Turns-remove e r (multiplicity r row - 1) at (omega (arith, enough)))
        (λ s found counts.
          let size : multiplicity s row ≡ multiplicity r row - 1 =
            counts row ∙ at_row_self row _ (multiplicity r) in
          Turns-eq id (times n remove_one) (remove_one e).0 _ _
            (λ q.
              at_row-at_row row (multiplicity r row - 1) (multiplicity s row - n) (multiplicity r)
                (multiplicity s) q counts
              ∙ ap (λ k. at_row row k (multiplicity r) q) (omega (arith, size)))
            (Turns-remove_times n (remove_one e).0 s found (omega (arith, size, enough))))
