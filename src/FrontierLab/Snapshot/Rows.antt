-- ===== src/FrontierLab/Snapshot/Rows.antt =====
-- A snapshot is the rows of the snapshot with supports.
use Prim.Native.Nat.{Ordering}
use sqlite_ivm.Base.{
  ℤ, pos, length, ◌≡◌, refl, sym, ap, subst, ◌∙◌, Bool, true, false, List, [], ◌∷◌, map, cmp_ℤ,
  then_with, if◌then◌else◌,
}
use sqlite_ivm.Ir.Syntax.{Row, Text}
use sqlite_ivm.FrontierLab.Types.{ProgramId, Outcome, Stage, and_then}
use sqlite_ivm.FrontierLab.Storage.{Counts, Relation, Node, Engine, relation}
use sqlite_ivm.FrontierLab.Maps.{cmp_row, at, sort, sorted_insert}
use sqlite_ivm.FrontierLab.Maps.Sorted.{row_IsOrder}
use sqlite_ivm.FrontierLab.Maps.Up.{IsUp, IsUp-tail, IsUp-sort, sorted_insert_first}
use sqlite_ivm.FrontierLab.Snapshot.{
  not_empty, pick, cmp_support, output_node, support_rows, snapshot_support, visible_rows, snapshot,
}

abbrev pub rows_in : Counts → List Row
rows_in supports = map (λ s. s.0) supports

map-pick :
    {A : Type 0} (test : A → Bool) (f : A → Row × ℤ) (xs : List A)
    → rows_in (pick test f xs) ≡ pick test (λ x. (f x).0) xs
map-pick test f [] = refl
map-pick test f (x ∷ xs) = go (test x) (map-pick test f xs)
  where
    go :
        (b : Bool)
        → rows_in (pick test f xs) ≡ pick test (λ x. (f x).0) xs
        → rows_in (if b then f x ∷ pick test f xs else pick test f xs)
          ≡ (if b then (f x).0 ∷ pick test (λ x. (f x).0) xs else pick test (λ x. (f x).0) xs)
    go true h = ap (λ rows. (f x).0 ∷ rows) h
    go false h = h

map-map : {A : Type 0} (f : A → Row × ℤ) (xs : List A) → rows_in (map f xs) ≡ map (λ x. (f x).0) xs
map-map f [] = refl
map-map f (x ∷ xs) = ap (λ rows. (f x).0 ∷ rows) (map-map f xs)

abbrev rows_of : Outcome Counts → Outcome (List Row)
rows_of o = and_then o (λ supports. Outcome.ok (rows_in supports))

visible_rows-support_rows :
    (e : Engine) (node : Node) → visible_rows e node ≡ rows_of (support_rows e node)
unfolding visible_rows support_rows
visible_rows-support_rows e (Node.aggregate i g count sum groups) =
    ap Outcome.ok (sym (map-map _ groups))
visible_rows-support_rows e (Node.scan id) = go (relation e id Stage.snapshot)
  where
    go :
        (o : Outcome Relation)
        → and_then o
            (λ r. Outcome.ok (pick (λ entry. not_empty entry.1) (λ entry. entry.0) r.by_value))
          ≡ rows_of (
              and_then o (λ r. Outcome.ok (
                pick
                  (λ entry. not_empty entry.1)
                  (λ entry. (entry.0, pos (length entry.1)))
                  r.by_value)))
    go (Outcome.ok r) = ap Outcome.ok (sym (map-pick _ _ r.by_value))
    go (Outcome.err x) = refl
    go Outcome.panic = refl
visible_rows-support_rows e (Node.union _ counts) = ap Outcome.ok (sym (map-pick _ _ counts))
visible_rows-support_rows e (Node.join _ _ _ _ counts _ _) =
    ap Outcome.ok (sym (map-pick _ _ counts))
visible_rows-support_rows e (Node.project _ _ counts) = ap Outcome.ok (sym (map-pick _ _ counts))

sorted_insert-rows_in :
    (x : Row × ℤ) (ys : Counts)
    → IsUp (rows_in ys)
    → rows_in (sorted_insert cmp_support x ys) ≡ sorted_insert cmp_row x.0 (rows_in ys)
unfolding sorted_insert
sorted_insert-rows_in x [] up = refl
sorted_insert-rows_in x (y ∷ ys) up =
    go (sorted_insert-rows_in x ys (IsUp-tail y.0 (rows_in ys) up)) (cmp_row x.0 y.0) refl
      (cmp_ℤ x.1 y.1)
  where
    go :
        rows_in (sorted_insert cmp_support x ys) ≡ sorted_insert cmp_row x.0 (rows_in ys)
        → (o : Ordering) → cmp_row x.0 y.0 ≡ o
        → (w : Ordering)
        → rows_in (at cmp_support (then_with o w) x y ys (sorted_insert cmp_support x ys))
          ≡ at cmp_row o x.0 y.0 (rows_in ys) (sorted_insert cmp_row x.0 (rows_in ys))
    go below Ordering.lt h w = refl
    go below Ordering.gt h w = ap (λ rows. y.0 ∷ rows) below
    go below Ordering.eq h Ordering.lt = refl
    go below Ordering.eq h Ordering.eq = refl
    go below Ordering.eq h Ordering.gt =
        let same : x.0 ≡ y.0 = row_IsOrder.same x.0 y.0 h in
        ap (λ rows. y.0 ∷ rows)
          (below
            ∙ sorted_insert_first x.0 (rows_in ys)
                (subst (λ r. IsUp (r ∷ rows_in ys)) (sym same) up))
        ∙ ap (λ r. r ∷ x.0 ∷ rows_in ys) (sym same)
        ∙ ap (λ r. x.0 ∷ r ∷ rows_in ys) same

sort-rows_in :
    (supports : Counts) → rows_in (sort cmp_support supports) ≡ sort cmp_row (rows_in supports)
unfolding sort
sort-rows_in [] = refl
sort-rows_in (x ∷ xs) =
    sorted_insert-rows_in x (sort cmp_support xs)
      (subst IsUp (sym (sort-rows_in xs)) (IsUp-sort (rows_in xs)))
    ∙ ap (sorted_insert cmp_row x.0) (sort-rows_in xs)

sorted_rows :
    (o : Outcome Counts)
    → and_then (rows_of o) (λ rows. Outcome.ok (sort cmp_row rows))
      ≡ rows_of (and_then o (λ supports. Outcome.ok (sort cmp_support supports)))
sorted_rows (Outcome.ok supports) = ap Outcome.ok (sym (sort-rows_in supports))
sorted_rows (Outcome.err x) = refl
sorted_rows Outcome.panic = refl

-- `snapshot` gives the rows of `snapshot_support` in the same order, or the same error, for every output
-- of every program, installed or not, and panics where it does.
pub snapshot-snapshot_support :
    (p : ProgramId) (output : Text) (e : Engine)
    → snapshot p output e
      ≡ and_then (snapshot_support p output e) (λ supports. Outcome.ok (rows_in supports))
unfolding snapshot snapshot_support
snapshot-snapshot_support p output e = go (output_node p output e)
  where
    go :
        (o : Outcome Node)
        → and_then o
            (λ node. and_then (visible_rows e node) (λ rows. Outcome.ok (sort cmp_row rows)))
          ≡ rows_of (
              and_then o (λ node.
                and_then (support_rows e node) (λ rows. Outcome.ok (sort cmp_support rows))))
    go (Outcome.ok node) =
        ap (λ o. and_then o (λ rows. Outcome.ok (sort cmp_row rows)))
          (visible_rows-support_rows e node)
        ∙ sorted_rows (support_rows e node)
    go (Outcome.err x) = refl
    go Outcome.panic = refl
