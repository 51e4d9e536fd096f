-- ===== src/FrontierLab/Apply/Visible.antt =====
-- `distinct_transitions` gives the rows whose visibility a frontier changes.
use Prim.Native.Nat.{Ordering}
use sqlite_ivm.Base.{
  ℤ, ◌≡◌, refl, sym, ap, subst, ◌∙◌, inl, inr, Bool, true, false, Bool-cases, Option, none, some,
  List, [], ◌∷◌, ◌==◌, nat_eq, int_eq, list_eq, list_eqb_iff, lookup, map, wrapping_sub,
  if◌then◌else◌,
}
use sqlite_ivm.Ir.Syntax.{Row}
use sqlite_ivm.FrontierLab.Types.{Sign, OutputChange}
use sqlite_ivm.FrontierLab.Storage.{Counts}
use sqlite_ivm.FrontierLab.Maps.{at, sort, sorted_insert, or_zero, is_positive, cmp_row}
use sqlite_ivm.FrontierLab.Maps.Up.{IsUp, IsUp-sort, map-sort}
use sqlite_ivm.FrontierLab.Source.Multiset.Net.{IsMap, lookup-none}
use sqlite_ivm.FrontierLab.Apply.{transition, transitions, distinct_transitions}

-- The signs of the changes of a row, in order.
abbrev pub signs_of : Row → List OutputChange → List Sign
signs_of row [] = []
signs_of row (change ∷ changes) =
    if change.row == row then change.sign ∷ signs_of row changes else signs_of row changes

-- The changes of a row that becomes visible or stops being so.
abbrev pub flip : (pre post : Bool) → List Sign
flip false true = Sign.plus ∷ []
flip true false = Sign.minus ∷ []
flip true true = []
flip false false = []

-- What a frontier's net change of a row, if there is one, makes of its visibility.
abbrev pub flip_of : Counts → Row → Option ℤ → List Sign
flip_of counts row none = []
flip_of counts row (some w) =
    let post = or_zero (lookup row counts) in
    flip (is_positive (wrapping_sub post w)) (is_positive post)

-- No row changes twice.
abbrev IsOnce : List OutputChange → Type 0
IsOnce [] = Unit
IsOnce (change ∷ changes) = (signs_of change.row changes ≡ []) × IsOnce changes

signs_of-transition :
    (row wanted : Row) (pre post : Bool) (rest : List OutputChange)
    → (signs_of row rest ≡ [])
    → signs_of wanted (transition row pre post rest)
      ≡ (if row == wanted then flip pre post else signs_of wanted rest)
signs_of-transition row wanted pre post rest h = elim (Bool-cases (row == wanted)) [
  | inl same ↦
      here pre post same (subst (λ r. signs_of r rest ≡ []) ((list_eqb_iff row wanted).0 same) h)
  | inr other ↦ away pre post other
]
  where
    here :
        (pre post : Bool)
        → (row == wanted) ≡ true
        → signs_of wanted rest ≡ []
        → signs_of wanted (transition row pre post rest)
          ≡ (if row == wanted then flip pre post else signs_of wanted rest)
    here false true same empty_ = rw (same, empty_) refl
    here true false same empty_ = rw (same, empty_) refl
    here true true same empty_ = rw (same, empty_) refl
    here false false same empty_ = rw (same, empty_) refl

    away :
        (pre post : Bool)
        → (row == wanted) ≡ false
        → signs_of wanted (transition row pre post rest)
          ≡ (if row == wanted then flip pre post else signs_of wanted rest)
    away false true other = rw other refl
    away true false other = rw other refl
    away true true other = rw other refl
    away false false other = rw other refl

signs_of-transitions :
    (counts delta : Counts) (row : Row)
    → IsMap delta
    → signs_of row (transitions counts delta) ≡ flip_of counts row (lookup row delta)
unfolding transitions lookup
signs_of-transitions counts [] row h = refl
signs_of-transitions counts ((key, w) ∷ delta) row (fresh, once) =
    signs_of-transition key row _ _ (transitions counts delta) (
      signs_of-transitions counts delta key once
      ∙ ap (flip_of counts key) (lookup-none key delta fresh))
    ∙ elim (Bool-cases (key == row)) [
      | inl same ↦ rw same (
          ap
            (λ k.
              let post = or_zero (lookup k counts) in
              flip (is_positive (wrapping_sub post w)) (is_positive post))
            ((list_eqb_iff key row).0 same))
      | inr other ↦ rw other (signs_of-transitions counts delta row once)
    ]

IsOnce-transition :
    (row : Row) (pre post : Bool) (rest : List OutputChange)
    → signs_of row rest ≡ []
    → IsOnce rest
    → IsOnce (transition row pre post rest)
IsOnce-transition row false true rest h k = (h, k)
IsOnce-transition row true false rest h k = (h, k)
IsOnce-transition row true true rest h k = k
IsOnce-transition row false false rest h k = k

IsOnce-transitions : (counts delta : Counts) → IsMap delta → IsOnce (transitions counts delta)
unfolding transitions
IsOnce-transitions counts [] h = tt
IsOnce-transitions counts ((key, w) ∷ delta) (fresh, once) =
    IsOnce-transition key _ _ (transitions counts delta)
      (signs_of-transitions counts delta key once
        ∙ ap (flip_of counts key) (lookup-none key delta fresh))
      (IsOnce-transitions counts delta once)

-- A row without changes is not the row of the first one.
other_row :
    (y : OutputChange) (ys : List OutputChange) (row : Row)
    → signs_of row (y ∷ ys) ≡ []
    → ((y.row == row) ≡ false) × (signs_of row ys ≡ [])
other_row y ys row h = elim (Bool-cases (y.row == row)) [
  | inl same ↦
      absurd (
        no_sign
          (subst (λ b. (if b then y.sign ∷ signs_of row ys else signs_of row ys) ≡ []) same h))
  | inr other ↦
      (other, subst (λ b. (if b then y.sign ∷ signs_of row ys else signs_of row ys) ≡ []) other h)
]
  where
    no_sign : {s : Sign} {ss : List Sign} → s ∷ ss ≡ [] → ⊥
    no_sign e = cc

-- Sorting keeps the signs of every row.
module _ (cmp : OutputChange → OutputChange → Ordering) where
  signs_of-sorted_insert :
      (x : OutputChange) (ys : List OutputChange) (row : Row)
      → signs_of x.row ys ≡ []
      → signs_of row (sorted_insert cmp x ys) ≡ signs_of row (x ∷ ys)
  unfolding sorted_insert
  signs_of-sorted_insert x [] row h = refl
  signs_of-sorted_insert x (y ∷ ys) row h =
      let (apart, fresh) = other_row y ys x.row h in
      go apart (signs_of-sorted_insert x ys row fresh) (cmp x y)
    where
      go :
          (y.row == x.row) ≡ false
          → signs_of row (sorted_insert cmp x ys) ≡ signs_of row (x ∷ ys)
          → (o : Ordering)
          → signs_of row (at cmp o x y ys (sorted_insert cmp x ys)) ≡ signs_of row (x ∷ y ∷ ys)
      go apart below Ordering.lt = refl
      go apart below Ordering.eq = refl
      go apart below Ordering.gt = elim (Bool-cases (y.row == row)) [
        | inr other ↦ rw other below
        | inl same ↦ elim (Bool-cases (x.row == row)) [
          | inr differ ↦
              rw (same, differ)
                (ap (λ ss. y.sign ∷ ss)
                  (below
                    ∙ ap (λ b. if b then x.sign ∷ signs_of row ys else signs_of row ys) differ))
          | inl here ↦
              let equal : y.row ≡ x.row =
                (list_eqb_iff y.row row).0 same ∙ sym ((list_eqb_iff x.row row).0 here) in
              absurd (no (sym ((list_eqb_iff y.row x.row).1 equal) ∙ apart))
        ]
      ]
        where
          no : true ≡ false → ⊥
          no e = cc

  signs_of-sort :
      (xs : List OutputChange) (row : Row)
      → IsOnce xs
      → signs_of row (sort cmp xs) ≡ signs_of row xs
  unfolding sort
  signs_of-sort [] row h = refl
  signs_of-sort (x ∷ xs) row (fresh, once) =
      signs_of-sorted_insert x (sort cmp xs) row (signs_of-sort xs x.row once ∙ fresh)
      ∙ ap (λ ss. if x.row == row then x.sign ∷ ss else ss) (signs_of-sort xs row once)

-- For net changes that name no row twice, the transitions are in the order of their rows, and the changes
-- of a row among them are one plus where its support was not positive and is, one minus where its support
-- was positive and is not, and none otherwise.
pub signs_of-distinct_transitions :
    (counts delta : Counts)
    → IsMap delta
    → IsUp (map (λ change. change.row) (distinct_transitions counts delta))
      × ((row : Row)
          → signs_of row (distinct_transitions counts delta)
            ≡ flip_of counts row (lookup row delta))
unfolding distinct_transitions
signs_of-distinct_transitions counts delta h = (
  subst IsUp (sym (map-sort (λ change. change.row) cmp_row (transitions counts delta)))
      (IsUp-sort (map (λ change. change.row) (transitions counts delta))),
  λ row.
      signs_of-sort (λ a b. cmp_row a.row b.row) (transitions counts delta) row
        (IsOnce-transitions counts delta h)
      ∙ signs_of-transitions counts delta row h,
)
