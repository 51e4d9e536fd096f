-- ===== src/Terms/MintVec.antt =====
-- Vecs minted whole: each is a range of `vec_cells`.
use sqlite_ivm.Base.{
  ℕ, zero, suc, ◌+◌, ◌-◌, ◌≤◌, ◌≡◌, ◌≢◌, refl, sym, ap, subst, ◌∙◌, inl, inr, pos, pos_part, true,
  Option, none, some, some_injective, List, [], ◌∷◌, ◌++◌, append-nil, length, take, drop,
  take-length-append, drop-length-append, length-append, nat_eq, int_eq, list_eq, list_eqb_iff,
  lookup, lookup-insert_self, lookup-insert_ne, lookup-insert_cases, >>=-eq-some, Bool-cases, arith,
}
use sqlite_ivm.Ir.Syntax.{Cell, Row}
use sqlite_ivm.Terms.{Interner, empty, vec_items, is_items, find_vec, same_hash, vec_new, mint_vec}
use sqlite_ivm.Terms.Valid.{known_or_new-cases}

-- The ranges lie within `vec_cells`, and under ids that were handed out.
pub record VecsValid (s : Interner) : Type 0 where
  pub within :
      (id : Cell) (range : ℕ × ℕ)
      → lookup id s.vec_at ≡ some range
      → (range.0 ≤ range.1) × (range.1 ≤ length s.vec_cells) × (pos_part id ≤ s.next)

pub empty-VecsValid : VecsValid empty
unfolding lookup
empty-VecsValid = record { within = λ id range h. cc }

take-append : {A : Type 0} (n : ℕ) (xs ys : List A) → n ≤ length xs → take n (xs ++ ys) ≡ take n xs
take-append zero xs ys h = refl
take-append (suc n) [] ys h = absurd (omega arith)
take-append (suc n) (x ∷ xs) ys h = ap (λ r. x ∷ r) (take-append n xs ys (omega arith))

take-drop-append :
    {A : Type 0} (low n : ℕ) (xs ys : List A)
    → low + n ≤ length xs
    → take n (drop low (xs ++ ys)) ≡ take n (drop low xs)
take-drop-append zero n xs ys h = take-append n xs ys (omega arith)
take-drop-append (suc low) n [] ys h = absurd (omega arith)
take-drop-append (suc low) n (x ∷ xs) ys h = take-drop-append low n xs ys (omega arith)

is_items-some : (items : Row) (o : Option Row) → is_items items o ≡ true → o ≡ some items
is_items-some items none h = cc
is_items-some items (some row) h = ap some ((list_eqb_iff row items).0 h)

find_vec-items :
    (s : Interner) (items : Row) (same : List Cell) {id : Cell}
    → find_vec s items same ≡ some id
    → vec_items s id ≡ some items
unfolding find_vec
find_vec-items s items [] h = cc
find_vec-items s items (i ∷ same) {id} h = elim (Bool-cases (is_items items (vec_items s i))) [
  | inl here ↦
      let first : i ≡ id = some_injective (sym (rw here refl) ∙ h) in
      subst (λ c. vec_items s c ≡ some items) first (is_items-some items (vec_items s i) here)
  | inr other ↦ find_vec-items s items same (sym (rw other refl) ∙ h)
]

module _ (hash : Row → ℕ) (items : Row) (s : Interner) where
  abbrev grown : Interner
  grown = vec_new hash items s (s.next + 1)

  grown-new : vec_items grown (pos (s.next + 1)) ≡ some items
  unfolding vec_items
  grown-new =
      rw
        (lookup-insert_self (pos (s.next + 1))
          (length s.vec_cells, length s.vec_cells + length items) s.vec_at)
        (ap some (
          ap (take (length s.vec_cells + length items - length s.vec_cells))
            (drop-length-append s.vec_cells items)
          ∙ ap (λ n. take n items) size
          ∙ sym (ap (take (length items)) (append-nil items))
          ∙ take-length-append items []))
    where
      size : length s.vec_cells + length items - length s.vec_cells ≡ length items
      size = omega arith

  above : (id : Cell) → pos_part id ≤ s.next → s.next + 1 ≡ pos_part id → ⊥
  above id small same = omega arith

  module _ (v : VecsValid s) where
    grown-old : (id : Cell) (row : Row) → vec_items s id ≡ some row → vec_items grown id ≡ some row
    unfolding vec_items
    grown-old id row h =
        let (range, at, cut) = >>=-eq-some (lookup id s.vec_at) _ h in
        let (order, bound, old) = v.within id range at in
        let differ : pos (s.next + 1) ≢ id = λ same. above id old (ap pos_part same) in
        rw
          (
            lookup-insert_ne (pos (s.next + 1)) id
                (length s.vec_cells, length s.vec_cells + length items) s.vec_at differ,
            at,
          )
          (ap some (take-drop-append range.0 (range.1 - range.0) s.vec_cells items (omega arith))
            ∙ cut)

    grown-within :
        (id : Cell) (range : ℕ × ℕ)
        → lookup id grown.vec_at ≡ some range
        → (range.0 ≤ range.1)
          × (range.1 ≤ length (s.vec_cells ++ items))
          × (pos_part id ≤ s.next + 1)
    grown-within id range h =
        elim (lookup-insert_cases (pos (s.next + 1)) id
          (length s.vec_cells, length s.vec_cells + length items) s.vec_at h) [
            | inl (here, same) ↦
                let number = ap pos_part here in
                subst
                  (λ (r : ℕ × ℕ).
                    (r.0 ≤ r.1)
                    × (r.1 ≤ length (s.vec_cells ++ items))
                    × (pos_part id ≤ s.next + 1))
                  same (omega arith, rw length-append (omega arith), omega arith)
            | inr old ↦
                let (order, bound, small) = v.within id range old in
                (order, rw length-append (omega arith), omega arith)
          ]

    grown-VecsValid : VecsValid grown
    grown-VecsValid = record { within = λ id range h. grown-within id range h }

  -- Where every vec's range lies within the cells and under ids handed out: the id that a vec is minted
  -- under reads back as its items, every vec minted before reads as it did, and the ranges of the
  -- next state lie so too.
  pub vec_items-mint_vec :
      {id : Cell} {s' : Interner}
      → VecsValid s
      → mint_vec hash items s ≡ some (id, s')
      → (vec_items s' id ≡ some items)
        × VecsValid s'
        × ((other : Cell) (row : Row)
            → vec_items s other ≡ some row
            → vec_items s' other ≡ some row)
  unfolding mint_vec
  vec_items-mint_vec {id} {s'} v h =
      elim (known_or_new-cases (find_vec s items (same_hash s (hash items))) (vec_new hash items s)
        s h) [
          | inl (found, same) ↦
              rw same
                (find_vec-items s items (same_hash s (hash items)) found, v, λ other row at. at)
          | inr (_, here, made) ↦ rw (here, made) (grown-new, grown-VecsValid v, grown-old v)
        ]
