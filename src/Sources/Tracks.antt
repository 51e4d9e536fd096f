-- ===== src/Sources/Tracks.antt =====
-- `guard` keeps the weight of each touched row in step with the sets that the changes make.
use sqlite_ivm.Base.{
  pos, negsuc, ◌+ℤ◌, ◌≡◌, ◌≢◌, sym, ap, subst, ◌∙◌, inl, inr, Bool, true, false, ◌&&◌, Option, none,
  some, List, ◌==◌, nat_eq, nat_eqb_iff, int_eq, list_eq, list_eqb_iff, pair_eq, beq_refl,
  Bool-cases, contains, lookup, insert, lookup-insert, arith, if◌then◌else◌,
}
use sqlite_ivm.Ir.Syntax.{RelId, Row, W, kind_eq}
use sqlite_ivm.Sources.{Sources, Pending, weight_of, or_zero}

-- The weight a row has for `guard`, and whether the sets reached so far hold it.
abbrev pub Agree : W → Option (List Row) → Option (List Row) → Row → Type 0
Agree w none none row = Unit
Agree w (some before) (some now) row =
    (w +ℤ weight_of (contains before row) ≡ weight_of (contains now row))
Agree w _ _ row = ⊥

unfoldable pub Tracks : Sources → Pending → Sources → Type 0
Tracks sources pending now =
    (id : RelId) (row : Row)
    → Agree (or_zero (lookup (id, row) pending)) (lookup id sources) (lookup id now) row

pub add_weight :
    (w v : W) (a b c : Bool)
    → w +ℤ weight_of a ≡ weight_of b
    → v ≡ pos 1
    → b ≡ false
    → c ≡ true
    → (w +ℤ v) +ℤ weight_of a ≡ weight_of c
unfolding ◌+ℤ◌
add_weight w v a b c h hv hb hc = ground arith

pub sub_weight :
    (w v : W) (a b c : Bool)
    → w +ℤ weight_of a ≡ weight_of b
    → v ≡ negsuc 0
    → b ≡ true
    → c ≡ false
    → (w +ℤ v) +ℤ weight_of a ≡ weight_of c
unfolding ◌+ℤ◌
sub_weight w v a b c h hv hb hc = ground arith

-- One accepted change.
module _ (sources : Sources) (pending : Pending) (now : Sources) (id : RelId) (row : Row) (w : W)
    (a rows after : List Row) (found : lookup id sources ≡ some a)
    (tracks : Tracks sources pending now) (reached : lookup id now ≡ some rows)
    (self : (or_zero (lookup (id, row) pending) +ℤ w) +ℤ weight_of (contains a row)
      ≡ weight_of (contains after row))
    (others : (o : Row) → o ≢ row → contains after o ≡ contains rows o) where
  abbrev next : Pending
  next = insert (id, row) (or_zero (lookup (id, row) pending) +ℤ w) pending

  old :
      (r : Row)
      → or_zero (lookup (id, r) pending) +ℤ weight_of (contains a r) ≡ weight_of (contains rows r)
  unfolding Tracks
  old r =
      subst (λ o. Agree (or_zero (lookup (id, r) pending)) o (some rows) r) found
        (subst (λ o. Agree (or_zero (lookup (id, r) pending)) (lookup id sources) o r) reached
          (tracks id r))

  Tracks-here :
      (r : Row)
      → Agree
          (or_zero (
            if row == r
            then some (or_zero (lookup (id, row) pending) +ℤ w)
            else lookup (id, r) pending))
          (lookup id sources)
          (some after)
          r
  unfolding Tracks
  Tracks-here r = rw found (elim (Bool-cases (row == r)) [
    | inl same ↦ rw same (
        subst
          (λ o.
            (or_zero (lookup (id, row) pending) +ℤ w) +ℤ weight_of (contains a o)
            ≡ weight_of (contains after o))
          ((list_eqb_iff row r).0 same) self)
    | inr differ ↦
        rw (differ, others r (λ e. cc (sym differ ∙ ap (λ o. row == o) e ∙ beq_refl row))) (old r)
  ])

  pub Tracks-insert : Tracks sources next (insert id after now)
  unfolding Tracks
  Tracks-insert i r =
      subst (λ o. Agree (or_zero o) (lookup i sources) (lookup i (insert id after now)) r)
        (sym (at_key i r))
        (subst (λ o. Agree (or_zero (pending_at i r)) (lookup i sources) o r)
          (sym (lookup-insert id i after now))
          (elim (Bool-cases (id == i)) [
            | inl same ↦ rw same (
                subst
                  (λ j.
                    Agree
                      (or_zero (
                        if row == r
                        then some (or_zero (lookup (id, row) pending) +ℤ w)
                        else lookup (j, r) pending))
                      (lookup j sources) (some after) r)
                  ((nat_eqb_iff id i).0 same) (Tracks-here r))
            | inr differ ↦ rw differ (tracks i r)
          ]))
    where
      pending_at : RelId → Row → Option W
      pending_at i r =
          if (id == i) && (row == r)
          then some (or_zero (lookup (id, row) pending) +ℤ w)
          else lookup (i, r) pending

      at_key : (i : RelId) (r : Row) → lookup (i, r) next ≡ pending_at i r
      at_key i r = lookup-insert {K = RelId × Row} (id, row) (i, r) _ pending
