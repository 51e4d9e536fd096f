-- ===== src/FrontierLab/Journal/View/Back.antt =====
-- A write to a node's maps, and the write of the old value, on the view of the node.
use mathlib.Core.Option
use sqlite_ivm.Base.{
  ℤ, ◌≡◌, refl, sym, ap, subst, ◌∙◌, inl, inr, Bool, true, false, ◌&&◌, Bool-cases, Option, none,
  some, [], ◌==◌, int_eq, list_eq, list_eqb_iff, lookup, insert, if◌then◌else◌, some_injective,
}
use sqlite_ivm.Ir.Syntax.{Row}
use sqlite_ivm.FrontierLab.Storage.{Group, Node, counts_of}
use sqlite_ivm.FrontierLab.Journal.{or_empty, side_of, put_counts, groups_of, put_group}
use sqlite_ivm.FrontierLab.Journal.View.{
  NodeView, view_node, update, update_back, update_index, entry_at,
}
use sqlite_ivm.FrontierLab.Journal.View.Entries.{entry_at-keep_put, entry_at-touch}
use sqlite_ivm.FrontierLab.Journal.View.Nodes.{
  is_counted, is_join, is_aggregate, put_counts_view, put_index_view, put_group_view,
  view-put_counts, view-put_group, view-with_side,
}
use sqlite_ivm.FrontierLab.Propagate.{set_index, touch_index}

-- A guarded write and the guarded write back.
guarded {ℓ} :
    {A : Type ℓ} (test : A → Bool) (there back : A → A) (v w : A)
    → test (there v) ≡ test v
    → back (there v) ≡ v
    → (if test v then some (there v) else none) ≡ some w
    → (if test w then some (back w) else none) ≡ some v
guarded {A} test there back v w kept undone h = elim (Bool-cases (test v)) [
  | inl is ↦
      let same : there v ≡ w =
        some_injective (subst (λ b. (if b then some (there v) else none) ≡ some w) is h) in
      subst (λ x. (if test x then some (back x) else none) ≡ some v) same
        (subst (λ b. (if b then some (back (there v)) else none) ≡ some v) (sym (kept ∙ is))
          (ap some undone))
  | inr not ↦ absurd (stuck (subst (λ b. (if b then some (there v) else none) ≡ some w) not h))
]
  where
    stuck : {x : A} → none ≡ some x → ⊥
    stuck e = cc

module _ (row : Row) (value : Option ℤ) (v w : NodeView) where
  pub put_counts_view_back :
      put_counts_view row value v ≡ some w → put_counts_view row (v.count_at row) w ≡ some v
  put_counts_view_back =
      guarded (λ x. is_counted x.kind) (λ x. record x { count_at = update row value x.count_at })
        (λ x. record x { count_at = update row (v.count_at row) x.count_at }) v w refl
        (λ i. record v { count_at = λ q. update_back row value v.count_at q i })

pub put_group_view_back :
    (key : Row) (value : Option Group) (v w : NodeView)
    → put_group_view key value v ≡ some w
    → put_group_view key (v.group_at key) w ≡ some v
put_group_view_back key value v w =
    guarded (λ x. is_aggregate x.kind) (λ x. record x { group_at = update key value x.group_at })
      (λ x. record x { group_at = update key (v.group_at key) x.group_at }) v w refl
      (λ i. record v { group_at = λ q. update_back key value v.group_at q i })

at_two :
    (key row k r : Row) (a b : Option ℤ) (f : Row → Row → Option ℤ)
    → (if (key == k) && (row == r)
        then f key row
        else (if (key == k) && (row == r) then a else f k r))
      ≡ f k r
at_two key row k r a b f = elim (Bool-cases (key == k)) [
  | inr other ↦ rw other refl
  | inl same ↦ rw same (elim (Bool-cases (row == r)) [
    | inr other ↦ rw other refl
    | inl here ↦
        rw here
          (ap (λ x. f x row) ((list_eqb_iff key k).0 same) ∙ ap (f k) ((list_eqb_iff row r).0 here))
  ])
]

update_index_back :
    (left : Bool) (key row : Row) (value : Option ℤ) (f : Bool → Row → Row → Option ℤ) (side : Bool)
    (k r : Row)
    → update_index left key row (f left key row) (update_index left key row value f) side k r
      ≡ f side k r
update_index_back true key row value f true k r = at_two key row k r value value (f true)
update_index_back true key row value f false k r = refl
update_index_back false key row value f true k r = refl
update_index_back false key row value f false k r = at_two key row k r value value (f false)

pub put_index_view_back :
    (left : Bool) (key row : Row) (value : Option ℤ) (v w : NodeView)
    → put_index_view left key row value v ≡ some w
    → put_index_view left key row (v.index_at left key row) w ≡ some v
put_index_view_back left key row value v w =
    guarded (λ x. is_join x.kind)
      (λ x. record x { index_at = update_index left key row value x.index_at })
      (λ x. record x { index_at = update_index left key row (v.index_at left key row) x.index_at })
      v w refl
      (λ i. record v {
        index_at = λ side k r. update_index_back left key row value v.index_at side k r i;
      })

-- The forward writes of a node.
pub put_counts_back :
    (row : Row) (value : Option ℤ) (x y : Node)
    → put_counts row value x ≡ some y
    → put_counts_view row (lookup row (or_empty (counts_of x))) (view_node y) ≡ some (view_node x)
put_counts_back row value x y h =
    put_counts_view_back row value (view_node x) (view_node y)
      (sym (view-put_counts row value x) ∙ ap (Option.map view_node) h)

pub put_group_back :
    (key : Row) (value : Option Group) (x y : Node)
    → put_group key value x ≡ some y
    → put_group_view key (lookup key (or_empty (groups_of x))) (view_node y) ≡ some (view_node x)
put_group_back key value x y h =
    put_group_view_back key value (view_node x) (view_node y)
      (sym (view-put_group key value x) ∙ ap (Option.map view_node) h)

view-set_index :
    (left : Bool) (key row : Row) (value : Option ℤ) (node : Node)
    → Option.map view_node (set_index left key row value node)
      ≡ put_index_view left key row value (view_node node)
view-set_index true key row value (Node.join l r ol or c li ri) =
    ap some
      (view-with_side true key row value l r ol or c li ri _ (entry_at-keep_put key row value li))
view-set_index false key row value (Node.join l r ol or c li ri) =
    ap some
      (view-with_side false key row value l r ol or c li ri _ (entry_at-keep_put key row value ri))
view-set_index left key row value (Node.scan _) = refl
view-set_index left key row value (Node.union _ _) = refl
view-set_index left key row value (Node.aggregate _ _ _ _ _) = refl
view-set_index left key row value (Node.project _ _ _) = refl

pub set_index_back :
    (left : Bool) (key row : Row) (value : Option ℤ) (x y : Node)
    → set_index left key row value x ≡ some y
    → put_index_view left key row (entry_at (or_empty (side_of left x)) key row) (view_node y)
      ≡ some (view_node x)
set_index_back left key row value x y h =
    put_index_view_back left key row value (view_node x) (view_node y)
      (sym (view-set_index left key row value x) ∙ ap (Option.map view_node) h)

-- An entry made for a key is not seen.
pub touch_index-view :
    (left : Bool) (key : Row) (x y : Node)
    → touch_index left key x ≡ some y
    → view_node y ≡ view_node x
touch_index-view true key (Node.join l r ol or c li ri) y h =
    subst (λ n. view_node n ≡ view_node (Node.join l r ol or c li ri)) (some_injective h)
      (λ i. record (view_node (Node.join l r ol or c li ri)) {
        index_at = λ side k q. go side k q i;
      })
  where
    go :
        (side : Bool) (k q : Row)
        → (view_node (Node.join l r ol or c (insert key (or_empty (lookup key li)) li) ri)).index_at
            side k q
          ≡ (view_node (Node.join l r ol or c li ri)).index_at side k q
    go true k q = entry_at-touch key [] none li k q
    go false k q = refl
touch_index-view false key (Node.join l r ol or c li ri) y h =
    subst (λ n. view_node n ≡ view_node (Node.join l r ol or c li ri)) (some_injective h)
      (λ i. record (view_node (Node.join l r ol or c li ri)) {
        index_at = λ side k q. go side k q i;
      })
  where
    go :
        (side : Bool) (k q : Row)
        → (view_node (Node.join l r ol or c li (insert key (or_empty (lookup key ri)) ri))).index_at
            side k q
          ≡ (view_node (Node.join l r ol or c li ri)).index_at side k q
    go true k q = refl
    go false k q = entry_at-touch key [] none ri k q
touch_index-view left key (Node.scan _) y h = cc
touch_index-view left key (Node.union _ _) y h = cc
touch_index-view left key (Node.aggregate _ _ _ _ _) y h = cc
touch_index-view left key (Node.project _ _ _) y h = cc
