-- ===== src/FrontierLab/Journal/View.antt =====
-- What the engine's state is, its hash maps by what they hold and not by their order.
pub mod Entries
pub mod Nodes
pub mod Lists
pub mod Undo
pub mod Replay
pub mod Back
use sqlite_ivm.Base.{
  ℕ, ℤ, ◌≡◌, refl, Bool, true, false, ◌&&◌, Option, none, some, List, [], ◌∷◌, get_elem?, map, ◌==◌,
  nat_eq, int_eq, list_eq, list_eqb_iff, beq_refl, Bool-cases, inl, inr, ap, lookup, insert, remove,
  lookup-insert, lookup-remove, if◌then◌else◌, ◌>>=◌,
}
use sqlite_ivm.Ir.Syntax.{Row, Text}
use sqlite_ivm.FrontierLab.Storage.{
  Counts, Relation, Group, KeyIndex, Node, counts_of, with_counts, ProgramState, Engine,
}
use sqlite_ivm.FrontierLab.Journal.{
  or_empty, put, side_of, with_side, groups_of, with_groups, keep_entry, drop_row, restore_index,
}

-- A relation by its rows, its free slots and the slots of each value.
pub record RelationView : Type 0 where
  pub name : Text
  pub arity : ℕ
  pub rows : List (Option Row)
  pub free : List ℕ
  pub ids : Row → List ℕ

abbrev pub view_relation : Relation → RelationView
view_relation r = record {
  name = r.name;
  arity = r.arity;
  rows = r.rows;
  free = r.free;
  ids = λ row. or_empty (lookup row r.by_value);
}

-- A node without its maps.
abbrev pub shape : Node → Node
shape (Node.scan r) = Node.scan r
shape (Node.union inputs _) = Node.union inputs []
shape (Node.join l r ol or _ _ _) = Node.join l r ol or [] [] []
shape (Node.aggregate i g c s _) = Node.aggregate i g c s []
shape (Node.project i columns _) = Node.project i columns []

pub record NodeView : Type 0 where
  pub kind : Node
  pub count_at : Row → Option ℤ
  pub index_at : Bool → Row → Row → Option ℤ
  pub group_at : Row → Option Group

abbrev pub view_node : Node → NodeView
view_node node = record {
  kind = shape node;
  count_at = λ row. lookup row (or_empty (counts_of node));
  index_at = λ left key row. lookup row (or_empty (lookup key (or_empty (side_of left node))));
  group_at = λ key. lookup key (or_empty (groups_of node));
}

pub record ProgramView : Type 0 where
  pub nodes : List NodeView
  pub rest : ProgramState

abbrev pub view_program : Option ProgramState → Option ProgramView
view_program none = none
view_program (some state) =
    some (record { nodes = map view_node state.nodes; rest = record state { nodes = [] } })

pub record EngineView : Type 0 where
  pub relations : List RelationView
  pub programs : List (Option ProgramView)
  pub next_program : ℕ

abbrev pub view : Engine → EngineView
view e = record {
  relations = map view_relation e.relations;
  programs = map view_program e.programs;
  next_program = e.next_program;
}

-- A function changed at one row.
abbrev pub update {ℓ} : {V : Type ℓ} → Row → V → (Row → V) → Row → V
update row value f r = if row == r then value else f r

module _ {ℓ} {V : Type ℓ} (row : Row) (value : V) (f : Row → V) where
  pub update_self : update row value f row ≡ value
  update_self = rw (beq_refl row) refl

  -- A change, and then the old value again.
  pub update_back : (q : Row) → update row (f row) (update row value f) q ≡ f q
  update_back q = elim (Bool-cases (row == q)) [
    | inl same ↦ rw same (ap f ((list_eqb_iff row q).0 same))
    | inr other ↦ rw other refl
  ]

abbrev pub update_index :
    Bool → Row → Row → Option ℤ → (Bool → Row → Row → Option ℤ) → Bool → Row → Row → Option ℤ
update_index true key row value f true k r = if (key == k) && (row == r) then value else f true k r
update_index true key row value f false k r = f false k r
update_index false key row value f true k r = f true k r
update_index false key row value f false k r =
    if (key == k) && (row == r) then value else f false k r

pub lookup-put {ℓ} :
    {V : Type ℓ} (key wanted : Row) (value : Option V) (m : List (Row × V))
    → lookup wanted (put key value m) ≡ (if key == wanted then value else lookup wanted m)
lookup-put key wanted none m = lookup-remove key wanted m
lookup-put key wanted (some value) m = lookup-insert key wanted value m

-- What a key index holds under a key and a row.
abbrev pub entry_at : KeyIndex → Row → Row → Option ℤ
entry_at index key row = lookup row (or_empty (lookup key index))
