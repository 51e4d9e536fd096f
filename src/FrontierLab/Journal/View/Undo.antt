-- ===== src/FrontierLab/Journal/View/Undo.antt =====
-- One undo entry, replayed on the view of an engine.
use mathlib.Core.Option
use sqlite_ivm.Base.{
  ℕ, ◌≡◌, refl, ap, ◌∙◌, Bool, Option, none, some, List, [], ◌∷◌, get_elem?, set, map, int_eq,
  list_eq, ◌>>=◌, ◌>>◌,
}
use sqlite_ivm.Ir.Syntax.{Row}
use sqlite_ivm.FrontierLab.Types.{RelId, ProgramId}
use sqlite_ivm.FrontierLab.Storage.{NodeId, Relation, Node, ProgramState, Undo, Engine}
use sqlite_ivm.FrontierLab.Journal.{
  undo_insert_rows, undo_insert_free, modify_at, in_nodes, in_program, in_relation,
}
use sqlite_ivm.FrontierLab.Journal.View.{
  RelationView, view_relation, NodeView, view_node, ProgramView, view_program, EngineView, view,
  update,
}
use sqlite_ivm.FrontierLab.Journal.View.Nodes.{put_counts_view, put_index_view, put_group_view}
use sqlite_ivm.FrontierLab.Journal.View.Lists.{map-bind, map-modify_at}

abbrev pub in_nodes_view :
    NodeId → (NodeView → Option NodeView) → Option ProgramView → Option (Option ProgramView)
in_nodes_view id f none = none
in_nodes_view id f (some state) =
    modify_at f state.nodes id >>= λ nodes. some (some (record state { nodes = nodes }))

abbrev pub in_program_view :
    ProgramId → NodeId → (NodeView → Option NodeView) → EngineView → Option EngineView
in_program_view p id f v = modify_at (in_nodes_view id f) v.programs p >>= λ programs.
    some (record v { programs = programs })

abbrev pub in_relation_view :
    RelId → (RelationView → Option RelationView) → EngineView → Option EngineView
in_relation_view id f v =
    modify_at f v.relations id >>= λ relations. some (record v { relations = relations })

-- The ids of a value without the last.
abbrev pub popped : List ℕ → Option (List ℕ)
popped [] = none
popped (slot ∷ ids) = some ids

abbrev pub undo_insert_view : ℕ → Bool → RelationView → Option RelationView
undo_insert_view slot recycled v = get_elem? v.rows slot >>= λ held. held >>= λ row.
    popped (v.ids row) >>= λ ids. some (record v {
      rows = undo_insert_rows recycled slot v.rows;
      free = undo_insert_free recycled slot v.free;
      ids = update row ids v.ids;
    })

abbrev pub undo_remove_view : ℕ → Row → List ℕ → RelationView → Option RelationView
undo_remove_view slot row [] v = none
undo_remove_view slot row (top ∷ free) v =
    get_elem? v.rows slot
    >> some (record v {
      rows = set v.rows slot (some row);
      free = free;
      ids = update row (slot ∷ v.ids row) v.ids;
    })

abbrev pub undo_view : Undo → EngineView → Option EngineView
undo_view (Undo.insert_ r slot recycled) v = in_relation_view r (undo_insert_view slot recycled) v
undo_view (Undo.remove_ r slot row) v =
    in_relation_view r (λ w. undo_remove_view slot row w.free w) v
undo_view (Undo.counts p node row previous) v =
    in_program_view p node (put_counts_view row previous) v
undo_view (Undo.key_index p node left key row previous) v =
    in_program_view p node (put_index_view left key row previous) v
undo_view (Undo.group p node key previous) v =
    in_program_view p node (put_group_view key previous) v

module _ (id : NodeId) (f : Node → Option Node) (g : NodeView → Option NodeView) where
  view-in_nodes :
      ((node : Node) → Option.map view_node (f node) ≡ g (view_node node))
      → (slot : Option ProgramState)
      → Option.map view_program (in_nodes id f slot) ≡ in_nodes_view id g (view_program slot)
  view-in_nodes h none = refl
  view-in_nodes h (some state) =
      map-bind (modify_at f state.nodes id) (map view_node) view_program
        (λ nodes. some (record state { nodes = nodes }))
        (λ nodes. some (record { nodes = nodes; rest = record state { nodes = [] } }))
        (λ nodes. refl)
      ∙ ap
          (λ m. m >>= λ nodes.
            some (some (record { nodes = nodes; rest = record state { nodes = [] } })))
          (map-modify_at view_node f g h state.nodes id)

  pub view-in_program :
      (p : ProgramId)
      → ((node : Node) → Option.map view_node (f node) ≡ g (view_node node))
      → (e : Engine) → Option.map view (in_program p id f e) ≡ in_program_view p id g (view e)
  unfolding in_program
  view-in_program p h e =
      map-bind (modify_at (in_nodes id f) e.programs p) (map view_program) view
        (λ programs. record e { programs = programs })
        (λ programs. record (view e) { programs = programs }) (λ programs. refl)
      ∙ ap (λ m. m >>= λ programs. some (record (view e) { programs = programs }))
          (map-modify_at view_program (in_nodes id f) (in_nodes_view id g) (view-in_nodes h)
            e.programs p)

pub view-in_relation :
    (id : RelId) (f : Relation → Option Relation) (g : RelationView → Option RelationView)
    → ((r : Relation) → Option.map view_relation (f r) ≡ g (view_relation r))
    → (e : Engine) → Option.map view (in_relation id f e) ≡ in_relation_view id g (view e)
unfolding in_relation
view-in_relation id f g h e =
    map-bind (modify_at f e.relations id) (map view_relation) view
      (λ relations. record e { relations = relations })
      (λ relations. record (view e) { relations = relations }) (λ relations. refl)
    ∙ ap (λ m. m >>= λ relations. some (record (view e) { relations = relations }))
        (map-modify_at view_relation f g h e.relations id)
