-- ===== src/FrontierLab/Step/Journaled/Writes.antt =====
-- The writes to a node and to a relation that the journal records.
use sqlite_ivm.Base.{
  ℕ, zero, suc, ◌≡◌, refl, ap, subst, ◌∙◌, Option, Option-cases, inl, inr, none, some, List, [],
  ◌∷◌, get_elem?, map, All, ◌>>=◌, >>=-eq-some, some_injective,
}
use sqlite_ivm.FrontierLab.Types.{RelId, ProgramId}
use sqlite_ivm.FrontierLab.Storage.{NodeId, Relation, Node, ProgramState, Undo, Engine, installed}
use sqlite_ivm.FrontierLab.Journal.{modify_at, in_nodes, in_program, in_relation}
use sqlite_ivm.FrontierLab.Journal.View.{
  RelationView, view_relation, NodeView, view_node, view_program, EngineView, view,
}
use sqlite_ivm.FrontierLab.Journal.View.Lists.{modify_at_back}
use sqlite_ivm.FrontierLab.Journal.View.Undo.{
  in_nodes_view, in_program_view, in_relation_view, undo_view,
}
use sqlite_ivm.FrontierLab.Journal.Edits.{Edits}
use sqlite_ivm.FrontierLab.Propagate.{node_at}
use sqlite_ivm.FrontierLab.Source.{write_relation}
use sqlite_ivm.FrontierLab.Source.Valid.{IsValid}
use sqlite_ivm.FrontierLab.Step.{write_node, touch_node}
use sqlite_ivm.FrontierLab.Step.Journaled.{JournalsAt, nothing_left}

-- A write at one element keeps what is seen of the list.
map-modify_at_same {ℓ} :
    {A B : Type ℓ} (v : A → B) (f : A → Option A) (xs : List A) (i : ℕ) (ys : List A)
    → ((x y : A) → f x ≡ some y → v y ≡ v x)
    → modify_at f xs i ≡ some ys
    → map v ys ≡ map v xs
map-modify_at_same v f [] i ys same h = cc
map-modify_at_same v f (x ∷ xs) zero ys same h =
    let (y, changed, whole) = >>=-eq-some (f x) (λ z. some (z ∷ xs)) h in
    subst (λ zs. map v zs ≡ v x ∷ map v xs) (some_injective whole)
      (ap (λ z. z ∷ map v xs) (same x y changed))
map-modify_at_same v f (x ∷ xs) (suc i) ys same h =
    let (zs, changed, whole) = >>=-eq-some (modify_at f xs i) (λ zs. some (x ∷ zs)) h in
    subst (λ zs. map v zs ≡ v x ∷ map v xs) (some_injective whole)
      (ap (λ z. v x ∷ z) (map-modify_at_same v f xs i zs same changed))

module _ (p : ProgramId) (id : NodeId) (f : Node → Option Node) (g : NodeView → Option NodeView)
    (e : Engine) where
  in_nodes_back :
      ((x y : Node) → node_at p id e ≡ some x → f x ≡ some y → g (view_node y) ≡ some (view_node x))
      → (slot after : Option ProgramState) → get_elem? e.programs p ≡ some slot
      → in_nodes id f slot ≡ some after
      → in_nodes_view id g (view_program after) ≡ some (view_program slot)
  in_nodes_back undo none after there h = cc
  in_nodes_back undo (some state) after there h =
      let (nodes, changed, whole) =
        >>=-eq-some (modify_at f state.nodes id)
          (λ nodes. some (some (record state { nodes = nodes }))) h in
      let at_state : installed e.programs p ≡ some state = ap (λ o. o >>= λ slot. slot) there in
      subst (λ o. in_nodes_view id g (view_program o) ≡ some (view_program (some state)))
        (some_injective whole)
        (ap
          (λ m. m >>= λ nodes.
            some (some (record { nodes = nodes; rest = record state { nodes = [] } })))
          (modify_at_back view_node f g state.nodes id nodes
            (λ x y at changed.
              undo x y (ap (λ o. o >>= λ s. get_elem? s.nodes id) at_state ∙ at) changed)
            changed))

  -- A write whose undo entry takes it back.
  pub JournalsAt-write_node :
      (undo : Undo)
      → ((x y : Node)
          → node_at p id e ≡ some x
          → f x ≡ some y
          → g (view_node y) ≡ some (view_node x))
      → ((v : EngineView) → undo_view undo v ≡ in_program_view p id g v)
      → JournalsAt (write_node p id undo f) e
  unfolding in_program
  JournalsAt-write_node undo back is valid =
      elim (Option-cases (modify_at (in_nodes id f) e.programs p)) [
        | inl failed ↦ rw failed (nothing_left e valid)
        | inr (programs, written) ↦ rw written (record {
          edits =
              Edits.recorded undo Edits.done
                (is _
                  ∙ ap (λ m. m >>= λ programs. some (record (view e) { programs = programs }))
                      (modify_at_back view_program (in_nodes id f) (in_nodes_view id g) e.programs p
                        programs (in_nodes_back back) written))
                refl refl;
          valid = valid;
          applied = refl;
        })
      ]

module _ (p : ProgramId) (id : NodeId) (f : Node → Option Node) (e : Engine) where
  in_nodes_same :
      ((x y : Node) → f x ≡ some y → view_node y ≡ view_node x)
      → (slot after : Option ProgramState) → in_nodes id f slot ≡ some after
      → view_program after ≡ view_program slot
  in_nodes_same same none after h = cc
  in_nodes_same same (some state) after h =
      let (nodes, changed, whole) =
        >>=-eq-some (modify_at f state.nodes id)
          (λ nodes. some (some (record state { nodes = nodes }))) h in
      subst (λ o. view_program o ≡ view_program (some state)) (some_injective whole)
        (ap (λ nodes. some (record { nodes = nodes; rest = record state { nodes = [] } }))
          (map-modify_at_same view_node f state.nodes id nodes same changed))

  -- A write that is not seen.
  pub JournalsAt-touch_node :
      ((x y : Node) → f x ≡ some y → view_node y ≡ view_node x) → JournalsAt (touch_node p id f) e
  unfolding in_program
  JournalsAt-touch_node same valid = elim (Option-cases (modify_at (in_nodes id f) e.programs p)) [
    | inl failed ↦ rw failed (nothing_left e valid)
    | inr (programs, written) ↦ rw written (record {
      edits =
          Edits.unseen Edits.done
            (ap (λ programs. record (view e) { programs = programs })
              (map-modify_at_same view_program (in_nodes id f) e.programs p programs
                (in_nodes_same same) written))
            refl refl;
      valid = valid;
      applied = refl;
    })
  ]

-- A write at a relation keeps all of them valid.
All-modify_at :
    (f : Relation → Option Relation) (rs : List Relation) (id : RelId) (ss : List Relation)
    → ((r s : Relation)
        → get_elem? rs id ≡ some r
        → IsValid (view_relation r)
        → f r ≡ some s
        → IsValid (view_relation s))
    → All IsValid (map view_relation rs)
    → modify_at f rs id ≡ some ss
    → All IsValid (map view_relation ss)
All-modify_at f [] id ss keeps valid h = cc
All-modify_at f (r ∷ rs) zero ss keeps valid h =
    let (s, changed, whole) = >>=-eq-some (f r) (λ s. some (s ∷ rs)) h in
    subst (λ ts. All IsValid (map view_relation ts)) (some_injective whole)
      (keeps r s refl valid.0 changed, valid.1)
All-modify_at f (r ∷ rs) (suc id) ss keeps valid h =
    let (ts, changed, whole) = >>=-eq-some (modify_at f rs id) (λ ts. some (r ∷ ts)) h in
    subst (λ ts. All IsValid (map view_relation ts)) (some_injective whole)
      (valid.0, All-modify_at f rs id ts keeps valid.1 changed)

All-get_elem? :
    (rs : List Relation) (id : RelId) (r : Relation)
    → All IsValid (map view_relation rs)
    → get_elem? rs id ≡ some r
    → IsValid (view_relation r)
All-get_elem? [] id r valid h = cc
All-get_elem? (s ∷ rs) zero r valid h =
    subst (λ t. IsValid (view_relation t)) (some_injective h) valid.0
All-get_elem? (s ∷ rs) (suc id) r valid h = All-get_elem? rs id r valid.1 h

-- A write to a relation that keeps it valid and whose undo entry takes it back.
pub JournalsAt-write_relation :
    (id : RelId) (undo : Undo) (f : Relation → Option Relation)
    (g : RelationView → Option RelationView) (e : Engine)
    → ((r s : Relation)
        → get_elem? e.relations id ≡ some r
        → IsValid (view_relation r)
        → f r ≡ some s
        → IsValid (view_relation s) × (g (view_relation s) ≡ some (view_relation r)))
    → ((v : EngineView) → undo_view undo v ≡ in_relation_view id g v)
    → JournalsAt (write_relation id undo f) e
unfolding in_relation
JournalsAt-write_relation id undo f g e back is valid =
    elim (Option-cases (modify_at f e.relations id)) [
      | inl failed ↦ rw failed (nothing_left e valid)
      | inr (relations, written) ↦ rw written (record {
        edits =
            Edits.recorded undo Edits.done
              (is _
                ∙ ap (λ m. m >>= λ relations. some (record (view e) { relations = relations }))
                    (modify_at_back view_relation f g e.relations id relations
                      (λ r s at changed.
                        (back r s at (All-get_elem? e.relations id r valid at) changed).1)
                      written))
              refl refl;
        valid =
            All-modify_at f e.relations id relations
              (λ r s at ok changed. (back r s at ok changed).0) valid written;
        applied = refl;
      })
    ]
