-- ===== src/FrontierLab/Install/Represents.antt =====
-- The nodes that `build_node` makes of a plan are the plan's operators.
use sqlite_ivm.Base.{
  ℕ, ◌≡◌, refl, subst, some, List, [], ◌∷◌, ◌++◌, get_elem?, get_elem?-append_last,
}
use sqlite_ivm.FrontierLab.Types.{RelId, PlanNode, PlanNodes, OutputDecl, Stage, Outcome}
use sqlite_ivm.FrontierLab.Storage.{NodeId, Node, OutputState, Engine, relation}
use sqlite_ivm.FrontierLab.Source.Slots.{get_elem?-append_some}
use sqlite_ivm.FrontierLab.Install.{
  node_arity, max_of, below_arity, option_list, supported, push_node, Built, build_node,
  build_inputs, in_output, is_distinct, build_outputs,
}
use sqlite_ivm.FrontierLab.Install.Built.{and_then_ok, ok_injective, in_output_ok}

-- The node of an id is the operator of a plan, with empty maps, over nodes that represent its inputs.
abbrev mutual
  pub Represents : List Node → NodeId → PlanNode → Type 0
  Represents nodes id (PlanNode.scan r) = get_elem? nodes id ≡ some (Node.scan r)
  Represents nodes id (PlanNode.union inputs) =
      (ids : List NodeId) × (get_elem? nodes id ≡ some (Node.union ids []))
      × RepresentsAll nodes ids inputs
  Represents nodes id (PlanNode.join left right on_left on_right) =
      (l : NodeId) × (r : NodeId) × (get_elem? nodes id
        ≡ some (Node.join l r on_left on_right [] [] []))
      × Represents nodes l left
      × Represents nodes r right
  Represents nodes id (PlanNode.aggregate input group_by count sum) =
      (i : NodeId) × (get_elem? nodes id ≡ some (Node.aggregate i group_by count sum []))
      × Represents nodes i input
  Represents nodes id (PlanNode.project input columns) =
      (i : NodeId) × (get_elem? nodes id ≡ some (Node.project i columns []))
      × Represents nodes i input
  Represents nodes id (PlanNode.difference _ _) = ⊥

  pub RepresentsAll : List Node → List NodeId → PlanNodes → Type 0
  RepresentsAll nodes [] PlanNodes.nil = Unit
  RepresentsAll nodes [] (PlanNodes.cons _ _) = ⊥
  RepresentsAll nodes (id ∷ ids) PlanNodes.nil = ⊥
  RepresentsAll nodes (id ∷ ids) (PlanNodes.cons input inputs) =
      Represents nodes id input × RepresentsAll nodes ids inputs

abbrev pub Keeps : List Node → List Node → Type 0
Keeps few all = (i : ℕ) (n : Node) → get_elem? few i ≡ some n → get_elem? all i ≡ some n

mutual
  Represents-Keeps :
      (few all : List Node) (id : NodeId) (plan : PlanNode)
      → Keeps few all
      → Represents few id plan
      → Represents all id plan
  Represents-Keeps few all id (PlanNode.scan r) k h = k id _ h
  Represents-Keeps few all id (PlanNode.union inputs) k (ids, at, rest) =
      (ids, k id _ at, RepresentsAll-Keeps few all ids inputs k rest)
  Represents-Keeps few all id (PlanNode.join left right _ _) k (l, r, at, on_l, on_r) = (
    l,
    r,
    k id _ at,
    Represents-Keeps few all l left k on_l,
    Represents-Keeps few all r right k on_r,
  )
  Represents-Keeps few all id (PlanNode.aggregate input _ _ _) k (i, at, h) =
      (i, k id _ at, Represents-Keeps few all i input k h)
  Represents-Keeps few all id (PlanNode.project input _) k (i, at, h) =
      (i, k id _ at, Represents-Keeps few all i input k h)
  Represents-Keeps few all id (PlanNode.difference _ _) k h = absurd h

  RepresentsAll-Keeps :
      (few all : List Node) (ids : List NodeId) (plans : PlanNodes)
      → Keeps few all
      → RepresentsAll few ids plans
      → RepresentsAll all ids plans
  RepresentsAll-Keeps few all [] PlanNodes.nil k h = tt
  RepresentsAll-Keeps few all [] (PlanNodes.cons _ _) k h = absurd h
  RepresentsAll-Keeps few all (id ∷ ids) PlanNodes.nil k h = absurd h
  RepresentsAll-Keeps few all (id ∷ ids) (PlanNodes.cons p ps) k (h, rest) =
      (Represents-Keeps few all id p k h, RepresentsAll-Keeps few all ids ps k rest)

-- A node that is pushed is at the id returned, and the nodes before it stay.
abbrev Pushed : Node → List Node → Built → Type 0
Pushed node nodes b = Keeps nodes b.1 × (get_elem? b.1 b.0 ≡ some node)

Pushed-push_node :
    (node : Node) (nodes : List Node) (deps : List RelId) {b : Built}
    → push_node node nodes deps ≡ Outcome.ok b
    → Pushed node nodes b
Pushed-push_node node nodes deps h =
    subst (Pushed node nodes) (ok_injective h)
      ((λ i n at. get_elem?-append_some nodes (node ∷ []) i at), get_elem?-append_last nodes node)

mutual
  unfolding build_node build_inputs

  pub build_node-Represents :
      (e : Engine) (plan : PlanNode) (nodes : List Node) (deps : List RelId) (b : Built)
      → build_node e plan nodes deps ≡ Outcome.ok b
      → Keeps nodes b.1 × Represents b.1 b.0 plan
  build_node-Represents e (PlanNode.scan r) nodes deps b h =
      let (_, _, pushes) = and_then_ok (relation e r Stage.install) _ h in
      Pushed-push_node (Node.scan r) nodes _ pushes
  build_node-Represents e (PlanNode.union inputs) nodes deps b h =
      let (c, built, pushes) = and_then_ok (build_inputs e inputs nodes deps) _ h in
      let (k, all) = build_inputs-RepresentsAll e inputs nodes deps c built in
      let (kept, at) = Pushed-push_node (Node.union c.0 []) c.1 c.2 pushes in
      (
        (λ i n there. kept i n (k i n there)),
        (c.0, at, RepresentsAll-Keeps c.1 b.1 c.0 inputs kept all),
      )
  build_node-Represents e (PlanNode.join left right on_left on_right) nodes deps b h =
      let (_, _, h1) = and_then_ok (node_arity e left) _ h in
      let (_, _, h2) = and_then_ok (node_arity e right) _ h1 in
      let (_, _, h3) = and_then_ok (below_arity on_left _) _ h2 in
      let (_, _, h4) = and_then_ok (below_arity on_right _) _ h3 in
      let (l, left_built, h5) = and_then_ok (build_node e left nodes deps) _ h4 in
      let (r, right_built, pushes) = and_then_ok (build_node e right l.1 l.2) _ h5 in
      let (k1, on_l) = build_node-Represents e left nodes deps l left_built in
      let (k2, on_r) = build_node-Represents e right l.1 l.2 r right_built in
      let (kept, at) =
        Pushed-push_node (Node.join l.0 r.0 on_left on_right [] [] []) r.1 r.2 pushes in
      (
        (λ i n there. kept i n (k2 i n (k1 i n there))),
        (
          l.0,
          r.0,
          at,
          Represents-Keeps l.1 b.1 l.0 left (λ i n there. kept i n (k2 i n there)) on_l,
          Represents-Keeps r.1 b.1 r.0 right kept on_r,
        ),
      )
  build_node-Represents e (PlanNode.aggregate input group_by count sum) nodes deps b h =
      let (_, _, h1) = and_then_ok (supported group_by count sum) _ h in
      let (ia, _, h2) = and_then_ok (node_arity e input) _ h1 in
      let (_, _, h3) = and_then_ok (below_arity (max_of (group_by ++ option_list sum)) ia) _ h2 in
      let (c, built, pushes) = and_then_ok (build_node e input nodes deps) _ h3 in
      let (k, on) = build_node-Represents e input nodes deps c built in
      let (kept, at) = Pushed-push_node (Node.aggregate c.0 group_by count sum []) c.1 c.2 pushes in
      ((λ i n there. kept i n (k i n there)), (c.0, at, Represents-Keeps c.1 b.1 c.0 input kept on))
  build_node-Represents e (PlanNode.project input columns) nodes deps b h =
      let (ia, _, h1) = and_then_ok (node_arity e input) _ h in
      let (_, _, h2) = and_then_ok (below_arity (max_of columns) ia) _ h1 in
      let (c, built, pushes) = and_then_ok (build_node e input nodes deps) _ h2 in
      let (k, on) = build_node-Represents e input nodes deps c built in
      let (kept, at) = Pushed-push_node (Node.project c.0 columns []) c.1 c.2 pushes in
      ((λ i n there. kept i n (k i n there)), (c.0, at, Represents-Keeps c.1 b.1 c.0 input kept on))
  build_node-Represents e (PlanNode.difference _ _) nodes deps b h = cc

  build_inputs-RepresentsAll :
      (e : Engine) (inputs : PlanNodes) (nodes : List Node) (deps : List RelId)
      (b : List NodeId × List Node × List RelId)
      → build_inputs e inputs nodes deps ≡ Outcome.ok b
      → Keeps nodes b.1 × RepresentsAll b.1 b.0 inputs
  build_inputs-RepresentsAll e PlanNodes.nil nodes deps b h =
      subst (λ b. Keeps nodes b.1 × RepresentsAll b.1 b.0 PlanNodes.nil) (ok_injective h)
        ((λ i n at. at), tt)
  build_inputs-RepresentsAll e (PlanNodes.cons input inputs) nodes deps b h =
      let (c, built, h1) = and_then_ok (build_node e input nodes deps) _ h in
      let (rest, more, whole) = and_then_ok (build_inputs e inputs c.1 c.2) _ h1 in
      let (k1, on) = build_node-Represents e input nodes deps c built in
      let (k2, others) = build_inputs-RepresentsAll e inputs c.1 c.2 rest more in
      subst (λ b. Keeps nodes b.1 × RepresentsAll b.1 b.0 (PlanNodes.cons input inputs))
        (ok_injective whole)
        ((λ i n at. k2 i n (k1 i n at)), (Represents-Keeps c.1 rest.1 c.0 input k2 on, others))

-- Each output is read from a node that represents its plan, under its name.
abbrev pub OutputsRepresent : List Node → List OutputState → List OutputDecl → Type 0
OutputsRepresent nodes [] [] = Unit
OutputsRepresent nodes [] (d ∷ decls) = ⊥
OutputsRepresent nodes (o ∷ outputs) [] = ⊥
OutputsRepresent nodes (o ∷ outputs) (d ∷ decls) =
    ((o.name ≡ d.name) × (o.distinct ≡ is_distinct d.plan) × Represents nodes o.root d.plan)
    × OutputsRepresent nodes outputs decls

pub build_outputs-OutputsRepresent :
    (e : Engine) (decls : List OutputDecl) (nodes : List Node) (deps : List RelId)
    (b : List OutputState × List Node × List RelId)
    → build_outputs e decls nodes deps ≡ Outcome.ok b
    → Keeps nodes b.1 × OutputsRepresent b.1 b.0 decls
unfolding build_outputs
build_outputs-OutputsRepresent e [] nodes deps b h =
    subst (λ b. Keeps nodes b.1 × OutputsRepresent b.1 b.0 []) (ok_injective h) ((λ i n at. at), tt)
build_outputs-OutputsRepresent e (o ∷ decls) nodes deps b h =
    let (c, built, more) = and_then_ok (in_output o.name (build_node e o.plan nodes deps)) _ h in
    let (rest, others, whole) = and_then_ok (build_outputs e decls c.1 c.2) _ more in
    let (k1, on) =
      build_node-Represents e o.plan nodes deps c
        (in_output_ok o.name (build_node e o.plan nodes deps) built) in
    let (k2, all) = build_outputs-OutputsRepresent e decls c.1 c.2 rest others in
    subst (λ b. Keeps nodes b.1 × OutputsRepresent b.1 b.0 (o ∷ decls)) (ok_injective whole)
      (
        (λ i n at. k2 i n (k1 i n at)),
        ((refl, refl, Represents-Keeps c.1 rest.1 c.0 o.plan k2 on), all),
      )
