-- ===== src/FrontierLab/Install/Depends.antt =====
-- The relations that a program depends on are those that its nodes scan.
use sqlite_ivm.Base.{
  ◌≡◌, refl, sym, ap, subst, ◌∙◌, Bool, true, false, ◌||◌, Bool-cases, inl, inr, List, [], ◌∷◌,
  ◌++◌, contains, nat_eq, nat_eqb_iff, ◌==◌,
}
use sqlite_ivm.FrontierLab.Types.{RelId, PlanNode, PlanNodes, OutputDecl, Stage, Outcome}
use sqlite_ivm.FrontierLab.Storage.{NodeId, Node, OutputState, Engine, relation}
use sqlite_ivm.FrontierLab.Install.{
  node_arity, max_of, below_arity, option_list, supported, with_dependency, push_node, Built,
  build_node, build_inputs, in_output, build_outputs,
}
use sqlite_ivm.FrontierLab.Install.Built.{and_then_ok, ok_injective, in_output_ok}

abbrev scans : RelId → Node → Bool
scans id (Node.scan r) = id == r
scans id (Node.union _ _) = false
scans id (Node.join _ _ _ _ _ _ _) = false
scans id (Node.aggregate _ _ _ _ _) = false
scans id (Node.project _ _ _) = false

-- Whether a node scans the relation.
abbrev pub scanned : RelId → List Node → Bool
scanned id [] = false
scanned id (node ∷ nodes) = scans id node || scanned id nodes

abbrev pub DependsOn : List Node → List RelId → Type 0
DependsOn nodes deps = (id : RelId) → contains deps id ≡ scanned id nodes

or_false : (a : Bool) → (a || false) ≡ a
or_false true = refl
or_false false = refl

or_assoc : (a b c : Bool) → (a || (b || c)) ≡ ((a || b) || c)
or_assoc true b c = refl
or_assoc false b c = refl

contains-append :
    (deps : List RelId) (r id : RelId)
    → contains (deps ++ r ∷ []) id ≡ (contains deps id || (id == r))
contains-append [] r id = or_false (id == r)
contains-append (d ∷ deps) r id =
    ap (λ b. (id == d) || b) (contains-append deps r id)
    ∙ or_assoc (id == d) (contains deps id) (id == r)

scanned-append :
    (nodes : List Node) (node : Node) (id : RelId)
    → scanned id (nodes ++ node ∷ []) ≡ (scanned id nodes || scans id node)
scanned-append [] node id = or_false (scans id node)
scanned-append (n ∷ nodes) node id =
    ap (λ b. scans id n || b) (scanned-append nodes node id)
    ∙ or_assoc (scans id n) (scanned id nodes) (scans id node)

contains-with_dependency :
    (deps : List RelId) (r id : RelId)
    → contains (with_dependency r deps) id ≡ (contains deps id || (id == r))
contains-with_dependency deps r id = elim (Bool-cases (contains deps r)) [
  | inr absent ↦ rw absent (contains-append deps r id)
  | inl present ↦ rw present (elim (Bool-cases (id == r)) [
    | inr differ ↦ rw differ (sym (or_false (contains deps id)))
    | inl same ↦
        let here : contains deps id ≡ true =
          ap (contains deps) ((nat_eqb_iff id r).0 same) ∙ present in
        rw here refl
  ])
]

-- A node that scans nothing.
DependsOn-push_node :
    (node : Node) (nodes : List Node) (deps : List RelId) {b : Built}
    → ((id : RelId) → scans id node ≡ false)
    → DependsOn nodes deps
    → push_node node nodes deps ≡ Outcome.ok b
    → DependsOn b.1 b.2
DependsOn-push_node node nodes deps none_ d h =
    subst (λ (b : Built). DependsOn b.1 b.2) (ok_injective h)
      (λ id.
        d id
        ∙ sym (or_false (scanned id nodes))
        ∙ ap (λ b. scanned id nodes || b) (sym (none_ id))
        ∙ sym (scanned-append nodes node id))

mutual
  unfolding build_node build_inputs

  pub build_node-DependsOn :
      (e : Engine) (plan : PlanNode) (nodes : List Node) (deps : List RelId) (b : Built)
      → DependsOn nodes deps
      → build_node e plan nodes deps ≡ Outcome.ok b
      → DependsOn b.1 b.2
  build_node-DependsOn e (PlanNode.scan r) nodes deps b d h =
      let (_, _, pushes) = and_then_ok (relation e r Stage.install) _ h in
      subst (λ (b : Built). DependsOn b.1 b.2) (ok_injective pushes)
        (λ id.
          contains-with_dependency deps r id
          ∙ ap (λ b. b || (id == r)) (d id)
          ∙ sym (scanned-append nodes (Node.scan r) id))
  build_node-DependsOn e (PlanNode.union inputs) nodes deps b d h =
      let (c, built, pushes) = and_then_ok (build_inputs e inputs nodes deps) _ h in
      DependsOn-push_node (Node.union c.0 []) c.1 c.2 (λ id. refl)
        (build_inputs-DependsOn e inputs nodes deps c d built) pushes
  build_node-DependsOn e (PlanNode.join left right on_left on_right) nodes deps b d h =
      let (_, _, h1) = and_then_ok (node_arity e left) _ h in
      let (_, _, h2) = and_then_ok (node_arity e right) _ h1 in
      let (_, _, h3) = and_then_ok (below_arity on_left _) _ h2 in
      let (_, _, h4) = and_then_ok (below_arity on_right _) _ h3 in
      let (l, left_built, h5) = and_then_ok (build_node e left nodes deps) _ h4 in
      let (r, right_built, pushes) = and_then_ok (build_node e right l.1 l.2) _ h5 in
      DependsOn-push_node (Node.join l.0 r.0 on_left on_right [] [] []) r.1 r.2 (λ id. refl)
        (build_node-DependsOn e right l.1 l.2 r
          (build_node-DependsOn e left nodes deps l d left_built) right_built)
        pushes
  build_node-DependsOn e (PlanNode.aggregate input group_by count sum) nodes deps b d h =
      let (_, _, h1) = and_then_ok (supported group_by count sum) _ h in
      let (ia, _, h2) = and_then_ok (node_arity e input) _ h1 in
      let (_, _, h3) = and_then_ok (below_arity (max_of (group_by ++ option_list sum)) ia) _ h2 in
      let (c, built, pushes) = and_then_ok (build_node e input nodes deps) _ h3 in
      DependsOn-push_node (Node.aggregate c.0 group_by count sum []) c.1 c.2 (λ id. refl)
        (build_node-DependsOn e input nodes deps c d built) pushes
  build_node-DependsOn e (PlanNode.project input columns) nodes deps b d h =
      let (ia, _, h1) = and_then_ok (node_arity e input) _ h in
      let (_, _, h2) = and_then_ok (below_arity (max_of columns) ia) _ h1 in
      let (c, built, pushes) = and_then_ok (build_node e input nodes deps) _ h2 in
      DependsOn-push_node (Node.project c.0 columns []) c.1 c.2 (λ id. refl)
        (build_node-DependsOn e input nodes deps c d built) pushes
  build_node-DependsOn e (PlanNode.difference _ _) nodes deps b d h = cc

  build_inputs-DependsOn :
      (e : Engine) (inputs : PlanNodes) (nodes : List Node) (deps : List RelId)
      (b : List NodeId × List Node × List RelId)
      → DependsOn nodes deps
      → build_inputs e inputs nodes deps ≡ Outcome.ok b
      → DependsOn b.1 b.2
  build_inputs-DependsOn e PlanNodes.nil nodes deps b d h =
      subst (λ (b : List NodeId × List Node × List RelId). DependsOn b.1 b.2) (ok_injective h) d
  build_inputs-DependsOn e (PlanNodes.cons input inputs) nodes deps b d h =
      let (c, built, h1) = and_then_ok (build_node e input nodes deps) _ h in
      let (rest, more, whole) = and_then_ok (build_inputs e inputs c.1 c.2) _ h1 in
      subst (λ (b : List NodeId × List Node × List RelId). DependsOn b.1 b.2) (ok_injective whole)
        (build_inputs-DependsOn e inputs c.1 c.2 rest
          (build_node-DependsOn e input nodes deps c d built) more)

pub build_outputs-DependsOn :
    (e : Engine) (decls : List OutputDecl) (nodes : List Node) (deps : List RelId)
    (b : List OutputState × List Node × List RelId)
    → DependsOn nodes deps
    → build_outputs e decls nodes deps ≡ Outcome.ok b
    → DependsOn b.1 b.2
unfolding build_outputs
build_outputs-DependsOn e [] nodes deps b d h =
    subst (λ (b : List OutputState × List Node × List RelId). DependsOn b.1 b.2) (ok_injective h) d
build_outputs-DependsOn e (o ∷ decls) nodes deps b d h =
    let (c, built, more) = and_then_ok (in_output o.name (build_node e o.plan nodes deps)) _ h in
    let (rest, others, whole) = and_then_ok (build_outputs e decls c.1 c.2) _ more in
    subst (λ (b : List OutputState × List Node × List RelId). DependsOn b.1 b.2)
      (ok_injective whole)
      (build_outputs-DependsOn e decls c.1 c.2 rest
        (build_node-DependsOn e o.plan nodes deps c d
          (in_output_ok o.name (build_node e o.plan nodes deps) built))
        others)
