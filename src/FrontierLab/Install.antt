-- ===== src/FrontierLab/Install.antt =====
-- labs/20260923.1.the-gang-builds-the-rust-frontier-engine/src/1_storage.rs: the installation of a
-- program.
pub mod Arena
pub mod Built
pub mod Depends
pub mod Installed
pub mod Represents
use Prim.Native.String.{String}
use sqlite_ivm.Base.{
  ℕ, suc, ◌+◌, Bool, true, false, ◌&&◌, not, Option, none, some, List, [], ◌∷◌, ◌++◌, length, set,
  map, nat_eq, contains, ltb, leb, if◌then◌else◌, ◌==◌,
}
use sqlite_ivm.Ir.Syntax.{Text}
use sqlite_ivm.FrontierLab.Types.{
  RelId, ProgramId, PlanNode, PlanNodes, OutputDecl, Program, Stage, ErrorKind, Outcome, fail,
  and_then,
}
use sqlite_ivm.FrontierLab.Storage.{
  NodeId, Node, arrangement_count, OutputState, ProgramState, Engine, relation, program,
}

abbrev pub mismatch : {A : Type 0} → ℕ → ℕ → Outcome A
mismatch expected actual = fail Stage.install (ErrorKind.arity_mismatch expected actual)

abbrev pub unsupported : {A : Type 0} → String → Outcome A
unsupported shape = fail Stage.install (ErrorKind.unsupported shape)

abbrev pub one_if : Bool → ℕ
one_if b = if b then 1 else 0

abbrev pub is_some : {A : Type 0} → Option A → Bool
is_some none = false
is_some (some a) = true

-- The arity of a union so far, with that of one more input.
abbrev pub same_arity : Option ℕ → ℕ → Outcome (Option ℕ)
same_arity none child = Outcome.ok (some child)
same_arity (some same) child = if same == child then Outcome.ok (some same) else mismatch same child

abbrev pub or_zero_arity : Option ℕ → ℕ
or_zero_arity none = 0
or_zero_arity (some arity) = arity

unfoldable mutual
  pub node_arity : Engine → PlanNode → Outcome ℕ
  node_arity e (PlanNode.scan r) = and_then (relation e r Stage.install) (λ r. Outcome.ok r.arity)
  node_arity e (PlanNode.union inputs) =
      and_then (union_arity e none inputs) (λ arity. Outcome.ok (or_zero_arity arity))
  node_arity e (PlanNode.join left right _ _) =
      and_then (node_arity e left) (λ l. and_then (node_arity e right) (λ r. Outcome.ok (l + r)))
  node_arity e (PlanNode.aggregate _ group_by count sum) =
      Outcome.ok (length group_by + one_if count + one_if (is_some sum))
  node_arity e (PlanNode.project _ columns) = Outcome.ok (length columns)
  node_arity e (PlanNode.difference _ _) = unsupported "difference"

  pub union_arity : Engine → Option ℕ → PlanNodes → Outcome (Option ℕ)
  union_arity e arity PlanNodes.nil = Outcome.ok arity
  union_arity e arity (PlanNodes.cons input inputs) =
      and_then (node_arity e input)
        (λ child. and_then (same_arity arity child) (λ next. union_arity e next inputs))

-- `iter().max().copied().unwrap_or(0)`
abbrev pub max_of : List ℕ → ℕ
max_of [] = 0
max_of (x ∷ xs) = let rest = max_of xs in if ltb x rest then rest else x

abbrev pub below_arity : ℕ → ℕ → Outcome Unit
below_arity column arity = if leb arity column then mismatch arity (suc column) else Outcome.ok tt

abbrev pub option_list : {A : Type 0} → Option A → List A
option_list none = []
option_list (some a) = a ∷ []

abbrev pub is_empty : {A : Type 0} → List A → Bool
is_empty [] = true
is_empty (x ∷ xs) = false

-- The shapes of an aggregate that are not supported.
abbrev pub supported : List ℕ → Bool → Option ℕ → Outcome Unit
supported group_by count sum =
    if is_empty group_by
    then unsupported "global aggregate (no group key)"
    else if not count && not (is_some sum)
    then unsupported "aggregate without COUNT or SUM"
    else Outcome.ok tt

-- `HashSet::insert`
abbrev pub with_dependency : RelId → List RelId → List RelId
with_dependency r dependencies =
    if contains dependencies r then dependencies else dependencies ++ r ∷ []

-- `nodes.push(node)`, with the id of the node.
abbrev pub push_node : Node → List Node → List RelId → Outcome (NodeId × List Node × List RelId)
push_node node nodes dependencies = Outcome.ok (length nodes, nodes ++ node ∷ [], dependencies)

abbrev pub Built : Type 0
Built = NodeId × List Node × List RelId

unfoldable mutual
  pub build_node : Engine → PlanNode → List Node → List RelId → Outcome Built
  build_node e (PlanNode.scan r) nodes dependencies =
      and_then (relation e r Stage.install)
        (λ _. push_node (Node.scan r) nodes (with_dependency r dependencies))
  build_node e (PlanNode.union inputs) nodes dependencies =
      and_then (build_inputs e inputs nodes dependencies)
        (λ b. push_node (Node.union b.0 []) b.1 b.2)
  build_node e (PlanNode.join left right on_left on_right) nodes dependencies =
      and_then (node_arity e left) (λ left_arity. and_then (node_arity e right) (λ right_arity.
        and_then (below_arity on_left left_arity) (λ _.
          and_then (below_arity on_right right_arity) (λ _.
            and_then (build_node e left nodes dependencies) (λ l.
              and_then (build_node e right l.1 l.2)
                (λ r. push_node (Node.join l.0 r.0 on_left on_right [] [] []) r.1 r.2))))))
  build_node e (PlanNode.aggregate input group_by count sum) nodes dependencies =
      and_then (supported group_by count sum) (λ _. and_then (node_arity e input) (λ arity.
        and_then (below_arity (max_of (group_by ++ option_list sum)) arity) (λ _.
          and_then (build_node e input nodes dependencies)
            (λ b. push_node (Node.aggregate b.0 group_by count sum []) b.1 b.2))))
  build_node e (PlanNode.project input columns) nodes dependencies =
      and_then (node_arity e input) (λ arity. and_then (below_arity (max_of columns) arity) (λ _.
        and_then (build_node e input nodes dependencies)
          (λ b. push_node (Node.project b.0 columns []) b.1 b.2)))
  build_node e (PlanNode.difference _ _) nodes dependencies = unsupported "difference"

  pub build_inputs :
      Engine → PlanNodes → List Node → List RelId → Outcome (List NodeId × List Node × List RelId)
  build_inputs e PlanNodes.nil nodes dependencies = Outcome.ok ([], nodes, dependencies)
  build_inputs e (PlanNodes.cons input inputs) nodes dependencies =
      and_then (build_node e input nodes dependencies) (λ b.
        and_then (build_inputs e inputs b.1 b.2)
          (λ rest. Outcome.ok (b.0 ∷ rest.0, rest.1, rest.2)))

abbrev pub or_output : Text → Option Text → Option Text
or_output name none = some name
or_output name (some output) = some output

-- An error of a plan, which names the output.
abbrev pub in_output : {A : Type 0} → Text → Outcome A → Outcome A
in_output name (Outcome.ok a) = Outcome.ok a
in_output name (Outcome.err x) = Outcome.err (record x { output = or_output name x.output })
in_output name Outcome.panic = Outcome.panic

abbrev pub is_distinct : PlanNode → Bool
is_distinct (PlanNode.aggregate _ _ _ _) = false
is_distinct (PlanNode.scan _) = true
is_distinct (PlanNode.union _) = true
is_distinct (PlanNode.join _ _ _ _) = true
is_distinct (PlanNode.project _ _) = true
is_distinct (PlanNode.difference _ _) = true

unfoldable pub build_outputs :
    Engine
    → List OutputDecl
    → List Node
    → List RelId
    → Outcome (List OutputState × List Node × List RelId)
build_outputs e [] nodes dependencies = Outcome.ok ([], nodes, dependencies)
build_outputs e (o ∷ outputs) nodes dependencies =
    and_then (in_output o.name (build_node e o.plan nodes dependencies)) (λ b.
      and_then (build_outputs e outputs b.1 b.2) (λ rest. Outcome.ok (
        record { name = o.name; root = b.0; distinct = is_distinct o.plan } ∷ rest.0,
        rest.1,
        rest.2,
      )))

abbrev pub sum_of : List ℕ → ℕ
sum_of [] = 0
sum_of (x ∷ xs) = x + sum_of xs

-- `programs.push(None)` when the id is the first past the end.
abbrev pub with_slot : ℕ → List (Option ProgramState) → List (Option ProgramState)
with_slot id programs = if length programs == id then programs ++ none ∷ [] else programs

-- `self.programs[id] = Some(state)`, which panics past the end.
abbrev pub put_program : ProgramId → ProgramState → Engine → Engine × Outcome ProgramId
put_program id state e =
    if ltb id (length e.programs)
    then (record e { programs = set e.programs id (some state) }, Outcome.ok id)
    else (e, Outcome.panic)

abbrev pub with_next : Engine → Engine
with_next e = record e {
  next_program = suc e.next_program;
  programs = with_slot e.next_program e.programs;
}

abbrev pub install_built :
    Outcome (List OutputState × List Node × List RelId) → Engine → Engine × Outcome ProgramId
install_built (Outcome.err x) e = (e, Outcome.err x)
install_built Outcome.panic e = (e, Outcome.panic)
install_built (Outcome.ok b) e =
    put_program e.next_program
      (record {
        nodes = b.1;
        outputs = b.0;
        dependencies = b.2;
        operators = length b.1;
        arrangements = sum_of (map arrangement_count b.1);
      })
      (with_next e)

unfoldable pub install : Program → Engine → Engine × Outcome ProgramId
install p e = install_built (build_outputs e p.outputs [] []) e

abbrev pub uninstalled : ProgramId → Engine → Engine
uninstalled p e = record e { programs = set e.programs p none }

unfoldable pub uninstall : ProgramId → Engine → Engine × Outcome Unit
uninstall p e = elim (program e p) [
  | Outcome.err x ↦ (e, Outcome.err x)
  | Outcome.panic ↦ (e, Outcome.panic)
  | Outcome.ok state ↦ (uninstalled p e, Outcome.ok tt)
]
