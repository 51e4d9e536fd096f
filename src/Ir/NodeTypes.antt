-- ===== src/Ir/NodeTypes.antt =====
-- crates/ivm-ir/src/0_ir.rs: `Program::op_types` and `Program::node_types`. The loop runs on fuel;
-- `none` outside stands for a panic or for fuel that ran out, `none` inside is the code's.
pub mod Loop
pub mod Acyclic
use sqlite_ivm.Base.{
  ℕ, zero, suc, ◌+◌, ◌==◌, nat_eq, Bool, true, false, Option, none, some, List, [], ◌∷◌, ◌++◌, map,
  length, get_elem?, split_top, traverse, ltb, ◌>>=◌, if◌then◌else◌,
}
use sqlite_ivm.Ir.StrOp
use sqlite_ivm.Ir.StrOp.{StrKind}
use sqlite_ivm.Ir.Syntax.{
  NodeId, ColId, Ty, Relation, Expr, StrMode, VecOp, Agg, Order, WinFn, Op, Program, type_inputs,
  rel,
}
use sqlite_ivm.Ir.ExprType.{expr_type}

abbrev pub column : List Ty → ColId → Option Ty
column cols c = get_elem? cols c

-- `project.iter().map(|c| cols.get(*c).copied()).collect()`; no columns means all of them.
pub projected : List Ty → List ColId → Option (List Ty)
projected cols [] = some cols
projected cols (c ∷ project) = traverse (column cols) (c ∷ project)

-- `for expr in map { cols.push(expr_type(expr, &cols)?) }`
pub mapped : List Expr → List Ty → Option (List Ty)
mapped [] cols = some cols
mapped (e ∷ es) cols = expr_type e cols >>= λ ty. mapped es (cols ++ ty ∷ [])

-- `for input in inputs { cols.extend(types_of(*input)?) }`
pub joined : (NodeId → Option (List Ty)) → List NodeId → List Ty → Option (List Ty)
joined types_of [] cols = some cols
joined types_of (input ∷ inputs) cols =
    types_of input >>= λ more. joined types_of inputs (cols ++ more)

pub agg_type : List Ty → Agg → Option Ty
agg_type cols (Agg.min c) = column cols c
agg_type cols (Agg.max c) = column cols c
agg_type cols Agg.count = some Ty.int
agg_type cols (Agg.sum c) =
    column cols c >>= elim [ Ty.real ↦ some Ty.real | Ty.any ↦ some Ty.any | _ ↦ some Ty.int ]

abbrev pub first_column : List Order → ColId
first_column [] = 0
first_column (o ∷ _) = o.col

pub win_type : List Ty → List Order → WinFn → Option Ty
win_type cols order (WinFn.sum c) = column cols c
win_type cols order (WinFn.lag _) = column cols (first_column order)
win_type cols order (WinFn.lead _) = column cols (first_column order)
win_type cols order _ = some Ty.int

abbrev pub str_cons_types : StrMode → List Ty
str_cons_types (StrMode.construct _ _) = Ty.id ∷ []
str_cons_types (StrMode.decompose _) = Ty.id ∷ Ty.id ∷ []

abbrev pub str_types : Option StrKind → List Ty
str_types (some StrKind.text) = Ty.id ∷ []
str_types (some StrKind.int) = Ty.int ∷ []
str_types none = []

abbrev pub vec_types : VecOp → List Ty
vec_types VecOp.build = Ty.id ∷ []
vec_types VecOp.iter = Ty.int ∷ Ty.id ∷ []
vec_types VecOp.len = Ty.int ∷ []
vec_types VecOp.get = Ty.id ∷ []

abbrev pub first_input : List NodeId → Option NodeId
first_input [] = none
first_input (n ∷ _) = some n

-- One node's column types from those of its type inputs.
unfoldable pub op_types : Program → Op → (NodeId → Option (List Ty)) → Option (List Ty)
unfolding projected mapped joined agg_type win_type
op_types p (Op.get r) types_of = rel p r >>= λ found. some found.cols
op_types p (Op.mint input _ _) types_of = types_of input >>= λ cols. some (cols ++ Ty.id ∷ [])
op_types p (Op.str_cons input mode) types_of =
    types_of input >>= λ cols. some (cols ++ str_cons_types mode)
op_types p (Op.str input op _) types_of =
    types_of input >>= λ cols. some (cols ++ str_types (StrOp.out op))
op_types p (Op.vec input op _) types_of = types_of input >>= λ cols. some (cols ++ vec_types op)
op_types p (Op.mfp input _ es project) types_of =
    types_of input >>= λ cols. mapped es cols >>= λ all. projected all project
op_types p (Op.union inputs) types_of = first_input inputs >>= types_of
op_types p (Op.negate input) types_of = types_of input
op_types p (Op.threshold input) types_of = types_of input
op_types p (Op.delay input) types_of = types_of input
op_types p (Op.join inputs _ project) types_of =
    joined types_of inputs [] >>= λ cols. projected cols project
op_types p (Op.antijoin l _ _ _) types_of = types_of l
op_types p (Op.reduce input key aggs) types_of = types_of input >>= λ cols.
    traverse (column cols) key >>= λ out.
    traverse (agg_type cols) aggs >>= λ more. some (out ++ more)
op_types p (Op.topk input _ _ _) types_of = types_of input
op_types p (Op.window input _ order func) types_of =
    types_of input >>= λ cols. win_type cols order func >>= λ ty. some (cols ++ ty ∷ [])

-- `done[base + inputs.iter().position(|x| *x == n)?].clone()`
abbrev pub typed_input : List NodeId → List (Option (List Ty)) → NodeId → Option (List Ty)
typed_input (x ∷ xs) (t ∷ ts) n = if x == n then t else typed_input xs ts n
typed_input _ _ n = none

pub data Step : Type 0 where
  enter : (node : NodeId) (depth : ℕ) → Step
  build : (node : NodeId) → Step

abbrev pub enters : ℕ → List NodeId → List Step
enters depth [] = []
enters depth (n ∷ ns) = Step.enter n depth ∷ enters depth ns

abbrev pub pop_types : List (Option (List Ty)) → Option (List Ty)
pop_types [] = none
pop_types (t ∷ _) = t

-- The stacks' tops come first.
unfoldable pub type_loop :
    Program → ℕ → List Step → List (Option (List Ty)) → Option (Option (List Ty))
type_loop p fuel [] done = some (pop_types done)
type_loop p zero (step ∷ steps) done = none
type_loop p (suc fuel) (Step.enter node depth ∷ steps) done = elim (ltb (length p.nodes) depth) [
  | true ↦ some none
  | false ↦ elim (get_elem? p.nodes node) [
    | none ↦ type_loop p fuel steps (none ∷ done)
    | some op ↦
        type_loop p fuel (enters (depth + 1) (type_inputs op) ++ Step.build node ∷ steps) done
  ]
]
type_loop p (suc fuel) (Step.build node ∷ steps) done = get_elem? p.nodes node >>= λ op.
    split_top (length (type_inputs op)) done >>= λ parts.
    type_loop p fuel steps (op_types p op (typed_input (type_inputs op) parts.0) ∷ parts.1)

unfoldable pub node_types_run : ℕ → Program → NodeId → Option (Option (List Ty))
node_types_run fuel p id = type_loop p fuel (Step.enter id 0 ∷ []) []

-- The steps that the loop takes on a node with `k` levels left.
abbrev pub sum_of : (NodeId → ℕ) → List NodeId → ℕ
sum_of f [] = 0
sum_of f (n ∷ ns) = f n + sum_of f ns

unfoldable pub cost : Program → ℕ → NodeId → ℕ
cost p zero node = 1
cost p (suc k) node = elim (get_elem? p.nodes node) [
  | none ↦ 1
  | some op ↦ 2 + sum_of (cost p k) (type_inputs op)
]

-- `node_types` with the fuel that its loop uses.
unfoldable pub node_types : Program → NodeId → Option (List Ty)
node_types p id = node_types_run (cost p (suc (length p.nodes)) id) p id >>= λ types. types
