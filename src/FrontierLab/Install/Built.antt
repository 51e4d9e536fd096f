-- ===== src/FrontierLab/Install/Built.antt =====
-- The nodes that `build_node` makes of a plan that has an arity fit together.
use sqlite_ivm.Base.{
  ℕ, ◌+◌, ◌<◌, ◌≡◌, refl, sym, ap, subst, ◌∙◌, Option, none, some, List, [], ◌∷◌, ◌++◌, get_elem?,
  All, get_elem?-append_last, nat_eq, arith,
}
use sqlite_ivm.Ir.Syntax.{Text}
use sqlite_ivm.FrontierLab.Types.{RelId, PlanNode, PlanNodes, Stage, Outcome, and_then}
use sqlite_ivm.FrontierLab.Storage.{NodeId, Node, Relation, Engine, or_unknown, relation}
use sqlite_ivm.FrontierLab.Source.Slots.{get_elem?-append_some}
use sqlite_ivm.FrontierLab.Install.{
  same_arity, or_zero_arity, node_arity, union_arity, max_of, below_arity, option_list, supported,
  push_node, in_output, Built, build_node, build_inputs,
}
use sqlite_ivm.FrontierLab.Install.Arena.{HasArity, Arena, Arena-length}

pub and_then_ok :
    {A B : Type 0} (m : Outcome A) (f : A → Outcome B) {b : B}
    → and_then m f ≡ Outcome.ok b
    → (a : A) × (m ≡ Outcome.ok a) × (f a ≡ Outcome.ok b)
and_then_ok (Outcome.ok a) f h = (a, refl, h)
and_then_ok (Outcome.err x) f h = cc
and_then_ok Outcome.panic f h = cc

pub ok_injective : {A : Type 0} {a b : A} → Outcome.ok a ≡ Outcome.ok b → a ≡ b
ok_injective h = cc

pub in_output_ok :
    (name : Text) (m : Outcome Built) {b : Built}
    → in_output name m ≡ Outcome.ok b
    → m ≡ Outcome.ok b
in_output_ok name (Outcome.ok a) h = h
in_output_ok name (Outcome.err x) h = cc
in_output_ok name Outcome.panic h = cc

below_arity_lt :
    (column arity : ℕ) {u : Unit} → below_arity column arity ≡ Outcome.ok u → column < arity
below_arity_lt column arity h = ground arith

max_of-All : (xs : List ℕ) (a : ℕ) → max_of xs < a → All (λ x. x < a) xs
max_of-All [] a h = tt
max_of-All (x ∷ xs) a h = (first, max_of-All xs a rest)
  where
    first : x < a
    first = ground arith

    rest : max_of xs < a
    rest = ground arith

relation_at :
    (e : Engine) (id : RelId) (stage : Stage) {r : Relation}
    → relation e id stage ≡ Outcome.ok r
    → get_elem? e.relations id ≡ some r
unfolding relation
relation_at e id stage h = go (get_elem? e.relations id) h
  where
    go : (o : Option Relation) {r : Relation} → or_unknown id stage o ≡ Outcome.ok r → o ≡ some r
    go none h = cc
    go (some r) h = cc

-- The earlier nodes keep their arities.
abbrev pub Extends : List ℕ → List ℕ → Type 0
Extends arities all = (i k : ℕ) → get_elem? arities i ≡ some k → get_elem? all i ≡ some k

-- What a build leaves: nodes that fit, the earlier ones among them, and one of an arity.
abbrev pub Fits : Engine → List ℕ → ℕ → Built → Type 0
Fits e arities arity b =
    (all : List ℕ) × Extends arities all × Arena e all b.1 × (get_elem? all b.0 ≡ some arity)

abbrev pub FitsAll : Engine → List ℕ → ℕ → List NodeId × List Node × List RelId → Type 0
FitsAll e arities arity b =
    (all : List ℕ) × Extends arities all
    × Arena e all b.1
    × All (λ i. get_elem? all i ≡ some arity) b.0

pushed :
    (e : Engine) (arities all : List ℕ) (nodes : List Node) (node : Node) (arity : ℕ)
    (deps : List RelId) {b : Built}
    → Extends arities all
    → Arena e all nodes
    → HasArity e all node arity
    → push_node node nodes deps ≡ Outcome.ok b
    → Fits e arities arity b
pushed e arities all nodes node arity deps x a h built =
    subst (Fits e arities arity) (ok_injective built) (
      all ++ arity ∷ [],
      (λ i k at. get_elem?-append_some all (arity ∷ []) i (x i k at)),
      Arena.next a h,
      subst (λ n. get_elem? (all ++ arity ∷ []) n ≡ some arity) (Arena-length a)
          (get_elem?-append_last all arity),
    )

-- Every input of a union has an arity.
abbrev pub AllArity : Engine → ℕ → PlanNodes → Type 0
AllArity e arity PlanNodes.nil = Unit
AllArity e arity (PlanNodes.cons p ps) = (node_arity e p ≡ Outcome.ok arity) × AllArity e arity ps

same_arity_eq :
    (k c : ℕ) {o : Option ℕ} → same_arity (some k) c ≡ Outcome.ok o → (c ≡ k) × (o ≡ some k)
same_arity_eq k c h = ground arith

union_arity_rest :
    (e : Engine) (k : ℕ) (inputs : PlanNodes) {o : Option ℕ}
    → union_arity e (some k) inputs ≡ Outcome.ok o
    → (o ≡ some k) × AllArity e k inputs
unfolding union_arity
union_arity_rest e k PlanNodes.nil h = (sym (ok_injective h), tt)
union_arity_rest e k (PlanNodes.cons p ps) {o} h =
    let (c, arity, more) = and_then_ok (node_arity e p) _ h in
    let (p2, same, last) =
      and_then_ok (same_arity (some k) c) (λ next. union_arity e next ps) more in
    let (is, next) = same_arity_eq k c same in
    let (whole, rest) =
      union_arity_rest e k ps (subst (λ n. union_arity e n ps ≡ Outcome.ok o) next last) in
    (whole, (arity ∙ ap Outcome.ok is, rest))

union_arity_all :
    (e : Engine) (inputs : PlanNodes) {k : ℕ}
    → node_arity e (PlanNode.union inputs) ≡ Outcome.ok k
    → AllArity e k inputs
unfolding node_arity union_arity
union_arity_all e PlanNodes.nil h = tt
union_arity_all e (PlanNodes.cons p ps) {k} h =
    let (o, arities, is) =
      and_then_ok (union_arity e none (PlanNodes.cons p ps))
        (λ arity. Outcome.ok (or_zero_arity arity)) h in
    let (c, arity, more) = and_then_ok (node_arity e p) _ arities in
    let (whole, rest) = union_arity_rest e c ps more in
    let same : c ≡ k = ap or_zero_arity (sym whole) ∙ ok_injective is in
    subst (λ n. (node_arity e p ≡ Outcome.ok n) × AllArity e n ps) same (arity, rest)

mutual
  unfolding build_node build_inputs node_arity

  pub build_node-Fits :
      (e : Engine) (plan : PlanNode) (nodes : List Node) (deps : List RelId) (arities : List ℕ)
      (k : ℕ) (b : Built)
      → Arena e arities nodes
      → node_arity e plan ≡ Outcome.ok k
      → build_node e plan nodes deps ≡ Outcome.ok b
      → Fits e arities k b
  build_node-Fits e (PlanNode.scan id) nodes deps arities k b a n h =
      let (r, found, pushes) = and_then_ok (relation e id Stage.install) _ h in
      let (q, again, is) = and_then_ok (relation e id Stage.install) (λ r. Outcome.ok r.arity) n in
      subst (λ m. Fits e arities m b) (ok_injective is)
        (pushed e arities arities nodes (Node.scan id) q.arity _ (λ i k at. at) a
          (HasArity.scan (relation_at e id Stage.install again)) pushes)
  build_node-Fits e (PlanNode.union inputs) nodes deps arities k b a n h =
      let (c, built, pushes) = and_then_ok (build_inputs e inputs nodes deps) _ h in
      let (all, x, arena, at) =
        build_inputs-FitsAll e inputs nodes deps arities k c a (union_arity_all e inputs n) built in
      pushed e arities all c.1 (Node.union c.0 []) k c.2 x arena (HasArity.union at) pushes
  build_node-Fits e (PlanNode.join left right on_left on_right) nodes deps arities k b a n h =
      let (la, left_arity, h1) = and_then_ok (node_arity e left) _ h in
      let (ra, right_arity, h2) = and_then_ok (node_arity e right) _ h1 in
      let (u, left_below, h3) = and_then_ok (below_arity on_left la) _ h2 in
      let (v, right_below, h4) = and_then_ok (below_arity on_right ra) _ h3 in
      let (l, left_built, h5) = and_then_ok (build_node e left nodes deps) _ h4 in
      let (r, right_built, pushes) = and_then_ok (build_node e right l.1 l.2) _ h5 in
      let (la2, left_again, n1) = and_then_ok (node_arity e left) _ n in
      let (ra2, right_again, is) =
        and_then_ok (node_arity e right) (λ r. Outcome.ok (la2 + r)) n1 in
      let same_left : la2 ≡ la = ok_injective (sym left_again ∙ left_arity) in
      let same_right : ra2 ≡ ra = ok_injective (sym right_again ∙ right_arity) in
      let (all1, x1, arena1, at1) =
        build_node-Fits e left nodes deps arities la l a left_arity left_built in
      let (all2, x2, arena2, at2) =
        build_node-Fits e right l.1 l.2 all1 ra r arena1 right_arity right_built in
      subst (λ m. Fits e arities m b)
        (ap (λ m. la + m) (sym same_right) ∙ ap (λ m. m + ra2) (sym same_left) ∙ ok_injective is)
        (pushed e arities all2 r.1 (Node.join l.0 r.0 on_left on_right [] [] []) (la + ra) r.2
          (λ i k at. x2 i k (x1 i k at)) arena2
          (HasArity.join (x2 l.0 la at1) at2 (below_arity_lt on_left la left_below)
            (below_arity_lt on_right ra right_below))
          pushes)
  build_node-Fits e (PlanNode.aggregate input group_by count sum) nodes deps arities k b a n h =
      let (u, shape, h1) = and_then_ok (supported group_by count sum) _ h in
      let (ia, arity, h2) = and_then_ok (node_arity e input) _ h1 in
      let (v, below, h3) =
        and_then_ok (below_arity (max_of (group_by ++ option_list sum)) ia) _ h2 in
      let (c, built, pushes) = and_then_ok (build_node e input nodes deps) _ h3 in
      let (all, x, arena, at) = build_node-Fits e input nodes deps arities ia c a arity built in
      subst (λ m. Fits e arities m b) (ok_injective n)
        (pushed e arities all c.1 (Node.aggregate c.0 group_by count sum []) _ c.2 x arena
          (HasArity.aggregate at
            (max_of-All (group_by ++ option_list sum) ia (below_arity_lt _ ia below)))
          pushes)
  build_node-Fits e (PlanNode.project input columns) nodes deps arities k b a n h =
      let (ia, arity, h1) = and_then_ok (node_arity e input) _ h in
      let (v, below, h2) = and_then_ok (below_arity (max_of columns) ia) _ h1 in
      let (c, built, pushes) = and_then_ok (build_node e input nodes deps) _ h2 in
      let (all, x, arena, at) = build_node-Fits e input nodes deps arities ia c a arity built in
      subst (λ m. Fits e arities m b) (ok_injective n)
        (pushed e arities all c.1 (Node.project c.0 columns []) _ c.2 x arena
          (HasArity.project at (max_of-All columns ia (below_arity_lt _ ia below))) pushes)
  build_node-Fits e (PlanNode.difference _ _) nodes deps arities k b a n h = cc

  build_inputs-FitsAll :
      (e : Engine) (inputs : PlanNodes) (nodes : List Node) (deps : List RelId) (arities : List ℕ)
      (k : ℕ) (b : List NodeId × List Node × List RelId)
      → Arena e arities nodes
      → AllArity e k inputs
      → build_inputs e inputs nodes deps ≡ Outcome.ok b
      → FitsAll e arities k b
  build_inputs-FitsAll e PlanNodes.nil nodes deps arities k b a n h =
      subst (FitsAll e arities k) (ok_injective h) (arities, (λ i k at. at), a, tt)
  build_inputs-FitsAll e (PlanNodes.cons input inputs) nodes deps arities k b a n h =
      let (c, built, h1) = and_then_ok (build_node e input nodes deps) _ h in
      let (rest, more, whole) = and_then_ok (build_inputs e inputs c.1 c.2) _ h1 in
      let (all1, x1, arena1, at1) = build_node-Fits e input nodes deps arities k c a n.0 built in
      let (all2, x2, arena2, at2) =
        build_inputs-FitsAll e inputs c.1 c.2 all1 k rest arena1 n.1 more in
      subst (FitsAll e arities k) (ok_injective whole)
        (all2, (λ i k at. x2 i k (x1 i k at)), arena2, (x2 c.0 k at1, at2))
