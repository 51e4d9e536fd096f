-- ===== src/Ir/NodeTypes/Acyclic.antt =====
-- In a program whose nodes read earlier nodes, every node is typed from the types of its inputs.
use Prim.Native.Nat.{min as smaller}
use sqlite_ivm.Base.{
  ℕ, zero, suc, ◌≤◌, ◌<◌, ◌≡◌, ◌==◌, nat_eq, refl, sym, ap, ◌∙◌, inl, inr, Option, none, some, List,
  [], ◌∷◌, ◌++◌, map, length, All, All-map, beq_refl, subst, get_elem?, get_elem?-lt, traverse,
  Bool-cases, Option-cases, ◌>>=◌, if◌then◌else◌, arith,
}
use sqlite_ivm.Ir.Syntax.{NodeId, Ty, Op, Program, type_inputs}
use sqlite_ivm.Ir.NodeTypes.{op_types, joined, typed_input, node_types}
use sqlite_ivm.Ir.NodeTypes.Loop.{types_at, types_at_found, types_at_missing, node_types-types_at}

-- Every node reads nodes before it.
abbrev pub IsOrdered : Program → Type 0
IsOrdered p =
    (id : NodeId) (op : Op) → get_elem? p.nodes id ≡ some op → All (λ n. n < id) (type_inputs op)

joined_congr :
    (f g : NodeId → Option (List Ty)) (inputs : List NodeId) (cols : List Ty)
    → All (λ n. f n ≡ g n) inputs
    → joined f inputs cols ≡ joined g inputs cols
unfolding joined
joined_congr f g [] cols h = refl
joined_congr f g (n ∷ ns) cols h =
    rw h.0
      (elim (g n)
        as (λ t.
          (t >>= λ more. joined f ns (cols ++ more)) ≡ (t >>= λ more. joined g ns (cols ++ more))) [
            | none ↦ refl
            | some more ↦ joined_congr f g ns (cols ++ more) h.1
          ])

union_inputs : (n : NodeId) (ns : List NodeId) → type_inputs (Op.union (n ∷ ns)) ≡ n ∷ []
unfolding type_inputs
union_inputs n ns = let least : smaller (suc (length ns)) 1 ≡ 1 = omega arith in rw least

-- `op_types` reads the types of the type inputs only.
op_types_congr :
    (p : Program) (op : Op) (f g : NodeId → Option (List Ty))
    → All (λ n. f n ≡ g n) (type_inputs op)
    → op_types p op f ≡ op_types p op g
unfolding op_types type_inputs
op_types_congr p (Op.union []) f g h = refl
op_types_congr p (Op.union (n ∷ ns)) f g h = (subst (All (λ m. f m ≡ g m)) (union_inputs n ns) h).0
op_types_congr p (Op.join inputs eqs project) f g h = rw (joined_congr f g inputs [] h)
op_types_congr p (Op.get r) f g h = refl
op_types_congr p _ f g h = rw h.0

typed_input-map :
    (f : NodeId → Option (List Ty)) (inputs : List NodeId)
    → All (λ n. typed_input inputs (map f inputs) n ≡ f n) inputs
typed_input-map f [] = tt
typed_input-map f (x ∷ xs) = (rw beq_refl, All-map xs later (typed_input-map f xs))
  where
    later :
        (n : NodeId)
        → typed_input xs (map f xs) n ≡ f n
        → (if x == n then f x else typed_input xs (map f xs) n) ≡ f n
    later n h = elim (Bool-cases (x == n)) [
      | inl same ↦ rw same (ap f ((nat_eq.test_iff x n).0 same))
      | inr other ↦ rw other h
    ]

traverse-some :
    (f : NodeId → Option (Option (List Ty))) (g : NodeId → Option (List Ty)) (inputs : List NodeId)
    → All (λ n. f n ≡ some (g n)) inputs
    → traverse f inputs ≡ some (map g inputs)
unfolding traverse
traverse-some f g [] h = refl
traverse-some f g (n ∷ ns) h = rw (h.0, traverse-some f g ns h.1)

settled : Program → NodeId → Option (List Ty)
settled p id = types_at p (suc id) id >>= λ types. types

-- A node is typed from the settled types of its inputs as soon as those are found.
types_at_inputs :
    (p : Program) (k : ℕ) (id : NodeId) (op : Op)
    → get_elem? p.nodes id ≡ some op
    → All (λ n. types_at p k n ≡ some (settled p n)) (type_inputs op)
    → types_at p (suc k) id ≡ some (op_types p op (settled p))
types_at_inputs p k id op e inputs =
    types_at_found p k id op e
    ∙ rw (traverse-some (types_at p k) (settled p) (type_inputs op) inputs)
        (ap some (op_types_congr p op _ (settled p) (typed_input-map (settled p) (type_inputs op))))

module _ (p : Program) (ordered : IsOrdered p) where
  -- With more levels than its id, a node has its settled types.
  types_at-settled : (bound id k : ℕ) → id < bound → id < k → types_at p k id ≡ some (settled p id)
  unfolding settled
  types_at-settled zero id k small deep = elim small [ ]
  types_at-settled (suc bound) id zero small deep = elim deep [ ]
  types_at-settled (suc bound) id (suc k) small deep = elim (Option-cases (get_elem? p.nodes id)) [
    | inl e ↦ types_at_missing p k id e ∙ rw (types_at_missing p id id e)
    | inr (op, e) ↦
        let at_k = types_at_inputs p k id op e (
          All-map (type_inputs op) (λ n h. types_at-settled bound n k (omega arith) (omega arith))
            (ordered id op e)) in
        let at_id = types_at_inputs p id id op e (
          All-map (type_inputs op) (λ n h. types_at-settled bound n id (omega arith) (omega arith))
            (ordered id op e)) in
        at_k ∙ rw at_id
  ]

  node_types-settled : (id : NodeId) → id ≤ length p.nodes → node_types p id ≡ settled p id
  node_types-settled id h =
      node_types-types_at p id
      ∙ rw (types_at-settled (suc id) id (suc (length p.nodes)) (omega arith) (omega arith))

  settled-op_types :
      (id : NodeId) (op : Op)
      → get_elem? p.nodes id ≡ some op
      → settled p id ≡ op_types p op (settled p)
  unfolding settled
  settled-op_types id op e = rw (
      types_at_inputs p id id op e (
        All-map (type_inputs op) (λ n h. types_at-settled (suc n) n id (omega arith) h)
          (ordered id op e)))

  -- In a program whose nodes read only nodes before them, the types of a node are those that its
  -- operation gives at the types of its inputs.
  pub node_types-op_types :
      (id : NodeId) {op : Op}
      → get_elem? p.nodes id ≡ some op
      → node_types p id ≡ op_types p op (node_types p)
  node_types-op_types id {op} e =
      let small : id < length p.nodes = get_elem?-lt p.nodes id e in
      node_types-settled id (omega arith)
      ∙ settled-op_types id op e
      ∙ op_types_congr p op (settled p) (node_types p) (
          All-map (type_inputs op) (λ n h. sym (node_types-settled n (omega arith)))
            (ordered id op e))
