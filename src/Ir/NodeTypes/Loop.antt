-- ===== src/Ir/NodeTypes/Loop.antt =====
-- The loop of `node_types` computes the types by recursion on the depth.
use native.Mathlib.Nat.{add_assoc, zero-add}
use sqlite_ivm.Base.{
  ℕ, zero, suc, ◌+◌, ◌-◌, ◌≤◌, ◌≡◌, refl, ◌∙◌, true, false, inl, inr, Option, none, some, List, [],
  ◌∷◌, ◌++◌, reverse, length, get_elem?, split_top-reverse, traverse, length-traverse,
  reverse-cons-append, Option-cases, ltb, ◌>>=◌, arith,
}
use sqlite_ivm.Ir.Syntax.{NodeId, Ty, Op, Program, type_inputs}
use sqlite_ivm.Ir.NodeTypes.{
  op_types, typed_input, sum_of, cost, node_types, Step, enters, type_loop, node_types_run,
}

one-add : (n : ℕ) → 1 + n ≡ suc n
one-add n = omega arith

two-add : (m n : ℕ) → 2 + m + n ≡ suc (m + suc n)
two-add m n = omega arith

module _ (p : Program) where
  -- The types with `k` levels left; `none` is the code's return where the levels are used up.
  unfoldable pub types_at : ℕ → NodeId → Option (Option (List Ty))
  types_at zero node = none
  types_at (suc k) node = elim (get_elem? p.nodes node) [
    | none ↦ some none
    | some op ↦ traverse (types_at k) (type_inputs op) >>= λ ts.
        some (op_types p op (typed_input (type_inputs op) ts))
  ]

  -- What the loop goes on to once a node's types are known.
  abbrev resume :
      ℕ
      → List Step
      → List (Option (List Ty))
      → Option (Option (List Ty))
      → Option (Option (List Ty))
  resume n steps done none = some none
  resume n steps done (some t) = type_loop p n steps (t ∷ done)

  abbrev resume_all :
      ℕ
      → List Step
      → List (Option (List Ty))
      → Option (List (Option (List Ty)))
      → Option (Option (List Ty))
  resume_all n steps done none = some none
  resume_all n steps done (some ts) = type_loop p n steps (reverse ts ++ done)

  Enters : ℕ → ℕ → NodeId → Type 0
  Enters k depth node =
      (n : ℕ) (steps : List Step) (done : List (Option (List Ty)))
      → type_loop p (cost p k node + n) (Step.enter node depth ∷ steps) done
        ≡ resume n steps done (types_at k node)

  too_deep :
      (n depth : ℕ) (node : NodeId) (steps : List Step) (done : List (Option (List Ty)))
      → ltb (length p.nodes) depth ≡ true
      → type_loop p (suc n) (Step.enter node depth ∷ steps) done ≡ some none
  unfolding type_loop
  too_deep n depth node steps done deep = rw (deep, type_loop)

  module _ (k : ℕ) (node : NodeId) (e : get_elem? p.nodes node ≡ none) where
    cost_missing : cost p (suc k) node ≡ 1
    unfolding cost
    cost_missing = rw (e, cost)

    pub types_at_missing : types_at (suc k) node ≡ some none
    unfolding types_at
    types_at_missing = rw (e, types_at)

    missing :
        (n depth : ℕ) (steps : List Step) (done : List (Option (List Ty)))
        → ltb (length p.nodes) depth ≡ false
        → type_loop p (cost p (suc k) node + n) (Step.enter node depth ∷ steps) done
          ≡ resume n steps done (types_at (suc k) node)
    unfolding type_loop
    missing n depth steps done shallow =
        rw (cost_missing, types_at_missing, one-add) (rw (shallow, e, type_loop))

  built :
      (n : ℕ) (node : NodeId) (op : Op) (steps : List Step) (ts done : List (Option (List Ty)))
      → get_elem? p.nodes node ≡ some op
      → length ts ≡ length (type_inputs op)
      → type_loop p (suc n) (Step.build node ∷ steps) (reverse ts ++ done)
        ≡ type_loop p n steps (op_types p op (typed_input (type_inputs op) ts) ∷ done)
  unfolding type_loop
  built n node op steps ts done e len = rw (e, ← len, split_top-reverse)

  enter_all :
      (k depth : ℕ) (nodes : List NodeId)
      → ((node : NodeId) → Enters k depth node)
      → (n : ℕ) (steps : List Step) (done : List (Option (List Ty)))
      → type_loop p (sum_of (cost p k) nodes + n) (enters depth nodes ++ steps) done
        ≡ resume_all n steps done (traverse (types_at k) nodes)
  unfolding Enters traverse
  enter_all k depth [] one n steps done = rw zero-add
  enter_all k depth (node ∷ nodes) one n steps done =
      rw add_assoc (one node (sum_of (cost p k) nodes + n) (enters depth nodes ++ steps) done)
      ∙ elim (types_at k node)
          as (λ t.
            resume (sum_of (cost p k) nodes + n) (enters depth nodes ++ steps) done t
            ≡ resume_all n steps done
                (t >>= λ y. traverse (types_at k) nodes >>= λ ys. some (y ∷ ys))) [
                  | none ↦ refl
                  | some t ↦
                      enter_all k depth nodes one n steps (t ∷ done)
                      ∙ elim (traverse (types_at k) nodes)
                          as (λ ts.
                            resume_all n steps (t ∷ done) ts
                            ≡ resume_all n steps done (ts >>= λ ys. some (t ∷ ys))) [
                              | none ↦ refl
                              | some ts ↦ rw reverse-cons-append
                            ]
                ]

  module _ (k : ℕ) (node : NodeId) (op : Op) (e : get_elem? p.nodes node ≡ some op) where
    cost_found : cost p (suc k) node ≡ 2 + sum_of (cost p k) (type_inputs op)
    unfolding cost
    cost_found = rw (e, cost)

    pub types_at_found : types_at (suc k) node ≡ (
        traverse (types_at k) (type_inputs op) >>= λ ts.
        some (op_types p op (typed_input (type_inputs op) ts)))
    unfolding types_at
    types_at_found = rw (e, types_at)

    found :
        (n depth : ℕ) (steps : List Step) (done : List (Option (List Ty)))
        → ltb (length p.nodes) depth ≡ false
        → ((input : NodeId) → Enters k (depth + 1) input)
        → type_loop p (cost p (suc k) node + n) (Step.enter node depth ∷ steps) done
          ≡ resume n steps done (types_at (suc k) node)
    unfolding type_loop
    found n depth steps done shallow inner =
        rw (cost_found, types_at_found, two-add)
          (rw (shallow, e, type_loop)
            (enter_all k (depth + 1) (type_inputs op) inner (suc n) (Step.build node ∷ steps) done
              ∙ elim (Option-cases (traverse (types_at k) (type_inputs op))) [
                | inl t ↦ rw t
                | inr (ts, t) ↦ rw t (
                    built n node op steps ts done e
                      (length-traverse (types_at k) (type_inputs op) t))
              ]))

  enter_one : (k depth : ℕ) (node : NodeId) → depth + k ≡ suc (length p.nodes) → Enters k depth node
  unfolding Enters types_at cost
  enter_one zero depth node h n steps done =
      rw one-add (too_deep n depth node steps done (ground arith))
  enter_one (suc k) depth node h n steps done = elim (Option-cases (get_elem? p.nodes node)) [
    | inl e ↦ missing k node e n depth steps done (ground arith)
    | inr (op, e) ↦
        found k node op e n depth steps done (ground arith)
          (λ input. enter_one k (depth + 1) input (omega arith))
  ]

  -- With as much fuel as `cost` counts, the loop of `node_types` ends and gives the types by recursion
  -- on the depth, none where the inputs lead deeper than there are nodes.
  pub node_types_run-types_at :
      (id : NodeId) (fuel : ℕ)
      → cost p (suc (length p.nodes)) id ≤ fuel
      → node_types_run fuel p id ≡ some (types_at (suc (length p.nodes)) id >>= λ types. types)
  unfolding node_types_run Enters type_loop
  node_types_run-types_at id fuel h = rw enough (
      enter_one (suc (length p.nodes)) 0 id (omega arith) (fuel - cost p (suc (length p.nodes)) id)
        [] []
      ∙ ended (types_at (suc (length p.nodes)) id))
    where
      enough : fuel ≡ cost p (suc (length p.nodes)) id + (fuel - cost p (suc (length p.nodes)) id)
      enough = omega arith

      ended :
          (t : Option (Option (List Ty)))
          → resume (fuel - cost p (suc (length p.nodes)) id) [] [] t ≡ some (t >>= λ types. types)
      ended none = refl
      ended (some t) = refl

  pub node_types-types_at :
      (id : NodeId) → node_types p id ≡ (types_at (suc (length p.nodes)) id >>= λ types. types)
  unfolding node_types
  node_types-types_at id =
      rw (node_types_run-types_at id (cost p (suc (length p.nodes)) id) (omega arith))
