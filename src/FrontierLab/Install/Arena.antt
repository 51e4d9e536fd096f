-- ===== src/FrontierLab/Install/Arena.antt =====
-- Nodes that fit together: each reads nodes before it, and columns that those nodes have.
use sqlite_ivm.Base.{
  ℕ, ◌+◌, ◌<◌, ◌≡◌, refl, Bool, Option, some, List, [], ◌∷◌, ◌++◌, length, get_elem?, All,
  length-append, arith,
}
use sqlite_ivm.FrontierLab.Types.{RelId}
use sqlite_ivm.FrontierLab.Storage.{NodeId, Node, Relation, Engine}
use sqlite_ivm.FrontierLab.Install.{one_if, is_some, option_list}

-- The arity of a node over the arities of the nodes before it.
pub data HasArity (e : Engine) (before : List ℕ) : Node → ℕ → Type 0 where
  scan :
      {id : RelId} {r : Relation}
      → get_elem? e.relations id ≡ some r
      → HasArity e before (Node.scan id) r.arity
  union :
      {inputs : List NodeId} {arity : ℕ} {counts : _}
      → All (λ i. get_elem? before i ≡ some arity) inputs
      → HasArity e before (Node.union inputs counts) arity
  join :
      {l r ol or a b : ℕ} {counts li ri : _}
      → get_elem? before l ≡ some a
      → get_elem? before r ≡ some b
      → ol < a
      → or < b
      → HasArity e before (Node.join l r ol or counts li ri) (a + b)
  aggregate :
      {i a : ℕ} {group_by : List ℕ} {count : Bool} {sum : Option ℕ} {groups : _}
      → get_elem? before i ≡ some a
      → All (λ column. column < a) (group_by ++ option_list sum)
      → HasArity e before
          (Node.aggregate i group_by count sum groups)
          (length group_by + one_if count + one_if (is_some sum))
  project :
      {i a : ℕ} {columns : List ℕ} {counts : _}
      → get_elem? before i ≡ some a
      → All (λ column. column < a) columns
      → HasArity e before (Node.project i columns counts) (length columns)

-- A program's nodes, with the arity of each.
pub data Arena (e : Engine) : List ℕ → List Node → Type 0 where
  none_yet : Arena e [] []
  next :
      {arities : List ℕ} {nodes : List Node} {node : Node} {arity : ℕ}
      → Arena e arities nodes
      → HasArity e arities node arity
      → Arena e (arities ++ arity ∷ []) (nodes ++ node ∷ [])

pub Arena-length :
    {e : Engine} {arities : List ℕ} {nodes : List Node}
    → Arena e arities nodes
    → length arities ≡ length nodes
Arena-length Arena.none_yet = refl
Arena-length (Arena.next {arities} {nodes} a h) =
    rw (length-append, length-append) (omega (arith, Arena-length a))
