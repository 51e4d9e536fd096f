-- ===== src/FrontierLab/Install/Installed.antt =====
-- What `install` leaves.
use sqlite_ivm.Base.{
  ℕ, zero, suc, ◌<◌, ◌≡◌, refl, sym, ap, subst, ◌∙◌, Bool-cases, true, false, contains, nat_eqb_iff,
  if◌then◌else◌, inl, inr, Option, none, some, List, [], ◌∷◌, ◌++◌, length, get_elem?, set, map,
  lt→ltb, nat_eq, beq_refl, ◌==◌, ◌>>=◌, length-append, length-set, arith,
}
use sqlite_ivm.FrontierLab.Types.{RelId, ProgramId, OutputDecl, Program, Outcome}
use sqlite_ivm.FrontierLab.Storage.{
  Node, arrangement_count, OutputState, ProgramState, Engine, installed,
}
use sqlite_ivm.FrontierLab.Source.Slots.{get_elem?-set_ne}
use sqlite_ivm.FrontierLab.Install.{
  node_arity, build_node, in_output, build_outputs, sum_of, with_slot, with_next, install_built,
  install,
}
use sqlite_ivm.FrontierLab.Install.Arena.{Arena}
use sqlite_ivm.FrontierLab.Install.Represents.{OutputsRepresent, build_outputs-OutputsRepresent}
use sqlite_ivm.FrontierLab.Install.Depends.{scanned, build_outputs-DependsOn}
use sqlite_ivm.FrontierLab.Install.Built.{
  in_output_ok, and_then_ok, ok_injective, Extends, build_node-Fits,
}

-- The arities of a program's outputs, and of the nodes they are read from.
abbrev pub HasArities : Engine → List OutputDecl → List ℕ → Type 0
HasArities e [] [] = Unit
HasArities e [] (k ∷ ks) = ⊥
HasArities e (o ∷ outputs) [] = ⊥
HasArities e (o ∷ outputs) (k ∷ ks) = (node_arity e o.plan ≡ Outcome.ok k) × HasArities e outputs ks

abbrev pub RootsFit : List ℕ → List OutputState → List ℕ → Type 0
RootsFit all [] [] = Unit
RootsFit all [] (k ∷ ks) = ⊥
RootsFit all (o ∷ outputs) [] = ⊥
RootsFit all (o ∷ outputs) (k ∷ ks) = (get_elem? all o.root ≡ some k) × RootsFit all outputs ks

RootsFit-mono :
    (few all : List ℕ) (outputs : List OutputState) (ks : List ℕ)
    → Extends few all
    → RootsFit few outputs ks
    → RootsFit all outputs ks
RootsFit-mono few all [] [] x h = tt
RootsFit-mono few all [] (k ∷ ks) x h = h
RootsFit-mono few all (o ∷ outputs) [] x h = h
RootsFit-mono few all (o ∷ outputs) (k ∷ ks) x h =
    (x o.root k h.0, RootsFit-mono few all outputs ks x h.1)

build_outputs-RootsFit :
    (e : Engine) (outputs : List OutputDecl) (ks : List ℕ) (nodes : List Node) (deps : List RelId)
    (arities : List ℕ) (b : List OutputState × List Node × List RelId)
    → Arena e arities nodes
    → HasArities e outputs ks
    → build_outputs e outputs nodes deps ≡ Outcome.ok b
    → (all : List ℕ) × Extends arities all × Arena e all b.1 × RootsFit all b.0 ks
unfolding build_outputs
build_outputs-RootsFit e [] [] nodes deps arities b a n h =
    subst (λ b. (all : List ℕ) × Extends arities all × Arena e all b.1 × RootsFit all b.0 [])
      (ok_injective h) (arities, (λ i k at. at), a, tt)
build_outputs-RootsFit e [] (k ∷ ks) nodes deps arities b a n h = absurd n
build_outputs-RootsFit e (o ∷ outputs) [] nodes deps arities b a n h = absurd n
build_outputs-RootsFit e (o ∷ outputs) (k ∷ ks) nodes deps arities b a n h =
    let (c, built, more) = and_then_ok (in_output o.name (build_node e o.plan nodes deps)) _ h in
    let (rest, others, whole) = and_then_ok (build_outputs e outputs c.1 c.2) _ more in
    let (all1, x1, arena1, at1) =
      build_node-Fits e o.plan nodes deps arities k c a n.0
        (in_output_ok o.name (build_node e o.plan nodes deps) built) in
    let (all2, x2, arena2, fit) =
      build_outputs-RootsFit e outputs ks c.1 c.2 all1 rest arena1 n.1 others in
    subst (λ b. (all : List ℕ) × Extends arities all × Arena e all b.1 × RootsFit all b.0 (k ∷ ks))
      (ok_injective whole) (all2, (λ i j at. x2 i j (x1 i j at)), arena2, (x2 c.0 k at1, fit))

get_elem?-set_lt :
    {A : Type 0} (xs : List A) (i : ℕ) (a : A) → i < length xs → get_elem? (set xs i a) i ≡ some a
get_elem?-set_lt [] i a h = absurd (omega (arith, h))
get_elem?-set_lt (x ∷ xs) zero a h = refl
get_elem?-set_lt (x ∷ xs) (suc i) a h = get_elem?-set_lt xs i a (omega (arith, h))

abbrev pub program_of : List OutputState × List Node × List RelId → ProgramState
program_of b = record {
  nodes = b.1;
  outputs = b.0;
  dependencies = b.2;
  operators = length b.1;
  arrangements = sum_of (map arrangement_count b.1);
}

-- Where there is a slot for every program id handed out, the new one has a slot.
slot_lt :
    (id : ℕ) (programs : List (Option ProgramState))
    → length programs ≡ id
    → length (with_slot id programs) ≡ suc id
slot_lt id programs h = rw h (rw (beq_refl id) (rw length-append (omega (arith, h))))

-- The engine after an installation.
abbrev pub with_program : ProgramState → Engine → Engine
with_program state e = record (with_next e) {
  programs = set (with_next e).programs e.next_program (some state);
}

install_outputs :
    (p : Program) (e : Engine) (b : List OutputState × List Node × List RelId)
    → length e.programs ≡ e.next_program
    → build_outputs e p.outputs [] [] ≡ Outcome.ok b
    → install p e ≡ (with_program (program_of b) e, Outcome.ok e.next_program)
unfolding install
install_outputs p e b size h =
    ap (λ o. install_built o e) h
    ∙ rw (lt→ltb e.next_program (length (with_slot e.next_program e.programs)) room) refl
  where
    room : e.next_program < length (with_slot e.next_program e.programs)
    room = omega (arith, slot_lt e.next_program e.programs size)

installed-append_none :
    (xs : List (Option ProgramState)) (i : ℕ) → installed (xs ++ none ∷ []) i ≡ installed xs i
installed-append_none [] zero = refl
installed-append_none [] (suc i) = refl
installed-append_none (x ∷ xs) zero = refl
installed-append_none (x ∷ xs) (suc i) = installed-append_none xs i

installed-with_slot :
    (id : ℕ) (xs : List (Option ProgramState)) (i : ℕ)
    → installed (with_slot id xs) i ≡ installed xs i
installed-with_slot id xs i = elim (Bool-cases (length xs == id)) [
  | inl same ↦ rw same (installed-append_none xs i)
  | inr other ↦ rw other refl
]

-- The outputs were built, where an installation succeeded.
built_of :
    (p : Program) (e after : Engine) (id : ProgramId)
    → install p e ≡ (after, Outcome.ok id)
    → (b : List OutputState × List Node × List RelId) × (build_outputs e p.outputs [] []
        ≡ Outcome.ok b)
unfolding install
built_of p e after id h = go (build_outputs e p.outputs [] []) h
  where
    go :
        (o : Outcome (List OutputState × List Node × List RelId))
        → install_built o e ≡ (after, Outcome.ok id)
        → (b : List OutputState × List Node × List RelId) × (o ≡ Outcome.ok b)
    go (Outcome.ok b) k = (b, refl)
    go (Outcome.err x) k = cc
    go Outcome.panic k = cc

-- An engine in which a program is installed under an id.
pub record Installs (p : Program) (e after : Engine) (id : ProgramId) (ks : List ℕ) : Type 0 where
  pub state : ProgramState
  pub all : List ℕ
  pub arena : Arena e all state.nodes
  pub roots : RootsFit all state.outputs ks
  pub represents : OutputsRepresent state.nodes state.outputs p.outputs
  pub depends : (r : RelId) → contains state.dependencies r ≡ scanned r state.nodes
  pub operators : state.operators ≡ length state.nodes
  pub arrangements : state.arrangements ≡ sum_of (map arrangement_count state.nodes)
  pub handed_out : id ≡ e.next_program
  pub programs :
      (i : ProgramId)
      → installed after.programs i ≡ (if id == i then some state else installed e.programs i)
  pub slots : length after.programs ≡ after.next_program
  pub next_program : after.next_program ≡ suc e.next_program
  pub relations : after.relations ≡ e.relations
  pub journal : after.journal ≡ e.journal
  pub marks : after.marks ≡ e.marks
  pub frontiers_applied : after.frontiers_applied ≡ e.frontiers_applied

-- The programs, where the id is the next one.
installed-with_program :
    (state : ProgramState) (e : Engine) (i : ProgramId)
    → length e.programs ≡ e.next_program
    → installed (with_program state e).programs i
      ≡ (if e.next_program == i then some state else installed e.programs i)
installed-with_program state e i size = elim (Bool-cases (e.next_program == i)) [
  | inl same ↦
      let here : e.next_program ≡ i = (nat_eqb_iff e.next_program i).0 same in
      rw same (
        ap (λ j. installed (with_program state e).programs j) (sym here)
        ∙ ap (λ o. o >>= λ slot. slot)
            (get_elem?-set_lt slots e.next_program (some state)
              (omega (arith, slot_lt e.next_program e.programs size))))
  | inr other ↦ rw other (
      ap (λ o. o >>= λ slot. slot)
        (get_elem?-set_ne slots e.next_program i (some state)
          (λ here. clash (sym ((nat_eqb_iff e.next_program i).1 here) ∙ other)))
      ∙ installed-with_slot e.next_program e.programs i)
]
  where
    slots : List (Option ProgramState)
    slots = with_slot e.next_program e.programs

    clash : true ≡ false → ⊥
    clash h = cc

-- What an installation that succeeds leaves, for outputs that have arities and an engine with a slot for
-- every program id handed out: under the next id, a program whose outputs, named as declared and distinct
-- where the plan is no aggregate, are read from nodes that are the operators of their plans, with empty
-- maps; whose nodes read only nodes before them and columns those nodes have, with each output at a node
-- of its arity; that depends on the relations its nodes scan and on no other; and that counts its nodes
-- and their arrangements. There is again a slot for every id; every other program, the relations, the
-- journal, the scopes and the number of frontiers are as they were.
pub install-Installs :
    (p : Program) (e after : Engine) (id : ProgramId) (ks : List ℕ)
    → length e.programs ≡ e.next_program
    → HasArities e p.outputs ks
    → install p e ≡ (after, Outcome.ok id)
    → Installs p e after id ks
install-Installs p e after id ks size n h =
    let (b, built) = built_of p e after id h in
    let (all, x, arena, fit) =
      build_outputs-RootsFit e p.outputs ks [] [] [] b Arena.none_yet n built in
    let runs = install_outputs p e b size built in
    let is_after : with_program (program_of b) e ≡ after =
      ap (λ r. r.0) (sym runs) ∙ ap (λ r. r.0) h in
    let is_id : e.next_program ≡ id = ok_injective (ap (λ r. r.1) (sym runs) ∙ ap (λ r. r.1) h) in
    subst (λ a. Installs p e a id ks) is_after
      (subst (λ i. Installs p e (with_program (program_of b) e) i ks) is_id
        (record {
          state = program_of b;
          all = all;
          arena = arena;
          roots = fit;
          represents = (build_outputs-OutputsRepresent e p.outputs [] [] b built).1;
          depends = build_outputs-DependsOn e p.outputs [] [] b (λ r. refl) built;
          operators = refl;
          arrangements = refl;
          handed_out = refl;
          programs = λ i. installed-with_program (program_of b) e i size;
          slots =
              length-set (with_slot e.next_program e.programs) e.next_program (some (program_of b))
              ∙ slot_lt e.next_program e.programs size;
          next_program = refl;
          relations = refl;
          journal = refl;
          marks = refl;
          frontiers_applied = refl;
        }))
