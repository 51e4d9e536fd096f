-- ===== src/Tests.antt =====
-- Runs of the model, and the theorems at concrete inputs.
use mathlib.Core.Option
use sqlite_ivm.Base.{
  ◌^◌, ℕ, zero, suc, ◌+◌, ◌<◌, pos, negsuc, ◌≡◌, refl, sym, ap, subst, ◌∙◌, ◌⊎◌, inl, inr, false,
  Option, none, some, List, [], ◌∷◌, ◌++◌, length, Ordering, reversed, cmp_ℤ, cmp_bytes, then_with,
  IsI64, ◌==◌, nat_eq, int_eq, list_eq, pair_eq, int_eqb_iff, lookup, insert, ◌>>=◌, some_injective,
  All, if◌then◌else◌, arith,
}
use sqlite_ivm.Ir.Syntax.{
  Cell, Row, Text, Ty, RelKind, Relation, Func, Expr, Exprs, Op, Program, type_inputs,
}
use sqlite_ivm.Ir.StrOp.{StrOp, name, from_name, from_name-name}
use sqlite_ivm.Ir.ExprType.{visits, expr_type_run}
use sqlite_ivm.Ir.ExprType.Loop.{type_of, expr_type_run-type_of}
use sqlite_ivm.Ir.NodeTypes.{node_types, node_types_run, cost, op_types}
use sqlite_ivm.Ir.NodeTypes.Loop.{types_at, node_types_run-types_at}
use sqlite_ivm.Ir.NodeTypes.Acyclic.{IsOrdered, node_types-op_types}
use sqlite_ivm.Terms.{
  Term, Interner, empty, fresh, known_or_new, mint, mint_new, mint_text, text_new, text,
}
use sqlite_ivm.Terms.Valid.{TermsValid, empty-TermsValid, HoldsTerm, Extends}
use sqlite_ivm.Terms.Mint.{mint-TermsValid, mint-HoldsTerm, mint-again, mint_injective}
use sqlite_ivm.Terms.MintText.{text-mint_text}
use sqlite_ivm.Terms.Compare.{compare}
use sqlite_ivm.Terms.Compare.Swap.{compare_swap_terms}
use sqlite_ivm.Terms.Compare.Ends.{IsAcyclic, compare_ends}
use sqlite_ivm.Terms.Key.{key_number, escape, args_key, arg_key, atom_key, term_key}
use sqlite_ivm.Terms.Key.Bytes.{cmp_bytes-escape, cmp_bytes-key_number}
use sqlite_ivm.Terms.Key.Sorted.{IsTyped, AreKeys}
use sqlite_ivm.Terms.Key.Loop.{compare-keys}
use sqlite_ivm.Engine.Walk.{walk_expr, eval_leaf, eval_apply, steps_of}
use sqlite_ivm.Engine.Walk.Correct.{value_of}
use sqlite_ivm.Engine.Typed.{Host, eval_typed_with_text, typed_leaf, typed_apply, typed_value}
use sqlite_ivm.Engine.Typed.Agrees.{eval_typed-expr_type}
use sqlite_ivm.Terms.{vec_items, vec_new, mint_vec}
use sqlite_ivm.Terms.MintVec.{VecsValid, empty-VecsValid, vec_items-mint_vec}
use sqlite_ivm.Engine.Walk.{flat, is_flat}
use sqlite_ivm.Ir.ExprType.{expr_type}
use sqlite_ivm.Base.{traverse, wrapping_add, ◌+ℤ◌, of_bits}
use sqlite_ivm.Engine.Walk.Shortcut.{walk_expr-value_of}
use sqlite_ivm.Sources.{Frontier, Sources, guard, committed}
use sqlite_ivm.Engine.Lowering.{lowered_inputs}
use sqlite_ivm.Engine.Lowering.Inputs.{lowered_inputs-total}
use sqlite_ivm.Ir.Syntax.{RelId, NodeId, rel}
use sqlite_ivm.Terms.{any_new, insert_any, without_nan, mint_companion, mint_any, any_value}
use sqlite_ivm.Terms.Float.{is_nan, integral}
use sqlite_ivm.Terms.MintAny.{AnyValid, empty-AnyValid, stored, any_value-mint_any}
use sqlite_ivm.Ir.Syntax.{AnyValue, any_value_eq}
use sqlite_ivm.Sources.InOrder.{in_order}
use sqlite_ivm.Sources.Sequential.{guard-in_order}

-- A dictionary of the text "a" and of the term f(#1, 7).
abbrev letter : Term
letter = record { functor = []; args = []; types = []; text = some (97 ∷ []) }

abbrev wrapped : Term
wrapped = record {
  functor = 102 ∷ [];
  args = pos 1 ∷ pos 7 ∷ [];
  types = Ty.id ∷ Ty.int ∷ [];
  text = none;
}

abbrev resolve : Cell → Option Term
resolve id = if id == pos 1 then some letter else if id == pos 2 then some wrapped else none

abbrev letter_key : List ℕ
letter_key = 1 ∷ 97 ∷ 0 ∷ 0 ∷ []

abbrev key : Cell → List ℕ
key id =
    if id == pos 1
    then letter_key
    else if id == pos 2
    then term_key (λ child. letter_key) wrapped
    else atom_key id

resolve-cases :
    (id : Cell) (t : Term)
    → resolve id ≡ some t
    → ((id ≡ pos 1) × (t ≡ letter)) ⊎ ((id ≡ pos 2) × (t ≡ wrapped))
resolve-cases id t h = ground (arith, int_eqb_iff id (pos 1), int_eqb_iff id (pos 2))

dictionary-IsAcyclic : IsAcyclic resolve
dictionary-IsAcyclic id t h = elim (resolve-cases id t h) [
  | inl (here, held) ↦ rw held tt
  | inr (here, held) ↦ rw (here, held) (inr (omega arith), tt)
]

compare_ends_example :
    (order : Ordering) × (fuel : ℕ) × ((more : ℕ)
      → compare resolve (fuel + more) (pos 2) (pos 1) ≡ some order)
compare_ends_example = compare_ends resolve dictionary-IsAcyclic (pos 2) (pos 1)

compare_swap_terms_example :
    compare resolve 5 (pos 1) (pos 2) ≡ Option.map reversed (compare resolve 5 (pos 2) (pos 1))
compare_swap_terms_example = compare_swap_terms resolve 5 (pos 2) (pos 1)

small_cell : (n : ℕ) → n < 8 → IsI64 (pos n)
small_cell n h = record { above = omega arith; below = omega arith }

dictionary-IsTyped : IsTyped resolve
dictionary-IsTyped = record {
  args_ok = λ id t h. elim (resolve-cases id t h) [
    | inl (here, held) ↦ rw held tt
    | inr (here, held) ↦ rw held (small_cell 1 (omega arith), (small_cell 7 (omega arith), tt))
  ];
  arity = λ id t h. elim (resolve-cases id t h) [
    | inl (here, held) ↦ rw held (omega arith)
    | inr (here, held) ↦ rw held (omega arith)
  ];
  fixed = λ i j t u ht hu f n. elim (resolve-cases i t ht) [
    | inl (_, t_held) ↦ elim (resolve-cases j u hu) [
      | inl (_, u_held) ↦ rw (t_held, u_held) refl
      | inr (_, u_held) ↦ cc (
          sym (ap (λ (t : Term). length t.args) t_held)
          ∙ n
          ∙ ap (λ (t : Term). length t.args) u_held)
    ]
    | inr (_, t_held) ↦ elim (resolve-cases j u hu) [
      | inl (_, u_held) ↦ cc (
          sym (ap (λ (t : Term). length t.args) t_held)
          ∙ n
          ∙ ap (λ (t : Term). length t.args) u_held)
      | inr (_, u_held) ↦ rw (t_held, u_held) refl
    ]
  ];
}

dictionary-AreKeys : AreKeys resolve key
unfolding term_key escape args_key arg_key
dictionary-AreKeys = record {
  atoms = λ id h. ground (arith, int_eqb_iff id (pos 1), int_eqb_iff id (pos 2));
  terms = λ id t h. elim (resolve-cases id t h) [
    | inl (here, held) ↦ rw (here, held) refl
    | inr (here, held) ↦ rw (here, held) refl
  ];
}

compare-keys_example :
    (fuel : ℕ) × ((more : ℕ)
      → compare resolve (fuel + more) (pos 2) (pos 1)
        ≡ some (cmp_bytes (key (pos 2)) (key (pos 1))))
compare-keys_example =
    compare-keys resolve key dictionary-IsAcyclic dictionary-IsTyped dictionary-AreKeys (pos 2)
      (pos 1) (small_cell 2 (omega arith)) (small_cell 1 (omega arith))

cmp_bytes-escape_example :
    cmp_bytes (escape (0 ∷ []) ++ (9 ∷ [])) (escape [] ++ (8 ∷ []))
    ≡ then_with (cmp_bytes (0 ∷ []) []) (cmp_bytes (9 ∷ []) (8 ∷ []))
cmp_bytes-escape_example = cmp_bytes-escape (0 ∷ []) [] (9 ∷ []) (8 ∷ [])

minus_one-IsI64 : IsI64 (negsuc 0)
minus_one-IsI64 = record { above = omega arith; below = omega arith }

cmp_bytes-key_number_example :
    cmp_bytes (key_number (negsuc 0) ++ (1 ∷ [])) (key_number (pos 3) ++ [])
    ≡ then_with (cmp_ℤ (negsuc 0) (pos 3)) (cmp_bytes (1 ∷ []) [])
cmp_bytes-key_number_example =
    cmp_bytes-key_number (negsuc 0) (pos 3) (1 ∷ []) [] minus_one-IsI64 (small_cell 3 (omega arith))

-- f(7) and g(7), minted one after the other.
abbrev with_f : Interner
with_f = mint_new (102 ∷ []) (pos 7 ∷ []) (Ty.int ∷ []) empty 1

mint_f : mint (102 ∷ []) (pos 7 ∷ []) (Ty.int ∷ []) empty ≡ some (pos 1, with_f)
unfolding mint known_or_new fresh lookup
mint_f = refl

mint-TermsValid_example : TermsValid with_f × Extends empty with_f
mint-TermsValid_example =
    mint-TermsValid (102 ∷ []) (pos 7 ∷ []) (Ty.int ∷ []) empty empty-TermsValid mint_f

mint-HoldsTerm_example :
    (lookup (102 ∷ [], pos 7 ∷ []) with_f.by_key ≡ some (pos 1))
    × HoldsTerm with_f (102 ∷ []) (pos 7 ∷ []) (pos 1)
mint-HoldsTerm_example =
    mint-HoldsTerm (102 ∷ []) (pos 7 ∷ []) (Ty.int ∷ []) empty empty-TermsValid mint_f

mint-again_example : mint (102 ∷ []) (pos 7 ∷ []) (Ty.any ∷ []) with_f ≡ some (pos 1, with_f)
mint-again_example =
    mint-again (102 ∷ []) (pos 7 ∷ []) (Ty.int ∷ []) empty (Ty.any ∷ []) empty-TermsValid mint_f

mint_f_twice : mint (102 ∷ []) (pos 7 ∷ []) (Ty.int ∷ []) with_f ≡ some (pos 1, with_f)
unfolding mint known_or_new fresh lookup insert
mint_f_twice = refl

mint_injective_example : (Path Text (102 ∷ []) (102 ∷ [])) × (Path Row (pos 7 ∷ []) (pos 7 ∷ []))
mint_injective_example =
    mint_injective (102 ∷ []) (102 ∷ []) (pos 7 ∷ []) (pos 7 ∷ []) (Ty.int ∷ []) (Ty.int ∷ []) empty
      empty-TermsValid mint_f mint_f_twice

abbrev with_text : Interner
with_text = text_new (97 ∷ []) empty 1

mint_a : mint_text (97 ∷ []) empty ≡ some (pos 1, with_text)
unfolding mint_text known_or_new fresh lookup
mint_a = refl

text-mint_text_example :
    (text with_text (pos 1) ≡ some (97 ∷ []))
    × (mint_text (97 ∷ []) with_text ≡ some (pos 1, with_text))
text-mint_text_example = text-mint_text (97 ∷ []) empty empty-TermsValid mint_a

-- `col 0 + 5 = #1`, as an expression.
abbrev sum_of_two : Expr
sum_of_two = Expr.call Func.add (Exprs.cons (Expr.col 0) (Exprs.cons (Expr.lit (pos 5)) Exprs.nil))

abbrev doubled : Expr
doubled = Expr.call Func.add (Exprs.cons sum_of_two (Exprs.cons sum_of_two Exprs.nil))

abbrev compared : Expr
compared = Expr.call Func.eq (Exprs.cons doubled (Exprs.cons (Expr.lit (pos 16)) Exprs.nil))

expr_type_run-type_of_example :
    expr_type_run (visits doubled) doubled (Ty.real ∷ []) ≡ some (type_of doubled (Ty.real ∷ []))
expr_type_run-type_of_example =
    expr_type_run-type_of doubled (Ty.real ∷ []) (visits doubled) (omega arith)

abbrev leaf_of : Expr → Option Cell
leaf_of = eval_leaf (λ a b. false) (λ i. pos 0) (λ i. pos 0) (pos 0) (pos 3 ∷ [])

abbrev apply_of : Func → Row → Option Cell
apply_of = eval_apply (λ a b. false) (λ i. pos 0) (λ i. pos 0) (pos 0)

walk_expr-value_of_example :
    walk_expr leaf_of apply_of (steps_of compared) compared
    ≡ some (value_of leaf_of apply_of compared)
walk_expr-value_of_example =
    walk_expr-value_of leaf_of apply_of compared (steps_of compared) (omega arith)

-- One source of two columns and its projection.
abbrev edge : Relation
edge = record { id = 4; name = 101 ∷ []; cols = Ty.int ∷ Ty.text ∷ []; kind = RelKind.source }

abbrev program : Program
program = record {
  texts = [];
  terms = [];
  rels = edge ∷ [];
  nodes = Op.get 4 ∷ Op.mfp 0 [] [] (1 ∷ []) ∷ [];
  strata = [];
  outputs = [];
}

node_types_run-types_at_example :
    node_types_run (cost program 3 1) program 1 ≡ some (types_at program 3 1 >>= λ types. types)
node_types_run-types_at_example = node_types_run-types_at program 1 (cost program 3 1) (omega arith)

program-IsOrdered : IsOrdered program
unfolding type_inputs
program-IsOrdered zero op h = subst (λ o. All (λ n. n < 0) (type_inputs o)) (some_injective h) tt
program-IsOrdered (suc zero) op h =
    subst (λ o. All (λ n. n < 1) (type_inputs o)) (some_injective h) (omega arith, tt)
program-IsOrdered (suc (suc n)) op h = cc

node_types-op_types_example :
    node_types program 1 ≡ op_types program (Op.mfp 0 [] [] (1 ∷ [])) (node_types program)
node_types-op_types_example = node_types-op_types program program-IsOrdered 1 refl

abbrev old_sources : Sources
old_sources = (4, (pos 1 ∷ pos 2 ∷ []) ∷ []) ∷ []

-- A delete of a present row, its insert, and a delete of an absent one.
abbrev frontier : Frontier
frontier = record {
  changes =
      record { rel = 4; row = pos 1 ∷ pos 2 ∷ []; w = negsuc 0 }
      ∷ record { rel = 4; row = pos 1 ∷ pos 2 ∷ []; w = pos 1 }
      ∷ record { rel = 4; row = pos 3 ∷ pos 2 ∷ []; w = negsuc 0 }
      ∷ [];
}

guard-in_order_example :
    guard program old_sources frontier
    ≡ committed old_sources (in_order program frontier.changes old_sources)
guard-in_order_example = guard-in_order program old_sources frontier

from_name-name_example : from_name (name StrOp.lcfirst) ≡ some StrOp.lcfirst
from_name-name_example = from_name-name StrOp.lcfirst

abbrev with_vec : Interner
with_vec = vec_new (λ items. 0) (pos 7 ∷ pos 8 ∷ []) empty 1

mint_pair : mint_vec (λ items. 0) (pos 7 ∷ pos 8 ∷ []) empty ≡ some (pos 1, with_vec)
unfolding mint_vec known_or_new fresh lookup
mint_pair = refl

vec_items-mint_vec_example :
    (vec_items with_vec (pos 1) ≡ some (pos 7 ∷ pos 8 ∷ []))
    × VecsValid with_vec
    × ((other : Cell) (row : Row)
        → vec_items empty other ≡ some row
        → vec_items with_vec other ≡ some row)
vec_items-mint_vec_example =
    vec_items-mint_vec (λ items. 0) (pos 7 ∷ pos 8 ∷ []) empty empty-VecsValid mint_pair

abbrev host : Host
host = record {
  term_lt = λ a b. false;
  text = λ i. pos i;
  term = λ i. pos i;
  nil = pos 0;
  compare = λ left a right b. cmp_ℤ a b;
  add_real = λ a b. a;
  sub_real = λ a b. a;
  real_of = λ a. 0;
}

typed_sum :
    eval_typed_with_text host (steps_of doubled) doubled (pos 3 ∷ []) (Ty.int ∷ [])
    ≡ some (some (pos 16, some Ty.int))
unfolding steps_of eval_typed_with_text walk_expr flat is_flat typed_leaf typed_apply typed_value
    traverse wrapping_add ◌+ℤ◌ of_bits
typed_sum = refl

eval_typed-expr_type_example : some Ty.int ≡ expr_type doubled (Ty.int ∷ [])
eval_typed-expr_type_example =
    eval_typed-expr_type host (pos 3 ∷ []) (Ty.int ∷ []) doubled (steps_of doubled) (omega arith)
      typed_sum

-- A join of the edges with a constructor's rows, by the constructor's first column.
abbrev pair_rows : Relation
pair_rows = record {
  id = 5;
  name = 112 ∷ [];
  cols = Ty.id ∷ Ty.int ∷ [];
  kind = RelKind.constructor;
}

abbrev joining : Program
joining = record program {
  rels = edge ∷ pair_rows ∷ [];
  nodes = Op.get 4 ∷ Op.get 5 ∷ Op.join (0 ∷ 1 ∷ []) (((0, 1) ∷ (1, 0) ∷ []) ∷ []) [] ∷ [];
}

abbrev nothing_defined : List (RelId × ℕ)
nothing_defined = []

lowered_inputs-total_example :
    (inputs : List NodeId) × (lowered_inputs joining nothing_defined
        (Op.join (0 ∷ 1 ∷ []) (((0, 1) ∷ (1, 0) ∷ []) ∷ []) [])
        false
      ≡ some inputs)
lowered_inputs-total_example =
    lowered_inputs-total joining nothing_defined
      (Op.join (0 ∷ 1 ∷ []) (((0, 1) ∷ (1, 0) ∷ []) ∷ []) []) false

-- 2.0 brings the integer 2 along.
abbrev two : AnyValue
two = AnyValue.real (2 ^ 62)

abbrev with_two : Interner
with_two = any_new two (any_new (AnyValue.integer (pos 2)) empty 1) 2

mint_two : mint_any two empty ≡ some (pos 2, with_two)
unfolding mint_any mint_companion insert_any without_nan is_nan integral lookup known_or_new fresh
mint_two = refl

any_value-mint_any_example :
    (any_value with_two (pos 2) ≡ some (stored two))
    × (lookup (stored two) with_two.by_any ≡ some (pos 2))
    × AnyValid with_two
any_value-mint_any_example = any_value-mint_any two empty empty-AnyValid mint_two
