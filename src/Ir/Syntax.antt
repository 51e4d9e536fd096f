-- ===== src/Ir/Syntax.antt =====
-- crates/ivm-ir/src/0_ir.rs: the data of a program. Ids and columns are numbers, a cell is an
-- `i64`, a text is its bytes; a recursive `Vec` is a data type of its own in a mutual block.
use Prim.Native.Nat.{min as smaller}
use sqlite_ivm.Base.{
  ℕ, ℤ, ◌≡◌, ◌↔◌, Eq, ◌==◌, nat_eq, int_eq, list_eq, list_eqb_iff, Bool, true, false, Option, none,
  some, List, [], ◌∷◌, length, take, ◌||◌, contains, nat_eqb, arith, if◌then◌else◌,
}
use sqlite_ivm.Ir.StrOp.{StrOp}

abbrev pub RelId : Type 0
RelId = ℕ

abbrev pub NodeId : Type 0
NodeId = ℕ

abbrev pub ColId : Type 0
ColId = ℕ

abbrev pub Cell : Type 0
Cell = ℤ

abbrev pub Row : Type 0
Row = List Cell

-- Z-set weight.
abbrev pub W : Type 0
W = ℤ

-- The bytes of a `str`.
abbrev pub Text : Type 0
Text = List ℕ

-- `real` holds the bits of an `f64`.
pub data AnyValue : Type 0 where
  null : AnyValue
  integer : ℤ → AnyValue
  real : ℕ → AnyValue
  text : Text → AnyValue
  blob : List ℕ → AnyValue

pub data Ty : Type 0 where
  int id text real any : Ty

pub data RelKind : Type 0 where
  source derived constructor : RelKind

pub record Relation : Type 0 where
  pub id : RelId
  pub name : Text
  pub cols : List Ty
  pub kind : RelKind

pub data Func : Type 0 where
  eq ne lt le gt ge add sub and or not term_lt str_nil : Func

mutual
  pub data Expr : Type 0 where
    col : ColId → Expr
    lit : Cell → Expr
    text : ℕ → Expr
    call : Func → Exprs → Expr
    term : ℕ → Expr

  pub data Exprs : Type 0 where
    nil : Exprs
    cons : Expr → Exprs → Exprs

-- The arguments of a call as the slice they are.
abbrev pub slice : Exprs → List Expr
slice nil = []
slice (cons e es) = e ∷ slice es

pub data TermArg : Type 0 where
  term : ℕ → TermArg
  text : ℕ → TermArg
  raw : Cell → TermArg

pub record TermLit : Type 0 where
  pub functor : RelId
  pub args : List TermArg

pub data StrMode : Type 0 where
  construct : (head rest : ColId) → StrMode
  decompose : (whole : ColId) → StrMode

pub data VecOp : Type 0 where
  build iter len get : VecOp

pub data Agg : Type 0 where
  count : Agg
  sum min max : ColId → Agg

pub record Order : Type 0 where
  pub col : ColId
  pub desc : Bool

pub data WinFn : Type 0 where
  row_number rank dense_rank count : WinFn
  lag lead : ℕ → WinFn
  sum : ColId → WinFn

pub data Op : Type 0 where
  get : RelId → Op
  mint : (input : NodeId) (functor : RelId) (args : List ColId) → Op
  str_cons : (input : NodeId) (mode : StrMode) → Op
  str : (input : NodeId) (op : StrOp) (args : List ColId) → Op
  vec : (input : NodeId) (op : VecOp) (args : List ColId) → Op
  mfp : (input : NodeId) (filter map : List Expr) (project : List ColId) → Op
  union : List NodeId → Op
  negate : NodeId → Op
  join : (inputs : List NodeId) (equivalences : List (List (ℕ × ColId))) (project : List ColId) → Op
  antijoin : (l r : NodeId) (lk rk : List ColId) → Op
  reduce : (input : NodeId) (key : List ColId) (aggs : List Agg) → Op
  threshold : NodeId → Op
  topk : (input : NodeId) (key : List ColId) (order : List Order) (limit : ℕ) → Op
  window : (input : NodeId) (partition : List ColId) (order : List Order) (func : WinFn) → Op
  delay : NodeId → Op

mutual
  pub data LetRec : Type 0 where
    letrec :
        (ids : List RelId) (bodies : List NodeId) (limit : Option ℕ) (nested : LetRecs) → LetRec

  pub data LetRecs : Type 0 where
    nil : LetRecs
    cons : LetRec → LetRecs → LetRecs

pub data Stratum : Type 0 where
  let_ : (id : RelId) (body : NodeId) → Stratum
  let_rec : LetRec → Stratum

pub record Program : Type 0 where
  pub texts : List Text
  pub terms : List TermLit
  pub rels : List Relation
  pub nodes : List Op
  pub strata : List Stratum
  pub outputs : List RelId

-- `a.cmp(b)` of two types, by the position of the variant.
abbrev pub ty_rank : Ty → ℕ
ty_rank int = 0
ty_rank id = 1
ty_rank text = 2
ty_rank real = 3
ty_rank any = 4

abbrev pub ty_eqb : Ty → Ty → Bool
ty_eqb a b = nat_eqb (ty_rank a) (ty_rank b)

pub ty_eqb_iff : (a b : Ty) → (ty_eqb a b ≡ true) ↔ (a ≡ b)
ty_eqb_iff a b = ground arith

instance abbrev pub ty_eq : Eq Ty
ty_eq = record { test = ty_eqb; test_iff = ty_eqb_iff }

abbrev pub kind_eqb : RelKind → RelKind → Bool
kind_eqb source source = true
kind_eqb derived derived = true
kind_eqb constructor constructor = true
kind_eqb _ _ = false

pub kind_eqb_iff : (a b : RelKind) → (kind_eqb a b ≡ true) ↔ (a ≡ b)
kind_eqb_iff a b = ground arith

instance abbrev pub kind_eq : Eq RelKind
kind_eq = record { test = kind_eqb; test_iff = kind_eqb_iff }

abbrev pub any_eqb : AnyValue → AnyValue → Bool
any_eqb null null = true
any_eqb (integer a) (integer b) = a == b
any_eqb (real a) (real b) = a == b
any_eqb (text a) (text b) = a == b
any_eqb (blob a) (blob b) = a == b
any_eqb _ _ = false

pub any_eqb_iff : (a b : AnyValue) → (any_eqb a b ≡ true) ↔ (a ≡ b)
any_eqb_iff (integer x) (integer y) = ground (arith, int_eq.test_iff x y)
any_eqb_iff (real x) (real y) = ground (arith, nat_eq.test_iff x y)
any_eqb_iff (text x) (text y) = ground (arith, list_eqb_iff x y)
any_eqb_iff (blob x) (blob y) = ground (arith, list_eqb_iff x y)
any_eqb_iff null null = ground arith
any_eqb_iff _ _ = ground arith

instance abbrev pub any_value_eq : Eq AnyValue
any_value_eq = record { test = any_eqb; test_iff = any_eqb_iff }

abbrev pub ids : LetRec → List RelId
ids (letrec names _ _ _) = names

abbrev any_binds : LetRecs → RelId → Bool
any_binds nil rel = false
any_binds (cons inner rest) rel = contains (ids inner) rel || any_binds rest rel

-- `LetRec::binds`: a variable of this LetRec, or of one nested in it.
unfoldable pub binds : LetRec → RelId → Bool
binds (letrec names _ _ nested) rel = contains names rel || any_binds nested rel

-- `Op::type_inputs`: the inputs whose column types `node_types` reads.
unfoldable pub type_inputs : Op → List NodeId
type_inputs (get _) = []
type_inputs (mint input _ _) = input ∷ []
type_inputs (str_cons input _) = input ∷ []
type_inputs (str input _ _) = input ∷ []
type_inputs (vec input _ _) = input ∷ []
type_inputs (mfp input _ _ _) = input ∷ []
type_inputs (negate input) = input ∷ []
type_inputs (threshold input) = input ∷ []
type_inputs (delay input) = input ∷ []
type_inputs (reduce input _ _) = input ∷ []
type_inputs (topk input _ _ _) = input ∷ []
type_inputs (window input _ _ _) = input ∷ []
type_inputs (antijoin l _ _ _) = l ∷ []
type_inputs (union inputs) = take (smaller (length inputs) 1) inputs
type_inputs (join inputs _ _) = inputs

abbrev pub find_rel : RelId → List Relation → Option Relation
find_rel i [] = none
find_rel i (rel ∷ rels) = if rel.id == i then some rel else find_rel i rels

-- `Program::rel`
unfoldable pub rel : Program → RelId → Option Relation
rel p i = find_rel i p.rels
