-- ===== src/Ir/StrOp.antt =====
-- crates/ivm-ir/src/3_str_ops.rs and 2_strings.rs: the names and signatures of the string
-- operations. What `apply` does with Unicode text is not modelled.
use Prim.Native.String.{String}
use package.text.Mathlib.Text.{◌==◌ as str_eq}
use sqlite_ivm.Base.{◌≡◌, refl, Option, none, some, List, [], ◌∷◌, if◌then◌else◌}

-- What one argument or result slot holds.
pub data StrKind : Type 0 where
  text int : StrKind

pub data StrOp : Type 0 where
  len lower upper lcfirst ucfirst trim strip_prefix strip_suffix replace split : StrOp
  to_str to_int starts_with contains snake camel pascal kebab escape json : StrOp

unfoldable pub name : StrOp → String
name len = "str.len"
name lower = "str.lower"
name upper = "str.upper"
name lcfirst = "str.lcfirst"
name ucfirst = "str.ucfirst"
name trim = "str.trim"
name strip_prefix = "str.strip_prefix"
name strip_suffix = "str.strip_suffix"
name replace = "str.replace"
name split = "str.split"
name to_str = "int.to_str"
name to_int = "str.to_int"
name starts_with = "str.starts_with"
name contains = "str.contains"
name snake = "str.snake"
name camel = "str.camel"
name pascal = "str.pascal"
name kebab = "str.kebab"
name escape = "str.escape"
name json = "str.json"

-- The arms of `from_name`, in their order.
abbrev arms : List (String × StrOp)
arms =
    ("str.len", len)
    ∷ ("str.lower", lower)
    ∷ ("str.upper", upper)
    ∷ ("str.lcfirst", lcfirst)
    ∷ ("str.ucfirst", ucfirst)
    ∷ ("str.trim", trim)
    ∷ ("str.strip_prefix", strip_prefix)
    ∷ ("str.strip_suffix", strip_suffix)
    ∷ ("str.replace", replace)
    ∷ ("str.split", split)
    ∷ ("int.to_str", to_str)
    ∷ ("str.to_int", to_int)
    ∷ ("str.starts_with", starts_with)
    ∷ ("str.contains", contains)
    ∷ ("str.snake", snake)
    ∷ ("str.camel", camel)
    ∷ ("str.pascal", pascal)
    ∷ ("str.kebab", kebab)
    ∷ ("str.escape", escape)
    ∷ ("str.json", json)
    ∷ []

first_arm : String → List (String × StrOp) → Option StrOp
first_arm key [] = none
first_arm key ((arm, op) ∷ rest) = if str_eq key arm then some op else first_arm key rest

unfoldable pub from_name : String → Option StrOp
unfolding first_arm
from_name key = first_arm key arms

unfoldable pub args : StrOp → List StrKind
args strip_prefix = text ∷ text ∷ []
args strip_suffix = text ∷ text ∷ []
args replace = text ∷ text ∷ text ∷ []
args split = text ∷ text ∷ int ∷ []
args to_str = int ∷ []
args starts_with = text ∷ text ∷ []
args contains = text ∷ text ∷ []
args _ = text ∷ []

-- `none` is a filter: it adds no column.
unfoldable pub out : StrOp → Option StrKind
out len = some int
out to_int = some int
out starts_with = none
out contains = none
out _ = some text

-- Every operation is found again by the name it prints.
pub from_name-name : (op : StrOp) → from_name (name op) ≡ some op
unfolding from_name name
from_name-name len = refl
from_name-name _ = refl
