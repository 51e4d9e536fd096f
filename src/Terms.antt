-- ===== src/Terms.antt =====
-- crates/ivm-ir/src/1_terms.rs: the dictionary of terms, texts, vecs and `Any` values.
-- An operation that takes a new id gives `none` where the source panics: the ids are used up.
pub mod Float
pub mod Slots
pub mod Valid
pub mod Mint
pub mod MintText
pub mod MintVec
pub mod MintAny
pub mod Compare
pub mod Key
use sqlite_ivm.Base.{
  ℕ, zero, suc, ◌+◌, ◌-◌, ◌^◌, ℤ, pos, negsuc, Bool, true, false, Option, none, some, List, [], ◌∷◌,
  ◌++◌, length, take, drop, get_elem?, contains, lookup, insert, ◌==◌, nat_eq, int_eq, list_eq,
  pair_eq, ltb, ◌>>=◌, if◌then◌else◌,
}
use sqlite_ivm.Ir.Syntax.{Cell, Row, Text, Ty, AnyValue, any_value_eq}
use Float.{is_nan, integral}
use Slots.{get_slot, put_slot}

pub record Term : Type 0 where
  pub functor : Text
  pub args : Row
  pub types : List Ty
  pub text : Option Text

-- `next` and the ids handed out are positive, so they are numbers here; slot `id` of `by_id`
-- holds term `id`.
pub record Interner : Type 0 where
  pub functors : List Text
  pub by_key : List ((Text × Row) × Cell)
  pub by_id : List (Option Term)
  pub terms : ℕ
  pub by_text : List (Text × Cell)
  pub by_any : List (AnyValue × Cell)
  pub any_by_id : List (Cell × AnyValue)
  pub next : ℕ
  pub pending : List (Text × Row)
  pub vec_cells : Row
  pub vec_at : List (Cell × (ℕ × ℕ))
  pub vec_by_hash : List (ℕ × List Cell)

-- `Interner::default()`
abbrev pub empty : Interner
empty = record {
  functors = [];
  by_key = [];
  by_id = [];
  terms = 0;
  by_text = [];
  by_any = [];
  any_by_id = [];
  next = 0;
  pending = [];
  vec_cells = [];
  vec_at = [];
  vec_by_hash = [];
}

-- `self.next.checked_add(1).expect(..)`
unfoldable pub fresh : Interner → Option ℕ
fresh s = if ltb (s.next + 1) (2 ^ 63) then some (s.next + 1) else none

-- A known id as it is, or the next one and the state that holds it.
unfoldable pub known_or_new : Option Cell → (ℕ → Interner) → Interner → Option (Cell × Interner)
unfolding fresh
known_or_new (some id) make s = some (id, s)
known_or_new none make s = fresh s >>= λ id. some (pos id, make id)

abbrev pub share : Text → List Text → List Text
share functor functors = if contains functors functor then functors else functor ∷ functors

abbrev pub mint_new : Text → Row → List Ty → Interner → ℕ → Interner
mint_new functor args types s id = record s {
  functors = share functor s.functors;
  by_key = insert (functor, args) (pos id) s.by_key;
  by_id =
      put_slot s.by_id id (record { functor = functor; args = args; types = types; text = none });
  terms = s.terms + 1;
  next = id;
  pending = s.pending ++ (functor, pos id ∷ args) ∷ [];
}

unfoldable pub mint : Text → Row → List Ty → Interner → Option (Cell × Interner)
unfolding known_or_new
mint functor args types s =
    known_or_new (lookup (functor, args) s.by_key) (mint_new functor args types s) s

abbrev pub text_new : Text → Interner → ℕ → Interner
text_new text s id = record s {
  by_text = insert text (pos id) s.by_text;
  by_id = put_slot s.by_id id (record { functor = []; args = []; types = []; text = some text });
  terms = s.terms + 1;
  next = id;
}

-- `mint_text`, and `mint_shared_text`, which keeps the caller's allocation.
unfoldable pub mint_text : Text → Interner → Option (Cell × Interner)
unfolding known_or_new
mint_text text s = known_or_new (lookup text s.by_text) (text_new text s) s

unfoldable pub get : Interner → Cell → Option Term
get s (pos n) = get_slot s.by_id n
get s (negsuc n) = none

unfoldable pub text : Interner → Cell → Option Text
text s id = get s id >>= λ term. term.text

unfoldable pub text_id : Interner → Text → Option Cell
text_id s text = lookup text s.by_text

-- The items of a vec: a range of `vec_cells`, which is in bounds for every vec of a valid interner.
unfoldable pub vec_items : Interner → Cell → Option Row
vec_items s id =
    lookup id s.vec_at >>= λ range. some (take (range.1 - range.0) (drop range.0 s.vec_cells))

abbrev pub is_items : Row → Option Row → Bool
is_items items none = false
is_items items (some row) = row == items

-- `same.iter().find(|id| self.vec_items(**id) == Some(items))`
pub find_vec : Interner → Row → List Cell → Option Cell
find_vec s items [] = none
find_vec s items (id ∷ same) =
    let rest = find_vec s items same in if is_items items (vec_items s id) then some id else rest

abbrev pub same_hash : Interner → ℕ → List Cell
same_hash s h = elim (lookup h s.vec_by_hash) [ none ↦ [] | some same ↦ same ]

-- The standard library's hash of a slice is a parameter; any function will do.
module _ (hash : Row → ℕ) where
  abbrev pub vec_new : Row → Interner → ℕ → Interner
  vec_new items s id = record s {
    next = id;
    vec_cells = s.vec_cells ++ items;
    vec_at = insert (pos id) (length s.vec_cells, length s.vec_cells + length items) s.vec_at;
    vec_by_hash = insert (hash items) (same_hash s (hash items) ++ pos id ∷ []) s.vec_by_hash;
  }

  unfoldable pub mint_vec : Row → Interner → Option (Cell × Interner)
  unfolding known_or_new find_vec
  mint_vec items s = known_or_new (find_vec s items (same_hash s (hash items))) (vec_new items s) s

abbrev pub any_new : AnyValue → Interner → ℕ → Interner
any_new value s id = record s {
  next = id;
  by_any = insert value (pos id) s.by_any;
  any_by_id = insert (pos id) value s.any_by_id;
}

unfoldable pub insert_any : AnyValue → Interner → Option (Cell × Interner)
unfolding known_or_new
insert_any value s = known_or_new none (any_new value s) s

-- NaN interns as Null.
unfoldable pub without_nan : AnyValue → AnyValue
without_nan (AnyValue.real bits) = if is_nan bits then AnyValue.null else AnyValue.real bits
without_nan value = value

-- An integral Real also interns its Integer.
abbrev pub with_integer : ℤ → Option Cell → Interner → Option Interner
with_integer i (some _) s = some s
with_integer i none s = insert_any (AnyValue.integer i) s >>= λ out. some out.1

abbrev pub with_companion : Option ℤ → Interner → Option Interner
with_companion none s = some s
with_companion (some i) s = with_integer i (lookup (AnyValue.integer i) s.by_any) s

unfoldable pub mint_companion : AnyValue → Interner → Option Interner
mint_companion (AnyValue.real bits) s = with_companion (integral bits) s
mint_companion _ s = some s

abbrev pub any_or_new : AnyValue → Option Cell → Interner → Option (Cell × Interner)
any_or_new value (some id) s = some (id, s)
any_or_new value none s = mint_companion value s >>= insert_any value

unfoldable pub mint_any : AnyValue → Interner → Option (Cell × Interner)
mint_any value s = any_or_new (without_nan value) (lookup (without_nan value) s.by_any) s

unfoldable pub any_value : Interner → Cell → Option AnyValue
any_value s id = lookup id s.any_by_id

abbrev pub key_of : Interner → Cell → AnyValue → Option Cell
key_of s id (AnyValue.real bits) = elim (integral bits) [
  | none ↦ some id
  | some i ↦ lookup (AnyValue.integer i) s.by_any
]
key_of s id _ = some id

-- The id by which equal numbers of both classes compare.
unfoldable pub any_key : Interner → Cell → Option Cell
any_key s id = any_value s id >>= key_of s id

unfoldable pub drain_pending : Interner → List (Text × Row) × Interner
drain_pending s = (s.pending, record s { pending = [] })

unfoldable pub len : Interner → ℕ
len s = s.terms + length s.any_by_id
