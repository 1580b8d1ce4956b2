-- ===== src/Json.antt =====
-- crates/anago-core/src/json.rs: JSON values. Its children are the writer and the parser.
pub mod Write
pub mod Read
pub mod Parse
pub mod Objects
pub mod Valid
pub mod Strings
pub mod Numbers
pub mod Spacing
pub mod Turns
pub mod Sizes
pub mod Loops
pub mod RoundTrip
pub mod Yields
pub mod Escapes
pub mod Atoms
pub mod Containers
pub mod Sound
pub mod Whole
mod Tests
use anago.Prelude.{
  ℕ, suc, ◌+◌, Bool, true, false, List, [], ◌∷◌, Option, none, some, list_eq, nat_eq, ◌==◌,
  if◌then◌else◌, Result, ok, err, map_err, ◌>>=◌,
}
use anago.Prelude.Int.{ℤ}
use anago.Text.{Text}

-- `Value`, with its vectors: `Vec<Value>` is `Items`, and `Object` is `Fields`, the pairs in the
-- order of insertion.
mutual
  pub data Value : Type 0 where
    null : Value
    bool : Bool → Value
    int : ℤ → Value
    str : Text → Value
    arr : Items → Value
    obj : Fields → Value

  pub data Items : Type 0 where
    nil : Items
    cons : Value → Items → Items

  pub data Fields : Type 0 where
    end : Fields
    field : Text → Value → Fields → Fields

pub record DuplicateKey : Type 0 where
  pub key : Text

-- `Object::get`: the first pair with the key.
abbrev pub get : Fields → Text → Option Value
get end k = none
get (field k' v fs) k = if k' == k then some v else get fs k

-- `self.0.push((key, value))`
abbrev pub push : Fields → Text → Value → Fields
push end k v = field k v end
push (field k' v' fs) k v = field k' v' (push fs k v)

unfoldable pub insert : Fields → Text → Value → Result DuplicateKey Fields
insert fs k v = elim (get fs k) [ some _ ↦ err (record { key = k }) | none ↦ ok (push fs k v) ]

-- `Object::len`
abbrev pub len : Fields → ℕ
len end = 0
len (field k v fs) = suc (len fs)

-- The loop of `Object::try_from`, from the pairs already inserted.
unfoldable pub insert_all : Fields → List (Text × Value) → Result DuplicateKey Fields
insert_all fs [] = ok fs
insert_all fs ((k, v) ∷ pairs) = do fs' ← insert fs k v; insert_all fs' pairs

abbrev pub try_obj : List (Text × Value) → Result DuplicateKey Value
try_obj pairs = do fs ← insert_all end pairs; ok (obj fs)

-- `Value::get` and the accessors `as_*`.
abbrev pub get_field : Value → Text → Option Value
get_field (obj fs) k = get fs k
get_field _ k = none

abbrev pub as_bool : Value → Option Bool
as_bool (bool b) = some b
as_bool _ = none

abbrev pub as_i64 : Value → Option ℤ
as_i64 (int n) = some n
as_i64 _ = none

abbrev pub as_str : Value → Option Text
as_str (str s) = some s
as_str _ = none

abbrev pub as_array : Value → Option Items
as_array (arr items) = some items
as_array _ = none

abbrev pub as_object : Value → Option Fields
as_object (obj fs) = some fs
as_object _ = none

abbrev pub is_null : Value → Bool
is_null null = true
is_null _ = false

-- `Value::obj`: it panics on a repeated key, where the model has `null`.
abbrev pub literal_obj : List (Text × Value) → Value
literal_obj pairs = elim (try_obj pairs) [ ok v ↦ v | err d ↦ null ]

-- A vector of values.
abbrev pub items_of : List Value → Items
items_of [] = nil
items_of (v ∷ vs) = cons v (items_of vs)
