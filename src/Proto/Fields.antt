-- ===== src/Proto/Fields.antt =====
-- crates/anago-core/src/proto.rs: the reading of fields, and its errors.
use anago.Prelude.{[], ◌∷◌, ◌++◌, Option, none, some, Result, err, ok_or}
use anago.Text.{Text}
use anago.Json.{Value, Items, Fields, get, as_str, as_array, as_object}

pub data DecodeErrorKind : Type 0 where
  missing wrong_type unknown_value : DecodeErrorKind

pub record DecodeError : Type 0 where
  pub path : Text
  pub kind : DecodeErrorKind

-- The constructors `DecodeError::missing`, `wrong_type` and `unknown_value`.
abbrev pub decode_error : DecodeErrorKind → Text → DecodeError
decode_error k name = record { path = name; kind = k }

-- `{prefix}.{field}`, or the prefix where the element itself was wrong.
abbrev pub under : Text → Text → Text
under prefix [] = prefix
under prefix (c ∷ s) = prefix ++ (b'.' ∷ c ∷ s)

abbrev pub within : Text → DecodeError → DecodeError
within prefix e = record e { path = under prefix e.path }

abbrev pub object : Value → Result DecodeError Fields
object v = ok_or (as_object v) (decode_error wrong_type [])

-- A field that must be there, read by `read`.
abbrev pub field_by : {A : Type 0} → (Value → Option A) → Fields → Text → Result DecodeError A
field_by read fs name = elim (get fs name) [
  | none ↦ err (decode_error missing name)
  | some found ↦ ok_or (read found) (decode_error wrong_type name)
]

abbrev pub string_field : Fields → Text → Result DecodeError Text
string_field = field_by as_str

abbrev pub array_field : Fields → Text → Result DecodeError Items
array_field = field_by as_array
