-- ===== src/Statefile.antt =====
-- crates/anago-core/src/state.rs, lines 619 to 765: the fields of the state file and the errors of
-- reading it.
pub mod Records
pub mod Whole
pub mod RoundTrip
pub mod Written
pub mod Kept
mod Tests
use anago.Prelude.{
  ℕ, ◌≡◌, Bool, true, false, [], ◌∷◌, Option, none, some, leb, Result, ok, err, ok_or, map_err,
  ◌>>=◌, if◌then◌else◌,
}
use anago.Prelude.Int.{ℤ, pos, negsuc}
use anago.Text.{Text}
use anago.Ipv4
use anago.Ipv4.{Ipv4Addr}
use anago.Subnet.{SubnetError}
use anago.Name.{NameError}
use anago.Token.{TokenError}
use anago.Code.{CodeError}
use anago.Json.{Value, null, int, str, Items, Fields, get, as_i64, as_str, as_object}
use anago.Json.Parse.{JsonError}
use anago.Proto.Fields.{
  DecodeError, decode_error, missing, wrong_type, under, within, field_by, string_field,
}

-- What `BadValue` says in its message.
pub data Reason : Type 0 where
  bad_subnet : SubnetError → Reason
  bad_name : NameError → Reason
  bad_hash : TokenError → Reason
  bad_code : CodeError → Reason
  not_port : ℤ → Reason
  not_address not_source not_challenge : Text → Reason
  not_first_address manual_with_acme acme_without : Reason

pub data StateError : Type 0 where
  not_json : JsonError → StateError
  shape : DecodeError → StateError
  unsupported_version : ℤ → StateError
  bad_value : Text → Reason → StateError

-- `StateError::within`
abbrev pub state_within : Text → StateError → StateError
state_within prefix (shape e) = shape (within prefix e)
state_within prefix (bad_value field why) = bad_value (under prefix field) why
state_within prefix other = other

-- `?` on a `DecodeError`, and behind `map_err(|e| e.within(prefix))`.
abbrev pub lift : {A : Type 0} → Result DecodeError A → Result StateError A
lift m = map_err m shape

abbrev pub lift_in : {A : Type 0} → Text → Result DecodeError A → Result StateError A
lift_in prefix m = map_err m (λ e. shape (within prefix e))

abbrev pub opt_str : Option Text → Value
opt_str (some text) = str text
opt_str none = null

abbrev pub opt_time : Option ℤ → Value
opt_time (some at) = int at
opt_time none = null

abbrev pub int_field : Fields → Text → Result DecodeError ℤ
int_field = field_by as_i64

abbrev pub object_field : Fields → Text → Result DecodeError Fields
object_field = field_by as_object

-- A field that must be there and may be null.
abbrev pub or_null :
    {A : Type 0} → (Value → Option A) → Value → Text → Result DecodeError (Option A)
or_null read null name = ok none
or_null read v name = elim (read v) [
  | some a ↦ ok (some a)
  | none ↦ err (decode_error wrong_type name)
]

abbrev pub opt_field_by :
    {A : Type 0} → (Value → Option A) → Fields → Text → Result DecodeError (Option A)
opt_field_by read fs name = elim (get fs name) [
  | none ↦ err (decode_error missing name)
  | some found ↦ or_null read found name
]

abbrev pub opt_int_field : Fields → Text → Result DecodeError (Option ℤ)
opt_int_field = opt_field_by as_i64

abbrev pub opt_string_field : Fields → Text → Result DecodeError (Option Text)
opt_string_field = opt_field_by as_str

abbrev pub opt_object_field : Fields → Text → Result DecodeError (Option Fields)
opt_object_field = opt_field_by as_object

-- `u16::try_from`
abbrev pub to_u16 : ℤ → Option ℕ
to_u16 (pos n) = if leb n 0xffff then some n else none
to_u16 (negsuc n) = none

abbrev pub port_field : Fields → Text → Result StateError ℕ
port_field fs name = do
  value ← lift (int_field fs name)
  ok_or (to_u16 value) (bad_value name (not_port value))

abbrev pub address_field : Fields → Text → Result StateError Ipv4Addr
address_field fs name = do
  text ← lift (string_field fs name)
  ok_or (Ipv4.parse text) (bad_value name (not_address text))
