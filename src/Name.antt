-- ===== src/Name.antt =====
-- crates/anago-core/src/name.rs: device names. Rust's tables of letters are not written out here:
-- `char::is_alphanumeric` and `str::to_lowercase` are parameters, `Unicode`.
pub mod Canonical
pub mod Ascii
mod Tests
use anago.Prelude.{
  ◌++◌, ℕ, ◌+◌, ◌<◌, ◌≡◌, ◌↔◌, Bool, true, false, ◌&&◌, ◌||◌, not, List, [], ◌∷◌, Option, none,
  some, arith, ◌==◌, Eq, nat_eq, list_eq, list_beq_iff, if◌then◌else◌, leb, length, find, contains,
  any, Result, ok, err, ◌>>=◌, ◌>>◌, guard, map,
}
use anago.Text.Decimal.{decimal}
use anago.Text.{Text, lit, trim, last?, is_whitespace, is_ascii_alphanumeric}

pub record Unicode : Type 0 where
  pub is_alphanumeric : ℕ → Bool
  pub to_lowercase : Text → Text

abbrev pub max_len : ℕ
max_len = 32

abbrev pub reserved : List Text
reserved = lit "server" ∷ []

-- A device name in canonical form.
pub record DeviceName : Type 0 where
  pub text : Text

abbrev pub name_beq : DeviceName → DeviceName → Bool
name_beq x y = x.text == y.text

pub name_beq_iff : (x y : DeviceName) → (name_beq x y ≡ true) ↔ (x ≡ y)
name_beq_iff x y = ground (arith, list_beq_iff x.text y.text)

instance abbrev pub name_eq : Eq DeviceName
name_eq = record { beq = name_beq; beq_iff = name_beq_iff }

pub data NameError : Type 0 where
  empty : NameError
  too_long : ℕ → NameError
  bad_char : ℕ → NameError
  bad_edge : ℕ → NameError
  is_reserved taken : NameError

abbrev pub first? : Text → Option ℕ
first? [] = none
first? (c ∷ cs) = some c

-- `RESERVED.contains(&name)`.
unfoldable pub on_reserved : Text → Bool
on_reserved name = contains reserved name

module _ (u : Unicode) where
  abbrev pub is_allowed : ℕ → Bool
  is_allowed c = u.is_alphanumeric c || (c == b'-') || (c == b'_')

  -- What stands at an edge must be a letter or a digit. (A text with no character has no edge; the
  -- code expects one.)
  unfoldable pub check_edge : Option ℕ → Result NameError (Unit {0})
  check_edge none = ok tt
  check_edge (some c) = guard (u.is_alphanumeric c) (bad_edge c)

  unfoldable pub check_chars : Text → Result NameError (Unit {0})
  check_chars name = elim (find (λ c. not (is_allowed c)) name) [
    | none ↦ ok tt
    | some c ↦ err (bad_char c)
  ]

  -- `DeviceName::parse`.
  unfoldable pub parse : Text → Result NameError DeviceName
  parse input = do
    let trimmed = trim input
    guard (not (length trimmed == 0)) empty
    let name = u.to_lowercase trimmed
    guard (leb (length name) max_len) (too_long (length name))
    check_chars name
    check_edge (first? name)
    check_edge (last? name)
    guard (not (on_reserved name)) is_reserved
    ok (record { text = name })

-- `name::is_taken`.
unfoldable pub is_taken : List Text → DeviceName → Bool
is_taken existing candidate = any (λ name. name == candidate.text) existing

-- `Display for NameError`; `debug_char` is what `{:?}` prints of a character.
unfoldable pub display_error : (ℕ → Text) → NameError → Text
display_error debug_char empty = lit "device name is empty"
display_error debug_char (too_long len) =
    lit "device name is " ++ decimal len ++ lit " characters, the limit is " ++ decimal max_len
display_error debug_char (bad_char c) =
    lit "device names cannot contain " ++ debug_char c ++ lit "; use letters, digits, '-' or '_'"
display_error debug_char (bad_edge c) = lit "device names cannot start or end with " ++ debug_char c
display_error debug_char is_reserved = lit "that device name is reserved"
display_error debug_char taken = lit "a device with that name is already registered"
