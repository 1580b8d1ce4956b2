-- ===== src/Args.antt =====
-- crates/anago/src/args.rs: the parsing of flags against those that a command declares.
pub mod Given
pub mod Command
mod Tests
use anago.Prelude.{
  ℕ, ◌≡◌, Bool, true, false, not, ◌&&◌, ◌||◌, List, [], ◌∷◌, ◌++◌, Option, none, some, ◌==◌,
  list_eq, nat_eq, if◌then◌else◌, find, any, Result, ok, err, ok_or, ◌>>=◌,
}
use anago.Text.{Text, lit, split_once, strip_prefix}

pub data FlagKind : Type 0 where
  boolean valued : FlagKind

pub record Flag : Type 0 where
  pub name : Text
  pub kind : FlagKind

pub record ParsedArgs : Type 0 where
  pub positionals : List Text
  pub flags : List (Text × Option Text)

pub data ArgError : Type 0 where
  unknown : Text → ArgError
  missing_value empty_value unexpected_value duplicate required : Text → ArgError

abbrev pub dashes : Text
dashes = lit "--"

abbrev pub starts_with_dash : Text → Bool
starts_with_dash [] = false
starts_with_dash (c ∷ cs) = c == b'-'

abbrev pub is_flag_like : Text → Bool
is_flag_like arg = starts_with_dash arg && not (arg == lit "-")

abbrev pub find_flag : List Flag → Text → Option Flag
find_flag spec token = elim (strip_prefix dashes token) [
  | none ↦ none
  | some name ↦ find (λ (f : Flag). f.name == name) spec
]

-- The token of a flag, and the value behind its `=`.
unfoldable pub split_flag : Text → Text × Option Text
split_flag arg = elim (split_once b'=' arg) [
  | none ↦ (arg, none)
  | some (token, value) ↦ (token, some value)
]

abbrev pub is_set : ParsedArgs → Text → Bool
is_set p name = any (λ (f : Text × Option Text). f.0 == name) p.flags

unfoldable pub value_of : ParsedArgs → Text → Option Text
value_of p name = elim (find (λ (f : Text × Option Text). f.0 == name) p.flags) [
  | none ↦ none
  | some f ↦ f.1
]

unfoldable pub require : ParsedArgs → Text → Result ArgError Text
require p name = ok_or (value_of p name) (required name)

abbrev pub push_positional : ParsedArgs → Text → ParsedArgs
push_positional p arg = record p { positionals = p.positionals ++ arg ∷ [] }

-- A repeated flag is refused.
unfoldable pub push_flag : ParsedArgs → Text → Option Text → Result ArgError ParsedArgs
push_flag p name value =
    if is_set p name
    then err (duplicate name)
    else ok (record p { flags = p.flags ++ (name, value) ∷ [] })

unfoldable pub push_value : ParsedArgs → Text → Text → Result ArgError ParsedArgs
push_value p name [] = err (empty_value name)
push_value p name (c ∷ cs) = push_flag p name (some (c ∷ cs))

-- What an argument is, before a `--`.
pub data Turn : Type 0 where
  ends plain : Turn
  undeclared : Text → Turn
  given : Flag → Option Text → Turn

unfoldable pub read_arg : List Flag → Text → Turn
read_arg spec arg =
    if arg == dashes
    then ends
    else if (arg == lit "-") || not (starts_with_dash arg)
    then plain
    else (elim (find_flag spec (split_flag arg).0) [
      | none ↦ undeclared (split_flag arg).0
      | some flag ↦ given flag (split_flag arg).1
    ])

unfoldable mutual
  -- The loop; the Boolean is `rest_are_positional`.
  pub parse_loop : List Flag → ParsedArgs → Bool → List Text → Result ArgError ParsedArgs
  parse_loop spec p after [] = ok p
  parse_loop spec p true (arg ∷ rest) = parse_loop spec (push_positional p arg) true rest
  parse_loop spec p false (arg ∷ rest) = elim (read_arg spec arg) [
    | ends ↦ parse_loop spec p true rest
    | plain ↦ parse_loop spec (push_positional p arg) false rest
    | undeclared token ↦ err (unknown token)
    | given flag inline ↦ elim flag.kind [
      | boolean ↦ elim inline [
        | some v ↦ err (unexpected_value flag.name)
        | none ↦ push_flag p flag.name none >>= (λ q. parse_loop spec q false rest)
      ]
      | valued ↦ elim inline [
        | some v ↦ push_value p flag.name v >>= (λ q. parse_loop spec q false rest)
        | none ↦ next_value spec p flag.name rest
      ]
    ]
  ]

  -- The value of a flag is the argument behind it, unless that is a flag too.
  pub next_value : List Flag → ParsedArgs → Text → List Text → Result ArgError ParsedArgs
  next_value spec p name [] = err (missing_value name)
  next_value spec p name (next ∷ rest) =
      if is_flag_like next
      then err (missing_value name)
      else push_value p name next >>= (λ q. parse_loop spec q false rest)

abbrev pub parse : List Text → List Flag → Result ArgError ParsedArgs
parse argv spec = parse_loop spec (record { positionals = []; flags = [] }) false argv
