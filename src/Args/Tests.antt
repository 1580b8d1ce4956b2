-- ===== src/Args/Tests.antt =====
-- Runs of crates/anago/src/args.rs.
use anago.Prelude.{◌≡◌, refl, ◌↔◌, List, [], ◌∷◌, none, some, ok, err}
use anago.Text.{Text, lit, split_once}
use anago.Args.{
  Flag, boolean, valued, ParsedArgs, missing_value, empty_value, unexpected_value, duplicate,
  unknown, read_arg, split_flag, parse, parse_loop, push_flag, push_value, value_of, require,
  required,
}
use anago.Args.Given.{IsDeclared}
use anago.Args.Command.{render, parse-IsDeclared_iff}

abbrev spec : List Flag
spec =
    record { name = lit "domain"; kind = valued }
    ∷ record { name = lit "port"; kind = valued }
    ∷ record { name = lit "no-systemd"; kind = boolean }
    ∷ []

abbrev typed : List Text
typed = lit "--no-systemd" ∷ lit "ls" ∷ lit "--domain" ∷ lit "a.b" ∷ lit "--" ∷ lit "-x" ∷ []

abbrev read : ParsedArgs
read = record {
  positionals = lit "ls" ∷ lit "-x" ∷ [];
  flags = (lit "no-systemd", none) ∷ (lit "domain", some (lit "a.b")) ∷ [];
}

parse-typed : parse typed spec ≡ ok read
unfolding parse_loop read_arg split_flag split_once push_flag push_value
parse-typed = refl

parse_unknown : parse (lit "--domian=a" ∷ []) spec ≡ err (unknown (lit "--domian"))
unfolding parse_loop read_arg split_flag split_once
parse_unknown = refl

-- A number below zero is not the value of a flag.
parse_missing : parse (lit "--port" ∷ lit "-1" ∷ []) spec ≡ err (missing_value (lit "port"))
unfolding parse_loop read_arg split_flag split_once
parse_missing = refl

parse_empty : parse (lit "--port=" ∷ []) spec ≡ err (empty_value (lit "port"))
unfolding parse_loop read_arg split_flag split_once push_value
parse_empty = refl

parse_unexpected :
    parse (lit "--no-systemd=1" ∷ []) spec ≡ err (unexpected_value (lit "no-systemd"))
unfolding parse_loop read_arg split_flag split_once
parse_unexpected = refl

parse_duplicate :
    parse (lit "--port=1" ∷ lit "--port" ∷ lit "2" ∷ []) spec ≡ err (duplicate (lit "port"))
unfolding parse_loop read_arg split_flag split_once push_flag push_value
parse_duplicate = refl

value_of-read : value_of read (lit "domain") ≡ some (lit "a.b")
unfolding value_of
value_of-read = refl

require_port : require read (lit "port") ≡ err (required (lit "port"))
unfolding require value_of
require_port = refl

parse-IsDeclared_iff_example :
    (IsDeclared spec read ↔ ((argv : List Text) × (parse argv spec ≡ ok read)))
    × (IsDeclared spec read ↔ (parse (render read) spec ≡ ok read))
parse-IsDeclared_iff_example =
    parse-IsDeclared_iff spec read ((refl, refl), ((refl, refl), ((refl, refl), tt)))
