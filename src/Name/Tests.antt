-- ===== src/Name/Tests.antt =====
-- Runs of crates/anago-core/src/name.rs, with the ASCII part of Rust's tables.
use anago.Prelude.{◌≡◌, refl, ◌↔◌, ok, err}
use anago.Text.{Text, lit, is_whitespace, trim_start, trim_end}
use anago.Name.{
  DeviceName, parse, on_reserved, check_chars, check_edge, empty, bad_char, bad_edge, is_reserved,
}
use anago.Name.Ascii.{ascii, ascii-IsUnicode}
use anago.Name.Canonical.{IsCanonical, IsCanonical-iff-parse}

abbrev macbook : DeviceName
macbook = record { text = lit "macbook" }

parse-macbook : parse ascii (lit " MacBook ") ≡ ok macbook
unfolding parse check_chars check_edge on_reserved trim_start trim_end is_whitespace
parse-macbook = refl

parse_blank : parse ascii (lit "  ") ≡ err empty
unfolding parse trim_start trim_end is_whitespace
parse_blank = refl

parse_dot : parse ascii (lit "my.mac") ≡ err (bad_char b'.')
unfolding parse check_chars trim_start trim_end is_whitespace
parse_dot = refl

parse_edge : parse ascii (lit "mac-") ≡ err (bad_edge b'-')
unfolding parse check_chars check_edge trim_start trim_end is_whitespace
parse_edge = refl

parse_server : parse ascii (lit "Server") ≡ err is_reserved
unfolding parse check_chars check_edge on_reserved trim_start trim_end is_whitespace
parse_server = refl

IsCanonical-iff-parse_example :
    (IsCanonical ascii macbook ↔ ((input : Text) × (parse ascii input ≡ ok macbook)))
    × (IsCanonical ascii macbook ↔ (parse ascii macbook.text ≡ ok macbook))
IsCanonical-iff-parse_example = IsCanonical-iff-parse ascii ascii-IsUnicode macbook
