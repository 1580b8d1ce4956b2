-- ===== src/Wg/Tests.antt =====
-- Runs of `parse_key` of crates/anago/src/wg.rs.
use anago.Prelude.{◌≡◌, refl, ok, err, ◌++◌}
use anago.Text.{Text, lit, trim_start, trim_end, is_whitespace}
use anago.Wg.{parse_key, is_key, bad_key}

abbrev printed : Text
printed = lit "AAAAAAAAAAAAAAAAAAAAAAAAAAAAAAAAAAAAAAAAAAA="

parse_key-printed : parse_key (printed ++ lit "\n") ≡ ok printed
unfolding parse_key is_key trim_start trim_end is_whitespace
parse_key-printed = refl

parse_key_short : parse_key (lit "AAAA=") ≡ err (bad_key 5)
unfolding parse_key is_key trim_start trim_end is_whitespace
parse_key_short = refl
