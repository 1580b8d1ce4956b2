-- ===== src/Acme/Tests.antt =====
-- Runs of crates/anago-core/src/acme.rs.
use anago.Prelude.{◌≡◌, refl, nat_eq, err}
use anago.Text.{lit}
use anago.Acme.{token_character, parse_challenge_token, dns01_record_name}

parse_challenge_token_slash : parse_challenge_token (lit "../x") ≡ err (token_character b'.')
unfolding parse_challenge_token
parse_challenge_token_slash = refl

dns01_record_name_dot : dns01_record_name (lit "vpn.test.") ≡ lit "_acme-challenge.vpn.test"
unfolding dns01_record_name
dns01_record_name_dot = refl
