-- ===== src/Wg.antt =====
-- crates/anago/src/wg.rs: the shape of a WireGuard key.
pub mod Key
mod Tests
use anago.Prelude.{
  ℕ, ◌≡◌, Bool, true, false, ◌&&◌, ◌||◌, List, [], ◌∷◌, Option, none, some, ◌==◌, nat_eq,
  if◌then◌else◌, all, length, Result, ok, err,
}
use anago.Text.{Text, lit, is_ascii_alphanumeric, byte_len, init, last?, trim, trim_start, trim_end}

pub data WgError : Type 0 where
  bad_key : ℕ → WgError

-- `str::ends_with` of one character.
abbrev pub ends_with : ℕ → Text → Bool
ends_with c s = elim (last? s) [ none ↦ false | some d ↦ d == c ]

abbrev pub is_base64 : ℕ → Bool
is_base64 c = is_ascii_alphanumeric c || (c == b'+') || (c == b'/')

-- What `parse_key` asks of the trimmed text. The last byte is `=`, so the first 43 bytes are all
-- characters but the last.
unfoldable pub is_key : Text → Bool
is_key key = (byte_len key == 44) && ends_with b'=' key && all is_base64 (init key)

unfoldable pub parse_key : Text → Result WgError Text
parse_key output =
    if is_key (trim output) then ok (trim output) else err (bad_key (length (trim output)))
