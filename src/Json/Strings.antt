-- ===== src/Json/Strings.antt =====
-- JSON strings (crates/anago-core/src/json.rs): what is written of a string reads back.
use anago.Prelude.{
  ℕ, zero, suc, ◌+◌, ◌*◌, ◌/◌, ◌%◌, ◌≤◌, ◌<◌, ◌≡◌, refl, some, [], ◌∷◌, arith, nat_eq, length, ok,
}
use anago.Text.{Text, utf8_len}
use anago.Json.Write.{write_char, write_chars, write_string, hex_char}
use anago.Json.Read.{
  hex_value, hex_run, hex4, unicode_escape, read_escape, read_char, read_chars, read_string, expect,
}

hex_value-hex_char : (d : ℕ) → d < 16 → hex_value (hex_char d) ≡ some d
hex_value-hex_char d h = ground arith

utf8_len-pos : (c : ℕ) → 1 ≤ utf8_len c
utf8_len-pos c = ground arith

hex_run_low :
    (a b : ℕ) (after : Text)
    → a < 16
    → b < 16
    → hex_run 4 0 (b'0' ∷ b'0' ∷ hex_char a ∷ hex_char b ∷ after) ≡ some (a * 16 + b, after)
hex_run_low a b after h k = ground (arith, hex_value-hex_char a h, hex_value-hex_char b k)

hex4_low :
    (a b : ℕ) (after : Text)
    → a < 16
    → b < 16
    → hex4 (b'0' ∷ b'0' ∷ hex_char a ∷ hex_char b ∷ after) ≡ ok (a * 16 + b, after)
unfolding hex4
hex4_low a b after h k =
    ground (arith, hex_run_low a b after h k, utf8_len-pos (hex_char a), utf8_len-pos (hex_char b))

read_escape_control :
    (c : ℕ) (after : Text)
    → c < 32
    → read_escape (b'u' ∷ b'0' ∷ b'0' ∷ hex_char (c / 16) ∷ hex_char (c % 16) ∷ after)
      ≡ ok (c, after)
unfolding read_escape unicode_escape
read_escape_control c after h =
    let e : c / 16 * 16 + c % 16 ≡ c = omega arith in
    rw (hex4_low (c / 16) (c % 16) after (omega arith) (omega arith), e) (ground arith)

pub read_char-write_char :
    (c : ℕ) (after : Text) → read_char (write_char c after) ≡ ok (some c, after)
unfolding read_char write_char read_escape
read_char-write_char c after = ground (arith, read_escape_control c after)

pub length-write_char : (c : ℕ) (after : Text) → suc (length after) ≤ length (write_char c after)
unfolding write_char
length-write_char c after = ground arith

pub length-write_chars : (s after : Text) → length s + length after ≤ length (write_chars s after)
unfolding write_chars
length-write_chars [] after = omega arith
length-write_chars (c ∷ s) after =
    omega (arith, length-write_chars s after, length-write_char c (write_chars s after))

read_chars-write_chars :
    (f : ℕ) (s after : Text)
    → length s < f
    → read_chars f (write_chars s (0x22 ∷ after)) ≡ ok (s, after)
unfolding read_chars write_chars read_char
read_chars-write_chars zero s after h = elim h [ ]
read_chars-write_chars (suc f) [] after h = refl
read_chars-write_chars (suc f) (c ∷ s) after h =
    rw
      (
        read_char-write_char c (write_chars s (0x22 ∷ after)),
        read_chars-write_chars f s after (omega arith),
      )
      refl

pub read_string-write_string : (s after : Text) → read_string (write_string s after) ≡ ok (s, after)
unfolding read_string write_string expect
read_string-write_string s after =
    read_chars-write_chars (suc (length (write_chars s (0x22 ∷ after)))) s after
      (omega (arith, length-write_chars s (0x22 ∷ after)))
