-- ===== src/Dnswire/Answer.antt =====
-- crates/anago-core/src/dnswire.rs: the reading of an answer.
use anago.Prelude.{
  ℕ, zero, suc, ◌+◌, ◌*◌, Bool, true, false, not, ◌&&◌, ◌||◌, List, [], ◌∷◌, ◌++◌, none, some,
  bit_and, ltb, nat_eq, list_eq, ◌==◌, if◌then◌else◌, length, get_elem?, take, drop, any, map,
  Result, ok, ok_or, ◌>>=◌, ◌>>◌, guard,
}
use anago.Text.{Text, to_ascii_lowercase}
use anago.Dnswire.{
  DnsError, out_of_bounds, short_header, not_our_question, not_answer, question_end, Bytes,
  header_len, trim_dots, slice, read_name,
}

pub record Reply : Type 0 where
  pub rcode : ℕ
  pub truncated : Bool
  pub values : List Text

-- `RCODE_OK` is 0 and `RCODE_NAME_ERROR` 3.
abbrev pub answered : Reply → Bool
answered r = (r.rcode == 0) || (r.rcode == 3)

abbrev pub holds : Reply → Text → Bool
holds r v = any (λ held. held == v) r.values

abbrev pub fold : Text → Text
fold name = map to_ascii_lowercase (trim_dots name)

-- `message[at]`, and two bytes as a number.
unfoldable pub byte_at : Bytes → ℕ → Result DnsError ℕ
byte_at message at = ok_or (get_elem? message at) out_of_bounds

unfoldable pub u16_at : Bytes → ℕ → Result DnsError ℕ
u16_at message at = do
  high ← byte_at message at
  low ← byte_at message (at + 1)
  ok (high * 256 + low)

module _ (lossy : Bytes → Text) where
  -- The loop of `read_character_strings`; a piece takes its length byte, so the length of the data
  -- is fuel enough.
  unfoldable pub strings_loop : ℕ → Bytes → Text
  strings_loop zero rdata = []
  strings_loop (suc f) [] = []
  strings_loop (suc f) (len ∷ rest) = lossy (take len rest) ++ strings_loop f (drop len rest)

  abbrev pub read_character_strings : Bytes → Text
  read_character_strings rdata = strings_loop (length rdata) rdata

  module _ (message : Bytes) where
    unfoldable pub skip_name : ℕ → Result DnsError ℕ
    skip_name at = do (name, after) ← read_name lossy message at; ok after

    unfoldable pub skip_questions : ℕ → ℕ → Result DnsError ℕ
    skip_questions zero at = ok at
    skip_questions (suc n) at = do
      after ← skip_name at
      guard (not (ltb (length message) (after + 4))) question_end
      skip_questions n (after + 4)

    -- What a record adds to the values: TXT is 16 and IN is 1.
    abbrev pub record_values : Text → Text → ℕ → ℕ → Bytes → List Text → List Text
    record_values wanted owner kind class data_bytes values =
        if (kind == 16) && (class == 1) && (fold owner == wanted)
        then values ++ read_character_strings data_bytes ∷ []
        else values

    -- The loop over the answers; it ends early where the message is cut short.
    unfoldable pub read_answers : Text → ℕ → ℕ → List Text → Result DnsError (List Text)
    read_answers wanted zero at values = ok values
    read_answers wanted (suc n) at values = do
      (owner, after) ← read_name lossy message at
      elim (ltb (length message) (after + 10)) [
        | true ↦ ok values
        | false ↦ do
          kind ← u16_at message after
          class ← u16_at message (after + 2)
          len ← u16_at message (after + 8)
          elim (slice message (after + 10) (after + 10 + len)) [
            | none ↦ ok values
            | some data_bytes ↦
                read_answers wanted n (after + 10 + len)
                  (record_values wanted owner kind class data_bytes values)
          ]
      ]

    unfoldable pub read_txt : ℕ → Text → Result DnsError Reply
    read_txt id name = do
      guard (not (ltb (length message) header_len)) short_header
      asked ← u16_at message 0
      guard (asked == id) not_our_question
      flags ← byte_at message 2
      guard (not (bit_and flags 0x80 == 0)) not_answer
      codes ← byte_at message 3
      questions ← u16_at message 4
      answers ← u16_at message 6
      at ← skip_questions questions header_len
      values ← read_answers (fold name) answers at []
      ok (record {
        rcode = bit_and codes 0x0f;
        truncated = not (bit_and flags 0x02 == 0);
        values = values;
      })
