-- ===== src/Dnswire.antt =====
-- crates/anago-core/src/dnswire.rs: DNS messages, as lists of bytes.
pub mod Names
pub mod Answer
pub mod Strings
pub mod Ends
pub mod Layout
pub mod Total
pub mod Labels
pub mod RoundTrip
mod Tests
use anago.Prelude.{
  ℕ, zero, suc, ◌+◌, ◌-◌, ◌*◌, ◌/◌, ◌%◌, ◌≡◌, Bool, true, false, not, ◌&&◌, ◌||◌, List, [], ◌∷◌,
  ◌++◌, Option, none, some, bit_and, leb, ltb, nat_eq, list_eq, ◌==◌, if◌then◌else◌, length,
  get_elem?, take, drop, all, contains, map, Result, ok, err, ok_or, ◌>>=◌, ◌>>◌, guard,
}
use anago.Text.{Text, to_ascii_lowercase}

abbrev pub max_label : ℕ
max_label = 63

abbrev pub max_name : ℕ
max_name = 255

abbrev pub max_jumps : ℕ
max_jumps = 32

abbrev pub header_len : ℕ
header_len = 12

-- A constructor for each message. The last two are no errors of the source: `fuel_ran_out` is a loop
-- that goes on, and `out_of_bounds` an index beyond the message, where the source panics.
pub data DnsError : Type 0 where
  empty_name not_ascii empty_label long_label long_name not_our_question : DnsError
  short_header not_answer question_end name_end label_end pointer_end pointer_loop bad_length :
      DnsError
  fuel_ran_out out_of_bounds : DnsError

abbrev pub Bytes : Type 0
Bytes = List ℕ

-- `trim_end_matches('.')`
unfoldable pub trim_dots : Text → Text
trim_dots [] = []
trim_dots (c ∷ s) = elim (trim_dots s) [ [] ↦ if c == b'.' then [] else c ∷ [] | d ∷ t ↦ c ∷ d ∷ t ]

-- `split('.')`: the first piece and the others.
abbrev pub split_dots : Text → Text × List Text
split_dots [] = ([], [])
split_dots (c ∷ s) =
    let (label, labels) = split_dots s in
    if c == b'.' then ([], label ∷ labels) else (c ∷ label, labels)

-- One turn of the loop of `encode_name`, and the loop.
abbrev pub encode_label : Text → Result DnsError Bytes
encode_label [] = err empty_label
encode_label (c ∷ s) =
    if ltb max_label (length (c ∷ s)) then err long_label else ok (length (c ∷ s) ∷ c ∷ s)

unfoldable pub encode_labels : List Text → Result DnsError Bytes
encode_labels [] = ok []
encode_labels (label ∷ labels) = do
  first ← encode_label label
  rest ← encode_labels labels
  ok (first ++ rest)

abbrev pub is_empty : Text → Bool
is_empty [] = true
is_empty (c ∷ s) = false

abbrev pub ends : Bytes → Bytes
ends wire = wire ++ (0 ∷ [])

unfoldable pub encode_name : Text → Result DnsError Bytes
encode_name text = do
  let name = trim_dots text
  guard (not (is_empty name)) empty_name
  guard (all (λ c. ltb c 0x80) name) not_ascii
  wire ← encode_labels ((split_dots name).0 ∷ (split_dots name).1)
  guard (leb (length (ends wire)) max_name) long_name
  ok (ends wire)

-- `u16::to_be_bytes`
abbrev pub be16 : ℕ → Bytes
be16 n = n / 256 ∷ n % 256 ∷ []

-- TXT is 16, IN is 1, OPT is 41 and the payload size 1232; the last six bytes are a zero TTL and a
-- zero length.
unfoldable pub txt_query : ℕ → Text → Result DnsError Bytes
txt_query id name = do
  question ← encode_name name
  ok (
      be16 id
      ++ (0
          ∷ 0
          ∷ 0
          ∷ 1
          ∷ 0
          ∷ 0
          ∷ 0
          ∷ 0
          ∷ 0
          ∷ 1
          ∷ (question
              ++ (be16 16
                  ++ (be16 1 ++ (0 ∷ (be16 41 ++ (be16 1232 ++ (0 ∷ 0 ∷ 0 ∷ 0 ∷ 0 ∷ 0 ∷ [])))))))))

-- `message.get(from..to)`, for `from` not above `to`.
abbrev pub slice : Bytes → ℕ → ℕ → Option Bytes
slice message from to =
    if leb to (length message) then some (take (to - from) (drop from message)) else none

-- `name.push_str(label)`, behind a dot where the name has begun.
abbrev pub push_label : Text → Text → Text
push_label [] label = label
push_label (c ∷ s) label = (c ∷ s) ++ (b'.' ∷ label)

-- `after.unwrap_or(at)` and `after.get_or_insert(at)`.
abbrev pub or_at : Option ℕ → ℕ → ℕ
or_at none at = at
or_at (some after) at = after

module _ (lossy : Bytes → Text) (message : Bytes) where
  -- The loop of `read_name`, whose state is the name so far, the offset, the offset after the first
  -- pointer, and the pointers followed. `lossy` is `String::from_utf8_lossy`.
  unfoldable pub name_loop : ℕ → Text → ℕ → Option ℕ → ℕ → Result DnsError (Text × ℕ)
  name_loop zero name at after jumps = err fuel_ran_out
  name_loop (suc f) name at after jumps = elim (get_elem? message at) [
    | none ↦ err name_end
    | some len ↦
        let follow = name_loop f in
        if bit_and len 0xc0 == 0
        then (if len == 0
            then ok (name, or_at after (at + 1))
            else (elim (slice message (at + 1) (at + 1 + len)) [
              | none ↦ err label_end
              | some label ↦ follow (push_label name (lossy label)) (at + 1 + len) after jumps
            ]))
        else if bit_and len 0xc0 == 0xc0
        then (elim (get_elem? message (at + 1)) [
          | none ↦ err pointer_end
          | some low ↦
              if ltb max_jumps (jumps + 1)
              then err pointer_loop
              else follow name (bit_and len 0x3f * 256 + low) (some (or_at after (at + 2)))
                  (jumps + 1)
        ])
        else err bad_length
  ]

  -- Enough for every pointer to be followed by a walk over the message.
  abbrev pub name_fuel : ℕ
  name_fuel = suc ((max_jumps + 1) * (length message + 2) + length message)

  unfoldable pub read_name : ℕ → Result DnsError (Text × ℕ)
  read_name start = name_loop name_fuel [] start none 0
