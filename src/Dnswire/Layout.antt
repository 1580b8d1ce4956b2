-- ===== src/Dnswire/Layout.antt =====
-- The layout of an answer (crates/anago-core/src/dnswire.rs): its header, questions and records.
use anago.Prelude.{
  ℕ, zero, suc, ◌+◌, ◌≤◌, ◌<◌, ◌≡◌, false, not, List, [], ◌∷◌, some, nat_eq, list_eq, ◌==◌, bit_and,
  length, ok,
}
use anago.Text.{Text}
use anago.Dnswire.{Bytes, slice, read_name, header_len}
use anago.Dnswire.Answer.{Reply, byte_at, u16_at, read_character_strings, fold}

module _ (lossy : Bytes → Text) where
  module _ (message : Bytes) where
    -- The questions from one offset to another.
    pub data Questions : ℕ → ℕ → ℕ → Type 0 where
      asked : (at : ℕ) → Questions zero at at
      question :
          (n at : ℕ) (name : Text) (after to : ℕ)
          → read_name lossy message at ≡ ok (name, after)
          → after + 4 ≤ length message
          → Questions n (after + 4) to
          → Questions (suc n) at to

    -- A record with its header inside the message: owner, type, class and the length of its data.
    abbrev pub IsRecord : ℕ → Text → ℕ → ℕ → ℕ → ℕ → Type 0
    IsRecord at owner after kind class len =
        (read_name lossy message at ≡ ok (owner, after))
        × (after + 10 ≤ length message)
        × (u16_at message after ≡ ok kind)
        × (u16_at message (after + 2) ≡ ok class)
        × (u16_at message (after + 8) ≡ ok len)

    -- A text record of the Internet class (16 and 1) for the name that is wanted.
    abbrev pub IsWanted : Text → Text → ℕ → ℕ → Type 0
    IsWanted wanted owner kind class = (kind ≡ 16) × (class ≡ 1) × (fold owner ≡ wanted)

    -- The values of the records from an offset on, in their order; where the message is cut short, of
    -- those that are whole.
    pub data Records (wanted : Text) : ℕ → ℕ → List Text → Type 0 where
      done : (at : ℕ) → Records wanted zero at []
      header_cut :
          (n at : ℕ) (owner : Text) (after : ℕ)
          → read_name lossy message at ≡ ok (owner, after)
          → length message < after + 10
          → Records wanted (suc n) at []
      data_cut :
          (n at : ℕ) (owner : Text) (after kind class len : ℕ)
          → IsRecord at owner after kind class len
          → length message < after + 10 + len
          → Records wanted (suc n) at []
      held :
          (n at : ℕ) (owner : Text) (after kind class len : ℕ) (data_bytes : Bytes)
          (values : List Text)
          → IsRecord at owner after kind class len
          → IsWanted wanted owner kind class
          → slice message (after + 10) (after + 10 + len) ≡ some data_bytes
          → Records wanted n (after + 10 + len) values
          → Records wanted (suc n) at (read_character_strings lossy data_bytes ∷ values)
      passed :
          (n at : ℕ) (owner : Text) (after kind class len : ℕ) (values : List Text)
          → IsRecord at owner after kind class len
          → (IsWanted wanted owner kind class → ⊥)
          → after + 10 + len ≤ length message
          → Records wanted n (after + 10 + len) values
          → Records wanted (suc n) at values

    -- What a reply says of the message.
    pub record Describes (id : ℕ) (name : Text) (r : Reply) : Type 0 where
      pub flags : ℕ
      pub codes : ℕ
      pub questions : ℕ
      pub answers : ℕ
      pub at : ℕ
      pub header : header_len ≤ length message
      pub id_eq : u16_at message 0 ≡ ok id
      pub flags_eq : byte_at message 2 ≡ ok flags
      pub codes_eq : byte_at message 3 ≡ ok codes
      pub questions_eq : u16_at message 4 ≡ ok questions
      pub answers_eq : u16_at message 6 ≡ ok answers
      pub response : (bit_and flags 0x80 == 0) ≡ false
      pub truncated_eq : r.truncated ≡ not (bit_and flags 0x02 == 0)
      pub rcode_eq : r.rcode ≡ bit_and codes 0x0f
      pub skipped : Questions questions header_len at
      pub values_eq : Records (fold name) answers at r.values
