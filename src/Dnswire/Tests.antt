-- ===== src/Dnswire/Tests.antt =====
-- Runs of crates/anago-core/src/dnswire.rs; the bytes of a label are ASCII here.
use anago.Prelude.{◌+◌, ◌≡◌, refl, false, [], ◌∷◌, ◌++◌, ok, err}
use anago.Text.{Text, lit}
use anago.Dnswire.Names.{Reads, read_name-Reads}
use anago.Dnswire.Answer.{read_txt, read_answers, skip_questions, byte_at, u16_at, strings_loop}
use anago.Dnswire.Ends.{Ends}
use anago.Dnswire.Layout.{Describes}
use anago.Dnswire.Total.{read_txt-Ends}
use anago.Dnswire.Labels.{IsLossy}
use anago.Dnswire.RoundTrip.{read_name-encode_name}
use anago.Dnswire.{Bytes, encode_name, encode_labels, trim_dots, read_name, name_loop, pointer_loop}

abbrev as_ascii : Bytes → Text
as_ascii bytes = bytes

abbrev dotted : Text
dotted = lit "a.example."

abbrev wire : Bytes
wire = 1 ∷ b'a' ∷ 7 ∷ (lit "example" ++ (0 ∷ []))

encode_dotted : encode_name dotted ≡ ok wire
unfolding encode_name encode_labels trim_dots
encode_dotted = refl

-- A pointer to itself.
self_pointer : read_name as_ascii (0xC0 ∷ 0 ∷ []) 0 ≡ err pointer_loop
unfolding read_name name_loop
self_pointer = refl

read_name-Reads_example : Reads 0 2 (read_name as_ascii (0xC0 ∷ 0 ∷ []) 0)
read_name-Reads_example = read_name-Reads as_ascii (0xC0 ∷ 0 ∷ []) 0

as_ascii-IsLossy : IsLossy as_ascii
as_ascii-IsLossy = record { ascii_eq = λ s h. refl }

read_name-encode_name_example :
    read_name as_ascii ((7 ∷ []) ++ (wire ++ [])) 1 ≡ ok (trim_dots dotted, 1 + 11)
read_name-encode_name_example =
    read_name-encode_name as_ascii as_ascii-IsLossy (7 ∷ []) [] dotted encode_dotted

-- An answer with one text record for `a`.
abbrev reply : Bytes
reply =
    0
    ∷ 1
    ∷ 0x80
    ∷ 0
    ∷ 0
    ∷ 0
    ∷ 0
    ∷ 1
    ∷ 0
    ∷ 0
    ∷ 0
    ∷ 0
    ∷ 1
    ∷ b'a'
    ∷ 0
    ∷ 0
    ∷ 16
    ∷ 0
    ∷ 1
    ∷ 0
    ∷ 0
    ∷ 0
    ∷ 0
    ∷ 0
    ∷ 3
    ∷ 2
    ∷ lit "hi"

read_txt-reply :
    read_txt as_ascii reply 1 (lit "a")
    ≡ ok (record { rcode = 0; truncated = false; values = lit "hi" ∷ [] })
unfolding read_txt read_answers skip_questions byte_at u16_at strings_loop read_name name_loop
    trim_dots
read_txt-reply = refl

read_txt-Ends_example :
    Ends (Describes as_ascii reply 1 (lit "a")) (read_txt as_ascii reply 1 (lit "a"))
read_txt-Ends_example = read_txt-Ends as_ascii reply 1 (lit "a")
