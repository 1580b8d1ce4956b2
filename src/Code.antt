-- ===== src/Code.antt =====
-- crates/anago-core/src/code.rs: join codes, their shape and their lifetime.
pub mod Shape
pub mod Canonical
pub mod Lifetime
mod Tests
use anago.Prelude.{
  ℕ, ◌+◌, ◌≡◌, ◌↔◌, Bool, true, false, ◌&&◌, ◌||◌, List, [], ◌∷◌, ◌++◌, Option, none, some, arith,
  ◌==◌, not, Eq, nat_eq, list_eq, list_beq_iff, if◌then◌else◌, length, take, drop, get_elem?,
  contains, Result, ok, err, ◌>>=◌, ◌>>◌, guard,
}
use anago.Prelude.Int.{ℤ}
use anago.Prelude.I64.{saturating_add, geb_ℤ}
use anago.Text.{Text, lit, to_ascii_uppercase, is_whitespace}

abbrev pub alphabet : Text
alphabet = lit "23456789ABCDEFGHJKMNPQRSTVWXYZ"

abbrev pub group_len : ℕ
group_len = 4

abbrev pub code_len : ℕ
code_len = 8

-- A join code in canonical form.
pub record JoinCode : Type 0 where
  pub text : Text

abbrev pub code_beq : JoinCode → JoinCode → Bool
code_beq x y = x.text == y.text

pub code_beq_iff : (x y : JoinCode) → (code_beq x y ≡ true) ↔ (x ≡ y)
code_beq_iff x y = ground (arith, list_beq_iff x.text y.text)

instance abbrev pub code_eq : Eq JoinCode
code_eq = record { beq = code_beq; beq_iff = code_beq_iff }

pub data CodeError : Type 0 where
  bad_char : ℕ → CodeError
  wrong_length : ℕ → CodeError

unfoldable pub in_alphabet : ℕ → Bool
in_alphabet c = contains alphabet c

-- What `parse` passes over: hyphens and whitespace.
unfoldable pub is_separator : ℕ → Bool
unfolding is_whitespace
is_separator c = (c == b'-') || is_whitespace c

-- The two groups with a hyphen between them.
unfoldable pub format : Text → Text
format chars = take group_len chars ++ b'-' ∷ drop group_len chars

-- The loop of `JoinCode::parse`; `chars` holds ASCII, so its length is the number of characters.
unfoldable pub parse_loop : Text → Text → Result CodeError Text
parse_loop [] chars = ok chars
parse_loop (c ∷ cs) chars =
    let upper = to_ascii_uppercase c in
    let skipped = parse_loop cs chars in
    let taken = parse_loop cs (chars ++ upper ∷ []) in
    if is_separator c
    then skipped
    else if not (in_alphabet upper)
    then err (bad_char c)
    else if length chars == code_len
    then err (wrong_length (code_len + 1))
    else taken

unfoldable pub parse : Text → Result CodeError JoinCode
parse input = do
  chars ← parse_loop input []
  guard (length chars == code_len) (wrong_length (length chars))
  ok (record { text = format chars })

-- The loop of `JoinCode::from_indices`.
unfoldable pub pick : List ℕ → Option Text
pick [] = some []
pick (index ∷ rest) = elim (get_elem? alphabet index) [
  | none ↦ none
  | some c ↦ elim (pick rest) [ none ↦ none | some chars ↦ some (c ∷ chars) ]
]

unfoldable pub from_indices : List ℕ → Option JoinCode
from_indices indices =
    if length indices == code_len
    then (elim (pick indices) [ none ↦ none | some chars ↦ some (record { text = format chars }) ])
    else none

pub data CodeStatus : Type 0 where
  usable used expired : CodeStatus

-- `CodeStatus::is_usable`.
abbrev pub is_usable_status : CodeStatus → Bool
is_usable_status usable = true
is_usable_status used = false
is_usable_status expired = false

unfoldable pub expires_at : ℤ → ℤ → ℤ
expires_at issued_at ttl_secs = saturating_add issued_at ttl_secs

-- The free function `status`.
unfoldable pub status : ℤ → Option ℤ → ℤ → CodeStatus
status expires (some at) now = used
status expires none now = if geb_ℤ now expires then expired else usable

unfoldable pub status_from_issue : ℤ → ℤ → Option ℤ → ℤ → CodeStatus
status_from_issue issued_at ttl_secs used_at now =
    status (expires_at issued_at ttl_secs) used_at now

-- One entry of the state file's `codes[]`.
pub record IssuedCode : Type 0 where
  pub code : JoinCode
  pub issued_at : ℤ
  pub expires : ℤ
  pub used_at : Option ℤ

-- `IssuedCode::issue`.
unfoldable pub issue : JoinCode → ℤ → ℤ → IssuedCode
issue code issued_at ttl_secs = record {
  code = code;
  issued_at = issued_at;
  expires = expires_at issued_at ttl_secs;
  used_at = none;
}

-- `IssuedCode::status` and `IssuedCode::is_usable`.
unfoldable pub issued_status : IssuedCode → ℤ → CodeStatus
issued_status i now = status i.expires i.used_at now

unfoldable pub is_usable : IssuedCode → ℤ → Bool
is_usable i now = is_usable_status (issued_status i now)
