-- ===== src/Acme/Token.antt =====
-- Tokens that are safe in a path and in a key authorization (crates/anago-core/src/acme.rs).
use anago.Prelude.{
  ℕ, ◌≤◌, ◌<◌, ◌≡◌, refl, sym, ap, subst, ◌↔◌, inl, inr, true, false, not, [], ◌∷◌, ◌++◌, some,
  ◌==◌, nat_eq, find, find-not_iff, all, contains, ok, arith, Bool-cases, Option-cases,
}
use anago.Text.{Text, byte_len, split_once}
use anago.Text.Split.{split_once-append}
use anago.Acme.{
  ChallengeToken, Thumbprint, is_base64url, parse_challenge_token, key_authorization, http01_path,
  http01_prefix,
}

-- A token in the base64url alphabet, neither empty nor long.
pub record IsToken (text : Text) : Type 0 where
  pub filled : 0 < byte_len text
  pub short : byte_len text ≤ 255
  pub letters : all is_base64url text ≡ true

parse_challenge_token-IsToken :
    (input : Text) {token : ChallengeToken}
    → parse_challenge_token input ≡ ok token
    → (token.text ≡ input) × IsToken input
unfolding parse_challenge_token
parse_challenge_token-IsToken input {token} h =
    elim (Option-cases (find (λ c. not (is_base64url c)) input)) [
      | inr (bad, e) ↦ absurd (ground arith)
      | inl e ↦ (
        ground arith,
        record {
          filled = ground arith;
          short = ground arith;
          letters = (find-not_iff is_base64url input).0 e;
        },
      )
    ]

IsToken-parse_challenge_token :
    (input : Text) → IsToken input → parse_challenge_token input ≡ ok (record { text = input })
unfolding parse_challenge_token
IsToken-parse_challenge_token input t =
    ground (arith, t.filled, t.short, (find-not_iff is_base64url input).1 t.letters)

contains-letters :
    (c : ℕ) (s : Text) → is_base64url c ≡ false → all is_base64url s ≡ true → contains s c ≡ false
contains-letters c [] n h = refl
contains-letters c (x ∷ xs) n h = elim (Bool-cases (x == c)) [
  | inl same ↦ absurd (ground arith)
  | inr other ↦ ground (arith, contains-letters c xs n)
]

-- Exactly the texts of 1 to 255 characters of the base64url alphabet are tokens. Such a token has
-- no `/` and no `.`, so the path that it is served at stays below the prefix; and a key
-- authorization can be taken apart again, at its first dot, into the token and the thumbprint.
pub parse_challenge_token-IsToken_iff :
    (input : Text) (thumbprint : Thumbprint)
    → ((parse_challenge_token input ≡ ok (record { text = input })) ↔ IsToken input)
      × ((token : ChallengeToken)
          → parse_challenge_token input ≡ ok token
          → (http01_path token ≡ http01_prefix ++ input)
            × (contains input b'/' ≡ false)
            × (contains input b'.' ≡ false)
            × (split_once b'.' (key_authorization token thumbprint)
                ≡ some (input, thumbprint.text)))
unfolding key_authorization http01_path
parse_challenge_token-IsToken_iff input thumbprint = (
  (λ h. (parse_challenge_token-IsToken input h).1, IsToken-parse_challenge_token input),
  λ token h.
      let (same, t) = parse_challenge_token-IsToken input h in
      (
        ap (λ s. http01_prefix ++ s) same,
        contains-letters b'/' input refl t.letters,
        contains-letters b'.' input refl t.letters,
        subst (λ s. split_once b'.' (s ++ b'.' ∷ thumbprint.text) ≡ some (input, thumbprint.text))
            (sym same)
            (split_once-append b'.' input thumbprint.text
              (contains-letters b'.' input refl t.letters)),
      ),
)
