-- ===== src/Wg/Key.antt =====
-- `parse_key` of crates/anago/src/wg.rs.
use anago.Prelude.{
  ℕ, ◌+◌, ◌≡◌, refl, sym, ap, subst, ◌∙◌, ◌↔◌, true, false, [], ◌∷◌, ◌++◌, some, nat_eq, arith, all,
  length, ok, Bool-cases, inl, inr,
}
use anago.Text.{Text, byte_len, init, last?, trim, is_whitespace}
use anago.Text.Trim.{trim_self}
use anago.Wg.{is_base64, is_key, parse_key}

-- A key in the form that the tools print.
pub record IsKey (key : Text) : Type 0 where
  pub body : Text
  pub spelt : key ≡ body ++ b'=' ∷ []
  pub long : length body ≡ 43
  pub base64 : all is_base64 body ≡ true

byte_len-base64 : (s : Text) → all is_base64 s ≡ true → byte_len s ≡ length s
byte_len-base64 [] h = refl
byte_len-base64 (c ∷ cs) h = ground (arith, byte_len-base64 cs)

byte_len-append : (s t : Text) → byte_len (s ++ t) ≡ byte_len s + byte_len t
byte_len-append [] t = omega arith
byte_len-append (c ∷ cs) t = ground (arith, byte_len-append cs t)

init-last : (s : Text) {c : ℕ} → last? s ≡ some c → s ≡ init s ++ c ∷ []
init-last [] h = absurd (ground arith)
init-last (x ∷ []) h = ground arith
init-last (x ∷ y ∷ rest) h = ap (λ t. x ∷ t) (init-last (y ∷ rest) h)

init-snoc : (s : Text) (c : ℕ) → init (s ++ c ∷ []) ≡ s
init-snoc [] c = refl
init-snoc (x ∷ []) c = refl
init-snoc (x ∷ y ∷ rest) c = ap (λ t. x ∷ t) (init-snoc (y ∷ rest) c)

last-snoc : (s : Text) (c : ℕ) → last? (s ++ c ∷ []) ≡ some c
last-snoc [] c = refl
last-snoc (x ∷ []) c = refl
last-snoc (x ∷ y ∷ rest) c = last-snoc (y ∷ rest) c

pub IsKey-is_key : (key : Text) → IsKey key → is_key key ≡ true
unfolding is_key
IsKey-is_key key k =
    subst (λ t. is_key t ≡ true) (sym k.spelt)
      (ground (
        arith,
        byte_len-append k.body (b'=' ∷ []),
        byte_len-base64 k.body k.base64,
        k.long,
        k.base64,
        last-snoc k.body b'=',
        init-snoc k.body b'=',
      ))

is_key-IsKey : (key : Text) → is_key key ≡ true → IsKey key
unfolding is_key
is_key-IsKey key h =
    let ends : last? key ≡ some b'=' = ground arith in
    let spelt = init-last key ends in
    let base64 : all is_base64 (init key) ≡ true = ground arith in
    let bytes : byte_len key ≡ 44 = ground arith in
    let parts = ap byte_len spelt ∙ byte_len-append (init key) (b'=' ∷ []) in
    record {
      body = init key;
      spelt = spelt;
      long = ground (arith, bytes, parts, byte_len-base64 (init key) base64);
      base64 = base64;
    }

is_base64-is_whitespace : (c : ℕ) → is_base64 c ≡ true → is_whitespace c ≡ false
unfolding is_whitespace
is_base64-is_whitespace c h = ground arith

equals_mark : is_whitespace b'=' ≡ false
unfolding is_whitespace
equals_mark = refl

trim-body :
    (body : Text)
    → length body ≡ 43
    → all is_base64 body ≡ true
    → trim (body ++ b'=' ∷ []) ≡ body ++ b'=' ∷ []
trim-body [] l h = absurd (ground arith)
trim-body (c ∷ cs) l h =
    trim_self c (cs ++ b'=' ∷ []) (is_base64-is_whitespace c (ground arith))
      (last-snoc (c ∷ cs) b'=') equals_mark

pub trim-IsKey : (key : Text) → IsKey key → trim key ≡ key
trim-IsKey key k = subst (λ t. trim t ≡ t) (sym k.spelt) (trim-body k.body k.long k.base64)

pub parse_key_self : (key : Text) → IsKey key → parse_key key ≡ ok key
unfolding parse_key
parse_key_self key k = ground (arith, trim-IsKey key k, IsKey-is_key key k)

-- `parse_key` accepts exactly a key with whitespace around it, and gives the key back without it. A
-- key is 43 characters of the base64 alphabet and one `=`, so what is accepted parses to itself.
pub parse_key-IsKey_iff :
    (output key : Text)
    → (parse_key output ≡ ok key) ↔ ((trim output ≡ key) × IsKey key × (parse_key key ≡ ok key))
unfolding parse_key
parse_key-IsKey_iff output key = (
  λ h. elim (Bool-cases (is_key (trim output))) [
    | inl good ↦
        let same : trim output ≡ key = ground (arith, rw good at h) in
        let k = subst IsKey same (is_key-IsKey (trim output) good) in
        (same, k, parse_key_self key k)
    | inr bad ↦ absurd (ground (arith, rw bad at h))
  ],
  λ h. ground (arith, IsKey-is_key key h.1, h.0),
)
