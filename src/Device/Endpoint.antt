-- ===== src/Device/Endpoint.antt =====
-- `checked_endpoint` of crates/anago/src/join.rs: the endpoints that a configuration may hold.
use anago.Prelude.{
  ℕ, ◌≤◌, ◌<◌, ◌≡◌, ◌≢◌, refl, sym, subst, ◌↔◌, true, false, [], ◌∷◌, ◌++◌, none, some, nat_eq,
  arith, all, contains, ok, Option-cases, inl, inr,
}
use anago.Text.{Text, lit, is_digit, rsplit_once, strip_prefix}
use anago.Text.Decimal.{AllDigits, decimal, value, value-decimal, decimal-AllDigits}
use anago.Device.{is_empty, is_host_char, digits_u16, parse_u16, checked_endpoint}

-- A host name and a port in decimal, with a colon between them and nothing else.
pub record IsEndpoint (text : Text) : Type 0 where
  pub host : Text
  pub port : ℕ
  pub spelt : text ≡ host ++ b':' ∷ decimal port
  pub host_ne : host ≢ []
  pub host_chars : all is_host_char host ≡ true
  pub port_pos : 0 < port
  pub port_le : port ≤ 65_535

rsplit_once-none : (sep : ℕ) (r : Text) → contains r sep ≡ false → rsplit_once sep r ≡ none
unfolding rsplit_once
rsplit_once-none sep [] h = refl
rsplit_once-none sep (c ∷ cs) h = ground (arith, rsplit_once-none sep cs)

rsplit_once-append :
    (sep : ℕ) (l r : Text) → contains r sep ≡ false → rsplit_once sep (l ++ sep ∷ r) ≡ some (l, r)
unfolding rsplit_once
rsplit_once-append sep [] r h = ground (arith, rsplit_once-none sep r h)
rsplit_once-append sep (c ∷ cs) r h = ground (arith, rsplit_once-append sep cs r h)

AllDigits-all : (s : Text) → AllDigits s → all is_digit s ≡ true
AllDigits-all [] h = refl
AllDigits-all (c ∷ cs) h = ground (arith, AllDigits-all cs h.1)

AllDigits-strip_prefix : (s : Text) → AllDigits s → strip_prefix (lit "+") s ≡ none
AllDigits-strip_prefix [] h = refl
AllDigits-strip_prefix (c ∷ cs) h = ground arith

AllDigits-colon : (s : Text) → AllDigits s → contains s b':' ≡ false
AllDigits-colon [] h = refl
AllDigits-colon (c ∷ cs) h = ground (arith, AllDigits-colon cs h.1)

is_empty-value : (s : Text) → 0 < value s → is_empty s ≡ false
unfolding is_empty
is_empty-value [] h = absurd (omega (arith, h))
is_empty-value (c ∷ cs) h = refl

parse_u16-decimal : (n : ℕ) → 0 < n → n ≤ 65_535 → parse_u16 (decimal n) ≡ some n
unfolding parse_u16 digits_u16
parse_u16-decimal n p l =
    let digits = decimal-AllDigits n in
    let val = value-decimal n in
    ground (
      arith,
      AllDigits-strip_prefix (decimal n) digits,
      AllDigits-all (decimal n) digits,
      val,
      is_empty-value (decimal n) (omega (arith, val, p)),
    )

digits_u16-le : (s : Text) {n : ℕ} → digits_u16 s ≡ some n → n ≤ 65_535
unfolding digits_u16
digits_u16-le s h = ground arith

parse_u16-le : (s : Text) {n : ℕ} → parse_u16 s ≡ some n → n ≤ 65_535
unfolding parse_u16
parse_u16-le s h = elim (Option-cases (strip_prefix (lit "+") s)) [
  | inl e ↦ digits_u16-le s (rw (e, parse_u16) at h)
  | inr (rest, e) ↦ digits_u16-le rest (rw (e, parse_u16) at h)
]

not_empty : (s : Text) → is_empty s ≡ false → s ≢ []
unfolding is_empty
not_empty [] h e = ground arith
not_empty (c ∷ cs) h e = ground arith

is_empty-ne : (s : Text) → s ≢ [] → is_empty s ≡ false
unfolding is_empty
is_empty-ne [] h = absurd (h refl)
is_empty-ne (c ∷ cs) h = refl

pub checked_endpoint_self : (text : Text) → IsEndpoint text → checked_endpoint text ≡ ok text
unfolding checked_endpoint
checked_endpoint_self text e =
    subst (λ t. checked_endpoint t ≡ ok t) (sym e.spelt)
      (ground (
        arith,
        rsplit_once-append b':' e.host (decimal e.port)
            (AllDigits-colon (decimal e.port) (decimal-AllDigits e.port)),
        is_empty-ne e.host e.host_ne,
        e.host_chars,
        parse_u16-decimal e.port e.port_pos e.port_le,
        e.port_pos,
      ))

checked_endpoint-IsEndpoint : (text : Text) {e : Text} → checked_endpoint text ≡ ok e → IsEndpoint e
unfolding checked_endpoint
checked_endpoint-IsEndpoint text {e} h = elim (Option-cases (rsplit_once b':' text)) [
  | inl f ↦ absurd (ground (arith, rw (f, checked_endpoint) at h))
  | inr ((host, port), f) ↦ elim (Option-cases (parse_u16 port)) [
    | inl g ↦ absurd (ground (arith, rw (f, checked_endpoint, g) at h))
    | inr (n, g) ↦ record {
      host = host;
      port = n;
      spelt = ground (arith, rw (f, checked_endpoint, g) at h);
      host_ne = not_empty host (ground (arith, rw (f, checked_endpoint, g) at h));
      host_chars = ground (arith, rw (f, checked_endpoint, g) at h);
      port_pos = ground (arith, rw (f, checked_endpoint, g) at h);
      port_le = parse_u16-le port g;
    }
  ]
]

-- The endpoints that a configuration may hold are what `checked_endpoint` returns: a host name of
-- letters, digits, `-` and `.`, a colon and a port from 1 to 65535 in decimal, so no line break, no
-- blank and no `=`; and such an endpoint is returned as it is.
pub checked_endpoint-IsEndpoint_iff :
    (e : Text)
    → (IsEndpoint e ↔ ((text : Text) × (checked_endpoint text ≡ ok e)))
      × (IsEndpoint e ↔ (checked_endpoint e ≡ ok e))
checked_endpoint-IsEndpoint_iff e = (
  (λ i. (e, checked_endpoint_self e i), λ h. checked_endpoint-IsEndpoint h.0 h.1),
  (checked_endpoint_self e, checked_endpoint-IsEndpoint e),
)
