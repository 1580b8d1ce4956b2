-- ===== src/Subnet/Canonical.antt =====
-- The spelling of a subnet (crates/anago-core/src/subnet.rs): `parse` accepts what `Display` writes
-- of a /24 network address, and nothing else.
use anago.Prelude.{
  ◌+◌, ◌-◌, ◌*◌, ◌≡◌, refl, ap, ◌∙◌, true, false, not, ◌&&◌, [], ◌∷◌, ◌++◌, some, arith, length,
  all, contains, contains-append, ◌==◌, nat_eq, ◌↔◌, leb, ltb, ok, guard, ok_or, Result, ◌>>=◌,
  ◌>>◌, Option-cases, inl, inr,
}
use anago.Text.{Text, is_digit, split_once}
use anago.Text.Decimal.{decimal, AllDigits, value, value_from-le, all-is_digit, decimal-AllDigits}
use anago.Text.Split.{split_once-append, split_once-eq-some, contains-digits}
use anago.Ipv4
use anago.Ipv4.{Ipv4Addr, IsOctets}
use anago.Ipv4.RoundTrip.{parse-display}
use anago.Ipv4.Canonical.{parse-eq-some}
use anago.Subnet.{
  Subnet, SubnetError, parse, display, prefix_len, starts_zero, is_empty, parse_u8, bad_prefix,
  unsupported_prefix, not_network_address,
}

-- The only digits without a needless zero that are worth 24.
prefix_24 :
    (s : Text)
    → AllDigits s
    → (ltb 1 (length s) && starts_zero s) ≡ false
    → value s ≡ 24
    → s ≡ b'2' ∷ b'4' ∷ []
unfolding starts_zero
prefix_24 [] d z v = absurd (omega (arith, v))
prefix_24 (x ∷ []) d z v = absurd (omega (arith, v))
prefix_24 (x ∷ y ∷ []) d z v =
    let first : x ≡ b'2' = omega (arith, v) in let second : y ≡ b'4' = omega (arith, v) in cc
prefix_24 (x ∷ y ∷ w ∷ rest) d z v =
    absurd (ground (arith, value_from-le (((x - b'0') * 10 + (y - b'0')) * 10 + (w - b'0')) rest))

-- What the tests on the prefix and the address let through.
accept : Ipv4Addr → Text → Result SubnetError Subnet
accept network prefix = do
  guard (not (is_empty prefix) && all is_digit prefix) bad_prefix
  guard (not (ltb 1 (length prefix) && starts_zero prefix)) bad_prefix
  n ← ok_or (parse_u8 prefix) bad_prefix
  guard (leb n 32) bad_prefix
  guard (n == prefix_len) (unsupported_prefix n)
  guard (network.d == 0) (not_network_address network)
  ok (record { network = network })

accept-tests :
    (x : Ipv4Addr) (prefix : Text) {s : Subnet}
    → accept x prefix ≡ ok s
    → (s.network ≡ x)
      × (all is_digit prefix ≡ true)
      × ((ltb 1 (length prefix) && starts_zero prefix) ≡ false)
      × (value prefix ≡ 24)
      × (x.d ≡ 0)
unfolding accept parse_u8
accept-tests x prefix h = ground arith

accept-eq-ok :
    (x : Ipv4Addr) (prefix : Text) {s : Subnet}
    → accept x prefix ≡ ok s
    → (s.network ≡ x) × (prefix ≡ b'2' ∷ b'4' ∷ []) × (x.d ≡ 0)
accept-eq-ok x prefix {s} h =
    let (same, digits, canonical, worth, last) = accept-tests x prefix h in
    (same, prefix_24 prefix (all-is_digit prefix digits) canonical worth, last)

parse-eq-accept :
    (t : Text) {s : Subnet}
    → parse t ≡ ok s
    → (l : Text) × (r : Text) × (x : Ipv4Addr) × (split_once b'/' t ≡ some (l, r))
      × (Ipv4.parse l ≡ some x)
      × (accept x r ≡ ok s)
unfolding parse accept
parse-eq-accept t h = elim (Option-cases (split_once b'/' t)) [
  | inl e ↦ absurd (ground arith)
  | inr ((l, r), e) ↦ elim (Option-cases (Ipv4.parse l)) [
    | inl f ↦ absurd (ground arith)
    | inr (x, f) ↦ (l, r, x, e, f, ground arith)
  ]
]

display-contains : (x : Ipv4Addr) → contains (Ipv4.display x) b'/' ≡ false
unfolding Ipv4.display
display-contains x = ground (
  arith,
  contains-append (decimal x.a) (b'.' ∷ (decimal x.b ++ b'.' ∷ (decimal x.c ++ b'.' ∷ decimal x.d)))
      b'/',
  contains-append (decimal x.b) (b'.' ∷ (decimal x.c ++ b'.' ∷ decimal x.d)) b'/',
  contains-append (decimal x.c) (b'.' ∷ decimal x.d) b'/',
  contains-digits (decimal x.a) b'/' (omega arith) (decimal-AllDigits x.a),
  contains-digits (decimal x.b) b'/' (omega arith) (decimal-AllDigits x.b),
  contains-digits (decimal x.c) b'/' (omega arith) (decimal-AllDigits x.c),
  contains-digits (decimal x.d) b'/' (omega arith) (decimal-AllDigits x.d),
)

decimal-prefix_len : decimal prefix_len ≡ b'2' ∷ b'4' ∷ []
unfolding decimal
decimal-prefix_len = refl

parse-display_lem : (s : Subnet) → IsOctets s.network → s.network.d ≡ 0 → parse (display s) ≡ ok s
unfolding parse display
parse-display_lem s o z = ground (
  arith,
  decimal-prefix_len,
  split_once-append b'/' (Ipv4.display s.network) (decimal prefix_len) (display-contains s.network),
  parse-display s.network o,
)

pub parsed-display :
    (t : Text) {s : Subnet}
    → parse t ≡ ok s
    → (t ≡ display s) × IsOctets s.network × (s.network.d ≡ 0)
unfolding display
parsed-display t h =
    let (l, r, x, split, address, accepted) = parse-eq-accept t h in
    let (same, suffix, zero_host) = accept-eq-ok x r accepted in
    let (spelt, octets) = parse-eq-some l address in
    let (joined, _) = split_once-eq-some b'/' t split in
    rw same (cc (joined, spelt, suffix, decimal-prefix_len), octets, zero_host)

-- `parse` succeeds exactly on what `Display` writes of a network: four octets of which the last is
-- 0, with `/24` behind them.
pub parse-display_iff :
    (t : Text) (s : Subnet)
    → (parse t ≡ ok s) ↔ ((t ≡ display s) × IsOctets s.network × (s.network.d ≡ 0))
parse-display_iff t s = (parsed-display t, λ h. ap parse h.0 ∙ parse-display_lem s h.1 h.2)
