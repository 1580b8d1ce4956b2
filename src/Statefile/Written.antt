-- ===== src/Statefile/Written.antt =====
-- The text of the state file (crates/anago-core/src/state.rs): the value written for a stored state
-- is one that JSON carries, so the text reads back.
use anago.Prelude.{
  ℕ, suc, ◌≤◌, ◌≡◌, refl, arith, List, [], ◌∷◌, map, Option, none, some, ok, map_err, ◌>>=◌, All,
}
use anago.Prelude.Int.{ℤ}
use anago.Prelude.I64.{IsI64}
use anago.Text.{Text}
use anago.Name.{Unicode}
use anago.Code.{IssuedCode}
use anago.Tls.{Acme, Tls, TlsSource, manual, acme}
use anago.State.{Peer, ServerState, Cloudflare}
use anago.Json.{Value, insert, insert_all, items_of}
use anago.Json.Valid.{WellFormed, WellFormedItems, nesting, nesting_items, max}
use anago.Json.RoundTrip.{parse-to_string}
use anago.Statefile.{opt_str, opt_time}
use anago.Statefile.Records.{
  peer_to_json, code_to_json, source_acme, tls_to_json, cloudflare_to_json,
}
use anago.Statefile.Whole.{to_json, to_json_string, parse_state}
use anago.Statefile.RoundTrip.{IsStored, IsStoredPeer, IsStoredCode, IsTime?, from_json-to_json}

-- A value that JSON carries, nested no deeper than `n`.
abbrev Carried : ℕ → Value → Type 0
Carried n v = WellFormed v × (nesting v ≤ n)

time-Carried : (t : Option ℤ) → IsTime? t → Carried 0 (opt_time t)
time-Carried none h = (tt, omega arith)
time-Carried (some at) h = (h, omega arith)

text-Carried : (t : Option Text) → Carried 0 (opt_str t)
text-Carried none = (tt, omega arith)
text-Carried (some s) = (tt, omega arith)

peer-Carried : (u : Unicode) (p : Peer) → IsStoredPeer u p → Carried 1 (peer_to_json p)
unfolding insert insert_all
peer-Carried u p h =
    let t = time-Carried p.last_seen h.seen in
    (
      (
        (refl, (refl, (refl, (refl, (refl, (refl, tt)))))),
        (tt, (tt, (tt, (tt, (h.created, (t.0, tt)))))),
      ),
      ground arith,
    )

code-Carried : (c : IssuedCode) → IsStoredCode c → Carried 1 (code_to_json c)
unfolding insert insert_all
code-Carried c h =
    let t = time-Carried c.used_at h.used in
    (((refl, (refl, (refl, (refl, tt)))), (tt, (h.issued, (h.expires, (t.0, tt))))), ground arith)

below : (n a b : ℕ) → a ≤ n → b ≤ suc n → max (suc a) b ≤ suc n
below n a b h k = ground arith

peers-Carried :
    (u : Unicode) (ps : List Peer)
    → All (IsStoredPeer u) ps
    → WellFormedItems (items_of (map peer_to_json ps))
      × (nesting_items (items_of (map peer_to_json ps)) ≤ 2)
peers-Carried u [] h = (tt, omega arith)
peers-Carried u (p ∷ ps) h =
    let first = peer-Carried u p h.0 in
    let rest = peers-Carried u ps h.1 in ((first.0, rest.0), below 1 _ _ first.1 rest.1)

codes-Carried :
    (cs : List IssuedCode)
    → All IsStoredCode cs
    → WellFormedItems (items_of (map code_to_json cs))
      × (nesting_items (items_of (map code_to_json cs)) ≤ 2)
codes-Carried [] h = (tt, omega arith)
codes-Carried (c ∷ cs) h =
    let first = code-Carried c h.0 in
    let rest = codes-Carried cs h.1 in ((first.0, rest.0), below 1 _ _ first.1 rest.1)

acme-Carried :
    (source : TlsSource)
    → ((a : Acme) → source ≡ acme a → IsI64 a.issued_at × IsI64 a.renew_after)
    → Carried 1 (source_acme source)
unfolding insert insert_all
acme-Carried manual h = (tt, omega arith)
acme-Carried (acme a) h =
    let t = text-Carried a.contact in
    let times = h a refl in
    (
      (
        (refl, (refl, (refl, (refl, (refl, (refl, (refl, tt))))))),
        (tt, (t.0, (tt, (tt, (tt, (times.0, (times.1, tt))))))),
      ),
      ground arith,
    )

tls-Carried :
    (t : Tls)
    → IsTime? t.not_after
    → ((a : Acme) → t.source ≡ acme a → IsI64 a.issued_at × IsI64 a.renew_after)
    → Carried 2 (tls_to_json t)
unfolding insert insert_all
tls-Carried t e h =
    let expiry = time-Carried t.not_after e in
    let details = acme-Carried t.source h in
    (
      ((refl, (refl, (refl, (refl, (refl, tt))))), (tt, (tt, (tt, (expiry.0, (details.0, tt)))))),
      ground arith,
    )

cloudflare-Carried : (c : Option Cloudflare) → Carried 1 (cloudflare_to_json c)
unfolding insert insert_all
cloudflare-Carried none = (tt, omega arith)
cloudflare-Carried (some c) =
    let record_id = text-Carried c.record_id in
    let token = text-Carried c.token_path in
    (((refl, (refl, (refl, tt))), (tt, (record_id.0, (token.0, tt)))), ground arith)

state-Carried : (u : Unicode) (s : ServerState) → IsStored u s → Carried 3 (to_json s)
unfolding insert insert_all
state-Carried u s h =
    let tls = tls-Carried s.tls h.expiry h.times in
    let cloudflare = cloudflare-Carried s.cloudflare in
    let peers = peers-Carried u s.peers h.peers_stored in
    let codes = codes-Carried s.codes h.codes_stored in
    (
      (
        (refl, (refl, (refl, (refl, (refl, (refl, (refl, (refl, (refl, (refl, tt)))))))))),
        (
          omega arith,
          (
            tt,
            (
              tt,
              (
                omega arith,
                (
                  omega arith,
                  (
                    tls.0,
                    (
                      cloudflare.0,
                      (
                        ((refl, (refl, (refl, tt))), (tt, (tt, (tt, tt)))),
                        (peers.0, (codes.0, tt)),
                      ),
                    ),
                  ),
                ),
              ),
            ),
          ),
        ),
      ),
      below 2 _ _ (omega arith) (
          below 2 _ _ (omega arith) (
            below 2 _ _ (omega arith) (
              below 2 _ _ (omega arith) (
                below 2 _ _ (omega arith) (
                  below 2 _ _ tls.1 (
                    below 2 _ _ (omega (arith, cloudflare.1)) (
                      below 2 _ _ (omega arith)
                        (below 2 _ _ peers.1 (below 2 _ _ codes.1 (omega arith)))))))))),
    )

-- A stored state reads back from the text of its file.
pub parse_state-to_json_string :
    (u : Unicode) (s : ServerState) → IsStored u s → parse_state u (to_json_string s) ≡ ok s
unfolding parse_state
parse_state-to_json_string u s h =
    let v = state-Carried u s h in
    rw ((parse-to_string (to_json s) v.0 (omega (arith, v.1))).1, map_err, ◌>>=◌)
      (from_json-to_json u s h)
