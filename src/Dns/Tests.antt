-- ===== src/Dns/Tests.antt =====
-- Runs of crates/anago-core/src/dns.rs.
use anago.Prelude.{
  ◌≡◌, refl, true, false, List, [], ◌∷◌, ◌++◌, map, none, some, list_eq, nat_eq, contains, arith,
}
use anago.Text.{lit, trim_start, trim_end, is_whitespace}
use anago.Ipv4
use anago.Ipv4.{Ipv4Addr}
use anago.Dns.{
  Record, a_record, is_a, is_cname, points_at, refuse, ambiguous, proxied, create, update,
  unchanged, a_records, find_cached, ours, decide_one, decide_among, decide_listed, decide, created,
  with_content,
}
use anago.Dns.Decide.{Says, decide-Says_records}
use anago.Dns.Converge.{decide-converges}

abbrev hub : Ipv4Addr
hub = record { a = 203; b = 0; c = 113; d = 7 }

abbrev elsewhere : List Record
elsewhere = a_record (lit "r1") (lit "203.0.113.9") ∷ []

decide-elsewhere : decide elsewhere hub none ≡ update (lit "r1") true
unfolding decide decide_listed decide_among decide_one find_cached is_a is_cname points_at a_records
    Ipv4.parse Ipv4.read_octet trim_start trim_end is_whitespace
decide-elsewhere = refl

decide_proxied :
    decide
      (record {
        id = lit "r1";
        kind = lit "a";
        content = lit "203.0.113.7";
        proxied = true;
        comment = none;
      }
        ∷ [])
      hub
      (some (lit "r1"))
    ≡ refuse (proxied (lit "r1"))
unfolding decide decide_listed decide_among decide_one find_cached is_a is_cname a_records
decide_proxied = refl

decide_two :
    decide (a_record (lit "r2") (lit "203.0.113.7") ∷ elsewhere) hub (some (lit "r1"))
    ≡ refuse (ambiguous 2 (some (lit "r1")))
unfolding decide decide_listed decide_among find_cached is_a is_cname a_records ours
decide_two = refl

decide-Says_records_example : Says elsewhere hub none (decide elsewhere hub none)
decide-Says_records_example = decide-Says_records elsewhere hub none

decide-converges_example :
    (contains (map (λ (r : Record). r.id) elsewhere) (lit "r1") ≡ false
      → decide elsewhere hub none ≡ create
      → decide (elsewhere ++ created (lit "r1") hub ∷ []) hub (some (lit "r1"))
        ≡ unchanged (lit "r1"))
    × (decide elsewhere hub none ≡ update (lit "r1") true
        → decide (with_content (lit "r1") hub elsewhere) hub (some (lit "r1"))
          ≡ unchanged (lit "r1"))
decide-converges_example =
    decide-converges elsewhere hub none (lit "r1") true (refl, tt)
      (record { a_lt = omega arith; b_lt = omega arith; c_lt = omega arith; d_lt = omega arith })
