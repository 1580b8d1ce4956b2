-- ===== src/Dns/Decide.antt =====
-- `decide` of crates/anago-core/src/dns.rs: when it writes, and when it refuses.
use anago.Prelude.{
  ◌≤◌, ◌≡◌, ◌≢◌, refl, sym, ap, subst, ◌↔◌, true, false, List, [], ◌∷◌, Option, none, some, list_eq,
  nat_eq, option_eq, option_beq_iff, find, length, arith, Bool-cases, Option-cases, inl, inr,
}
use anago.Text.{Text, trim}
use anago.Ipv4
use anago.Ipv4.{Ipv4Addr, addr_eq}
use anago.Dns.{
  Record, is_a, is_cname, points_at, proxied, cname, ambiguous, cached_not_an_a_record, Upsert,
  create, update, unchanged, refuse, a_records, find_cached, ours, decide_one, decide_among,
  decide_listed, decide,
}

-- Nothing stands in the way: a cached record that is listed is an A record, and there is no CNAME.
pub record IsClear (records : List Record) (cached_id : Option Text) : Type 0 where
  pub cached : (r : Record) → find_cached records cached_id ≡ some r → is_a r ≡ true
  pub no_cname : find is_cname records ≡ none

-- The only A record, and it is not proxied.
pub record IsOnly (records : List Record) (id : Text) (content : Text) : Type 0 where
  pub record_ : Record
  pub only : a_records records ≡ record_ ∷ []
  pub id_eq : record_.id ≡ id
  pub content_eq : record_.content ≡ content
  pub plain : record_.proxied ≡ false

-- What each outcome says of the zone.
abbrev pub Says : List Record → Ipv4Addr → Option Text → Upsert → Type 0
Says records desired cached_id create = IsClear records cached_id × (a_records records ≡ [])
Says records desired cached_id (update id adopted) =
    IsClear records cached_id
    × (content : Text) × IsOnly records id content
    × (Ipv4.parse (trim content) ≢ some desired)
    × ((adopted ≡ true) ↔ (cached_id ≢ some id))
Says records desired cached_id (unchanged id) =
    IsClear records cached_id
    × (content : Text) × IsOnly records id content
    × (Ipv4.parse (trim content) ≡ some desired)
Says records desired cached_id (refuse (proxied id)) =
    (r : Record) × (a_records records ≡ r ∷ []) × (r.id ≡ id) × (r.proxied ≡ true)
Says records desired cached_id (refuse (cname id)) =
    (r : Record) × (find is_cname records ≡ some r) × (r.id ≡ id)
Says records desired cached_id (refuse (ambiguous count mine)) =
    (length (a_records records) ≡ count) × (2 ≤ count) × (mine ≡ ours cached_id (a_records records))
Says records desired cached_id (refuse (cached_not_an_a_record id kind)) =
    (r : Record) × (find_cached records cached_id ≡ some r)
    × (r.id ≡ id)
    × (r.kind ≡ kind)
    × (is_a r ≡ false)

decide_one-Says :
    (records : List Record) (r : Record) (desired : Ipv4Addr) (cached_id : Option Text)
    → IsClear records cached_id
    → a_records records ≡ r ∷ []
    → Says records desired cached_id (decide_one r desired cached_id)
unfolding decide_one points_at
decide_one-Says records r desired cached_id clear only = elim (Bool-cases r.proxied) [
  | inl orange ↦ rw (orange, decide_one) (r, only, refl, orange)
  | inr plain ↦
      let mine : IsOnly records r.id r.content = record {
        record_ = r;
        only = only;
        id_eq = refl;
        content_eq = refl;
        plain = plain;
      } in
      elim (Bool-cases (points_at r desired)) [
        | inl right ↦
            rw (plain, decide_one, right)
              (
                clear,
                r.content,
                mine,
                (option_beq_iff (Ipv4.parse (trim r.content)) (some desired)).0 right,
              )
        | inr wrong ↦
            rw (plain, decide_one, wrong)
              (
                clear,
                r.content,
                mine,
                ground (arith, option_beq_iff (Ipv4.parse (trim r.content)) (some desired)),
                ground (arith, option_beq_iff cached_id (some r.id)),
              )
      ]
]

decide_among-Says :
    (records found : List Record) (desired : Ipv4Addr) (cached_id : Option Text)
    → IsClear records cached_id
    → a_records records ≡ found
    → Says records desired cached_id (decide_among found desired cached_id)
unfolding decide_among
decide_among-Says records [] desired cached_id clear h = (clear, h)
decide_among-Says records (r ∷ []) desired cached_id clear h =
    decide_one-Says records r desired cached_id clear h
decide_among-Says records (r ∷ q ∷ rest) desired cached_id clear h =
    (ap length h, omega arith, ap (ours cached_id) (sym h))

decide_listed-Says :
    (records : List Record) (desired : Ipv4Addr) (cached_id : Option Text)
    → ((r : Record) → find_cached records cached_id ≡ some r → is_a r ≡ true)
    → Says records desired cached_id (decide_listed records desired cached_id)
unfolding decide_listed
decide_listed-Says records desired cached_id fine = elim (Option-cases (find is_cname records)) [
  | inr (r, e) ↦ rw (e, decide_listed) (r, e, refl)
  | inl e ↦
      rw (e, decide_listed)
        (decide_among-Says records (a_records records) desired cached_id
          (record { cached = fine; no_cname = e }) refl)
]

-- Every outcome is the truth about the zone. A record is created only if there is no A record, and
-- changed only if it is the one A record, not proxied, and points elsewhere; in both cases no CNAME
-- and no other type under the cached id stands in the way. Each refusal names what is there.
pub decide-Says_records :
    (records : List Record) (desired : Ipv4Addr) (cached_id : Option Text)
    → Says records desired cached_id (decide records desired cached_id)
unfolding decide
decide-Says_records records desired cached_id =
    elim (Option-cases (find_cached records cached_id)) [
      | inl e ↦
          rw (e, decide)
            (decide_listed-Says records desired cached_id (λ r f. absurd (ground arith)))
      | inr (c, e) ↦ elim (Bool-cases (is_a c)) [
        | inl good ↦
            rw (e, decide, good)
              (decide_listed-Says records desired cached_id
                (λ r f. subst (λ x. is_a x ≡ true) (ground arith) good))
        | inr bad ↦ rw (e, decide, bad) (c, e, refl, refl, bad)
      ]
    ]
