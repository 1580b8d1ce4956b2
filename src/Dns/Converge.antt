-- ===== src/Dns/Converge.antt =====
-- Doing what `decide` says (crates/anago-core/src/dns.rs, crates/anago/src/cfapi.rs) leaves nothing
-- to do.
use anago.Prelude.{
  ◌≡◌, refl, sym, ap, subst, ◌∙◌, Bool, true, false, List, [], ◌∷◌, ◌++◌, map, Option, none, some,
  ◌==◌, list_eq, nat_eq, option_eq, list_beq_iff, if◌then◌else◌, find, arith, contains, Distinct,
}
use anago.Text.{Text}
use anago.Text.Trim.{trim-AllPlain}
use anago.Ipv4
use anago.Ipv4.{Ipv4Addr, IsOctets, addr_eq, addr_beq_iff}
use anago.Ipv4.Plain.{display-AllPlain}
use anago.Ipv4.RoundTrip.{parse-display}
use anago.Dns.{
  Record, is_a, is_cname, points_at, create, update, unchanged, a_record, a_records, find_cached,
  decide_one, decide_among, decide_listed, decide, created, with_content,
}
use anago.Dns.Decide.{Says, decide-Says_records}
use anago.Dns.Listed.{
  a_records-find, pointed, find-with_content, find_cname-with_content, a_records-with_content,
  with_content_one,
}

points_at-display :
    (r : Record) (x : Ipv4Addr) → IsOctets x → r.content ≡ Ipv4.display x → points_at r x ≡ true
unfolding points_at
points_at-display r x o h = ground (
  arith,
  h,
  trim-AllPlain (Ipv4.display x) (display-AllPlain x),
  parse-display x o,
  addr_beq_iff x x,
)

-- When the only A record points at the hub and is the one recorded, there is nothing to do.
decide-unchanged_one :
    (records : List Record) (r : Record) (desired : Ipv4Addr)
    → find (λ (q : Record). q.id == r.id) records ≡ some r
    → find is_cname records ≡ none
    → a_records records ≡ r ∷ []
    → is_a r ≡ true
    → r.proxied ≡ false
    → points_at r desired ≡ true
    → decide records desired (some r.id) ≡ unchanged r.id
unfolding decide decide_listed decide_among decide_one find_cached points_at
decide-unchanged_one records r desired f n o a p t =
    rw (f, decide, a, n, decide_listed, o, p, decide_one, t) refl

a_record-is_a :
    (id content : Text)
    → (is_a (a_record id content) ≡ true) × (is_cname (a_record id content) ≡ false)
unfolding is_a is_cname
a_record-is_a id content = (refl, refl)

a_records-snoc :
    (rs : List Record) (r : Record)
    → a_records rs ≡ []
    → is_a r ≡ true
    → a_records (rs ++ r ∷ []) ≡ r ∷ []
unfolding a_records
a_records-snoc [] r h a = ground (arith, a)
a_records-snoc (q ∷ rs) r h a = ground (arith, a_records-snoc rs r)

find-snoc :
    (f : Record → Bool) (rs : List Record) (r : Record)
    → find f rs ≡ none
    → find f (rs ++ r ∷ []) ≡ (if f r then some r else none)
find-snoc f [] r h = refl
find-snoc f (q ∷ rs) r h = ground (arith, find-snoc f rs r)

ids-find :
    (id : Text) (rs : List Record)
    → contains (map (λ (r : Record). r.id) rs) id ≡ false
    → find (λ (r : Record). r.id == id) rs ≡ none
ids-find id [] h = refl
ids-find id (q ∷ rs) h = ground (arith, ids-find id rs)

decide-created :
    (records : List Record) (desired : Ipv4Addr) (cached_id : Option Text) (id : Text)
    → IsOctets desired
    → contains (map (λ (r : Record). r.id) records) id ≡ false
    → decide records desired cached_id ≡ create
    → decide (records ++ created id desired ∷ []) desired (some id) ≡ unchanged id
unfolding created
decide-created records desired cached_id id o new h =
    let (clear, none_there) =
      subst (Says records desired cached_id) h (decide-Says_records records desired cached_id) in
    let r = a_record id (Ipv4.display desired) in
    let (a, c) = a_record-is_a id (Ipv4.display desired) in
    decide-unchanged_one (records ++ r ∷ []) r desired
      (ground (
        arith,
        find-snoc (λ (q : Record). q.id == id) records r (ids-find id records new),
        list_beq_iff id id,
      ))
      (ground (arith, find-snoc is_cname records r clear.no_cname, c))
      (a_records-snoc records r none_there a) a refl (points_at-display r desired o refl)

decide-with_content :
    (records : List Record) (desired : Ipv4Addr) (cached_id : Option Text) (id : Text)
    (adopted : Bool)
    → Distinct (map (λ (r : Record). r.id) records)
    → IsOctets desired
    → decide records desired cached_id ≡ update id adopted
    → decide (with_content id desired records) desired (some id) ≡ unchanged id
unfolding with_content is_a
decide-with_content records desired cached_id id adopted d o h =
    let (clear, content, mine, elsewhere, taken) =
      subst (Says records desired cached_id) h (decide-Says_records records desired cached_id) in
    let r = mine.record_ in
    let (found, a) = a_records-find records r d mine.only in
    let found_id =
      subst (λ x. find (λ (q : Record). q.id == x) records ≡ some r) mine.id_eq found in
    let only : a_records (with_content id desired records) ≡ pointed id desired r ∷ [] =
      a_records-with_content id desired records
      ∙ ap (with_content id desired) mine.only
      ∙ with_content_one id desired r mine.id_eq in
    ap (decide (with_content id desired records) desired) (ap some (sym mine.id_eq))
    ∙ decide-unchanged_one (with_content id desired records) (pointed id desired r) desired
        (subst
          (λ x.
            find (λ (q : Record). q.id == x) (with_content id desired records)
            ≡ some (pointed id desired r))
          (sym mine.id_eq) (find-with_content id desired records r found_id))
        (find_cname-with_content id desired records clear.no_cname) only a mine.plain
        (points_at-display (pointed id desired r) desired o refl)
    ∙ ap unchanged mine.id_eq

-- One write is enough. In a zone whose ids are unique, adding the record that a "create" asks for,
-- under an id that is new, or changing the content of the one that an "update" names, and recording
-- that id, makes the next run find the record right and leave it alone.
pub decide-converges :
    (records : List Record) (desired : Ipv4Addr) (cached_id : Option Text) (id : Text)
    (adopted : Bool)
    → Distinct (map (λ (r : Record). r.id) records)
    → IsOctets desired
    → (contains (map (λ (r : Record). r.id) records) id ≡ false
        → decide records desired cached_id ≡ create
        → decide (records ++ created id desired ∷ []) desired (some id) ≡ unchanged id)
      × (decide records desired cached_id ≡ update id adopted
          → decide (with_content id desired records) desired (some id) ≡ unchanged id)
decide-converges records desired cached_id id adopted d o = (
  decide-created records desired cached_id id o,
  decide-with_content records desired cached_id id adopted d o,
)
