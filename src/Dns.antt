-- ===== src/Dns.antt =====
-- crates/anago-core/src/dns.rs: what to do with the hub's A record; and the bodies that
-- crates/anago/src/cfapi.rs sends for it.
pub mod Decide
pub mod Listed
pub mod Converge
mod Tests
use anago.Prelude.{
  ℕ, ◌≡◌, Bool, true, false, not, List, [], ◌∷◌, Option, none, some, ◌==◌, list_eq, nat_eq,
  option_eq, if◌then◌else◌, find, any, length,
}
use anago.Text.{Text, lit, eq_ignore_ascii_case, trim, trim_start, trim_end}
use anago.Ipv4
use anago.Ipv4.{Ipv4Addr, addr_eq}

pub record Record : Type 0 where
  pub id : Text
  pub kind : Text
  pub content : Text
  pub proxied : Bool
  pub comment : Option Text

-- `Record::a`.
abbrev pub a_record : Text → Text → Record
a_record id content = record {
  id = id;
  kind = lit "A";
  content = content;
  proxied = false;
  comment = none;
}

unfoldable pub is_a : Record → Bool
is_a r = eq_ignore_ascii_case r.kind (lit "A")

unfoldable pub is_cname : Record → Bool
is_cname r = eq_ignore_ascii_case r.kind (lit "CNAME")

unfoldable pub points_at : Record → Ipv4Addr → Bool
points_at r ip = Ipv4.parse (trim r.content) == some ip

pub data Refusal : Type 0 where
  proxied : Text → Refusal
  cname : Text → Refusal
  ambiguous : ℕ → Option Text → Refusal
  cached_not_an_a_record : Text → Text → Refusal

pub data Upsert : Type 0 where
  create : Upsert
  update : Text → Bool → Upsert
  unchanged : Text → Upsert
  refuse : Refusal → Upsert

-- `records.iter().filter(|r| r.is_a())`.
unfoldable pub a_records : List Record → List Record
a_records [] = []
a_records (r ∷ rs) = let rest = a_records rs in if is_a r then r ∷ rest else rest

-- `cached_id.and_then(|id| records.iter().find(|r| r.id == id))`.
unfoldable pub find_cached : List Record → Option Text → Option Record
find_cached records none = none
find_cached records (some id) = find (λ (r : Record). r.id == id) records

-- The cached id, where one of the A records has it.
unfoldable pub ours : Option Text → List Record → Option Text
ours none found = none
ours (some id) found = if any (λ (r : Record). r.id == id) found then some id else none

-- The decision about the only A record.
unfoldable pub decide_one : Record → Ipv4Addr → Option Text → Upsert
decide_one r desired cached_id =
    if r.proxied
    then refuse (proxied r.id)
    else if points_at r desired
    then unchanged r.id
    else update r.id (not (cached_id == some r.id))

-- The decision by the A records that there are.
unfoldable pub decide_among : List Record → Ipv4Addr → Option Text → Upsert
decide_among [] desired cached_id = create
decide_among (r ∷ []) desired cached_id = decide_one r desired cached_id
decide_among (r ∷ q ∷ rest) desired cached_id =
    refuse (ambiguous (length (r ∷ q ∷ rest)) (ours cached_id (r ∷ q ∷ rest)))

-- The decision once the cached record is not in the way.
unfoldable pub decide_listed : List Record → Ipv4Addr → Option Text → Upsert
decide_listed records desired cached_id = elim (find is_cname records) [
  | some r ↦ refuse (cname r.id)
  | none ↦ decide_among (a_records records) desired cached_id
]

unfoldable pub decide : List Record → Ipv4Addr → Option Text → Upsert
decide records desired cached_id = elim (find_cached records cached_id) [
  | none ↦ decide_listed records desired cached_id
  | some cached ↦
      if not (is_a cached)
      then refuse (cached_not_an_a_record cached.id cached.kind)
      else decide_listed records desired cached_id
]

-- `Upsert::record_id`.
unfoldable pub record_id : Upsert → Option Text
record_id create = none
record_id (update id adopted) = some id
record_id (unchanged id) = some id
record_id (refuse refusal) = none

-- What `create_body` asks the zone to add, under an id that the zone gives; and what `update_body`
-- asks it to change, the content and nothing else.
unfoldable pub created : Text → Ipv4Addr → Record
created id desired = a_record id (Ipv4.display desired)

unfoldable pub with_content : Text → Ipv4Addr → List Record → List Record
with_content id desired [] = []
with_content id desired (r ∷ rs) =
    if r.id == id
    then record r { content = Ipv4.display desired } ∷ with_content id desired rs
    else r ∷ with_content id desired rs
