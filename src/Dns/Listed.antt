-- ===== src/Dns/Listed.antt =====
-- The lists of records of crates/anago-core/src/dns.rs: the A records among them, and a change of
-- content.
use anago.Prelude.{
  ◌≡◌, refl, ap, subst, true, List, [], ◌∷◌, map, none, some, ◌==◌, list_eq, nat_eq, option_eq,
  list_beq_iff, find, arith, Bool-cases, inl, inr, contains, Distinct,
}
use anago.Text.{Text}
use anago.Ipv4
use anago.Ipv4.{Ipv4Addr, IsOctets, addr_eq, addr_beq_iff}
use anago.Dns.{Record, is_a, is_cname, a_records, with_content}

-- The id of an A record is among the ids.
a_records-contains :
    (rs : List Record) (r : Record)
    → a_records rs ≡ r ∷ []
    → contains (map (λ (q : Record). q.id) rs) r.id ≡ true
unfolding a_records
a_records-contains [] r h = absurd (ground arith)
a_records-contains (q ∷ rs) r h = elim (Bool-cases (is_a q)) [
  | inl here ↦
      let same : q ≡ r = ground (arith, rw (here, a_records) at h) in
      ground (arith, ap (λ (x : Record). x.id) same, list_beq_iff q.id r.id)
  | inr other ↦ ground (arith, a_records-contains rs r (rw (other, a_records) at h))
]

-- Where ids are unique, the id of the only A record leads to it.
pub a_records-find :
    (rs : List Record) (r : Record)
    → Distinct (map (λ (q : Record). q.id) rs)
    → a_records rs ≡ r ∷ []
    → (find (λ (q : Record). q.id == r.id) rs ≡ some r) × (is_a r ≡ true)
unfolding a_records
a_records-find [] r d h = absurd (ground arith)
a_records-find (q ∷ rs) r d h = elim (Bool-cases (is_a q)) [
  | inl here ↦
      let same : q ≡ r = ground (arith, rw (here, a_records) at h) in
      subst (λ x. (find (λ (q : Record). q.id == x.id) (q ∷ rs) ≡ some x) × (is_a x ≡ true)) same
        (ground (arith, list_beq_iff q.id q.id), here)
  | inr other ↦
      let later : a_records rs ≡ r ∷ [] = rw (other, a_records) at h in
      let (found, a) = a_records-find rs r d.1 later in
      (ground (arith, found, d.0, a_records-contains rs r later, list_beq_iff q.id r.id), a)
]

module _ (id : Text) (desired : Ipv4Addr) where
  abbrev pub pointed : Record → Record
  pointed r = record r { content = Ipv4.display desired }

  pub find-with_content :
      (rs : List Record) (r : Record)
      → find (λ (q : Record). q.id == id) rs ≡ some r
      → find (λ (q : Record). q.id == id) (with_content id desired rs) ≡ some (pointed r)
  unfolding with_content
  find-with_content [] r h = absurd (ground arith)
  find-with_content (q ∷ rs) r h = elim (Bool-cases (q.id == id)) [
    | inl here ↦
        let same : q ≡ r = ground (arith, rw here at h) in
        rw (here, with_content) (ground (arith, here, ap pointed same))
    | inr other ↦
        rw (other, with_content) (ground (arith, other, find-with_content rs r (rw other at h)))
  ]

  pub find_cname-with_content :
      (rs : List Record)
      → find is_cname rs ≡ none
      → find is_cname (with_content id desired rs) ≡ none
  unfolding with_content is_cname
  find_cname-with_content [] h = refl
  find_cname-with_content (q ∷ rs) h = ground (arith, find_cname-with_content rs)

  pub a_records-with_content :
      (rs : List Record)
      → a_records (with_content id desired rs) ≡ with_content id desired (a_records rs)
  unfolding a_records with_content is_a
  a_records-with_content [] = refl
  a_records-with_content (q ∷ rs) = ground (arith, a_records-with_content rs)

  pub with_content_one :
      (r : Record) → r.id ≡ id → with_content id desired (r ∷ []) ≡ pointed r ∷ []
  unfolding with_content
  with_content_one r h = rw ((list_beq_iff r.id id).1 h, with_content) refl
