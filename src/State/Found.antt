-- ===== src/State/Found.antt =====
-- Lookups in the lists of crates/anago-core/src/state.rs before and after they change.
use anago.Prelude.{
  ◌≡◌, refl, ap, false, ◌||◌, List, [], ◌∷◌, ◌++◌, map, none, some, arith, ◌==◌, list_eq, nat_eq,
  if◌then◌else◌, any, contains,
}
use anago.Prelude.Int.{ℤ}
use anago.Name.{DeviceName, name_eq, is_taken}
use anago.Code.{JoinCode, code_eq, code_beq_iff, IssuedCode}
use anago.State.{Peer, find_code, mark_used, issued_codes, peer_names, peer_addresses, touch_first}

-- The entry of a code, once the code is spent.
pub find_code-mark_used :
    (c d : JoinCode) (now : ℤ) (codes : List IssuedCode)
    → find_code d (mark_used c now codes) ≡ (elim (find_code d codes) [
      | none ↦ none
      | some i ↦ if c == d then some (record i { used_at = some now }) else some i
    ])
unfolding find_code mark_used
find_code-mark_used c d now [] = refl
find_code-mark_used c d now (i ∷ codes) = ground (
  arith,
  find_code-mark_used c d now codes,
  code_beq_iff i.code c,
  code_beq_iff i.code d,
  code_beq_iff c d,
)

-- Spending a code changes no code.
pub issued_codes-mark_used :
    (c : JoinCode) (now : ℤ) (codes : List IssuedCode)
    → issued_codes (mark_used c now codes) ≡ issued_codes codes
unfolding mark_used
issued_codes-mark_used c now [] = refl
issued_codes-mark_used c now (i ∷ codes) = ground (arith, issued_codes-mark_used c now codes)

-- A code that is found is found first also when others follow.
pub find_code-append :
    (c : JoinCode) (codes more : List IssuedCode)
    → find_code c (codes ++ more)
      ≡ (elim (find_code c codes) [ none ↦ find_code c more | some i ↦ some i ])
unfolding find_code
find_code-append c [] more = refl
find_code-append c (i ∷ codes) more = ground (arith, find_code-append c codes more)

pub find_code-none :
    (c : JoinCode) (codes : List IssuedCode)
    → find_code c codes ≡ none
    → contains (issued_codes codes) c ≡ false
unfolding find_code
find_code-none c [] h = refl
find_code-none c (i ∷ codes) h = ground (arith, find_code-none c codes)

pub contains-issued_codes :
    (c : JoinCode) (codes : List IssuedCode)
    → any (λ (i : IssuedCode). i.code == c) codes ≡ contains (issued_codes codes) c
contains-issued_codes c [] = refl
contains-issued_codes c (i ∷ codes) = ap (◌||◌ (i.code == c)) (contains-issued_codes c codes)

-- A name is taken exactly if a device has it.
pub is_taken-contains :
    (name : DeviceName) (ps : List Peer)
    → is_taken (map (λ (p : Peer). p.name.text) ps) name ≡ contains (peer_names ps) name
unfolding is_taken
is_taken-contains name [] = refl
is_taken-contains name (p ∷ ps) = ap (◌||◌ (p.name == name)) (is_taken-contains name ps)

-- The stamp changes no name and no address.
pub peer_names-touch_first :
    (name : DeviceName) (now : ℤ) (ps : List Peer)
    → peer_names (touch_first name now ps) ≡ peer_names ps
unfolding touch_first
peer_names-touch_first name now [] = refl
peer_names-touch_first name now (p ∷ ps) = ground (arith, peer_names-touch_first name now ps)

pub peer_addresses-touch_first :
    (name : DeviceName) (now : ℤ) (ps : List Peer)
    → peer_addresses (touch_first name now ps) ≡ peer_addresses ps
unfolding touch_first
peer_addresses-touch_first name now [] = refl
peer_addresses-touch_first name now (p ∷ ps) =
    ground (arith, peer_addresses-touch_first name now ps)
