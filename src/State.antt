-- ===== src/State.antt =====
-- crates/anago-core/src/state.rs: what the hub keeps, and the changes that a join and a removal
-- make; the codes that crates/anago/src/code.rs issues; the stamp of crates/anago/src/api.rs.
pub mod Found
pub mod Invariant
pub mod Join
pub mod Registers
pub mod Remove
pub mod Sound
pub mod Reach
pub mod Reuse
pub mod Codes
mod Tests
use anago.Prelude.{
  ℕ, zero, suc, ◌+◌, ◌≡◌, Bool, true, false, List, [], ◌∷◌, ◌++◌, map, Option, none, some, ◌==◌,
  if◌then◌else◌, not, any, find, Result, ok, err, list_eq, nat_eq,
}
use anago.Prelude.Int.{ℤ}
use anago.Text.{Text}
use anago.Ipv4.{Ipv4Addr}
use anago.Subnet.{Subnet, allocate, server_address}
use anago.Name.{DeviceName, name_eq, is_taken}
use anago.Token.{TokenHash}
use anago.Tls.{Tls}
use anago.Code
use anago.Code.{
  JoinCode, code_eq, IssuedCode, CodeStatus, usable, used, expired, issued_status, is_usable_status,
}

pub record Cloudflare : Type 0 where
  pub zone_id : Text
  pub record_id : Option Text
  pub token_path : Option Text

pub record ServerKeys : Type 0 where
  pub private_key : Text
  pub public_key : Text
  pub address : Ipv4Addr

pub record Peer : Type 0 where
  pub name : DeviceName
  pub public_key : Text
  pub address : Ipv4Addr
  pub token_hash : TokenHash
  pub created_at : ℤ
  pub last_seen : Option ℤ

pub record ServerState : Type 0 where
  pub domain : Text
  pub subnet : Subnet
  pub listen_port : ℕ
  pub api_port : ℕ
  pub tls : Tls
  pub cloudflare : Option Cloudflare
  pub server : ServerKeys
  pub peers : List Peer
  pub codes : List IssuedCode

pub record Registration : Type 0 where
  pub code : JoinCode
  pub name : DeviceName
  pub public_key : Text
  pub token_hash : TokenHash

pub data JoinRejection : Type 0 where
  unknown_code : JoinRejection
  code_not_usable : CodeStatus → JoinRejection
  name_taken subnet_full : JoinRejection

-- The names, addresses and codes in use.
abbrev pub peer_names : List Peer → List DeviceName
peer_names = map (λ (p : Peer). p.name)

abbrev pub peer_addresses : List Peer → List Ipv4Addr
peer_addresses = map (λ (p : Peer). p.address)

abbrev pub issued_codes : List IssuedCode → List JoinCode
issued_codes = map (λ (i : IssuedCode). i.code)

-- `ServerState::peer`: the first device of that name.
unfoldable pub peer : ServerState → DeviceName → Option Peer
peer s name = find (λ (p : Peer). p.name == name) s.peers

-- The entry at the position of the first code that is the one offered.
unfoldable pub find_code : JoinCode → List IssuedCode → Option IssuedCode
find_code code codes = find (λ (i : IssuedCode). i.code == code) codes

-- `self.codes[index].used_at = Some(now)`, at that position.
unfoldable pub mark_used : JoinCode → ℤ → List IssuedCode → List IssuedCode
mark_used code now [] = []
mark_used code now (i ∷ codes) =
    if i.code == code then record i { used_at = some now } ∷ codes else i ∷ mark_used code now codes

abbrev pub new_peer : Registration → Ipv4Addr → ℤ → Peer
new_peer r address now = record {
  name = r.name;
  public_key = r.public_key;
  address = address;
  token_hash = r.token_hash;
  created_at = now;
  last_seen = none;
}

-- Past every check: the code is spent and the device is appended.
unfoldable pub register : ServerState → Registration → Ipv4Addr → ℤ → ServerState
register s r address now = record s {
  codes = mark_used r.code now s.codes;
  peers = s.peers ++ new_peer r address now ∷ [];
}

-- `add_peer` from the status of the code on.
unfoldable pub admit :
    ServerState → Registration → ℤ → CodeStatus → ServerState × Result JoinRejection Peer
admit s r now status =
    if not (is_usable_status status)
    then (s, err (code_not_usable status))
    else if is_taken (map (λ (p : Peer). p.name.text) s.peers) r.name
    then (s, err name_taken)
    else (elim (allocate s.subnet (peer_addresses s.peers)) [
      | none ↦ (s, err subnet_full)
      | some address ↦ (register s r address now, ok (new_peer r address now))
    ])

-- `ServerState::add_peer`, with the state that it leaves.
unfoldable pub add_peer : ServerState → Registration → ℤ → ServerState × Result JoinRejection Peer
add_peer s r now = elim (find_code r.code s.codes) [
  | none ↦ (s, err unknown_code)
  | some issued ↦ admit s r now (issued_status issued now)
]

-- The list without the device at the position of the first one of that name.
unfoldable pub remove_first : DeviceName → List Peer → List Peer
remove_first name [] = []
remove_first name (p ∷ ps) = if p.name == name then ps else p ∷ remove_first name ps

-- `ServerState::remove_peer`.
unfoldable pub remove_peer : ServerState → DeviceName → ServerState × Option Peer
remove_peer s name = elim (peer s name) [
  | none ↦ (s, none)
  | some p ↦ (record s { peers = remove_first name s.peers }, some p)
]

-- `code::issue` of the binary: a fresh code is appended.
unfoldable pub issue : ServerState → JoinCode → ℤ → ℤ → ServerState × IssuedCode
issue s code now ttl_secs =
    let issued = Code.issue code now ttl_secs in
    (record s { codes = s.codes ++ issued ∷ [] }, issued)

pub data DrawError : Type 0 where
  random : Text → DrawError
  no_free_code : ℕ → DrawError

-- The loop of `code::choose_unused`; `draw n` is what the call number `n` of `draw` returns.
unfoldable pub choose_loop :
    ServerState → ℕ → (ℕ → Result Text JoinCode) → ℕ → ℕ → Result DrawError JoinCode
choose_loop s draws draw call zero = err (no_free_code draws)
choose_loop s draws draw call (suc left) =
    let next = choose_loop s draws draw (call + 1) left in
    elim (draw call) [
      | err e ↦ err (random e)
      | ok candidate ↦
          if any (λ (i : IssuedCode). i.code == candidate) s.codes then next else ok candidate
    ]

unfoldable pub choose_unused :
    ServerState → (ℕ → Result Text JoinCode) → ℕ → Result DrawError JoinCode
choose_unused s draw draws = choose_loop s draws draw 0 draws

unfoldable pub touch_first : DeviceName → ℤ → List Peer → List Peer
touch_first name now [] = []
touch_first name now (p ∷ ps) =
    if p.name == name then record p { last_seen = some now } ∷ ps else p ∷ touch_first name now ps

-- `touch_last_seen` of the binary.
unfoldable pub touch_last_seen : ServerState → DeviceName → ℤ → ServerState
touch_last_seen s name now = record s { peers = touch_first name now s.peers }
