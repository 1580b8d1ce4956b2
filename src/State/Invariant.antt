-- ===== src/State/Invariant.antt =====
-- What always holds of the hub's state (crates/anago-core/src/state.rs).
use anago.Prelude.{
  ℕ, ◌+◌, ◌≤◌, ◌≡◌, Bool, true, false, List, [], ◌∷◌, Option, none, some, length, All, Distinct,
  if◌then◌else◌,
}
use anago.Ipv4.{addr_eq}
use anago.Subnet.{Subnet, server_address}
use anago.Subnet.Alloc.{IsDeviceAddress}
use anago.Name.{name_eq}
use anago.Code.{code_eq, IssuedCode}
use anago.State.{ServerState, Peer, peer_names, peer_addresses, issued_codes}

abbrev pub is_some {ℓ} : {A : Type ℓ} → Option A → Bool
is_some none = false
is_some (some a) = true

-- The codes that are spent.
abbrev pub spent_count : List IssuedCode → ℕ
spent_count [] = 0
spent_count (i ∷ codes) = if is_some i.used_at then spent_count codes + 1 else spent_count codes

-- Device addresses, as a predicate on the devices.
abbrev pub AllDevices : Subnet → List Peer → Type 0
AllDevices subnet = All (λ (p : Peer). IsDeviceAddress subnet p.address)

-- No two devices share a name or an address, each has a device address of the subnet, the hub has
-- its own, no code is issued twice, and there are no more devices than codes that were spent.
pub record IsSound (s : ServerState) : Type 0 where
  pub names : Distinct (peer_names s.peers)
  pub addresses : Distinct (peer_addresses s.peers)
  pub devices : AllDevices s.subnet s.peers
  pub hub : s.server.address ≡ server_address s.subnet
  pub codes : Distinct (issued_codes s.codes)
  pub spent : length s.peers ≤ spent_count s.codes
