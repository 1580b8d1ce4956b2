-- ===== src/Sync.antt =====
-- crates/anago-core/src/sync.rs: what a device does about what the hub says.
pub mod Decide
mod Tests
use anago.Prelude.{
  ◌≡◌, Bool, true, false, not, ◌||◌, List, [], ◌∷◌, ◌++◌, Option, none, some, ◌==◌, list_eq, nat_eq,
  if◌then◌else◌, find,
}
use anago.Text.{Text, lit}
use anago.Ipv4.{Ipv4Addr, addr_eq}
use anago.Subnet.{Subnet, subnet_eq}
use anago.Name.{DeviceName, name_eq}

pub record Local : Type 0 where
  pub name : DeviceName
  pub address : Ipv4Addr
  pub subnet : Subnet
  pub server_public_key : Text
  pub server_endpoint : Text
  pub server_address : Ipv4Addr

pub record Reported : Type 0 where
  pub subnet : Subnet
  pub server_public_key : Text
  pub server_endpoint : Text
  pub server_address : Ipv4Addr

pub record Member : Type 0 where
  pub name : DeviceName
  pub address : Ipv4Addr

pub record Changes : Type 0 where
  pub server_public_key : Bool
  pub server_endpoint : Bool
  pub server_address : Bool

pub data Detachment : Type 0 where
  unauthorized removed : Detachment
  reassigned : Ipv4Addr → Detachment
  subnet_changed : Subnet → Detachment

pub data Outcome : Type 0 where
  unchanged unverifiable : Outcome
  rewrite : Changes → Outcome
  detached : Detachment → Outcome

-- `Changes::any`.
abbrev pub any_change : Changes → Bool
any_change c = c.server_public_key || c.server_endpoint || c.server_address

-- The flags that `decide` sets.
abbrev pub changes : Local → Reported → Changes
changes local reported = record {
  server_public_key = not (reported.server_public_key == local.server_public_key);
  server_endpoint = not (reported.server_endpoint == local.server_endpoint);
  server_address = not (reported.server_address == local.server_address);
}

-- What the hub says about itself against what the device holds.
unfoldable pub compare : Local → Option Reported → Outcome
compare local none = unverifiable
compare local (some reported) =
    if any_change (changes local reported) then rewrite (changes local reported) else unchanged

unfoldable pub check_roster : Local → Option Reported → List Member → Outcome
check_roster local reported roster = elim (find (λ (m : Member). m.name == local.name) roster) [
  | none ↦ detached removed
  | some member ↦
      if not (member.address == local.address)
      then detached (reassigned member.address)
      else compare local reported
]

unfoldable pub decide : Local → Option Reported → List Member → Outcome
decide local none roster = check_roster local none roster
decide local (some reported) roster =
    if not (reported.subnet == local.subnet)
    then detached (subnet_changed reported.subnet)
    else check_roster local (some reported) roster

-- The loop of `Display for Changes`, with the `first` flag that it returns.
unfoldable pub write_labels : Bool → List (Bool × Text) → Text × Bool
write_labels first [] = ([], first)
write_labels first ((moved, label) ∷ rest) =
    let skipped = write_labels first rest in
    let written = write_labels false rest in
    if not moved
    then skipped
    else ((if first then label else lit ", " ++ label) ++ written.0, written.1)

unfoldable pub display_changes : Changes → Text
unfolding write_labels
display_changes c =
    let (text, first) = write_labels true (
      (c.server_public_key, lit "server public key")
      ∷ (c.server_endpoint, lit "server endpoint")
      ∷ (c.server_address, lit "server address")
      ∷ []) in
    text ++ (if first then lit "nothing" else [])
