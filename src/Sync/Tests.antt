-- ===== src/Sync/Tests.antt =====
-- Runs of crates/anago-core/src/sync.rs.
use anago.Prelude.{◌≡◌, refl, true, false, List, [], ◌∷◌, none, some}
use anago.Text.{lit}
use anago.Subnet.{Subnet, address_of}
use anago.Sync.{
  Local, Reported, Member, unverifiable, rewrite, detached, removed, compare, check_roster, decide,
  display_changes, Changes, write_labels,
}
use anago.Sync.Decide.{Says, decide-Says}

abbrev net : Subnet
net = record { network = record { a = 10; b = 100; c = 0; d = 0 } }

abbrev device : Local
device = record {
  name = record { text = lit "laptop" };
  address = address_of net 2;
  subnet = net;
  server_public_key = lit "K1";
  server_endpoint = lit "vpn.test:51820";
  server_address = address_of net 1;
}

abbrev hub : Reported
hub = record {
  subnet = net;
  server_public_key = lit "K2";
  server_endpoint = lit "vpn.test:51820";
  server_address = address_of net 1;
}

abbrev members : List Member
members = record { name = record { text = lit "laptop" }; address = address_of net 2 } ∷ []

abbrev key_moved : Changes
key_moved = record { server_public_key = true; server_endpoint = false; server_address = false }

decide_key : decide device (some hub) members ≡ rewrite key_moved
unfolding decide check_roster compare
decide_key = refl

decide_silent : decide device none members ≡ unverifiable
unfolding decide check_roster compare
decide_silent = refl

decide_removed : decide device (some hub) [] ≡ detached removed
unfolding decide check_roster
decide_removed = refl

display_key : display_changes key_moved ≡ lit "server public key"
unfolding display_changes write_labels
display_key = refl

decide-Says_example : Says device (some hub) members (decide device (some hub) members)
decide-Says_example = decide-Says device (some hub) members
