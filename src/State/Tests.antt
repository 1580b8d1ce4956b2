-- ===== src/State/Tests.antt =====
-- Runs of crates/anago-core/src/state.rs and crates/anago/src/code.rs.
use anago.Prelude.{
  ℕ, zero, suc, ◌≤◌, ◌<◌, ◌≡◌, refl, ◌↔◌, ◌⊎◌, true, false, none, some, arith, Result, ok, err,
  contains, length,
}
use anago.Prelude.Int.{pos}
use anago.Prelude.I64.{saturating_add}
use anago.Text.{Text, lit}
use anago.Ipv4.{addr_eq}
use anago.Subnet.{
  Subnet, address_of, allocate, next_free_octet, host_octets, host_octet, find_unused, has_address,
}
use anago.Name.{DeviceName, name_eq, is_taken}
use anago.Token.{TokenHash}
use anago.Tls.{Tls, manual}
use anago.Code
use anago.Code.{JoinCode, code_eq, used, expired, issued_status, is_usable, status, expires_at}
use anago.State.{
  Peer, ServerState, Registration, unknown_code, code_not_usable, find_code, peer, peer_names,
  new_peer, register, admit, add_peer, remove_first, remove_peer, mark_used, issue, choose_unused,
  choose_loop,
}
use anago.State.Invariant.{IsSound}
use anago.State.Registers.{Registers, add_peer-Registers_iff}
use anago.State.Join.{Reason, add_peer-rejected, add_peer_total}
use anago.State.Remove.{IsWithout, remove_peer-IsWithout}
use anago.State.Reach.{
  build_state, here, next, join, remove, issue_code, Reach-build_state-IsSound, add_peer_once,
}
use anago.State.Reuse.{add_peer-remove_peer-le}

abbrev ten : Subnet
ten = record { network = record { a = 10; b = 100; c = 0; d = 0 } }

abbrev tls : Tls
tls = record { cert_path = lit "c"; key_path = lit "k"; not_after = none; source = manual }

abbrev first_code : JoinCode
first_code = record { text = lit "7QX4-M2KD" }

abbrev fresh : ServerState
fresh =
    build_state (lit "vpn.test") ten 51_820 443 tls none (lit "priv") (lit "pub") first_code (pos 0)

abbrev hash : TokenHash
hash = record { hex = lit "00" }

abbrev laptop : DeviceName
laptop = record { text = lit "laptop" }

abbrev wanted : Registration
wanted = record { code = first_code; name = laptop; public_key = lit "key"; token_hash = hash }

abbrev first_device : Peer
first_device = new_peer wanted (address_of ten 2) (pos 10)

add_peer-wanted : (add_peer fresh wanted (pos 10)).1 ≡ ok first_device
unfolding add_peer admit find_code issued_status status allocate next_free_octet host_octets
    host_octet find_unused has_address is_taken build_state Code.issue expires_at saturating_add
add_peer-wanted = refl

abbrev joined : ServerState
joined = (add_peer fresh wanted (pos 10)).0

abbrev guess : Registration
guess = record wanted { code = record { text = lit "2222-2222" } }

add_peer-guess : (add_peer fresh guess (pos 10)).1 ≡ err unknown_code
unfolding add_peer find_code build_state Code.issue
add_peer-guess = refl

find_code_fresh : find_code first_code fresh.codes ≡ some (Code.issue first_code (pos 0) (pos 900))
unfolding find_code build_state Code.issue
find_code_fresh = refl

issued_usable : is_usable (Code.issue first_code (pos 0) (pos 900)) (pos 10) ≡ true
unfolding is_usable issued_status status Code.issue expires_at saturating_add
issued_usable = refl

no_names : contains (peer_names fresh.peers) laptop ≡ false
unfolding build_state
no_names = refl

no_devices : length fresh.peers < 253
unfolding build_state
no_devices = omega arith

add_peer-Registers_iff_example :
    (add_peer fresh wanted (pos 10) ≡ (joined, ok first_device))
    ↔ Registers fresh wanted (pos 10) joined first_device
add_peer-Registers_iff_example = add_peer-Registers_iff fresh wanted (pos 10) joined first_device

add_peer-rejected_example :
    ((add_peer fresh guess (pos 10)).0 ≡ fresh) × Reason fresh guess (pos 10) unknown_code
add_peer-rejected_example = add_peer-rejected fresh guess (pos 10) add_peer-guess

add_peer_total_example : (p : Peer) × ((add_peer fresh wanted (pos 10)).1 ≡ ok p)
add_peer_total_example =
    add_peer_total fresh wanted (pos 10) (Code.issue first_code (pos 0) (pos 900)) no_devices
      find_code_fresh issued_usable no_names

Reach-build_state-IsSound_example : IsSound joined
Reach-build_state-IsSound_example =
    Reach-build_state-IsSound (lit "vpn.test") ten 51_820 443 tls none (lit "priv") (lit "pub")
      first_code (pos 0) (next here (join fresh wanted (pos 10)))

joined-IsSound : IsSound joined
joined-IsSound =
    Reach-build_state-IsSound (lit "vpn.test") ten 51_820 443 tls none (lit "priv") (lit "pub")
      first_code (pos 0) (next here (join fresh wanted (pos 10)))

peer_joined : (remove_peer joined laptop).1 ≡ some first_device
unfolding remove_peer peer add_peer admit find_code issued_status status allocate next_free_octet
    host_octets host_octet find_unused has_address is_taken register mark_used build_state
    Code.issue expires_at saturating_add
peer_joined = refl

remove_peer-IsWithout_example :
    ((peer joined laptop ≡ none) × (remove_peer joined laptop ≡ (joined, none)))
    ⊎ ((p : Peer) × (p.name ≡ laptop)
        × ((remove_peer joined laptop).1 ≡ some p)
        × IsWithout joined.peers (remove_peer joined laptop).0.peers p
        × ((remove_peer joined laptop).0
            ≡ record joined { peers = (remove_peer joined laptop).0.peers }))
remove_peer-IsWithout_example = remove_peer-IsWithout joined laptop joined-IsSound

-- The first call draws the code that is there, the second a new one.
abbrev draw_second : ℕ → Result Text JoinCode
draw_second zero = ok first_code
draw_second (suc n) = ok guess.code

choose_second : choose_unused fresh draw_second 16 ≡ ok guess.code
unfolding choose_unused choose_loop build_state Code.issue
choose_second = refl

abbrev again : Registration
again = record wanted { name = record { text = lit "phone" } }

add_peer_once_example :
    add_peer (remove_peer joined laptop).0 again (pos 20)
    ≡ ((remove_peer joined laptop).0, err (code_not_usable used))
add_peer_once_example =
    add_peer_once fresh wanted (pos 10) again (pos 20) add_peer-wanted
      (next here (remove joined laptop)) refl

-- Two devices, and a code that is left.
abbrev spare_code : JoinCode
spare_code = record { text = lit "3333-3333" }

abbrev second_code : ServerState
second_code = (issue joined spare_code (pos 10) (pos 900)).0

spare_drawn : choose_unused joined (λ n. ok spare_code) 16 ≡ ok spare_code
unfolding choose_unused choose_loop add_peer admit find_code issued_status status allocate
    next_free_octet host_octets host_octet find_unused has_address is_taken register mark_used
    build_state Code.issue expires_at saturating_add
spare_drawn = refl

abbrev back : Registration
back = record wanted { code = spare_code }

second_code-IsSound : IsSound second_code
second_code-IsSound =
    Reach-build_state-IsSound (lit "vpn.test") ten 51_820 443 tls none (lit "priv") (lit "pub")
      first_code (pos 0)
      (next (next here (join fresh wanted (pos 10)))
        (issue_code joined (λ n. ok spare_code) 16 spare_code (pos 10) (pos 900) spare_drawn))

removed_second : (remove_peer second_code laptop).1 ≡ some first_device
unfolding remove_peer peer add_peer admit find_code issued_status status allocate next_free_octet
    host_octets host_octet find_unused has_address is_taken register mark_used issue build_state
    Code.issue expires_at saturating_add
removed_second = refl

joined_again :
    (add_peer (remove_peer second_code laptop).0 back (pos 20)).1
    ≡ ok (new_peer back (address_of ten 2) (pos 20))
unfolding remove_peer remove_first peer add_peer admit find_code issued_status status allocate
    next_free_octet host_octets host_octet find_unused has_address is_taken register mark_used issue
    build_state Code.issue expires_at saturating_add
joined_again = refl

add_peer-remove_peer-le_example : 2 ≤ 2
add_peer-remove_peer-le_example =
    add_peer-remove_peer-le second_code laptop back (pos 20) second_code-IsSound removed_second
      joined_again
