-- ===== src/Wgconf.antt =====
-- crates/anago-core/src/wgconf.rs: the texts of WireGuard configurations.
pub mod Lines
pub mod Keys
mod Tests
use anago.Prelude.{
  ℕ, ◌≡◌, Bool, true, false, not, List, [], ◌∷◌, ◌++◌, Option, none, some, ◌==◌, nat_eq,
  if◌then◌else◌, any,
}
use anago.Text.{
  Text, lit, trim, trim_start, trim_end, split_once, eq_ignore_ascii_case, last?, init,
}
use anago.Text.Decimal.{decimal}
use anago.Ipv4
use anago.Ipv4.{Ipv4Addr}
use anago.Subnet
use anago.Subnet.{Subnet, prefix_len}
use anago.State.{ServerState, Peer}

abbrev pub persistent_keepalive_secs : ℕ
persistent_keepalive_secs = 25

-- What `SecretText` wraps; its Debug and Display print none of it.
unfoldable pub render_peers : List Peer → Text
render_peers [] = []
render_peers (p ∷ ps) =
    lit "\n[Peer]\n"
    ++ (lit "# "
        ++ (p.name.text
            ++ (lit "\n"
                ++ (lit "PublicKey = "
                    ++ (p.public_key
                        ++ (lit "\n"
                            ++ (lit "AllowedIPs = "
                                ++ (Ipv4.display p.address
                                    ++ (lit "/32\n" ++ render_peers ps)))))))))

unfoldable pub server_config : ServerState → Text
server_config s =
    lit "[Interface]\n"
    ++ (lit "# anago server — generated file, edits are overwritten\n"
        ++ (lit "Address = "
            ++ (Ipv4.display s.server.address
                ++ (lit "/"
                    ++ (decimal prefix_len
                        ++ (lit "\n"
                            ++ (lit "ListenPort = "
                                ++ (decimal s.listen_port
                                    ++ (lit "\n"
                                        ++ (lit "PrivateKey = "
                                            ++ (s.server.private_key
                                                ++ (lit "\n" ++ render_peers s.peers))))))))))))

pub record ClientProfile : Type 0 where
  pub address : Ipv4Addr
  pub subnet : Subnet
  pub private_key : Text
  pub server_public_key : Text
  pub server_endpoint : Text

-- The `[Peer]` part of `render_client`.
unfoldable pub render_hub : ClientProfile → Bool → Text
render_hub profile comments =
    lit "\n[Peer]\n"
    ++ ((if comments then lit "# anago server\n" else [])
        ++ (lit "PublicKey = "
            ++ (profile.server_public_key
                ++ (lit "\n"
                    ++ (lit "Endpoint = "
                        ++ (profile.server_endpoint
                            ++ (lit "\n"
                                ++ (lit "AllowedIPs = "
                                    ++ (Subnet.display profile.subnet
                                        ++ (lit "\n"
                                            ++ (lit "PersistentKeepalive = "
                                                ++ (decimal persistent_keepalive_secs
                                                    ++ lit "\n"))))))))))))

unfoldable pub render_client : ClientProfile → Bool → Text
render_client profile comments =
    lit "[Interface]\n"
    ++ ((if comments then lit "# anago — generated file, edits are overwritten\n" else [])
        ++ (lit "Address = "
            ++ (Ipv4.display profile.address
                ++ (lit "/"
                    ++ (decimal prefix_len
                        ++ (lit "\n"
                            ++ (lit "PrivateKey = "
                                ++ (profile.private_key
                                    ++ (lit "\n" ++ render_hub profile comments)))))))))

unfoldable pub client_config : ClientProfile → Text
client_config profile = render_client profile true

unfoldable pub export_profile : ClientProfile → Text
export_profile profile = render_client profile false

-- `str::lines`: a line ends at `\n`, or at `\r\n`; what follows the last `\n` is a line unless empty.
abbrev pub strip_cr : Text → Text
strip_cr line = elim (last? line) [ none ↦ line | some c ↦ if c == b'\r' then init line else line ]

unfoldable pub lines_from : Text → Text → List Text
lines_from [] [] = []
lines_from [] (c ∷ line) = (c ∷ line) ∷ []
lines_from (c ∷ cs) line =
    let ended = strip_cr line ∷ lines_from cs [] in
    let longer = lines_from cs (line ++ c ∷ []) in if c == b'\n' then ended else longer

abbrev pub lines : Text → List Text
lines s = lines_from s []

-- What `private_key_line` makes of one line.
unfoldable pub key_value : Text → Option Text
key_value line = elim (split_once b'=' (trim line)) [
  | none ↦ none
  | some (name, value) ↦
      if eq_ignore_ascii_case (trim name) (lit "privatekey") then some (trim value) else none
]

-- `Iterator::find_map` of it.
unfoldable pub find_key : List Text → Option Text
find_key [] = none
find_key (line ∷ rest) = elim (key_value line) [ some value ↦ some value | none ↦ find_key rest ]

unfoldable pub private_key_line : Text → Option Text
private_key_line config = find_key (lines config)

abbrev pub quick_keys : List Text
quick_keys =
    lit "Address"
    ∷ lit "DNS"
    ∷ lit "MTU"
    ∷ lit "Table"
    ∷ lit "PreUp"
    ∷ lit "PostUp"
    ∷ lit "PreDown"
    ∷ lit "PostDown"
    ∷ lit "SaveConfig"
    ∷ []

-- `line.split('=').next()`: what stands before the first `=`, or the whole line.
abbrev pub before_equals : Text → Text
before_equals line = elim (split_once b'=' line) [ none ↦ line | some (l, r) ↦ l ]

unfoldable pub is_quick : Text → Bool
is_quick line = any (λ quick. eq_ignore_ascii_case (trim (before_equals line)) quick) quick_keys

unfoldable pub keep_lines : List Text → Text
keep_lines [] = []
keep_lines (line ∷ rest) =
    let kept = keep_lines rest in if is_quick line then kept else line ++ b'\n' ∷ kept

unfoldable pub strip_quick_keys : Text → Text
strip_quick_keys conf = keep_lines (lines conf)
