-- ===== src/Wgconf/Tests.antt =====
-- Runs of crates/anago-core/src/wgconf.rs.
use anago.Prelude.{◌≡◌, refl, true, some, nat_eq}
use anago.Text.{Text, lit, trim_start, trim_end, is_whitespace, split_once}
use anago.Text.Decimal.{decimal}
use anago.Ipv4
use anago.Subnet
use anago.Wg.Key.{IsKey}
use anago.Wgconf.{
  ClientProfile, lines_from, key_value, find_key, private_key_line, is_quick, keep_lines,
  strip_quick_keys, render_client, render_hub, export_profile,
}
use anago.Wgconf.Keys.{private_key_line-render_client}

abbrev key : Text
key = lit "AAAAAAAAAAAAAAAAAAAAAAAAAAAAAAAAAAAAAAAAAAA="

abbrev profile : ClientProfile
profile = record {
  address = record { a = 10; b = 100; c = 0; d = 2 };
  subnet = record { network = record { a = 10; b = 100; c = 0; d = 0 } };
  private_key = key;
  server_public_key = lit "HUB=";
  server_endpoint = lit "vpn.test:51820";
}

export_profile-profile :
    export_profile profile
    ≡ lit
        "[Interface]\nAddress = 10.100.0.2/24\nPrivateKey = AAAAAAAAAAAAAAAAAAAAAAAAAAAAAAAAAAAAAAAAAAA=\n\n[Peer]\nPublicKey = HUB=\nEndpoint = vpn.test:51820\nAllowedIPs = 10.100.0.0/24\nPersistentKeepalive = 25\n"
unfolding export_profile render_client render_hub Ipv4.display Subnet.display decimal
export_profile-profile = refl

private_key_line_indented : private_key_line (lit "  privatekey=abc \r\n") ≡ some (lit "abc")
unfolding private_key_line lines_from find_key key_value split_once trim_start trim_end
    is_whitespace
private_key_line_indented = refl

abbrev written : Text
written = lit "[Interface]\nAddress = 10.0.0.1/24\nListenPort = 7\n postup = id\n"

strip_quick_keys-written : strip_quick_keys written ≡ lit "[Interface]\nListenPort = 7\n"
unfolding strip_quick_keys keep_lines lines_from is_quick split_once trim_start trim_end
    is_whitespace
strip_quick_keys-written = refl

key-IsKey : IsKey key
key-IsKey = record {
  body = lit "AAAAAAAAAAAAAAAAAAAAAAAAAAAAAAAAAAAAAAAAAAA";
  spelt = refl;
  long = refl;
  base64 = refl;
}

private_key_line-render_client_example :
    private_key_line (render_client profile true) ≡ some profile.private_key
private_key_line-render_client_example = private_key_line-render_client profile true key-IsKey
