-- ===== src/Lib.antt =====
-- Anago: a small WireGuard hub. A server keeps one state file; devices join it with a one-time
-- code, get an address in a /24 and a token, and from then on ask for the list of devices, remove
-- each other and keep their own configuration in step with the hub. This library models the core
-- crate, where the decisions are made, and the pure decisions of the binary crate.
--
-- How the parts interact. `server init` writes the first state with one join code. `POST /join`
-- parses a code and a name, and `add_peer` spends the code, allocates an address and appends the
-- device. `anago rm` calls `remove_peer`; `anago code` draws a code that is new and issues it;
-- every authenticated call stamps the caller. The certificate of the API is renewed on a schedule
-- that the state file carries.
--
-- Files and code (each with child modules for its theorems and, under Tests, for runs):
--   Prelude   shared helpers: Boolean tests, equality, results, lists, 64-bit integers with
--             saturation, bit operations
--   Text      texts as lists of Unicode scalar values, and what Rust's `str` offers: split_once,
--             trim, decimal numbers
--   Ipv4      `std::net::Ipv4Addr`: octets, display, parsing
--   Subnet    crates/anago-core/src/subnet.rs
--   Code      crates/anago-core/src/code.rs
--   Token     crates/anago-core/src/token.rs
--   Name      crates/anago-core/src/name.rs
--   Tls       crates/anago-core/src/state.rs: Challenge, Acme, Tls and the renewal schedule
--   State     crates/anago-core/src/state.rs: ServerState, add_peer, remove_peer; the issue and the
--             drawing of codes of crates/anago/src/code.rs; touch_last_seen of crates/anago/src/api.rs;
--             build_state of crates/anago/src/init.rs
--   Sync      crates/anago-core/src/sync.rs
--   Proto     crates/anago-core/src/proto.rs: the bodies of the API and the error codes; Proto.Fields and
--             Proto.Codec have their JSON forms
--   Statefile crates/anago-core/src/state.rs: to_json, from_json and parse of the state file, with the
--             upgrade of version 1
--   Wg        crates/anago/src/wg.rs: parse_key
--   Api       crates/anago/src/api.rs and hash_token of crates/anago/src/secret.rs: bearer_token,
--             authenticate, decide_join, decide_remove, decide_peers; Api.Handlers has the handlers
--             over the files of Store
--   Store     crates/anago/src/store.rs: lock, read and commit; crates/anago/src/fsutil.rs:
--             write_private_owned with its helpers, as steps over the state file and its sibling `.tmp`
--             that each may fail
--   Device    crates/anago/src/join.rs: DeviceConfig, checked_endpoint, and in Device.File the device
--             file, profile, validate, accepted and undo_credentials; crates/anago/src/sync.rs:
--             local_of, reported_of, roster_of, updated, ending_of, and what `attempt` decides
--   Dns       crates/anago-core/src/dns.rs; create_body and update_body of crates/anago/src/cfapi.rs, as
--             what they ask of a zone
--   Dnswire   crates/anago-core/src/dnswire.rs; a message is a list of bytes, and `from_utf8_lossy` a
--             parameter that leaves ASCII as it is; Dnswire.Answer has read_txt, where an index beyond
--             the message is an outcome of its own
--   Json      crates/anago-core/src/json.rs: values; Json.Write and Json.Read, Json.Parse have the writer
--             and the parser, which takes the text that is left in place of an index and notes an
--             error by the bytes left
--   X509      crates/anago-core/src/x509.rs
--   Acme      crates/anago-core/src/acme.rs
--   Wgconf    crates/anago-core/src/wgconf.rs
--   Qr        crates/anago-core/src/qr.rs; a loop over a range is recursion on its length
--   Args      crates/anago/src/args.rs; the loop over the arguments is recursion on their list
--
-- How the model reads the code. A `String` is a list of scalar values; where the code counts
-- bytes, the texts are ASCII. `&mut self` is a state that goes in and comes out, beside the
-- result. An error is the `err` of a `Result` with a constructor for each variant; what its
-- Display prints is left out where no answer carries it. `i64` is an integer with its saturating
-- operations; `IsI64` says that a value fits. The Unicode tables of `char::is_alphanumeric` and
-- `str::to_lowercase` are the parameter `Unicode`, with the laws in `IsUnicode`; a test instance
-- takes their ASCII part. The digest of tokens, and what `{:?}` prints, are parameters too
-- (`Env`). The source of random codes is a function from the number of the call to what it
-- returns. Every loop of the model is structural recursion on the list or the count that the code
-- iterates over, but for the JSON parser: it runs on fuel, twice the length of the text and one for
-- values and the length of the text and one for a string, which Json.Sound shows to be enough.
-- The loop that follows the pointers of a DNS name has fuel for every pointer and a walk behind each,
-- which Dnswire.Names shows to be enough.
--
-- Not modelled: the HTTP server and the clients, the ACME and Cloudflare clients, the commands and
-- their texts, files and services of the operating system.
pub mod Prelude
pub mod Text
pub mod Ipv4
pub mod Subnet
pub mod Code
pub mod Token
pub mod Name
pub mod Tls
pub mod State
pub mod Sync
pub mod Proto
pub mod Wg
pub mod Api
pub mod Device
pub mod Dns
pub mod Dnswire
pub mod Json
pub mod Statefile
pub mod X509
pub mod Acme
pub mod Wgconf
pub mod Args
pub mod Qr
pub mod Store
