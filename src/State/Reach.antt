-- ===== src/State/Reach.antt =====
-- The life of a hub (crates/anago-core/src/state.rs, crates/anago/src/init.rs, code.rs, api.rs): the
-- state that `server init` writes, and every sequence of joins, removals, new codes and stamps.
use anago.Prelude.{
  ℕ, ◌≡◌, refl, sym, ap, subst, false, [], ◌∷◌, Option, arith, ok, err, Result, contains,
  Result-cases, inl, inr,
}
use anago.Prelude.Int.{ℤ, pos}
use anago.Text.{Text}
use anago.Ipv4.{addr_eq}
use anago.Subnet.{Subnet, server_address}
use anago.Name.{DeviceName}
use anago.Code
use anago.Code.{JoinCode, code_eq, issued_status, is_usable_status, used, status}
use anago.Tls.{Tls}
use anago.State.{
  ServerState, Registration, Peer, Cloudflare, add_peer, admit, remove_peer, issue, touch_last_seen,
  choose_unused, register, code_not_usable, issued_codes,
}
use anago.State.Invariant.{IsSound}
use anago.State.Join.{add_peer-Admits, Admits-add_peer, add_peer-rejected}
use anago.State.Sound.{
  add_peer-IsSound, remove_peer-IsSound, issue-IsSound, touch_last_seen-IsSound,
}
use anago.State.Codes.{
  IsSpent, IsSpent-mark_used, IsSpent-append, mark_used-IsSpent, choose_unused-Draws, Draws,
}

-- How long a fresh code lives.
abbrev pub default_ttl_secs : ℤ
default_ttl_secs = pos 900

-- `init::build_state`, with its `tls` and `cloudflare` fields as arguments: the hub at its address,
-- no device, one code.
unfoldable pub build_state :
    Text → Subnet → ℕ → ℕ → Tls → Option Cloudflare → Text → Text → JoinCode → ℤ → ServerState
build_state domain subnet listen_port api_port tls cloudflare private_key public_key code now =
    record {
      domain = domain;
      subnet = subnet;
      listen_port = listen_port;
      api_port = api_port;
      tls = tls;
      cloudflare = cloudflare;
      server = record {
        private_key = private_key;
        public_key = public_key;
        address = server_address subnet;
      };
      peers = [];
      codes = Code.issue code now default_ttl_secs ∷ [];
    }

-- One change of the state file. A code is issued when `choose_unused` has drawn it.
pub data Step : ServerState → ServerState → Type 0 where
  join : (s : ServerState) (r : Registration) (now : ℤ) → Step s (add_peer s r now).0
  remove : (s : ServerState) (name : DeviceName) → Step s (remove_peer s name).0
  issue_code :
      (s : ServerState) (draw : ℕ → Result Text JoinCode) (draws : ℕ) (code : JoinCode)
      (now ttl : ℤ)
      → choose_unused s draw draws ≡ ok code
      → Step s (issue s code now ttl).0
  touch : (s : ServerState) (name : DeviceName) (now : ℤ) → Step s (touch_last_seen s name now)

pub data Reach (s : ServerState) : ServerState → Type 0 where
  here : Reach s s
  next : {t u : ServerState} → Reach s t → Step t u → Reach s u

choose_unused-new :
    (s : ServerState) (draw : ℕ → Result Text JoinCode) (draws : ℕ) (code : JoinCode)
    → choose_unused s draw draws ≡ ok code
    → contains (issued_codes s.codes) code ≡ false
choose_unused-new s draw draws code h =
    (subst (Draws s draws draw 0 draws) h (choose_unused-Draws s draw draws)).3

Step-IsSound : {s t : ServerState} → Step s t → IsSound s → IsSound t
Step-IsSound (join s r now) v = add_peer-IsSound s r now v
Step-IsSound (remove s name) v = remove_peer-IsSound s name v
Step-IsSound (issue_code s draw draws code now ttl h) v =
    issue-IsSound s code now ttl (choose_unused-new s draw draws code h) v
Step-IsSound (touch s name now) v = touch_last_seen-IsSound s name now v

pub Reach-IsSound : {s t : ServerState} → IsSound s → Reach s t → IsSound t
Reach-IsSound v here = v
Reach-IsSound v (next r st) = Step-IsSound st (Reach-IsSound v r)

build_state-IsSound :
    (domain : Text) (subnet : Subnet) (listen_port api_port : ℕ) (tls : Tls)
    (cloudflare : Option Cloudflare) (private_key public_key : Text) (code : JoinCode) (now : ℤ)
    → IsSound (
        build_state domain subnet listen_port api_port tls cloudflare private_key public_key code
          now)
unfolding build_state Code.issue
build_state-IsSound domain subnet lp ap tls cf priv pub_key code now = record {
  names = tt;
  addresses = tt;
  devices = tt;
  hub = refl;
  codes = (refl, tt);
  spent = omega arith;
}

-- After `server init` and any sequence of joins, removals, new codes and stamps, accepted or refused,
-- the state of a hub is sound: names and addresses of devices are unique, every device has a device
-- address of the subnet, the hub keeps its own, no code is issued twice, and there are no more devices
-- than codes that were spent.
pub Reach-build_state-IsSound :
    (domain : Text) (subnet : Subnet) (listen_port api_port : ℕ) (tls : Tls)
    (cloudflare : Option Cloudflare) (private_key public_key : Text) (code : JoinCode) (now : ℤ)
    {s : ServerState}
    → Reach
        (build_state domain subnet listen_port api_port tls cloudflare private_key public_key code
          now)
        s
    → IsSound s
Reach-build_state-IsSound domain subnet lp ap tls cf priv pub_key code now r =
    Reach-IsSound (build_state-IsSound domain subnet lp ap tls cf priv pub_key code now) r

-- What is spent stays spent.
add_peer-IsSpent :
    (d : JoinCode) (s : ServerState) (r : Registration) (now : ℤ)
    → IsSpent d s.codes
    → IsSpent d (add_peer s r now).0.codes
unfolding register
add_peer-IsSpent d s r now h = elim (Result-cases (add_peer s r now).1) [
  | inl (p, e) ↦
      let (a, same) = add_peer-Admits s r now e in
      subst (λ (t : ServerState). IsSpent d t.codes)
        (sym (ap (λ t. t.0) (Admits-add_peer s r now a))) (IsSpent-mark_used r.code d now s.codes h)
  | inr (e, k) ↦
      subst (λ (t : ServerState). IsSpent d t.codes) (sym (add_peer-rejected s r now k).0) h
]

remove_peer-codes : (s : ServerState) (name : DeviceName) → (remove_peer s name).0.codes ≡ s.codes
unfolding remove_peer
remove_peer-codes s name = ground arith

Step-IsSpent : {s t : ServerState} (d : JoinCode) → Step s t → IsSpent d s.codes → IsSpent d t.codes
unfolding issue touch_last_seen
Step-IsSpent d (join s r now) h = add_peer-IsSpent d s r now h
Step-IsSpent d (remove s name) h = subst (IsSpent d) (sym (remove_peer-codes s name)) h
Step-IsSpent d (issue_code s draw draws code now ttl e) h = IsSpent-append d s.codes _ h
Step-IsSpent d (touch s name now) h = h

Reach-IsSpent :
    {s t : ServerState} (d : JoinCode) → IsSpent d s.codes → Reach s t → IsSpent d t.codes
Reach-IsSpent d h here = h
Reach-IsSpent d h (next r st) = Step-IsSpent d st (Reach-IsSpent d h r)

IsSpent-add_peer :
    (s : ServerState) (r : Registration) (now : ℤ)
    → IsSpent r.code s.codes
    → add_peer s r now ≡ (s, err (code_not_usable used))
unfolding add_peer admit issued_status status
IsSpent-add_peer s r now h = ground (arith, h.found, h.used_at)

-- A code admits one device: after a join that succeeded and any sequence of joins, removals, new codes
-- and stamps, a registration with the same code is refused as used and changes nothing.
pub add_peer_once :
    (s : ServerState) (r : Registration) (now : ℤ) {p : Peer} {t : ServerState}
    (again : Registration) (later : ℤ)
    → (add_peer s r now).1 ≡ ok p
    → Reach (add_peer s r now).0 t
    → again.code ≡ r.code
    → add_peer t again later ≡ (t, err (code_not_usable used))
unfolding register
add_peer_once s r now {t = t} again later h reach same =
    let (a, spelt) = add_peer-Admits s r now h in
    let spent : IsSpent r.code (add_peer s r now).0.codes =
      subst (λ (x : ServerState). IsSpent r.code x.codes)
        (sym (ap (λ x. x.0) (Admits-add_peer s r now a)))
        (mark_used-IsSpent r.code now s.codes a.issued a.found) in
    IsSpent-add_peer t again later
      (subst (λ c. IsSpent c t.codes) (sym same) (Reach-IsSpent r.code spent reach))
