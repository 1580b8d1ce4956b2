-- ===== src/Wgconf/Keys.antt =====
-- `private_key_line` of crates/anago-core/src/wgconf.rs finds the key in what the renderer writes.
use anago.Prelude.{
  ℕ, ◌≡◌, refl, sym, ap, subst, ◌∙◌, inl, inr, Bool, true, false, List, [], ◌∷◌, ◌++◌, none, some,
  ◌==◌, nat_eq, all, contains, contains-append, arith, Bool-cases,
}
use mathlib.Core.List.{append_assoc}
use anago.Text.{Text, lit, trim, trim_start, trim_end, is_whitespace, split_once, last?}
use anago.Text.Decimal.{decimal}
use anago.Text.Trim.{AllPlain, AllPlain-append, trim_self}
use anago.Ipv4
use anago.Ipv4.{Ipv4Addr}
use anago.Ipv4.Plain.{display-AllPlain}
use anago.Subnet.{prefix_len}
use anago.Wg.{is_base64}
use anago.Wg.Key.{IsKey, trim-IsKey}
use anago.Wgconf.{
  ClientProfile, lines, lines_from, key_value, find_key, private_key_line, render_hub,
  render_client,
}
use anago.Wgconf.Lines.{IsLine, lines-line}

-- A text without whitespace has no line breaks.
AllPlain-contains : (s : Text) (c : ℕ) → is_whitespace c ≡ true → AllPlain s → contains s c ≡ false
AllPlain-contains [] c w h = refl
AllPlain-contains (x ∷ xs) c w h = elim (Bool-cases (x == c)) [
  | inl same ↦ absurd (ground (arith, h.0, w))
  | inr other ↦ ground (arith, AllPlain-contains xs c w h.1)
]

base64-AllPlain : (s : Text) → all is_base64 s ≡ true → AllPlain s
unfolding is_whitespace
base64-AllPlain [] h = tt
base64-AllPlain (c ∷ cs) h = (ground arith, base64-AllPlain cs (ground arith))

last-append : (s : Text) (c : ℕ) (cs : Text) → last? (s ++ c ∷ cs) ≡ last? (c ∷ cs)
last-append [] c cs = refl
last-append (x ∷ []) c cs = refl
last-append (x ∷ y ∷ rest) c cs = last-append (y ∷ rest) c cs

abbrev address_line : Ipv4Addr → Text
address_line x = lit "Address = " ++ (Ipv4.display x ++ (lit "/" ++ decimal prefix_len))

abbrev key_line : Text → Text
key_line key = lit "PrivateKey = " ++ key

address_line-IsLine : (x : Ipv4Addr) → IsLine (address_line x)
unfolding decimal is_whitespace
address_line-IsLine x =
    let plain = display-AllPlain x in
    (
      ground (
        arith,
        contains-append (Ipv4.display x) (lit "/24") b'\n',
        AllPlain-contains (Ipv4.display x) b'\n' refl plain,
      ),
      ground (
        arith,
        contains-append (Ipv4.display x) (lit "/24") b'\r',
        AllPlain-contains (Ipv4.display x) b'\r' refl plain,
      ),
    )

key-AllPlain : (key : Text) → IsKey key → AllPlain key
unfolding is_whitespace
key-AllPlain key k =
    subst AllPlain (sym k.spelt)
      (AllPlain-append k.body (b'=' ∷ []) (base64-AllPlain k.body k.base64) (refl, tt))

key_line-IsLine : (key : Text) → IsKey key → IsLine (key_line key)
unfolding is_whitespace
key_line-IsLine key k = (
  AllPlain-contains key b'\n' refl (key-AllPlain key k),
  AllPlain-contains key b'\r' refl (key-AllPlain key k),
)

address_line-key_value : (x : Ipv4Addr) → key_value (address_line x) ≡ none
unfolding key_value is_whitespace decimal split_once trim_start trim_end
address_line-key_value x =
    let ends = last-append (lit "Address = " ++ Ipv4.display x) b'/' (lit "24") in
    let same : trim (address_line x) ≡ address_line x =
      trim_self b'A' (lit "ddress = " ++ (Ipv4.display x ++ lit "/24")) {d = b'4'} refl
        (ap last? (sym (append_assoc (lit "Address = ") (Ipv4.display x) (lit "/24"))) ∙ ends)
        refl in
    rw (key_value, same) refl

key_line-key_value : (key : Text) → IsKey key → key_value (key_line key) ≡ some key
unfolding key_value is_whitespace split_once trim_start trim_end
key_line-key_value key k =
    let ends : last? (key_line key) ≡ some b'=' =
      ap (λ t. last? (key_line t)) k.spelt
      ∙ ap last? (sym (append_assoc (lit "PrivateKey = ") k.body (b'=' ∷ [])))
      ∙ last-append (lit "PrivateKey = " ++ k.body) b'=' [] in
    let same : trim (key_line key) ≡ key_line key =
      trim_self b'P' (lit "rivateKey = " ++ key) {d = b'='} refl ends refl in
    rw (key_value, same) (ap some (trim-IsKey key k))

lines_tail :
    (x : Ipv4Addr) (key rest : Text)
    → IsKey key
    → lines (
        lit "Address = "
        ++ (Ipv4.display x
            ++ (lit "/"
                ++ (decimal prefix_len
                    ++ (lit "\n" ++ (lit "PrivateKey = " ++ (key ++ (lit "\n" ++ rest))))))))
      ≡ address_line x ∷ key_line key ∷ lines rest
unfolding decimal
lines_tail x key rest k =
    let tail = lit "\n" ++ (lit "PrivateKey = " ++ (key ++ (lit "\n" ++ rest))) in
    ap (λ t. lines (lit "Address = " ++ t)) (sym (append_assoc (Ipv4.display x) (lit "/24") tail))
    ∙ lines-line (address_line x) (key_line key ++ b'\n' ∷ rest) (address_line-IsLine x)
    ∙ ap (λ ls. address_line x ∷ ls) (lines-line (key_line key) rest (key_line-IsLine key k))

find_key_tail :
    (x : Ipv4Addr) (key : Text) (rest : List Text)
    → IsKey key
    → find_key (address_line x ∷ key_line key ∷ rest) ≡ some key
unfolding find_key
find_key_tail x key rest k = rw (find_key, address_line-key_value x, key_line-key_value key k) refl

-- The private key is found again in both texts that are rendered of a profile, with comments and
-- without, whatever the rest of the profile holds: a key in the form of the tools is in its place.
pub private_key_line-render_client :
    (profile : ClientProfile) (comments : Bool)
    → IsKey profile.private_key
    → private_key_line (render_client profile comments) ≡ some profile.private_key
unfolding private_key_line render_client lines_from find_key key_value is_whitespace split_once
    trim_start trim_end
private_key_line-render_client profile true k =
    ap
      (λ ls.
        find_key (lit "[Interface]" ∷ lit "# anago — generated file, edits are overwritten" ∷ ls))
      (lines_tail profile.address profile.private_key (render_hub profile true) k)
    ∙ find_key_tail profile.address profile.private_key (lines (render_hub profile true)) k
private_key_line-render_client profile false k =
    ap (λ ls. find_key (lit "[Interface]" ∷ ls))
      (lines_tail profile.address profile.private_key (render_hub profile false) k)
    ∙ find_key_tail profile.address profile.private_key (lines (render_hub profile false)) k
