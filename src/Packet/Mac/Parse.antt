-- ===== src/Packet/Mac/Parse.antt =====
-- `ParseMAC`: soundness, and the round trips through the printed forms.
use wol.Prelude.{
  All, List, Option-cases, ap, arith, false, get_or, inl, inr, length, map, ok, refl, replicate,
  some, sym, true, ℕ, ◌%◌, ◌∙◌, ◌≡◌, ◌≢◌,
}
use wol.Packet.{
  build_magic_packet, checked_mac, colon, is_refused, mac_digits, mac_string, parse_mac,
}
use wol.Packet.Mac.{IsSep, bytes-len, mac_digits-join, mac_string_injective}
use wol.Packet.Magic.{IsStation, build_magic_packet-layout, magic_packet}
use wol.Text.{Text, codes, concat, join, teq}
use wol.Text.Hex.{IsByte, hex_byte, hex_decode, hex_decode-encode, hex_decode_sound}
use wol.Text.Laws.{teq_iff, teq_refl}

abbrev pub zero_mac : List ℕ
zero_mac = replicate 6 0

abbrev pub full_mac : List ℕ
full_mac = replicate 6 0xff

string_of_zero : mac_string zero_mac ≡ codes "00:00:00:00:00:00"
unfolding mac_string
string_of_zero = refl

string_of_full : mac_string full_mac ≡ codes "ff:ff:ff:ff:ff:ff"
unfolding mac_string
string_of_full = refl

not-teq : (s t : Text) → s ≢ t → teq s t ≡ false
not-teq s t h = ground (arith, teq_iff s t)

IsByte-zero : All IsByte zero_mac
IsByte-zero = omega arith

IsByte-full : All IsByte full_mac
IsByte-full = omega arith

-- A station address other than zero passes the last test of the parser.
station-accepted : (mac : List ℕ) → IsStation mac → mac ≢ zero_mac → is_refused mac ≡ false
unfolding is_refused
station-accepted mac s nz =
    let not_zero : mac_string mac ≢ codes "00:00:00:00:00:00" = λ e.
      nz (
        mac_string_injective mac zero_mac s.bytes IsByte-zero s.six refl
          (e ∙ sym string_of_zero)) in
    let not_full : mac_string mac ≢ codes "ff:ff:ff:ff:ff:ff" = λ e.
      let same =
        mac_string_injective mac full_mac s.bytes IsByte-full s.six refl (e ∙ sym string_of_full) in
      absurd (omega (arith, ap (λ (m : List ℕ). get_or m 0 0 % 2) same, s.unicast)) in
    rw (not-teq _ _ not_zero, not-teq _ _ not_full, s.unicast)

refused-zero : (mac : List ℕ) → mac ≡ zero_mac → is_refused mac ≡ true
unfolding is_refused
refused-zero mac e = rw (e, string_of_zero, teq_refl (codes "00:00:00:00:00:00"))

refused-group : (mac : List ℕ) → is_refused mac ≡ false → get_or mac 0 0 % 2 ≡ 0
unfolding is_refused
refused-group mac h = ground arith

checked_mac-IsStation :
    (s : Text) (mac : List ℕ)
    → checked_mac (hex_decode s) ≡ ok mac
    → IsStation mac × (mac ≢ zero_mac)
unfolding checked_mac
checked_mac-IsStation s mac h = elim (Option-cases (hex_decode s)) [
  | inl e ↦ cc (rw e at h)
  | inr (bs, e) ↦
      let kept : checked_mac (some bs) ≡ ok mac = rw e at h in
      let same : bs ≡ mac = ground arith in
      let six : length bs ≡ 6 = ground arith in
      let fine : is_refused bs ≡ false = ground arith in
      rw (← same) (
        record { six = six; bytes = (hex_decode_sound s bs e).0; unicast = refused-group bs fine },
        λ z. cc (fine, refused-zero bs z),
      )
]

-- Whatever text is read, the address that `ParseMAC` returns has six bytes, has the group bit clear
-- and is not zero.
pub parse_mac_sound :
    (value : Text) (mac : List ℕ) → parse_mac value ≡ ok mac → IsStation mac × (mac ≢ zero_mac)
unfolding parse_mac
parse_mac_sound value mac h = checked_mac-IsStation (mac_digits value) mac (ground arith)

parse_mac-digits :
    (value : Text) (mac : List ℕ)
    → mac_digits value ≡ concat (map hex_byte mac)
    → IsStation mac
    → mac ≢ zero_mac
    → parse_mac value ≡ ok mac
unfolding parse_mac checked_mac
parse_mac-digits value mac e s nz =
    rw (e, bytes-len mac s.bytes, s.six, hex_decode-encode mac s.bytes)
      (rw (station-accepted mac s nz, s.six))

-- Every station address other than zero is read back from its six hexadecimal pairs, in lower case,
-- with colons or with dashes between them.
pub parse_mac-join :
    (sep : ℕ) (mac : List ℕ)
    → IsSep sep
    → IsStation mac
    → mac ≢ zero_mac
    → parse_mac (join sep (map hex_byte mac)) ≡ ok mac
parse_mac-join sep mac p s nz =
    parse_mac-digits _ mac (mac_digits-join sep mac p s.six s.bytes) s nz

-- Printing a parsed address and parsing it again gives the same address.
pub parse_mac-mac_string :
    (value : Text) (mac : List ℕ) → parse_mac value ≡ ok mac → parse_mac (mac_string mac) ≡ ok mac
unfolding mac_string
parse_mac-mac_string value mac h =
    let (s, nz) = parse_mac_sound value mac h in parse_mac-join colon mac (inl refl) s nz

-- A packet can be built for every address that `ParseMAC` returns.
pub build_magic_packet-parse_mac :
    (value : Text) (mac : List ℕ)
    → parse_mac value ≡ ok mac
    → build_magic_packet mac ≡ ok (magic_packet mac)
build_magic_packet-parse_mac value mac h =
    build_magic_packet-layout mac (parse_mac_sound value mac h).0
