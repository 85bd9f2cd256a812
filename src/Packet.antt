-- ===== src/Packet.antt =====
-- internal/wol/packet.go: MAC addresses and magic packets. A `net.HardwareAddr` is its bytes.
pub mod Mac
pub mod Magic
pub mod Send
pub mod Verify
use wol.Prelude.{
  Bool, List, Option, Outcome, [], err, get_or, if◌then◌else◌, length, ltb, map, none, not, ok,
  replicate, set, some, suc, zero, ℕ, ◌%◌, ◌+◌, ◌==◌, ◌||◌, ◌∷◌,
}
use wol.Text.{Text, byte_len, codes, concat, has_char, join, split, teq, trim_space, without}
use wol.Text.Hex.{hex_byte, hex_decode}

pub data WolError : Type 0 where
  invalid_mac destination_not_ipv4 bad_port negative_interval : WolError
  socket_failed write_failed cancelled : WolError
  bad_target not_reachable : WolError

abbrev pub colon : ℕ
colon = b':'

abbrev pub dash : ℕ
dash = b'-'

unfoldable pub strip_separators : Text → Text
unfolding without
strip_separators = without (codes ":-. ")

-- the body of the loop over the parts
unfoldable pub pad_part : Text → Text
unfolding trim_space byte_len
pad_part part = let part = trim_space part in if byte_len part == 1 then b'0' ∷ part else part

-- the loop over the separators, with its `continue` and `break`
unfoldable pub digits_at : Text → Text → Text
unfolding has_char split concat pad_part strip_separators
digits_at [] trimmed = strip_separators trimmed
digits_at (sep ∷ seps) trimmed =
    let next = digits_at seps trimmed in
    if not (has_char sep trimmed)
    then next
    else if not (length (split sep trimmed) == 6)
    then strip_separators trimmed
    else concat (map pad_part (split sep trimmed))

unfoldable pub mac_digits : Text → Text
unfolding digits_at
mac_digits value = digits_at (colon ∷ dash ∷ []) (trim_space value)

-- `net.HardwareAddr.String`
unfoldable pub mac_string : List ℕ → Text
unfolding join hex_byte
mac_string mac = join colon (map hex_byte mac)

unfoldable pub is_group : List ℕ → Bool
is_group mac = get_or mac 0 0 % 2 == 1

unfoldable pub is_refused : List ℕ → Bool
unfolding teq is_group
is_refused mac =
    teq (mac_string mac) (codes "00:00:00:00:00:00")
    || teq (mac_string mac) (codes "ff:ff:ff:ff:ff:ff")
    || is_group mac

unfoldable pub checked_mac : Option (List ℕ) → Outcome WolError (List ℕ)
unfolding is_refused
checked_mac none = err invalid_mac
checked_mac (some mac) =
    if not (length mac == 6)
    then err invalid_mac
    else if is_refused mac
    then err invalid_mac
    else ok mac

unfoldable pub parse_mac : Text → Outcome WolError (List ℕ)
unfolding hex_decode checked_mac
parse_mac value =
    let clean = mac_digits value in
    if not (byte_len clean == 12) then err invalid_mac else checked_mac (hex_decode clean)

-- `copy(dst[offset:], src)`
unfoldable pub copy_at : List ℕ → ℕ → List ℕ → List ℕ
copy_at dst offset [] = dst
copy_at dst offset (b ∷ src) = copy_at (set dst offset b) (suc offset) src

-- `for i := 0; i < n; i++ { packet[i] = 0xff }`, from `i`
unfoldable pub fill_header : ℕ → ℕ → List ℕ → List ℕ
fill_header zero i packet = packet
fill_header (suc n) i packet = fill_header n (suc i) (set packet i 0xff)

-- `for offset := 6; offset < len(packet); offset += 6`, with a bound on the rounds
unfoldable pub fill_body : ℕ → ℕ → List ℕ → List ℕ → List ℕ
unfolding copy_at
fill_body zero offset mac packet = packet
fill_body (suc rounds) offset mac packet =
    let next = fill_body rounds (offset + 6) mac (copy_at packet offset mac) in
    if ltb offset (length packet) then next else packet

abbrev pub packet_size : ℕ
packet_size = 102

unfoldable pub build_magic_packet : List ℕ → Outcome WolError (List ℕ)
unfolding fill_header fill_body is_group
build_magic_packet mac =
    if not (length mac == 6) || is_group mac
    then err invalid_mac
    else ok (fill_body packet_size 6 mac (fill_header 6 0 (replicate packet_size 0)))
