-- ===== src/Rules/Remote.antt =====
-- `normalizeRemoteProfile` of internal/store/remote_profile.go. The parser of IPv6 texts is a
-- parameter. `(?i)` of Go's regular expressions folds U+017F and U+212A to `s` and `k`.
pub mod Laws
pub mod Hosts
pub mod Addresses
pub mod Texts
use wol.Prelude.{
  Bool, List, Option, Outcome, [], all, any, eqz, err, false, if◌then◌else◌, leb, length, ltb,
  no_port, none, not, ok, pos, refuse_if, some, ℕ, ◌&&◌, ◌==◌, ◌>>=◌, ◌>>◌, ◌||◌, ◌∷◌,
}
use wol.Net.{Ip, ipv4_string, parse_ip, to4}
use wol.Rules.Sites.{outside}
use wol.Store.{
  InventoryError, RemoteProfile, bad_bitrate, bad_domain, bad_fps, bad_host, bad_mode, bad_policy,
  bad_protocol, bad_remote_port, bad_resolution, bad_username, bad_verify_port, no_host,
  no_profile_device,
}
use wol.Text.{
  Text, byte_len, codes, has_char, has_suffix, is_empty, split, teq, to_lower, trim_space,
}
use wol.Text.Decimal.{is_digit}

-- one character of a label of `hostnamePattern`, but for the dash
unfoldable pub host_char : ℕ → Bool
host_char c =
    (leb b'A' c && leb c b'Z')
    || (leb b'a' c && leb c b'z')
    || (leb b'0' c && leb c b'9')
    || c == 0x17f
    || c == 0x212a

unfoldable pub ends_well : Text → Bool
ends_well [] = false
ends_well (c ∷ []) = host_char c
ends_well (c ∷ d ∷ s) = ends_well (d ∷ s)

unfoldable pub host_label : Text → Bool
host_label [] = false
host_label (c ∷ s) =
    host_char c && ends_well (c ∷ s) && all (λ d. host_char d || d == b'-') s && leb (length s) 62

unfoldable pub matches_hostname : Text → Bool
matches_hostname host = all host_label (split b'.' host)

unfoldable pub is_decimal : Text → Bool
is_decimal t = all is_digit t && leb 3 (length t) && leb (length t) 5

-- `resolutionPattern`: two numbers of three to five digits with an `x` between them
unfoldable pub is_pair : List Text → Bool
is_pair (w ∷ h ∷ []) = is_decimal w && is_decimal h
is_pair _ = false

unfoldable pub matches_resolution : Text → Bool
matches_resolution t = is_pair (split b'x' t)

-- `IsPrivate`, `IsLoopback` and `IsLinkLocalUnicast` of an IPv4 address
unfoldable pub is_local : Ip → Bool
is_local (a ∷ b ∷ _) =
    a == 10
    || (a == 172 && leb 16 b && leb b 31)
    || (a == 192 && b == 168)
    || a == 127
    || (a == 169 && b == 254)
is_local _ = false

unfoldable pub local_ip : Option Ip → Outcome InventoryError Text
local_ip none = err bad_host
local_ip (some ip) = if is_local ip then ok (ipv4_string ip) else err bad_host

unfoldable pub looks_like_ipv4 : Text → Bool
looks_like_ipv4 host = length (split b'.' host) == 4 && all (λ c. is_digit c || c == b'.') host

unfoldable pub local_hostname : Text → Bool
local_hostname host = not (has_char b'.' host) || has_suffix (to_lower host) (codes ".local")

unfoldable pub checked_host : (Text → Option Ip) → Text → Outcome InventoryError Text
checked_host ipv6 host = elim (parse_ip ipv6 host) [
  | some ip ↦ local_ip (to4 ip)
  | none ↦
      if looks_like_ipv4 host
        || not (local_hostname host)
        || ltb 253 (byte_len host)
        || not (matches_hostname host)
      then err bad_host
      else ok (to_lower host)
]

unfoldable pub trimmed_profile : RemoteProfile → RemoteProfile
trimmed_profile item = record item {
  device_id = trim_space item.device_id;
  protocol = to_lower (trim_space item.protocol);
  host = trim_space item.host;
  username_hint = trim_space item.username_hint;
  domain_hint = trim_space item.domain_hint;
  certificate_policy = to_lower (trim_space item.certificate_policy);
  mode = to_lower (trim_space item.mode);
  app_name = trim_space item.app_name;
  resolution = to_lower (trim_space item.resolution);
}

unfoldable pub protocol_port : Text → Outcome InventoryError ℕ
protocol_port protocol =
    if teq protocol (codes "rdp")
    then ok 3389
    else if teq protocol (codes "vnc")
    then ok 5900
    else if teq protocol (codes "ssh")
    then ok 22
    else if teq protocol (codes "sunshine")
    then ok 47989
    else err bad_protocol

unfoldable pub with_ports : ℕ → RemoteProfile → RemoteProfile
with_ports d item =
    let port = if eqz item.port (pos 0) then pos d else item.port in
    record item {
      port = port;
      verify_port = if eqz item.verify_port (pos 0) then port else item.verify_port;
    }

unfoldable pub is_sunshine : RemoteProfile → Bool
is_sunshine item = teq item.protocol (codes "sunshine")

unfoldable pub with_mode : RemoteProfile → RemoteProfile
with_mode item =
    if not (is_empty item.mode)
    then item
    else if is_sunshine item
    then record item { mode = codes "native-moonlight" }
    else record item { mode = codes "native" }

unfoldable pub known_mode : Text → Bool
known_mode mode =
    any (teq mode) (
      codes "native"
      ∷ codes "browser-local"
      ∷ codes "native-moonlight"
      ∷ codes "web-moonlight"
      ∷ [])

-- the block for Sunshine
unfoldable pub with_stream : RemoteProfile → Outcome InventoryError RemoteProfile
with_stream item = if not (is_sunshine item) then ok item else do
  refuse_if (outside 0 360 item.fps) bad_fps
  refuse_if (outside 0 500000 item.bitrate_kbps) bad_bitrate
  refuse_if (not (is_empty item.resolution) && not (matches_resolution item.resolution))
      bad_resolution
  ok (record item { app_name = if is_empty item.app_name then codes "Desktop" else item.app_name })

unfoldable pub bad_hint : Text → Bool
bad_hint hint = ltb 128 (byte_len hint) || any (λ c. c == 13 || c == 10 || c == 0) hint

unfoldable pub with_policy : RemoteProfile → RemoteProfile
with_policy item =
    if is_empty item.certificate_policy
    then record item { certificate_policy = codes "strict" }
    else item

unfoldable pub known_policy : Text → Bool
known_policy policy = any (teq policy) (codes "strict" ∷ codes "trust-local" ∷ [])

unfoldable pub for_protocol : RemoteProfile → RemoteProfile
for_protocol item =
    if teq item.protocol (codes "rdp")
    then item
    else record item { certificate_policy = codes "strict"; domain_hint = [] }

-- the tests on the hints and the policy
unfoldable pub check_hints : RemoteProfile → Outcome InventoryError RemoteProfile
check_hints item = do
  refuse_if (bad_hint item.username_hint) bad_username
  refuse_if (bad_hint item.domain_hint) bad_domain
  refuse_if (not (known_policy item.certificate_policy)) bad_policy
  ok (for_protocol item)

-- the tests on the ports and the mode
unfoldable pub check_ports : RemoteProfile → Outcome InventoryError RemoteProfile
check_ports item = do
  refuse_if (no_port item.port) bad_remote_port
  refuse_if (no_port item.verify_port) bad_verify_port
  refuse_if (not (known_mode item.mode)) bad_mode
  ok item

unfoldable pub normalize_trimmed :
    (Text → Option Ip) → RemoteProfile → Outcome InventoryError RemoteProfile
normalize_trimmed ipv6 item = do
  refuse_if (is_empty item.device_id) no_profile_device
  d ← protocol_port item.protocol
  refuse_if (is_empty item.host) no_host
  host ← checked_host ipv6 item.host
  served ← check_ports (with_mode (with_ports d (record item { host = host })))
  streamed ← with_stream served
  check_hints (with_policy streamed)

unfoldable pub normalize_remote_profile :
    (Text → Option Ip) → RemoteProfile → Outcome InventoryError RemoteProfile
normalize_remote_profile ipv6 item = normalize_trimmed ipv6 (trimmed_profile item)
