-- ===== src/Desk/Urls.antt =====
-- internal/remoteopen: which profiles have a desktop client, the address that is handed to it, and
-- the check of a session's own address. `net/url` parses and prints addresses outside of the
-- model; a system is the command that opens an address.
use wol.Prelude.{
  Bool, Option, Outcome, [], any, err, false, if◌then◌else◌, lez, none, not, ok, pos, refuse_if,
  some, true, ℕ, ℤ, ◌&&◌, ◌++◌, ◌==◌, ◌>>◌, ◌||◌, ◌∷◌,
}
use wol.Net.{Ip, parse_ip}
use wol.Presence.{is_loopback}
use wol.Store.{RemoteProfile}
use wol.Text.{Text, codes, has_char, is_empty, teq, to_lower, trim_space}
use wol.Text.Decimal.{itoa_z}

pub data UrlError : Type 0 where
  empty_host control_in_host unsupported_desktop : UrlError
  not_configured control_in_url no_scheme_or_host wrong_scheme not_loopback has_user has_query :
      UrlError

unfoldable pub desktop_protocol : Text → Bool
desktop_protocol protocol =
    any (teq (to_lower (trim_space protocol))) (codes "rdp" ∷ codes "ssh" ∷ codes "vnc" ∷ [])

unfoldable pub native_desktop : RemoteProfile → Bool
native_desktop profile =
    if not (desktop_protocol profile.protocol)
    then false
    else let mode = to_lower (trim_space profile.mode) in teq mode (codes "native") || is_empty mode

unfoldable pub default_desktop_port : Text → ℤ
default_desktop_port protocol =
    if teq protocol (codes "ssh")
    then pos 22
    else if teq protocol (codes "vnc")
    then pos 5900
    else pos 3389

unfoldable pub control_mark : ℕ → Bool
control_mark c = c == 13 || c == 10 || c == 0

-- `url.URL`: an empty text is an absent part, but for the user.
pub record Url : Type 0 where
  pub scheme : Text
  pub url_user : Option Text
  pub host_port : Text
  pub raw_query : Text
  pub fragment : Text

-- `net.JoinHostPort`
unfoldable pub join_host_port : Text → ℤ → Text
join_host_port host port =
    let shown = if has_char b':' host then codes "[" ++ (host ++ codes "]") else host in
    shown ++ (b':' ∷ itoa_z port)

unfoldable pub desktop_user : Text → Text → Option Text
desktop_user protocol user =
    let name = trim_space user in
    if teq protocol (codes "ssh") && not (is_empty name) then some name else none

unfoldable pub desktop_url : Text → Text → ℤ → Text → Outcome UrlError Url
desktop_url protocol host port user = do
  let h = trim_space host
  let p = to_lower (trim_space protocol)
  refuse_if (is_empty h) empty_host
  refuse_if (any control_mark h) control_in_host
  refuse_if (not (desktop_protocol p)) unsupported_desktop
  ok (record {
    scheme = p;
    url_user = desktop_user p user;
    host_port = join_host_port h (if lez port (pos 0) then default_desktop_port p else port);
    raw_query = [];
    fragment = [];
  })

-- What `net/url` does, with `Hostname` of what it parsed.
pub record UrlLibrary : Type 0 where
  pub parse : Text → Option Url
  pub hostname : Url → Text
  pub print : Url → Text

unfoldable pub loopback_host : (Text → Option Ip) → Text → Bool
loopback_host ipv6 name =
    teq name (codes "localhost")
    || elim (parse_ip ipv6 name) [ none ↦ false | some ip ↦ is_loopback ip ]

unfoldable pub has_user_info : Option Text → Bool
has_user_info none = false
has_user_info (some _) = true

unfoldable pub validate_url : UrlLibrary → (Text → Option Ip) → Text → Outcome UrlError Text
validate_url lib ipv6 target = do
  let t = trim_space target
  refuse_if (is_empty t) not_configured
  refuse_if (any control_mark t) control_in_url
  elim (lib.parse t) [
    | none ↦ err no_scheme_or_host
    | some url ↦ do
      refuse_if (is_empty url.scheme || is_empty url.host_port) no_scheme_or_host
      refuse_if (not (teq (to_lower url.scheme) (codes "http"))) wrong_scheme
      refuse_if (not (loopback_host ipv6 (to_lower (lib.hostname url)))) not_loopback
      refuse_if (has_user_info url.url_user) has_user
      refuse_if (not (is_empty url.raw_query) || not (is_empty url.fragment)) has_query
      ok (lib.print url)
  ]
