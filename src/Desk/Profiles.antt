-- ===== src/Desk/Profiles.antt =====
-- From internal/store to internal/localremote: the profile that the store lets through and the
-- session that internal/remoteflow starts of it.
use wol.Prelude.{
  All, All-map, IsPort-no_port, Option, [], any, arith, false, inl, inr, ltb, ok, refl, true, ℕ,
  ◌||◌, ◌∷◌, ◌≡◌, ◌⊎◌,
}
use wol.Broker.{
  address_mark, bad_text, browser_protocol, check_hint, check_policy, line_break, policy_of,
  validate_config,
}
use wol.Desk.Flow.{session_config}
use wol.Net.{Ip}
use wol.Rules.Remote.{bad_hint, is_sunshine, known_policy, normalize_remote_profile, protocol_port}
use wol.Rules.Remote.Addresses.{GivesBytes, checked_host-IsHost}
use wol.Rules.Remote.Hosts.{HostChar, HostChar-no_space, IsHost}
use wol.Rules.Remote.Laws.{normalize_remote_profile-IsValid}
use wol.Rules.Remote.Texts.{normalize_remote_profile-texts}
use wol.Store.{Device, RemoteProfile}
use wol.Store.Rules.{given}
use wol.Text.{Text, byte_len, codes, is_empty, is_space, teq, trim_left, trim_right, trim_space}
use wol.Text.Laws.{NoSpace, teq_refl, trim_space-NoSpace, trim_space_twice}

host-address_mark : (c : ℕ) → HostChar c → address_mark c ≡ false
unfolding address_mark
host-address_mark c h = ground arith

any-address_mark : (s : Text) → All HostChar s → any address_mark s ≡ false
any-address_mark [] h = refl
any-address_mark (c ∷ s) (h, hs) = rw (host-address_mark c h) (any-address_mark s hs)

host-NoSpace : (s : Text) → All HostChar s → NoSpace s
host-NoSpace s h = All-map HostChar (λ c. is_space c ≡ false) HostChar-no_space s h

bad_hint-bad_text : (t : Text) → bad_text t ≡ bad_hint t
unfolding bad_hint bad_text line_break
bad_hint-bad_text t = refl

protocol-browser :
    (protocol : Text) (d : ℕ)
    → protocol_port protocol ≡ ok d
    → teq protocol (codes "sunshine") ≡ false
    → browser_protocol protocol ≡ true
unfolding protocol_port browser_protocol
protocol-browser protocol d h other = ground arith

check_hint-trimmed :
    (hint : Text) → trim_space hint ≡ hint → bad_hint hint ≡ false → check_hint hint ≡ ok tt
unfolding check_hint
check_hint-trimmed hint same short = rw (same, bad_hint-bad_text hint, teq_refl hint, short) refl

check_policy-known :
    (protocol policy : Text)
    → known_policy policy ≡ true
    → (teq protocol (codes "rdp") ≡ true) ⊎ (policy ≡ codes "strict")
    → check_policy protocol policy ≡ ok tt
unfolding check_policy known_policy teq
check_policy-known protocol policy h fits = ground arith

fits_policy :
    (row : RemoteProfile)
    → (teq row.protocol (codes "rdp") ≡ true)
      ⊎ ((row.certificate_policy ≡ codes "strict") × (row.domain_hint ≡ []))
    → (teq row.protocol (codes "rdp") ≡ true) ⊎ (row.certificate_policy ≡ codes "strict")
fits_policy row (inl e) = inl e
fits_policy row (inr e) = inr e.0

host-accepted :
    (host : Text)
    → IsHost host
    → (is_empty (trim_space host)
        || ltb 253 (byte_len (trim_space host))
        || any address_mark (trim_space host))
      ≡ false
host-accepted host good =
    rw
      (
        trim_space-NoSpace host (host-NoSpace host good.chars),
        good.filled,
        any-address_mark host good.chars,
      )
      (ground (arith, good.short))

domain_trimmed :
    (hint from : Text) → (hint ≡ trim_space from) ⊎ (hint ≡ []) → trim_space hint ≡ hint
unfolding trim_space trim_left trim_right
domain_trimmed hint from (inl e) = rw e (trim_space_twice from)
domain_trimmed hint from (inr e) = rw e refl

strict-policy :
    (device : Device) (row : RemoteProfile)
    → known_policy row.certificate_policy ≡ true
    → policy_of (session_config device row) ≡ row.certificate_policy
unfolding policy_of session_config known_policy teq is_empty
strict-policy device row h = ground arith

-- Whatever profile the store lets through, unless it is for Sunshine, `localremote.Start` accepts
-- the configuration that the manager makes of it for any device; the parser of IPv6 texts gives
-- bytes.
pub session_config-accepted :
    (ipv6 : Text → Option Ip) (item row : RemoteProfile) (device : Device)
    → GivesBytes ipv6
    → normalize_remote_profile ipv6 item ≡ ok row
    → is_sunshine row ≡ false
    → validate_config (session_config device row) ≡ ok tt
unfolding validate_config session_config is_sunshine
session_config-accepted ipv6 item row device bytes h browsed =
    let valid = normalize_remote_profile-IsValid ipv6 item row h in
    let (checked, given, user, domain) = normalize_remote_profile-texts ipv6 item row h in
    let host = checked_host-IsHost ipv6 (trim_space item.host) row.host bytes given checked in
    rw
      (
        protocol-browser row.protocol valid.protocol.0 valid.protocol.1 browsed,
        IsPort-no_port row.port valid.port,
        host-accepted row.host host,
        check_hint-trimmed row.username_hint (rw user (trim_space_twice item.username_hint))
            valid.hints.0,
        check_hint-trimmed row.domain_hint (domain_trimmed row.domain_hint item.domain_hint domain)
            valid.hints.1,
      )
      (rw (strict-policy device row valid.policy) (
        check_policy-known row.protocol row.certificate_policy valid.policy
          (fits_policy row valid.strict)))
