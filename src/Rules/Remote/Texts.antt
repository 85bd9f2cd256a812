-- ===== src/Rules/Remote/Texts.antt =====
-- Which texts `normalizeRemoteProfile` of internal/store leaves in a profile.
use wol.Prelude.{Option, [], arith, false, ok, ℕ, ◌∙◌, ◌≡◌, ◌⊎◌}
use wol.Net.{Ip}
use wol.Rules.Remote.{
  check_hints, check_ports, checked_host, for_protocol, normalize_remote_profile, trimmed_profile,
  with_mode, with_policy, with_ports, with_stream,
}
use wol.Rules.Remote.Laws.{normalize_trimmed-steps}
use wol.Store.{RemoteProfile}
use wol.Store.Rules.{given}
use wol.Store.Transfer.{known}
use wol.Text.{Text, is_empty, trim_space}

check_ports-texts :
    (d : ℕ) (item row : RemoteProfile)
    → check_ports (with_mode (with_ports d item)) ≡ ok row
    → (row.host ≡ item.host)
      × (row.username_hint ≡ item.username_hint)
      × (row.domain_hint ≡ item.domain_hint)
unfolding check_ports with_mode with_ports
check_ports-texts d item row h = ground arith

with_stream-texts :
    (item row : RemoteProfile)
    → with_stream item ≡ ok row
    → (row.host ≡ item.host)
      × (row.username_hint ≡ item.username_hint)
      × (row.domain_hint ≡ item.domain_hint)
unfolding with_stream
with_stream-texts item row h = ground arith

check_hints-texts :
    (item row : RemoteProfile)
    → check_hints (with_policy item) ≡ ok row
    → (row.host ≡ item.host)
      × (row.username_hint ≡ item.username_hint)
      × ((row.domain_hint ≡ item.domain_hint) ⊎ (row.domain_hint ≡ []))
unfolding check_hints with_policy for_protocol
check_hints-texts item row h = ground arith

-- The host is the one that was checked, and the hints are trimmed or empty.
pub normalize_remote_profile-texts :
    (ipv6 : Text → Option Ip) (item row : RemoteProfile)
    → normalize_remote_profile ipv6 item ≡ ok row
    → (checked_host ipv6 (trim_space item.host) ≡ ok row.host)
      × (is_empty (trim_space item.host) ≡ false)
      × (row.username_hint ≡ trim_space item.username_hint)
      × ((row.domain_hint ≡ trim_space item.domain_hint) ⊎ (row.domain_hint ≡ []))
unfolding normalize_remote_profile trimmed_profile
normalize_remote_profile-texts ipv6 item row h =
    let (d, (host, (served, (streamed, (checked, (given, (known, (tested, (fits, hints))))))))) =
      normalize_trimmed-steps ipv6 (trimmed_profile item) row h in
    let (a, b, c) = check_ports-texts d _ served tested in
    let (a', b', c') = with_stream-texts served streamed fits in
    let (a'', b'', c'') = check_hints-texts streamed row hints in
    (rw (a'', a', a) checked, given, b'' ∙ b' ∙ b, ground (arith, c'', c', c))
