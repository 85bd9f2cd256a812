-- ===== src/Rules/Remote/Laws.antt =====
-- What `normalizeRemoteProfile` of internal/store lets through.
use wol.Prelude.{
  Bool-cases, IsPort, Option, Outcome-cases, [], arith, false, inl, inr, no_port, no_port-IsPort,
  ok, refl, true, ℕ, ◌≡◌, ◌⊎◌,
}
use wol.Net.{Ip}
use wol.Rules.Remote.{
  bad_hint, check_hints, check_ports, checked_host, for_protocol, is_sunshine, known_mode,
  known_policy, normalize_remote_profile, normalize_trimmed, protocol_port, trimmed_profile,
  with_mode, with_policy, with_ports, with_stream,
}
use wol.Rules.Sites.Laws.{Between, outside-Between}
use wol.Store.{RemoteProfile}
use wol.Store.Rules.{given}
use wol.Text.{Text, byte_len, codes, is_empty, teq}

-- A profile with known words, ports in range, and settings that fit its protocol.
pub record IsValid (p : RemoteProfile) : Type 0 where
  pub port : IsPort p.port
  pub verify_port : IsPort p.verify_port
  pub mode : known_mode p.mode ≡ true
  pub policy : known_policy p.certificate_policy ≡ true
  pub hints : (bad_hint p.username_hint ≡ false) × (bad_hint p.domain_hint ≡ false)
  pub strict :
      (teq p.protocol (codes "rdp") ≡ true)
      ⊎ ((p.certificate_policy ≡ codes "strict") × (p.domain_hint ≡ []))
  pub protocol : (d : ℕ) × (protocol_port p.protocol ≡ ok d)
  pub stream :
      (is_sunshine p ≡ false)
      ⊎ (Between 0 360 p.fps × (Between 0 500000 p.bitrate_kbps × (is_empty p.app_name ≡ false)))

known_strict : known_policy (codes "strict") ≡ true
unfolding known_policy teq
known_strict = refl

no_bad_hint : bad_hint [] ≡ false
unfolding bad_hint byte_len
no_bad_hint = refl

check_hints-policy :
    (item row : RemoteProfile)
    → check_hints item ≡ ok row
    → (known_policy row.certificate_policy ≡ true)
      × ((bad_hint row.username_hint ≡ false) × (bad_hint row.domain_hint ≡ false))
unfolding check_hints for_protocol
check_hints-policy item row h = ground (arith, known_strict, no_bad_hint)

check_hints-strict :
    (item row : RemoteProfile)
    → check_hints item ≡ ok row
    → (teq row.protocol (codes "rdp") ≡ true)
      ⊎ ((row.certificate_policy ≡ codes "strict") × (row.domain_hint ≡ []))
unfolding check_hints for_protocol
check_hints-strict item row h = elim (Bool-cases (teq item.protocol (codes "rdp"))) [
  | inl y ↦ inl (ground arith)
  | inr n ↦ inr (ground arith)
]

-- The tests on the hints leave the rest of the profile alone.
check_hints-same :
    (item row : RemoteProfile)
    → check_hints item ≡ ok row
    → (row.port ≡ item.port)
      × ((row.verify_port ≡ item.verify_port)
          × ((row.mode ≡ item.mode)
              × ((row.protocol ≡ item.protocol)
                  × ((row.fps ≡ item.fps)
                      × ((row.bitrate_kbps ≡ item.bitrate_kbps)
                          × (row.app_name ≡ item.app_name))))))
unfolding check_hints for_protocol
check_hints-same item row h = ground arith

with_stream-fits :
    (item row : RemoteProfile)
    → with_stream item ≡ ok row
    → (is_sunshine row ≡ false)
      ⊎ (Between 0 360 row.fps
          × (Between 0 500000 row.bitrate_kbps × (is_empty row.app_name ≡ false)))
unfolding with_stream is_empty
with_stream-fits item row h = elim (Bool-cases (is_sunshine item)) [
  | inl y ↦ inr (
    outside-Between 0 360 row.fps (ground arith),
    (outside-Between 0 500000 row.bitrate_kbps (ground arith), ground arith),
  )
  | inr n ↦ inl (ground arith)
]

with_stream-same :
    (item row : RemoteProfile)
    → with_stream item ≡ ok row
    → (row.port ≡ item.port)
      × ((row.verify_port ≡ item.verify_port)
          × ((row.mode ≡ item.mode) × (row.protocol ≡ item.protocol)))
unfolding with_stream
with_stream-same item row h = ground arith

check_ports-fits :
    (item row : RemoteProfile)
    → check_ports item ≡ ok row
    → (no_port row.port ≡ false)
      × ((no_port row.verify_port ≡ false) × (known_mode row.mode ≡ true))
unfolding check_ports
check_ports-fits item row h = ground arith

-- the steps of a success
pub normalize_trimmed-steps :
    (ipv6 : Text → Option Ip) (item row : RemoteProfile)
    → normalize_trimmed ipv6 item ≡ ok row
    → (d : ℕ) × ((host : Text) × ((served : RemoteProfile) × ((streamed : RemoteProfile)
            × ((checked_host ipv6 item.host ≡ ok host)
                × ((is_empty item.host ≡ false)
                    × ((protocol_port item.protocol ≡ ok d)
                        × ((check_ports (with_mode (with_ports d (record item { host = host })))
                              ≡ ok served)
                            × ((with_stream served ≡ ok streamed)
                                × (check_hints (with_policy streamed) ≡ ok row)))))))))
unfolding normalize_trimmed
normalize_trimmed-steps ipv6 item row h = elim (Outcome-cases (protocol_port item.protocol)) [
  | inr (e, r) ↦ absurd (ground arith)
  | inl (d, r) ↦ elim (Outcome-cases (checked_host ipv6 item.host)) [
    | inr (e, s) ↦ absurd (ground arith)
    | inl (host, s) ↦
        elim (Outcome-cases
          (check_ports (with_mode (with_ports d (record item { host = host }))))) [
            | inr (e, x) ↦ absurd (ground arith)
            | inl (served, x) ↦ elim (Outcome-cases (with_stream served)) [
              | inr (e, y) ↦ absurd (ground arith)
              | inl (streamed, y) ↦ (
                d,
                (host, (served, (streamed, (s, (ground arith, (r, (x, (y, ground arith)))))))),
              )
            ]
          ]
  ]
]

with_policy-same :
    (p : RemoteProfile)
    → ((with_policy p).port ≡ p.port)
      × (((with_policy p).verify_port ≡ p.verify_port)
          × (((with_policy p).mode ≡ p.mode)
              × (((with_policy p).protocol ≡ p.protocol)
                  × (((with_policy p).fps ≡ p.fps)
                      × (((with_policy p).bitrate_kbps ≡ p.bitrate_kbps)
                          × ((with_policy p).app_name ≡ p.app_name))))))
unfolding with_policy
with_policy-same p = ground arith

check_ports-protocol :
    (d : ℕ) (item row : RemoteProfile)
    → check_ports (with_mode (with_ports d item)) ≡ ok row
    → row.protocol ≡ item.protocol
unfolding check_ports with_mode with_ports
check_ports-protocol d item row h = ground arith

-- A remote profile that `normalizeRemoteProfile` lets through has a known protocol, mode and
-- policy and both of its ports in range; its hints are short and on one line; unless it is for RDP
-- its policy is strict and its domain is empty; and for Sunshine the frame rate and the bit rate
-- are in range and the application has a name.
pub normalize_remote_profile-IsValid :
    (ipv6 : Text → Option Ip) (item row : RemoteProfile)
    → normalize_remote_profile ipv6 item ≡ ok row
    → IsValid row
unfolding normalize_remote_profile is_sunshine
normalize_remote_profile-IsValid ipv6 item row h =
    let (
      d,
      (host, (served, (streamed, (found, (given, (known_protocol, (tested, (fits, hints)))))))),
    ) =
      normalize_trimmed-steps ipv6 (trimmed_profile item) row h in
    let (hport, (hverify, (hmode, (hprotocol, (hfps, (hrate, happ)))))) =
      check_hints-same (with_policy streamed) row hints in
    let (pport, (pverify, (pmode, (pprotocol, (pfps, (prate, papp)))))) =
      with_policy-same streamed in
    let (sport, (sverify, (smode, sprotocol))) = with_stream-same served streamed fits in
    let (port, (verify, mode)) = check_ports-fits _ served tested in
    let (policy, (user, domain)) = check_hints-policy (with_policy streamed) row hints in
    record {
      port = no_port-IsPort row.port (rw (hport, pport, sport) port);
      verify_port = no_port-IsPort row.verify_port (rw (hverify, pverify, sverify) verify);
      mode = rw (hmode, pmode, smode) mode;
      policy = policy;
      hints = (user, domain);
      strict = check_hints-strict (with_policy streamed) row hints;
      protocol = (
        d,
        rw (hprotocol, pprotocol, sprotocol, check_ports-protocol d _ served tested) known_protocol,
      );
      stream =
          rw (hprotocol, pprotocol, hfps, pfps, hrate, prate, happ, papp)
            (with_stream-fits served streamed fits);
    }
