-- ===== src/Examples/Desks.antt =====
-- internal/remoteflow at concrete inputs.
use wol.Prelude.{
  All, List, [], false, if◌then◌else◌, no_port, none, ok, pos, refl, true, ℕ, ◌++◌, ◌==◌, ◌||◌, ◌∷◌,
  ◌≡◌,
}
use wol.Broker.{
  address_mark, bad_text, browser_protocol, check_hint, check_policy, line_break, policy_of,
  validate_config,
}
use wol.Desk.Conduct.{Conduct, open_remote-Entitled}
use wol.Desk.Custody.{closed-nothing_live, idle-registered}
use wol.Desk.Flow.{
  Clients, open_remote, session_config, start_browser, start_client, started, streams,
}
use wol.Desk.Leaks.{Distinct, has}
use wol.Desk.Profiles.{session_config-accepted}
use wol.Desk.Reach.{
  Surroundings, ensure_reachable, expired, ticked, wait_from, wait_until_reachable,
}
use wol.Desk.Registries.{
  browser, drop_handle, find_handle, handles, mark_closed, moonlight, put_handle, register,
  registry_of, take_all, to_list, with_registry,
}
use wol.Desk.Urls.{desktop_protocol, native_desktop}
use wol.Desk.Worlds.{
  SessionEvent, close_manager, drain_manager, drained, happen, new_world, next, register_at,
  registered, remove_at, session_ends, start_session, stop_at, stopped,
}
use wol.Examples.Wakes.{hooks, pc, shelf, words}
use wol.Net.{looks_ipv6, octet, octets, parse_ip, parse_ipv4}
use wol.Packet.{checked_mac, mac_digits, mac_string, parse_mac}
use wol.Rules.Remote.{
  bad_hint, check_hints, check_ports, checked_host, ends_well, for_protocol, host_char, host_label,
  is_decimal, is_local, is_pair, is_sunshine, known_mode, known_policy, local_hostname, local_ip,
  looks_like_ipv4, matches_hostname, matches_resolution, normalize_remote_profile,
  normalize_trimmed, protocol_port, trimmed_profile, with_mode, with_policy, with_ports,
  with_stream,
}
use wol.Rules.Sites.{outside}
use wol.Store.{RemoteProfile}
use wol.Text.{
  byte_len, codes, equal_fold, fold_case, has_char, has_prefix, has_suffix, is_empty, is_space,
  lower, push_front, split, teq, to_lower, trim_left, trim_right, trim_space, width,
}
use wol.Text.Decimal.{is_digit, read_digits}
use wol.Text.Hex.{hex_pair, hex_value}
use wol.Wake.{default_port, own_plan, planned, relay_over, relay_route, resolve_route, wants_relay}
use wol.Wake.Service.{
  can_probe, deliver, finish, is_relay, probes, relay_delivery, sending_attempt, target_type_of,
  verified, verify_port_of, wake_by, wake_device, wake_found,
}

abbrev desktop : RemoteProfile
desktop = record {
  id = [];
  device_id = codes "d1";
  protocol = codes "RDP";
  host = codes "Tower.LOCAL";
  port = pos 0;
  verify_port = pos 0;
  username_hint = codes " me ";
  domain_hint = codes "WORK";
  certificate_policy = codes "trust-local";
  mode = codes "browser-local";
  app_name = [];
  fps = pos 0;
  resolution = [];
  bitrate_kbps = pos 0;
  enabled = true;
  created_at = [];
  updated_at = [];
}

abbrev desktop_row : RemoteProfile
desktop_row = record desktop {
  protocol = codes "rdp";
  host = codes "tower.local";
  port = pos 3389;
  verify_port = pos 3389;
  username_hint = codes "me";
}

desktop_normal : normalize_remote_profile (λ _. none) desktop ≡ ok desktop_row
unfolding host_char ends_well host_label matches_hostname is_decimal is_pair matches_resolution
    is_local local_ip looks_like_ipv4 local_hostname checked_host trimmed_profile protocol_port
    with_ports is_sunshine with_mode known_mode with_stream bad_hint with_policy known_policy
    for_protocol check_hints check_ports normalize_trimmed normalize_remote_profile is_empty
    trim_space trim_left trim_right is_space to_lower lower teq byte_len width has_char has_suffix
    has_prefix split push_front outside no_port parse_ip parse_ipv4 octets octet looks_ipv6 is_digit
    read_digits
desktop_normal = refl

not_streamed : is_sunshine desktop_row ≡ false
unfolding is_sunshine teq
not_streamed = refl

session_config-accepted_example : validate_config (session_config pc desktop_row) ≡ ok tt
session_config-accepted_example =
    session_config-accepted (λ _. none) desktop desktop_row pc (λ t ip h. absurd (cc h))
      desktop_normal not_streamed

-- A wake and a wait of three rounds.
abbrev around : Surroundings ℕ
around = record {
  repository = shelf;
  hooks = hooks;
  words = words;
  first_probe = λ host port. false;
  waiting = record {
    reachable = λ host port k. k == 2;
    ready = λ k. if k == 60 then expired else ticked;
  };
  rounds = 61;
}

abbrev clients : Clients
clients = record {
  desktop = λ p. ok tt;
  stream = λ host app fps size rate. ok 1;
  browse = λ cfg. ok 7;
}

opened_by_wake : (open_remote around clients 0 pc desktop_row true).0 ≡ ok (started browser 7)
unfolding open_remote ensure_reachable wait_until_reachable wait_from start_client start_browser
    native_desktop desktop_protocol streams validate_config browser_protocol address_mark check_hint
    bad_text line_break policy_of check_policy session_config to_lower lower trim_space is_empty
    wake_device teq wake_found resolve_route planned wants_relay equal_fold fold_case own_plan
    relay_route relay_over default_port parse_mac byte_len width mac_digits hex_pair hex_value
    mac_string checked_mac wake_by deliver is_relay relay_delivery sending_attempt target_type_of
    verified can_probe verify_port_of no_port probes finish
opened_by_wake = refl

open_remote-Entitled_example :
    Conduct around clients 0 pc desktop_row true (open_remote around clients 0 pc desktop_row true)
open_remote-Entitled_example = open_remote-Entitled around clients 0 pc desktop_row true

-- A session that is opened twice, and a stream that ends while the manager closes.
abbrev evening : List SessionEvent
evening =
    start_session browser (codes "d1") 1
    ∷ register_at 0
    ∷ start_session browser (codes "d1") 2
    ∷ start_session moonlight (codes "d2") 3
    ∷ register_at 1
    ∷ stop_at 0
    ∷ register_at 0
    ∷ []

abbrev night : List SessionEvent
night =
    evening
    ++ (close_manager
        ∷ start_session browser (codes "d3") 4
        ∷ register_at 0
        ∷ drain_manager
        ∷ stop_at 0
        ∷ stop_at 0
        ∷ session_ends 3
        ∷ stop_at 0
        ∷ [])

evening_live : (happen evening new_world).live ≡ 3 ∷ 2 ∷ []
unfolding happen next registered register registry_of with_registry find_handle drop_handle
    put_handle to_list teq remove_at stopped drained take_all mark_closed
evening_live = refl

idle-registered_example :
    All
      (λ h.
        (has h (handles (happen evening new_world).manager.sessions)
          || has h (handles (happen evening new_world).manager.streams))
        ≡ true)
      (happen evening new_world).live
    × Distinct (happen evening new_world).manager.sessions
    × Distinct (happen evening new_world).manager.streams
unfolding happen next registered register registry_of with_registry find_handle drop_handle
    put_handle to_list teq remove_at stopped drained take_all mark_closed
idle-registered_example = idle-registered evening refl refl

closed-nothing_live_example : (happen night new_world).live ≡ []
unfolding happen next registered register registry_of with_registry find_handle drop_handle
    put_handle to_list teq remove_at stopped drained take_all mark_closed
closed-nothing_live_example = closed-nothing_live night refl refl refl refl
