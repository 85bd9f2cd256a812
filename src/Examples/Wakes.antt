-- ===== src/Examples/Wakes.antt =====
-- internal/wake at concrete inputs.
use wol.Prelude.{
  All, List, [], arith, eqz, err, false, if◌then◌else◌, no_port, none, ok, pos, refl, some, suc,
  true, ℕ, ◌++◌, ◌∷◌, ◌≡◌, ◌⊎◌,
}
use wol.Examples.Packets.{desk, desk_text}
use wol.Packet.{checked_mac, mac_digits, mac_string, parse_mac, socket_failed}
use wol.Packet.Send.{no_result}
use wol.Store.{Device, WakeAttempt, WakeRelay, no_attempt, no_device, no_relay}
use wol.Text.{Text, byte_len, codes, equal_fold, has_prefix, is_empty, teq, trim_space}
use wol.Text.Decimal.{itoa}
use wol.Text.Hex.{hex_pair, hex_value}
use wol.Wake.{
  Hooks, Options, Plan, Repository, Route, Wording, default_port, not_found, own_plan, planned,
  relay_over, relay_route, resolve_route, wants_relay,
}
use wol.Wake.Conduct.{wake_device-Rightful}
use wol.Wake.Etherwake.{
  SafeToken, Token, alnum, batch_args, etherwake_args, etherwake_args_safe, known_transport,
  matches_token, port_args, relay_char, relay_interface, relay_ssh_port, relay_target,
  remote_command, safe_relay_token,
}
use wol.Wake.Laws.{Rightful, records}
use wol.Wake.Routes.{ByBroadcast, ByRelay, resolve_route_sound}
use wol.Wake.Service.{
  can_probe, deliver, finish, is_relay, probes, relay_delivery, sending_attempt, target_type_of,
  verified, verify_port_of, wake_by, wake_device, wake_found,
}

abbrev pub pc : Device
pc = record no_device {
  id = codes "d1";
  name = codes "pc";
  mac_address = desk_text;
  ip_address = codes "10.0.0.7";
  wake_relay_id = codes "r1";
  verify_port = pos 22;
  enabled = true;
}

abbrev pub router : WakeRelay
router = record no_relay {
  id = codes "r1";
  name = codes "router";
  address = codes "gw.lan";
  ssh_user = codes "root";
  enabled = true;
}

-- one device and one relay; the state counts the records
abbrev pub shelf : Repository ℕ
shelf = record {
  get_site = λ _ _. err not_found;
  get_device = λ _ id. if teq id (codes "d1") then ok pc else err not_found;
  get_wake_relay = λ _ id. if teq id (codes "r1") then ok router else err not_found;
  record_wake_attempt = λ n a. (ok a, suc n);
}

abbrev pub hooks : Hooks
hooks = record {
  direct = λ _. (no_result, some socket_failed);
  relay = λ _ _. (record { packets = 1; detail = codes "done" }, none);
  verify = λ _ _ _. none;
}

abbrev pub words : Wording
words = record {
  wake_text = λ _. codes "failed";
  wol_text = λ _. codes "timeout";
  warning_text = λ n. n;
  ipv6 = λ _. none;
}

abbrev pub options : Options
options = record {
  repeats = pos 0;
  interval = pos 0;
  verify = true;
  verify_port = pos 0;
  timeout = pos 0;
  force = false;
  target_type = [];
}

found : shelf.get_device 0 (codes "d1") ≡ ok pc
unfolding teq
found = refl

missing : shelf.get_device 0 (codes "d2") ≡ err not_found
unfolding teq
missing = refl

-- the attempt that this wake records
abbrev done : WakeAttempt
done = record no_attempt {
  target_type = codes "device";
  target_id = codes "d1";
  target_name = codes "pc";
  mac_address = desk_text;
  port = pos 9;
  packet_status = codes "sent";
  verification_status = codes "reachable";
  message = codes "done";
  packets = 1;
}

one_record : records (wake_device shelf hooks words 0 (codes "d1") options).events ≡ done ∷ []
unfolding wake_device records teq wake_found resolve_route planned is_empty wants_relay equal_fold
    trim_space own_plan relay_route relay_over default_port parse_mac byte_len mac_digits hex_pair
    hex_value mac_string checked_mac wake_by deliver is_relay relay_delivery sending_attempt
    target_type_of verified can_probe verify_port_of no_port probes finish
one_record = refl

abbrev by_router : Route
by_router = relay_over router (own_plan pc)

resolved : resolve_route shelf words 0 pc ≡ ok by_router
unfolding resolve_route planned own_plan wants_relay relay_route relay_over teq trim_space
    default_port is_empty equal_fold
resolved = refl

wake_device-Rightful_example :
    All
      (Rightful shelf hooks words 0 pc options)
      (wake_device shelf hooks words 0 (codes "d1") options).events
wake_device-Rightful_example =
    wake_device-Rightful shelf hooks words 0 (codes "d1") options pc found

resolve_route_sound_example :
    (p : Plan) × (planned shelf words 0 pc ≡ ok p)
    × (eqz by_router.port (pos 0) ≡ false)
    × (ByRelay shelf words 0 pc p by_router ⊎ ByBroadcast shelf words 0 pc p by_router)
resolve_route_sound_example = resolve_route_sound shelf words 0 pc by_router resolved

abbrev router_args : List Text
router_args =
    batch_args
    ++ (port_args 22
        ++ (codes "--"
            ∷ codes "root@gw.lan"
            ∷ codes "/usr/bin/etherwake -b -i br-lan 3c:52:82:0a:1b:2f"
            ∷ []))

args_built : etherwake_args router desk ≡ ok router_args
unfolding etherwake_args is_empty trim_space known_transport equal_fold safe_relay_token has_prefix
    matches_token relay_char alnum relay_interface relay_target remote_command mac_string
    relay_ssh_port port_args itoa
args_built = refl

etherwake_args_safe_example :
    (router_args
      ≡ batch_args
        ++ (port_args (relay_ssh_port (pos 0))
            ++ (codes "--"
                ∷ relay_target router
                ∷ remote_command (relay_interface router) desk
                ∷ [])))
    × (relay_target router ≡ (
        if is_empty router.ssh_user
        then router.address
        else router.ssh_user ++ (b'@' ∷ router.address)))
    × SafeToken (codes "gw.lan")
    × SafeToken (codes "root")
    × (Token (relay_interface router) × Token (mac_string desk))
etherwake_args_safe_example = etherwake_args_safe router desk router_args (omega arith) args_built
