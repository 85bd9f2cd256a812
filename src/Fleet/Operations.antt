-- ===== src/Fleet/Operations.antt =====
-- The operations `Check` and `Wake` of internal/fleet/fleet.go, on one machine. The texts of
-- messages and the clock are parameters; the detector and the wake service are those of the model.
use wol.Prelude.{List, [], eqz, false, if◌then◌else◌, none, pos, some, ℤ, ◌∷◌}
use wol.Fleet.{Result}
use wol.Presence.{
  Detector, Method, Note, Radio, Status, Target, arp, icmp, no_method, offline, online, tcp_refused,
  tcp_sweep, tcp_verify, unreported,
}
use wol.Presence.Probe.{probe}
use wol.Store.{Device, RemoteProfile}
use wol.Text.{Text, codes, teq}
use wol.Wake.{Hooks, Options, Repository, Wording}
use wol.Wake.Service.{wake_device}

-- the words of `Status` and `Method`
unfoldable pub status_text : Status → Text
status_text online = codes "online"
status_text offline = codes "offline"
status_text unreported = codes "unknown"

unfoldable pub method_text : Method → Text
method_text tcp_verify = codes "tcp_verify"
method_text tcp_refused = codes "tcp_refused"
method_text tcp_sweep = codes "tcp_sweep"
method_text icmp = codes "icmp"
method_text arp = codes "arp"
method_text no_method = codes "none"

-- `byID[id].VerifyPort`: the last profile of a device, or zero
unfoldable pub profile_port : ℤ → Text → List RemoteProfile → ℤ
profile_port port id [] = port
profile_port port id (p ∷ profiles) =
    profile_port (if teq p.device_id id then p.verify_port else port) id profiles

unfoldable pub check_target : List RemoteProfile → Device → Target
check_target profiles d = record {
  device_id = d.id;
  ip_address = d.ip_address;
  verify_port =
      if eqz d.verify_port (pos 0) then profile_port (pos 0) d.id profiles else d.verify_port;
}

unfoldable pub check : (Note → Text) → Radio → Detector → List RemoteProfile → Device → ℤ → Result
check texts radio detector profiles d timeout =
    let r = probe radio detector (check_target profiles d) timeout in
    record {
      device_id = d.id;
      name = d.name;
      site_id = d.site_id;
      status = status_text r.status;
      method = method_text r.method;
      checked_at = r.checked_at;
      message = texts r.message;
    }

abbrev fleet_options : Options
fleet_options = record {
  repeats = pos 3;
  interval = pos 200000000;
  verify = false;
  verify_port = pos 0;
  timeout = pos 0;
  force = false;
  target_type = [];
}

unfoldable pub wake : {S : Type 0} → Repository S → Hooks → Wording → Text → S → Device → Result × S
wake repo hooks words now s d =
    let woken = wake_device repo hooks words s d.id fleet_options in
    let report : Result = record {
      device_id = d.id;
      name = d.name;
      site_id = d.site_id;
      status = codes "sent";
      method = [];
      checked_at = now;
      message = woken.result.detail;
    } in
    elim woken.failure [
      | none ↦ (report, woken.store)
      | some e ↦
          (record report { status = codes "failed"; message = words.wake_text e }, woken.store)
    ]
