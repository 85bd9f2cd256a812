-- ===== src/Wake/Service.antt =====
-- `WakeDevice` and `recordFailure` of internal/wake/service.go.
use wol.Prelude.{
  Bool, List, Option, [], eqz, err, false, if◌then◌else◌, lez, ltz, no_port, none, not, ok, pos,
  some, true, ℕ, ℤ, ◌&&◌, ◌++◌, ◌∷◌,
}
use wol.Net.{ipv4_string}
use wol.Packet.{WolError, parse_mac}
use wol.Packet.Send.{SendRequest, SendResult}
use wol.Store.{Device, WakeAttempt, no_attempt, no_device}
use wol.Text.{Text, codes, is_empty, trim_space}
use wol.Wake.{
  Event, Hooks, Options, RelayResult, Repository, Route, WakeError, Woken, Wording, bad_mac,
  device_disabled, lookup_failed, no_route, probed, record_failed, recorded, relay, relay_failed,
  relayed, resolve_route, send_failed, sent,
}

unfoldable pub target_type_of : Options → Text
target_type_of options =
    let t = trim_space options.target_type in if is_empty t then codes "device" else t

unfoldable pub wake_repeat : ℤ → ℤ
wake_repeat n = if ltz n (pos 1) then pos 3 else n

-- 200 milliseconds
unfoldable pub wake_interval : ℤ → ℤ
wake_interval n = if lez n (pos 0) then pos 200000000 else n

-- the attempt of `recordFailure`
unfoldable pub failed_attempt : Device → Route → Options → Text → WakeAttempt
failed_attempt device route options cause = record {
  id = [];
  target_type = target_type_of options;
  target_id = device.id;
  target_name = device.name;
  mac_address = device.mac_address;
  destination = if is_empty route.destination then [] else ipv4_string route.destination;
  port = if is_empty route.destination then pos 0 else route.port;
  packet_status = codes "failed";
  verification_status = codes "not_requested";
  message = cause;
  packets = 0;
  created_at = [];
}

-- the attempt that stands before the packet is sent
unfoldable pub sending_attempt : Device → Route → Options → WakeAttempt
sending_attempt device route options = record {
  id = [];
  target_type = target_type_of options;
  target_id = device.id;
  target_name = device.name;
  mac_address = device.mac_address;
  destination = if is_empty route.destination then [] else ipv4_string route.destination;
  port = route.port;
  packet_status = codes "sending";
  verification_status = codes "not_requested";
  message = [];
  packets = 0;
  created_at = [];
}

-- What the sending came to, by either kind of route.
pub record Delivery : Type 0 where
  pub packets : ℕ
  pub detail : Text
  -- the detail that is returned beside an error
  pub failed_detail : Text
  pub failure : Option WakeError
  pub event : Event

unfoldable pub is_relay : Route → Bool
is_relay r = elim r.kind [ relay ↦ true | _ ↦ false ]

unfoldable pub verify_port_of : Options → Device → ℤ
verify_port_of options device =
    if eqz options.verify_port (pos 0) then device.verify_port else options.verify_port

unfoldable pub send_request : Route → Options → List ℕ → SendRequest
send_request route options mac = record {
  mac = mac;
  destination = route.destination;
  port = route.port;
  interface = route.interface;
  repeats = wake_repeat options.repeats;
  interval = wake_interval options.interval;
}

unfoldable pub relay_delivery : Route → List ℕ → RelayResult × Option Text → Delivery
relay_delivery route mac (r, e) = record {
  packets = r.packets;
  detail = r.detail;
  failed_detail = r.detail;
  failure = elim e [ none ↦ none | some t ↦ some (relay_failed t) ];
  event = relayed route.relay mac;
}

unfoldable pub direct_delivery : Wording → SendRequest → SendResult × Option WolError → Delivery
direct_delivery words req (r, e) = record {
  packets = r.packets;
  detail = elim r.warning [ none ↦ [] | some name ↦ words.warning_text name ];
  failed_detail = [];
  failure = elim e [ none ↦ none | some w ↦ some (send_failed w) ];
  event = sent req;
}

unfoldable pub can_probe : Options → Device → Bool
can_probe options device =
    not (is_empty (trim_space device.ip_address)) && not (no_port (verify_port_of options device))

unfoldable pub probes : Options → Device → List Event
probes options device =
    if options.verify && can_probe options device
    then probed device.ip_address (verify_port_of options device) ∷ []
    else []

unfoldable pub unavailable_message : Text → Text
unavailable_message message =
    if is_empty message then codes "verification requires an IP address and TCP port" else message

module _ (hooks : Hooks) (words : Wording) where
  unfoldable pub deliver : Route → Options → List ℕ → Delivery
  deliver route options mac =
      if is_relay route
      then relay_delivery route mac (hooks.relay route.relay mac)
      else let req = send_request route options mac in direct_delivery words req (hooks.direct req)

  -- the attempt behind a probe, or with none that could be made
  unfoldable pub verified : Options → Device → WakeAttempt → WakeAttempt
  verified options device attempt =
      if not options.verify
      then attempt
      else if not (can_probe options device)
      then record attempt {
        verification_status = codes "unavailable";
        message = unavailable_message attempt.message;
      }
      else elim (hooks.verify device.ip_address (verify_port_of options device) options.timeout) [
        | some w ↦ record attempt {
          verification_status = codes "timeout";
          message = words.wol_text w;
        }
        | none ↦ record attempt { verification_status = codes "reachable" }
      ]

module _ {S : Type 0} (repo : Repository S) (hooks : Hooks) (words : Wording) where
  -- the record of an attempt, and what is returned with it
  unfoldable pub finish :
      S → WakeAttempt → Device → Route → Text → Text → Option WakeError → List Event → Woken S
  finish s attempt device route detail stored_detail failure events =
      let (kept, s') = repo.record_wake_attempt s attempt in
      elim kept [
        | err e ↦ record {
          result = record { attempt = attempt; device = device; route = route; detail = detail };
          failure = some (record_failed e);
          store = s';
          events = events ++ recorded attempt ∷ [];
        }
        | ok stored ↦ record {
          result = record {
            attempt = stored;
            device = device;
            route = route;
            detail = stored_detail;
          };
          failure = failure;
          store = s';
          events = events ++ recorded attempt ∷ [];
        }
      ]

  -- `recordFailure`
  unfoldable pub record_failure : S → Device → Route → Options → WakeError → Woken S
  record_failure s device route options cause =
      finish s (failed_attempt device route options (words.wake_text cause)) device route [] []
        (some cause) []

  -- `WakeDevice` from the moment at which the route and the address are known
  unfoldable pub wake_by : S → Device → Route → Options → List ℕ → Woken S
  wake_by s device route options mac =
      let d = deliver hooks words route options mac in
      let attempt = sending_attempt device route options in
      elim d.failure [
        | some e ↦
            finish s
              (record attempt {
                packet_status = codes "failed";
                message = words.wake_text e;
                packets = d.packets;
              })
              device route d.failed_detail d.failed_detail (some e) (d.event ∷ [])
        | none ↦
            finish s
              (verified hooks words options device (record attempt {
                packet_status = codes "sent";
                packets = d.packets;
                message = d.detail;
              }))
              device route d.detail d.detail none (d.event ∷ probes options device)
      ]

  -- `WakeDevice` for a device that was found
  unfoldable pub wake_found : S → Device → Options → Woken S
  wake_found s device options =
      if not device.enabled && not options.force
      then record_failure s device no_route options device_disabled
      else elim (resolve_route repo words s device) [
        | err e ↦ record_failure s device no_route options e
        | ok route ↦ elim (parse_mac device.mac_address) [
          | err e ↦ record_failure s device route options bad_mac
          | ok mac ↦ wake_by s device route options mac
        ]
      ]

  unfoldable pub wake_device : S → Text → Options → Woken S
  wake_device s device_id options = elim (repo.get_device s device_id) [
    | ok device ↦ wake_found s device options
    | err e ↦ record {
      result = record {
        attempt = record no_attempt {
          target_type = target_type_of options;
          target_id = device_id;
          packet_status = codes "failed";
          verification_status = codes "not_requested";
          message = words.wake_text (lookup_failed e);
        };
        device = no_device;
        route = no_route;
        detail = [];
      };
      failure = some (lookup_failed e);
      store = s;
      events = [];
    }
  ]
