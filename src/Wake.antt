-- ===== src/Wake.antt =====
-- internal/wake/service.go. The repository, the hooks and the wording of errors are parameters.
-- `WakeDevice` returns, beside its result, what it did: the sends, the probe and the records.
pub mod Etherwake
pub mod Routes
pub mod Service
pub mod Laws
pub mod Conduct
use wol.Prelude.{
  Bool, List, Option, Outcome, [], eqz, err, if◌then◌else◌, none, not, ok, pos, some, ℕ, ℤ, ◌>>=◌,
  ◌>>◌, ◌||◌,
}
use wol.Net.{Ip, parse_to4}
use wol.Packet.{WolError}
use wol.Packet.Send.{SendRequest, SendResult}
use wol.Store.{Device, Site, WakeAttempt, WakeRelay, no_relay, no_site}
use wol.Text.{Text, codes, equal_fold, is_empty, trim_space}

pub data StoreError : Type 0 where
  not_found : StoreError
  store_failed : Text → StoreError

pub data WakeError : Type 0 where
  lookup_failed record_failed relay_lookup : StoreError → WakeError
  device_disabled relay_required : WakeError
  relay_disabled : Text → WakeError
  bad_broadcast : Text → WakeError
  bad_mac : WakeError
  send_failed : WolError → WakeError
  relay_failed : Text → WakeError

pub data Kind : Type 0 where
  unset broadcast relay : Kind

pub record Route : Type 0 where
  pub kind : Kind
  pub name : Text
  pub destination : Ip
  pub port : ℤ
  pub interface : Text
  pub relay : WakeRelay

abbrev pub no_route : Route
no_route = record {
  kind = unset;
  name = [];
  destination = [];
  port = pos 0;
  interface = [];
  relay = no_relay;
}

-- The part of the `Repository` interface that the service calls, over the repository's state.
pub record Repository (S : Type 0) : Type 0 where
  pub get_site : S → Text → Outcome StoreError Site
  pub get_device : S → Text → Outcome StoreError Device
  pub get_wake_relay : S → Text → Outcome StoreError WakeRelay
  pub record_wake_attempt : S → WakeAttempt → Outcome StoreError WakeAttempt × S

pub record Options : Type 0 where
  pub repeats : ℤ
  pub interval : ℤ
  pub verify : Bool
  pub verify_port : ℤ
  pub timeout : ℤ
  pub force : Bool
  pub target_type : Text

pub record RelayResult : Type 0 where
  pub packets : ℕ
  pub detail : Text

pub record Hooks : Type 0 where
  pub direct : SendRequest → SendResult × Option WolError
  pub relay : WakeRelay → List ℕ → RelayResult × Option Text
  pub verify : Text → ℤ → ℤ → Option WolError

-- the texts of errors and of the warning about an interface, and the parser of IPv6 texts
pub record Wording : Type 0 where
  pub wake_text : WakeError → Text
  pub wol_text : WolError → Text
  pub warning_text : Text → Text
  pub ipv6 : Text → Option Ip

pub data Event : Type 0 where
  sent : SendRequest → Event
  relayed : WakeRelay → List ℕ → Event
  probed : Text → ℤ → Event
  recorded : WakeAttempt → Event

pub record WakeResult : Type 0 where
  pub attempt : WakeAttempt
  pub device : Device
  pub route : Route
  pub detail : Text

pub record Woken (S : Type 0) : Type 0 where
  pub result : WakeResult
  pub failure : Option WakeError
  pub store : S
  pub events : List Event

-- what the device and its site say together
pub record Plan : Type 0 where
  pub destination : Text
  pub port : ℤ
  pub interface : Text
  pub relay_id : Text

unfoldable pub own_plan : Device → Plan
own_plan device = record {
  destination = trim_space device.broadcast_address;
  port = device.port;
  interface = trim_space device.interface;
  relay_id = device.wake_relay_id;
}

-- the defaults of the site, for a site that was found
unfoldable pub site_plan : Site → Plan → Plan
site_plan site p = if is_empty site.id then p else record {
  destination = if is_empty p.destination then trim_space site.broadcast_address else p.destination;
  port = if eqz p.port (pos 0) then site.default_port else p.port;
  interface = if is_empty p.interface then trim_space site.default_interface else p.interface;
  relay_id = if is_empty p.relay_id then site.wake_relay_id else p.relay_id;
}

-- the lookup of the site: a site that is not there is the zero value
unfoldable pub plan_of : Outcome StoreError Site → Plan → Outcome WakeError Plan
plan_of (ok site) p = ok (site_plan site p)
plan_of (err not_found) p = ok (site_plan no_site p)
plan_of (err (store_failed t)) p = err (lookup_failed (store_failed t))

unfoldable pub default_port : ℤ → ℤ
default_port port = if eqz port (pos 0) then pos 9 else port

unfoldable pub wants_relay : Device → Plan → Bool
wants_relay device p =
    equal_fold (trim_space device.wake_strategy) (codes "relay")
    || not (is_empty (trim_space p.relay_id))

unfoldable pub broadcast_text : Text → Text
broadcast_text destination = if is_empty destination then codes "255.255.255.255" else destination

-- the two routes that `ResolveRoute` builds
unfoldable pub relay_over : WakeRelay → Plan → Route
relay_over found p = record {
  kind = relay;
  name = found.name;
  destination = [];
  port = default_port p.port;
  interface = found.interface;
  relay = found;
}

unfoldable pub broadcast_over : Ip → Plan → Route
broadcast_over ip p = record {
  kind = broadcast;
  name = codes "direct broadcast";
  destination = ip;
  port = default_port p.port;
  interface = p.interface;
  relay = no_relay;
}

module _ {S : Type 0} (repo : Repository S) (words : Wording) where
  unfoldable pub relay_route : S → Plan → Outcome WakeError Route
  relay_route s p =
      if is_empty (trim_space p.relay_id)
      then err relay_required
      else elim (repo.get_wake_relay s p.relay_id) [
        | err e ↦ err (relay_lookup e)
        | ok found ↦
            if not found.enabled then err (relay_disabled found.name) else ok (relay_over found p)
      ]

  unfoldable pub broadcast_route : Plan → Outcome WakeError Route
  broadcast_route p =
      let destination = broadcast_text p.destination in
      elim (parse_to4 words.ipv6 destination) [
        | none ↦ err (bad_broadcast destination)
        | some ip ↦ ok (broadcast_over ip p)
      ]

  unfoldable pub planned : S → Device → Outcome WakeError Plan
  planned s device =
      if is_empty device.site_id
      then ok (own_plan device)
      else plan_of (repo.get_site s device.site_id) (own_plan device)

  -- `ResolveRoute`
  unfoldable pub resolve_route : S → Device → Outcome WakeError Route
  resolve_route s device = do
    p ← planned s device
    if wants_relay device p then relay_route s p else broadcast_route p
