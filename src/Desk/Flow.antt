-- ===== src/Desk/Flow.antt =====
-- `Open` of internal/remoteflow/flow.go up to the part under the lock: the checks, the wait for the
-- device, and which client opens the profile.
use wol.Prelude.{Bool, List, Outcome, [], err, if◌then◌else◌, not, ok, ℕ, ℤ, ◌||◌}
use wol.Broker.{Config, ConfigError, validate_config}
use wol.Desk.Reach.{ReachError, Surroundings, ensure_reachable}
use wol.Desk.Registries.{Pool, browser, moonlight}
use wol.Desk.Urls.{native_desktop}
use wol.Store.{Device, RemoteProfile}
use wol.Text.{Text, codes, teq}
use wol.Wake.{Event}

pub data FlowError : Type 0 where
  profile_disabled : FlowError
  unreachable_device : ReachError → FlowError
  desktop_failed : Text → FlowError
  moonlight_failed : Text → FlowError
  bad_config : ConfigError → FlowError
  browser_failed : Text → FlowError
  unsupported_mode : FlowError

-- What `Open` has to show: the desktop client has it, or a session was started that is to be
-- registered.
pub data Opened : Type 0 where
  handed_over : Opened
  started : Pool → ℕ → Opened

-- The clients: each gives a handle, or a message.
pub record Clients : Type 0 where
  pub desktop : RemoteProfile → Outcome Text (Unit {0})
  pub stream : Text → Text → ℤ → Text → ℤ → Outcome Text ℕ
  pub browse : Config → Outcome Text ℕ

unfoldable pub session_config : Device → RemoteProfile → Config
session_config device profile = record {
  name = device.name;
  protocol = profile.protocol;
  host = profile.host;
  port = profile.port;
  username_hint = profile.username_hint;
  domain_hint = profile.domain_hint;
  certificate_policy = profile.certificate_policy;
}

unfoldable pub streams : RemoteProfile → Bool
streams profile =
    teq profile.mode (codes "native-moonlight") || teq profile.protocol (codes "sunshine")

-- `localremote.Start` checks its configuration first.
unfoldable pub start_browser : Clients → Config → Outcome FlowError Opened
start_browser clients cfg = elim (validate_config cfg) [
  | err e ↦ err (bad_config e)
  | ok _ ↦ elim (clients.browse cfg) [
    | err e ↦ err (browser_failed e)
    | ok h ↦ ok (started browser h)
  ]
]

unfoldable pub start_client : Clients → Device → RemoteProfile → Outcome FlowError Opened
start_client clients device profile =
    if native_desktop profile
    then elim (clients.desktop profile) [ err e ↦ err (desktop_failed e) | ok _ ↦ ok handed_over ]
    else if streams profile
    then elim (clients.stream profile.host profile.app_name profile.fps profile.resolution
        profile.bitrate_kbps) [ err e ↦ err (moonlight_failed e) | ok h ↦ ok (started moonlight h) ]
    else if not (teq profile.mode (codes "browser-local"))
    then err unsupported_mode
    else start_browser clients (session_config device profile)

module _ {S : Type 0} (env : Surroundings S) (clients : Clients) where
  unfoldable pub open_remote :
      S → Device → RemoteProfile → Bool → Outcome FlowError Opened × S × List Event
  open_remote s device profile auto_wake =
      if not profile.enabled || not (teq profile.device_id device.id)
      then (err profile_disabled, s, [])
      else let (reached, s', events) = ensure_reachable env s device profile auto_wake in
        elim reached [
          | err e ↦ (err (unreachable_device e), s', events)
          | ok _ ↦ (start_client clients device profile, s', events)
        ]
