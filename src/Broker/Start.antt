-- ===== src/Broker/Start.antt =====
-- `Start` of internal/localremote/session.go, up to the session that it returns. The source of random
-- bytes, the listener and the opener of the browser are parameters.
use wol.Prelude.{
  Bool, List, Option, Outcome, [], err, false, if◌then◌else◌, none, not, ok, some, true, ℕ, ℤ, ◌++◌,
}
use wol.Broker.{Config, ConfigError, validate_config}
use wol.Broker.Docker.{DockerError, Runtime, Shell, close, start}
use wol.Presence.Probe.{result}
use wol.Text.{Text, codes}
use wol.Text.Decimal.{itoa}

pub record Surroundings : Type 0 where
  -- the n-th random text
  pub random : ℕ → Option Text
  pub listens : Option ℕ
  pub opener : Option (Text → Bool)
  pub open_browser : Bool
  pub alive : ℤ → Bool
  pub own_pid : Text

pub data StartError : Type 0 where
  rejected : ConfigError → StartError
  no_randomness no_listener no_opener not_opened : StartError
  no_sidecars : DockerError → StartError

-- A failure with those of the removals; whether the broker listens; and the shell.
abbrev pub Startup : Type 0
Startup = Outcome (StartError × List DockerError) Text × Bool × Shell

unfoldable pub new_runtime : Text → Text → Text → Runtime
new_runtime id key owner = record {
  network = codes "wol-local-" ++ id;
  guacd = codes "wol-guacd-" ++ id;
  guacamole = codes "wol-guacamole-" ++ id;
  secret = key;
  owner = owner;
  started_network = false;
  started_guacd = false;
  started_guacamole = false;
}

-- The sidecars are removed, and the listener is closed where there is one.
unfoldable pub torn_down : StartError → Runtime → Shell → Startup
torn_down e d sh = let (errors, sh') = close d sh in (err (e, errors), false, sh')

-- `Close` of a session that was made, whose errors are dropped
unfoldable pub session_closed : StartError → Runtime → Shell → Startup
session_closed e d sh = (err (e, []), false, (close d sh).1)

unfoldable pub session_url : ℕ → Text → Text
session_url port link = codes "http://127.0.0.1:" ++ (itoa port ++ (codes "/s/" ++ link))

module _ (around : Surroundings) where
  unfoldable pub shown : Text → Runtime → Shell → Startup
  shown url d sh = if not around.open_browser then (ok url, true, sh) else elim around.opener [
    | none ↦ session_closed no_opener d sh
    | some opens ↦ if opens url then (ok url, true, sh) else session_closed not_opened d sh
  ]

  -- the tokens of the link, of the cookie and of the forms
  unfoldable pub session_tokens : Option Text
  session_tokens = elim (around.random 2) [
    | none ↦ none
    | some link ↦ elim (around.random 3) [
      | none ↦ none
      | some _ ↦ elim (around.random 4) [ none ↦ none | some _ ↦ some link ]
    ]
  ]

  unfoldable pub with_listener : Runtime → Shell → Startup
  with_listener d sh = elim around.listens [
    | none ↦ torn_down no_listener d sh
    | some port ↦ elim session_tokens [
      | none ↦ torn_down no_randomness d sh
      | some link ↦ shown (session_url port link) d sh
    ]
  ]

  unfoldable pub with_sidecars : Runtime → Shell → Startup
  with_sidecars d sh =
      let (result, d', sh') = start around.alive d sh in
      elim result [ err e ↦ torn_down (no_sidecars e) d' sh' | ok _ ↦ with_listener d' sh' ]

  unfoldable pub start_session : Config → Shell → Startup
  start_session cfg sh = elim (validate_config cfg) [
    | err e ↦ (err (rejected e, []), false, sh)
    | ok _ ↦ elim (around.random 0) [
      | none ↦ (err (no_randomness, []), false, sh)
      | some id ↦ elim (around.random 1) [
        | none ↦ (err (no_randomness, []), false, sh)
        | some key ↦ with_sidecars (new_runtime id key around.own_pid) sh
      ]
    ]
  ]
