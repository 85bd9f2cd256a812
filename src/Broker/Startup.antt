-- ===== src/Broker/Startup.antt =====
-- A `Start` of internal/localremote that fails leaves nothing behind.
use wol.Prelude.{
  Bool, List, Option-cases, Outcome-cases, [], either_way, err, false, inl, inr, not, ok, refl,
  reverse, true, ◌++◌, ◌≡◌,
}
use wol.Broker.{Config, validate_config}
use wol.Broker.Commands.{DockerCommand}
use wol.Broker.Docker.{Runtime, Shell, start}
use wol.Broker.Sidecars.{commands, standing, undo}
use wol.Broker.Start.{
  StartError, Startup, Surroundings, new_runtime, no_listener, no_opener, no_randomness,
  no_sidecars, not_opened, rejected, session_closed, session_tokens, session_url, shown,
  start_session, torn_down, with_listener, with_sidecars,
}
use wol.Broker.Teardown.{close-Added, start-known}
use wol.Store.Rules.{given}
use wol.Store.Transfer.{known}
use wol.Text.{Text}

-- Behind the log of a start stand the removals of what it made and nothing else; or a session
-- listens.
pub Clean : List (DockerCommand × Bool) → Startup → Type 0
Clean log (ok url, listening, sh) = listening ≡ true
Clean log (err e, listening, sh) =
    (listening ≡ false)
    × ((newer : List (DockerCommand × Bool)) × (sh.ran ≡ newer ++ log)
        × (commands newer ≡ reverse (undo log)))

torn_down-Clean :
    (e : StartError) (d : Runtime) (sh : Shell)
    → undo sh.ran ≡ standing d
    → Clean sh.ran (torn_down e d sh)
unfolding Clean torn_down
torn_down-Clean e d sh known = (refl, rw known (close-Added d sh))

session_closed-Clean :
    (e : StartError) (d : Runtime) (sh : Shell)
    → undo sh.ran ≡ standing d
    → Clean sh.ran (session_closed e d sh)
unfolding Clean session_closed
session_closed-Clean e d sh known = (refl, rw known (close-Added d sh))

listening_ok : (url : Text) (sh : Shell) → Clean sh.ran (ok url, true, sh)
unfolding Clean
listening_ok url sh = refl

module _ (around : Surroundings) where
  shown-Clean :
      (url : Text) (d : Runtime) (sh : Shell)
      → undo sh.ran ≡ standing d
      → Clean sh.ran (shown around url d sh)
  unfolding shown
  shown-Clean url d sh known =
      either_way (Clean sh.ran) (not around.open_browser) (listening_ok url sh)
        (elim (Option-cases around.opener) [
          | inl absent ↦ rw absent (session_closed-Clean no_opener d sh known)
          | inr (opens, given) ↦ rw given (
              either_way (Clean sh.ran) (opens url) (listening_ok url sh)
                (session_closed-Clean not_opened d sh known))
        ])

  with_listener-Clean :
      (d : Runtime) (sh : Shell)
      → undo sh.ran ≡ standing d
      → Clean sh.ran (with_listener around d sh)
  unfolding with_listener
  with_listener-Clean d sh known = elim (Option-cases around.listens) [
    | inl deaf ↦ rw (deaf, with_listener) (torn_down-Clean no_listener d sh known)
    | inr (port, hears) ↦ elim (Option-cases (session_tokens around)) [
      | inl none_left ↦
          rw (hears, none_left, with_listener) (torn_down-Clean no_randomness d sh known)
      | inr (link, tokens) ↦
          rw (hears, tokens, with_listener) (shown-Clean (session_url port link) d sh known)
    ]
  ]

  with_sidecars-Clean :
      (d : Runtime) (sh : Shell)
      → undo (start around.alive d sh).2.ran ≡ standing (start around.alive d sh).1
      → Clean (start around.alive d sh).2.ran (with_sidecars around d sh)
  unfolding with_sidecars
  with_sidecars-Clean d sh known = elim (Outcome-cases (start around.alive d sh).0) [
    | inl (upstream, up) ↦
        rw (up, with_sidecars)
          (with_listener-Clean (start around.alive d sh).1 (start around.alive d sh).2 known)
    | inr (e, down) ↦
        rw (down, with_sidecars)
          (torn_down-Clean (no_sidecars e) (start around.alive d sh).1 (start around.alive d sh).2
            known)
  ]

  early-Clean : (e : StartError) (sh : Shell) → sh.ran ≡ [] → Clean [] (err (e, []), false, sh)
  unfolding Clean undo
  early-Clean e sh fresh = (refl, ([], fresh, refl))

  -- A `Start` over a shell that has run nothing either returns a session whose broker listens, or
  -- it fails, the broker does not listen, and the log of the shell is one in which the network and
  -- the containers that were made are removed at the end: first all other commands, then the
  -- removals of those that were created, each once, the last first, and nothing else.
  pub start_session-Clean :
      (cfg : Config) (sh : Shell)
      → sh.ran ≡ []
      → (log : List (DockerCommand × Bool)) × Clean log (start_session around cfg sh)
  unfolding start_session new_runtime
  start_session-Clean cfg sh fresh = elim (Outcome-cases (validate_config cfg)) [
    | inr (e, bad) ↦ ([], rw (bad, start_session) (early-Clean (rejected e) sh fresh))
    | inl (u, good) ↦ elim (Option-cases (around.random 0)) [
      | inl dry ↦ ([], rw (good, dry, start_session) (early-Clean no_randomness sh fresh))
      | inr (id, first) ↦ elim (Option-cases (around.random 1)) [
        | inl dry ↦ ([], rw (good, first, dry, start_session) (early-Clean no_randomness sh fresh))
        | inr (key, second) ↦
            let d = new_runtime id key around.own_pid in
            (
              (start around.alive d sh).2.ran,
              rw (good, first, second, start_session)
                  (with_sidecars-Clean d sh
                    (start-known around.alive d sh fresh (refl, refl, refl))),
            )
      ]
    ]
  ]
