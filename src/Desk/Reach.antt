-- ===== src/Desk/Reach.antt =====
-- `ensureReachable` and `waitUntilReachable` of internal/remoteflow/flow.go. What the probes find and
-- which channel of the `select` is ready come from outside, by the round of the loop.
use wol.Prelude.{
  Bool, List, Outcome, [], err, false, if◌then◌else◌, none, not, ok, pos, some, suc, zero, ℕ, ℤ,
}
use wol.Store.{Device, RemoteProfile}
use wol.Text.{Text}
use wol.Wake.{Event, Hooks, Options, Repository, WakeError, Wording}
use wol.Wake.Service.{wake_device}

pub data Ready : Type 0 where
  cancelled expired ticked : Ready

pub record Waiting : Type 0 where
  pub reachable : Text → ℤ → ℕ → Bool
  pub ready : ℕ → Ready

pub data WaitError : Type 0 where
  wait_cancelled wait_expired out_of_rounds : WaitError

unfoldable pub wait_from : Waiting → Text → ℤ → ℕ → ℕ → Outcome WaitError (Unit {0})
wait_from env host port zero round = err out_of_rounds
wait_from env host port (suc fuel) round =
    let rest = wait_from env host port fuel (suc round) in
    if env.reachable host port round then ok tt else elim (env.ready round) [
      | cancelled ↦ err wait_cancelled
      | expired ↦ err wait_expired
      | ticked ↦ rest
    ]

pub data ReachError : Type 0 where
  not_reachable : ReachError
  wake_failed : WakeError → ReachError
  gave_up : WaitError → ReachError

abbrev pub wake_options : Options
wake_options = record {
  repeats = pos 3;
  interval = pos 200000000;
  verify = false;
  verify_port = pos 0;
  timeout = pos 0;
  force = false;
  target_type = [];
}

-- What a manager works with, beside its maps. The first probe comes before the rounds of the wait.
pub record Surroundings (S : Type 0) : Type 0 where
  pub repository : Repository S
  pub hooks : Hooks
  pub words : Wording
  pub first_probe : Text → ℤ → Bool
  pub waiting : Waiting
  pub rounds : ℕ

module _ {S : Type 0} (env : Surroundings S) where
  unfoldable pub wait_until_reachable : Text → ℤ → Outcome ReachError (Unit {0})
  wait_until_reachable host port = elim (wait_from env.waiting host port env.rounds 0) [
    | ok _ ↦ ok tt
    | err e ↦ err (gave_up e)
  ]

  -- the outcome, with the store and the events of a wake
  unfoldable pub ensure_reachable :
      S → Device → RemoteProfile → Bool → Outcome ReachError (Unit {0}) × S × List Event
  ensure_reachable s device profile auto_wake =
      if env.first_probe profile.host profile.verify_port
      then (ok tt, s, [])
      else if not auto_wake
      then (err not_reachable, s, [])
      else let woken = wake_device env.repository env.hooks env.words s device.id wake_options in
        elim woken.failure [
          | some e ↦ (err (wake_failed e), woken.store, woken.events)
          | none ↦
              (wait_until_reachable profile.host profile.verify_port, woken.store, woken.events)
        ]
