-- ===== src/Desk/Conduct.antt =====
-- On what grounds `Open` of internal/remoteflow opens a session, and that its wait ends.
use wol.Prelude.{
  Bool, Bool-cases, List, Option-cases, Outcome, Outcome-cases, [], arith, err, false, inl, inr,
  ltb, none, not, ok, refl, suc, true, zero, ℕ, ℤ, ◌+◌, ◌<◌, ◌||◌, ◌≡◌, ◌≢◌, ◌≤◌,
}
use wol.Desk.Flow.{Clients, FlowError, Opened, open_remote, start_client}
use wol.Desk.Leaks.{opened}
use wol.Desk.Reach.{
  Surroundings, Waiting, ensure_reachable, out_of_rounds, ticked, wait_from, wait_until_reachable,
  wake_options,
}
use wol.Store.{Device, RemoteProfile}
use wol.Text.{Text, teq}
use wol.Text.Laws.{teq_iff}
use wol.Wake.{Event}
use wol.Wake.Service.{wake_device}

goes_on :
    (env : Waiting) (host : Text) (port : ℤ) (fuel round : ℕ)
    → env.reachable host port round ≡ false
    → wait_from env host port (suc fuel) round ≡ ok tt
    → wait_from env host port fuel (suc round) ≡ ok tt
unfolding wait_from
goes_on env host port fuel round down h = ground arith

-- the wait ends well only when some round found the port
wait_from-reachable :
    (env : Waiting) (host : Text) (port : ℤ) (fuel round : ℕ)
    → wait_from env host port fuel round ≡ ok tt
    → (k : ℕ) × (env.reachable host port k ≡ true)
unfolding wait_from
wait_from-reachable env host port zero round h = absurd (cc)
wait_from-reachable env host port (suc fuel) round h =
    elim (Bool-cases (env.reachable host port round)) [
      | inl up ↦ (round, up)
      | inr down ↦
          wait_from-reachable env host port fuel (suc round)
            (goes_on env host port fuel round down h)
    ]

-- Out of rounds means that the first round of them ticked.
ticks :
    (env : Waiting) (host : Text) (port : ℤ) (fuel round : ℕ)
    → wait_from env host port (suc fuel) round ≡ err out_of_rounds
    → env.ready round ≡ ticked
unfolding wait_from
ticks env host port fuel round h = ground arith

-- The wait for a port is over, one way or the other, by the first round in which the deadline or
-- the context is ready, when it is given that many rounds and one more.
pub wait_from-ends :
    (env : Waiting) (host : Text) (port : ℤ) (fuel round last : ℕ)
    → round ≤ last
    → last < round + fuel
    → env.ready last ≢ ticked
    → wait_from env host port fuel round ≢ err out_of_rounds
unfolding wait_from
wait_from-ends env host port zero round last a b done = absurd (omega arith)
wait_from-ends env host port (suc fuel) round last a b done = elim (Bool-cases (ltb round last)) [
  | inl before ↦ ground (arith, wait_from-ends env host port fuel (suc round) last)
  | inr at_last ↦
      let same : round ≡ last = ground arith in
      λ ended. done (rw (← same) (ticks env host port fuel round ended))
]

module _ {S : Type 0} (env : Surroundings S) (clients : Clients) (s : S) (device : Device) where
  -- what holds when a session was opened
  pub data Entitled (profile : RemoteProfile) (auto_wake : Bool) : Type 0 where
    was_up : env.first_probe profile.host profile.verify_port ≡ true → Entitled profile auto_wake
    was_woken :
        auto_wake ≡ true
        → (wake_device env.repository env.hooks env.words s device.id wake_options).failure ≡ none
        → (k : ℕ) → env.waiting.reachable profile.host profile.verify_port k ≡ true
        → Entitled profile auto_wake

  waited :
      (profile : RemoteProfile)
      → wait_until_reachable env profile.host profile.verify_port ≡ ok tt
      → wait_from env.waiting profile.host profile.verify_port env.rounds 0 ≡ ok tt
  unfolding wait_until_reachable
  waited profile h = ground arith

  ensure_reachable-Entitled :
      (profile : RemoteProfile) (auto_wake : Bool)
      → (ensure_reachable env s device profile auto_wake).0 ≡ ok tt
      → Entitled profile auto_wake
  unfolding ensure_reachable
  ensure_reachable-Entitled profile auto_wake h =
      elim (Bool-cases (env.first_probe profile.host profile.verify_port)) [
        | inl up ↦ was_up up
        | inr down ↦ elim (Bool-cases auto_wake) [
          | inr stay ↦ absurd (ground arith)
          | inl wake ↦
              elim (Option-cases
                (wake_device env.repository env.hooks env.words s device.id wake_options).failure) [
                  | inr (e, lost) ↦ absurd (ground arith)
                  | inl no_failure ↦
                      let (k, found) =
                        wait_from-reachable env.waiting profile.host profile.verify_port env.rounds
                          0 (waited profile (ground arith)) in
                      was_woken wake no_failure k found
                ]
        ]
      ]

  -- what a wake does: nothing, or the whole course of a wake that is allowed and needed
  pub data Woke (profile : RemoteProfile) (auto_wake : Bool) (events : List Event) : Type 0 where
    asleep : events ≡ [] → Woke profile auto_wake events
    called :
        auto_wake ≡ true
        → profile.enabled ≡ true
        → profile.device_id ≡ device.id
        → env.first_probe profile.host profile.verify_port ≡ false
        → events ≡ (wake_device env.repository env.hooks env.words s device.id wake_options).events
        → Woke profile auto_wake events

  -- what holds of what `Open` returns
  unfoldable pub Conduct : RemoteProfile → Bool → Outcome FlowError Opened × S × List Event → Type 0
  Conduct profile auto_wake (ok opened, store, events) =
      (profile.enabled ≡ true)
      × (profile.device_id ≡ device.id)
      × Entitled profile auto_wake
      × Woke profile auto_wake events
  Conduct profile auto_wake (err e, store, events) = Woke profile auto_wake events

  ensure_reachable-Woke :
      (profile : RemoteProfile) (auto_wake : Bool)
      → profile.enabled ≡ true
      → profile.device_id ≡ device.id
      → Woke profile auto_wake (ensure_reachable env s device profile auto_wake).2
  unfolding ensure_reachable
  ensure_reachable-Woke profile auto_wake on own =
      elim (Bool-cases (env.first_probe profile.host profile.verify_port)) [
        | inl up ↦ asleep (ground (arith, up))
        | inr down ↦ elim (Bool-cases auto_wake) [
          | inr stay ↦ asleep (ground (arith, down, stay))
          | inl allowed ↦ called allowed on own down (ground (arith, down, allowed))
        ]
      ]

  -- `Open` gives a session to a client only for a profile that is enabled and belongs to the
  -- device, and only when the first probe found the port, or the caller allowed to wake the device,
  -- the wake did not fail, and a later probe found the port. And whether it opens a session or
  -- fails: it wakes the device, once, only if the caller allowed to, the profile is enabled and
  -- belongs to the device, and the first probe did not find the port; else nothing is sent.
  pub open_remote-Entitled :
      (profile : RemoteProfile) (auto_wake : Bool)
      → Conduct profile auto_wake (open_remote env clients s device profile auto_wake)
  unfolding open_remote Conduct
  open_remote-Entitled profile auto_wake =
      elim (Bool-cases (not profile.enabled || not (teq profile.device_id device.id))) [
        | inl barred ↦ rw (barred, open_remote, Conduct) (asleep refl)
        | inr fine ↦
            let on : profile.enabled ≡ true = ground (arith, fine) in
            let own : profile.device_id ≡ device.id =
              (teq_iff profile.device_id device.id).0 (ground (arith, fine)) in
            let woke = ensure_reachable-Woke profile auto_wake on own in
            elim (Outcome-cases (ensure_reachable env s device profile auto_wake).0) [
              | inr (e, lost) ↦ rw (fine, lost, open_remote, Conduct) woke
              | inl (u, reached) ↦
                  let entitled = ensure_reachable-Entitled profile auto_wake reached in
                  elim (Outcome-cases (start_client clients device profile)) [
                    | inr (e, broke) ↦ rw (fine, reached, broke, open_remote, Conduct) woke
                    | inl (opened, started_it) ↦
                        rw (fine, reached, started_it, open_remote, Conduct)
                          (on, own, entitled, woke)
                  ]
            ]
      ]
