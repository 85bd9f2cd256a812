-- ===== src/Wake/Laws.antt =====
-- What `WakeDevice` sends and records.
use wol.Prelude.{
  Bool, Bool-cases, IsPort, List, Option, Option-cases, Outcome-cases, [], arith, false, inl, inr,
  none, not, ok, refl, some, true, ℕ, ◌&&◌, ◌++◌, ◌||◌, ◌∷◌, ◌≡◌, ◌≢◌, ◌⊎◌,
}
use wol.Packet.{parse_mac}
use wol.Store.{Device, WakeAttempt}
use wol.Text.{Text, codes}
use wol.Wake.{
  Event, Hooks, Options, Repository, Route, WakeError, Wording, bad_mac, device_disabled, no_route,
  probed, recorded, relay, relayed, resolve_route, sent,
}
use wol.Wake.Service.{
  Delivery, can_probe, deliver, failed_attempt, finish, probes, record_failure, sending_attempt,
  unavailable_message, verified, verify_port_of, wake_by, wake_found,
}

-- the attempts recorded
unfoldable pub records : List Event → List WakeAttempt
records [] = []
records (recorded a ∷ es) = a ∷ records es
records (sent _ ∷ es) = records es
records (relayed _ _ ∷ es) = records es
records (probed _ _ ∷ es) = records es

base_target :
    (device : Device) (route : Route) (options : Options)
    → (sending_attempt device route options).target_id ≡ device.id
unfolding sending_attempt
base_target device route options = refl

base_status :
    (device : Device) (route : Route) (options : Options)
    → (sending_attempt device route options).verification_status ≡ codes "not_requested"
unfolding sending_attempt
base_status device route options = refl

module _ {S : Type 0} (repo : Repository S) (hooks : Hooks) (words : Wording) (s : S) where
  finish-events :
      (a : WakeAttempt) (device : Device) (route : Route) (d d' : Text) (f : Option WakeError)
      (es : List Event)
      → (finish repo hooks words s a device route d d' f es).events ≡ es ++ recorded a ∷ []
  unfolding finish
  finish-events a device route d d' f es = elim (Outcome-cases (repo.record_wake_attempt s a).0) [
    | inl (k, e) ↦ rw (e, finish)
    | inr (w, e) ↦ rw (e, finish)
  ]

  -- What is true of the attempt that is recorded behind a send.
  pub record Honest (device : Device) (options : Options) (d : Delivery) (a : WakeAttempt)
      : Type 0 where
    pub target : a.target_id ≡ device.id
    pub packet : a.packet_status ≡ codes "sent" → d.failure ≡ none
    pub count : a.packets ≡ d.packets
    pub probe :
        a.verification_status ≡ codes "reachable"
        → (options.verify ≡ true)
          × (hooks.verify device.ip_address (verify_port_of options device) options.timeout ≡ none)

  -- The two courses of a wake: nothing is sent and a failure is recorded, or one packet is sent by
  -- the resolved route to the parsed address, then perhaps a probe, then one record.
  pub data Course (device : Device) (options : Options) : List Event → Type 0 where
    unsent :
        {es : List Event} (a : WakeAttempt)
        → a.target_id ≡ device.id
        → a.packet_status ≡ codes "failed"
        → a.verification_status ≡ codes "not_requested"
        → es ≡ recorded a ∷ []
        → Course device options es
    delivered :
        {es : List Event} (route : Route) (mac : List ℕ) (a : WakeAttempt) (ps : List Event)
        → (device.enabled || options.force) ≡ true
        → resolve_route repo words s device ≡ ok route
        → parse_mac device.mac_address ≡ ok mac
        → Honest device options (deliver hooks words route options mac) a
        → (ps ≡ []) ⊎ (ps ≡ probes options device)
        → es ≡ (deliver hooks words route options mac).event ∷ (ps ++ recorded a ∷ [])
        → Course device options es

  failed_target :
      (device : Device) (route : Route) (options : Options) (e : WakeError)
      → (failed_attempt device route options (words.wake_text e)).target_id ≡ device.id
  unfolding failed_attempt
  failed_target device route options e = refl

  failed_packet :
      (device : Device) (route : Route) (options : Options) (e : WakeError)
      → (failed_attempt device route options (words.wake_text e)).packet_status ≡ codes "failed"
  unfolding failed_attempt
  failed_packet device route options e = refl

  failed_status :
      (device : Device) (route : Route) (options : Options) (e : WakeError)
      → (failed_attempt device route options (words.wake_text e)).verification_status
        ≡ codes "not_requested"
  unfolding failed_attempt
  failed_status device route options e = refl

  failure-Course :
      (device : Device) (route : Route) (options : Options) (e : WakeError)
      → Course device options (record_failure repo hooks words s device route options e).events
  unfolding record_failure
  failure-Course device route options e =
      unsent (failed_attempt device route options (words.wake_text e))
        (failed_target device route options e) (failed_packet device route options e)
        (failed_status device route options e) (finish-events _ device route [] [] (some e) [])

  not-false : (a b : Bool) → (not a && not b) ≡ false → (a || b) ≡ true
  not-false a b h = ground arith

  -- the cases of the verification
  data Verdict (device : Device) (options : Options) (a b : WakeAttempt) : Type 0 where
    kept : b ≡ a → Verdict device options a b
    changed :
        (status message : Text)
        → status ≢ codes "reachable"
        → b ≡ record a { verification_status = status; message = message }
        → Verdict device options a b
    reached :
        options.verify ≡ true
        → hooks.verify device.ip_address (verify_port_of options device) options.timeout ≡ none
        → b ≡ record a { verification_status = codes "reachable" }
        → Verdict device options a b

  verified-Verdict :
      (device : Device) (options : Options) (a : WakeAttempt)
      → Verdict device options a (verified hooks words options device a)
  unfolding verified
  verified-Verdict device options a = elim (Bool-cases options.verify) [
    | inr n ↦ kept (simp n)
    | inl y ↦ elim (Bool-cases (can_probe options device)) [
      | inr n ↦
          changed (codes "unavailable") (unavailable_message a.message) (λ x. cc x)
            (simp (y, n) refl)
      | inl c ↦
          elim (Option-cases
            (hooks.verify device.ip_address (verify_port_of options device) options.timeout)) [
              | inl o ↦ reached y o (simp (y, c, o))
              | inr (w, o) ↦
                  changed (codes "timeout") (words.wol_text w) (λ x. cc x) (simp (y, c, o))
            ]
    ]
  ]

  verified-Honest :
      (device : Device) (options : Options) (d : Delivery) (a : WakeAttempt)
      → a.target_id ≡ device.id
      → a.packets ≡ d.packets
      → d.failure ≡ none
      → a.verification_status ≡ codes "not_requested"
      → Honest device options d (verified hooks words options device a)
  verified-Honest device options d a t p f v = elim (verified-Verdict device options a) [
    | kept e ↦ rw e (record { target = t; packet = λ _. f; count = p; probe = λ r. cc (r, v) })
    | changed status message ne e ↦
        rw e (record { target = t; packet = λ _. f; count = p; probe = λ r. absurd (ne r) })
    | reached y o e ↦ rw e (record { target = t; packet = λ _. f; count = p; probe = λ _. (y, o) })
  ]

  wake_by-Course :
      (device : Device) (route : Route) (options : Options) (mac : List ℕ)
      → (device.enabled || options.force) ≡ true
      → resolve_route repo words s device ≡ ok route
      → parse_mac device.mac_address ≡ ok mac
      → Course device options (wake_by repo hooks words s device route options mac).events
  unfolding wake_by
  wake_by-Course device route options mac allowed r m =
      let d = deliver hooks words route options mac in
      let base = sending_attempt device route options in
      elim (Option-cases d.failure) [
        | inr (e, f) ↦
            let attempt = record base {
              packet_status = codes "failed";
              message = words.wake_text e;
              packets = d.packets;
            } in
            delivered route mac attempt [] allowed r m
              (record {
                target = base_target device route options;
                packet = λ x. cc x;
                count = refl;
                probe = λ x. cc (x, base_status device route options);
              })
              (inl refl) (rw (f, wake_by) (finish-events _ device route _ _ _ (d.event ∷ [])))
        | inl f ↦
            let attempt = record base {
              packet_status = codes "sent";
              packets = d.packets;
              message = d.detail;
            } in
            delivered route mac (verified hooks words options device attempt)
              (probes options device) allowed r m
              (verified-Honest device options d attempt (base_target device route options) refl f
                (base_status device route options))
              (inr refl)
              (rw (f, wake_by)
                (finish-events _ device route _ _ _ (d.event ∷ probes options device)))
      ]

  -- Every course of `WakeDevice` for a device that is found.
  pub wake_found-Course :
      (device : Device) (options : Options)
      → Course device options (wake_found repo hooks words s device options).events
  unfolding wake_found
  wake_found-Course device options = elim (Bool-cases (not device.enabled && not options.force)) [
    | inl off ↦ rw (off, wake_found) (failure-Course device no_route options device_disabled)
    | inr on ↦ elim (Outcome-cases (resolve_route repo words s device)) [
      | inr (e, r) ↦ rw (on, r, wake_found) (failure-Course device no_route options e)
      | inl (route, r) ↦ elim (Outcome-cases (parse_mac device.mac_address)) [
        | inr (e, m) ↦ rw (on, r, m, wake_found) (failure-Course device route options bad_mac)
        | inl (mac, m) ↦
            rw (on, r, m, wake_found)
              (wake_by-Course device route options mac (not-false device.enabled options.force on) r
                m)
      ]
    ]
  ]

  -- what may be sent for a device
  abbrev pub Rightful : Device → Options → Event → Type 0
  Rightful device options (sent req) =
      (parse_mac device.mac_address ≡ ok req.mac)
      × ((device.enabled || options.force) ≡ true)
      × ((route : Route) × (resolve_route repo words s device ≡ ok route)
          × (route.kind ≢ relay)
          × (req.destination ≡ route.destination)
          × (req.port ≡ route.port)
          × (req.interface ≡ route.interface))
  Rightful device options (relayed by mac) =
      (parse_mac device.mac_address ≡ ok mac)
      × ((device.enabled || options.force) ≡ true)
      × ((route : Route) × (resolve_route repo words s device ≡ ok route)
          × (route.kind ≡ relay)
          × (by ≡ route.relay))
  Rightful device options (probed ip port) =
      (options.verify ≡ true) × (ip ≡ device.ip_address) × IsPort port
  Rightful device options (recorded a) = a.target_id ≡ device.id
