-- ===== src/Wake/Conduct.antt =====
-- What a caller of `WakeDevice` can rely on, for every repository and every network.
use wol.Prelude.{
  All, All-append, Bool-cases, IsPort, List, [], arith, err, inl, inr, no_port-IsPort, none, ok,
  refl, some, true, ℕ, ◌&&◌, ◌++◌, ◌||◌, ◌↔◌, ◌∙◌, ◌∷◌, ◌≡◌, ◌⊎◌,
}
use wol.Packet.{parse_mac}
use wol.Store.{Device, WakeAttempt}
use wol.Text.{Text, codes}
use wol.Wake.{
  Event, Hooks, Options, Repository, Route, StoreError, Wording, lookup_failed, probed, recorded,
  relay, relayed, resolve_route, sent,
}
use wol.Wake.Laws.{Rightful, delivered, records, unsent, wake_found-Course}
use wol.Wake.Service.{
  can_probe, deliver, direct_delivery, is_relay, probes, relay_delivery, send_request,
  verify_port_of, wake_device,
}

records-append :
    (es : List Event) (a : WakeAttempt) → records es ≡ [] → records (es ++ recorded a ∷ []) ≡ a ∷ []
unfolding records
records-append [] a h = refl
records-append (recorded b ∷ es) a h = cc
records-append (sent _ ∷ es) a h = records-append es a h
records-append (relayed _ _ ∷ es) a h = records-append es a h
records-append (probed _ _ ∷ es) a h = records-append es a h

probes-records : (options : Options) (device : Device) → records (probes options device) ≡ []
unfolding records probes
probes-records options device = elim (Bool-cases (options.verify && can_probe options device)) [
  | inl y ↦ rw (y, probes)
  | inr n ↦ rw (n, probes)
]

no_more :
    (ps : List Event) (options : Options) (device : Device)
    → (ps ≡ []) ⊎ (ps ≡ probes options device)
    → records ps ≡ []
unfolding records
no_more ps options device (inl e) = rw e
no_more ps options device (inr e) = rw e (probes-records options device)

is_relay_iff : (route : Route) → (is_relay route ≡ true) ↔ (route.kind ≡ relay)
unfolding is_relay
is_relay_iff route = ground arith

module _ {S : Type 0} (repo : Repository S) (hooks : Hooks) (words : Wording) (s : S) where
  event-records :
      (route : Route) (options : Options) (mac : List ℕ) (ps : List Event)
      → records ((deliver hooks words route options mac).event ∷ ps) ≡ records ps
  unfolding deliver relay_delivery direct_delivery records
  event-records route options mac ps = elim (Bool-cases (is_relay route)) [
    | inl y ↦ rw (y, deliver)
    | inr n ↦ rw (n, deliver)
  ]

  -- how one recorded attempt stands to the device and to what was sent
  record Account (device : Device) (options : Options) (a : WakeAttempt) : Type 0 where
    target : a.target_id ≡ device.id
    packet :
        a.packet_status ≡ codes "sent"
        → (route : Route) × (mac : List ℕ) × (resolve_route repo words s device ≡ ok route)
          × (parse_mac device.mac_address ≡ ok mac)
          × ((deliver hooks words route options mac).failure ≡ none)
          × (a.packets ≡ (deliver hooks words route options mac).packets)
    probe :
        a.verification_status ≡ codes "reachable"
        → (options.verify ≡ true)
          × (hooks.verify device.ip_address (verify_port_of options device) options.timeout ≡ none)

  wake_device-Account :
      (device_id : Text) (options : Options) (device : Device)
      → repo.get_device s device_id ≡ ok device
      → (a : WakeAttempt) × (records (wake_device repo hooks words s device_id options).events
          ≡ a ∷ [])
        × Account device options a
  unfolding wake_device
  wake_device-Account device_id options device found =
      rw (found, wake_device)
        (elim (wake_found-Course repo hooks words s device options) [
          | unsent a t p v e ↦ (
            a,
            rw e (unfold records in refl),
            record { target = t; packet = λ x. cc (p, x); probe = λ x. cc (v, x) },
          )
          | delivered route mac a ps allowed r m h q e ↦ (
            a,
            rw e (
                event-records route options mac _
                ∙ records-append ps a (no_more ps options device q)),
            record {
              target = h.target;
              packet = λ x. (route, mac, r, m, h.packet x, h.count);
              probe = h.probe;
            },
          )
        ])

  Account-of :
      (device_id : Text) (options : Options) (device : Device) (a : WakeAttempt)
      → repo.get_device s device_id ≡ ok device
      → records (wake_device repo hooks words s device_id options).events ≡ a ∷ []
      → Account device options a
  Account-of device_id options device a found one =
      let (b, e, h) = wake_device-Account device_id options device found in
      let same : a ≡ b = cc (e, one) in rw same h

  -- A wake of a device that is in the repository records exactly one attempt, on every path, and
  -- that attempt names the device.
  pub wake_device_one_record :
      (device_id : Text) (options : Options) (device : Device)
      → repo.get_device s device_id ≡ ok device
      → (a : WakeAttempt) × (records (wake_device repo hooks words s device_id options).events
          ≡ a ∷ [])
        × (a.target_id ≡ device.id)
  wake_device_one_record device_id options device found =
      let (a, e, h) = wake_device-Account device_id options device found in (a, e, h.target)

  -- If the one attempt that a wake records says "sent", then the route was resolved, the device's
  -- MAC text parsed, the hook that sends over that route reported no failure, and the attempt's
  -- packet count is the one that the hook reported.
  pub wake_device_sent :
      (device_id : Text) (options : Options) (device : Device) (a : WakeAttempt)
      → repo.get_device s device_id ≡ ok device
      → records (wake_device repo hooks words s device_id options).events ≡ a ∷ []
      → a.packet_status ≡ codes "sent"
      → (route : Route) × (mac : List ℕ) × (resolve_route repo words s device ≡ ok route)
        × (parse_mac device.mac_address ≡ ok mac)
        × ((deliver hooks words route options mac).failure ≡ none)
        × (a.packets ≡ (deliver hooks words route options mac).packets)
  wake_device_sent device_id options device a found one =
      (Account-of device_id options device a found one).packet

  -- If the one attempt that a wake records says "reachable", then a verification was asked for and
  -- the probe of the device's address succeeded.
  pub wake_device_reachable :
      (device_id : Text) (options : Options) (device : Device) (a : WakeAttempt)
      → repo.get_device s device_id ≡ ok device
      → records (wake_device repo hooks words s device_id options).events ≡ a ∷ []
      → a.verification_status ≡ codes "reachable"
      → (options.verify ≡ true)
        × (hooks.verify device.ip_address (verify_port_of options device) options.timeout ≡ none)
  wake_device_reachable device_id options device a found one =
      (Account-of device_id options device a found one).probe

  deliver-Rightful :
      (device : Device) (options : Options) (route : Route) (mac : List ℕ)
      → (device.enabled || options.force) ≡ true
      → resolve_route repo words s device ≡ ok route
      → parse_mac device.mac_address ≡ ok mac
      → Rightful repo hooks words s device options (deliver hooks words route options mac).event
  unfolding deliver relay_delivery direct_delivery send_request
  deliver-Rightful device options route mac allowed r m = elim (Bool-cases (is_relay route)) [
    | inl y ↦ rw (y, deliver) (m, allowed, (route, r, (is_relay_iff route).0 y, refl))
    | inr n ↦
        rw (n, deliver)
          (m, allowed, (route, r, (λ k. cc ((is_relay_iff route).1 k, n)), refl, refl, refl))
  ]

  can_probe-IsPort :
      (options : Options) (device : Device)
      → can_probe options device ≡ true
      → IsPort (verify_port_of options device)
  unfolding can_probe
  can_probe-IsPort options device h = no_port-IsPort _ (ground arith)

  probes-Rightful :
      (options : Options) (device : Device)
      → All (Rightful repo hooks words s device options) (probes options device)
  unfolding probes
  probes-Rightful options device = elim (Bool-cases (options.verify && can_probe options device)) [
    | inl y ↦
        rw (y, probes) ((ground arith, refl, can_probe-IsPort options device (ground arith)), tt)
    | inr n ↦ rw (n, probes) tt
  ]

  Rightful-probes :
      (ps : List Event) (options : Options) (device : Device)
      → (ps ≡ []) ⊎ (ps ≡ probes options device)
      → All (Rightful repo hooks words s device options) ps
  Rightful-probes ps options device (inl e) = rw e tt
  Rightful-probes ps options device (inr e) = rw e (probes-Rightful options device)

  -- A wake of a device does nothing but what is due: a packet carries the address that the
  -- device's MAC text parses to, and goes by the route that `ResolveRoute` found: over its relay if
  -- it is a route by relay, else to its destination, port and interface; it is sent only for a
  -- device that is enabled or forced. A probe goes to the device's address and a port in range,
  -- only if it was asked for; and each record is of the device.
  pub wake_device-Rightful :
      (device_id : Text) (options : Options) (device : Device)
      → repo.get_device s device_id ≡ ok device
      → All
          (Rightful repo hooks words s device options)
          (wake_device repo hooks words s device_id options).events
  unfolding wake_device
  wake_device-Rightful device_id options device found =
      rw (found, wake_device)
        (elim (wake_found-Course repo hooks words s device options) [
          | unsent a t p v e ↦ rw e (t, tt)
          | delivered route mac a ps allowed r m h q e ↦ rw e (
            deliver-Rightful device options route mac allowed r m,
            All-append _ ps (recorded a ∷ []) (Rightful-probes ps options device q) (h.target, tt),
          )
        ])

  -- Without the device nothing is sent or recorded, and the repository stays as it is.
  pub wake_device_missing :
      (device_id : Text) (options : Options) (e : StoreError)
      → repo.get_device s device_id ≡ err e
      → ((wake_device repo hooks words s device_id options).events ≡ [])
        × ((wake_device repo hooks words s device_id options).store ≡ s)
        × ((wake_device repo hooks words s device_id options).failure ≡ some (lookup_failed e))
  unfolding wake_device
  wake_device_missing device_id options e missing = rw (missing, wake_device) (refl, refl, refl)
