-- ===== src/Wake/Routes.antt =====
-- `ResolveRoute` of internal/wake/service.go: where a route comes from.
use wol.Prelude.{
  Bool-cases, Option-cases, Outcome-cases, arith, eqz, false, inl, inr, negsuc, ok, pos, refl, some,
  true, ℤ, ◌≡◌, ◌⊎◌,
}
use wol.Net.{parse_to4}
use wol.Store.{Device}
use wol.Text.{is_empty, trim_space}
use wol.Wake.{
  Plan, Repository, Route, Wording, broadcast_over, broadcast_route, broadcast_text, default_port,
  planned, relay_over, relay_route, resolve_route, wants_relay,
}
use wol.Wake.Service.{is_relay}

module _ {S : Type 0} (repo : Repository S) (words : Wording) (s : S) where
  -- a route over a relay that is registered and enabled
  abbrev pub ByRelay : Device → Plan → Route → Type 0
  ByRelay device p route =
      (wants_relay device p ≡ true)
      × (is_empty (trim_space p.relay_id) ≡ false)
      × (repo.get_wake_relay s p.relay_id ≡ ok route.relay)
      × (route.relay.enabled ≡ true)
      × (is_relay route ≡ true)

  -- a broadcast to the address that the plan names, or to 255.255.255.255
  abbrev pub ByBroadcast : Device → Plan → Route → Type 0
  ByBroadcast device p route =
      (wants_relay device p ≡ false)
      × (parse_to4 words.ipv6 (broadcast_text p.destination) ≡ some route.destination)
      × (route.interface ≡ p.interface)
      × (is_relay route ≡ false)

  relay_route-ByRelay :
      (device : Device) (p : Plan) (route : Route)
      → wants_relay device p ≡ true
      → relay_route repo words s p ≡ ok route
      → ByRelay device p route × (route.port ≡ default_port p.port)
  unfolding relay_route relay_over is_relay
  relay_route-ByRelay device p route w h = elim (Bool-cases (is_empty (trim_space p.relay_id))) [
    | inl y ↦ absurd (ground arith)
    | inr n ↦ elim (Outcome-cases (repo.get_wake_relay s p.relay_id)) [
      | inr (e, r) ↦ absurd (ground arith)
      | inl (found, r) ↦ elim (Bool-cases found.enabled) [
        | inl on ↦
            let same : relay_over found p ≡ route = ground arith in
            rw (← same) ((w, n, r, on, refl), refl)
        | inr off ↦ absurd (ground arith)
      ]
    ]
  ]

  broadcast_route-ByBroadcast :
      (device : Device) (p : Plan) (route : Route)
      → wants_relay device p ≡ false
      → broadcast_route repo words p ≡ ok route
      → ByBroadcast device p route × (route.port ≡ default_port p.port)
  unfolding broadcast_route broadcast_over is_relay
  broadcast_route-ByBroadcast device p route w h =
      elim (Option-cases (parse_to4 words.ipv6 (broadcast_text p.destination))) [
        | inl e ↦ absurd (ground arith)
        | inr (ip, e) ↦
            let same : broadcast_over ip p ≡ route = ground arith in
            rw (← same) ((w, e, refl, refl), refl)
      ]

  default_port_nonzero : (port : ℤ) → eqz (default_port port) (pos 0) ≡ false
  unfolding default_port
  default_port_nonzero (pos n) = ground arith
  default_port_nonzero (negsuc n) = refl

  -- A route that `ResolveRoute` returns never has the port 0. Either it goes over a relay, which
  -- is then wanted, named, registered under that name and enabled, or no relay is wanted and it
  -- goes to the IPv4 address that the plan's broadcast text parses to.
  pub resolve_route_sound :
      (device : Device) (route : Route)
      → resolve_route repo words s device ≡ ok route
      → (p : Plan) × (planned repo words s device ≡ ok p)
        × (eqz route.port (pos 0) ≡ false)
        × (ByRelay device p route ⊎ ByBroadcast device p route)
  unfolding resolve_route
  resolve_route_sound device route h = elim (Outcome-cases (planned repo words s device)) [
    | inr (e, q) ↦ absurd (ground arith)
    | inl (p, q) ↦ elim (Bool-cases (wants_relay device p)) [
      | inl w ↦
          let (r, e) = relay_route-ByRelay device p route w (ground arith) in
          (p, q, rw e (default_port_nonzero p.port), inl r)
      | inr w ↦
          let (r, e) = broadcast_route-ByBroadcast device p route w (ground arith) in
          (p, q, rw e (default_port_nonzero p.port), inr r)
    ]
  ]
