-- ===== src/Packet/Send/Laws.antt =====
-- What `Send` puts on the wire, on every path.
use wol.Prelude.{
  All, All-append, All-map, Bool-cases, IsPort, IsPort-no_port, List, Option, Option-cases,
  Outcome-cases, [], ap, arith, false, inl, inr, length, length-append, lez, ltb, ltz, negsuc,
  no_port, no_port-IsPort, none, ok, pos, refl, some, suc, sym, true, zero, ℕ, ℤ, ◌&&◌, ◌++◌, ◌+◌,
  ◌∙◌, ◌∷◌, ◌≡◌, ◌≢◌, ◌≤◌,
}
use wol.Net.{Ip, to4}
use wol.Packet.{
  WolError, bad_port, build_magic_packet, cancelled, destination_not_ipv4, negative_interval,
  socket_failed, write_failed,
}
use wol.Packet.Magic.{IsStation, build_magic_packet-layout, magic_packet}
use wol.Packet.Send.{
  Network, SendRequest, SendResult, Sent, count_packet, effective_repeat, interface_warning,
  ipv4_zero, local_ipv4, no_result, send, send_loop, send_on,
}
use wol.Text.{Text}

-- Each datagram on the wire is the given packet, and each is counted.
pub record Counted (packet : List ℕ) (r : SendResult) (wire : List (List ℕ)) : Type 0 where
  pub counted : length wire ≡ r.packets
  pub same : All (λ d. d ≡ packet) wire

count_packet-Counted :
    (packet : List ℕ) (r : SendResult) (n : ℕ) (wire : List (List ℕ))
    → Counted packet r wire
    → Counted packet (count_packet r n) (wire ++ packet ∷ [])
unfolding count_packet
count_packet-Counted packet r n wire c = record {
  counted = omega (arith, length-append wire (packet ∷ []), c.counted);
  same = All-append _ wire (packet ∷ []) c.same (refl, tt);
}

module _ (net : Network) (packet : List ℕ) (repeats : ℕ) (interval : ℤ) where
  abbrev run : ℕ → ℕ → SendResult → List (List ℕ) → Sent
  run = send_loop net packet repeats interval

  -- one round, as a case distinction
  data Round (left i : ℕ) (r : SendResult) (wire : List (List ℕ)) (s : Sent) : Type 0 where
    stopped :
        (e : WolError)
        → s ≡ record { result = r; failure = some e; wire = wire }
        → Round left i r wire s
    paused :
        (n : ℕ)
        → s ≡ record {
          result = count_packet r n;
          failure = some cancelled;
          wire = wire ++ packet ∷ [];
        }
        → Round left i r wire s
    went_on :
        (n : ℕ)
        → net.writes i ≡ some n
        → s ≡ run left (suc i) (count_packet r n) (wire ++ packet ∷ [])
        → Round left i r wire s

  Round-cases :
      (left i : ℕ) (r : SendResult) (wire : List (List ℕ))
      → Round left i r wire (run (suc left) i r wire)
  unfolding send_loop
  Round-cases left i r wire = elim (Bool-cases (net.done_before i)) [
    | inl e ↦ stopped cancelled (rw e)
    | inr e ↦ elim (Option-cases (net.writes i)) [
      | inl f ↦ stopped write_failed (rw (e, f))
      | inr (n, f) ↦
          elim (Bool-cases (ltb (suc i) repeats && ltz (pos 0) interval && net.done_waiting i)) [
            | inl g ↦ paused n (rw (e, f, g))
            | inr g ↦ went_on n f (rw (e, f, g))
          ]
    ]
  ]

  -- The loop keeps the count, and makes at most the rounds that are left.
  abbrev Fine : ℕ → SendResult → Sent → Type 0
  Fine left r s =
      Counted packet s.result s.wire
      × (s.result.packets ≤ r.packets + left)
      × (s.failure ≡ none → s.result.packets ≡ r.packets + left)

  send_loop-Fine :
      (left i : ℕ) (r : SendResult) (wire : List (List ℕ))
      → Counted packet r wire
      → Fine left r (run left i r wire)
  unfolding count_packet
  send_loop-Fine zero i r wire c = unfold send_loop in (c, omega arith, λ _. omega arith)
  send_loop-Fine (suc left) i r wire c = elim (Round-cases left i r wire) [
    | stopped e h ↦ rw h (c, omega arith, λ n. cc n)
    | paused n h ↦ rw h (count_packet-Counted packet r n wire c, omega arith, λ f. cc f)
    | went_on n w h ↦
        let (c', le, all_sent) =
          send_loop-Fine left (suc i) (count_packet r n) (wire ++ packet ∷ [])
            (count_packet-Counted packet r n wire c) in
        rw h (c', omega (arith, le), λ f. omega (arith, all_sent f))
  ]

  -- When no write fails and the context is never done, the loop does not fail.
  send_loop-none :
      (left i : ℕ) (r : SendResult) (wire : List (List ℕ))
      → ((k : ℕ) → net.done_before k ≡ false)
      → ((k : ℕ) → net.done_waiting k ≡ false)
      → ((k : ℕ) → net.writes k ≢ none)
      → (run left i r wire).failure ≡ none
  unfolding send_loop
  send_loop-none zero i r wire a b w = refl
  send_loop-none (suc left) i r wire a b w = elim (Option-cases (net.writes i)) [
    | inl f ↦ absurd (w i f)
    | inr (n, f) ↦
        let ih = send_loop-none left (suc i) (count_packet r n) (wire ++ packet ∷ []) a b w in
        ground (arith, a i, b i, ih)
  ]

abbrev start : Ip → ℤ → Option Text → SendResult
start ip port warning = record {
  destination = ip;
  port = port;
  packets = 0;
  bytes = 0;
  warning = warning;
}

-- How `Send` ends: a check refuses the request, or the loop runs over a packet that was built.
data SendPath (net : Network) (req : SendRequest) (s : Sent) : Type 0 where
  refused :
      (e : WolError)
      → s ≡ record { result = no_result; failure = some e; wire = [] }
      → SendPath net req s
  looped :
      (ip : Ip) (packet : List ℕ) (warning : Option Text)
      → to4 req.destination ≡ some ip
      → build_magic_packet req.mac ≡ ok packet
      → no_port req.port ≡ false
      → s
        ≡ send_loop net packet
            (effective_repeat req.repeats)
            req.interval
            (effective_repeat req.repeats)
            0
            (start ip req.port warning)
            []
      → SendPath net req s

send_on-path :
    (net : Network) (req : SendRequest) (ip : Ip) (packet : List ℕ)
    → to4 req.destination ≡ some ip
    → build_magic_packet req.mac ≡ ok packet
    → no_port req.port ≡ false
    → SendPath net req (send_on net req ip packet)
unfolding send_on
send_on-path net req ip packet ei eb ep =
    let local : Ip = elim (local_ipv4 net req.interface) [ some a ↦ a | none ↦ ipv4_zero ] in
    elim (Bool-cases (net.listens local)) [
      | inl e ↦
          looped ip packet (interface_warning (local_ipv4 net req.interface) req.interface) ei eb ep
            (rw (e, send_on))
      | inr e ↦ refused socket_failed (rw (e, send_on))
    ]

send-path : (net : Network) (req : SendRequest) → SendPath net req (send net req)
unfolding send
send-path net req = elim (Option-cases (to4 req.destination)) [
  | inl e ↦ refused destination_not_ipv4 (rw (e, send))
  | inr (ip, e) ↦ elim (Bool-cases (no_port req.port)) [
    | inl p ↦ refused bad_port (rw (e, p, send))
    | inr p ↦ elim (Bool-cases (ltz req.interval (pos 0))) [
      | inl n ↦ refused negative_interval (rw (e, p, n, send))
      | inr n ↦ elim (Outcome-cases (build_magic_packet req.mac)) [
        | inl (packet, b) ↦ rw (e, p, n, b, send) (send_on-path net req ip packet e b p)
        | inr (w, b) ↦ refused w (rw (e, p, n, b, send))
      ]
    ]
  ]
]

not_negative : (z : ℤ) → lez (pos 0) z ≡ true → ltz z (pos 0) ≡ false
not_negative (pos n) h = ground arith
not_negative (negsuc n) h = cc

-- what is true of every path at once
send_facts :
    (net : Network) (req : SendRequest)
    → let s = send net req in
      All (λ d. build_magic_packet req.mac ≡ ok d) s.wire
      × (length s.wire ≡ s.result.packets)
      × (s.result.packets ≤ effective_repeat req.repeats)
      × (s.failure ≡ none → s.result.packets ≡ effective_repeat req.repeats)
      × (s.wire ≢ [] → IsPort req.port)
send_facts net req = elim (send-path net req) [
  | refused e h ↦ rw h (tt, refl, omega arith, λ f. cc f, λ w. absurd (w refl))
  | looped ip packet warning ei eb ep h ↦
      let (c, le, done) =
        send_loop-Fine net packet (effective_repeat req.repeats) req.interval
          (effective_repeat req.repeats) 0 (start ip req.port warning) []
          (record { counted = refl; same = tt }) in
      rw h (
        All-map _ _ (λ (d : List ℕ) (e : d ≡ packet). eb ∙ ap ok (sym e)) _ c.same,
        c.counted,
        omega (arith, le),
        λ f. omega (arith, done f),
        λ _. no_port-IsPort req.port ep,
      )
]

-- For every request and every behaviour of the network: each datagram on the wire is the magic
-- packet of the request's address, and the result counts exactly the datagrams on the wire, which
-- are at most the effective number of repeats.
pub send_wire :
    (net : Network) (req : SendRequest)
    → All (λ d. build_magic_packet req.mac ≡ ok d) (send net req).wire
      × (length (send net req).wire ≡ (send net req).result.packets)
      × ((send net req).result.packets ≤ effective_repeat req.repeats)
send_wire net req = let (same, counted, few, _, _) = send_facts net req in (same, counted, few)

repeats_none : (r : ℤ) (wire : List (List ℕ)) → wire ≡ [] → length wire ≢ effective_repeat r
unfolding effective_repeat
repeats_none (pos n) [] e h = absurd (ground arith)
repeats_none (negsuc n) [] e h = absurd (ground arith)
repeats_none r (w ∷ ws) e h = cc e

-- When no error is returned, all the repeats are on the wire, and the port is in range.
pub send_complete :
    (net : Network) (req : SendRequest)
    → (send net req).failure ≡ none
    → (length (send net req).wire ≡ effective_repeat req.repeats) × IsPort req.port
send_complete net req f =
    let (_, counted, _, all_sent, port) = send_facts net req in
    let whole : length (send net req).wire ≡ effective_repeat req.repeats =
      cc (counted, all_sent f) in
    (whole, port (λ e. repeats_none req.repeats _ e whole))

send_on-none :
    (net : Network) (req : SendRequest) (ip : Ip) (packet : List ℕ)
    → ((a : Ip) → net.listens a ≡ true)
    → ((k : ℕ) → net.done_before k ≡ false)
    → ((k : ℕ) → net.done_waiting k ≡ false)
    → ((k : ℕ) → net.writes k ≢ none)
    → (send_on net req ip packet).failure ≡ none
unfolding send_on
send_on-none net req ip packet l a b w = rw l (
    send_loop-none net packet (effective_repeat req.repeats) req.interval
      (effective_repeat req.repeats) 0 _ [] a b w)

send-none :
    (net : Network) (req : SendRequest) (ip : Ip)
    → IsStation req.mac
    → to4 req.destination ≡ some ip
    → IsPort req.port
    → lez (pos 0) req.interval ≡ true
    → (send net req).failure ≡ (send_on net req ip (magic_packet req.mac)).failure
unfolding send
send-none net req ip m d p i =
    let step : ltz req.interval (pos 0) ≡ false = not_negative req.interval i in
    rw (d, IsPort-no_port req.port p, step, build_magic_packet-layout req.mac m, send)

-- A request for a station address, an IPv4 destination and a port in range is sent in full, if the
-- interval is not negative, the sockets open, no write fails and the context is never done.
pub send_delivers :
    (net : Network) (req : SendRequest) (ip : Ip)
    → IsStation req.mac
    → to4 req.destination ≡ some ip
    → IsPort req.port
    → lez (pos 0) req.interval ≡ true
    → ((a : Ip) → net.listens a ≡ true)
    → ((k : ℕ) → net.done_before k ≡ false)
    → ((k : ℕ) → net.done_waiting k ≡ false)
    → ((k : ℕ) → net.writes k ≢ none)
    → ((send net req).failure ≡ none)
      × ((send net req).result.packets ≡ effective_repeat req.repeats)
send_delivers net req ip m d p i l a b w =
    let whole =
      send-none net req ip m d p i ∙ send_on-none net req ip (magic_packet req.mac) l a b w in
    (whole, (send_facts net req).3 whole)
