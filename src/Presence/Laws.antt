-- ===== src/Presence/Laws.antt =====
-- On what grounds a probe of internal/presence reports a status.
use wol.Prelude.{
  Bool, Bool-cases, List, Option-cases, [], any, arith, false, inl, inr, no_port, none, not, ok,
  refl, some, true, ℕ, ℤ, ◌&&◌, ◌||◌, ◌∷◌, ◌≡◌, ◌⊎◌,
}
use wol.Net.{Ip}
use wol.Presence.{
  Answer, Detector, Radio, Status, Target, answered, connected, is_nil, nothing, offline, online,
  probe_timeout, refused, share, unreachable, unreported, validate_target_ip,
}
use wol.Presence.Probe.{
  host_text, ping_reply, ping_stage, probe, probe_tcp, reports, result, silent_result, sweep_stage,
  sweep_tcp, verify_probe, verify_stage,
}
use wol.Text.{Text}

module _ (radio : Radio) where
  reports-any :
      (host : Text) (timeout : ℕ) (ports : List ℤ)
      → any answered (reports radio host timeout ports) ≡ true
      → any (λ p. answered (probe_tcp radio host timeout p)) ports ≡ true
  unfolding reports
  reports-any host timeout [] h = h
  reports-any host timeout (p ∷ ports) h =
      let rest = reports-any host timeout ports in
      elim (Bool-cases (answered (probe_tcp radio host timeout p))) [
        | inl y ↦ ground (arith, y)
        | inr n ↦ ground (arith, n, rest)
      ]

  sweep_tcp-any :
      (host : Text) (timeout : ℕ) (ports : List ℤ)
      → any answered (sweep_tcp radio host timeout ports) ≡ true
      → any (λ p. answered (probe_tcp radio host timeout p)) ports ≡ true
  unfolding sweep_tcp
  sweep_tcp-any host timeout ports h = elim (Bool-cases (is_nil ports || radio.probe_done 0)) [
    | inl y ↦ cc (rw (y, sweep_tcp) at h)
    | inr n ↦ reports-any host timeout ports (rw (n, sweep_tcp) at h)
  ]

  -- The grounds of a status: someone answered a dial or the ping; or the caller still waits and
  -- neither the sweep nor the ping was answered; or nothing is claimed.
  module _ (d : Detector) (target : Target) (host : Text) (timeout : ℕ) where
    pub data Grounds : Status → Type 0 where
      by_verify :
          no_port target.verify_port ≡ false
          → answered (probe_tcp radio host (share timeout 3 500000000) target.verify_port) ≡ true
          → Grounds online
      by_sweep :
          any (λ p. answered (probe_tcp radio host (share timeout 2 800000000) p)) d.tcp_ports
            ≡ true
          → Grounds online
      by_ping : (latency : ℤ) → ping_reply radio host ≡ some latency → Grounds online
      by_silence :
          radio.caller_done ≡ false
          → any answered (sweep_tcp radio host (share timeout 2 800000000) d.tcp_ports) ≡ false
          → ping_reply radio host ≡ none
          → Grounds offline
      no_claim : Grounds unreported

    silent_result-Grounds :
        (cut : Bool)
        → any answered (sweep_tcp radio host (share timeout 2 800000000) d.tcp_ports) ≡ false
        → ping_reply radio host ≡ none
        → Grounds (silent_result radio target host cut).status
    unfolding silent_result result
    silent_result-Grounds cut quiet no_reply =
        elim (Bool-cases (cut && not (radio.probe_done 2) && radio.neighbor host)) [
          | inl y ↦ rw (y, silent_result) no_claim
          | inr n ↦ elim (Bool-cases (cut || radio.caller_done)) [
            | inl y ↦ rw (n, y, silent_result) no_claim
            | inr m ↦ rw (n, m, silent_result) (by_silence (ground arith) quiet no_reply)
          ]
        ]

    ping_stage-Grounds :
        (answers : List Answer)
        → any answered (sweep_tcp radio host (share timeout 2 800000000) d.tcp_ports) ≡ false
        → Grounds (ping_stage radio target host answers).status
    unfolding ping_stage result
    ping_stage-Grounds answers quiet = elim (Option-cases (ping_reply radio host)) [
      | inr (latency, r) ↦ rw (r, ping_stage) (by_ping latency r)
      | inl r ↦ rw (r, ping_stage) (silent_result-Grounds _ quiet r)
    ]

    sweep_stage-Grounds :
        (first : List Answer)
        → Grounds (sweep_stage radio d.tcp_ports target host timeout first).status
    unfolding sweep_stage result
    sweep_stage-Grounds first =
        elim (Bool-cases
          (any answered (sweep_tcp radio host (share timeout 2 800000000) d.tcp_ports))) [
            | inl y ↦ rw (y, sweep_stage) (by_sweep (sweep_tcp-any host _ d.tcp_ports y))
            | inr n ↦ rw (n, sweep_stage) (ping_stage-Grounds _ n)
          ]

    answer_cases :
        (a : Answer) → (a ≡ connected) ⊎ ((a ≡ refused) ⊎ ((a ≡ unreachable) ⊎ (a ≡ nothing)))
    answer_cases connected = inl refl
    answer_cases refused = inr (inl refl)
    answer_cases unreachable = inr (inr (inl refl))
    answer_cases nothing = inr (inr (inr refl))

    verify_stage-Grounds : Grounds (verify_stage radio d.tcp_ports target host timeout).status
    unfolding verify_stage verify_probe result answered
    verify_stage-Grounds = elim (Bool-cases (no_port target.verify_port)) [
      | inl y ↦ rw (y, verify_stage, verify_probe) (sweep_stage-Grounds [])
      | inr n ↦
          elim (answer_cases
            (probe_tcp radio host (share timeout 3 500000000) target.verify_port)) [
              | inl a ↦ rw (n, a, verify_stage, verify_probe) (by_verify n (rw a refl))
              | inr (inl a) ↦ rw (n, a, verify_stage, verify_probe) (by_verify n (rw a refl))
              | inr (inr (inl a)) ↦
                  rw (n, a, verify_stage, verify_probe) (sweep_stage-Grounds (unreachable ∷ []))
              | inr (inr (inr a)) ↦
                  rw (n, a, verify_stage, verify_probe) (sweep_stage-Grounds (nothing ∷ []))
            ]
    ]

  -- A probe of a target whose address is accepted reports it online only if a dial of its own port
  -- or of a swept port was answered, accepted or refused, or the ping was; and offline only if the
  -- caller still waits, no swept port answered and the ping had no reply.
  pub probe-Grounds :
      (d : Detector) (target : Target) (timeout : ℤ) (ip : Ip)
      → validate_target_ip radio.ipv6 d.allow_loopback target.ip_address ≡ ok ip
      → Grounds d target
          (host_text radio ip)
          (probe_timeout timeout)
          (probe radio d target timeout).status
  unfolding probe
  probe-Grounds d target timeout ip valid =
      rw (valid, probe) (verify_stage-Grounds d target (host_text radio ip) (probe_timeout timeout))
