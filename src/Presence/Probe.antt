-- ===== src/Presence/Probe.antt =====
-- `Probe`, `ProbeBatch` and `sweepTCP` of internal/presence/presence.go.
use wol.Prelude.{
  Bool, List, Option, [], all, any, eqz, err, false, if◌then◌else◌, no_port, none, not, ok, pos,
  some, suc, true, ℕ, ℤ, ◌&&◌, ◌++◌, ◌||◌, ◌∷◌,
}
use wol.Net.{Ip, ipv4_string, to4}
use wol.Presence.{
  Answer, Detector, Method, Note, Radio, Result, Status, Summary, Target, answered, arp, cached_arp,
  connected, icmp, is_connection_refused, is_host_unreachable, is_nil, is_unreachable, no_access,
  no_answer, no_method, nothing, offline, online, ping_timeout, probe_timeout, refused,
  refused_target, share, silent, summarize, tcp_refused, tcp_sweep, tcp_verify, unreachable,
  unreported, validate_target_ip,
}
use wol.Text.{Text}

module _ (radio : Radio) where
  unfoldable pub probe_tcp : Text → ℕ → ℤ → Answer
  probe_tcp host timeout port = elim (radio.dial host port timeout) [
    | none ↦ connected
    | some e ↦
        if is_connection_refused e
        then refused
        else if is_host_unreachable e
        then unreachable
        else nothing
  ]

  -- the answers that reach the end of a sweep
  unfoldable pub reports : Text → ℕ → List ℤ → List Answer
  reports host timeout [] = []
  reports host timeout (p ∷ ports) =
      let rest = reports host timeout ports in
      let a = probe_tcp host timeout p in
      if radio.skips p || (not (answered a) && radio.loses p) then rest else a ∷ rest

  unfoldable pub sweep_tcp : Text → ℕ → List ℤ → List Answer
  sweep_tcp host timeout ports =
      if is_nil ports || radio.probe_done 0 then [] else reports host timeout ports

  -- the probe of the port that the target configures
  unfoldable pub verify_probe : Text → ℕ → ℤ → List Answer
  verify_probe host timeout port =
      if no_port port then [] else probe_tcp host (share timeout 3 500000000) port ∷ []

  unfoldable pub host_text : Ip → Text
  host_text ip = elim (to4 ip) [ some v4 ↦ ipv4_string v4 | none ↦ radio.ipv6_text ip ]

  unfoldable pub result : Target → Status → Method → Note → Result
  result target status method message = record {
    device_id = target.device_id;
    ip_address = target.ip_address;
    status = status;
    method = method;
    latency = radio.elapsed;
    checked_at = radio.checked_at;
    cached = false;
    message = message;
  }

  unfoldable pub ping_reply : Text → Option ℤ
  ping_reply host =
      if radio.probe_done 1 then none else radio.ping host (ping_timeout radio.remaining)

  -- the end of a probe that no one answered; `cut` says that no TCP packet left the host
  unfoldable pub silent_result : Target → Text → Bool → Result
  silent_result target host cut =
      if cut && not (radio.probe_done 2) && radio.neighbor host
      then record (result target unreported arp cached_arp) { cached = true }
      else if cut || radio.caller_done
      then result target unreported no_method no_access
      else result target offline no_method no_answer

  -- a probe behind the TCP stages, with the answers that they had
  unfoldable pub ping_stage : Target → Text → List Answer → Result
  ping_stage target host answers = elim (ping_reply host) [
    | some latency ↦ record (result target online icmp silent) {
      latency = if eqz latency (pos 0) then radio.elapsed else latency;
    }
    | none ↦ silent_result target host (not (is_nil answers) && all is_unreachable answers)
  ]

  unfoldable pub sweep_stage : List ℤ → Target → Text → ℕ → List Answer → Result
  sweep_stage ports target host timeout first =
      let answers = sweep_tcp host (share timeout 2 800000000) ports in
      if any answered answers
      then result target online tcp_sweep silent
      else ping_stage target host (first ++ answers)

  unfoldable pub verify_stage : List ℤ → Target → Text → ℕ → Result
  verify_stage ports target host timeout = elim (verify_probe host timeout target.verify_port) [
    | connected ∷ _ ↦ result target online tcp_verify silent
    | refused ∷ _ ↦ result target online tcp_refused silent
    | unreachable ∷ _ ↦ sweep_stage ports target host timeout (unreachable ∷ [])
    | nothing ∷ _ ↦ sweep_stage ports target host timeout (nothing ∷ [])
    | [] ↦ sweep_stage ports target host timeout []
  ]

  unfoldable pub probe : Detector → Target → ℤ → Result
  probe d target timeout = elim (validate_target_ip radio.ipv6 d.allow_loopback target.ip_address) [
    | err e ↦ record (result target unreported no_method (refused_target e)) { latency = pos 0 }
    | ok ip ↦ verify_stage d.tcp_ports target (host_text ip) (probe_timeout timeout)
  ]

-- The workers of a batch write one result for each target; each probe meets a radio of its own.
unfoldable pub probe_from : (ℕ → Radio) → Detector → ℤ → ℕ → List Target → List Result
probe_from radios d timeout k [] = []
probe_from radios d timeout k (target ∷ targets) =
    probe (radios k) d target timeout ∷ probe_from radios d timeout (suc k) targets

unfoldable pub probe_batch : (ℕ → Radio) → Detector → List Target → ℤ → List Result × Summary
probe_batch radios d targets timeout =
    let results = probe_from radios d timeout 0 targets in (results, summarize results)
