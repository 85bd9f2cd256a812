-- ===== src/Examples/Probes.antt =====
-- internal/presence at a concrete input.
use wol.Prelude.{
  [], eqz, false, if◌then◌else◌, none, ok, pos, refl, replicate, some, true, ◌++◌, ◌∷◌, ◌≡◌,
}
use wol.Net.{Ip, looks_ipv6, octet, octets, parse_ip, parse_ipv4, to4}
use wol.Presence.{
  Detector, Radio, Target, first_byte, is_limited_broadcast, is_loopback, is_multicast,
  is_unspecified, parsed_target, probe_timeout, validate_target_ip,
}
use wol.Presence.Laws.{Grounds, probe-Grounds}
use wol.Presence.Probe.{host_text, probe}
use wol.Text.{
  codes, has_prefix, is_empty, is_space, push_front, split, teq, trim_left, trim_right, trim_space,
}
use wol.Text.Decimal.{is_digit, read_digits}

-- Only port 445 answers, by refusing.
abbrev lan : Radio
lan = record {
  ipv6 = λ _. none;
  ipv6_text = λ _. [];
  dial = λ _ port _. some (record {
    refused_code = if eqz port (pos 445) then true else false;
    unreachable_code = true;
    text = [];
  });
  skips = λ _. false;
  loses = λ _. true;
  ping = λ _ _. none;
  neighbor = λ _. true;
  probe_done = λ _. false;
  caller_done = false;
  remaining = pos 1900000000;
  elapsed = pos 7;
  checked_at = codes "now";
}

abbrev detector : Detector
detector = record { tcp_ports = pos 22 ∷ pos 445 ∷ []; allow_loopback = false }

abbrev machine : Target
machine = record { device_id = codes "pc"; ip_address = codes " 10.0.0.7 "; verify_port = pos 22 }

abbrev machine_ip : Ip
machine_ip = replicate 10 0 ++ (255 ∷ 255 ∷ 10 ∷ 0 ∷ 0 ∷ 7 ∷ [])

machine_valid : validate_target_ip lan.ipv6 false machine.ip_address ≡ ok machine_ip
unfolding validate_target_ip parsed_target is_unspecified is_multicast is_limited_broadcast
    is_loopback first_byte is_empty trim_space trim_left trim_right is_space parse_ip to4 parse_ipv4
    octets octet split push_front teq has_prefix read_digits is_digit looks_ipv6
machine_valid = refl

probe-Grounds_example :
    Grounds lan detector machine
      (host_text lan machine_ip)
      (probe_timeout (pos 0))
      (probe lan detector machine (pos 0)).status
probe-Grounds_example = probe-Grounds lan detector machine (pos 0) machine_ip machine_valid
