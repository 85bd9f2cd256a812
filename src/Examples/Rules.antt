-- ===== src/Examples/Rules.antt =====
-- The rules of internal/store at concrete inputs.
use wol.Prelude.{[], no_port, none, ok, pos, refl, true, ◌≡◌}
use wol.Net.{looks_ipv6, octet, octets, parse_ip, parse_ipv4, parse_to4, to4}
use wol.Rules.Remote.{
  bad_hint, check_hints, check_ports, checked_host, ends_well, for_protocol, host_char, host_label,
  is_decimal, is_local, is_pair, is_sunshine, known_mode, known_policy, local_hostname, local_ip,
  looks_like_ipv4, matches_hostname, matches_resolution, normalize_remote_profile,
  normalize_trimmed, protocol_port, trimmed_profile, with_mode, with_policy, with_ports,
  with_stream,
}
use wol.Rules.Sites.{
  check_site, normalize_site, not_ipv4, or_default, outside, with_defaults, with_subnet,
}
use wol.Store.{RemoteProfile, Site, no_site}
use wol.Text.{
  byte_len, codes, has_char, has_prefix, has_suffix, is_empty, is_space, lower, push_front, split,
  teq, to_lower, trim_left, trim_right, trim_space, width,
}
use wol.Text.Decimal.{is_digit, read_digits}

abbrev branch : Site
branch = record no_site {
  name = codes " office ";
  timeout_ms = pos 100;
  broadcast_address = codes "10.0.0.255";
}

abbrev branch_row : Site
branch_row = record branch { name = codes "office"; default_port = pos 9; concurrency = pos 4 }

branch_normal : normalize_site (λ _. none) branch ≡ ok branch_row
unfolding normalize_site with_subnet with_defaults check_site or_default outside not_ipv4 is_empty
    trim_space trim_left trim_right is_space parse_to4 parse_ip to4 parse_ipv4 octets octet split
    push_front read_digits is_digit looks_ipv6 has_prefix teq
branch_normal = refl

-- a profile of a game stream
abbrev stream : RemoteProfile
stream = record {
  id = [];
  device_id = codes " pc ";
  protocol = codes "Sunshine";
  host = codes "Tower.LOCAL";
  port = pos 0;
  verify_port = pos 0;
  username_hint = codes "me";
  domain_hint = codes "WORK";
  certificate_policy = codes "trust-local";
  mode = [];
  app_name = [];
  fps = pos 60;
  resolution = codes "1920x1080";
  bitrate_kbps = pos 20000;
  enabled = true;
  created_at = [];
  updated_at = [];
}

abbrev stream_row : RemoteProfile
stream_row = record stream {
  device_id = codes "pc";
  protocol = codes "sunshine";
  host = codes "tower.local";
  port = pos 47989;
  verify_port = pos 47989;
  domain_hint = [];
  certificate_policy = codes "strict";
  mode = codes "native-moonlight";
  app_name = codes "Desktop";
}

stream_normal : normalize_remote_profile (λ _. none) stream ≡ ok stream_row
unfolding host_char ends_well host_label matches_hostname is_decimal is_pair matches_resolution
    is_local local_ip looks_like_ipv4 local_hostname checked_host trimmed_profile protocol_port
    with_ports is_sunshine with_mode known_mode with_stream bad_hint with_policy known_policy
    for_protocol check_hints check_ports normalize_trimmed normalize_remote_profile is_empty
    trim_space trim_left trim_right is_space to_lower lower teq byte_len width has_char has_suffix
    has_prefix split push_front outside no_port parse_ip parse_ipv4 octets octet looks_ipv6 is_digit
    read_digits
stream_normal = refl
