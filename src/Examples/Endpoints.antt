-- ===== src/Examples/Endpoints.antt =====
-- internal/networkconfig at concrete inputs.
use wol.Prelude.{All, [], false, if◌then◌else◌, no_port, none, ok, pos, refl, some, true, ◌∷◌, ◌≡◌}
use wol.Broker.Hosts.{cut_first, cut_last, split_host_port}
use wol.Desk.Urls.{join_host_port}
use wol.Targets.{
  NetworkTarget, address_of, infer_network_target_type, known_type, name_and_address,
  parse_network_targets_env, parse_target, parse_targets, relayed_target, trimmed_target,
  typed_target, validate_from, validate_network_targets, validate_target, with_relay,
}
use wol.Targets.Dotenv.{Surrounding, checked_targets, env_value, load_network_targets, no_file}
use wol.Targets.Laws.{IsUsable, NoRepeat}
use wol.Targets.Loading.{load_network_targets-IsUsable}
use wol.Text.{
  codes, contains, has_char, has_prefix, is_empty, is_space, lower, push_front, split, teq,
  to_lower, trim_left, trim_right, trim_space,
}
use wol.Text.Decimal.{is_digit, itoa, itoa_z, read_digits}
use wol.Updater.{atoi, signed, unsigned}

abbrev probes_env : Surrounding
probes_env = record {
  lookup_env = λ key.
      if teq key (codes "WOL_NETWORK_PROBE_TARGETS")
      then some (codes "zt-gw=10.0.0.1:22, nas=10.0.0.2:80,")
      else none;
  unquote = λ t. some t;
  is_abs = λ t. true;
  join_path = λ root path. path;
  read_lines = λ path. no_file;
  read_targets = λ path. ok none;
}

abbrev gateway : NetworkTarget
gateway = record {
  name = codes "zt-gw";
  host = codes "10.0.0.1";
  port = pos 22;
  target_type = codes "zerotier";
  details = codes "Configured by WOL_NETWORK_PROBE_TARGETS";
  ssh_host = codes "root@10.0.0.1";
  wol_relay = true;
}

abbrev nas : NetworkTarget
nas = record gateway {
  name = codes "nas";
  host = codes "10.0.0.2";
  port = pos 80;
  target_type = codes "server";
  ssh_host = [];
  wol_relay = false;
}

both_loaded : load_network_targets probes_env [] [] ≡ ok (gateway ∷ nas ∷ [])
unfolding load_network_targets checked_targets env_value parse_network_targets_env parse_targets
    parse_target name_and_address cut_first split_host_port cut_last with_relay
    validate_network_targets validate_from validate_target trimmed_target typed_target
    relayed_target address_of join_host_port infer_network_target_type known_type contains
    has_prefix has_char split push_front trim_space trim_left trim_right is_space is_empty to_lower
    lower teq atoi signed unsigned read_digits is_digit no_port itoa_z itoa
both_loaded = refl

load_network_targets-IsUsable_example :
    All IsUsable (gateway ∷ nas ∷ []) × NoRepeat [] (gateway ∷ nas ∷ [])
load_network_targets-IsUsable_example =
    load_network_targets-IsUsable probes_env [] [] (gateway ∷ nas ∷ []) both_loaded
