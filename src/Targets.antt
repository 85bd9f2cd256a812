-- ===== src/Targets.antt =====
-- internal/networkconfig/network.go: the targets that the scanner and the doctor look at, from the
-- environment or from a file whose JSON is read outside of the model.
pub mod Dotenv
pub mod Laws
pub mod Loading
use wol.Prelude.{
  Bool, List, Outcome, [], any, eqz, err, false, if◌then◌else◌, no_port, none, not, ok, pos,
  refuse_if, some, true, ℕ, ℤ, ◌&&◌, ◌++◌, ◌+◌, ◌>>=◌, ◌>>◌, ◌||◌, ◌∷◌,
}
use wol.Broker.Hosts.{cut_first, split_host_port}
use wol.Desk.Urls.{join_host_port}
use wol.Text.{Text, codes, contains, has_prefix, is_empty, split, teq, to_lower, trim_space}
use wol.Updater.{atoi}

pub record NetworkTarget : Type 0 where
  pub name : Text
  pub host : Text
  pub port : ℤ
  pub target_type : Text
  pub details : Text
  pub ssh_host : Text
  pub wol_relay : Bool

pub data TargetsError : Type 0 where
  invalid_address : Text → TargetsError
  invalid_target_port : Text → TargetsError
  missing_name_or_host : ℕ → TargetsError
  port_out_of_range : Text → ℤ → TargetsError
  unsupported_type : Text → Text → TargetsError
  duplicate_address : Text → TargetsError

unfoldable pub infer_network_target_type : Text → Text
infer_network_target_type name =
    let small = to_lower name in
    if contains small (codes "zerotier")
      || has_prefix small (codes "zt-")
      || has_prefix small (codes "zt_")
      || contains small (codes " zt")
    then codes "zerotier"
    else if contains small (codes "router") || contains small (codes "gateway")
    then codes "router"
    else codes "server"

unfoldable pub known_type : Text → Bool
known_type t =
    any (teq t) (codes "router" ∷ codes "zerotier" ∷ codes "server" ∷ codes "ssh-host" ∷ [])

-- the changes that the loop makes to a target before its last two tests
unfoldable pub trimmed_target : NetworkTarget → NetworkTarget
trimmed_target t = record t {
  name = trim_space t.name;
  host = trim_space t.host;
  target_type = to_lower (trim_space t.target_type);
}

unfoldable pub typed_target : NetworkTarget → NetworkTarget
typed_target t =
    if is_empty t.target_type
    then record t { target_type = infer_network_target_type t.name }
    else t

unfoldable pub relayed_target : NetworkTarget → NetworkTarget
relayed_target t =
    if t.wol_relay && is_empty (trim_space t.ssh_host)
    then record t { ssh_host = codes "root@" ++ t.host }
    else t

unfoldable pub address_of : NetworkTarget → Text
address_of t = join_host_port t.host t.port

-- one round of the loop; the index counts from 0
unfoldable pub validate_target : ℕ → List Text → NetworkTarget → Outcome TargetsError NetworkTarget
validate_target index seen target = do
  let t = trimmed_target target
  refuse_if (is_empty t.name || is_empty t.host) (missing_name_or_host (index + 1))
  refuse_if (no_port t.port) (port_out_of_range t.name t.port)
  let u = relayed_target (typed_target t)
  refuse_if (not (known_type u.target_type)) (unsupported_type u.name u.target_type)
  refuse_if (any (teq (address_of u)) seen) (duplicate_address (address_of u))
  ok u

unfoldable pub validate_from :
    ℕ → List Text → List NetworkTarget → Outcome TargetsError (List NetworkTarget)
validate_from index seen [] = ok []
validate_from index seen (t ∷ ts) = do
  u ← validate_target index seen t
  us ← validate_from (index + 1) (address_of u ∷ seen) ts
  ok (u ∷ us)

unfoldable pub validate_network_targets :
    List NetworkTarget → Outcome TargetsError (List NetworkTarget)
validate_network_targets targets = validate_from 0 [] targets

-- `name=host:port`; a sign of equality at the front does not count.
unfoldable pub name_and_address : Text → Text × Text
name_and_address raw = elim (cut_first b'=' raw) [
  | none ↦ (raw, raw)
  | some (name, address) ↦
      if is_empty name then (raw, raw) else (trim_space name, trim_space address)
]

unfoldable pub with_relay : NetworkTarget → NetworkTarget
with_relay t =
    if eqz t.port (pos 22)
      && (teq t.target_type (codes "router") || teq t.target_type (codes "zerotier"))
    then record t { ssh_host = codes "root@" ++ t.host; wol_relay = true }
    else t

unfoldable pub parse_target : Text → Outcome TargetsError NetworkTarget
parse_target raw =
    let (name, address) = name_and_address raw in
    elim (split_host_port address) [
      | none ↦ err (invalid_address raw)
      | some (host, port_value) ↦
          let (port, well) = atoi port_value in
          if well
          then ok (
              with_relay (record {
                name = name;
                host = host;
                port = port;
                target_type = infer_network_target_type name;
                details = codes "Configured by WOL_NETWORK_PROBE_TARGETS";
                ssh_host = [];
                wol_relay = false;
              }))
          else err (invalid_target_port raw)
    ]

unfoldable pub parse_targets : List Text → Outcome TargetsError (List NetworkTarget)
parse_targets [] = ok []
parse_targets (part ∷ parts) =
    let rest = parse_targets parts in
    let raw = trim_space part in
    if is_empty raw then rest else do t ← parse_target raw; ts ← rest; ok (t ∷ ts)

unfoldable pub parse_network_targets_env : Text → Outcome TargetsError (List NetworkTarget)
parse_network_targets_env value = do
  targets ← parse_targets (split b',' value)
  validate_network_targets targets
