-- ===== src/Targets/Loading.antt =====
-- What `LoadNetworkTargetsWithEnv` of internal/networkconfig gives to the scanner and the doctor.
use wol.Prelude.{
  >>=-eq-ok, All, Bool-cases, List, Option, Outcome-cases, [], arith, inl, inr, none, ok, some, ◌≡◌,
}
use wol.Broker.Requests.{usable}
use wol.Store.Rules.{given}
use wol.Targets.{NetworkTarget, parse_network_targets_env, parse_targets, validate_network_targets}
use wol.Targets.Dotenv.{Surrounding, checked_targets, env_value, load_network_targets, targets_path}
use wol.Targets.Laws.{IsUsable, NoRepeat, validate_network_targets-IsUsable}
use wol.Text.{Text, codes, is_empty, split, trim_space}

abbrev Usable : List NetworkTarget → Type 0
Usable targets = All IsUsable targets × NoRepeat [] targets

checked-Usable :
    (env : Surrounding) (ts targets : List NetworkTarget)
    → checked_targets env (validate_network_targets ts) ≡ ok targets
    → Usable targets
unfolding checked_targets
checked-Usable env ts targets h =
    let (usable, no_repeat, _) = validate_network_targets-IsUsable ts targets (ground arith) in
    (usable, no_repeat)

parsed-Usable :
    (env : Surrounding) (value : Text) (targets : List NetworkTarget)
    → checked_targets env (parse_network_targets_env value) ≡ ok targets
    → Usable targets
unfolding checked_targets parse_network_targets_env
parsed-Usable env value targets h =
    let found : parse_network_targets_env value ≡ ok targets = ground arith in
    let (ts, read, checked) =
      >>=-eq-ok (parse_targets (split b',' value)) validate_network_targets found in
    let (usable, no_repeat, _) = validate_network_targets-IsUsable ts targets checked in
    (usable, no_repeat)

from_file :
    (env : Surrounding) (found : Option (List NetworkTarget)) (targets : List NetworkTarget)
    → elim found [ none ↦ ok [] | some ts ↦ checked_targets env (validate_network_targets ts) ]
      ≡ ok targets
    → Usable targets
from_file env none targets h = let empty : [] ≡ targets = ground arith in rw (← empty) (tt, tt)
from_file env (some ts) targets h = checked-Usable env ts targets h

-- Whatever `LoadNetworkTargetsWithEnv` returns, from the environment, from the defaults of a
-- dotenv file or from the file of targets: each target has a name, a host, a port from 1 to 65535,
-- a known type, and an SSH host if it is to relay, and no address comes twice.
pub load_network_targets-IsUsable :
    (env : Surrounding) (root : Text) (defaults : List Text) (targets : List NetworkTarget)
    → load_network_targets env root defaults ≡ ok targets
    → All IsUsable targets × NoRepeat [] targets
unfolding load_network_targets
load_network_targets-IsUsable env root defaults targets h =
    let value = trim_space (env_value env (codes "WOL_NETWORK_PROBE_TARGETS") defaults []) in
    elim (Bool-cases (is_empty value)) [
      | inr given ↦ parsed-Usable env value targets (ground arith)
      | inl unset ↦ elim (Outcome-cases (env.read_targets (targets_path env root defaults))) [
        | inl (found, read) ↦
            from_file env found targets (rw (unset, read, load_network_targets) at h)
        | inr (e, lost) ↦ absurd (ground arith)
      ]
    ]
