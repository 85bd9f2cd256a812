-- ===== src/Targets/Dotenv.antt =====
-- internal/networkconfig/env.go, and `LoadNetworkTargetsWithEnv` of network.go. The files are read,
-- their JSON and the quoted values are decoded, and paths are joined outside of the model.
use wol.Prelude.{
  Bool, List, Option, Outcome, [], all, drop, err, false, if◌then◌else◌, leb, length, none, not, ok,
  some, take, true, ℕ, ◌&&◌, ◌++◌, ◌+◌, ◌-◌, ◌==◌, ◌>>=◌, ◌||◌, ◌∷◌,
}
use wol.Broker.Docker.{mark}
use wol.Broker.Hosts.{cut_first}
use wol.Targets.{NetworkTarget, TargetsError, parse_network_targets_env, validate_network_targets}
use wol.Text.{Text, codes, has_prefix, has_suffix, is_empty, trim_prefix, trim_space}
use wol.Text.Decimal.{is_digit}

-- a file by its lines, and whether the scanner gave up behind them
pub data Reading : Type 0 where
  no_file unreadable : Reading
  lines_of : List Text → Bool → Reading

pub data LoadError : Type 0 where
  open_failed read_failed bad_json : LoadError
  invalid_assignment : ℕ → LoadError
  bad_quotes : ℕ → LoadError
  bad_targets : TargetsError → LoadError

pub record Surrounding : Type 0 where
  pub lookup_env : Text → Option Text
  pub unquote : Text → Option Text
  pub is_abs : Text → Bool
  pub join_path : Text → Text → Text
  pub read_lines : Text → Reading
  pub read_targets : Text → Outcome LoadError (Option (List NetworkTarget))

unfoldable pub key_start : ℕ → Bool
key_start c = (leb b'A' c && leb c b'Z') || (leb b'a' c && leb c b'z') || c == b'_'

-- `envKeyPattern`
unfoldable pub is_env_key : Text → Bool
is_env_key [] = false
is_env_key (c ∷ s) = key_start c && all (λ d. key_start d || is_digit d) s

unfoldable pub quoted_by : ℕ → Text → Bool
quoted_by mark value =
    leb 2 (length value) && has_prefix value (mark ∷ []) && has_suffix value (mark ∷ [])

module _ (env : Surrounding) where
  unfoldable pub unquoted : ℕ → Text → Outcome LoadError Text
  unquoted number value =
      if quoted_by 34 value
      then elim (env.unquote value) [ none ↦ err (bad_quotes number) | some text ↦ ok text ]
      else if quoted_by 39 value
      then ok (take (length value - 2) (drop 1 value))
      else ok value

  unfoldable pub assignment : ℕ → Text → Outcome LoadError (Text × Text)
  assignment number line = elim (cut_first b'=' (trim_space (trim_prefix line (codes "export ")))) [
    | none ↦ err (invalid_assignment number)
    | some (before, after) ↦
        let key = trim_space before in
        if is_env_key key
        then (do value ← unquoted number (trim_space after); ok (key, value))
        else err (invalid_assignment number)
  ]

  unfoldable pub in_process : Text → Bool
  in_process key = elim (env.lookup_env key) [ none ↦ false | some _ ↦ true ]

  unfoldable pub load_lines : Bool → ℕ → List Text → Bool → Outcome LoadError (List Text)
  load_lines skip number [] broken = if broken then err read_failed else ok []
  load_lines skip number (raw ∷ lines) broken =
      let rest = load_lines skip (number + 1) lines broken in
      let line = trim_space raw in
      if is_empty line || has_prefix line (codes "#") then rest else do
        (key, value) ← assignment number line
        values ← rest
        ok (if skip && in_process key then values else (key ++ (b'=' ∷ value)) ∷ values)

  unfoldable pub load_env_file : Bool → Text → Outcome LoadError (List Text)
  load_env_file skip path = elim (env.read_lines path) [
    | no_file ↦ ok []
    | unreadable ↦ err open_failed
    | lines_of lines broken ↦ load_lines skip 1 lines broken
  ]

  unfoldable pub first_default : Text → List Text → Option Text
  first_default prefix [] = none
  first_default prefix (item ∷ items) =
      if has_prefix item prefix then some (trim_prefix item prefix) else first_default prefix items

  unfoldable pub env_value : Text → List Text → Text → Text
  env_value key defaults fallback = elim (env.lookup_env key) [
    | some value ↦ value
    | none ↦ elim (first_default (key ++ codes "=") defaults) [
      | some value ↦ value
      | none ↦ fallback
    ]
  ]

  unfoldable pub targets_path : Text → List Text → Text
  targets_path root defaults =
      let given = trim_space (env_value (codes "WOL_NETWORK_TARGETS_FILE") defaults []) in
      let path = if is_empty given then codes "network-targets.json" else given in
      if env.is_abs path then path else env.join_path root path

  unfoldable pub checked_targets :
      Outcome TargetsError (List NetworkTarget) → Outcome LoadError (List NetworkTarget)
  checked_targets (err e) = err (bad_targets e)
  checked_targets (ok targets) = ok targets

  -- `LoadNetworkTargetsWithEnv`
  unfoldable pub load_network_targets : Text → List Text → Outcome LoadError (List NetworkTarget)
  load_network_targets root defaults =
      let value = trim_space (env_value (codes "WOL_NETWORK_PROBE_TARGETS") defaults []) in
      if not (is_empty value) then checked_targets (parse_network_targets_env value) else do
        found ← env.read_targets (targets_path root defaults)
        elim found [
          | none ↦ ok []
          | some targets ↦ checked_targets (validate_network_targets targets)
        ]
