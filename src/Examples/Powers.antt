-- ===== src/Examples/Powers.antt =====
-- internal/power at concrete inputs.
use wol.Prelude.{List, [], err, false, none, ok, pos, refl, true, ℕ, ◌*◌, ◌++◌, ◌∷◌, ◌≡◌}
use wol.Power.{
  Target, Request, SshRunner, admit, check_delay, delay_error, execute, known_platform, path_char,
  safe_ssh_path, safe_ssh_token, token_char, unsafe_host,
}
use wol.Power.Args.{fixed_args, key_args, ssh_args, ssh_destination, ssh_port}
use wol.Power.Laws.{execute-unix_minutes}
use wol.Power.Platforms.{linux, minute, normalize_platform, one_of, sudo}
use wol.Text.Decimal.{itoa}
use wol.Text.{Text, codes, has_prefix, is_empty, teq, to_lower, trim_space}

abbrev server : Target
server = record {
  device_id = codes "d1";
  device_name = codes "server";
  host = codes "10.0.0.7";
  port = pos 0;
  user = codes "admin";
  key_path = codes "/root/.ssh/id";
  platform = codes "Linux";
  use_sudo = true;
}

-- a shutdown in two minutes
abbrev tonight : Request
tonight = record { target = server; delay = pos 120000000000; cancel = false; force = false }

abbrev quiet : SshRunner
quiet _ _ = ([], none)

admitted : admit tonight ≡ ok linux
unfolding admit is_empty trim_space safe_ssh_token has_prefix token_char known_platform
    normalize_platform one_of teq to_lower check_delay delay_error
admitted = refl

refused :
    admit (record tonight { target = record server { host = codes "-oProxy" } }) ≡ err unsafe_host
unfolding admit is_empty trim_space safe_ssh_token has_prefix
refused = refl

execute-unix_minutes_example :
    (m : ℕ) × ((execute quiet 0 tonight).ran
      ≡ (sudo true ++ (codes "shutdown -h +" ++ itoa m)) ∷ [])
    × (pos 120000000000 ≡ pos (m * minute))
execute-unix_minutes_example =
    execute-unix_minutes quiet 0 tonight linux admitted (λ e. cc e) refl refl

abbrev server_args : List Text
server_args =
    fixed_args 22
    ++ (codes "-i"
        ∷ codes "/root/.ssh/id"
        ∷ codes "--"
        ∷ codes "admin@10.0.0.7"
        ∷ codes "uptime"
        ∷ [])

args_built : ssh_args server (codes "uptime") ≡ ok server_args
unfolding ssh_args key_args is_empty trim_space has_prefix safe_ssh_path path_char ssh_port
    ssh_destination
args_built = refl
