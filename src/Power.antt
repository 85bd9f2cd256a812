-- ===== src/Power.antt =====
-- internal/power: the service (service.go), and its command builders in the child `Platforms`
-- (driver.go). Durations are integers of nanoseconds. The SSH runner is a parameter of `execute`,
-- and the `ssh` program one of `default_ssh_runner`.
pub mod Platforms
pub mod Commands
pub mod Laws
pub mod Args
use wol.Prelude.{
  Bool, List, Option, Outcome, [], all, err, false, if◌then◌else◌, leb, ltb, ltz, none, not, ok,
  pos, refuse_if, some, to_nat, true, ℕ, ℤ, ◌%◌, ◌&&◌, ◌+◌, ◌==◌, ◌>>=◌, ◌>>◌, ◌||◌, ◌∷◌,
}
use wol.Power.Platforms.{
  Driver, Platform, cancel_command, is_windows, minute, new_driver, normalize_platform,
  platform_name, shutdown_command, whole_seconds, windows,
}
use wol.Text.{Text, codes, has_char, has_prefix, is_empty, trim_space}

pub data Action : Type 0 where
  shutdown_now schedule cancel : Action

pub record Target : Type 0 where
  pub device_id : Text
  pub device_name : Text
  pub host : Text
  pub port : ℤ
  pub user : Text
  pub key_path : Text
  pub platform : Text
  pub use_sudo : Bool

pub record Request : Type 0 where
  pub target : Target
  pub delay : ℤ
  pub cancel : Bool
  pub force : Bool

pub data PowerError : Type 0 where
  empty_host unsafe_host unsafe_user unknown_platform force_unsupported : PowerError
  short_delay ragged_delay unsafe_key : PowerError
  ssh_failed : Text → PowerError

pub record PowerResult : Type 0 where
  pub target : Target
  pub action : Action
  pub command : Text
  pub output : Text
  pub delay : ℤ
  pub scheduled_time : Option ℕ

-- What the runner returns: its output, and its error if it has one.
abbrev pub SshRunner : Type 0
SshRunner = Target → Text → Text × Option PowerError

-- What `Execute` returns, and the commands that it gave to the runner.
pub record Executed : Type 0 where
  pub result : Option PowerResult
  pub failure : Option PowerError
  pub ran : List Text

-- the code points that `safeSSHToken` refuses behind its test on spaces and controls
abbrev token_metas : Text
token_metas = codes "'\";&|$`\\<>\n\r"

abbrev path_metas : Text
path_metas = codes "'\";&|$`<>\n\r"

unfoldable pub token_char : ℕ → Bool
unfolding has_char
token_char r = not (leb r 32 || has_char r token_metas)

unfoldable pub path_char : ℕ → Bool
unfolding has_char
path_char r = not (ltb r 32 || has_char r path_metas)

unfoldable pub safe_ssh_token : Text → Bool
safe_ssh_token val =
    if is_empty val || has_prefix val (codes "-") then false else all token_char val

unfoldable pub safe_ssh_path : Text → Bool
safe_ssh_path val = if is_empty val || has_prefix val (codes "-") then false else all path_char val

-- the test of `Execute` on a delay, when there is one and it is no cancellation
unfoldable pub delay_error : Platform → ℤ → Option PowerError
delay_error windows delay =
    if ltz (pos (whole_seconds delay)) (pos 1) then some short_delay else none
delay_error _ delay =
    if ltz delay (pos minute) || not (to_nat delay % minute == 0) then some ragged_delay else none

unfoldable pub known_platform : Option Platform → Outcome PowerError Platform
known_platform none = err unknown_platform
known_platform (some p) = ok p

unfoldable pub check_delay : Bool → Option PowerError → Outcome PowerError (Unit {0})
check_delay true (some e) = err e
check_delay _ _ = ok tt

-- the checks of `Execute`, in its order; the platform is the normalised one
unfoldable pub admit : Request → Outcome PowerError Platform
admit req = do
  refuse_if (is_empty (trim_space req.target.host)) empty_host
  refuse_if (not (safe_ssh_token req.target.host)) unsafe_host
  refuse_if (not (is_empty req.target.user) && not (safe_ssh_token req.target.user)) unsafe_user
  platform ← known_platform (normalize_platform req.target.platform)
  refuse_if (req.force && not (is_windows platform)) force_unsupported
  check_delay (ltz (pos 0) req.delay && not req.cancel) (delay_error platform req.delay)
  ok platform

-- the choice of action and command
unfoldable pub plan : Request → Driver → Action × Text
plan req driver =
    if req.cancel
    then (cancel, cancel_command driver)
    else if ltz (pos 0) req.delay
    then (schedule, shutdown_command driver req.delay req.force)
    else (shutdown_now, shutdown_command driver (pos 0) req.force)

-- `time.Now().Add(req.Delay)` for a scheduled shutdown, else the zero time
unfoldable pub scheduled : Action → ℕ → ℤ → Option ℕ
scheduled schedule now delay = some (now + to_nat delay)
scheduled _ now delay = none

unfoldable pub execute : SshRunner → ℕ → Request → Executed
execute runner now req = elim (admit req) [
  | err e ↦ record { result = none; failure = some e; ran = [] }
  | ok platform ↦
      let (action, command) = plan req (new_driver (platform_name platform) req.target.use_sudo) in
      let (out, failed) = runner req.target command in
      record {
        result = some (record {
          target = req.target;
          action = action;
          command = command;
          output = trim_space out;
          delay = req.delay;
          scheduled_time = scheduled action now req.delay;
        });
        failure = failed;
        ran = command ∷ [];
      }
]
