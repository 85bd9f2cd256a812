-- ===== src/Power/Platforms.antt =====
-- internal/power/driver.go: platforms and the commands for them. `int(delay.Seconds())` and
-- `int(delay.Minutes())` are taken as exact divisions that drop the rest; their floating-point
-- values agree with these on all delays of less than 2 ^ 22 seconds.
use wol.Prelude.{
  Bool, List, Option, [], any, false, if◌then◌else◌, lez, max, none, pos, some, to_nat, true, ℕ, ℤ,
  ◌*◌, ◌++◌, ◌/◌, ◌∷◌,
}
use wol.Text.{Text, codes, teq, to_lower, trim_space}
use wol.Text.Decimal.{itoa}

pub data Platform : Type 0 where
  windows linux darwin : Platform

-- the string that a `Platform` is
unfoldable pub platform_name : Platform → Text
platform_name windows = codes "windows"
platform_name linux = codes "linux"
platform_name darwin = codes "darwin"

unfoldable pub one_of : Text → List Text → Bool
one_of s words = any (teq s) words

-- none is the empty platform
unfoldable pub normalize_platform : Text → Option Platform
normalize_platform val =
    let word = to_lower (trim_space val) in
    if one_of word (codes "win" ∷ codes "windows" ∷ [])
    then some windows
    else if one_of word (codes "linux" ∷ [])
    then some linux
    else if one_of word (codes "darwin" ∷ codes "mac" ∷ codes "macos" ∷ codes "osx" ∷ [])
    then some darwin
    else none

unfoldable pub is_windows : Platform → Bool
is_windows windows = true
is_windows _ = false

-- the three structs that implement `Driver`
pub data Driver : Type 0 where
  windows_driver : Driver
  linux_driver : Bool → Driver
  darwin_driver : Bool → Driver

abbrev pub nanos : ℕ
nanos = 1000000000

abbrev pub minute : ℕ
minute = 60 * nanos

-- the whole seconds and minutes of a delay, and 0 for one that is negative
unfoldable pub whole_seconds : ℤ → ℕ
whole_seconds delay = to_nat delay / nanos

unfoldable pub whole_minutes : ℤ → ℕ
whole_minutes delay = to_nat delay / minute

unfoldable pub sudo : Bool → Text
sudo use_sudo = if use_sudo then codes "sudo " else []

-- `LinuxDriver` and `DarwinDriver` build the same shutdown command
unfoldable pub unix_shutdown : Bool → ℤ → Text
unix_shutdown use_sudo delay =
    if lez delay (pos 0)
    then sudo use_sudo ++ codes "shutdown -h now"
    else sudo use_sudo ++ (codes "shutdown -h +" ++ itoa (max 1 (whole_minutes delay)))

unfoldable pub shutdown_command : Driver → ℤ → Bool → Text
shutdown_command windows_driver delay force =
    codes "shutdown.exe /s"
    ++ ((if force then codes " /f" else []) ++ (codes " /t " ++ itoa (whole_seconds delay)))
shutdown_command (linux_driver use_sudo) delay force = unix_shutdown use_sudo delay
shutdown_command (darwin_driver use_sudo) delay force = unix_shutdown use_sudo delay

unfoldable pub cancel_command : Driver → Text
cancel_command windows_driver = codes "shutdown.exe /a"
cancel_command (linux_driver use_sudo) =
    if use_sudo then codes "sudo shutdown -c" else codes "shutdown -c"
cancel_command (darwin_driver use_sudo) =
    if use_sudo then codes "sudo killall shutdown" else codes "killall shutdown"

unfoldable pub driver_for : Option Platform → Bool → Driver
driver_for (some windows) use_sudo = windows_driver
driver_for (some darwin) use_sudo = darwin_driver use_sudo
driver_for (some linux) use_sudo = linux_driver use_sudo
driver_for none use_sudo = linux_driver use_sudo

unfoldable pub new_driver : Text → Bool → Driver
new_driver platform use_sudo = driver_for (normalize_platform platform) use_sudo
