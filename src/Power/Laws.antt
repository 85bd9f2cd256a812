-- ===== src/Power/Laws.antt =====
-- What `Service.Execute` admits, and the commands that it sends.
use wol.Prelude.{
  All, Bool, [], ap, arith, false, lez, ltz, max, negsuc, none, ok, pos, refl, some, true, ℕ, ℤ,
  ◌*◌, ◌++◌, ◌||◌, ◌∙◌, ◌∷◌, ◌≡◌, ◌≢◌, ◌≤◌,
}
use wol.Power.{
  Action, Request, SshRunner, admit, check_delay, delay_error, execute, known_platform, plan,
  safe_ssh_token, schedule,
}
use wol.Power.Platforms.{
  Driver, Platform, darwin, driver_for, is_windows, linux, minute, new_driver, normalize_platform,
  one_of, platform_name, shutdown_command, sudo, unix_shutdown, whole_minutes, windows,
}
use wol.Text.{Text, codes, is_empty, teq, to_lower, trim_space}
use wol.Text.Decimal.{itoa}

-- The checks that an admitted request has passed.
pub record Admitted (req : Request) (p : Platform) : Type 0 where
  pub host_safe : safe_ssh_token req.target.host ≡ true
  pub user_safe : (is_empty req.target.user || safe_ssh_token req.target.user) ≡ true
  pub platform_known : normalize_platform req.target.platform ≡ some p
  pub force_allowed : req.force ≡ true → p ≡ windows
  pub delay_fine :
      ltz (pos 0) req.delay ≡ true → req.cancel ≡ false → delay_error p req.delay ≡ none

pub admit-ok : (req : Request) (p : Platform) → admit req ≡ ok p → Admitted req p
unfolding admit known_platform check_delay is_windows
admit-ok req p h = record {
  host_safe = ground arith;
  user_safe = ground arith;
  platform_known = ground arith;
  force_allowed = λ f. ground arith;
  delay_fine = λ d c. ground arith;
}

-- The name of a platform is normalised to the platform itself.
pub normalize_platform-platform_name :
    (p : Platform) → normalize_platform (platform_name p) ≡ some p
unfolding normalize_platform platform_name one_of teq to_lower trim_space
normalize_platform-platform_name windows = refl
normalize_platform-platform_name linux = refl
normalize_platform-platform_name darwin = refl

-- no space and no character below it, no quote, and none of `; & | $ \ < >` and the backquote
abbrev pub Quiet : ℕ → Type 0
Quiet c =
    (33 ≤ c)
    × (c ≢ 34)
    × (c ≢ 39)
    × (c ≢ b';')
    × (c ≢ b'&')
    × (c ≢ b'|')
    × (c ≢ b'$')
    × (c ≢ b'`')
    × (c ≢ 92)
    × (c ≢ b'<')
    × (c ≢ b'>')

-- a text of such characters that is not empty and does not begin with a dash
abbrev pub Inert : Text → Type 0
Inert [] = ⊥
Inert (c ∷ t) = (c ≢ b'-') × All Quiet (c ∷ t)

-- The driver of an admitted request is the one of its normalised platform.
pub admit-new_driver :
    (req : Request) (p : Platform)
    → admit req ≡ ok p
    → new_driver (platform_name p) req.target.use_sudo
      ≡ new_driver req.target.platform req.target.use_sudo
unfolding new_driver
admit-new_driver req p h =
    rw (normalize_platform-platform_name p, (admit-ok req p h).platform_known)

abbrev IsScheduled : Request → Type 0
IsScheduled req = (ltz (pos 0) req.delay ≡ true) × (req.cancel ≡ false)

plan-scheduled :
    (req : Request) (d : Driver)
    → IsScheduled req
    → plan req d ≡ (schedule, shutdown_command d req.delay req.force)
unfolding plan
plan-scheduled req d (l, c) = rw (c, l, plan)

-- what the two kinds of delays must satisfy, for a delay that the checks admit
unix_delay :
    (p : Platform) (delay : ℤ)
    → p ≢ windows
    → delay_error p delay ≡ none
    → ltz (pos 0) delay ≡ true
    → (delay ≡ pos (whole_minutes delay * minute)) × (1 ≤ whole_minutes delay)
unfolding delay_error whole_minutes
unix_delay windows delay ne h l = absurd (ne refl)
unix_delay _ (negsuc n) ne h l = cc
unix_delay linux (pos n) ne h l = (ap pos (ground arith), ground arith)
unix_delay darwin (pos n) ne h l = (ap pos (ground arith), ground arith)

driver_of : (p : Platform) (b : Bool) → new_driver (platform_name p) b ≡ driver_for (some p) b
unfolding new_driver
driver_of p b = rw normalize_platform-platform_name

-- a whole number of minutes is printed as it is
unix_shutdown-minutes :
    (b : Bool) (delay : ℤ)
    → delay ≡ pos (whole_minutes delay * minute)
    → 1 ≤ whole_minutes delay
    → unix_shutdown b delay ≡ sudo b ++ (codes "shutdown -h +" ++ itoa (whole_minutes delay))
unfolding unix_shutdown
unix_shutdown-minutes b delay exact some_minutes =
    let late : lez delay (pos 0) ≡ false = rw exact (ground arith) in
    let same : max 1 (whole_minutes delay) ≡ whole_minutes delay = omega arith in
    rw (late, unix_shutdown) (rw same)

unix_command :
    (p : Platform) (b : Bool) (delay : ℤ) (force : Bool)
    → p ≢ windows
    → shutdown_command (driver_for (some p) b) delay force ≡ unix_shutdown b delay
unfolding shutdown_command driver_for
unix_command windows b delay force ne = absurd (ne refl)
unix_command linux b delay force ne = refl
unix_command darwin b delay force ne = refl

-- A scheduled shutdown that is admitted for Linux or macOS runs `shutdown -h +M`, behind `sudo ` if
-- that is asked for, and M minutes are exactly the requested delay: the rounding to whole minutes
-- loses nothing.
pub execute-unix_minutes :
    (runner : SshRunner) (now : ℕ) (req : Request) (p : Platform)
    → admit req ≡ ok p
    → p ≢ windows
    → ltz (pos 0) req.delay ≡ true
    → req.cancel ≡ false
    → (m : ℕ) × ((execute runner now req).ran
        ≡ (sudo req.target.use_sudo ++ (codes "shutdown -h +" ++ itoa m)) ∷ [])
      × (req.delay ≡ pos (m * minute))
unfolding execute
execute-unix_minutes runner now req p h ne l c =
    let (exact, some_minutes) = unix_delay p req.delay ne ((admit-ok req p h).delay_fine l c) l in
    (
      whole_minutes req.delay,
      rw (h, execute)
          (ap (λ (t : Text). t ∷ [])
            (ap (λ (a : Action × Text). a.1) (plan-scheduled req _ (l, c))
              ∙ rw driver_of (unix_command p req.target.use_sudo req.delay req.force ne)
              ∙ unix_shutdown-minutes req.target.use_sudo req.delay exact some_minutes)),
      exact,
    )
