-- ===== src/Power/Commands.antt =====
-- The commands of internal/power/driver.go hold no character that a remote shell would interpret.
use wol.Prelude.{
  All, All-append, All-map, Bool, Bool-cases, [], all, all→All, arith, false, if◌then◌else◌, inl,
  inr, leb, lez, max, pos, refl, true, ℕ, ℤ, ◌&&◌, ◌++◌, ◌==◌, ◌||◌, ◌≡◌,
}
use wol.Power.Platforms.{
  Driver, cancel_command, darwin_driver, linux_driver, shutdown_command, sudo, unix_shutdown,
  whole_minutes, whole_seconds, windows_driver,
}
use wol.Text.{Text, codes}
use wol.Text.Decimal.{is_digit, itoa, itoa_digits}

-- letters, digits, the space and `+ - . /`
unfoldable pub plain_char : ℕ → Bool
plain_char c =
    (leb b'a' c && leb c b'z')
    || (leb b'0' c && leb c b'9')
    || (leb b'A' c && leb c b'Z')
    || c == 32
    || c == b'+'
    || c == b'-'
    || c == b'.'
    || c == b'/'

abbrev pub Plain : Text → Type 0
Plain = All (λ c. plain_char c ≡ true)

plain-is_digit : (c : ℕ) → is_digit c ≡ true → plain_char c ≡ true
unfolding plain_char is_digit
plain-is_digit c h = ground arith

itoa-Plain : (n : ℕ) → Plain (itoa n)
itoa-Plain n = All-map _ _ plain-is_digit (itoa n) (itoa_digits n)

plain : (t : Text) → all plain_char t ≡ true → Plain t
plain t h = all→All plain_char t h

append-Plain : (s t : Text) → all plain_char s ≡ true → Plain t → Plain (s ++ t)
append-Plain s t h p = All-append _ s t (plain s h) p

sudo-Plain : (b : Bool) (t : Text) → Plain t → Plain (sudo b ++ t)
unfolding sudo plain_char
sudo-Plain true t p = append-Plain (codes "sudo ") t refl p
sudo-Plain false t p = p

unix_shutdown-Plain : (b : Bool) (delay : ℤ) → Plain (unix_shutdown b delay)
unfolding unix_shutdown plain_char
unix_shutdown-Plain b delay = elim (Bool-cases (lez delay (pos 0))) [
  | inl e ↦ rw e (sudo-Plain b (codes "shutdown -h now") (plain (codes "shutdown -h now") refl))
  | inr e ↦ rw e (
      sudo-Plain b _
        (append-Plain (codes "shutdown -h +") _ refl (itoa-Plain (max 1 (whole_minutes delay)))))
]

windows-Plain :
    (force : Bool) (t : Text) → Plain t → Plain ((if force then codes " /f" else []) ++ t)
unfolding plain_char
windows-Plain true t p = append-Plain (codes " /f") t refl p
windows-Plain false t p = p

pub shutdown_command-Plain :
    (d : Driver) (delay : ℤ) (force : Bool) → Plain (shutdown_command d delay force)
unfolding shutdown_command plain_char
shutdown_command-Plain windows_driver delay force =
    append-Plain (codes "shutdown.exe /s") _ refl (
      windows-Plain force _ (append-Plain (codes " /t ") _ refl (itoa-Plain (whole_seconds delay))))
shutdown_command-Plain (linux_driver b) delay force = unix_shutdown-Plain b delay
shutdown_command-Plain (darwin_driver b) delay force = unix_shutdown-Plain b delay

pub cancel_command-Plain : (d : Driver) → Plain (cancel_command d)
unfolding cancel_command plain_char
cancel_command-Plain windows_driver = plain (codes "shutdown.exe /a") refl
cancel_command-Plain (linux_driver true) = plain (codes "sudo shutdown -c") refl
cancel_command-Plain (linux_driver false) = plain (codes "shutdown -c") refl
cancel_command-Plain (darwin_driver true) = plain (codes "sudo killall shutdown") refl
cancel_command-Plain (darwin_driver false) = plain (codes "killall shutdown") refl
