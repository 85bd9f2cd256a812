-- ===== src/Power/Args.antt =====
-- `DefaultSSHRunner` of internal/power/service.go: the arguments that it gives to the `ssh` program.
use wol.Prelude.{
  >>=-eq-ok, All, Bool-cases, List, Option, Outcome, [], all, all→All, arith, err, false,
  if◌then◌else◌, inl, inr, lez, none, not, ok, pos, some, to_nat, true, ℕ, ℤ, ◌++◌, ◌>>=◌, ◌||◌,
  ◌∷◌, ◌≡◌, ◌⊎◌,
}
use wol.Power.{PowerError, SshRunner, Target, path_char, safe_ssh_path, ssh_failed, unsafe_key}
use wol.Text.{Text, codes, has_prefix, is_empty, trim_space}
use wol.Text.Decimal.{itoa}

unfoldable pub ssh_port : ℤ → ℕ
ssh_port port = if lez port (pos 0) then 22 else to_nat port

unfoldable pub ssh_destination : Target → Text
ssh_destination target =
    let host = trim_space target.host in
    if is_empty target.user then host else trim_space target.user ++ (b'@' ∷ host)

unfoldable pub key_args : Text → Outcome PowerError (List Text)
key_args key_path =
    let key = trim_space key_path in
    if is_empty key_path
    then ok []
    else if has_prefix key (codes "-") || not (safe_ssh_path key)
    then err unsafe_key
    else ok (codes "-i" ∷ key ∷ [])

abbrev pub fixed_args : ℕ → List Text
fixed_args port =
    codes "-o"
    ∷ codes "BatchMode=yes"
    ∷ codes "-o"
    ∷ codes "ConnectTimeout=5"
    ∷ codes "-p"
    ∷ itoa port
    ∷ []

unfoldable pub ssh_args : Target → Text → Outcome PowerError (List Text)
ssh_args target command = do
  key ← key_args target.key_path
  ok (
      fixed_args (ssh_port target.port)
      ++ (key ++ (codes "--" ∷ ssh_destination target ∷ command ∷ [])))

-- The `ssh` program, as a parameter: its output and its error for a list of arguments.
unfoldable pub default_ssh_runner : (List Text → Text × Option Text) → SshRunner
default_ssh_runner ssh target command = elim (ssh_args target command) [
  | err e ↦ ([], some e)
  | ok args ↦
      let (output, failed) = ssh args in
      let out = trim_space output in
      elim failed [
        | none ↦ (out, none)
        | some e ↦ (out, some (ssh_failed (if is_empty out then e else out)))
      ]
]

safe_ssh_path-all : (t : Text) → safe_ssh_path t ≡ true → all path_char t ≡ true
unfolding safe_ssh_path
safe_ssh_path-all t h = ground arith

key_args_shape :
    (path : Text) (key : List Text)
    → key_args path ≡ ok key
    → (key ≡ [])
      ⊎ ((file : Text) × (key ≡ codes "-i" ∷ file ∷ [])
          × (has_prefix file (codes "-") ≡ false)
          × All (λ c. path_char c ≡ true) file)
unfolding key_args
key_args_shape path key h = elim (Bool-cases (is_empty path)) [
  | inl e ↦ inl (ground arith)
  | inr e ↦ inr (
    trim_space path,
    ground arith,
    ground arith,
    all→All path_char (trim_space path) (safe_ssh_path-all (trim_space path) (ground arith)),
  )
]

-- The arguments before `--` are fixed but for the port and a key file, and the key file is no
-- option and holds only characters that `safeSSHPath` allows; behind `--` stand the destination
-- and the command alone.
pub ssh_args_shape :
    (target : Target) (command : Text) (args : List Text)
    → ssh_args target command ≡ ok args
    → (key : List Text) × (args
        ≡ fixed_args (ssh_port target.port)
          ++ (key ++ (codes "--" ∷ ssh_destination target ∷ command ∷ [])))
      × ((key ≡ [])
          ⊎ ((file : Text) × (key ≡ codes "-i" ∷ file ∷ [])
              × (has_prefix file (codes "-") ≡ false)
              × All (λ c. path_char c ≡ true) file))
unfolding ssh_args
ssh_args_shape target command args h =
    let (key, k, e) = >>=-eq-ok (key_args target.key_path) _ h in
    (key, cc e, key_args_shape target.key_path key k)
