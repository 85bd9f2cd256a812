-- ===== src/Wake/Etherwake.antt =====
-- internal/wake/relay.go: the arguments that `SendEtherwake` gives to the `ssh` program.
use wol.Prelude.{
  All, All-map, Bool, Bool-cases, List, Option, Outcome, [], all, all→All, arith, err, false,
  if◌then◌else◌, inl, inr, leb, length, lez, ltz, none, not, ok, pos, refl, refuse_if, some, to_nat,
  true, ℕ, ℤ, ◌%◌, ◌&&◌, ◌++◌, ◌/◌, ◌<◌, ◌==◌, ◌>>◌, ◌||◌, ◌∷◌, ◌≡◌,
}
use wol.Packet.{mac_string}
use wol.Store.{WakeRelay}
use wol.Text.{Text, codes, equal_fold, has_prefix, is_empty, is_space, join, trim_space}
use wol.Text.Decimal.{itoa}
use wol.Text.Hex.{IsByte, hex_byte, hex_digit}
use wol.Text.Laws.{trim_space-NoSpace}
use wol.Wake.{RelayResult}

pub data RelayError : Type 0 where
  no_address bad_transport bad_relay_mac unsafe_address unsafe_interface bad_relay_port : RelayError

-- letters and digits
unfoldable pub alnum : ℕ → Bool
alnum c = (leb b'A' c && leb c b'Z') || (leb b'a' c && leb c b'z') || (leb b'0' c && leb c b'9')

unfoldable pub relay_char : ℕ → Bool
relay_char c = alnum c || c == b'.' || c == b'_' || c == b':' || c == b'-'

-- `relayTokenPattern`: `^[A-Za-z0-9][A-Za-z0-9._:-]*$`
unfoldable pub matches_token : Text → Bool
matches_token [] = false
matches_token (c ∷ s) = alnum c && all relay_char s

unfoldable pub safe_relay_token : Text → Bool
safe_relay_token value =
    if is_empty value || has_prefix value (codes "-") then false else matches_token value

unfoldable pub relay_interface : WakeRelay → Text
relay_interface r =
    let name = trim_space r.interface in if is_empty name then codes "br-lan" else name

unfoldable pub relay_ssh_port : ℤ → ℕ
relay_ssh_port port = if lez port (pos 0) then 22 else to_nat port

unfoldable pub relay_target : WakeRelay → Text
relay_target r =
    let host = trim_space r.address in
    if is_empty r.ssh_user then host else trim_space r.ssh_user ++ (b'@' ∷ host)

unfoldable pub remote_command : Text → List ℕ → Text
remote_command interface mac =
    codes "/usr/bin/etherwake -b -i " ++ (interface ++ (32 ∷ mac_string mac))

unfoldable pub port_args : ℕ → List Text
port_args port = if port == 22 then [] else codes "-p" ∷ itoa port ∷ []

abbrev pub batch_args : List Text
batch_args = codes "-o" ∷ codes "BatchMode=yes" ∷ codes "-o" ∷ codes "ConnectTimeout=2" ∷ []

-- the transport is empty or names etherwake
unfoldable pub known_transport : Text → Bool
known_transport t = is_empty (trim_space t) || equal_fold (trim_space t) (codes "ssh_etherwake")

-- the checks of `SendEtherwake`, in its order, and the arguments behind them
unfoldable pub etherwake_args : WakeRelay → List ℕ → Outcome RelayError (List Text)
etherwake_args r mac = do
  refuse_if (is_empty (trim_space r.address)) no_address
  refuse_if (not (known_transport r.transport)) bad_transport
  refuse_if (not (length mac == 6)) bad_relay_mac
  refuse_if
      (not (safe_relay_token r.address)
        || (not (is_empty r.ssh_user) && not (safe_relay_token r.ssh_user)))
      unsafe_address
  refuse_if (not (safe_relay_token (relay_interface r))) unsafe_interface
  refuse_if (ltz r.port (pos 0) || ltz (pos 65535) r.port) bad_relay_port
  ok (
      batch_args
      ++ (port_args (relay_ssh_port r.port)
          ++ (codes "--" ∷ relay_target r ∷ remote_command (relay_interface r) mac ∷ [])))

-- The `ssh` program is a parameter: its output, and its error if it fails.
unfoldable pub send_etherwake :
    (List Text → Text × Option Text)
    → (RelayError → Text)
    → WakeRelay
    → List ℕ
    → RelayResult × Option Text
send_etherwake ssh explain r mac = elim (etherwake_args r mac) [
  | err e ↦ (record { packets = 0; detail = [] }, some (explain e))
  | ok args ↦
      let (output, failed) = ssh args in
      let message = trim_space output in
      elim failed [
        | none ↦ (record { packets = 1; detail = message }, none)
        | some e ↦ (
          record { packets = 0; detail = [] },
          some (codes "ssh etherwake failed: " ++ (if is_empty message then e else message)),
        )
      ]
]

abbrev pub Token : Text → Type 0
Token = All (λ c. relay_char c ≡ true)

Token-chars : (t : Text) → safe_relay_token t ≡ true → Token t
unfolding safe_relay_token matches_token
Token-chars [] h = cc
Token-chars (c ∷ s) h = (unfold relay_char in ground arith, all→All relay_char s (ground arith))

token_start : (t : Text) → safe_relay_token t ≡ true → has_prefix t (codes "-") ≡ false
unfolding safe_relay_token
token_start t h = ground arith

relay_char-no_space : (c : ℕ) → relay_char c ≡ true → is_space c ≡ false
unfolding relay_char alnum is_space
relay_char-no_space c h = ground arith

token-trim : (t : Text) → safe_relay_token t ≡ true → trim_space t ≡ t
token-trim t h = trim_space-NoSpace t (All-map _ _ relay_char-no_space t (Token-chars t h))

hex-relay_char : (n : ℕ) → n < 16 → relay_char (hex_digit n) ≡ true
unfolding relay_char alnum hex_digit
hex-relay_char n h = ground arith

mac-Token : (mac : List ℕ) → All IsByte mac → Token (mac_string mac)
unfolding mac_string join hex_byte relay_char alnum
mac-Token [] h = tt
mac-Token (b ∷ []) (hb, _) =
    (hex-relay_char (b / 16) (omega arith), (hex-relay_char (b % 16) (omega arith), tt))
mac-Token (b ∷ d ∷ bs) (hb, hs) = (
  hex-relay_char (b / 16) (omega arith),
  (hex-relay_char (b % 16) (omega arith), (refl, mac-Token (d ∷ bs) hs)),
)

empty_text : (t : Text) → is_empty t ≡ true → t ≡ []
unfolding is_empty
empty_text [] h = refl
empty_text (c ∷ t) h = cc

module _ (r : WakeRelay) (mac : List ℕ) (args : List Text) where
  pub accepted :
      etherwake_args r mac ≡ ok args
      → (safe_relay_token r.address ≡ true)
        × ((is_empty r.ssh_user || safe_relay_token r.ssh_user) ≡ true)
        × (safe_relay_token (relay_interface r) ≡ true)
        × (args
            ≡ batch_args
              ++ (port_args (relay_ssh_port r.port)
                  ++ (codes "--" ∷ relay_target r ∷ remote_command (relay_interface r) mac ∷ [])))
  unfolding etherwake_args
  accepted h = (ground arith, ground arith, ground arith, ground arith)

-- a text that is a token and does not begin with a dash
abbrev pub SafeToken : Text → Type 0
SafeToken t = Token t × (has_prefix t (codes "-") ≡ false)

safe-SafeToken : (t : Text) → safe_relay_token t ≡ true → SafeToken t
safe-SafeToken t h = (Token-chars t h, token_start t h)

user-SafeToken : (t : Text) → (is_empty t || safe_relay_token t) ≡ true → SafeToken t
user-SafeToken t h = elim (Bool-cases (is_empty t)) [
  | inl y ↦ rw (empty_text t y) (tt, unfold has_prefix in refl)
  | inr n ↦ safe-SafeToken t (ground arith)
]

target_user :
    (r : WakeRelay)
    → safe_relay_token r.address ≡ true
    → (is_empty r.ssh_user || safe_relay_token r.ssh_user) ≡ true
    → relay_target r ≡ (if is_empty r.ssh_user then r.address else r.ssh_user ++ (b'@' ∷ r.address))
unfolding relay_target
target_user r ha hu = elim (Bool-cases (is_empty r.ssh_user)) [
  | inl y ↦ rw (y, token-trim r.address ha, relay_target)
  | inr n ↦ rw (n, token-trim r.address ha, token-trim r.ssh_user (ground arith), relay_target)
]

-- The arguments of a relayed wake: options that hold nothing of the relay but its port, then `--`,
-- the target and one command. The host and the user are made of letters, digits and `._:-` and do
-- not begin with `-`; the command is the fixed etherwake call with an interface and an address
-- made of the same characters.
pub etherwake_args_safe :
    (r : WakeRelay) (mac : List ℕ) (args : List Text)
    → All IsByte mac
    → etherwake_args r mac ≡ ok args
    → (args
        ≡ batch_args
          ++ (port_args (relay_ssh_port r.port)
              ++ (codes "--" ∷ relay_target r ∷ remote_command (relay_interface r) mac ∷ [])))
      × (relay_target r
          ≡ (if is_empty r.ssh_user then r.address else r.ssh_user ++ (b'@' ∷ r.address)))
      × SafeToken r.address
      × SafeToken r.ssh_user
      × (Token (relay_interface r) × Token (mac_string mac))
etherwake_args_safe r mac args hm h =
    let (ha, hu, hi, e) = accepted r mac args h in
    (
      e,
      target_user r ha hu,
      safe-SafeToken r.address ha,
      user-SafeToken r.ssh_user hu,
      (Token-chars (relay_interface r) hi, mac-Token mac hm),
    )
