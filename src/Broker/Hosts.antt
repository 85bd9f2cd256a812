-- ===== src/Broker/Hosts.antt =====
-- `validLocalHost` and `isLoopbackName` of internal/localremote/session.go, with
-- `net.SplitHostPort`.
use wol.Prelude.{
  Bool, Option, [], drop, false, if◌then◌else◌, length, none, not, some, take, ℕ, ◌&&◌, ◌-◌, ◌==◌,
  ◌||◌, ◌∷◌,
}
use wol.Net.{Ip, parse_ip}
use wol.Presence.{is_loopback}
use wol.Text.{Text, codes, has_char, has_prefix, has_suffix, teq, to_lower, trim_space}

-- the text before the first, or the last, of a code point, and the text behind it
unfoldable pub cut_first : ℕ → Text → Option (Text × Text)
cut_first sep [] = none
cut_first sep (c ∷ s) =
    if c == sep
    then some ([], s)
    else elim (cut_first sep s) [ none ↦ none | some (before, after) ↦ some (c ∷ before, after) ]

unfoldable pub cut_last : ℕ → Text → Option (Text × Text)
cut_last sep [] = none
cut_last sep (c ∷ s) = elim (cut_last sep s) [
  | some (before, after) ↦ some (c ∷ before, after)
  | none ↦ if c == sep then some ([], s) else none
]

-- a host in brackets, behind the opening one
unfoldable pub bracketed_host : Text → Text → Option (Text × Text)
bracketed_host rest port = elim (cut_first b']' rest) [
  | none ↦ none
  | some (host, after) ↦
      if not (teq after (b':' ∷ port)) || has_char b'[' rest || has_char b']' after
      then none
      else some (host, port)
]

-- `net.SplitHostPort`
unfoldable pub split_host_port : Text → Option (Text × Text)
split_host_port t = elim (cut_last b':' t) [
  | none ↦ none
  | some (before, port) ↦
      if has_prefix t (codes "[")
      then bracketed_host (drop 1 t) port
      else if has_char b':' before || has_char b'[' t || has_char b']' t
      then none
      else some (before, port)
]

unfoldable pub trim_suffix : Text → Text → Text
trim_suffix s p = if has_suffix s p then take (length s - length p) s else s

unfoldable pub is_loopback_name : (Text → Option Ip) → Text → Bool
is_loopback_name ipv6 host =
    let name = trim_suffix (to_lower (trim_space host)) (codes ".") in
    teq name (codes "localhost")
    || elim (parse_ip ipv6 name) [ none ↦ false | some ip ↦ is_loopback ip ]

unfoldable pub valid_local_host : (Text → Option Ip) → Text → Text → Bool
valid_local_host ipv6 request_host expected_host = elim (split_host_port expected_host) [
  | none ↦ false
  | some (own, expected_port) ↦ elim (split_host_port request_host) [
    | none ↦ false
    | some (host, port) ↦ teq port expected_port && is_loopback_name ipv6 host
  ]
]
