-- ===== src/Packet/Send.antt =====
-- `Send` of internal/wol/packet.go. The network is a parameter: what the interfaces have for
-- addresses, whether a socket opens, what each write returns, and when the context is done.
pub mod Laws
use wol.Prelude.{
  Bool, List, Option, [], err, if◌then◌else◌, ltb, ltz, no_port, none, not, ok, pos, replicate,
  some, suc, to_nat, zero, ℕ, ℤ, ◌&&◌, ◌++◌, ◌+◌, ◌∷◌,
}
use wol.Net.{Ip, to4}
use wol.Packet.{
  WolError, bad_port, build_magic_packet, cancelled, destination_not_ipv4, negative_interval,
  socket_failed, write_failed,
}
use wol.Text.{Text, is_empty, trim_space}

abbrev pub ipv4_zero : Ip
ipv4_zero = replicate 4 0

pub record Network : Type 0 where
  -- the addresses of an interface; none if it is not found or cannot be read
  pub interfaces : Text → Option (List Ip)
  -- whether a UDP socket opens at a local address
  pub listens : Ip → Bool
  -- what the write of the i-th datagram returns: the bytes written, or nothing on an error
  pub writes : ℕ → Option ℕ
  -- whether the context is done before the i-th datagram, and in the pause behind it
  pub done_before : ℕ → Bool
  pub done_waiting : ℕ → Bool

pub record SendRequest : Type 0 where
  pub mac : List ℕ
  pub destination : Ip
  pub port : ℤ
  pub interface : Text
  pub repeats : ℤ
  pub interval : ℤ

pub record SendResult : Type 0 where
  pub destination : Ip
  pub port : ℤ
  pub packets : ℕ
  pub bytes : ℕ
  -- the interface that the warning names
  pub warning : Option Text

abbrev pub no_result : SendResult
no_result = record { destination = []; port = pos 0; packets = 0; bytes = 0; warning = none }

-- What `Send` returns, and the datagrams that the socket took.
pub record Sent : Type 0 where
  pub result : SendResult
  pub failure : Option WolError
  pub wire : List (List ℕ)

abbrev rejected : WolError → Sent
rejected e = record { result = no_result; failure = some e; wire = [] }

unfoldable pub first_ipv4 : List Ip → Option Ip
first_ipv4 [] = none
first_ipv4 (ip ∷ ips) = elim (to4 ip) [ some ip4 ↦ some ip4 | none ↦ first_ipv4 ips ]

-- `localIPv4`; none is any of its errors
unfoldable pub local_ipv4 : Network → Text → Option Ip
local_ipv4 net name =
    if is_empty name
    then some ipv4_zero
    else elim (net.interfaces name) [ none ↦ none | some ips ↦ first_ipv4 ips ]

-- the warning of `Send` when `localIPv4` fails
unfoldable pub interface_warning : Option Ip → Text → Option Text
interface_warning (some _) name = none
interface_warning none name = if is_empty (trim_space name) then none else some name

unfoldable pub count_packet : SendResult → ℕ → SendResult
count_packet r n = record r { packets = r.packets + 1; bytes = r.bytes + n }

-- The loop of `Send` from datagram `i`, with the rounds left.
unfoldable pub send_loop : Network → List ℕ → ℕ → ℤ → ℕ → ℕ → SendResult → List (List ℕ) → Sent
send_loop net packet repeats interval zero i r wire = record {
  result = r;
  failure = none;
  wire = wire;
}
send_loop net packet repeats interval (suc left) i r wire =
    let next = λ (n : ℕ).
      send_loop net packet repeats interval left (suc i) (count_packet r n) (wire ++ packet ∷ []) in
    if net.done_before i
    then record { result = r; failure = some cancelled; wire = wire }
    else elim (net.writes i) [
      | none ↦ record { result = r; failure = some write_failed; wire = wire }
      | some n ↦
          if ltb (suc i) repeats && ltz (pos 0) interval && net.done_waiting i
          then record {
            result = count_packet r n;
            failure = some cancelled;
            wire = wire ++ packet ∷ [];
          }
          else next n
    ]

-- `if request.Repeat < 1 { request.Repeat = 3 }`
unfoldable pub effective_repeat : ℤ → ℕ
effective_repeat r = if ltz r (pos 1) then 3 else to_nat r

unfoldable pub send_on : Network → SendRequest → Ip → List ℕ → Sent
send_on net req ip packet =
    let found = local_ipv4 net req.interface in
    let local : Ip = elim found [ some a ↦ a | none ↦ ipv4_zero ] in
    let repeats = effective_repeat req.repeats in
    if not (net.listens local)
    then rejected socket_failed
    else send_loop net packet repeats req.interval repeats 0
        (record {
          destination = ip;
          port = req.port;
          packets = 0;
          bytes = 0;
          warning = interface_warning found req.interface;
        })
        []

unfoldable pub send : Network → SendRequest → Sent
send net req = elim (to4 req.destination) [
  | none ↦ rejected destination_not_ipv4
  | some ip ↦
      if no_port req.port
      then rejected bad_port
      else if ltz req.interval (pos 0)
      then rejected negative_interval
      else elim (build_magic_packet req.mac) [
        | err e ↦ rejected e
        | ok packet ↦ send_on net req ip packet
      ]
]
