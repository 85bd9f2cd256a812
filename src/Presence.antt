-- ===== src/Presence.antt =====
-- internal/presence/presence.go: `Probe`, `ProbeBatch` and `Summarize`. What the network answers,
-- the contexts, the clock and the texts of IPv6 addresses are parameters.
pub mod Probe
pub mod Laws
use wol.Prelude.{
  Bool, List, Option, Outcome, [], all, err, false, if◌then◌else◌, leb, lez, ltz, max, min, none,
  not, ok, pos, refuse_if, replicate, some, suc, to_nat, true, ℕ, ℤ, ◌&&◌, ◌++◌, ◌/◌, ◌==◌, ◌>>=◌,
  ◌>>◌, ◌||◌, ◌∷◌,
}
use wol.Net.{Ip, parse_ip, to4}
use wol.Text.{Text, codes, contains, is_empty, teq, to_lower, trim_space}

pub data Status : Type 0 where
  online offline unreported : Status

pub data Method : Type 0 where
  tcp_verify tcp_refused tcp_sweep icmp arp no_method : Method

pub data TargetError : Type 0 where
  no_address bad_address unspecified multicast broadcast_address loopback : TargetError

-- the message of a result
pub data Note : Type 0 where
  silent cached_arp no_access no_answer : Note
  refused_target : TargetError → Note

pub record Target : Type 0 where
  pub device_id : Text
  pub ip_address : Text
  pub verify_port : ℤ

pub record Result : Type 0 where
  pub device_id : Text
  pub ip_address : Text
  pub status : Status
  pub method : Method
  pub latency : ℤ
  pub checked_at : Text
  pub cached : Bool
  pub message : Note

pub record Summary : Type 0 where
  pub total : ℕ
  pub online_count : ℕ
  pub offline_count : ℕ
  pub unknown_count : ℕ

-- an error of a dial: whether its chain has one of the two kinds of codes, and its text
pub record DialError : Type 0 where
  pub refused_code : Bool
  pub unreachable_code : Bool
  pub text : Text

-- What one probe meets. A sweep skips a port when its context ends first, and may lose a result
-- that is not an answer. `probe_done` is asked before the sweep, the ping and the neighbors.
pub record Radio : Type 0 where
  pub ipv6 : Text → Option Ip
  pub ipv6_text : Ip → Text
  pub dial : Text → ℤ → ℕ → Option DialError
  pub skips : ℤ → Bool
  pub loses : ℤ → Bool
  pub ping : Text → ℕ → Option ℤ
  pub neighbor : Text → Bool
  pub probe_done : ℕ → Bool
  pub caller_done : Bool
  pub remaining : ℤ
  pub elapsed : ℤ
  pub checked_at : Text

pub record Detector : Type 0 where
  pub tcp_ports : List ℤ
  pub allow_loopback : Bool

unfoldable pub is_connection_refused : DialError → Bool
is_connection_refused e =
    let message = to_lower e.text in
    e.refused_code
    || contains message (codes "connection refused")
    || contains message (codes "actively refused")
    || contains message (codes "wsaeconnrefused")

unfoldable pub is_host_unreachable : DialError → Bool
is_host_unreachable e =
    let message = to_lower e.text in
    e.unreachable_code
    || contains message (codes "no route to host")
    || contains message (codes "network is unreachable")
    || contains message (codes "host is unreachable")
    || contains message (codes "wsaehostunreach")
    || contains message (codes "wsaenetunreach")

-- `IsUnspecified`, `IsMulticast` and `IsLoopback` of an address in either form
unfoldable pub is_unspecified : Ip → Bool
is_unspecified ip = elim (to4 ip) [ some v4 ↦ all (λ b. b == 0) v4 | none ↦ all (λ b. b == 0) ip ]

unfoldable pub first_byte : Ip → ℕ
first_byte [] = 0
first_byte (b ∷ _) = b

unfoldable pub is_multicast : Ip → Bool
is_multicast ip = elim (to4 ip) [
  | some v4 ↦ leb 224 (first_byte v4) && leb (first_byte v4) 239
  | none ↦ first_byte ip == 255
]

unfoldable pub is_loopback : Ip → Bool
is_loopback ip = elim (to4 ip) [
  | some v4 ↦ first_byte v4 == 127
  | none ↦ teq ip (replicate 15 0 ++ 1 ∷ [])
]

unfoldable pub is_limited_broadcast : Ip → Bool
is_limited_broadcast ip = elim (to4 ip) [ some v4 ↦ all (λ b. b == 255) v4 | none ↦ false ]

unfoldable pub parsed_target : Option Ip → Outcome TargetError Ip
parsed_target none = err bad_address
parsed_target (some ip) = ok ip

unfoldable pub validate_target_ip : (Text → Option Ip) → Bool → Text → Outcome TargetError Ip
validate_target_ip ipv6 allow_loopback t = do
  refuse_if (is_empty (trim_space t)) no_address
  ip ← parsed_target (parse_ip ipv6 (trim_space t))
  refuse_if (is_unspecified ip) unspecified
  refuse_if (is_multicast ip) multicast
  refuse_if (is_limited_broadcast ip) broadcast_address
  refuse_if (is_loopback ip && not allow_loopback) loopback
  ok ip

-- 2000 milliseconds where none is given
unfoldable pub probe_timeout : ℤ → ℕ
probe_timeout t = if lez t (pos 0) then 2000000000 else to_nat t

-- a part of the timeout, at most a limit and at least 100 milliseconds
unfoldable pub share : ℕ → ℕ → ℕ → ℕ
share timeout parts limit = max 100000000 (min limit (timeout / parts))

unfoldable pub ping_timeout : ℤ → ℕ
ping_timeout remaining =
    if ltz (pos 0) remaining && ltz remaining (pos 1000000000)
    then max 100000000 (to_nat remaining)
    else 1000000000

pub data Answer : Type 0 where
  connected refused unreachable nothing : Answer

unfoldable pub answered : Answer → Bool
answered connected = true
answered refused = true
answered _ = false

unfoldable pub is_unreachable : Answer → Bool
is_unreachable unreachable = true
is_unreachable _ = false

unfoldable pub is_nil {ℓ} : {A : Type ℓ} → List A → Bool
is_nil [] = true
is_nil (_ ∷ _) = false

unfoldable pub summarize : List Result → Summary
summarize [] = record { total = 0; online_count = 0; offline_count = 0; unknown_count = 0 }
summarize (r ∷ rs) =
    let rest = summarize rs in
    let more = record rest { total = suc rest.total } in
    elim r.status [
      | online ↦ record more { online_count = suc rest.online_count }
      | offline ↦ record more { offline_count = suc rest.offline_count }
      | unreported ↦ record more { unknown_count = suc rest.unknown_count }
    ]
