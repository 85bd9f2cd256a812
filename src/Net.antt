-- ===== src/Net.antt =====
-- What the program uses of Go's `net`: IP addresses as their bytes, IPv4 texts, and the step from
-- an address to its IPv4 form. The parser of IPv6 texts is a parameter.
use wol.Prelude.{
  Bool, List, Option, [], drop, false, if◌then◌else◌, length, ltb, map, none, replicate, some, take,
  true, ℕ, ◌&&◌, ◌++◌, ◌==◌, ◌||◌, ◌∷◌,
}
use wol.Text.{Text, codes, has_prefix, is_empty, join, split, teq}
use wol.Text.Decimal.{itoa, read_digits}

-- The nil address has no bytes.
abbrev pub Ip : Type 0
Ip = List ℕ

abbrev pub mapped_prefix : List ℕ
mapped_prefix = replicate 10 0 ++ replicate 2 0xff

-- `net.IP.To4`
unfoldable pub to4 : Ip → Option Ip
to4 ip =
    if length ip == 4
    then some ip
    else if length ip == 16 && teq (take 12 ip) mapped_prefix
    then some (drop 12 ip)
    else none

-- One field of an IPv4 text: digits with no leading zero, at most 255.
unfoldable pub octet : Text → Option ℕ
octet t =
    if is_empty t || (has_prefix t (codes "0") && ltb 1 (length t)) || ltb 3 (length t)
    then none
    else elim (read_digits 0 t) [ none ↦ none | some n ↦ if ltb 255 n then none else some n ]

unfoldable pub octets : List Text → Option Ip
octets [] = some []
octets (t ∷ ts) = elim (octet t) [
  | none ↦ none
  | some n ↦ elim (octets ts) [ none ↦ none | some ns ↦ some (n ∷ ns) ]
]

unfoldable pub parse_ipv4 : Text → Option Ip
parse_ipv4 t = let fields = split b'.' t in if length fields == 4 then octets fields else none

-- `net.ParseIP`: the first of `.` and `:` decides.
unfoldable pub looks_ipv6 : Text → Bool
looks_ipv6 [] = false
looks_ipv6 (c ∷ s) = if c == b'.' then false else if c == b':' then true else looks_ipv6 s

-- An IPv4 address is returned in its 16-byte form.
unfoldable pub parse_ip : (Text → Option Ip) → Text → Option Ip
parse_ip ipv6 t =
    if looks_ipv6 t
    then ipv6 t
    else elim (parse_ipv4 t) [ none ↦ none | some ip ↦ some (mapped_prefix ++ ip) ]

-- `net.ParseIP(t).To4()`
unfoldable pub parse_to4 : (Text → Option Ip) → Text → Option Ip
parse_to4 ipv6 t = elim (parse_ip ipv6 t) [ none ↦ none | some ip ↦ to4 ip ]

-- `net.IP.String` of an IPv4 address
unfoldable pub ipv4_string : Ip → Text
ipv4_string ip = join b'.' (map itoa ip)
