-- ===== src/Rules/Subnet.antt =====
-- `Broadcast` of internal/netutil/ipv4.go. `net.ParseCIDR` also accepts IPv6 texts, which
-- `Broadcast` always refuses, so the model of it reads IPv4 texts alone.
use wol.Prelude.{
  Option, Outcome, [], err, if◌then◌else◌, ltb, min, none, ok, some, suc, ℕ, ◌*◌, ◌+◌, ◌-◌, ◌/◌,
  ◌==◌, ◌^◌, ◌∷◌,
}
use wol.Net.{Ip, ipv4_string, parse_ipv4}
use wol.Store.{InventoryError, bad_subnet, no_broadcast}
use wol.Text.{Text, is_empty, trim_space}
use wol.Text.Decimal.{read_digits}

-- the text before and behind the first slash
unfoldable pub cut_slash : Text → Option (Text × Text)
cut_slash [] = none
cut_slash (c ∷ s) =
    let rest = cut_slash s in
    if c == b'/' then some ([], s) else elim rest [ none ↦ none | some (a, b) ↦ some (c ∷ a, b) ]

-- a prefix length of digits, at most 32
unfoldable pub prefix_length : Text → Option ℕ
prefix_length t =
    if is_empty t
    then none
    else elim (read_digits 0 t) [ none ↦ none | some n ↦ if ltb 32 n then none else some n ]

pub record Cidr : Type 0 where
  pub ip : Ip
  pub ones : ℕ

-- `net.ParseCIDR` on IPv4
unfoldable pub parse_cidr : Text → Option Cidr
parse_cidr t = elim (cut_slash t) [
  | none ↦ none
  | some (address, mask) ↦ elim (parse_ipv4 address) [
    | none ↦ none
    | some ip ↦ elim (prefix_length mask) [
      | none ↦ none
      | some n ↦ some (record { ip = ip; ones = n })
    ]
  ]
]

-- the bits of octet `i` that a mask with so many ones leaves to the host
unfoldable pub host_bits : ℕ → ℕ → ℕ
host_bits ones i = 8 - min 8 (ones - 8 * i)

-- `o & mask` and `o | ^mask` for an octet whose last `h` bits are the host's
unfoldable pub mask_octet : ℕ → ℕ → ℕ
mask_octet h o = o / 2 ^ h * 2 ^ h

unfoldable pub fill_octet : ℕ → ℕ → ℕ
fill_octet h o = mask_octet h o + (2 ^ h - 1)

unfoldable pub each_octet : (ℕ → ℕ → ℕ) → ℕ → ℕ → Ip → Ip
each_octet f ones i [] = []
each_octet f ones i (o ∷ ip) = f (host_bits ones i) o ∷ each_octet f ones (suc i) ip

unfoldable pub network : Cidr → Ip
network c = each_octet mask_octet c.ones 0 c.ip

-- the loop of `Broadcast` over the network address
unfoldable pub last_address : Cidr → Ip
last_address c = each_octet fill_octet c.ones 0 (network c)

unfoldable pub broadcast_of : Text → Outcome InventoryError Text
broadcast_of cidr = elim (parse_cidr (trim_space cidr)) [
  | none ↦ err bad_subnet
  | some c ↦ if ltb 30 c.ones then err no_broadcast else ok (ipv4_string (last_address c))
]
