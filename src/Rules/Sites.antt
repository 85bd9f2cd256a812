-- ===== src/Rules/Sites.antt =====
-- `normalizeSite` of internal/store/site_config.go. The parser of IPv6 texts is a parameter.
pub mod Laws
use wol.Prelude.{
  Bool, Option, Outcome, eqz, false, if◌then◌else◌, ltz, none, not, ok, pos, refuse_if, some, true,
  ℕ, ℤ, ◌&&◌, ◌++◌, ◌>>=◌, ◌>>◌, ◌||◌, ◌∷◌,
}
use wol.Net.{Ip, ipv4_string, parse_to4}
use wol.Rules.Subnet.{Cidr, broadcast_of, network, parse_cidr}
use wol.Store.{
  InventoryError, Site, bad_broadcast, bad_concurrency, bad_site_port, bad_timeout, no_site_name,
}
use wol.Text.{Text, codes, is_empty, trim_space}
use wol.Text.Decimal.{itoa}

-- `n.String()` of the network that `net.ParseCIDR` returns; the nil network prints as `<nil>`
unfoldable pub cidr_string : Option Cidr → Text
cidr_string none = codes "<nil>"
cidr_string (some c) = ipv4_string (network c) ++ (b'/' ∷ itoa c.ones)

-- the block for a subnet that is given
unfoldable pub with_subnet : Site → Outcome InventoryError Site
with_subnet item = if is_empty item.subnet then ok item else do
  b ← broadcast_of item.subnet
  ok (record item {
    subnet = cidr_string (parse_cidr item.subnet);
    broadcast_address = if is_empty item.broadcast_address then b else item.broadcast_address;
  })

unfoldable pub or_default : ℤ → ℕ → ℤ
or_default value d = if eqz value (pos 0) then pos d else value

unfoldable pub outside : ℕ → ℕ → ℤ → Bool
outside low high value = ltz value (pos low) || ltz (pos high) value

unfoldable pub with_defaults : Site → Site
with_defaults item = record item {
  default_port = or_default item.default_port 9;
  timeout_ms = or_default item.timeout_ms 2500;
  concurrency = or_default item.concurrency 4;
}

unfoldable pub not_ipv4 : (Text → Option Ip) → Text → Bool
not_ipv4 ipv6 t = elim (parse_to4 ipv6 t) [ none ↦ true | some _ ↦ false ]

-- the tests behind the defaults
unfoldable pub check_site : Site → Outcome InventoryError Site
check_site item = do
  refuse_if (outside 1 65535 item.default_port) bad_site_port
  refuse_if (outside 100 60000 item.timeout_ms) bad_timeout
  refuse_if (outside 1 16 item.concurrency) bad_concurrency
  ok item

unfoldable pub normalize_site : (Text → Option Ip) → Site → Outcome InventoryError Site
normalize_site ipv6 item = do
  refuse_if (is_empty (trim_space item.name)) no_site_name
  networked ← with_subnet (record item { name = trim_space item.name })
  refuse_if
      (not (is_empty networked.broadcast_address) && not_ipv4 ipv6 networked.broadcast_address)
      bad_broadcast
  check_site (with_defaults networked)
