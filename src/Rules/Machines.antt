-- ===== src/Rules/Machines.antt =====
-- `validateImportedDevice` of internal/store/store.go, and `normalizeWakeRelay` of relay.go and
-- `normalizePowerProfile` of power_profile.go. The parser of IPv6 texts is a parameter.
use wol.Prelude.{Bool, Option, Outcome, if◌then◌else◌, is_ok, not, ok, pos, refuse_if, ◌&&◌, ◌>>◌}
use wol.Net.{Ip}
use wol.Packet.{parse_mac}
use wol.Rules.Sites.{not_ipv4, or_default, outside}
use wol.Store.{
  Device, InventoryError, PowerProfile, WakeRelay, bad_machine_address, bad_machine_mac,
  bad_machine_port, no_machine_name,
}
use wol.Text.{Text, codes, is_empty, to_lower, trim_space}

unfoldable pub bad_ipv4 : (Text → Option Ip) → Text → Bool
bad_ipv4 ipv6 field = let value = trim_space field in not (is_empty value) && not_ipv4 ipv6 value

unfoldable pub validate_imported_device :
    (Text → Option Ip) → Device → Outcome InventoryError (Unit {0})
validate_imported_device ipv6 item = do
  refuse_if (is_empty (trim_space item.name)) no_machine_name
  refuse_if (not (is_ok (parse_mac item.mac_address))) bad_machine_mac
  refuse_if (bad_ipv4 ipv6 item.ip_address) bad_machine_address
  refuse_if (bad_ipv4 ipv6 item.broadcast_address) bad_machine_address
  refuse_if (outside 0 65535 item.port) bad_machine_port
  refuse_if (outside 0 65535 item.verify_port) bad_machine_port
  ok tt

unfoldable pub or_text : Text → Text → Text
or_text value d = if is_empty value then d else value

unfoldable pub normalize_wake_relay : WakeRelay → WakeRelay
normalize_wake_relay item = record item {
  port = or_default item.port 22;
  transport = or_text item.transport (codes "ssh_etherwake");
  interface = or_text item.interface (codes "br-lan");
}

unfoldable pub normalize_power_profile : PowerProfile → PowerProfile
normalize_power_profile item = record item {
  device_id = trim_space item.device_id;
  ssh_user = trim_space item.ssh_user;
  ssh_key = trim_space item.ssh_key;
  platform = or_text (to_lower (trim_space item.platform)) (codes "windows");
  ssh_port = if outside 1 65535 item.ssh_port then pos 22 else item.ssh_port;
}
