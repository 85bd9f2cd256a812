-- ===== src/Examples/Stores.antt =====
-- internal/store at concrete inputs.
use wol.Prelude.{
  [], arith, err, false, if◌then◌else◌, inl, inr, none, ok, pos, refl, some, true, ◌==◌, ◌∷◌, ◌≡◌,
  ◌⊎◌,
}
use wol.Net.{ipv4_string, looks_ipv6, octet, octets, parse_ip, parse_ipv4, parse_to4, to4}
use wol.Packet.{pad_part}
use wol.Rules.Sites.{
  check_site, normalize_site, not_ipv4, or_default, outside, with_defaults, with_subnet,
}
use wol.Rules.Subnet.{
  broadcast_of, cut_slash, each_octet, fill_octet, host_bits, last_address, mask_octet, network,
  parse_cidr, prefix_length,
}
use wol.Store.{
  Device, ExportData, InventoryError, RemoteProfile, Site, WakeRelay, no_device, no_relay, no_site,
  sql_failed,
}
use wol.Store.Db.{
  Env, Tables, World, exec, fresh_id, lift, need_row, normalize_db_error, pure, query, raise_if,
  stamp, transaction, transaction_when, ◌>>=◌,
}
use wol.Store.Db.Rows.{by_key, count_rows, find_row, has_row}
use wol.Store.Deletes.Relay.{delete_wake_relay-IsClosed}
use wol.Store.Deletes.Whole.{Gone, delete_device-Gone}
use wol.Store.Devices.{
  delete_device, delete_device_row, delete_memberships, delete_power_of, delete_remote_of,
}
use wol.Store.Imports.Whole.{import_all-IsClosed}
use wol.Store.Links.{IsClosed, Within, known_in}
use wol.Store.Relays.{
  create_wake_relay, delete_relay_row, delete_wake_relay, insert_relay, leave_relay,
  upsert_wake_relay_on,
}
use wol.Store.Sites.{new_site, upsert_site_on}
use wol.Store.Transfer.{
  bind_id, import_all, import_body, import_relays, import_sites, known, lookup_id, mapped_relay,
}
use wol.Text.{
  codes, contains, equal_fold, is_empty, is_space, join, split, teq, to_lower, trim_left,
  trim_right, trim_space,
}
use wol.Text.Decimal.{itoa, read_digits}

abbrev pub no_tables : Tables
no_tables = record {
  sites = [];
  devices = [];
  groups = [];
  members = [];
  attempts = [];
  relays = [];
  remote_profiles = [];
  power_profiles = [];
  power_attempts = [];
}

-- a database that does not fail
abbrev pub calm : Env
calm = record {
  fault = λ _. none;
  now = λ k. itoa k;
  nanos = λ k. k;
  suffix = λ k. 1 ∷ 2 ∷ [];
  ipv6 = λ _. none;
}

-- a database that fails when the site is inserted
abbrev stormy : Env
stormy = record calm { fault = λ k. if k == 8 then some (codes "disk I/O error") else none }

abbrev router : WakeRelay
router = record no_relay {
  id = codes "old-relay";
  name = codes " router ";
  address = codes "10.0.0.1";
}

abbrev office : Site
office = record no_site {
  id = codes "old-site";
  name = codes "office";
  subnet = codes "10.0.0.7/24";
  wake_relay_id = codes "old-relay";
}

abbrev tower : Device
tower = record no_device {
  id = codes "old-pc";
  name = codes "pc";
  mac_address = codes "AA:BB:CC:00:11:22";
  ip_address = codes "10.0.0.7";
  site_id = codes "old-site";
  wake_relay_id = codes "old-relay";
}

abbrev no_profile : RemoteProfile
no_profile = record {
  id = [];
  device_id = codes "old-pc";
  protocol = codes "VNC";
  host = [];
  port = pos 0;
  verify_port = pos 0;
  username_hint = [];
  domain_hint = codes "WORK";
  certificate_policy = [];
  mode = [];
  app_name = [];
  fps = pos 0;
  resolution = [];
  bitrate_kbps = pos 0;
  enabled = true;
  created_at = [];
  updated_at = [];
}

abbrev backup : ExportData
backup = record {
  version = pos 6;
  sites = office ∷ [];
  devices = tower ∷ [];
  groups =
      record {
        id = [];
        name = codes "all";
        description = [];
        device_ids = codes "old-pc" ∷ [];
        created_at = [];
        updated_at = [];
      }
      ∷ [];
  wake_relays = router ∷ [];
  remote_profiles = no_profile ∷ [];
  power_profiles = [];
}

abbrev start : World
start = record { tables = no_tables; tick = 0 }

failed_import : (import_all stormy backup start).0 ≡ err (sql_failed (codes "disk I/O error"))
unfolding normalize_db_error pure lift ◌>>=◌ raise_if query exec stamp fresh_id transaction_when
    transaction find_row has_row new_site upsert_site_on insert_relay create_wake_relay
    upsert_wake_relay_on lookup_id bind_id known mapped_relay import_relays import_sites import_body
    import_all cut_slash prefix_length parse_cidr host_bits mask_octet fill_octet each_octet network
    last_address broadcast_of with_subnet or_default outside with_defaults not_ipv4 check_site
    normalize_site to_lower equal_fold is_empty contains split join itoa read_digits to4 octet
    octets parse_ipv4 looks_ipv6 parse_ip parse_to4 ipv4_string pad_part
failed_import = refl

nothing-IsClosed : IsClosed no_tables
nothing-IsClosed = record {
  site_relays = tt;
  device_relays = tt;
  device_sites = tt;
  device_ids = tt;
  member_groups = tt;
  member_devices = tt;
  remote_devices = tt;
  power_devices = tt;
}

import_all-IsClosed_example :
    IsClosed (import_all calm backup start).1.tables
    × Within (known_in no_tables) (known_in (import_all calm backup start).1.tables)
import_all-IsClosed_example =
    import_all-IsClosed calm backup start (λ k. (omega arith, (omega arith, tt))) nothing-IsClosed

-- one device, which its relay wakes and a group has
abbrev full_tables : Tables
full_tables = record no_tables {
  devices = record no_device { id = codes "pc"; wake_relay_id = codes "r" } ∷ [];
  relays = record no_relay { id = codes "r" } ∷ [];
  groups =
      record { id = codes "g"; name = []; description = []; created_at = []; updated_at = [] } ∷ [];
  members = record { group_id = codes "g"; device_id = codes "pc"; position = 0 } ∷ [];
}

full-IsClosed : IsClosed full_tables
unfolding has_row by_key teq is_empty trim_space trim_left trim_right is_space
full-IsClosed = record {
  site_relays = tt;
  device_relays = (inr refl, tt);
  device_sites = (inl refl, tt);
  device_ids = (refl, tt);
  member_groups = (refl, tt);
  member_devices = (refl, tt);
  remote_devices = tt;
  power_devices = tt;
}

abbrev full : World
full = record { tables = full_tables; tick = 3 }

delete_device-Gone_example :
    (((e : InventoryError) × ((delete_device calm (codes "pc") full).0 ≡ err e))
      × ((delete_device calm (codes "pc") full).1.tables ≡ full_tables))
    ⊎ (((delete_device calm (codes "pc") full).0 ≡ ok tt)
        × (Gone (codes "pc") (delete_device calm (codes "pc") full).1.tables
            × IsClosed (delete_device calm (codes "pc") full).1.tables))
delete_device-Gone_example = delete_device-Gone calm (codes "pc") full full-IsClosed

delete_wake_relay-IsClosed_example :
    (((e : InventoryError) × ((delete_wake_relay calm (codes "r") full).0 ≡ err e))
      × ((delete_wake_relay calm (codes "r") full).1.tables ≡ full_tables))
    ⊎ (((delete_wake_relay calm (codes "r") full).0 ≡ ok tt)
        × ((has_row
                (λ r. r.id)
                (codes "r")
                (delete_wake_relay calm (codes "r") full).1.tables.relays
              ≡ false)
            × IsClosed (delete_wake_relay calm (codes "r") full).1.tables))
delete_wake_relay-IsClosed_example = delete_wake_relay-IsClosed calm (codes "r") full full-IsClosed

-- the deletions succeed
device_deleted : (delete_device calm (codes "pc") full).0 ≡ ok tt
unfolding delete_device transaction transaction_when exec ◌>>=◌ need_row raise_if delete_memberships
    delete_remote_of delete_power_of delete_device_row count_rows by_key teq
device_deleted = refl

relay_deleted : (delete_wake_relay calm (codes "r") full).0 ≡ ok tt
unfolding delete_wake_relay transaction transaction_when exec query ◌>>=◌ need_row raise_if
    leave_relay delete_relay_row count_rows by_key teq
relay_deleted = refl
