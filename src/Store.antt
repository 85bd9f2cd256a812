-- ===== src/Store.antt =====
-- internal/store: the records of the inventory. Time stamps are the texts that the store keeps.
-- The operations stand in the children; the rules on the fields of records stand in `Rules`.
pub mod Db
pub mod Sites
pub mod Devices
pub mod Groups
pub mod Relays
pub mod Profiles
pub mod Attempts
pub mod Transfer
pub mod Atomic
pub mod Deletes
pub mod Links
pub mod Logic
pub mod Rules
pub mod Replace
pub mod Writes
pub mod Upserts
pub mod Imports
use wol.Prelude.{Bool, List, [], false, pos, ℕ, ℤ}
use wol.Text.{Text}

pub record Site : Type 0 where
  pub subnet : Text
  pub wake_relay_id : Text
  pub timeout_ms : ℤ
  pub concurrency : ℤ
  pub id : Text
  pub name : Text
  pub broadcast_address : Text
  pub default_port : ℤ
  pub default_interface : Text
  pub created_at : Text
  pub updated_at : Text

pub record Device : Type 0 where
  pub id : Text
  pub name : Text
  pub mac_address : Text
  pub ip_address : Text
  pub broadcast_address : Text
  pub port : ℤ
  pub interface : Text
  pub site_id : Text
  pub device_type : Text
  pub platform : Text
  pub wake_strategy : Text
  pub wake_relay_id : Text
  pub verify_port : ℤ
  pub description : Text
  pub enabled : Bool
  pub created_at : Text
  pub updated_at : Text

pub record Group : Type 0 where
  pub id : Text
  pub name : Text
  pub description : Text
  pub device_ids : List Text
  pub created_at : Text
  pub updated_at : Text

pub record WakeAttempt : Type 0 where
  pub id : Text
  pub target_type : Text
  pub target_id : Text
  pub target_name : Text
  pub mac_address : Text
  pub destination : Text
  pub port : ℤ
  pub packet_status : Text
  pub verification_status : Text
  pub message : Text
  pub packets : ℕ
  pub created_at : Text

pub record WakeRelay : Type 0 where
  pub id : Text
  pub name : Text
  pub address : Text
  pub port : ℤ
  pub transport : Text
  pub interface : Text
  pub ssh_user : Text
  pub shared_secret_hash : Text
  pub enabled : Bool
  pub created_at : Text
  pub updated_at : Text

pub record RemoteProfile : Type 0 where
  pub id : Text
  pub device_id : Text
  pub protocol : Text
  pub host : Text
  pub port : ℤ
  pub verify_port : ℤ
  pub username_hint : Text
  pub domain_hint : Text
  pub certificate_policy : Text
  pub mode : Text
  pub app_name : Text
  pub fps : ℤ
  pub resolution : Text
  pub bitrate_kbps : ℤ
  pub enabled : Bool
  pub created_at : Text
  pub updated_at : Text

pub record PowerProfile : Type 0 where
  pub id : Text
  pub device_id : Text
  pub ssh_user : Text
  pub ssh_port : ℤ
  pub ssh_key : Text
  pub platform : Text
  pub use_sudo : Bool
  pub enabled : Bool
  pub created_at : Text
  pub updated_at : Text

pub record PowerAttempt : Type 0 where
  pub id : Text
  pub device_id : Text
  pub device_name : Text
  pub action : Text
  pub delay_seconds : ℤ
  pub status : Text
  pub message : Text
  pub created_at : Text

pub record ExportData : Type 0 where
  pub version : ℤ
  pub sites : List Site
  pub devices : List Device
  pub groups : List Group
  pub wake_relays : List WakeRelay
  pub remote_profiles : List RemoteProfile
  pub power_profiles : List PowerProfile

-- What an operation reports. A text of SQLite stands in `sql_failed`.
pub data InventoryError : Type 0 where
  missing_record conflict : InventoryError
  sql_failed : Text → InventoryError
  site_in_use relay_in_use : ℕ → InventoryError
  no_site_name bad_subnet no_broadcast bad_broadcast : InventoryError
  bad_site_port bad_timeout bad_concurrency bad_address : InventoryError
  no_machine_name bad_machine_mac bad_machine_address bad_machine_port : InventoryError
  no_profile_device unknown_profile_device : InventoryError
  bad_protocol no_host bad_host bad_remote_port bad_verify_port bad_mode : InventoryError
  bad_fps bad_bitrate bad_resolution bad_username bad_domain bad_policy : InventoryError
  bad_version : ℤ → InventoryError
  unknown_relay unknown_machine : Text → InventoryError

-- Go's zero values
abbrev pub no_site : Site
no_site = record {
  subnet = [];
  wake_relay_id = [];
  timeout_ms = pos 0;
  concurrency = pos 0;
  id = [];
  name = [];
  broadcast_address = [];
  default_port = pos 0;
  default_interface = [];
  created_at = [];
  updated_at = [];
}

abbrev pub no_relay : WakeRelay
no_relay = record {
  id = [];
  name = [];
  address = [];
  port = pos 0;
  transport = [];
  interface = [];
  ssh_user = [];
  shared_secret_hash = [];
  enabled = false;
  created_at = [];
  updated_at = [];
}

abbrev pub no_device : Device
no_device = record {
  id = [];
  name = [];
  mac_address = [];
  ip_address = [];
  broadcast_address = [];
  port = pos 0;
  interface = [];
  site_id = [];
  device_type = [];
  platform = [];
  wake_strategy = [];
  wake_relay_id = [];
  verify_port = pos 0;
  description = [];
  enabled = false;
  created_at = [];
  updated_at = [];
}

abbrev pub no_attempt : WakeAttempt
no_attempt = record {
  id = [];
  target_type = [];
  target_id = [];
  target_name = [];
  mac_address = [];
  destination = [];
  port = pos 0;
  packet_status = [];
  verification_status = [];
  message = [];
  packets = 0;
  created_at = [];
}
