-- ===== src/Store/Devices.antt =====
-- The operations on devices of internal/store/store.go, and `SyncDeviceAddress` of site_config.go.
use wol.Prelude.{
  Bool, List, Outcome, [], err, false, if◌then◌else◌, none, ok, some, true, ℕ, ◌&&◌, ◌++◌, ◌==◌,
  ◌||◌, ◌∷◌,
}
use wol.Rules.Machines.{or_text}
use wol.Rules.Sites.{not_ipv4}
use wol.Store.{Device, RemoteProfile, bad_address}
use wol.Store.Db.{
  Db, Env, SqlError, Tables, constraint_failed, exec, fresh_id, lift, need_row, normalize_db_error,
  pure, query, raise_if, raw_db_error, stamp, transaction, transaction_when, ◌>>=◌, ◌>>◌,
}
use wol.Store.Db.Rows.{
  by_key, clashes, count_rows, delete_rows, find_row, has_row, order_by, text_before, update_rows,
}
use wol.Store.Sites.{found_or}
use wol.Text.{Text, codes, teq, to_lower, trim_space}

unfoldable pub stored_device : Device → Device
stored_device item = record item {
  name = trim_space item.name;
  mac_address = to_lower item.mac_address;
}

unfoldable pub insert_device : Device → Tables → Outcome SqlError (ℕ × Tables)
insert_device item t =
    if has_row (λ r. r.id) item.id t.devices
      || has_row (λ r. r.name) (trim_space item.name) t.devices
      || has_row (λ r. r.mac_address) (to_lower item.mac_address) t.devices
    then err constraint_failed
    else ok (1, record t { devices = t.devices ++ stored_device item ∷ [] })

-- the UPDATE of a device
unfoldable pub set_device : Device → Device → Device
set_device item row = record row {
  name = trim_space item.name;
  mac_address = to_lower item.mac_address;
  ip_address = item.ip_address;
  broadcast_address = item.broadcast_address;
  port = item.port;
  interface = item.interface;
  site_id = item.site_id;
  device_type = item.device_type;
  platform = item.platform;
  wake_strategy = item.wake_strategy;
  wake_relay_id = item.wake_relay_id;
  verify_port = item.verify_port;
  description = item.description;
  enabled = item.enabled;
  updated_at = item.updated_at;
}

unfoldable pub update_device_row : Text → Device → Tables → Outcome SqlError (ℕ × Tables)
update_device_row id item t =
    if has_row (λ r. r.id) id t.devices
      && (clashes (λ r. r.id) id (λ r. r.name) (trim_space item.name) t.devices
          || clashes (λ r. r.id) id (λ r. r.mac_address) (to_lower item.mac_address) t.devices)
    then err constraint_failed
    else ok (
      count_rows (by_key (λ r. r.id) id) t.devices,
      record t { devices = update_rows (by_key (λ r. r.id) id) (set_device item) t.devices },
    )

-- the four DELETE statements of `DeleteDevice`
unfoldable pub delete_memberships : Text → Tables → Outcome SqlError (ℕ × Tables)
delete_memberships id t = ok (
  count_rows (by_key (λ r. r.device_id) id) t.members,
  record t { members = delete_rows (by_key (λ r. r.device_id) id) t.members },
)

unfoldable pub delete_remote_of : Text → Tables → Outcome SqlError (ℕ × Tables)
delete_remote_of id t = ok (
  count_rows (by_key (λ r. r.device_id) id) t.remote_profiles,
  record t { remote_profiles = delete_rows (by_key (λ r. r.device_id) id) t.remote_profiles },
)

unfoldable pub delete_power_of : Text → Tables → Outcome SqlError (ℕ × Tables)
delete_power_of id t = ok (
  count_rows (by_key (λ r. r.device_id) id) t.power_profiles,
  record t { power_profiles = delete_rows (by_key (λ r. r.device_id) id) t.power_profiles },
)

unfoldable pub delete_device_row : Text → Tables → Outcome SqlError (ℕ × Tables)
delete_device_row id t = ok (
  count_rows (by_key (λ r. r.id) id) t.devices,
  record t { devices = delete_rows (by_key (λ r. r.id) id) t.devices },
)

-- the two UPDATE statements of `SyncDeviceAddress`
unfoldable pub move_device : Text → Text → Text → Text → Tables → Outcome SqlError (ℕ × Tables)
move_device id old_ip new_ip now t =
    let test : Device → Bool = λ r. teq r.id id && teq r.ip_address old_ip in
    ok (
      count_rows test t.devices,
      record t {
        devices =
            update_rows test (λ r. record r { ip_address = new_ip; updated_at = now }) t.devices;
      },
    )

unfoldable pub move_profile : Text → Text → Text → Text → Tables → Outcome SqlError (ℕ × Tables)
move_profile id old_ip new_ip now t =
    let test : RemoteProfile → Bool = λ r. teq r.device_id id && teq r.host old_ip in
    ok (
      count_rows test t.remote_profiles,
      record t {
        remote_profiles =
            update_rows test (λ r. record r { host = new_ip; updated_at = now }) t.remote_profiles;
      },
    )

-- the defaults of `CreateDevice`, and those of `UpdateDevice`
unfoldable pub with_platform : Device → Device
with_platform item = record item {
  platform = or_text item.platform (codes "unknown");
  wake_strategy = or_text item.wake_strategy (codes "broadcast");
}

module _ (env : Env) where
  unfoldable pub list_devices : Db (List Device)
  list_devices = query env (λ t. order_by (λ a b. text_before a.name b.name) t.devices)

  unfoldable pub get_device : Text → Db Device
  get_device id = do
    found ← query env (λ t. find_row (by_key (λ r. r.id) id) t.devices)
    lift (found_or found)

  unfoldable pub create_device : Device → Db Device
  create_device item = do
    now ← stamp env
    id ← fresh_id env (codes "device")
    let row = record (with_platform item) {
      id = id;
      created_at = now;
      updated_at = now;
      device_type = or_text item.device_type (codes "unknown");
    }
    _ ← exec env normalize_db_error (insert_device row)
    pure row

  unfoldable pub update_device : Text → Device → Db Device
  update_device id item = do
    now ← stamp env
    count ←
        exec env normalize_db_error
          (update_device_row id (with_platform (record item { updated_at = now })))
    need_row count
    get_device id

  unfoldable pub delete_device : Text → Db (Unit {0})
  delete_device id = transaction env (do
    _ ← exec env raw_db_error (delete_memberships id)
    _ ← exec env raw_db_error (delete_remote_of id)
    _ ← exec env raw_db_error (delete_power_of id)
    count ← exec env normalize_db_error (delete_device_row id)
    need_row count)

  unfoldable pub upsert_device_on : Device → Db Device
  upsert_device_on item = do
    existing ←
        query env
          (λ t. find_row (by_key (λ r. r.mac_address) (to_lower item.mac_address)) t.devices)
    elim existing [ none ↦ create_device item | some old ↦ update_device old.id item ]

  -- the result says whether an address was changed; without a change nothing is committed
  unfoldable pub sync_device_address : Text → Text → Text → Db Bool
  sync_device_address id old_ip new_ip = do
    raise_if (not_ipv4 env.ipv6 new_ip) bad_address
    transaction_when env (λ changed. changed)
        (do
          now ← stamp env
          count ← exec env raw_db_error (move_device id old_ip new_ip now)
          if count == 0
              then pure false
              else do _ ← exec env raw_db_error (move_profile id old_ip new_ip now); pure true)
