-- ===== src/Store/Profiles.antt =====
-- The operations on remote profiles (internal/store/remote_profile.go) and on power profiles
-- (power_profile.go): one of each for a device.
use wol.Prelude.{
  List, Option, Outcome, [], err, if◌then◌else◌, none, not, ok, some, ℕ, ◌++◌, ◌||◌, ◌∷◌,
}
use wol.Rules.Machines.{normalize_power_profile}
use wol.Rules.Remote.{normalize_remote_profile}
use wol.Store.{
  Device, InventoryError, PowerProfile, RemoteProfile, no_profile_device, unknown_profile_device,
}
use wol.Store.Attempts.{id_or_fresh}
use wol.Store.Db.{
  Db, Env, SqlError, Tables, constraint_failed, exec, lift, need_row, normalize_db_error, pure,
  query, raise_if, raw_db_error, stamp, ◌>>=◌, ◌>>◌,
}
use wol.Store.Db.Rows.{by_key, count_rows, find_row, has_row, order_by, text_before, update_rows}
use wol.Store.Devices.{delete_power_of, delete_remote_of}
use wol.Store.Sites.{found_or}
use wol.Text.{Text, codes, is_empty, trim_space}

unfoldable pub insert_remote : RemoteProfile → Tables → Outcome SqlError (ℕ × Tables)
insert_remote item t =
    if has_row (λ r. r.id) item.id t.remote_profiles
      || has_row (λ r. r.device_id) item.device_id t.remote_profiles
    then err constraint_failed
    else ok (1, record t { remote_profiles = t.remote_profiles ++ item ∷ [] })

unfoldable pub set_remote : RemoteProfile → RemoteProfile → RemoteProfile
set_remote item row = record item {
  id = row.id;
  device_id = row.device_id;
  created_at = row.created_at;
}

unfoldable pub update_remote_row : RemoteProfile → Tables → Outcome SqlError (ℕ × Tables)
update_remote_row item t = ok (
  count_rows (by_key (λ r. r.device_id) item.device_id) t.remote_profiles,
  record t {
    remote_profiles =
        update_rows (by_key (λ r. r.device_id) item.device_id) (set_remote item) t.remote_profiles;
  },
)

unfoldable pub insert_power : PowerProfile → Tables → Outcome SqlError (ℕ × Tables)
insert_power item t =
    if has_row (λ r. r.id) item.id t.power_profiles
      || has_row (λ r. r.device_id) item.device_id t.power_profiles
    then err constraint_failed
    else ok (1, record t { power_profiles = t.power_profiles ++ item ∷ [] })

unfoldable pub set_power : PowerProfile → PowerProfile → PowerProfile
set_power item row = record item {
  id = row.id;
  device_id = row.device_id;
  created_at = row.created_at;
}

unfoldable pub update_power_row : PowerProfile → Tables → Outcome SqlError (ℕ × Tables)
update_power_row item t = ok (
  count_rows (by_key (λ r. r.device_id) item.device_id) t.power_profiles,
  record t {
    power_profiles =
        update_rows (by_key (λ r. r.device_id) item.device_id) (set_power item) t.power_profiles;
  },
)

-- `fmt.Errorf("… device: %w", ErrNotFound)`
unfoldable pub profile_device {ℓ} : {A : Type ℓ} → Option A → Outcome InventoryError A
profile_device none = err unknown_profile_device
profile_device (some a) = ok a

module _ (env : Env) where
  unfoldable pub find_device : Text → Db Device
  find_device id = do
    found ← query env (λ t. find_row (by_key (λ r. r.id) id) t.devices)
    lift (profile_device found)

  unfoldable pub get_remote_profile : Text → Db RemoteProfile
  get_remote_profile device_id = do
    found ←
        query env
          (λ t. find_row (by_key (λ r. r.device_id) (trim_space device_id)) t.remote_profiles)
    lift (found_or found)

  unfoldable pub list_remote_profiles : Db (List RemoteProfile)
  list_remote_profiles =
      query env (λ t. order_by (λ a b. text_before a.device_id b.device_id) t.remote_profiles)

  -- the INSERT or the UPDATE, and the row that is there behind it
  unfoldable pub write_remote : RemoteProfile → Db RemoteProfile
  write_remote item = do
    now ← stamp env
    existing ←
        query env (λ t. find_row (by_key (λ r. r.device_id) item.device_id) t.remote_profiles)
    elim existing [
      | none ↦ do
        id ← id_or_fresh env (codes "remote") item.id
        _ ←
            exec env normalize_db_error
              (insert_remote (record item { id = id; created_at = now; updated_at = now }))
        pure tt
      | some old ↦ do
        _ ← exec env normalize_db_error (update_remote_row (record item { updated_at = now }))
        pure tt
    ]
    found ← query env (λ t. find_row (by_key (λ r. r.device_id) item.device_id) t.remote_profiles)
    lift (found_or found)

  unfoldable pub upsert_remote_profile : RemoteProfile → Db RemoteProfile
  upsert_remote_profile item = do
    device ← find_device (trim_space item.device_id)
    let host = if is_empty (trim_space item.host) then device.ip_address else item.host
    row ← lift (
        normalize_remote_profile env.ipv6
          (record item { device_id = trim_space item.device_id; host = host }))
    write_remote row

  -- the host that an import fills in
  unfoldable pub host_of : RemoteProfile → Db Text
  host_of item =
      if not (is_empty (trim_space item.host))
      then pure item.host
      else do device ← find_device (trim_space item.device_id); pure device.ip_address

  unfoldable pub upsert_remote_profile_on : RemoteProfile → Db RemoteProfile
  upsert_remote_profile_on item = do
    host ← host_of item
    row ← lift (
        normalize_remote_profile env.ipv6
          (record item { device_id = trim_space item.device_id; host = host }))
    write_remote row

  unfoldable pub delete_remote_profile : Text → Db (Unit {0})
  delete_remote_profile device_id = do
    count ← exec env normalize_db_error (delete_remote_of (trim_space device_id))
    need_row count

  unfoldable pub get_power_profile : Text → Db PowerProfile
  get_power_profile device_id = do
    found ←
        query env
          (λ t. find_row (by_key (λ r. r.device_id) (trim_space device_id)) t.power_profiles)
    lift (found_or found)

  unfoldable pub list_power_profiles : Db (List PowerProfile)
  list_power_profiles =
      query env (λ t. order_by (λ a b. text_before a.device_id b.device_id) t.power_profiles)

  unfoldable pub write_power : PowerProfile → Db PowerProfile
  write_power item = do
    now ← stamp env
    existing ← query env (λ t. find_row (by_key (λ r. r.device_id) item.device_id) t.power_profiles)
    elim existing [
      | none ↦ do
        id ← id_or_fresh env (codes "power") item.id
        _ ←
            exec env normalize_db_error
              (insert_power (record item { id = id; created_at = now; updated_at = now }))
        pure tt
      | some old ↦ do
        _ ← exec env normalize_db_error (update_power_row (record item { updated_at = now }))
        pure tt
    ]
    found ← query env (λ t. find_row (by_key (λ r. r.device_id) item.device_id) t.power_profiles)
    lift (found_or found)

  unfoldable pub upsert_power_profile : PowerProfile → Db PowerProfile
  upsert_power_profile item = do
    raise_if (is_empty (trim_space item.device_id)) no_profile_device
    _ ← find_device (trim_space item.device_id)
    write_power (normalize_power_profile item)

  unfoldable pub upsert_power_profile_on : PowerProfile → Db PowerProfile
  upsert_power_profile_on item = do
    raise_if (is_empty (trim_space item.device_id)) no_profile_device
    write_power (normalize_power_profile item)

  unfoldable pub delete_power_profile : Text → Db (Unit {0})
  delete_power_profile device_id = do
    count ← exec env raw_db_error (delete_power_of (trim_space device_id))
    need_row count
