-- ===== src/Store/Transfer.antt =====
-- `Export` and `Import` of internal/store/store.go.
use wol.Prelude.{
  List, Option, Outcome, [], eqz, err, if◌then◌else◌, ltz, none, ok, pos, some, ◌||◌, ◌∷◌,
}
use wol.Rules.Machines.{validate_imported_device}
use wol.Store.{
  Device, ExportData, Group, InventoryError, PowerProfile, RemoteProfile, Site, WakeRelay,
  bad_version, unknown_machine, unknown_profile_device, unknown_relay,
}
use wol.Store.Db.{Db, Env, lift, pure, raise_if, transaction, ◌>>=◌, ◌>>◌}
use wol.Store.Devices.{list_devices, upsert_device_on}
use wol.Store.Groups.{list_groups, upsert_group_on}
use wol.Store.Profiles.{
  list_power_profiles, list_remote_profiles, upsert_power_profile_on, upsert_remote_profile_on,
}
use wol.Store.Relays.{list_wake_relays, upsert_wake_relay_on}
use wol.Store.Sites.{list_sites, upsert_site_on}
use wol.Text.{Text, is_empty, teq, trim_space}

-- `map[string]string`: the last binding of a key counts
unfoldable pub lookup_id : Text → List (Text × Text) → Option Text
lookup_id id [] = none
lookup_id id ((old, new) ∷ ids) = if teq old id then some new else lookup_id id ids

-- `ids[original] = imported`, for an original that is not empty
unfoldable pub bind_id : Text → Text → List (Text × Text) → List (Text × Text)
bind_id original imported ids = if is_empty original then ids else (original, imported) ∷ ids

abbrev pub Ids : Type 0
Ids = List (Text × Text)

unfoldable pub known {ℓ} : {A : Type ℓ} → InventoryError → Option A → Outcome InventoryError A
known e none = err e
known e (some a) = ok a

-- a reference to a relay: none, or one that was imported
unfoldable pub mapped_relay : Ids → Text → Outcome InventoryError Text
mapped_relay relay_ids id =
    if is_empty id then ok id else known (unknown_relay id) (lookup_id id relay_ids)

-- a reference to a site: one that was imported, or none
unfoldable pub mapped_site : Ids → Text → Text
mapped_site site_ids id = elim (lookup_id id site_ids) [
  | some mapped ↦ mapped
  | none ↦ if is_empty (trim_space id) then id else []
]

unfoldable pub mapped_devices : Ids → List Text → Outcome InventoryError (List Text)
mapped_devices device_ids [] = ok []
mapped_devices device_ids (id ∷ ids) = elim (lookup_id id device_ids) [
  | none ↦ err (unknown_machine id)
  | some mapped ↦ elim (mapped_devices device_ids ids) [
    | err e ↦ err e
    | ok rest ↦ ok (mapped ∷ rest)
  ]
]

module _ (env : Env) where
  unfoldable pub export_all : Db ExportData
  export_all = do
    sites ← list_sites env
    devices ← list_devices env
    groups ← list_groups env
    relays ← list_wake_relays env
    remote ← list_remote_profiles env
    power ← list_power_profiles env
    pure (record {
      version = pos 6;
      sites = sites;
      devices = devices;
      groups = groups;
      wake_relays = relays;
      remote_profiles = remote;
      power_profiles = power;
    })

  unfoldable pub import_relays : Ids → List WakeRelay → Db Ids
  import_relays ids [] = pure ids
  import_relays ids (relay ∷ relays) = do
    imported ← upsert_wake_relay_on env relay
    import_relays (bind_id relay.id imported.id ids) relays

  unfoldable pub import_sites : Ids → Ids → List Site → Db Ids
  import_sites relay_ids ids [] = pure ids
  import_sites relay_ids ids (site ∷ sites) = do
    relay ← lift (mapped_relay relay_ids site.wake_relay_id)
    imported ← upsert_site_on env (record site { wake_relay_id = relay })
    import_sites relay_ids (bind_id site.id imported.id ids) sites

  unfoldable pub import_devices : Ids → Ids → Ids → List Device → Db Ids
  import_devices relay_ids site_ids ids [] = pure ids
  import_devices relay_ids site_ids ids (device ∷ devices) = do
    lift (validate_imported_device env.ipv6 device)
    relay ← lift (mapped_relay relay_ids device.wake_relay_id)
    imported ←
        upsert_device_on env
          (record device { wake_relay_id = relay; site_id = mapped_site site_ids device.site_id })
    import_devices relay_ids site_ids (bind_id device.id imported.id ids) devices

  unfoldable pub import_groups : Ids → List Group → Db (Unit {0})
  import_groups device_ids [] = pure tt
  import_groups device_ids (group ∷ groups) = do
    ids ← lift (mapped_devices device_ids group.device_ids)
    upsert_group_on env (record group { device_ids = ids })
    import_groups device_ids groups

  unfoldable pub import_remote : Ids → List RemoteProfile → Db (Unit {0})
  import_remote device_ids [] = pure tt
  import_remote device_ids (p ∷ profiles) = do
    device ← lift (known unknown_profile_device (lookup_id p.device_id device_ids))
    _ ← upsert_remote_profile_on env (record p { id = []; device_id = device })
    import_remote device_ids profiles

  unfoldable pub import_power : Ids → List PowerProfile → Db (Unit {0})
  import_power device_ids [] = pure tt
  import_power device_ids (p ∷ profiles) = do
    device ← lift (known unknown_profile_device (lookup_id p.device_id device_ids))
    _ ← upsert_power_profile_on env (record p { id = []; device_id = device })
    import_power device_ids profiles

  -- what `Import` does in its transaction
  unfoldable pub import_body : ExportData → Db (Unit {0})
  import_body data_in = do
    relay_ids ← import_relays [] data_in.wake_relays
    site_ids ← import_sites relay_ids [] data_in.sites
    device_ids ← import_devices relay_ids site_ids [] data_in.devices
    import_groups device_ids data_in.groups
    import_remote device_ids data_in.remote_profiles
    import_power device_ids data_in.power_profiles

  unfoldable pub import_all : ExportData → Db (Unit {0})
  import_all data_in =
      let version = if eqz data_in.version (pos 0) then pos 1 else data_in.version in
      do
        raise_if (ltz version (pos 1) || ltz (pos 6) version) (bad_version version)
        transaction env (import_body data_in)
