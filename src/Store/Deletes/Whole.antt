-- ===== src/Store/Deletes/Whole.antt =====
-- `DeleteDevice` of internal/store as a whole.
use wol.Prelude.{err, false, inl, inr, ok, refl, ◌∙◌, ◌≡◌, ◌⊎◌}
use wol.Store.{InventoryError}
use wol.Store.Atomic.{transaction_cases}
use wol.Store.Db.{
  Db, Env, Tables, World, exec, later, need_row, normalize_db_error, raw_db_error, ◌>>=◌,
}
use wol.Store.Db.Rows.{by_key, delete_rows, has_row}
use wol.Store.Deletes.{All-others, Turns, Turns-bind, Turns-exec, Turns-need_row, delete_rows-none}
use wol.Store.Devices.{
  delete_device, delete_device_row, delete_memberships, delete_power_of, delete_remote_of,
}
use wol.Store.Links.{All-delete, IsClosed}
use wol.Text.{Text}

-- the tables without a device, and what belongs to it
abbrev pub without_device : Text → Tables → Tables
without_device id t = record t {
  members = delete_rows (by_key (λ r. r.device_id) id) t.members;
  remote_profiles = delete_rows (by_key (λ r. r.device_id) id) t.remote_profiles;
  power_profiles = delete_rows (by_key (λ r. r.device_id) id) t.power_profiles;
  devices = delete_rows (by_key (λ r. r.id) id) t.devices;
}

without_device-IsClosed : (id : Text) (t : Tables) → IsClosed t → IsClosed (without_device id t)
without_device-IsClosed id t c = record {
  site_relays = c.site_relays;
  device_relays = All-delete _ _ t.devices c.device_relays;
  device_sites = All-delete _ _ t.devices c.device_sites;
  device_ids = All-delete _ _ t.devices c.device_ids;
  member_groups = All-delete _ _ t.members c.member_groups;
  member_devices =
      All-others (λ d. d.id) id (λ m. m.device_id) t.devices t.members c.member_devices;
  remote_devices =
      All-others (λ d. d.id) id (λ p. p.device_id) t.devices t.remote_profiles c.remote_devices;
  power_devices =
      All-others (λ d. d.id) id (λ p. p.device_id) t.devices t.power_profiles c.power_devices;
}

-- No row is a device with the identifier or belongs to it.
pub record Gone (id : Text) (t : Tables) : Type 0 where
  pub device : has_row (λ d. d.id) id t.devices ≡ false
  pub member : has_row (λ m. m.device_id) id t.members ≡ false
  pub remote : has_row (λ p. p.device_id) id t.remote_profiles ≡ false
  pub power : has_row (λ p. p.device_id) id t.power_profiles ≡ false

without_device-Gone : (id : Text) (t : Tables) → Gone id (without_device id t)
without_device-Gone id t = record {
  device = delete_rows-none (λ d. d.id) id t.devices;
  member = delete_rows-none (λ m. m.device_id) id t.members;
  remote = delete_rows-none (λ p. p.device_id) id t.remote_profiles;
  power = delete_rows-none (λ p. p.device_id) id t.power_profiles;
}

-- the DELETE statements of `DeleteDevice`, one after another
delete_device_body : Env → Text → Db (Unit {0})
delete_device_body env id = exec env raw_db_error (delete_memberships id) >>= (λ _.
    exec env raw_db_error (delete_remote_of id) >>= (λ _.
      exec env raw_db_error (delete_power_of id)
      >>= (λ _. exec env normalize_db_error (delete_device_row id) >>= need_row)))

delete_device_body-Turns :
    (env : Env) (id : Text) → Turns (delete_device_body env id) (without_device id)
unfolding delete_device_body delete_memberships delete_remote_of delete_power_of delete_device_row
delete_device_body-Turns env id = Turns-bind _ _ _ _ (Turns-exec env _ _ _ _ (λ t. refl)) (λ _.
    Turns-bind _ _ _ _ (Turns-exec env _ _ _ _ (λ t. refl)) (λ _.
      Turns-bind _ _ _ _ (Turns-exec env _ _ _ _ (λ t. refl))
        (λ _. Turns-bind _ _ _ _ (Turns-exec env _ _ _ _ (λ t. refl)) Turns-need_row)))

-- Deleting a device either fails and leaves the tables as they are, or succeeds; then no device,
-- membership, remote profile or power profile with the identifier is left, and the tables are
-- closed. The tables are closed before.
pub delete_device-Gone :
    (env : Env) (id : Text) (w : World)
    → IsClosed w.tables
    → (((e : InventoryError) × ((delete_device env id w).0 ≡ err e))
        × ((delete_device env id w).1.tables ≡ w.tables))
      ⊎ (((delete_device env id w).0 ≡ ok tt)
          × (Gone id (delete_device env id w).1.tables
              × IsClosed (delete_device env id w).1.tables))
unfolding delete_device delete_device_body
delete_device-Gone env id w c = elim (transaction_cases env (delete_device_body env id) w) [
  | inl failure ↦ inl failure
  | inr (u, (done, (r, q))) ↦
      let moved = q ∙ (delete_device_body-Turns env id).run (later w) u done in
      inr (r, rw moved (without_device-Gone id w.tables, without_device-IsClosed id w.tables c))
]
