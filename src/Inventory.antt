-- ===== src/Inventory.antt =====
-- The store of internal/store as the repository of the wake service: `*Store` implements the
-- `Repository` interface of internal/wake/service.go. A lookup only reads, so that the service
-- keeps the tables that it had.
pub mod Wakes
use wol.Store.Sites
use wol.Store.Devices
use wol.Store.Relays
use wol.Store.Attempts
use wol.Prelude.{Outcome, [], err, ok, ℕ, ◌+◌}
use wol.Store.{InventoryError, missing_record, sql_failed}
use wol.Store.Db.{Env, World}
use wol.Wake.{Repository, StoreError, not_found, store_failed}

unfoldable pub as_store_error : InventoryError → StoreError
as_store_error missing_record = not_found
as_store_error (sql_failed message) = store_failed message
as_store_error _ = store_failed []

unfoldable pub as_store {ℓ} : {A : Type ℓ} → Outcome InventoryError A → Outcome StoreError A
as_store (ok a) = ok a
as_store (err e) = err (as_store_error e)

-- A wake looks up the device, then a site, then a relay, and then records: each of these has a
-- time of its own, and so its own faults.
abbrev pub after : ℕ → World → World
after n w = record w { tick = n + w.tick }

unfoldable pub inventory : Env → Repository World
inventory env = record {
  get_site = λ w id. as_store (Sites.get_site env id (after 1 w)).0;
  get_device = λ w id. as_store (Devices.get_device env id w).0;
  get_wake_relay = λ w id. as_store (Relays.get_wake_relay env id (after 2 w)).0;
  record_wake_attempt =
      λ w a. let (kept, w') = Attempts.record_wake_attempt env a (after 3 w) in (as_store kept, w');
}
