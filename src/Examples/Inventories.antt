-- ===== src/Examples/Inventories.antt =====
-- A wake over the store at a concrete input.
use wol.Prelude.{[], ◌∷◌, ◌≡◌, ◌⊎◌}
use wol.Examples.Stores.{calm, no_tables}
use wol.Examples.Wakes.{hooks, options, pc, router, words}
use wol.Inventory.{inventory}
use wol.Inventory.Wakes.{wake_device-adds}
use wol.Store.Attempts.Laws.{with_attempt}
use wol.Store.Db.{World}
use wol.Text.{codes}
use wol.Wake.Service.{wake_device}

-- a store with one device and the relay that wakes it
abbrev cupboard : World
cupboard = record {
  tables = record no_tables { devices = pc ∷ []; relays = router ∷ [] };
  tick = 0;
}

wake_device-adds_example :
    ((wake_device (inventory calm) hooks words cupboard (codes "d1") options).store.tables
      ≡ cupboard.tables)
    ⊎ ((wake_device (inventory calm) hooks words cupboard (codes "d1") options).store.tables
        ≡ with_attempt
            (wake_device (inventory calm) hooks words cupboard (codes "d1") options).result.attempt
            cupboard.tables)
wake_device-adds_example = wake_device-adds calm hooks words cupboard (codes "d1") options
