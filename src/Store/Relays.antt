-- ===== src/Store/Relays.antt =====
-- The operations on relays of internal/store/relay.go.
use wol.Prelude.{
  List, Outcome, [], err, if◌then◌else◌, map, none, not, ok, some, ℕ, ◌&&◌, ◌++◌, ◌==◌, ◌||◌, ◌∷◌,
}
use wol.Rules.Machines.{normalize_wake_relay, or_text}
use wol.Store.{WakeRelay, relay_in_use}
use wol.Store.Db.{
  Db, Env, SqlError, Tables, constraint_failed, exec, fresh_id, lift, need_row, normalize_db_error,
  pure, query, raise_if, raw_db_error, stamp, transaction, ◌>>=◌, ◌>>◌,
}
use wol.Store.Db.Rows.{
  by_key, clashes, count_rows, delete_rows, find_row, has_row, order_by, text_before, update_rows,
}
use wol.Store.Sites.{found_or}
use wol.Text.{Text, codes, trim_space}

unfoldable pub stored_relay : WakeRelay → WakeRelay
stored_relay item = record item { name = trim_space item.name; address = trim_space item.address }

-- `scanWakeRelay`
unfoldable pub scan_relay : WakeRelay → WakeRelay
scan_relay item = record item {
  transport = or_text item.transport (codes "ssh_etherwake");
  interface = or_text item.interface (codes "br-lan");
}

unfoldable pub insert_relay : WakeRelay → Tables → Outcome SqlError (ℕ × Tables)
insert_relay item t =
    if has_row (λ r. r.id) item.id t.relays || has_row (λ r. r.name) (trim_space item.name) t.relays
    then err constraint_failed
    else ok (1, record t { relays = t.relays ++ stored_relay item ∷ [] })

unfoldable pub set_relay : WakeRelay → WakeRelay → WakeRelay
set_relay item row = record row {
  name = trim_space item.name;
  address = trim_space item.address;
  port = item.port;
  transport = item.transport;
  interface = item.interface;
  ssh_user = item.ssh_user;
  shared_secret_hash = item.shared_secret_hash;
  enabled = item.enabled;
  updated_at = item.updated_at;
}

unfoldable pub update_relay_row : Text → WakeRelay → Tables → Outcome SqlError (ℕ × Tables)
update_relay_row id item t =
    if has_row (λ r. r.id) id t.relays
      && clashes (λ r. r.id) id (λ r. r.name) (trim_space item.name) t.relays
    then err constraint_failed
    else ok (
      count_rows (by_key (λ r. r.id) id) t.relays,
      record t { relays = update_rows (by_key (λ r. r.id) id) (set_relay item) t.relays },
    )

unfoldable pub delete_relay_row : Text → Tables → Outcome SqlError (ℕ × Tables)
delete_relay_row id t = ok (
  count_rows (by_key (λ r. r.id) id) t.relays,
  record t { relays = delete_rows (by_key (λ r. r.id) id) t.relays },
)

-- `UPDATE devices SET wake_relay_id = '' WHERE wake_relay_id = ?`
unfoldable pub leave_relay : Text → Tables → Outcome SqlError (ℕ × Tables)
leave_relay id t = ok (
  count_rows (by_key (λ r. r.wake_relay_id) id) t.devices,
  record t {
    devices =
        update_rows (by_key (λ r. r.wake_relay_id) id) (λ r. record r { wake_relay_id = [] })
          t.devices;
  },
)

module _ (env : Env) where
  unfoldable pub list_wake_relays : Db (List WakeRelay)
  list_wake_relays =
      query env (λ t. map scan_relay (order_by (λ a b. text_before a.name b.name) t.relays))

  unfoldable pub get_wake_relay : Text → Db WakeRelay
  get_wake_relay id = do
    found ← query env (λ t. find_row (by_key (λ r. r.id) id) t.relays)
    row ← lift (found_or found)
    pure (scan_relay row)

  unfoldable pub create_wake_relay : WakeRelay → Db WakeRelay
  create_wake_relay item = do
    now ← stamp env
    id ← fresh_id env (codes "relay")
    let row = normalize_wake_relay (record item { id = id; created_at = now; updated_at = now })
    _ ← exec env normalize_db_error (insert_relay row)
    pure row

  unfoldable pub update_wake_relay : Text → WakeRelay → Db WakeRelay
  update_wake_relay id item = do
    now ← stamp env
    count ←
        exec env normalize_db_error
          (update_relay_row id (normalize_wake_relay (record item { updated_at = now })))
    need_row count
    get_wake_relay id

  unfoldable pub delete_wake_relay : Text → Db (Unit {0})
  delete_wake_relay id = do
    used ← query env (λ t. count_rows (by_key (λ r. r.wake_relay_id) id) t.sites)
    raise_if (not (used == 0)) (relay_in_use used)
    transaction env (do
      _ ← exec env raw_db_error (leave_relay id)
      count ← exec env normalize_db_error (delete_relay_row id)
      need_row count)

  unfoldable pub upsert_wake_relay_on : WakeRelay → Db WakeRelay
  upsert_wake_relay_on item = do
    existing ← query env (λ t. find_row (by_key (λ r. r.name) (trim_space item.name)) t.relays)
    elim existing [
      | none ↦ create_wake_relay item
      | some old ↦ do
        now ← stamp env
        let row = normalize_wake_relay (record item { updated_at = now })
        count ← exec env normalize_db_error (update_relay_row old.id row)
        need_row count
        pure (record row { id = old.id })
    ]
