-- ===== src/Store/Sites.antt =====
-- The operations on sites of internal/store/store.go.
use wol.Prelude.{
  List, Option, Outcome, [], err, if◌then◌else◌, none, not, ok, some, ℕ, ◌&&◌, ◌++◌, ◌==◌, ◌||◌,
  ◌∷◌,
}
use wol.Rules.Sites.{normalize_site, or_default}
use wol.Store.{InventoryError, Site, missing_record, site_in_use}
use wol.Store.Db.{
  Db, Env, SqlError, Tables, constraint_failed, exec, fresh_id, lift, need_row, normalize_db_error,
  pure, query, raise_if, raw_db_error, stamp, transaction, ◌>>=◌, ◌>>◌,
}
use wol.Store.Db.Rows.{
  by_key, clashes, count_rows, delete_rows, find_row, has_row, order_by, text_before, update_rows,
}
use wol.Text.{Text, codes, trim_space}

unfoldable pub found_or {ℓ} : {A : Type ℓ} → Option A → Outcome InventoryError A
found_or none = err missing_record
found_or (some a) = ok a

-- the INSERT and the UPDATE of a site, which both store the trimmed name
unfoldable pub insert_site : Site → Tables → Outcome SqlError (ℕ × Tables)
insert_site item t =
    if has_row (λ r. r.id) item.id t.sites || has_row (λ r. r.name) (trim_space item.name) t.sites
    then err constraint_failed
    else ok (1, record t { sites = t.sites ++ record item { name = trim_space item.name } ∷ [] })

unfoldable pub set_site : Site → Site → Site
set_site item row = record row {
  name = trim_space item.name;
  broadcast_address = item.broadcast_address;
  default_port = item.default_port;
  default_interface = item.default_interface;
  updated_at = item.updated_at;
  subnet = item.subnet;
  wake_relay_id = item.wake_relay_id;
  timeout_ms = item.timeout_ms;
  concurrency = item.concurrency;
}

unfoldable pub update_site_row : Text → Site → Tables → Outcome SqlError (ℕ × Tables)
update_site_row id item t =
    if has_row (λ r. r.id) id t.sites
      && clashes (λ r. r.id) id (λ r. r.name) (trim_space item.name) t.sites
    then err constraint_failed
    else ok (
      count_rows (by_key (λ r. r.id) id) t.sites,
      record t { sites = update_rows (by_key (λ r. r.id) id) (set_site item) t.sites },
    )

unfoldable pub delete_site_row : Text → Tables → Outcome SqlError (ℕ × Tables)
delete_site_row id t = ok (
  count_rows (by_key (λ r. r.id) id) t.sites,
  record t { sites = delete_rows (by_key (λ r. r.id) id) t.sites },
)

-- `UPDATE devices SET site_id = '' WHERE site_id = ?`
unfoldable pub leave_site : Text → Tables → Outcome SqlError (ℕ × Tables)
leave_site id t = ok (
  count_rows (by_key (λ r. r.site_id) id) t.devices,
  record t {
    devices = update_rows (by_key (λ r. r.site_id) id) (λ r. record r { site_id = [] }) t.devices;
  },
)

module _ (env : Env) where
  unfoldable pub list_sites : Db (List Site)
  list_sites = query env (λ t. order_by (λ a b. text_before a.name b.name) t.sites)

  unfoldable pub get_site : Text → Db Site
  get_site id = do
    found ← query env (λ t. find_row (by_key (λ r. r.id) id) t.sites)
    lift (found_or found)

  -- the row that a new site gets
  unfoldable pub new_site : Site → Db Site
  new_site item = do
    now ← stamp env
    id ← fresh_id env (codes "site")
    pure (record item {
      id = id;
      created_at = now;
      updated_at = now;
      default_port = or_default item.default_port 9;
    })

  unfoldable pub create_site : Site → Db Site
  create_site item = do
    normalized ← lift (normalize_site env.ipv6 item)
    row ← new_site normalized
    _ ← exec env normalize_db_error (insert_site row)
    pure row

  unfoldable pub update_site : Text → Site → Db Site
  update_site id item = do
    normalized ← lift (normalize_site env.ipv6 item)
    now ← stamp env
    count ←
        exec env normalize_db_error (update_site_row id (record normalized { updated_at = now }))
    need_row count
    get_site id

  unfoldable pub delete_site : Text → Db (Unit {0})
  delete_site id = do
    used ← query env (λ t. count_rows (by_key (λ r. r.site_id) id) t.devices)
    raise_if (not (used == 0)) (site_in_use used)
    transaction env (do
      _ ← exec env raw_db_error (leave_site id)
      count ← exec env normalize_db_error (delete_site_row id)
      need_row count)

  unfoldable pub upsert_site_on : Site → Db Site
  upsert_site_on item = do
    normalized ← lift (normalize_site env.ipv6 item)
    existing ← query env (λ t. find_row (by_key (λ r. r.name) normalized.name) t.sites)
    elim existing [
      | none ↦ do
        row ← new_site normalized
        _ ← exec env normalize_db_error (insert_site row)
        pure row
      | some old ↦ do
        now ← stamp env
        let row = record normalized {
          updated_at = now;
          default_port = or_default normalized.default_port 9;
        }
        count ← exec env normalize_db_error (update_site_row old.id row)
        need_row count
        pure (record row { id = old.id })
    ]
