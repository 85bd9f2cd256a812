-- ===== src/Store/Deletes/Relay.antt =====
-- `DeleteWakeRelay` of internal/store as a whole.
use wol.Prelude.{
  All, All-map, Bool-cases, List, Option-cases, [], ap, arith, err, false, inl, inr, ok, refl, true,
  ℕ, ◌==◌, ◌∙◌, ◌∷◌, ◌≡◌, ◌⊎◌,
}
use wol.Store.{Device, InventoryError, Site, WakeRelay, relay_in_use, sql_failed}
use wol.Store.Atomic.{transaction_cases}
use wol.Store.Db.{
  Db, Env, Tables, World, exec, later, need_row, normalize_db_error, query, raise_if, raw_db_error,
  transaction, ◌>>=◌,
}
use wol.Store.Db.Rows.{by_key, count_rows, delete_rows, has_row, update_rows}
use wol.Store.Deletes.{
  Turns, Turns-bind, Turns-exec, Turns-need_row, delete_rows-none, has_row-delete,
}
use wol.Store.Links.{All-update, IsClosed, Reference, has_row-update}
use wol.Store.Relays.{delete_relay_row, delete_wake_relay, leave_relay}
use wol.Text.{Text, is_empty, teq, trim_space}

abbrev pub forget : Device → Device
forget d = record d { wake_relay_id = [] }

-- the tables without a relay, which the devices have left
abbrev pub without_relay : Text → Tables → Tables
without_relay id t = record t {
  devices = update_rows (by_key (λ r. r.wake_relay_id) id) forget t.devices;
  relays = delete_rows (by_key (λ r. r.id) id) t.relays;
}

Reference-delete :
    (id v : Text) (relays : List WakeRelay)
    → teq v id ≡ false
    → Reference (λ x. has_row (λ r. r.id) x relays ≡ true) v
    → Reference (λ x. has_row (λ r. r.id) x (delete_rows (by_key (λ r. r.id) id) relays) ≡ true) v
Reference-delete id v relays n (inl blank) = inl blank
Reference-delete id v relays n (inr h) = inr (has_row-delete (λ r. r.id) id v relays n ∙ h)

-- Sites that do not use the relay lead to other relays.
sites-Reference :
    (id : Text) (relays : List WakeRelay) (sites : List Site)
    → count_rows (by_key (λ s. s.wake_relay_id) id) sites ≡ 0
    → All (λ s. Reference (λ x. has_row (λ r. r.id) x relays ≡ true) s.wake_relay_id) sites
    → All
        (λ s.
          Reference
            (λ x. has_row (λ r. r.id) x (delete_rows (by_key (λ r. r.id) id) relays) ≡ true)
            s.wake_relay_id)
        sites
unfolding count_rows by_key
sites-Reference id relays [] unused h = tt
sites-Reference id relays (s ∷ sites) unused (p, h) = elim (Bool-cases (teq s.wake_relay_id id)) [
  | inl y ↦ absurd (ground arith)
  | inr n ↦ (
    Reference-delete id s.wake_relay_id relays n p,
    sites-Reference id relays sites (ground arith) h,
  )
]

devices-Reference :
    (id : Text) (relays : List WakeRelay) (devices : List Device)
    → All (λ d. Reference (λ x. has_row (λ r. r.id) x relays ≡ true) d.wake_relay_id) devices
    → All
        (λ d.
          Reference
            (λ x. has_row (λ r. r.id) x (delete_rows (by_key (λ r. r.id) id) relays) ≡ true)
            d.wake_relay_id)
        (update_rows (by_key (λ r. r.wake_relay_id) id) forget devices)
unfolding update_rows by_key is_empty trim_space
devices-Reference id relays [] h = tt
devices-Reference id relays (d ∷ devices) (p, h) = elim (Bool-cases (teq d.wake_relay_id id)) [
  | inl y ↦ rw y (inl refl, devices-Reference id relays devices h)
  | inr n ↦
      rw n (Reference-delete id d.wake_relay_id relays n p, devices-Reference id relays devices h)
]

without_relay-IsClosed :
    (id : Text) (t : Tables)
    → count_rows (by_key (λ s. s.wake_relay_id) id) t.sites ≡ 0
    → IsClosed t
    → IsClosed (without_relay id t)
without_relay-IsClosed id t unused c =
    let kept : (v : Text)
        → has_row (λ d. d.id) v (without_relay id t).devices ≡ has_row (λ d. d.id) v t.devices =
      λ v. has_row-update (λ d. d.id) v _ forget t.devices (λ d. refl) in
    record {
      site_relays = sites-Reference id t.relays t.sites unused c.site_relays;
      device_relays = devices-Reference id t.relays t.devices c.device_relays;
      device_sites = All-update _ _ forget t.devices (λ d h. h) c.device_sites;
      device_ids = All-update _ _ forget t.devices (λ d h. h) c.device_ids;
      member_groups = c.member_groups;
      member_devices = All-map _ _ (λ m h. kept m.device_id ∙ h) _ c.member_devices;
      remote_devices = All-map _ _ (λ p h. kept p.device_id ∙ h) _ c.remote_devices;
      power_devices = All-map _ _ (λ p h. kept p.device_id ∙ h) _ c.power_devices;
    }

delete_relay_body : Env → Text → Db (Unit {0})
delete_relay_body env id =
    exec env raw_db_error (leave_relay id)
    >>= (λ _. exec env normalize_db_error (delete_relay_row id) >>= need_row)

delete_relay_body-Turns :
    (env : Env) (id : Text) → Turns (delete_relay_body env id) (without_relay id)
unfolding delete_relay_body leave_relay delete_relay_row
delete_relay_body-Turns env id =
    Turns-bind _ _ _ _ (Turns-exec env _ _ _ _ (λ t. refl))
      (λ _. Turns-bind _ _ _ _ (Turns-exec env _ _ _ _ (λ t. refl)) Turns-need_row)

-- `DeleteWakeRelay` fails at once, or no site uses the relay and it is a transaction.
delete_wake_relay-cases :
    (env : Env) (id : Text) (w : World)
    → ((e : InventoryError) × (delete_wake_relay env id w ≡ (err e, later w)))
      ⊎ ((count_rows (by_key (λ s. s.wake_relay_id) id) w.tables.sites ≡ 0)
          × (delete_wake_relay env id w ≡ transaction env (delete_relay_body env id) (later w)))
unfolding delete_wake_relay query raise_if ◌>>=◌ delete_relay_body
delete_wake_relay-cases env id w =
    let read : Tables → ℕ = λ t. count_rows (by_key (λ s. s.wake_relay_id) id) t.sites in
    elim (Option-cases (env.fault w.tick)) [
      | inr (m, f) ↦
          let asked : query env read w ≡ (err (sql_failed m), later w) = rw (f, query) refl in
          inl (
            sql_failed m,
            rw (asked, delete_wake_relay, ◌>>=◌) (ap (λ x. (err (sql_failed m), x.1)) asked),
          )
      | inl f ↦
          let asked : query env read w ≡ (ok (read w.tables), later w) = rw (f, query) refl in
          elim (Bool-cases (read w.tables == 0)) [
            | inr n ↦ inl (
              relay_in_use (read w.tables),
              rw (asked, n, delete_wake_relay, ◌>>=◌, raise_if)
                  (ap (λ x. (err (relay_in_use (read w.tables)), x.1)) asked),
            )
            | inl y ↦ inr (
              ground arith,
              rw (asked, y, delete_wake_relay, ◌>>=◌, raise_if)
                  (ap (λ x. transaction env (delete_relay_body env id) x.1) asked),
            )
          ]
    ]

-- Deleting a relay either fails and leaves the tables as they are, or succeeds; then the relay is
-- gone and the tables are closed: no site or device refers to it. The tables are closed before.
pub delete_wake_relay-IsClosed :
    (env : Env) (id : Text) (w : World)
    → IsClosed w.tables
    → (((e : InventoryError) × ((delete_wake_relay env id w).0 ≡ err e))
        × ((delete_wake_relay env id w).1.tables ≡ w.tables))
      ⊎ (((delete_wake_relay env id w).0 ≡ ok tt)
          × ((has_row (λ r. r.id) id (delete_wake_relay env id w).1.tables.relays ≡ false)
              × IsClosed (delete_wake_relay env id w).1.tables))
delete_wake_relay-IsClosed env id w c = elim (delete_wake_relay-cases env id w) [
  | inl (e, r) ↦ inl ((e, rw r refl), rw r refl)
  | inr (unused, s) ↦ elim (transaction_cases env (delete_relay_body env id) (later w)) [
    | inl failure ↦ inl (rw s failure)
    | inr (u, (done, (r, q))) ↦
        let moved = q ∙ (delete_relay_body-Turns env id).run (later (later w)) u done in
        inr (
          rw s r,
          rw (s, moved)
              (
                delete_rows-none (λ r. r.id) id w.tables.relays,
                without_relay-IsClosed id w.tables unused c,
              ),
        )
  ]
]
