-- ===== src/Store/Db.antt =====
-- The database behind internal/store: its tables, the statements that the operations run on them,
-- and transactions. The constraints are those of the schema in `migrate`; SQLite enforces its
-- foreign keys only on request, which the program does not make. Each statement may fail for a
-- reason of its own; the clock, the random suffixes and the failures are parameters.
pub mod Rows
use wol.Prelude.{
  Bool, List, Option, Outcome, err, if◌then◌else◌, map, none, not, ok, some, suc, true, ℕ, ◌++◌,
  ◌==◌, ◌||◌, ◌∷◌,
}
use wol.Net.{Ip}
use wol.Store.{
  Device, InventoryError, PowerAttempt, PowerProfile, RemoteProfile, Site, WakeAttempt, WakeRelay,
  conflict, missing_record, sql_failed,
}
use wol.Text.{Text, codes, concat, contains, to_lower}
use wol.Text.Decimal.{itoa}
use wol.Text.Hex.{hex_byte}

-- a statement that a constraint of the schema stops, or that fails with some text
pub data SqlError : Type 0 where
  constraint_failed : SqlError
  driver_failed : Text → SqlError

unfoldable pub normalize_db_error : SqlError → InventoryError
normalize_db_error constraint_failed = conflict
normalize_db_error (driver_failed message) =
    let word = to_lower message in
    if contains word (codes "unique") || contains word (codes "constraint")
    then conflict
    else sql_failed message

-- an error that is returned as it is
unfoldable pub raw_db_error : SqlError → InventoryError
raw_db_error constraint_failed = sql_failed (codes "constraint failed")
raw_db_error (driver_failed message) = sql_failed message

pub record GroupRow : Type 0 where
  pub id : Text
  pub name : Text
  pub description : Text
  pub created_at : Text
  pub updated_at : Text

pub record Member : Type 0 where
  pub group_id : Text
  pub device_id : Text
  pub position : ℕ

pub record Tables : Type 0 where
  pub sites : List Site
  pub devices : List Device
  pub groups : List GroupRow
  pub members : List Member
  pub attempts : List WakeAttempt
  pub relays : List WakeRelay
  pub remote_profiles : List RemoteProfile
  pub power_profiles : List PowerProfile
  pub power_attempts : List PowerAttempt

pub record Env : Type 0 where
  pub fault : ℕ → Option Text
  pub now : ℕ → Text
  pub nanos : ℕ → ℕ
  pub suffix : ℕ → List ℕ
  pub ipv6 : Text → Option Ip

-- The tables, and how many statements and readings of the clock there were.
pub record World : Type 0 where
  pub tables : Tables
  pub tick : ℕ

abbrev pub Db {ℓ} : Type ℓ → Type ℓ
Db A = World → Outcome InventoryError A × World

abbrev pub later : World → World
later w = record w { tick = suc w.tick }

module _ {ℓ} {A : Type ℓ} where
  unfoldable pub pure : A → Db A
  pure a w = (ok a, w)

  unfoldable pub raise : InventoryError → Db A
  raise e w = (err e, w)

  unfoldable pub lift : Outcome InventoryError A → Db A
  lift r w = (r, w)

module _ {ℓ μ} {A : Type ℓ} {B : Type μ} where
  infixl 5 ◌>>=◌
  unfoldable pub ◌>>=◌ : Db A → (A → Db B) → Db B
  ◌>>=◌ first next w = elim (first w).0 [ ok a ↦ next a (first w).1 | err e ↦ (err e, (first w).1) ]

module _ {μ} {B : Type μ} where
  infixl 5 ◌>>◌
  abbrev pub ◌>>◌ : Db (Unit {0}) → Db B → Db B
  first >> rest = first >>= (λ _. rest)

unfoldable pub raise_if : Bool → InventoryError → Db (Unit {0})
raise_if test e w = (if test then err e else ok tt, w)

module _ (env : Env) where
  -- a query
  unfoldable pub query {ℓ} : {A : Type ℓ} → (Tables → A) → Db A
  query read w = elim (env.fault w.tick) [
    | some message ↦ (err (sql_failed message), later w)
    | none ↦ (ok (read w.tables), later w)
  ]

  -- a statement that writes, with what becomes of its error; its result is the count of rows
  unfoldable pub exec :
      (SqlError → InventoryError) → (Tables → Outcome SqlError (ℕ × Tables)) → Db ℕ
  exec wrap write w = elim (env.fault w.tick) [
    | some message ↦ (err (wrap (driver_failed message)), later w)
    | none ↦ elim (write w.tables) [
      | err e ↦ (err (wrap e), later w)
      | ok (count, tables) ↦ (ok count, record { tables = tables; tick = suc w.tick })
    ]
  ]

  unfoldable pub stamp : Db Text
  stamp w = (ok (env.now w.tick), later w)

  -- `newID`
  unfoldable pub new_id : Text → ℕ → Text
  new_id prefix tick =
      prefix ++ (b'_' ∷ itoa (env.nanos tick)) ++ (b'_' ∷ concat (map hex_byte (env.suffix tick)))

  unfoldable pub fresh_id : Text → Db Text
  fresh_id prefix w = (ok (new_id prefix w.tick), later w)

  -- `BeginTx`, the body, and `Commit` if the test on the result holds; every other way out rolls
  -- back
  unfoldable pub transaction_when {ℓ} : {A : Type ℓ} → (A → Bool) → Db A → Db A
  transaction_when keep body w = elim (env.fault w.tick) [
    | some message ↦ (err (sql_failed message), later w)
    | none ↦
        let (result, w') = body (later w) in
        let undone : World = record { tables = w.tables; tick = suc w'.tick } in
        elim result [
          | err e ↦ (err e, undone)
          | ok a ↦ if not (keep a) then (ok a, undone) else elim (env.fault w'.tick) [
            | some message ↦ (err (sql_failed message), undone)
            | none ↦ (ok a, later w')
          ]
        ]
  ]

  unfoldable pub transaction {ℓ} : {A : Type ℓ} → Db A → Db A
  transaction = transaction_when (λ _. true)

-- `if count, _ := result.RowsAffected(); count == 0 { return ErrNotFound }`
unfoldable pub need_row : ℕ → Db (Unit {0})
need_row count = raise_if (count == 0) missing_record
