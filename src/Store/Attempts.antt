-- ===== src/Store/Attempts.antt =====
-- The records of wakes (internal/store/store.go) and of power actions (power_profile.go).
pub mod Laws
use wol.Prelude.{
  List, Outcome, [], err, if◌then◌else◌, lez, ltz, ok, pos, take, to_nat, ℕ, ℤ, ◌++◌, ◌||◌, ◌∷◌,
}
use wol.Store.{PowerAttempt, WakeAttempt}
use wol.Store.Db.{
  Db, Env, SqlError, Tables, constraint_failed, exec, fresh_id, normalize_db_error, pure, query,
  stamp, ◌>>=◌, ◌>>◌,
}
use wol.Store.Db.Rows.{has_row, order_by, text_before}
use wol.Text.{Text, codes, is_empty, trim_space}

unfoldable pub insert_attempt : WakeAttempt → Tables → Outcome SqlError (ℕ × Tables)
insert_attempt item t =
    if has_row (λ r. r.id) item.id t.attempts
    then err constraint_failed
    else ok (1, record t { attempts = t.attempts ++ item ∷ [] })

unfoldable pub insert_power_attempt : PowerAttempt → Tables → Outcome SqlError (ℕ × Tables)
insert_power_attempt item t =
    if has_row (λ r. r.id) item.id t.power_attempts
    then err constraint_failed
    else ok (
      1,
      record t {
        power_attempts =
            t.power_attempts
            ++ record item {
              device_id = trim_space item.device_id;
              device_name = trim_space item.device_name;
              action = trim_space item.action;
              status = trim_space item.status;
              message = trim_space item.message;
            }
              ∷ [];
      },
    )

unfoldable pub wake_limit : ℤ → ℕ
wake_limit limit = if lez limit (pos 0) || ltz (pos 500) limit then 100 else to_nat limit

unfoldable pub power_limit : ℤ → ℕ
power_limit limit = if lez limit (pos 0) then 20 else to_nat limit

module _ (env : Env) where
  unfoldable pub id_or_fresh : Text → Text → Db Text
  id_or_fresh prefix id = if is_empty id then fresh_id env prefix else pure id

  unfoldable pub time_or_now : Text → Db Text
  time_or_now time = if is_empty time then stamp env else pure time

  unfoldable pub record_wake_attempt : WakeAttempt → Db WakeAttempt
  record_wake_attempt item = do
    id ← id_or_fresh (codes "wake") item.id
    now ← time_or_now item.created_at
    let row = record item { id = id; created_at = now }
    _ ← exec env normalize_db_error (insert_attempt row)
    pure row

  -- Among attempts of one moment SQLite may choose any order; the model keeps that of the table.
  unfoldable pub list_wake_attempts : ℤ → Db (List WakeAttempt)
  list_wake_attempts limit = query env (λ t.
      take (wake_limit limit) (order_by (λ a b. text_before b.created_at a.created_at) t.attempts))

  unfoldable pub record_power_attempt : PowerAttempt → Db PowerAttempt
  record_power_attempt item = do
    id ← id_or_fresh (codes "power_attempt") item.id
    now ← time_or_now item.created_at
    let row = record item { id = id; created_at = now }
    _ ← exec env normalize_db_error (insert_power_attempt row)
    pure row

  unfoldable pub list_power_attempts : ℤ → Db (List PowerAttempt)
  list_power_attempts limit = query env (λ t.
      take (power_limit limit)
        (order_by (λ a b. text_before b.created_at a.created_at) t.power_attempts))
