-- ===== src/Store/Attempts/Laws.antt =====
-- What recording a wake does to the tables.
use wol.Prelude.{
  Bool-cases, Option-cases, [], ap, arith, inl, inr, ok, refl, ◌++◌, ◌∙◌, ◌∷◌, ◌≡◌, ◌⊎◌,
}
use wol.Store.{WakeAttempt}
use wol.Store.Attempts.{id_or_fresh, insert_attempt, record_wake_attempt, time_or_now}
use wol.Store.Db.{
  Db, Env, Tables, World, exec, fresh_id, new_id, normalize_db_error, pure, stamp, ◌>>=◌,
}
use wol.Store.Db.Rows.{has_row}
use wol.Text.{Text, codes, is_empty}

-- A step that succeeds and writes nothing.
Quiet : {A : Type 0} → Db A → World → Type 0
Quiet {A} m w = (a : A) × (((m w).0 ≡ ok a) × ((m w).1.tables ≡ w.tables))

id_or_fresh-Quiet : (env : Env) (prefix id : Text) (w : World) → Quiet (id_or_fresh env prefix id) w
unfolding Quiet id_or_fresh fresh_id pure
id_or_fresh-Quiet env prefix id w = elim (Bool-cases (is_empty id)) [
  | inl y ↦ (new_id env prefix w.tick, (rw (y, id_or_fresh) refl, rw (y, id_or_fresh) refl))
  | inr n ↦ (id, (rw (n, id_or_fresh) refl, rw (n, id_or_fresh) refl))
]

time_or_now-Quiet : (env : Env) (time : Text) (w : World) → Quiet (time_or_now env time) w
unfolding Quiet time_or_now stamp pure
time_or_now-Quiet env time w = elim (Bool-cases (is_empty time)) [
  | inl y ↦ (env.now w.tick, (rw (y, time_or_now) refl, rw (y, time_or_now) refl))
  | inr n ↦ (time, (rw (n, time_or_now) refl, rw (n, time_or_now) refl))
]

-- the tables with one more attempt
abbrev pub with_attempt : WakeAttempt → Tables → Tables
with_attempt row t = record t { attempts = t.attempts ++ row ∷ [] }

insert_then-cases :
    (env : Env) (row : WakeAttempt) (w : World)
    → let m : Db WakeAttempt =
        exec env normalize_db_error (insert_attempt row) >>= (λ _. pure row) in
      ((m w).1.tables ≡ w.tables)
      ⊎ (((m w).0 ≡ ok row) × ((m w).1.tables ≡ with_attempt row w.tables))
unfolding exec ◌>>=◌ pure insert_attempt
insert_then-cases env row w = elim (Option-cases (env.fault w.tick)) [
  | inr (m, f) ↦ inl (ground arith)
  | inl f ↦ elim (Bool-cases (has_row (λ r. r.id) row.id w.tables.attempts)) [
    | inl y ↦ inl (ground arith)
    | inr n ↦ inr (ground arith, ground arith)
  ]
]

-- `RecordWakeAttempt` adds the attempt that it returns, or fails and leaves the tables alone.
pub record_wake_attempt-cases :
    (env : Env) (item : WakeAttempt) (w : World)
    → ((record_wake_attempt env item w).1.tables ≡ w.tables)
      ⊎ ((row : WakeAttempt) × (((record_wake_attempt env item w).0 ≡ ok row)
            × ((record_wake_attempt env item w).1.tables ≡ with_attempt row w.tables)))
unfolding record_wake_attempt ◌>>=◌ Quiet
record_wake_attempt-cases env item w =
    let (id, (e, t)) = id_or_fresh-Quiet env (codes "wake") item.id w in
    let w' = (id_or_fresh env (codes "wake") item.id w).1 in
    let (now, (f, u)) = time_or_now-Quiet env item.created_at w' in
    let w'' = (time_or_now env item.created_at w').1 in
    let row : WakeAttempt = record item { id = id; created_at = now } in
    let same : w''.tables ≡ w.tables = u ∙ t in
    elim (insert_then-cases env row w'') [
      | inl q ↦ inl (rw (e, f, record_wake_attempt, ◌>>=◌) (q ∙ same))
      | inr (r, q) ↦ inr (
        row,
        (
          rw (e, f, record_wake_attempt, ◌>>=◌) r,
          rw (e, f, record_wake_attempt, ◌>>=◌) (q ∙ ap (with_attempt row) same),
        ),
      )
    ]
