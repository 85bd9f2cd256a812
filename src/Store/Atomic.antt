-- ===== src/Store/Atomic.antt =====
-- Transactions of internal/store, and `Import` as one of them.
use wol.Prelude.{
  Bool-cases, Option-cases, Outcome-cases, arith, eqz, err, if◌then◌else◌, inl, inr, ltz, ok, pos,
  refl, ℤ, ◌||◌, ◌≡◌, ◌⊎◌,
}
use wol.Store.{ExportData, InventoryError, bad_version, sql_failed}
use wol.Store.Db.{Db, Env, World, later, raise_if, transaction, transaction_when, ◌>>=◌}
use wol.Store.Transfer.{import_all, import_body}

-- Either it fails and nothing was written, or the body came to an end and its writes are there.
module _ {A : Type 0} (env : Env) (body : Db A) (w : World) where
  pub transaction_cases :
      (((e : InventoryError) × ((transaction env body w).0 ≡ err e))
        × ((transaction env body w).1.tables ≡ w.tables))
      ⊎ ((a : A) × (((body (later w)).0 ≡ ok a)
            × (((transaction env body w).0 ≡ ok a)
                × ((transaction env body w).1.tables ≡ (body (later w)).1.tables))))
  unfolding transaction_when transaction
  transaction_cases = elim (Option-cases (env.fault w.tick)) [
    | inr (m, f) ↦ inl ((sql_failed m, ground arith), ground arith)
    | inl f ↦ elim (Outcome-cases (body (later w)).0) [
      | inr (e, r) ↦ inl ((e, ground arith), ground arith)
      | inl (a, r) ↦ elim (Option-cases (env.fault (body (later w)).1.tick)) [
        | inr (m, g) ↦ inl ((sql_failed m, ground arith), ground arith)
        | inl g ↦ inr (a, (r, (ground arith, ground arith)))
      ]
    ]
  ]

-- `Import` refuses a version, or is a transaction.
pub import_all-cases :
    (env : Env) (data_in : ExportData) (w : World)
    → ((v : ℤ) × (import_all env data_in w ≡ (err (bad_version v), w)))
      ⊎ (import_all env data_in w ≡ transaction env (import_body env data_in) w)
unfolding import_all ◌>>=◌ raise_if
import_all-cases env data_in w =
    let version = if eqz data_in.version (pos 0) then pos 1 else data_in.version in
    elim (Bool-cases (ltz version (pos 1) || ltz (pos 6) version)) [
      | inl y ↦ inl (version, rw (y, import_all, ◌>>=◌, raise_if) refl)
      | inr n ↦ inr (rw (n, import_all, ◌>>=◌, raise_if) refl)
    ]
