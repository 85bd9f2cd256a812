-- ===== src/Store/Deletes.antt =====
-- What the operations of internal/store that delete do to the tables.
pub mod Whole
pub mod Relay
use wol.Prelude.{
  All, Bool-cases, List, Option-cases, Outcome, Outcome-cases, [], false, inl, inr, ok, refl, sym,
  true, ℕ, ◌∙◌, ◌∷◌, ◌≡◌,
}
use wol.Store.{InventoryError}
use wol.Store.Db.{Db, Env, SqlError, Tables, World, exec, need_row, raise_if, ◌>>=◌}
use wol.Store.Db.Rows.{by_key, delete_rows, has_row}
use wol.Text.{Text, teq}
use wol.Text.Laws.{teq_iff}

-- An operation that succeeds turns the tables into others.
pub record Turns {A : Type 0} (m : Db A) (F : Tables → Tables) : Type 0 where
  pub run : (w : World) (a : A) → (m w).0 ≡ ok a → (m w).1.tables ≡ F w.tables

pub Turns-exec :
    (env : Env) (wrap : SqlError → InventoryError) (count : Tables → ℕ) (F : Tables → Tables)
    (write : Tables → Outcome SqlError (ℕ × Tables))
    → ((t : Tables) → write t ≡ ok (count t, F t))
    → Turns (exec env wrap write) F
unfolding exec
Turns-exec env wrap count F write h = record {
  run = λ w n e.
      let written = h w.tables in
      elim (Option-cases (env.fault w.tick)) [
        | inr (m, f) ↦ cc (rw (f, exec) at e)
        | inl f ↦ rw (f, written, exec) refl
      ];
}

pub Turns-bind :
    {A B : Type 0} (m : Db A) (F : Tables → Tables) (f : A → Db B) (G : Tables → Tables)
    → Turns m F
    → ((a : A) → Turns (f a) G)
    → Turns (m >>= f) (λ t. G (F t))
unfolding ◌>>=◌
Turns-bind m F f G g h = record {
  run = λ w b e. elim (Outcome-cases (m w).0) [
    | inr (x, r) ↦ cc (rw (r, ◌>>=◌) at e)
    | inl (a, r) ↦
        let moved = g.run w a r in
        let next = (h a).run (m w).1 b (rw (r, ◌>>=◌) at e) in rw (r, ◌>>=◌, next, moved) refl
  ];
}

pub Turns-need_row : (n : ℕ) → Turns (need_row n) (λ t. t)
unfolding need_row raise_if
Turns-need_row n = record { run = λ w a e. refl }

teq_other : (a v id : Text) → a ≡ id → teq v id ≡ false → teq a v ≡ false
teq_other a v id q h = elim (Bool-cases (teq a v)) [
  | inr n ↦ n
  | inl y ↦ let same : a ≡ v = (teq_iff a v).0 y in cc ((teq_iff v id).1 (sym same ∙ q), h)
]

module _ {A : Type 0} (key : A → Text) (id : Text) where
  pub has_row-delete :
      (v : Text) (rows : List A)
      → teq v id ≡ false
      → has_row key v (delete_rows (by_key key id) rows) ≡ has_row key v rows
  unfolding has_row delete_rows by_key
  has_row-delete v [] h = refl
  has_row-delete v (r ∷ rows) h = elim (Bool-cases (teq (key r) id)) [
    | inl y ↦
        let q : key r ≡ id = (teq_iff (key r) id).0 y in
        let other : teq (key r) v ≡ false = teq_other (key r) v id q h in
        rw (y, other, has_row-delete v rows h) refl
    | inr n ↦ rw (n, has_row-delete v rows h) refl
  ]

  -- References to other rows lead to rows when one has gone.
  pub All-others :
      {R : Type 0} (ref : R → Text) (rows : List A) (refs : List R)
      → All (λ r. has_row key (ref r) rows ≡ true) refs
      → All
          (λ r. has_row key (ref r) (delete_rows (by_key key id) rows) ≡ true)
          (delete_rows (by_key ref id) refs)
  unfolding delete_rows by_key
  All-others ref rows [] h = tt
  All-others ref rows (r ∷ refs) (p, h) = elim (Bool-cases (teq (ref r) id)) [
    | inl y ↦ rw y (All-others ref rows refs h)
    | inr n ↦ rw n (has_row-delete (ref r) rows n ∙ p, All-others ref rows refs h)
  ]

-- None of the rows that are left has the key.
pub delete_rows-none :
    {A : Type 0} (key : A → Text) (id : Text) (rows : List A)
    → has_row key id (delete_rows (by_key key id) rows) ≡ false
unfolding has_row delete_rows by_key
delete_rows-none key id [] = refl
delete_rows-none key id (r ∷ rows) = elim (Bool-cases (teq (key r) id)) [
  | inl y ↦ rw (y, delete_rows-none key id rows) refl
  | inr n ↦ rw (n, delete_rows-none key id rows, n) refl
]
