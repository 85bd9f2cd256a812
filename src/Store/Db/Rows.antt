-- ===== src/Store/Db/Rows.antt =====
-- The clauses of the statements, on the rows of one table.
use wol.Prelude.{
  Bool, List, Option, [], any, false, if◌then◌else◌, ltb, none, not, some, true, ℕ, ◌&&◌, ◌+◌, ◌∷◌,
}
use wol.Text.{Text, teq}

module _ {A : Type 0} where
  -- `SELECT … WHERE key = ?`, for a key that at most one row has
  unfoldable pub find_row : (A → Bool) → List A → Option A
  find_row test [] = none
  find_row test (r ∷ rows) = if test r then some r else find_row test rows

  unfoldable pub count_rows : (A → Bool) → List A → ℕ
  count_rows test [] = 0
  count_rows test (r ∷ rows) = (if test r then 1 else 0) + count_rows test rows

  unfoldable pub update_rows : (A → Bool) → (A → A) → List A → List A
  update_rows test change [] = []
  update_rows test change (r ∷ rows) =
      (if test r then change r else r) ∷ update_rows test change rows

  unfoldable pub delete_rows : (A → Bool) → List A → List A
  delete_rows test [] = []
  delete_rows test (r ∷ rows) =
      let rest = delete_rows test rows in if test r then rest else r ∷ rest

  unfoldable pub by_key : (A → Text) → Text → A → Bool
  by_key key value r = teq (key r) value

  unfoldable pub has_row : (A → Text) → Text → List A → Bool
  has_row key value rows = any (by_key key value) rows

  -- another row than the one with an identifier has a value that must be unique
  unfoldable pub clashes : (A → Text) → Text → (A → Text) → Text → List A → Bool
  clashes ident id key value rows = any (λ r. not (teq (ident r) id) && teq (key r) value) rows

  -- `ORDER BY`, as an insertion sort
  unfoldable pub insert_by : (A → A → Bool) → A → List A → List A
  insert_by before r [] = r ∷ []
  insert_by before r (x ∷ rows) =
      let rest = insert_by before r rows in if before r x then r ∷ x ∷ rows else x ∷ rest

  unfoldable pub order_by : (A → A → Bool) → List A → List A
  order_by before [] = []
  order_by before (r ∷ rows) = insert_by before r (order_by before rows)

-- the order of SQLite's texts, byte by byte
unfoldable pub text_before : Text → Text → Bool
text_before [] _ = true
text_before (_ ∷ _) [] = false
text_before (a ∷ s) (b ∷ t) =
    let rest = text_before s t in if ltb a b then true else if ltb b a then false else rest
