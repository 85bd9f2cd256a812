-- ===== src/Store/Groups.antt =====
-- The operations on groups of internal/store/store.go.
use wol.Prelude.{
  Bool, List, Outcome, [], any, err, if◌then◌else◌, ltb, map, none, not, ok, some, suc, ℕ, ◌&&◌,
  ◌++◌, ◌==◌, ◌||◌, ◌∷◌,
}
use wol.Store.{Group}
use wol.Store.Db.{
  Db, Env, GroupRow, Member, SqlError, Tables, constraint_failed, exec, fresh_id, lift, need_row,
  normalize_db_error, pure, query, raw_db_error, stamp, transaction, ◌>>=◌, ◌>>◌,
}
use wol.Store.Db.Rows.{
  by_key, clashes, count_rows, delete_rows, find_row, has_row, order_by, text_before, update_rows,
}
use wol.Store.Sites.{found_or}
use wol.Text.{Text, codes, teq, trim_space}

unfoldable pub group_row : Group → GroupRow
group_row item = record {
  id = item.id;
  name = trim_space item.name;
  description = item.description;
  created_at = item.created_at;
  updated_at = item.updated_at;
}

unfoldable pub insert_group : Group → Tables → Outcome SqlError (ℕ × Tables)
insert_group item t =
    if has_row (λ r. r.id) item.id t.groups || has_row (λ r. r.name) (trim_space item.name) t.groups
    then err constraint_failed
    else ok (1, record t { groups = t.groups ++ group_row item ∷ [] })

unfoldable pub update_group_row : Text → Group → Text → Tables → Outcome SqlError (ℕ × Tables)
update_group_row id item now t =
    if has_row (λ r. r.id) id t.groups
      && clashes (λ r. r.id) id (λ r. r.name) (trim_space item.name) t.groups
    then err constraint_failed
    else ok (
      count_rows (by_key (λ r. r.id) id) t.groups,
      record t {
        groups =
            update_rows (by_key (λ r. r.id) id)
              (λ r. record r {
                name = trim_space item.name;
                description = item.description;
                updated_at = now;
              })
              t.groups;
      },
    )

unfoldable pub delete_group_row : Text → Tables → Outcome SqlError (ℕ × Tables)
delete_group_row id t = ok (
  count_rows (by_key (λ r. r.id) id) t.groups,
  record t { groups = delete_rows (by_key (λ r. r.id) id) t.groups },
)

unfoldable pub delete_members : Text → Tables → Outcome SqlError (ℕ × Tables)
delete_members id t = ok (
  count_rows (by_key (λ r. r.group_id) id) t.members,
  record t { members = delete_rows (by_key (λ r. r.group_id) id) t.members },
)

-- the primary key is the pair of the group and the device
unfoldable pub insert_member : Member → Tables → Outcome SqlError (ℕ × Tables)
insert_member m t =
    if any (λ r. teq r.group_id m.group_id && teq r.device_id m.device_id) t.members
    then err constraint_failed
    else ok (1, record t { members = t.members ++ m ∷ [] })

unfoldable pub member_before : Member → Member → Bool
member_before a b =
    ltb a.position b.position || (a.position == b.position && text_before a.device_id b.device_id)

unfoldable pub with_members : GroupRow → List Text → Group
with_members r ids = record {
  id = r.id;
  name = r.name;
  description = r.description;
  device_ids = ids;
  created_at = r.created_at;
  updated_at = r.updated_at;
}

module _ (env : Env) where
  -- the loop of `replaceMembers`, from a position
  unfoldable pub insert_members : Text → ℕ → List Text → Db (Unit {0})
  insert_members group_id position [] = pure tt
  insert_members group_id position (id ∷ ids) = do
    _ ←
        exec env normalize_db_error
          (insert_member (record { group_id = group_id; device_id = id; position = position }))
    insert_members group_id (suc position) ids

  unfoldable pub replace_members : Text → List Text → Db (Unit {0})
  replace_members group_id ids = do
    _ ← exec env raw_db_error (delete_members group_id)
    insert_members group_id 0 ids

  unfoldable pub group_device_ids : Text → Db (List Text)
  group_device_ids id = query env (λ t.
      map (λ (m : Member). m.device_id)
        (order_by member_before (delete_rows (λ m. not (teq m.group_id id)) t.members)))

  unfoldable pub get_group : Text → Db Group
  get_group id = do
    found ← query env (λ t. find_row (by_key (λ r. r.id) id) t.groups)
    row ← lift (found_or found)
    ids ← group_device_ids id
    pure (with_members row ids)

  unfoldable pub all_members : List GroupRow → Db (List Group)
  all_members [] = pure []
  all_members (row ∷ rows) = do
    ids ← group_device_ids row.id
    rest ← all_members rows
    pure (with_members row ids ∷ rest)

  unfoldable pub list_groups : Db (List Group)
  list_groups = do
    rows ← query env (λ t. order_by (λ a b. text_before a.name b.name) t.groups)
    all_members rows

  unfoldable pub insert_whole_group : Text → Text → Group → Db Group
  insert_whole_group id now item = do
    let row = record item { id = id; created_at = now; updated_at = now }
    _ ← exec env normalize_db_error (insert_group row)
    replace_members id item.device_ids
    pure row

  unfoldable pub update_whole_group : Text → Text → Group → Db (Unit {0})
  update_whole_group id now item = do
    count ← exec env normalize_db_error (update_group_row id item now)
    need_row count
    replace_members id item.device_ids

  unfoldable pub create_group : Group → Db Group
  create_group item = do
    now ← stamp env
    id ← fresh_id env (codes "group")
    transaction env (insert_whole_group id now item)

  unfoldable pub update_group : Text → Group → Db Group
  update_group id item = do
    now ← stamp env
    transaction env (update_whole_group id now item)
    get_group id

  unfoldable pub delete_group : Text → Db (Unit {0})
  delete_group id = transaction env (do
    _ ← exec env raw_db_error (delete_members id)
    count ← exec env normalize_db_error (delete_group_row id)
    need_row count)

  -- The lookup goes by the name as it is given, the INSERT stores the trimmed name.
  unfoldable pub upsert_group_on : Group → Db (Unit {0})
  upsert_group_on item = do
    existing ← query env (λ t. find_row (by_key (λ r. r.name) item.name) t.groups)
    now ← stamp env
    elim existing [
      | none ↦ do id ← fresh_id env (codes "group"); _ ← insert_whole_group id now item; pure tt
      | some old ↦ update_whole_group old.id now item
    ]
