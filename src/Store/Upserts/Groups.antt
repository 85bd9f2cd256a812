-- ===== src/Store/Upserts/Groups.antt =====
-- What `upsertGroupOn` of internal/store ensures of closed tables.
use wol.Prelude.{All, All-map, List, [], suc, ℕ, ◌∷◌}
use wol.Store.{Group}
use wol.Store.Db.{Env, Tables}
use wol.Store.Groups.{
  insert_members, insert_whole_group, replace_members, update_whole_group, upsert_group_on,
}
use wol.Store.Links.{has_row-find}
use wol.Store.Logic.{Ensures, Stable}
use wol.Store.Rules.{
  given, return, then_do, then_exec, then_find, then_fresh_id, then_need_row, then_stamp,
}
use wol.Store.Writes.{
  Anything, HasDevice, HasGroup, delete_members-Good, insert_group-Good, insert_member-Good,
  update_group_row-Good,
}
use wol.Text.{Text}

abbrev pub HasDevices : List Text → Tables → Type 0
HasDevices ids t = All (λ id. HasDevice id t) ids

HasDevices-Stable : (ids : List Text) → Stable (HasDevices ids)
HasDevices-Stable ids t t' g h = All-map _ _ g.device ids h

insert_members-Good :
    (env : Env) (id : Text) (n : ℕ) (ids : List Text)
    → Ensures
        (λ t. HasGroup id t × HasDevices ids t)
        (insert_members env id n ids)
        (λ _ t. Anything t)
unfolding insert_members
insert_members-Good env id n [] = return _ (λ t h. tt)
insert_members-Good env id n (d ∷ ids) =
    given (λ t. (HasGroup id t × HasDevices ids t) × (HasGroup id t × HasDevice d t)) _
      (λ t (g, (h, hs)). ((g, hs), (g, h)))
      (then_exec (λ t. HasGroup id t × HasDevices ids t) _ _ _ _
        (λ t t' g (p, h). (g.group id p, HasDevices-Stable ids t t' g h)) (insert_member-Good _)
        (λ k.
          given (λ t. HasGroup id t × HasDevices ids t) _ (λ t (h, u). h)
            (insert_members-Good env id (suc n) ids)))

replace_members-Good :
    (env : Env) (id : Text) (ids : List Text)
    → Ensures
        (λ t. HasGroup id t × HasDevices ids t)
        (replace_members env id ids)
        (λ _ t. Anything t)
unfolding replace_members
replace_members-Good env id ids =
    given (λ t. (HasGroup id t × HasDevices ids t) × Anything t) _ (λ t h. (h, tt))
      (then_exec (λ t. HasGroup id t × HasDevices ids t) _ _ _ _
        (λ t t' g (p, h). (g.group id p, HasDevices-Stable ids t t' g h)) (delete_members-Good id)
        (λ k.
          given (λ t. HasGroup id t × HasDevices ids t) _ (λ t (h, u). h)
            (insert_members-Good env id 0 ids)))

insert_whole_group-Good :
    (env : Env) (id now : Text) (item : Group)
    → Ensures (HasDevices item.device_ids) (insert_whole_group env id now item) (λ a t. Anything t)
unfolding insert_whole_group
insert_whole_group-Good env id now item =
    given (λ t. HasDevices item.device_ids t × Anything t) _ (λ t h. (h, tt))
      (then_exec (HasDevices item.device_ids) _ _ _ _ (HasDevices-Stable item.device_ids)
        (insert_group-Good _)
        (λ k.
          then_do (λ _ t. Anything t) _ _
            (given (λ t. HasGroup id t × HasDevices item.device_ids t) _ (λ t (h, g). (g, h))
              (replace_members-Good env id item.device_ids))
            (λ u. return _ (λ t h. tt))))

update_whole_group-Good :
    (env : Env) (id now : Text) (item : Group)
    → Ensures
        (λ t. HasGroup id t × HasDevices item.device_ids t)
        (update_whole_group env id now item)
        (λ a t. Anything t)
unfolding update_whole_group
update_whole_group-Good env id now item =
    given (λ t. (HasGroup id t × HasDevices item.device_ids t) × Anything t) _ (λ t h. (h, tt))
      (then_exec (λ t. HasGroup id t × HasDevices item.device_ids t) _ _ _ _
        (λ t t' g (p, h). (g.group id p, HasDevices-Stable item.device_ids t t' g h))
        (update_group_row-Good id item now)
        (λ n. then_need_row _ _ (λ u.
          given (λ t. HasGroup id t × HasDevices item.device_ids t) _ (λ t (h, u). h)
            (replace_members-Good env id item.device_ids))))

pub upsert_group_on-Good :
    (env : Env) (item : Group)
    → Ensures (HasDevices item.device_ids) (upsert_group_on env item) (λ _ t. Anything t)
unfolding upsert_group_on
upsert_group_on-Good env item =
    then_find _ _ _
      (then_stamp _ _ (λ now. then_fresh_id _ _ _ (λ k.
        given (HasDevices item.device_ids) _ (λ t (h, e). h)
          (then_do (λ _ t. Anything t) _ _ (insert_whole_group-Good env _ now item)
            (λ u. return _ (λ t h. tt))))))
      (λ old. then_stamp _ _ (λ now.
        given (λ t. HasGroup old.id t × HasDevices item.device_ids t) _
          (λ t (h, e). (has_row-find (λ r. r.id) _ t.groups old e, h))
          (update_whole_group-Good env old.id now item)))
