-- ===== src/Store/Upserts/Devices.antt =====
-- What the operations on devices that an import uses ensure of closed tables.
use wol.Prelude.{refl}
use wol.Store.{Device}
use wol.Store.Db.{Env}
use wol.Store.Devices.{create_device, get_device, update_device, upsert_device_on, with_platform}
use wol.Store.Links.{has_row-find}
use wol.Store.Logic.{Ensures}
use wol.Store.Rules.{
  failed, given, return, returned, then_exec, then_find, then_fresh_id, then_need_row, then_stamp,
}
use wol.Store.Sites.{found_or}
use wol.Store.Upserts.NewIds.{Bytes, new_id-trim}
use wol.Store.Writes.{Anything, DeviceFits, HasDevice, insert_device-Good, update_device_row-Good}
use wol.Text.{Text, codes, is_space}

pub create_device-Good :
    (env : Env) (item : Device)
    → Bytes env
    → Ensures (DeviceFits item) (create_device env item) (λ a t. HasDevice a.id t)
unfolding create_device with_platform is_space
create_device-Good env item bytes = then_stamp _ _ (λ now. then_fresh_id _ _ _ (λ k.
    given (λ t. Anything t × DeviceFits item t) _ (λ t h. (tt, h))
      (then_exec Anything _ _ _ _ (λ t t' g h. tt)
        (insert_device-Good _ (
          new_id-trim env (codes "device") k bytes
            (refl, (refl, (refl, (refl, (refl, (refl, tt))))))))
        (λ n. return _ (λ t (u, h). h)))))

get_device-Good :
    (env : Env) (id : Text) → Ensures (HasDevice id) (get_device env id) (λ a t. HasDevice a.id t)
unfolding get_device found_or
get_device-Good env id =
    then_find _ _ _ (failed _)
      (λ old. returned _ (λ t (h, e). has_row-find (λ r. r.id) _ t.devices old e))

pub update_device-Good :
    (env : Env) (id : Text) (item : Device)
    → Ensures
        (λ t. HasDevice id t × DeviceFits item t)
        (update_device env id item)
        (λ a t. HasDevice a.id t)
unfolding update_device with_platform
update_device-Good env id item = then_stamp _ _ (λ now.
    then_exec (HasDevice id) _ _ _ _ (λ t t' g. g.device id) (update_device_row-Good id _)
      (λ n.
        then_need_row _ _ (λ u. given (HasDevice id) _ (λ t (h, p). h) (get_device-Good env id))))

pub upsert_device_on-Good :
    (env : Env) (item : Device)
    → Bytes env
    → Ensures (DeviceFits item) (upsert_device_on env item) (λ a t. HasDevice a.id t)
unfolding upsert_device_on
upsert_device_on-Good env item bytes =
    then_find _ _ _ (given (DeviceFits item) _ (λ t (h, e). h) (create_device-Good env item bytes))
      (λ old.
        given (λ t. HasDevice old.id t × DeviceFits item t) _
          (λ t (h, e). (has_row-find (λ r. r.id) _ t.devices old e, h))
          (update_device-Good env old.id item))
