-- ===== src/Store/Upserts/Profiles.antt =====
-- What the upserts of remote and power profiles of internal/store ensure of closed tables.
use wol.Prelude.{Bool-cases, Option, arith, inl, inr, ok, ◌≡◌}
use wol.Net.{Ip}
use wol.Rules.Machines.{normalize_power_profile}
use wol.Rules.Remote.{
  check_hints, check_ports, for_protocol, normalize_remote_profile, normalize_trimmed,
  trimmed_profile, with_mode, with_policy, with_ports, with_stream,
}
use wol.Store.{PowerProfile, RemoteProfile}
use wol.Store.Attempts.{id_or_fresh}
use wol.Store.Db.{Db, Env, Tables, exec, lift, normalize_db_error, pure, query, ◌>>=◌}
use wol.Store.Links.{All-has_row, IsClosed}
use wol.Store.Logic.{Ensures, Ensures-fresh_id, Ensures-weaken}
use wol.Store.Profiles.{
  find_device, host_of, insert_power, insert_remote, profile_device, upsert_power_profile_on,
  upsert_remote_profile_on, write_power, write_remote,
}
use wol.Store.Rules.{
  failed, given, return, returned, then_do, then_exec, then_find, then_lift, then_raise_if,
  then_stamp,
}
use wol.Store.Sites.{found_or}
use wol.Store.Writes.{
  Anything, HasDevice, insert_power-Good, insert_remote-Good, update_power_row-Good,
  update_remote_row-Good,
}
use wol.Text.{Text, codes, is_empty, trim_space}

normalize_remote_profile-device :
    (ipv6 : Text → Option Ip) (item row : RemoteProfile)
    → normalize_remote_profile ipv6 item ≡ ok row
    → row.device_id ≡ trim_space item.device_id
unfolding normalize_remote_profile normalize_trimmed trimmed_profile check_ports with_mode
    with_ports with_stream check_hints with_policy for_protocol
normalize_remote_profile-device ipv6 item row e = ground arith

id_or_fresh-Good :
    (env : Env) (P : Tables → Type 0) (prefix id : Text)
    → Ensures P (id_or_fresh env prefix id) (λ _ t. P t)
unfolding id_or_fresh
id_or_fresh-Good env P prefix id = elim (Bool-cases (is_empty id)) [
  | inl y ↦
      rw y (Ensures-weaken P _ P _ _ (λ t h. h) (λ a t (h, e). h) (Ensures-fresh_id P env prefix))
  | inr n ↦ rw n (return _ (λ t h. h))
]

remote_back :
    (env : Env) (read : Tables → Option RemoteProfile)
    → Ensures Anything (query env read >>= (λ found. lift (found_or found))) (λ _ t. Anything t)
unfolding found_or
remote_back env read = then_find _ _ _ (failed _) (λ old. returned _ (λ t h. tt))

remote_insert :
    (env : Env) (now : Text) (item : RemoteProfile)
    → Ensures
        (HasDevice item.device_id)
        (id_or_fresh env (codes "remote") item.id >>= (λ id.
          exec env normalize_db_error
            (insert_remote (record item { id = id; created_at = now; updated_at = now }))
          >>= (λ _. pure tt)))
        (λ (u : Unit {0}) t. Anything t)
remote_insert env now item =
    then_do (λ _ t. HasDevice item.device_id t) _ _ (id_or_fresh-Good env _ _ _)
      (λ id.
        given (λ t. Anything t × HasDevice item.device_id t) _ (λ t h. (tt, h))
          (then_exec Anything _ _ _ _ (λ t t' g h. tt) (insert_remote-Good _)
            (λ n. return _ (λ t h. tt))))

write_remote-Good :
    (env : Env) (item : RemoteProfile)
    → Ensures (HasDevice item.device_id) (write_remote env item) (λ _ t. Anything t)
unfolding write_remote
write_remote-Good env item = then_stamp _ _ (λ now.
    then_find _ _ _
      (then_do (λ _ t. Anything t) _ _
        (given (HasDevice item.device_id) _ (λ t (h, e). h) (remote_insert env now item))
        (λ u. remote_back env _))
      (λ old.
        then_do (λ _ t. Anything t) _ _
          (given (λ t. Anything t × Anything t) _ (λ t h. (tt, tt))
            (then_exec Anything _ _ _ _ (λ t t' g h. tt) (update_remote_row-Good _)
              (λ n. return _ (λ t h. tt))))
          (λ u. remote_back env _)))

power_back :
    (env : Env) (read : Tables → Option PowerProfile)
    → Ensures Anything (query env read >>= (λ found. lift (found_or found))) (λ _ t. Anything t)
unfolding found_or
power_back env read = then_find _ _ _ (failed _) (λ old. returned _ (λ t h. tt))

power_insert :
    (env : Env) (now : Text) (item : PowerProfile)
    → Ensures
        (HasDevice item.device_id)
        (id_or_fresh env (codes "power") item.id >>= (λ id.
          exec env normalize_db_error
            (insert_power (record item { id = id; created_at = now; updated_at = now }))
          >>= (λ _. pure tt)))
        (λ (u : Unit {0}) t. Anything t)
power_insert env now item =
    then_do (λ _ t. HasDevice item.device_id t) _ _ (id_or_fresh-Good env _ _ _)
      (λ id.
        given (λ t. Anything t × HasDevice item.device_id t) _ (λ t h. (tt, h))
          (then_exec Anything _ _ _ _ (λ t t' g h. tt) (insert_power-Good _)
            (λ n. return _ (λ t h. tt))))

write_power-Good :
    (env : Env) (item : PowerProfile)
    → Ensures (HasDevice item.device_id) (write_power env item) (λ _ t. Anything t)
unfolding write_power
write_power-Good env item = then_stamp _ _ (λ now.
    then_find _ _ _
      (then_do (λ _ t. Anything t) _ _
        (given (HasDevice item.device_id) _ (λ t (h, e). h) (power_insert env now item))
        (λ u. power_back env _))
      (λ old.
        then_do (λ _ t. Anything t) _ _
          (given (λ t. Anything t × Anything t) _ (λ t h. (tt, tt))
            (then_exec Anything _ _ _ _ (λ t t' g h. tt) (update_power_row-Good _)
              (λ n. return _ (λ t h. tt))))
          (λ u. power_back env _)))

-- An identifier that the devices have has no space around it.
HasDevice-trim : (t : Tables) (id : Text) → IsClosed t → HasDevice id t → trim_space id ≡ id
HasDevice-trim t id c h =
    All-has_row (λ v. trim_space v ≡ v) (λ d. d.id) id t.devices c.device_ids h

trimmed_device :
    {A : Type 0} (id : Text) (m : Db A) (Q : A → Tables → Type 0)
    → Ensures (HasDevice (trim_space id)) m Q
    → Ensures (HasDevice id) m Q
trimmed_device id m Q h = record {
  run = λ w a c p e. h.run w a c (rw (HasDevice-trim w.tables id c p) p) e;
}

find_device-Good :
    (env : Env) (P : Tables → Type 0) (id : Text) → Ensures P (find_device env id) (λ _ t. P t)
unfolding find_device profile_device
find_device-Good env P id = then_find _ _ _ (failed _) (λ old. returned _ (λ t (h, e). h))

host_of-Good :
    (env : Env) (P : Tables → Type 0) (item : RemoteProfile)
    → Ensures P (host_of env item) (λ _ t. P t)
unfolding host_of
host_of-Good env P item = elim (Bool-cases (is_empty (trim_space item.host))) [
  | inl y ↦ rw y (then_do (λ _ t. P t) _ _ (find_device-Good env P _) (λ d. return _ (λ t h. h)))
  | inr n ↦ rw n (return _ (λ t h. h))
]

pub upsert_remote_profile_on-Good :
    (env : Env) (item : RemoteProfile)
    → Ensures (HasDevice item.device_id) (upsert_remote_profile_on env item) (λ _ t. Anything t)
unfolding upsert_remote_profile_on
upsert_remote_profile_on-Good env item = trimmed_device item.device_id _ _ (
    trimmed_device (trim_space item.device_id) _ _ (
      then_do (λ _ t. HasDevice (trim_space (trim_space item.device_id)) t) _ _
        (host_of-Good env _ item)
        (λ host. then_lift _ _ (λ (row : RemoteProfile) e.
          given (HasDevice row.device_id) _
            (λ t h.
              rw
                (normalize_remote_profile-device env.ipv6
                  (record item { device_id = trim_space item.device_id; host = host }) row e)
                h)
            (write_remote-Good env row)))))

pub upsert_power_profile_on-Good :
    (env : Env) (item : PowerProfile)
    → Ensures (HasDevice item.device_id) (upsert_power_profile_on env item) (λ _ t. Anything t)
unfolding upsert_power_profile_on normalize_power_profile
upsert_power_profile_on-Good env item =
    trimmed_device item.device_id _ _ (then_raise_if _ _ _ (λ u e. write_power-Good env _))
