-- ===== src/Store/Imports/Whole.antt =====
-- `Import` of internal/store as a whole: its loops, and what it ensures of closed tables.
use wol.Prelude.{List, [], arith, inl, inr, ◌∷◌}
use wol.Store.{
  Device, ExportData, Group, PowerProfile, RemoteProfile, Site, WakeRelay, unknown_profile_device,
}
use wol.Store.Atomic.{import_all-cases, transaction_cases}
use wol.Store.Db.{Db, Env, World, later, lift, ◌>>=◌}
use wol.Store.Imports.{
  Leads, Leads-device, Leads-relay, Leads-site, bind_id-Leads, lookup_id-Leads, mapped_devices-All,
  mapped_relay-Reference, mapped_site-Reference,
}
use wol.Store.Links.{IsClosed, Within, known_in}
use wol.Store.Logic.{Ensures, Ensures-weaken, Within_refl}
use wol.Store.Rules.{given, return, then_call, then_do, then_lift}
use wol.Store.Transfer.{
  bind_id, import_all, import_body, import_devices, import_groups, import_power, import_relays,
  import_remote, import_sites, known, lookup_id, mapped_site,
}
use wol.Store.Upserts.{upsert_site_on-Good, upsert_wake_relay_on-Good}
use wol.Store.Upserts.Devices.{upsert_device_on-Good}
use wol.Store.Upserts.Groups.{HasDevices, upsert_group_on-Good}
use wol.Store.Upserts.NewIds.{Bytes}
use wol.Store.Upserts.Profiles.{upsert_power_profile_on-Good, upsert_remote_profile_on-Good}
use wol.Store.Writes.{Anything, DeviceFits, HasDevice, HasRelay, HasSite, RelayFits}
use wol.Text.{Text}

import_relays-Good :
    (env : Env) (relays : List WakeRelay) (ids : List (Text × Text))
    → Ensures (Leads HasRelay ids) (import_relays env ids relays) (λ ids' t. Leads HasRelay ids' t)
unfolding import_relays
import_relays-Good env [] ids = return _ (λ t h. h)
import_relays-Good env (relay ∷ relays) ids =
    given (λ t. Leads HasRelay ids t × Anything t) _ (λ t h. (h, tt))
      (then_call (Leads HasRelay ids) _ _ (Leads-relay ids) (upsert_wake_relay_on-Good env relay)
        (λ a.
          given (Leads HasRelay (bind_id relay.id a.id ids)) _
            (λ t (h, p). bind_id-Leads (λ v. HasRelay v t) ids relay.id a.id h p)
            (import_relays-Good env relays (bind_id relay.id a.id ids))))

import_sites-Good :
    (env : Env) (relay_ids : List (Text × Text)) (sites : List Site) (ids : List (Text × Text))
    → Ensures
        (λ t. Leads HasRelay relay_ids t × Leads HasSite ids t)
        (import_sites env relay_ids ids sites)
        (λ ids' t. Leads HasRelay relay_ids t × Leads HasSite ids' t)
unfolding import_sites
import_sites-Good env relay_ids [] ids = return _ (λ t h. h)
import_sites-Good env relay_ids (site ∷ sites) ids = then_lift _ _ (λ (relay : Text) e.
    given (λ t. (Leads HasRelay relay_ids t × Leads HasSite ids t) × RelayFits relay t) _
      (λ t (h, k).
        ((h, k), mapped_relay-Reference (λ v. HasRelay v t) relay_ids site.wake_relay_id relay h e))
      (then_call (λ t. Leads HasRelay relay_ids t × Leads HasSite ids t) _ _
        (λ t t' g (h, k). (Leads-relay relay_ids t t' g h, Leads-site ids t t' g k))
        (upsert_site_on-Good env (record site { wake_relay_id = relay }))
        (λ a.
          given (λ t. Leads HasRelay relay_ids t × Leads HasSite (bind_id site.id a.id ids) t) _
            (λ t ((h, k), p). (h, bind_id-Leads (λ v. HasSite v t) ids site.id a.id k p))
            (import_sites-Good env relay_ids sites (bind_id site.id a.id ids)))))

import_devices-Good :
    (env : Env) (relay_ids site_ids : List (Text × Text)) (devices : List Device)
    (ids : List (Text × Text))
    → Bytes env
    → Ensures
        (λ t. (Leads HasRelay relay_ids t × Leads HasSite site_ids t) × Leads HasDevice ids t)
        (import_devices env relay_ids site_ids ids devices)
        (λ ids' t. Leads HasDevice ids' t)
unfolding import_devices
import_devices-Good env relay_ids site_ids [] ids bytes = return _ (λ t (h, k). k)
import_devices-Good env relay_ids site_ids (device ∷ devices) ids bytes = then_lift _ _ (λ u valid.
    then_lift _ _ (λ (relay : Text) e.
      let item : Device = record device {
        wake_relay_id = relay;
        site_id = mapped_site site_ids device.site_id;
      } in
      given
        (λ t.
          ((Leads HasRelay relay_ids t × Leads HasSite site_ids t) × Leads HasDevice ids t)
          × DeviceFits item t)
        _
        (λ t ((h, k), m). (
          ((h, k), m),
          (
            mapped_relay-Reference (λ v. HasRelay v t) relay_ids device.wake_relay_id relay h e,
            mapped_site-Reference (λ v. HasSite v t) site_ids device.site_id k,
          ),
        ))
        (then_call
          (λ t. (Leads HasRelay relay_ids t × Leads HasSite site_ids t) × Leads HasDevice ids t) _ _
          (λ t t' g ((h, k), m). (
            (Leads-relay relay_ids t t' g h, Leads-site site_ids t t' g k),
            Leads-device ids t t' g m,
          ))
          (upsert_device_on-Good env item bytes)
          (λ a.
            given
              (λ t.
                (Leads HasRelay relay_ids t × Leads HasSite site_ids t)
                × Leads HasDevice (bind_id device.id a.id ids) t)
              _
              (λ t (((h, k), m), p).
                ((h, k), bind_id-Leads (λ v. HasDevice v t) ids device.id a.id m p))
              (import_devices-Good env relay_ids site_ids devices (bind_id device.id a.id ids)
                bytes)))))

import_groups-Good :
    (env : Env) (ids : List (Text × Text)) (groups : List Group)
    → Ensures (Leads HasDevice ids) (import_groups env ids groups) (λ _ t. Leads HasDevice ids t)
unfolding import_groups
import_groups-Good env ids [] = return _ (λ t h. h)
import_groups-Good env ids (group ∷ groups) = then_lift _ _ (λ (news : List Text) e.
    given (λ t. Leads HasDevice ids t × HasDevices news t) _
      (λ t h. (h, mapped_devices-All (λ v. HasDevice v t) ids group.device_ids news h e))
      (then_call (Leads HasDevice ids) _ _ (Leads-device ids)
        (upsert_group_on-Good env (record group { device_ids = news }))
        (λ u. given (Leads HasDevice ids) _ (λ t (h, k). h) (import_groups-Good env ids groups))))

-- one iteration of a loop over profiles
module _ {A : Type 0} (ids : List (Text × Text)) where
  profile-Good :
      (id : Text) (write : Text → Db A) (rest : Db (Unit {0}))
      → ((device : Text) → Ensures (HasDevice device) (write device) (λ _ t. Anything t))
      → Ensures (Leads HasDevice ids) rest (λ _ t. Leads HasDevice ids t)
      → Ensures
          (Leads HasDevice ids)
          (lift (known unknown_profile_device (lookup_id id ids))
            >>= (λ device. write device >>= (λ _. rest)))
          (λ _ t. Leads HasDevice ids t)
  unfolding known
  profile-Good id write rest h g = then_lift _ _ (λ (device : Text) e.
      given (λ t. Leads HasDevice ids t × HasDevice device t) _
        (λ t k. (k, lookup_id-Leads (λ v. HasDevice v t) ids id device k (ground arith)))
        (then_call (Leads HasDevice ids) _ _ (Leads-device ids) (h device)
          (λ a. given (Leads HasDevice ids) _ (λ t (k, u). k) g)))

import_remote-Good :
    (env : Env) (ids : List (Text × Text)) (profiles : List RemoteProfile)
    → Ensures (Leads HasDevice ids) (import_remote env ids profiles) (λ _ t. Leads HasDevice ids t)
unfolding import_remote
import_remote-Good env ids [] = return _ (λ t h. h)
import_remote-Good env ids (p ∷ profiles) =
    profile-Good ids p.device_id _ _
      (λ device. upsert_remote_profile_on-Good env (record p { id = []; device_id = device }))
      (import_remote-Good env ids profiles)

import_power-Good :
    (env : Env) (ids : List (Text × Text)) (profiles : List PowerProfile)
    → Ensures (Leads HasDevice ids) (import_power env ids profiles) (λ _ t. Leads HasDevice ids t)
unfolding import_power
import_power-Good env ids [] = return _ (λ t h. h)
import_power-Good env ids (p ∷ profiles) =
    profile-Good ids p.device_id _ _
      (λ device. upsert_power_profile_on-Good env (record p { id = []; device_id = device }))
      (import_power-Good env ids profiles)

import_body-Good :
    (env : Env) (data_in : ExportData)
    → Bytes env
    → Ensures Anything (import_body env data_in) (λ _ t. Anything t)
unfolding import_body
import_body-Good env data_in bytes =
    then_do (λ r t. Leads HasRelay r t) _ _
      (given (Leads HasRelay []) _ (λ t h. tt) (import_relays-Good env data_in.wake_relays []))
      (λ r.
        then_do (λ s t. Leads HasRelay r t × Leads HasSite s t) _ _
          (given (λ t. Leads HasRelay r t × Leads HasSite [] t) _ (λ t h. (h, tt))
            (import_sites-Good env r data_in.sites []))
          (λ s.
            then_do (λ d t. Leads HasDevice d t) _ _
              (given (λ t. (Leads HasRelay r t × Leads HasSite s t) × Leads HasDevice [] t) _
                (λ t h. (h, tt)) (import_devices-Good env r s data_in.devices [] bytes))
              (λ d.
                then_do (λ _ t. Leads HasDevice d t) _ _ (import_groups-Good env d data_in.groups)
                  (λ u.
                    then_do (λ _ t. Leads HasDevice d t) _ _
                      (import_remote-Good env d data_in.remote_profiles)
                      (λ v.
                        Ensures-weaken _ _ (Leads HasDevice d) _ _ (λ t h. h) (λ a t h. tt)
                          (import_power-Good env d data_in.power_profiles))))))

-- `Import` keeps the tables closed, whether it succeeds or fails: afterwards each reference of a
-- site, a device, a group or a profile is blank or leads to a row, and each identifier that was
-- there is there still. The tables are closed before, and the random suffixes are bytes.
pub import_all-IsClosed :
    (env : Env) (data_in : ExportData) (w : World)
    → Bytes env
    → IsClosed w.tables
    → IsClosed (import_all env data_in w).1.tables
      × Within (known_in w.tables) (known_in (import_all env data_in w).1.tables)
import_all-IsClosed env data_in w bytes c =
    let same : IsClosed w.tables × Within (known_in w.tables) (known_in w.tables) =
      (c, Within_refl (known_in w.tables)) in
    elim (import_all-cases env data_in w) [
      | inl (v, r) ↦ rw r same
      | inr r ↦ rw r (elim (transaction_cases env (import_body env data_in) w) [
        | inl (e, q) ↦ rw q same
        | inr (a, (done, (r, q))) ↦
            let good = (import_body-Good env data_in bytes).run (later w) a c tt done in
            rw q (good.closed, good.grown)
      ])
    ]
