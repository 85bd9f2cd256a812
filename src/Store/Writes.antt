-- ===== src/Store/Writes.antt =====
-- What the statements of an import ensure of closed tables.
use wol.Prelude.{All-append, Bool, List, [], arith, refl, ◌++◌, ◌∷◌, ◌≡◌}
use wol.Store.{Device, Group, PowerProfile, RemoteProfile, Site, WakeRelay}
use wol.Store.Db.{GroupRow, Member, Tables}
use wol.Store.Db.Rows.{by_key, delete_rows, update_rows}
use wol.Store.Devices.{insert_device, set_device, stored_device, update_device_row}
use wol.Store.Groups.{delete_members, group_row, insert_group, insert_member, update_group_row}
use wol.Store.Links.{
  All-delete, All-update, Reference, has_row-append, has_row-last, has_row-update, known_in,
}
use wol.Store.Logic.{Writes}
use wol.Store.Profiles.{
  insert_power, insert_remote, set_power, set_remote, update_power_row, update_remote_row,
}
use wol.Store.Relays.{insert_relay, set_relay, stored_relay, update_relay_row}
use wol.Store.Replace.{
  KeepsIds, devices-Good, groups-Good, members-Good, power_profiles-Good, relays-Good,
  remote_profiles-Good, sites-Good,
}
use wol.Store.Sites.{insert_site, set_site, update_site_row}
use wol.Text.{Text, trim_space}

abbrev pub Anything : Tables → Type 0
Anything t = Unit

abbrev pub HasRelay : Text → Tables → Type 0
HasRelay id t = (known_in t).relay id

abbrev pub HasSite : Text → Tables → Type 0
HasSite id t = (known_in t).site id

abbrev pub HasGroup : Text → Tables → Type 0
HasGroup id t = (known_in t).group id

abbrev pub HasDevice : Text → Tables → Type 0
HasDevice id t = (known_in t).device id

-- a reference to a relay, and the references of a device
abbrev pub RelayFits : Text → Tables → Type 0
RelayFits id t = Reference (known_in t).relay id

abbrev pub DeviceFits : Device → Tables → Type 0
DeviceFits d t =
    Reference (known_in t).relay d.wake_relay_id × Reference (known_in t).site d.site_id

keeps_more : {A : Type 0} (key : A → Text) (rows more : List A) → KeepsIds key rows (rows ++ more)
keeps_more key rows more id h = has_row-append key id rows more h

keeps_updated :
    {A : Type 0} (key : A → Text) (test : A → Bool) (change : A → A) (rows : List A)
    → ((r : A) → key (change r) ≡ key r)
    → KeepsIds key rows (update_rows test change rows)
keeps_updated key test change rows same_key id h =
    rw (has_row-update key id test change rows same_key) h

pub insert_relay-Good : (item : WakeRelay) → Writes Anything (insert_relay item) (HasRelay item.id)
unfolding insert_relay stored_relay
insert_relay-Good item t n t' c p e =
    let rows = t.relays ++ stored_relay item ∷ [] in
    let written : record t { relays = rows } ≡ t' = ground arith in
    rw (← written) (
      relays-Good t _ c rows (keeps_more (λ r. r.id) t.relays _)
        (has_row-last (λ r. r.id) t.relays (stored_relay item)))

pub update_relay_row-Good :
    (id : Text) (item : WakeRelay) → Writes Anything (update_relay_row id item) Anything
unfolding update_relay_row set_relay
update_relay_row-Good id item t n t' c p e =
    let rows = update_rows (by_key (λ r. r.id) id) (set_relay item) t.relays in
    let written : record t { relays = rows } ≡ t' = ground arith in
    rw (← written) (
      relays-Good t _ c rows (keeps_updated (λ r. r.id) _ (set_relay item) t.relays (λ r. refl)) tt)

pub insert_site-Good :
    (item : Site) → Writes (RelayFits item.wake_relay_id) (insert_site item) (HasSite item.id)
unfolding insert_site
insert_site-Good item t n t' c p e =
    let row : Site = record item { name = trim_space item.name } in
    let rows = t.sites ++ row ∷ [] in
    let written : record t { sites = rows } ≡ t' = ground arith in
    rw (← written) (
      sites-Good t _ c rows (keeps_more (λ r. r.id) t.sites _)
        (All-append _ t.sites (row ∷ []) c.site_relays (p, tt))
        (has_row-last (λ r. r.id) t.sites row))

pub update_site_row-Good :
    (id : Text) (item : Site)
    → Writes (RelayFits item.wake_relay_id) (update_site_row id item) Anything
unfolding update_site_row set_site
update_site_row-Good id item t n t' c p e =
    let rows = update_rows (by_key (λ r. r.id) id) (set_site item) t.sites in
    let written : record t { sites = rows } ≡ t' = ground arith in
    rw (← written) (
      sites-Good t _ c rows (keeps_updated (λ r. r.id) _ (set_site item) t.sites (λ r. refl))
        (All-update _ _ (set_site item) t.sites (λ _ _. p) c.site_relays) tt)

pub insert_device-Good :
    (item : Device)
    → trim_space item.id ≡ item.id
    → Writes (DeviceFits item) (insert_device item) (HasDevice item.id)
unfolding insert_device stored_device
insert_device-Good item tidy t n t' c (relay, site) e =
    let rows = t.devices ++ stored_device item ∷ [] in
    let written : record t { devices = rows } ≡ t' = ground arith in
    rw (← written) (
      devices-Good t _ c rows (keeps_more (λ r. r.id) t.devices _)
        (All-append _ t.devices (stored_device item ∷ []) c.device_relays (relay, tt))
        (All-append _ t.devices (stored_device item ∷ []) c.device_sites (site, tt))
        (All-append _ t.devices (stored_device item ∷ []) c.device_ids (tidy, tt))
        (has_row-last (λ r. r.id) t.devices (stored_device item)))

pub update_device_row-Good :
    (id : Text) (item : Device) → Writes (DeviceFits item) (update_device_row id item) Anything
unfolding update_device_row set_device
update_device_row-Good id item t n t' c (relay, site) e =
    let rows = update_rows (by_key (λ r. r.id) id) (set_device item) t.devices in
    let written : record t { devices = rows } ≡ t' = ground arith in
    rw (← written) (
      devices-Good t _ c rows (keeps_updated (λ r. r.id) _ (set_device item) t.devices (λ r. refl))
        (All-update _ _ (set_device item) t.devices (λ _ _. relay) c.device_relays)
        (All-update _ _ (set_device item) t.devices (λ _ _. site) c.device_sites)
        (All-update _ _ (set_device item) t.devices (λ _ h. h) c.device_ids) tt)

pub insert_group-Good : (item : Group) → Writes Anything (insert_group item) (HasGroup item.id)
unfolding insert_group group_row
insert_group-Good item t n t' c p e =
    let rows = t.groups ++ group_row item ∷ [] in
    let written : record t { groups = rows } ≡ t' = ground arith in
    rw (← written) (
      groups-Good t _ c rows (keeps_more (λ r. r.id) t.groups _)
        (has_row-last (λ r. r.id) t.groups (group_row item)))

pub update_group_row-Good :
    (id : Text) (item : Group) (now : Text)
    → Writes Anything (update_group_row id item now) Anything
unfolding update_group_row
update_group_row-Good id item now t n t' c p e =
    let change : GroupRow → GroupRow = λ r. record r {
      name = trim_space item.name;
      description = item.description;
      updated_at = now;
    } in
    let rows = update_rows (by_key (λ r. r.id) id) change t.groups in
    let written : record t { groups = rows } ≡ t' = ground arith in
    rw (← written)
      (groups-Good t _ c rows (keeps_updated (λ r. r.id) _ change t.groups (λ r. refl)) tt)

pub delete_members-Good : (id : Text) → Writes Anything (delete_members id) Anything
unfolding delete_members
delete_members-Good id t n t' c p e =
    let rows = delete_rows (by_key (λ r. r.group_id) id) t.members in
    let written : record t { members = rows } ≡ t' = ground arith in
    rw (← written) (
      members-Good t _ c rows (All-delete _ _ t.members c.member_groups)
        (All-delete _ _ t.members c.member_devices) tt)

pub insert_member-Good :
    (m : Member)
    → Writes (λ t. HasGroup m.group_id t × HasDevice m.device_id t) (insert_member m) Anything
unfolding insert_member
insert_member-Good m t n t' c (g, d) e =
    let rows = t.members ++ m ∷ [] in
    let written : record t { members = rows } ≡ t' = ground arith in
    rw (← written) (
      members-Good t _ c rows (All-append _ t.members (m ∷ []) c.member_groups (g, tt))
        (All-append _ t.members (m ∷ []) c.member_devices (d, tt)) tt)

pub insert_remote-Good :
    (item : RemoteProfile) → Writes (HasDevice item.device_id) (insert_remote item) Anything
unfolding insert_remote
insert_remote-Good item t n t' c p e =
    let rows = t.remote_profiles ++ item ∷ [] in
    let written : record t { remote_profiles = rows } ≡ t' = ground arith in
    rw (← written) (
      remote_profiles-Good t _ c rows
        (All-append _ t.remote_profiles (item ∷ []) c.remote_devices (p, tt)) tt)

pub update_remote_row-Good :
    (item : RemoteProfile) → Writes Anything (update_remote_row item) Anything
unfolding update_remote_row set_remote
update_remote_row-Good item t n t' c p e =
    let rows =
      update_rows (by_key (λ r. r.device_id) item.device_id) (set_remote item) t.remote_profiles in
    let written : record t { remote_profiles = rows } ≡ t' = ground arith in
    rw (← written) (
      remote_profiles-Good t _ c rows
        (All-update _ _ (set_remote item) t.remote_profiles (λ _ h. h) c.remote_devices) tt)

pub insert_power-Good :
    (item : PowerProfile) → Writes (HasDevice item.device_id) (insert_power item) Anything
unfolding insert_power
insert_power-Good item t n t' c p e =
    let rows = t.power_profiles ++ item ∷ [] in
    let written : record t { power_profiles = rows } ≡ t' = ground arith in
    rw (← written) (
      power_profiles-Good t _ c rows
        (All-append _ t.power_profiles (item ∷ []) c.power_devices (p, tt)) tt)

pub update_power_row-Good : (item : PowerProfile) → Writes Anything (update_power_row item) Anything
unfolding update_power_row set_power
update_power_row-Good item t n t' c p e =
    let rows =
      update_rows (by_key (λ r. r.device_id) item.device_id) (set_power item) t.power_profiles in
    let written : record t { power_profiles = rows } ≡ t' = ground arith in
    rw (← written) (
      power_profiles-Good t _ c rows
        (All-update _ _ (set_power item) t.power_profiles (λ _ h. h) c.power_devices) tt)
