-- ===== src/Store/Replace.antt =====
-- What becomes of closed tables when one table is replaced.
use wol.Prelude.{All, List, true, ◌≡◌}
use wol.Store.{Device, PowerProfile, RemoteProfile, Site, WakeRelay}
use wol.Store.Db.{GroupRow, Member, Tables}
use wol.Store.Db.Rows.{has_row}
use wol.Store.Links.{Fits, Fits-Within, IsClosed, Reference, Within, known_in}
use wol.Store.Logic.{Good}
use wol.Text.{Text, trim_space}

-- New tables that hold what was known, and whose rows fit what was known, are good.
good_tables :
    (t t' : Tables) (Q : Type 0)
    → Within (known_in t) (known_in t')
    → Fits (known_in t) t'
    → Q
    → Good t t' Q
good_tables t t' Q g f q = record {
  closed = Fits-Within (known_in t) (known_in t') t' g f;
  grown = g;
  holds = q;
}

abbrev relay_key : WakeRelay → Text
relay_key r = r.id

abbrev site_key : Site → Text
site_key r = r.id

abbrev group_key : GroupRow → Text
group_key r = r.id

abbrev device_key : Device → Text
device_key r = r.id

-- a table of rows with identifiers that keeps those it had
abbrev pub KeepsIds : {A : Type 0} → (A → Text) → List A → List A → Type 0
KeepsIds key rows rows' = (id : Text) → has_row key id rows ≡ true → has_row key id rows' ≡ true

module _ (t : Tables) (Q : Type 0) (c : IsClosed t) where
  pub relays-Good :
      (rows : List WakeRelay)
      → KeepsIds relay_key t.relays rows
      → Q
      → Good t (record t { relays = rows }) Q
  relays-Good rows keep q =
      good_tables t (record t { relays = rows }) Q
        (record { relay = keep; site = λ _ h. h; group = λ _ h. h; device = λ _ h. h })
        (record {
          site_relays = c.site_relays;
          device_relays = c.device_relays;
          device_sites = c.device_sites;
          device_ids = c.device_ids;
          member_groups = c.member_groups;
          member_devices = c.member_devices;
          remote_devices = c.remote_devices;
          power_devices = c.power_devices;
        })
        q

  pub sites-Good :
      (rows : List Site)
      → KeepsIds site_key t.sites rows
      → All (λ s. Reference (known_in t).relay s.wake_relay_id) rows
      → Q
      → Good t (record t { sites = rows }) Q
  sites-Good rows keep h0 q =
      good_tables t (record t { sites = rows }) Q
        (record { relay = λ _ h. h; site = keep; group = λ _ h. h; device = λ _ h. h })
        (record {
          site_relays = h0;
          device_relays = c.device_relays;
          device_sites = c.device_sites;
          device_ids = c.device_ids;
          member_groups = c.member_groups;
          member_devices = c.member_devices;
          remote_devices = c.remote_devices;
          power_devices = c.power_devices;
        })
        q

  pub groups-Good :
      (rows : List GroupRow)
      → KeepsIds group_key t.groups rows
      → Q
      → Good t (record t { groups = rows }) Q
  groups-Good rows keep q =
      good_tables t (record t { groups = rows }) Q
        (record { relay = λ _ h. h; site = λ _ h. h; group = keep; device = λ _ h. h })
        (record {
          site_relays = c.site_relays;
          device_relays = c.device_relays;
          device_sites = c.device_sites;
          device_ids = c.device_ids;
          member_groups = c.member_groups;
          member_devices = c.member_devices;
          remote_devices = c.remote_devices;
          power_devices = c.power_devices;
        })
        q

  pub devices-Good :
      (rows : List Device)
      → KeepsIds device_key t.devices rows
      → All (λ d. Reference (known_in t).relay d.wake_relay_id) rows
      → All (λ d. Reference (known_in t).site d.site_id) rows
      → All (λ d. trim_space d.id ≡ d.id) rows
      → Q
      → Good t (record t { devices = rows }) Q
  devices-Good rows keep h0 h1 h2 q =
      good_tables t (record t { devices = rows }) Q
        (record { relay = λ _ h. h; site = λ _ h. h; group = λ _ h. h; device = keep })
        (record {
          site_relays = c.site_relays;
          device_relays = h0;
          device_sites = h1;
          device_ids = h2;
          member_groups = c.member_groups;
          member_devices = c.member_devices;
          remote_devices = c.remote_devices;
          power_devices = c.power_devices;
        })
        q

  pub members-Good :
      (rows : List Member)
      → All (λ m. (known_in t).group m.group_id) rows
      → All (λ m. (known_in t).device m.device_id) rows
      → Q
      → Good t (record t { members = rows }) Q
  members-Good rows h0 h1 q =
      good_tables t (record t { members = rows }) Q
        (record { relay = λ _ h. h; site = λ _ h. h; group = λ _ h. h; device = λ _ h. h })
        (record {
          site_relays = c.site_relays;
          device_relays = c.device_relays;
          device_sites = c.device_sites;
          device_ids = c.device_ids;
          member_groups = h0;
          member_devices = h1;
          remote_devices = c.remote_devices;
          power_devices = c.power_devices;
        })
        q

  pub remote_profiles-Good :
      (rows : List RemoteProfile)
      → All (λ p. (known_in t).device p.device_id) rows
      → Q
      → Good t (record t { remote_profiles = rows }) Q
  remote_profiles-Good rows h0 q =
      good_tables t (record t { remote_profiles = rows }) Q
        (record { relay = λ _ h. h; site = λ _ h. h; group = λ _ h. h; device = λ _ h. h })
        (record {
          site_relays = c.site_relays;
          device_relays = c.device_relays;
          device_sites = c.device_sites;
          device_ids = c.device_ids;
          member_groups = c.member_groups;
          member_devices = c.member_devices;
          remote_devices = h0;
          power_devices = c.power_devices;
        })
        q

  pub power_profiles-Good :
      (rows : List PowerProfile)
      → All (λ p. (known_in t).device p.device_id) rows
      → Q
      → Good t (record t { power_profiles = rows }) Q
  power_profiles-Good rows h0 q =
      good_tables t (record t { power_profiles = rows }) Q
        (record { relay = λ _ h. h; site = λ _ h. h; group = λ _ h. h; device = λ _ h. h })
        (record {
          site_relays = c.site_relays;
          device_relays = c.device_relays;
          device_sites = c.device_sites;
          device_ids = c.device_ids;
          member_groups = c.member_groups;
          member_devices = c.member_devices;
          remote_devices = c.remote_devices;
          power_devices = h0;
        })
        q
