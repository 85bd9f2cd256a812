-- ===== src/Store/Links.antt =====
-- The references between the tables.
use wol.Prelude.{
  All, All-map, Bool, Bool-cases, List, [], arith, inl, inr, refl, some, true, ◌++◌, ◌∷◌, ◌≡◌, ◌⊎◌,
}
use wol.Store.Db.{Tables}
use wol.Store.Db.Rows.{by_key, delete_rows, find_row, has_row, update_rows}
use wol.Text.{Text, is_empty, teq, trim_space}
use wol.Text.Laws.{teq_iff, teq_refl}

pub record Known : Type 1 where
  pub relay : Text → Type 0
  pub site : Text → Type 0
  pub group : Text → Type 0
  pub device : Text → Type 0

-- a reference that is blank, or known
abbrev pub Reference : (Text → Type 0) → Text → Type 0
Reference P id = (is_empty (trim_space id) ≡ true) ⊎ P id

-- Each reference of the rows is known; a device's identifier has no space around it.
pub record Fits (k : Known) (t : Tables) : Type 0 where
  pub site_relays : All (λ s. Reference k.relay s.wake_relay_id) t.sites
  pub device_relays : All (λ d. Reference k.relay d.wake_relay_id) t.devices
  pub device_sites : All (λ d. Reference k.site d.site_id) t.devices
  pub device_ids : All (λ d. trim_space d.id ≡ d.id) t.devices
  pub member_groups : All (λ m. k.group m.group_id) t.members
  pub member_devices : All (λ m. k.device m.device_id) t.members
  pub remote_devices : All (λ p. k.device p.device_id) t.remote_profiles
  pub power_devices : All (λ p. k.device p.device_id) t.power_profiles

-- the identifiers that the tables hold
abbrev pub known_in : Tables → Known
known_in t = record {
  relay = λ id. has_row (λ r. r.id) id t.relays ≡ true;
  site = λ id. has_row (λ r. r.id) id t.sites ≡ true;
  group = λ id. has_row (λ r. r.id) id t.groups ≡ true;
  device = λ id. has_row (λ r. r.id) id t.devices ≡ true;
}

-- The tables are closed: every reference is blank or leads to a row.
abbrev pub IsClosed : Tables → Type 0
IsClosed t = Fits (known_in t) t

pub record Within (a b : Known) : Type 0 where
  pub relay : (id : Text) → a.relay id → b.relay id
  pub site : (id : Text) → a.site id → b.site id
  pub group : (id : Text) → a.group id → b.group id
  pub device : (id : Text) → a.device id → b.device id

Reference-map :
    (P Q : Text → Type 0) (id : Text)
    → ((id : Text) → P id → Q id)
    → Reference P id
    → Reference Q id
Reference-map P Q id f (inl e) = inl e
Reference-map P Q id f (inr p) = inr (f id p)

pub Fits-Within : (a b : Known) (t : Tables) → Within a b → Fits a t → Fits b t
Fits-Within a b t w h = record {
  site_relays =
      All-map _ _ (λ s. Reference-map a.relay b.relay s.wake_relay_id w.relay) _ h.site_relays;
  device_relays =
      All-map _ _ (λ d. Reference-map a.relay b.relay d.wake_relay_id w.relay) _ h.device_relays;
  device_sites = All-map _ _ (λ d. Reference-map a.site b.site d.site_id w.site) _ h.device_sites;
  device_ids = h.device_ids;
  member_groups = All-map _ _ (λ m. w.group m.group_id) _ h.member_groups;
  member_devices = All-map _ _ (λ m. w.device m.device_id) _ h.member_devices;
  remote_devices = All-map _ _ (λ p. w.device p.device_id) _ h.remote_devices;
  power_devices = All-map _ _ (λ p. w.device p.device_id) _ h.power_devices;
}

module _ {A : Type 0} where
  pub has_row-append :
      (key : A → Text) (v : Text) (rows more : List A)
      → has_row key v rows ≡ true
      → has_row key v (rows ++ more) ≡ true
  unfolding has_row
  has_row-append key v [] more h = cc
  has_row-append key v (r ∷ rows) more h = ground (arith, has_row-append key v rows more)

  pub has_row-last :
      (key : A → Text) (rows : List A) (r : A) → has_row key (key r) (rows ++ r ∷ []) ≡ true
  unfolding has_row by_key
  has_row-last key [] r = rw (teq_refl (key r)) refl
  has_row-last key (x ∷ rows) r = ground (arith, has_row-last key rows r)

  pub has_row-update :
      (key : A → Text) (v : Text) (test : A → Bool) (change : A → A) (rows : List A)
      → ((r : A) → key (change r) ≡ key r)
      → has_row key v (update_rows test change rows) ≡ has_row key v rows
  unfolding has_row by_key update_rows
  has_row-update key v test change [] same_key = refl
  has_row-update key v test change (r ∷ rows) same_key = elim (Bool-cases (test r)) [
    | inl y ↦ rw (y, same_key r, has_row-update key v test change rows same_key)
    | inr n ↦ rw (n, has_row-update key v test change rows same_key)
  ]

  pub All-update :
      (P : A → Type 0) (test : A → Bool) (change : A → A) (rows : List A)
      → ((r : A) → P r → P (change r))
      → All P rows
      → All P (update_rows test change rows)
  unfolding update_rows
  All-update P test change [] f h = tt
  All-update P test change (r ∷ rows) f (p, h) = elim (Bool-cases (test r)) [
    | inl y ↦ rw y (f r p, All-update P test change rows f h)
    | inr n ↦ rw n (p, All-update P test change rows f h)
  ]

  pub All-delete :
      (P : A → Type 0) (test : A → Bool) (rows : List A)
      → All P rows
      → All P (delete_rows test rows)
  unfolding delete_rows
  All-delete P test [] h = tt
  All-delete P test (r ∷ rows) (p, h) = elim (Bool-cases (test r)) [
    | inl y ↦ rw y (All-delete P test rows h)
    | inr n ↦ rw n (p, All-delete P test rows h)
  ]

  pub has_row-find :
      (key : A → Text) (test : A → Bool) (rows : List A) (r : A)
      → find_row test rows ≡ some r
      → has_row key (key r) rows ≡ true
  unfolding find_row has_row by_key
  has_row-find key test [] r h = cc
  has_row-find key test (x ∷ rows) r h = elim (Bool-cases (test x)) [
    | inl y ↦ let q : x ≡ r = ground arith in rw (q, teq_refl (key r)) refl
    | inr n ↦ let rest = has_row-find key test rows r (ground arith) in ground (arith, rest)
  ]

  pub All-has_row :
      (P : Text → Type 0) (key : A → Text) (v : Text) (rows : List A)
      → All (λ r. P (key r)) rows
      → has_row key v rows ≡ true
      → P v
  unfolding has_row by_key
  All-has_row P key v [] h e = cc e
  All-has_row P key v (r ∷ rows) (p, h) e = elim (Bool-cases (teq (key r) v)) [
    | inl y ↦ let q : key r ≡ v = (teq_iff (key r) v).0 y in rw (← q) p
    | inr n ↦ All-has_row P key v rows h (ground arith)
  ]
