-- ===== src/Store/Imports.antt =====
-- What the loops of `Import` of internal/store ensure of closed tables: each map of identifiers
-- leads to rows.
pub mod Whole
use wol.Prelude.{
  All, All-map, Bool-cases, List, Option-cases, Outcome-cases, [], arith, inl, inr, ok, refl, some,
  ◌∷◌, ◌≡◌,
}
use wol.Store.Db.{Tables}
use wol.Store.Links.{Reference}
use wol.Store.Logic.{Stable}
use wol.Store.Transfer.{bind_id, known, lookup_id, mapped_devices, mapped_relay, mapped_site}
use wol.Store.Writes.{HasDevice, HasRelay, HasSite}
use wol.Text.{Text, is_empty, teq, trim_space}

-- All the identifiers that a map leads to satisfy a condition.
abbrev pub Leads : (Text → Tables → Type 0) → List (Text × Text) → Tables → Type 0
Leads H ids t = All (λ p. H p.1 t) ids

pub lookup_id-Leads :
    (P : Text → Type 0) (ids : List (Text × Text)) (id new : Text)
    → All (λ p. P p.1) ids
    → lookup_id id ids ≡ some new
    → P new
unfolding lookup_id
lookup_id-Leads P [] id new h e = cc e
lookup_id-Leads P ((old, x) ∷ ids) id new (p, h) e = elim (Bool-cases (teq old id)) [
  | inl y ↦ let q : x ≡ new = ground arith in rw (← q) p
  | inr n ↦ lookup_id-Leads P ids id new h (ground arith)
]

pub bind_id-Leads :
    (P : Text → Type 0) (ids : List (Text × Text)) (old new : Text)
    → All (λ p. P p.1) ids
    → P new
    → All (λ p. P p.1) (bind_id old new ids)
unfolding bind_id
bind_id-Leads P ids old new h p = elim (Bool-cases (is_empty old)) [
  | inl y ↦ rw y h
  | inr n ↦ rw n (p, h)
]

pub mapped_relay-Reference :
    (P : Text → Type 0) (ids : List (Text × Text)) (id new : Text)
    → All (λ p. P p.1) ids
    → mapped_relay ids id ≡ ok new
    → Reference P new
unfolding mapped_relay known is_empty trim_space
mapped_relay-Reference P ids [] new h e = let q : [] ≡ new = ground arith in rw (← q) (inl refl)
mapped_relay-Reference P ids (c ∷ id) new h e = elim (Option-cases (lookup_id (c ∷ id) ids)) [
  | inl n ↦ cc (rw (n, known) at e)
  | inr (x, s) ↦
      let q : x ≡ new = ground arith in rw (← q) (inr (lookup_id-Leads P ids (c ∷ id) x h s))
]

pub mapped_site-Reference :
    (P : Text → Type 0) (ids : List (Text × Text)) (id : Text)
    → All (λ p. P p.1) ids
    → Reference P (mapped_site ids id)
unfolding mapped_site trim_space is_empty
mapped_site-Reference P ids id h = elim (Option-cases (lookup_id id ids)) [
  | inr (x, s) ↦ rw (s, mapped_site) (inr (lookup_id-Leads P ids id x h s))
  | inl n ↦ elim (Bool-cases (is_empty (trim_space id))) [
    | inl y ↦ rw (n, y, mapped_site) (inl y)
    | inr m ↦ rw (n, m, mapped_site) (inl refl)
  ]
]

pub mapped_devices-All :
    (P : Text → Type 0) (ids : List (Text × Text)) (olds news : List Text)
    → All (λ p. P p.1) ids
    → mapped_devices ids olds ≡ ok news
    → All P news
unfolding mapped_devices
mapped_devices-All P ids [] news h e = let q : [] ≡ news = ground arith in rw (← q) tt
mapped_devices-All P ids (id ∷ olds) news h e = elim (Option-cases (lookup_id id ids)) [
  | inl n ↦ cc (rw (n, mapped_devices) at e)
  | inr (x, s) ↦ elim (Outcome-cases (mapped_devices ids olds)) [
    | inr (b, r) ↦ cc (rw (s, r, mapped_devices) at e)
    | inl (rest, r) ↦
        let q : x ∷ rest ≡ news = ground arith in
        rw (← q) (lookup_id-Leads P ids id x h s, mapped_devices-All P ids olds rest h r)
  ]
]

pub Leads-relay : (ids : List (Text × Text)) → Stable (Leads HasRelay ids)
Leads-relay ids t t' g h = All-map _ _ (λ p. g.relay p.1) ids h

pub Leads-site : (ids : List (Text × Text)) → Stable (Leads HasSite ids)
Leads-site ids t t' g h = All-map _ _ (λ p. g.site p.1) ids h

pub Leads-device : (ids : List (Text × Text)) → Stable (Leads HasDevice ids)
Leads-device ids t t' g h = All-map _ _ (λ p. g.device p.1) ids h
