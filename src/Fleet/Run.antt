-- ===== src/Fleet/Run.antt =====
-- What `Run` promises, whatever the order in which its workers move.
use wol.Prelude.{
  All, Bool, Bool-cases, List, [], arith, inl, inr, length, length-append, length-replicate, map,
  negsuc, pos, refl, replicate, suc, sym, zero, ℕ, ℤ, ◌+◌, ◌∷◌, ◌≡◌, ◌≤◌,
}
use wol.Fleet.{Result, add_to_group, crew, global_limit, grouped, idle, run, settings, site_limit}
use wol.Fleet.Bounds.{IsBounded, Roster, holders, holds, roster, total_holders}
use wol.Fleet.Count.{
  count_crews, count_devices, count_devices-append, count_phase, count_phases, count_pool,
  count_results, one,
}
use wol.Fleet.Steps.{Env}
use wol.Store.{Device, Site, no_site}
use wol.Text.{Text, teq}

-- the environment of a run, for an operation
abbrev pub run_env : (ℕ → Device → Result → Type 0) → ℤ → List Device → Env
run_env Returns concurrency devices = record {
  cap = global_limit concurrency;
  room = length devices;
  Returns = Returns;
}

unfoldable pub count_groups : (Text → Bool) → List (Text × List Device) → ℕ
count_groups f [] = 0
count_groups f (g ∷ gs) = count_devices f g.1 + count_groups f gs

add_to_group-count :
    (f : Text → Bool) (d : Device) (gs : List (Text × List Device))
    → count_groups f (add_to_group d gs) ≡ count_groups f gs + one (f d.id)
unfolding count_groups add_to_group
add_to_group-count f d [] = unfold count_devices in omega arith
add_to_group-count f d ((site, items) ∷ gs) = elim (Bool-cases (teq site d.site_id)) [
  | inl e ↦ rw (e, add_to_group) (omega (arith, count_devices-append f items d))
  | inr e ↦ rw (e, add_to_group) (omega (arith, add_to_group-count f d gs))
]

pub grouped-count :
    (f : Text → Bool) (gs : List (Text × List Device)) (ds : List Device)
    → count_groups f (grouped gs ds) ≡ count_groups f gs + count_devices f ds
unfolding grouped count_devices
grouped-count f gs [] = omega arith
grouped-count f gs (d ∷ ds) =
    omega (arith, grouped-count f (add_to_group d gs) ds, add_to_group-count f d gs)

idle-count : (f : Text → Bool) (n : ℕ) → count_phases f (replicate n idle) ≡ 0
unfolding count_phases count_phase
idle-count f zero = refl
idle-count f (suc n) = omega (arith, idle-count f n)

crews-count :
    (f : Text → Bool) (sites : List Site) (gs : List (Text × List Device))
    → count_crews f (map (crew sites) gs) ≡ count_groups f gs
unfolding count_crews count_groups crew
crews-count f sites [] = refl
crews-count f sites ((id, items) ∷ gs) = omega (
  arith,
  crews-count f sites gs,
  idle-count f (site_limit (settings no_site id sites).concurrency (length items)),
)

pub run-count :
    (f : Text → Bool) (devices : List Device) (sites : List Site)
    → count_pool f (run devices sites) ≡ count_devices f devices
unfolding count_pool run
run-count f devices sites =
    unfold count_results count_groups in
    omega (arith, crews-count f sites (grouped [] devices), grouped-count f [] devices)

idle-holders : (n : ℕ) → holders (replicate n idle) ≡ 0
unfolding holders holds
idle-holders zero = refl
idle-holders (suc n) = omega (arith, idle-holders n)

crews-holders :
    (sites : List Site) (gs : List (Text × List Device)) → total_holders (map (crew sites) gs) ≡ 0
unfolding total_holders crew
crews-holders sites [] = refl
crews-holders sites ((id, items) ∷ gs) = omega (
  arith,
  crews-holders sites gs,
  idle-holders (site_limit (settings no_site id sites).concurrency (length items)),
)

pub run-IsBounded :
    (e : Env) (devices : List Device) (sites : List Site) → IsBounded e (run devices sites)
unfolding run
run-IsBounded e devices sites = record {
  counted = sym (crews-holders sites (grouped [] devices));
  within = omega arith;
}

pub global_limit_bounds : (c : ℤ) → (1 ≤ global_limit c) × (global_limit c ≤ 32)
unfolding global_limit
global_limit_bounds (pos n) = ground arith
global_limit_bounds (negsuc n) = (omega arith, omega arith)

pub site_limit_bounds :
    (c : ℤ) (n : ℕ) → 1 ≤ n → (1 ≤ site_limit c n) × (site_limit c n ≤ 16) × (site_limit c n ≤ n)
unfolding site_limit
site_limit_bounds (pos k) n h = ground arith
site_limit_bounds (negsuc k) n h = (omega arith, omega arith, omega arith)

-- No group is empty.
abbrev pub Filled : List (Text × List Device) → Type 0
Filled = All (λ g. 1 ≤ length g.1)

add_to_group-Filled :
    (d : Device) (gs : List (Text × List Device)) → Filled gs → Filled (add_to_group d gs)
unfolding add_to_group
add_to_group-Filled d [] h = (omega arith, tt)
add_to_group-Filled d ((site, items) ∷ gs) (h, hs) = elim (Bool-cases (teq site d.site_id)) [
  | inl e ↦ rw (e, add_to_group) (omega (arith, length-append items (d ∷ []), h), hs)
  | inr e ↦ rw (e, add_to_group) (h, add_to_group-Filled d gs hs)
]

pub grouped-Filled :
    (ds : List Device) (gs : List (Text × List Device)) → Filled gs → Filled (grouped gs ds)
unfolding grouped
grouped-Filled [] gs h = h
grouped-Filled (d ∷ ds) gs h = grouped-Filled ds (add_to_group d gs) (add_to_group-Filled d gs h)

-- every crew has from one to sixteen workers, and no more than the limit of its site
abbrev pub Limited : List Site → Roster → Type 0
Limited sites = All (λ x.
    (1 ≤ x.2)
    × (x.2 ≤ 16)
    × ((n : ℕ) × (x.2 ≡ site_limit (settings no_site x.0 sites).concurrency n)))

pub crews-Limited :
    (sites : List Site) (gs : List (Text × List Device))
    → Filled gs
    → Limited sites (roster (map (crew sites) gs))
unfolding roster crew
crews-Limited sites [] h = tt
crews-Limited sites ((id, items) ∷ gs) (h, hs) =
    let limit = (settings no_site id sites).concurrency in
    let (a, b, _) = site_limit_bounds limit (length items) h in
    let len = length-replicate (site_limit limit (length items)) idle in
    ((omega (arith, len, a), omega (arith, len, b), (length items, len)), crews-Limited sites gs hs)
