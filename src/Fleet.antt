-- ===== src/Fleet.antt =====
-- internal/fleet/fleet.go: `Run` as a transition system. The scheduler, the context and the
-- operation are the environment: any worker may take the next step, the context may be done at any
-- moment, and the operation returns one of the results that `Returns` allows.
pub mod Steps
pub mod Count
pub mod Bounds
pub mod Progress
pub mod Finish
pub mod Run
pub mod Guarantees
pub mod Operations
use wol.Prelude.{
  Bool, List, [], false, if◌then◌else◌, length, lez, ltz, map, min, pos, replicate, to_nat, ℕ, ℤ,
  ◌++◌, ◌∷◌,
}
use wol.Store.{Device, Site, no_site}
use wol.Text.{Text, codes, teq}

pub record Result : Type 0 where
  pub device_id : Text
  pub name : Text
  pub site_id : Text
  pub status : Text
  pub method : Text
  pub checked_at : Text
  pub message : Text

-- the clamps of `Run`
unfoldable pub global_limit : ℤ → ℕ
global_limit concurrency = if ltz concurrency (pos 1) then 16 else min 32 (to_nat concurrency)

unfoldable pub site_limit : ℤ → ℕ → ℕ
site_limit limit items = min items (if ltz limit (pos 1) then 4 else min 16 (to_nat limit))

-- milliseconds; 2500 is the default
unfoldable pub site_timeout : ℤ → ℕ
site_timeout timeout = if lez timeout (pos 0) then 2500 else to_nat timeout

-- `settings[s.ID] = s` over all sites, read at one key: the last site with the identifier, or the
-- zero value
unfoldable pub settings : Site → Text → List Site → Site
settings found id [] = found
settings found id (s ∷ sites) = settings (if teq s.id id then s else found) id sites

-- the first result of a worker's round
unfoldable pub cancelled_result : Device → Text → Result
cancelled_result d stamp = record {
  device_id = d.id;
  name = d.name;
  site_id = d.site_id;
  status = codes "cancelled";
  method = [];
  checked_at = stamp;
  message = [];
}

-- Where a worker stands in its loop.
pub data Phase : Type 0 where
  -- before the receive from `jobs`
  idle : Phase
  -- a device has come, and the context is not yet looked at
  taken : Device → Phase
  -- in the `select` between the global semaphore and the context
  waiting : Device → Phase
  -- the semaphore is held: before, in or behind the operation
  holding : Device → Phase
  finished : Result → Phase
  -- before the send to `results`
  sending : Result → Phase
  -- the channel of jobs is closed and empty
  left : Phase

pub record Crew : Type 0 where
  pub site : Text
  pub timeout : ℕ
  pub queue : List Device
  pub workers : List Phase

-- What the workers share: the tokens in the global semaphore, the channel of results, and whether
-- the context is done.
pub record Shared : Type 0 where
  pub used : ℕ
  pub results : List Result
  pub stopped : Bool

pub record Pool : Type 0 where
  pub shared : Shared
  pub crews : List Crew

-- `grouped[d.SiteID] = append(…)`: the groups, in the order in which their sites first occur
unfoldable pub add_to_group : Device → List (Text × List Device) → List (Text × List Device)
add_to_group d [] = (d.site_id, d ∷ []) ∷ []
add_to_group d ((site, items) ∷ groups) =
    if teq site d.site_id
    then (site, items ++ d ∷ []) ∷ groups
    else (site, items) ∷ add_to_group d groups

unfoldable pub grouped : List (Text × List Device) → List Device → List (Text × List Device)
grouped groups [] = groups
grouped groups (d ∷ devices) = grouped (add_to_group d groups) devices

unfoldable pub crew : List Site → Text × List Device → Crew
crew sites (id, items) =
    let site = settings no_site id sites in
    record {
      site = id;
      timeout = site_timeout site.timeout_ms;
      queue = items;
      workers = replicate (site_limit site.concurrency (length items)) idle;
    }

-- the state in which `Run` has started all workers
unfoldable pub run : List Device → List Site → Pool
run devices sites = record {
  shared = record { used = 0; results = []; stopped = false };
  crews = map (crew sites) (grouped [] devices);
}
