-- ===== src/Fleet/Guarantees.antt =====
-- What `Run` promises, whatever the order in which its workers move, when the context is done, and
-- whatever the operation returns.
use wol.Prelude.{
  All, All-map, Bool, List, [], any, arith, false, length, map, refl, replicate, suc, sym, true,
  zero, ℕ, ℤ, ◌*◌, ◌+◌, ◌∷◌, ◌≡◌, ◌≤◌, ◌⊎◌,
}
use wol.Fleet.{Pool, Result, crew, global_limit, grouped, idle, run, settings, site_limit}
use wol.Fleet.Bounds.{
  All-holders, Roster, holders, pool-weight, reach-IsBounded, reach-roster, roster, total_holders,
  total_weight, weight, weights,
}
use wol.Fleet.Count.{Answers, count_devices, count_pool, count_results, reach-count}
use wol.Fleet.Finish.{Manned, all_left-count, reach-IsTidy}
use wol.Fleet.Progress.{Moves, Returning, all_left, any_id, is_left, pool-progress}
use wol.Fleet.Run.{
  Filled, Limited, count_groups, crews-Limited, global_limit_bounds, grouped-Filled, grouped-count,
  run-IsBounded, run-count, run_env, site_limit_bounds,
}
use wol.Fleet.Steps.{Env, Reach, more, start, stop, work}
use wol.Store.{Device, Site, no_site}
use wol.Text.{Text}

idle-any : (n : ℕ) → any is_left (replicate n idle) ≡ false
unfolding is_left
idle-any zero = refl
idle-any (suc n) = idle-any n

crews-IsTidy :
    (sites : List Site) (gs : List (Text × List Device))
    → All (λ c. any is_left c.workers ≡ true → c.queue ≡ []) (map (crew sites) gs)
unfolding crew
crews-IsTidy sites [] = tt
crews-IsTidy sites ((id, items) ∷ gs) = (
  λ h. cc (h, idle-any (site_limit (settings no_site id sites).concurrency (length items))),
  crews-IsTidy sites gs,
)

run-IsTidy :
    (devices : List Device) (sites : List Site)
    → All (λ c. any is_left c.workers ≡ true → c.queue ≡ []) (run devices sites).crews
unfolding run
run-IsTidy devices sites = crews-IsTidy sites (grouped [] devices)

Limited-Manned : (sites : List Site) (r : Roster) → Limited sites r → Manned r
Limited-Manned sites = All-map _ _ (λ _ h. h.0)

count_devices-length : (ds : List Device) → count_devices any_id ds ≡ length ds
unfolding count_devices
count_devices-length [] = refl
count_devices-length (d ∷ ds) = omega (arith, count_devices-length ds)

module _ (Returns : ℕ → Device → Result → Type 0) (concurrency : ℤ) (devices : List Device)
    (sites : List Site) where
  abbrev env : Env
  env = run_env Returns concurrency devices

  roster_of_run : {q : Pool} → Reach env (run devices sites) q → Limited sites (roster q.crews)
  roster_of_run r =
      rw (reach-roster r)
        (unfold run in crews-Limited sites (grouped [] devices) (grouped-Filled devices [] tt))

  -- At every moment of a run, as many operations hold the global semaphore as it counts, and no
  -- more than the clamped concurrency, which is at most 32; and every crew keeps from one to
  -- sixteen workers, no more than its site's clamped limit, which bounds the operations of the site.
  pub run_bounded :
      (q : Pool)
      → Reach env (run devices sites) q
      → (total_holders q.crews ≡ q.shared.used)
        × (q.shared.used ≤ global_limit concurrency)
        × (global_limit concurrency ≤ 32)
        × All (λ c. holders c.workers ≤ length c.workers) q.crews
        × Limited sites (roster q.crews)
  run_bounded q r =
      let b = reach-IsBounded (run-IsBounded env devices sites) r in
      (
        sym b.counted,
        b.within,
        (global_limit_bounds concurrency).1,
        All-holders q.crews,
        roster_of_run r,
      )

  -- No deadlock: if the operation always returns an answer for its device, then at every moment of
  -- a run all workers have left, or some worker can make a step.
  pub run_progress :
      (q : Pool)
      → Answers env
      → Returning env
      → Reach env (run devices sites) q
      → (all_left q.crews ≡ true) ⊎ Moves env q.shared q.crews
  run_progress q a ret r =
      pool-progress env q ret (global_limit_bounds concurrency).0
        (reach-IsBounded (run-IsBounded env devices sites) r)
        (omega (
          arith,
          reach-count any_id a r,
          run-count any_id devices sites,
          count_devices-length devices,
        ))

  -- For an operation whose result names the device that it was given: when all workers have left,
  -- the results are those of the devices, each as often as it was asked for; that is, for every
  -- test on identifiers, as many results as devices pass it.
  pub run_complete :
      (q : Pool) (f : Text → Bool)
      → Answers env
      → Reach env (run devices sites) q
      → all_left q.crews ≡ true
      → count_results f q.shared.results ≡ count_devices f devices
  run_complete q f a r h =
      let tidy = reach-IsTidy (run-IsTidy devices sites) r in
      let none_left = all_left-count f q.crews (Limited-Manned sites _ (roster_of_run r)) tidy h in
      unfold count_pool in omega (arith, none_left, reach-count f a r, run-count f devices sites)

unfoldable pub work_steps : {e : Env} {p q : Pool} → Reach e p q → ℕ
work_steps start = 0
work_steps (more r (work s cs w)) = suc (work_steps r)
work_steps (more r stop) = work_steps r

steps-weight :
    {e : Env} {p q : Pool} (r : Reach e p q)
    → work_steps r + total_weight q.crews ≤ total_weight p.crews
unfolding work_steps
steps-weight start = omega arith
steps-weight (more r (work s cs w)) = omega (arith, steps-weight r, pool-weight w)
steps-weight (more r stop) = steps-weight r

idle-weights : (n : ℕ) → weights (replicate n idle) ≡ n
unfolding weights weight
idle-weights zero = refl
idle-weights (suc n) = omega (arith, idle-weights n)

crews-weight :
    (sites : List Site) (gs : List (Text × List Device))
    → Filled gs
    → total_weight (map (crew sites) gs) ≤ 7 * count_groups any_id gs
unfolding total_weight crew count_groups
crews-weight sites [] h = omega arith
crews-weight sites ((id, items) ∷ gs) (h, hs) =
    let limit = (settings no_site id sites).concurrency in
    let (_, _, few) = site_limit_bounds limit (length items) h in
    omega (
      arith,
      idle-weights (site_limit limit (length items)),
      few,
      crews-weight sites gs hs,
      count_devices-length items,
    )

run-weight :
    (devices : List Device) (sites : List Site)
    → total_weight (run devices sites).crews ≤ 7 * length devices
unfolding run count_groups
run-weight devices sites = omega (
  arith,
  crews-weight sites (grouped [] devices) (grouped-Filled devices [] tt),
  grouped-count any_id [] devices,
  count_devices-length devices,
)

-- Every run ends: whatever the operation and the capacities, its workers make at most seven steps
-- for each device.
pub run_terminates :
    (e : Env) (devices : List Device) (sites : List Site) (q : Pool)
    (r : Reach e (run devices sites) q)
    → work_steps r ≤ 7 * length devices
run_terminates e devices sites q r = omega (arith, steps-weight r, run-weight devices sites)
