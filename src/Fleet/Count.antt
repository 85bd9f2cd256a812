-- ===== src/Fleet/Count.antt =====
-- No device is lost and none is handled twice.
use wol.Prelude.{Bool, List, [], arith, if◌then◌else◌, refl, ℕ, ◌++◌, ◌+◌, ◌∙◌, ◌∷◌, ◌≡◌}
use wol.Fleet.{
  Crew, Phase, Pool, Result, Shared, cancelled_result, finished, holding, idle, left, sending,
  taken, waiting,
}
use wol.Fleet.Steps.{
  CrewWork, Env, PoolWork, Reach, Step, View, Work, acquire, give_up, here, leave, look, more,
  operate, other, pass, put_result, receive, release, skip, start, stop, there, this, work,
}
use wol.Store.{Device}
use wol.Text.{Text}

-- For a test on identifiers: how often it holds in each part of the pool.
unfoldable pub one : Bool → ℕ
one b = if b then 1 else 0

-- The operation answers for the device that it was given.
pub record Answers (e : Env) : Type 0 where
  pub same_id : (t : ℕ) (d : Device) (r : Result) → e.Returns t d r → r.device_id ≡ d.id

module _ (f : Text → Bool) where
  unfoldable pub count_devices : List Device → ℕ
  unfolding one
  count_devices [] = 0
  count_devices (d ∷ ds) = one (f d.id) + count_devices ds

  unfoldable pub count_results : List Result → ℕ
  unfolding one
  count_results [] = 0
  count_results (r ∷ rs) = one (f r.device_id) + count_results rs

  unfoldable pub count_phase : Phase → ℕ
  unfolding one
  count_phase idle = 0
  count_phase (taken d) = one (f d.id)
  count_phase (waiting d) = one (f d.id)
  count_phase (holding d) = one (f d.id)
  count_phase (finished r) = one (f r.device_id)
  count_phase (sending r) = one (f r.device_id)
  count_phase left = 0

  unfoldable pub count_phases : List Phase → ℕ
  count_phases [] = 0
  count_phases (p ∷ ps) = count_phase p + count_phases ps

  unfoldable pub count_crews : List Crew → ℕ
  count_crews [] = 0
  count_crews (c ∷ cs) = count_devices c.queue + count_phases c.workers + count_crews cs

  unfoldable pub count_pool : Pool → ℕ
  count_pool p = count_crews p.crews + count_results p.shared.results

  pub count_results-append :
      (rs : List Result) (r : Result)
      → count_results (rs ++ r ∷ []) ≡ count_results rs + one (f r.device_id)
  unfolding count_results
  count_results-append [] r = omega arith
  count_results-append (x ∷ rs) r = omega (arith, count_results-append rs r)

  pub count_devices-append :
      (ds : List Device) (d : Device)
      → count_devices (ds ++ d ∷ []) ≡ count_devices ds + one (f d.id)
  unfolding count_devices
  count_devices-append [] d = omega arith
  count_devices-append (x ∷ ds) d = omega (arith, count_devices-append ds d)

  abbrev seen : View → ℕ
  seen v = count_devices v.queue + count_results v.shared.results

  Work-count :
      {e : Env} {t : ℕ} {v v' : View} {p p' : Phase}
      → Answers e
      → Work e t v p v' p'
      → seen v' + count_phase p' ≡ seen v + count_phase p
  unfolding count_phase cancelled_result
  Work-count a (receive d rest q) = unfold count_devices in rw q (omega arith)
  Work-count a (leave q) = refl
  Work-count a (look s) = refl
  Work-count a (skip stamp s) = refl
  Work-count a (acquire u) = refl
  Work-count a (give_up stamp s) = refl
  Work-count a (operate r s ret) = rw (a.same_id _ _ r ret)
  Work-count a (pass stamp s) = refl
  Work-count a release = refl
  Work-count {v = v} a (put_result {r} room) =
      omega (arith, count_results-append v.shared.results r)

  crew-count :
      {e : Env} {t : ℕ} {v v' : View} {ws ws' : List Phase}
      → Answers e
      → CrewWork e t v v' ws ws'
      → seen v' + count_phases ws' ≡ seen v + count_phases ws
  unfolding count_phases
  crew-count a (here w) = omega (arith, Work-count a w)
  crew-count a (there c) = omega (arith, crew-count a c)

  pool-count :
      {e : Env} {s s' : Shared} {cs cs' : List Crew}
      → Answers e
      → PoolWork e s s' cs cs'
      → count_crews cs' + count_results s'.results ≡ count_crews cs + count_results s.results
  unfolding count_crews
  pool-count a (this q ws c) = omega (arith, crew-count a c)
  pool-count a (other p) = omega (arith, pool-count a p)

  Step-count : {e : Env} {p q : Pool} → Answers e → Step e p q → count_pool q ≡ count_pool p
  unfolding count_pool
  Step-count a (work s cs w) = pool-count a w
  Step-count a stop = refl

  pub reach-count : {e : Env} {p q : Pool} → Answers e → Reach e p q → count_pool q ≡ count_pool p
  reach-count a start = refl
  reach-count a (more r s) = Step-count a s ∙ reach-count a r
