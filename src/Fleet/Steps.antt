-- ===== src/Fleet/Steps.antt =====
-- The steps of the workers and of the pool.
use wol.Prelude.{List, [], false, length, true, ℕ, ◌++◌, ◌+◌, ◌-◌, ◌<◌, ◌∷◌, ◌≡◌}
use wol.Fleet.{
  Crew, Phase, Pool, Result, Shared, cancelled_result, finished, holding, idle, left, sending,
  taken, waiting,
}
use wol.Store.{Device}
use wol.Text.{Text}

-- what a worker sees of the pool
pub record View : Type 0 where
  pub shared : Shared
  pub queue : List Device

abbrev with_used : View → ℕ → View
with_used v n = record v { shared = record (v.shared) { used = n } }

abbrev with_result : View → Result → View
with_result v r = record v { shared = record (v.shared) { results = v.shared.results ++ r ∷ [] } }

-- The environment: the capacities of the semaphore and of the channel of results, and what the
-- operation may return for a timeout and a device.
pub record Env : Type 1 where
  pub cap : ℕ
  pub room : ℕ
  pub Returns : ℕ → Device → Result → Type 0

-- The steps of the loop over `jobs`, for a crew with the given timeout.
pub data Work (e : Env) (timeout : ℕ) (v : View) : Phase → View → Phase → Type 0 where
  receive :
      (d : Device) (rest : List Device)
      → v.queue ≡ d ∷ rest
      → Work e timeout v idle (record v { queue = rest }) (taken d)
  leave : v.queue ≡ [] → Work e timeout v idle v left
  look : {d : Device} → v.shared.stopped ≡ false → Work e timeout v (taken d) v (waiting d)
  skip :
      {d : Device} (stamp : Text)
      → v.shared.stopped ≡ true
      → Work e timeout v (taken d) v (sending (cancelled_result d stamp))
  acquire :
      {d : Device}
      → v.shared.used < e.cap
      → Work e timeout v (waiting d) (with_used v (v.shared.used + 1)) (holding d)
  give_up :
      {d : Device} (stamp : Text)
      → v.shared.stopped ≡ true
      → Work e timeout v (waiting d) v (sending (cancelled_result d stamp))
  operate :
      {d : Device} (r : Result)
      → v.shared.stopped ≡ false
      → e.Returns timeout d r
      → Work e timeout v (holding d) v (finished r)
  pass :
      {d : Device} (stamp : Text)
      → v.shared.stopped ≡ true
      → Work e timeout v (holding d) v (finished (cancelled_result d stamp))
  release :
      {r : Result} → Work e timeout v (finished r) (with_used v (v.shared.used - 1)) (sending r)
  put_result :
      {r : Result}
      → length v.shared.results < e.room
      → Work e timeout v (sending r) (with_result v r) idle

-- One worker of a crew makes a step.
pub data CrewWork (e : Env) (timeout : ℕ) (v v' : View) : List Phase → List Phase → Type 0 where
  here :
      {p p' : Phase} {ws : List Phase}
      → Work e timeout v p v' p'
      → CrewWork e timeout v v' (p ∷ ws) (p' ∷ ws)
  there :
      {p : Phase} {ws ws' : List Phase}
      → CrewWork e timeout v v' ws ws'
      → CrewWork e timeout v v' (p ∷ ws) (p ∷ ws')

-- One crew makes a step.
pub data PoolWork (e : Env) (s s' : Shared) : List Crew → List Crew → Type 0 where
  this :
      {c : Crew} {cs : List Crew} (queue : List Device) (workers : List Phase)
      → CrewWork e c.timeout
          (record { shared = s; queue = c.queue })
          (record { shared = s'; queue = queue })
          c.workers
          workers
      → PoolWork e s s' (c ∷ cs) (record c { queue = queue; workers = workers } ∷ cs)
  other :
      {c : Crew} {cs cs' : List Crew} → PoolWork e s s' cs cs' → PoolWork e s s' (c ∷ cs) (c ∷ cs')

pub data Step (e : Env) (p : Pool) : Pool → Type 0 where
  work :
      (s : Shared) (cs : List Crew)
      → PoolWork e p.shared s p.crews cs
      → Step e p (record { shared = s; crews = cs })
  -- the context is done
  stop : Step e p (record p { shared = record (p.shared) { stopped = true } })

pub data Reach (e : Env) (p : Pool) : Pool → Type 0 where
  start : Reach e p p
  more : {q r : Pool} → Reach e p q → Step e q r → Reach e p r
