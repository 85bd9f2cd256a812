-- ===== src/Fleet/Bounds.antt =====
-- How many operations run at once, and how long a run can be.
use wol.Prelude.{All, List, [], ap, arith, length, refl, suc, ℕ, ◌*◌, ◌+◌, ◌<◌, ◌∙◌, ◌∷◌, ◌≡◌, ◌≤◌}
use wol.Fleet.{Crew, Phase, Pool, Shared, finished, holding, idle, left, sending, taken, waiting}
use wol.Fleet.Steps.{
  CrewWork, Env, PoolWork, Reach, Step, View, Work, acquire, give_up, here, leave, look, more,
  operate, other, pass, put_result, receive, release, skip, start, stop, there, this, work,
}
use wol.Text.{Text}

unfoldable pub holds : Phase → ℕ
holds (holding d) = 1
holds (finished r) = 1
holds _ = 0

unfoldable pub holders : List Phase → ℕ
holders [] = 0
holders (p ∷ ps) = holds p + holders ps

unfoldable pub total_holders : List Crew → ℕ
total_holders [] = 0
total_holders (c ∷ cs) = holders c.workers + total_holders cs

Work-holds :
    {e : Env} {t : ℕ} {v v' : View} {p p' : Phase}
    → Work e t v p v' p'
    → holds p ≤ v.shared.used
    → v.shared.used ≤ e.cap
    → (v'.shared.used + holds p ≡ v.shared.used + holds p') × (v'.shared.used ≤ e.cap)
unfolding holds
Work-holds (receive d rest q) h c = (refl, c)
Work-holds (leave q) h c = (refl, c)
Work-holds (look s) h c = (refl, c)
Work-holds (skip stamp s) h c = (refl, c)
Work-holds (acquire u) h c = (omega arith, omega arith)
Work-holds (give_up stamp s) h c = (refl, c)
Work-holds (operate r s ret) h c = (refl, c)
Work-holds (pass stamp s) h c = (refl, c)
Work-holds release h c = (omega arith, omega arith)
Work-holds (put_result room) h c = (refl, c)

crew-holders :
    {e : Env} {t : ℕ} {v v' : View} {ws ws' : List Phase}
    → CrewWork e t v v' ws ws'
    → holders ws ≤ v.shared.used
    → v.shared.used ≤ e.cap
    → (v'.shared.used + holders ws ≡ v.shared.used + holders ws') × (v'.shared.used ≤ e.cap)
unfolding holders
crew-holders (here w) h c = let (a, b) = Work-holds w (omega arith) c in (omega (arith, a), b)
crew-holders (there w) h c = let (a, b) = crew-holders w (omega arith) c in (omega (arith, a), b)

pool-holders :
    {e : Env} {s s' : Shared} {cs cs' : List Crew}
    → PoolWork e s s' cs cs'
    → total_holders cs ≤ s.used
    → s.used ≤ e.cap
    → (s'.used + total_holders cs ≡ s.used + total_holders cs') × (s'.used ≤ e.cap)
unfolding total_holders
pool-holders (this q ws w) h c =
    let (a, b) = crew-holders w (omega arith) c in (omega (arith, a), b)
pool-holders (other p) h c = let (a, b) = pool-holders p (omega arith) c in (omega (arith, a), b)

-- The semaphore counts the workers that hold it, and is within its capacity.
pub record IsBounded (e : Env) (p : Pool) : Type 0 where
  pub counted : p.shared.used ≡ total_holders p.crews
  pub within : p.shared.used ≤ e.cap

Step-IsBounded : {e : Env} {p q : Pool} → Step e p q → IsBounded e p → IsBounded e q
Step-IsBounded (work s cs w) b =
    let (a, c) = pool-holders w (omega (arith, b.counted)) b.within in
    record { counted = omega (arith, a, b.counted); within = c }
Step-IsBounded stop b = record { counted = b.counted; within = b.within }

pub reach-IsBounded : {e : Env} {p q : Pool} → IsBounded e p → Reach e p q → IsBounded e q
reach-IsBounded b start = b
reach-IsBounded b (more r s) = Step-IsBounded s (reach-IsBounded b r)

-- The crews keep their sites, their timeouts and the number of their workers.
abbrev pub Roster : Type 0
Roster = List (Text × ℕ × ℕ)

unfoldable pub roster : List Crew → Roster
roster [] = []
roster (c ∷ cs) = (c.site, c.timeout, length c.workers) ∷ roster cs

crew-length :
    {e : Env} {t : ℕ} {v v' : View} {ws ws' : List Phase}
    → CrewWork e t v v' ws ws'
    → length ws' ≡ length ws
crew-length (here w) = refl
crew-length (there w) = ap suc (crew-length w)

pool-roster :
    {e : Env} {s s' : Shared} {cs cs' : List Crew} → PoolWork e s s' cs cs' → roster cs' ≡ roster cs
unfolding roster
pool-roster (this {c} {cs} q ws w) =
    ap (λ (n : ℕ). let x : Text × ℕ × ℕ = (c.site, c.timeout, n) in x ∷ roster cs) (crew-length w)
pool-roster (other {c} p) =
    ap (λ (l : Roster). let x : Text × ℕ × ℕ = (c.site, c.timeout, length c.workers) in x ∷ l)
      (pool-roster p)

pub reach-roster : {e : Env} {p q : Pool} → Reach e p q → roster q.crews ≡ roster p.crews
reach-roster start = refl
reach-roster (more r (work s cs w)) = pool-roster w ∙ reach-roster r
reach-roster (more r stop) = reach-roster r

holders-le-length : (ws : List Phase) → holders ws ≤ length ws
unfolding holders holds
holders-le-length [] = omega arith
holders-le-length (p ∷ ws) = ground (arith, holders-le-length ws)

-- No site runs more operations than it has workers.
pub All-holders : (cs : List Crew) → All (λ c. holders c.workers ≤ length c.workers) cs
All-holders [] = tt
All-holders (c ∷ cs) = (holders-le-length c.workers, All-holders cs)

-- A bound on the steps that are left.
unfoldable pub weight : Phase → ℕ
weight idle = 1
weight (taken d) = 6
weight (waiting d) = 5
weight (holding d) = 4
weight (finished r) = 3
weight (sending r) = 2
weight left = 0

unfoldable pub weights : List Phase → ℕ
weights [] = 0
weights (p ∷ ps) = weight p + weights ps

unfoldable pub total_weight : List Crew → ℕ
total_weight [] = 0
total_weight (c ∷ cs) = 6 * length c.queue + weights c.workers + total_weight cs

Work-weight :
    {e : Env} {t : ℕ} {v v' : View} {p p' : Phase}
    → Work e t v p v' p'
    → 6 * length v'.queue + weight p' < 6 * length v.queue + weight p
unfolding weight
Work-weight (receive d rest q) = rw q (omega arith)
Work-weight (leave q) = omega arith
Work-weight (look s) = omega arith
Work-weight (skip stamp s) = omega arith
Work-weight (acquire u) = omega arith
Work-weight (give_up stamp s) = omega arith
Work-weight (operate r s ret) = omega arith
Work-weight (pass stamp s) = omega arith
Work-weight release = omega arith
Work-weight (put_result room) = omega arith

crew-weight :
    {e : Env} {t : ℕ} {v v' : View} {ws ws' : List Phase}
    → CrewWork e t v v' ws ws'
    → 6 * length v'.queue + weights ws' < 6 * length v.queue + weights ws
unfolding weights
crew-weight (here w) = omega (arith, Work-weight w)
crew-weight (there w) = omega (arith, crew-weight w)

-- Every step of a worker makes the weight smaller.
pub pool-weight :
    {e : Env} {s s' : Shared} {cs cs' : List Crew}
    → PoolWork e s s' cs cs'
    → total_weight cs' < total_weight cs
unfolding total_weight
pool-weight (this q ws w) = omega (arith, crew-weight w)
pool-weight (other p) = omega (arith, pool-weight p)
