-- ===== src/Fleet/Progress.antt =====
-- The pool never gets stuck before all workers have left.
use wol.Prelude.{
  Bool, Bool-cases, List, [], all, any, arith, false, inl, inr, length, ltb, ltb→lt, not, refl,
  true, ℕ, ◌++◌, ◌+◌, ◌-◌, ◌<◌, ◌∷◌, ◌≡◌, ◌≤◌, ◌⊎◌,
}
use wol.Fleet.{
  Crew, Phase, Pool, Result, Shared, cancelled_result, finished, holding, idle, left, sending,
  taken, waiting,
}
use wol.Fleet.Bounds.{IsBounded, holders, holds, total_holders}
use wol.Fleet.Count.{count_crews, count_phase, count_phases, count_pool, count_results}
use wol.Fleet.Steps.{
  CrewWork, Env, PoolWork, View, Work, acquire, here, leave, look, operate, other, pass, put_result,
  receive, release, skip, there, this,
}
use wol.Store.{Device}
use wol.Text.{Text}

-- The operation returns, for every device.
pub record Returning (e : Env) : Type 0 where
  pub returns : (t : ℕ) (d : Device) → (r : Result) × e.Returns t d r

-- what a worker needs of the shared state to make a step
abbrev Ready : Env → Shared → Phase → Type 0
Ready e s (waiting d) = s.used < e.cap
Ready e s (sending r) = length s.results < e.room
Ready e s left = ⊥
Ready e s _ = Unit

abbrev pub view : Shared → List Device → View
view s q = record { shared = s; queue = q }

idle-moves :
    (e : Env) (t : ℕ) (s : Shared) (q : List Device)
    → (v' : View) × (p' : Phase) × Work e t (view s q) idle v' p'
idle-moves e t s [] = (view s [], left, leave refl)
idle-moves e t s (d ∷ rest) = (view s rest, taken d, receive d rest refl)

Work-moves :
    (e : Env) (t : ℕ) (s : Shared) (q : List Device) (p : Phase)
    → Returning e
    → Ready e s p
    → (v' : View) × (p' : Phase) × Work e t (view s q) p v' p'
Work-moves e t s q idle ret h = idle-moves e t s q
Work-moves e t s q (taken d) ret h = elim (Bool-cases s.stopped) [
  | inl y ↦ (view s q, sending (cancelled_result d []), skip [] y)
  | inr n ↦ (view s q, waiting d, look n)
]
Work-moves e t s q (waiting d) ret h =
    (view (record s { used = s.used + 1 }) q, holding d, acquire h)
Work-moves e t s q (holding d) ret h = elim (Bool-cases s.stopped) [
  | inl y ↦ (view s q, finished (cancelled_result d []), pass [] y)
  | inr n ↦ let (r, x) = ret.returns t d in (view s q, finished r, operate r n x)
]
Work-moves e t s q (finished r) ret h =
    (view (record s { used = s.used - 1 }) q, sending r, release)
Work-moves e t s q (sending r) ret h =
    (view (record s { results = s.results ++ r ∷ [] }) q, idle, put_result h)
Work-moves e t s q left ret h = absurd h

abbrev pub Moves : Env → Shared → List Crew → Type 0
Moves e s cs = (s' : Shared) × (cs' : List Crew) × PoolWork e s s' cs cs'

module _ (e : Env) (s : Shared) (ret : Returning e) (test : Phase → Bool)
    (ready : (p : Phase) → test p ≡ true → Ready e s p) where
  crew-moves :
      (t : ℕ) (q : List Device) (ws : List Phase)
      → any test ws ≡ true
      → (v' : View) × (ws' : List Phase) × CrewWork e t (view s q) v' ws ws'
  crew-moves t q [] h = cc
  crew-moves t q (p ∷ ws) h = elim (Bool-cases (test p)) [
    | inl y ↦ let (v', p', w) = Work-moves e t s q p ret (ready p y) in (v', p' ∷ ws, here w)
    | inr n ↦ let (v', ws', w) = crew-moves t q ws (ground arith) in (v', p ∷ ws', there w)
  ]

  -- If some worker passes the test, the pool can make a step.
  pool-Moves : (cs : List Crew) → any (λ c. any test c.workers) cs ≡ true → Moves e s cs
  pool-Moves [] h = cc
  pool-Moves (c ∷ cs) h = elim (Bool-cases (any test c.workers)) [
    | inl y ↦
        let (v', ws', w) = crew-moves c.timeout c.queue c.workers y in
        (v'.shared, record c { queue = v'.queue; workers = ws' } ∷ cs, this v'.queue ws' w)
    | inr n ↦ let (s', cs', w) = pool-Moves cs (ground arith) in (s', c ∷ cs', other w)
  ]

unfoldable pub is_left : Phase → Bool
is_left left = true
is_left _ = false

is_idle : Phase → Bool
is_idle idle = true
is_idle _ = false

is_holder : Phase → Bool
is_holder (holding d) = true
is_holder (finished r) = true
is_holder _ = false

-- All workers have left.
abbrev pub all_left : List Crew → Bool
all_left cs = all (λ c. all is_left c.workers) cs

Ready-idle : (e : Env) (s : Shared) (p : Phase) → is_idle p ≡ true → Ready e s p
unfolding is_idle
Ready-idle e s idle h = tt
Ready-idle e s left h = cc
Ready-idle e s (waiting d) h = cc
Ready-idle e s (sending r) h = cc
Ready-idle e s _ h = tt

Ready-holder : (e : Env) (s : Shared) (p : Phase) → is_holder p ≡ true → Ready e s p
unfolding is_holder
Ready-holder e s (holding d) h = tt
Ready-holder e s (waiting d) h = cc
Ready-holder e s (sending r) h = cc
Ready-holder e s left h = cc
Ready-holder e s _ h = tt

Ready-any :
    (e : Env) (s : Shared) (p : Phase)
    → s.used < e.cap
    → length s.results < e.room
    → not (is_left p) ≡ true
    → Ready e s p
unfolding is_left
Ready-any e s (waiting d) u r h = u
Ready-any e s (sending x) u r h = r
Ready-any e s left u r h = cc
Ready-any e s _ u r h = tt

-- the test that every identifier passes
abbrev pub any_id : Text → Bool
any_id _ = true

-- no worker has a device and none is idle: all have left
empty-left :
    (ws : List Phase) → count_phases any_id ws ≡ 0 → any is_idle ws ≡ false → all is_left ws ≡ true
unfolding count_phases count_phase is_idle is_left
empty-left [] c h = refl
empty-left (idle ∷ ws) c h = cc
empty-left (left ∷ ws) c h = empty-left ws (omega arith) h
empty-left (_ ∷ ws) c h = absurd (omega arith)

empty-all_left :
    (cs : List Crew)
    → count_crews any_id cs ≡ 0
    → any (λ c. any is_idle c.workers) cs ≡ false
    → all_left cs ≡ true
unfolding count_crews
empty-all_left [] c h = refl
empty-all_left (x ∷ cs) c h =
    ground (arith, empty-left x.workers (omega arith), empty-all_left cs (omega arith))

none-left : (ws : List Phase) → any (λ p. not (is_left p)) ws ≡ false → all is_left ws ≡ true
none-left [] h = refl
none-left (p ∷ ws) h = ground (arith, none-left ws)

none-all_left :
    (cs : List Crew)
    → any (λ c. any (λ p. not (is_left p)) c.workers) cs ≡ false
    → all_left cs ≡ true
none-all_left [] h = refl
none-all_left (c ∷ cs) h = ground (arith, none-left c.workers, none-all_left cs)

holder-any : (ws : List Phase) → any is_holder ws ≡ false → holders ws ≡ 0
unfolding holders holds is_holder
holder-any [] h = refl
holder-any (p ∷ ws) h = ground (arith, holder-any ws)

holder-crews :
    (cs : List Crew) → any (λ c. any is_holder c.workers) cs ≡ false → total_holders cs ≡ 0
unfolding total_holders
holder-crews [] h = refl
holder-crews (c ∷ cs) h = ground (arith, holder-any c.workers, holder-crews cs)

count_results-length : (rs : List Result) → count_results any_id rs ≡ length rs
unfolding count_results
count_results-length [] = refl
count_results-length (r ∷ rs) = omega (arith, count_results-length rs)

-- A pool whose semaphore is sound and whose channel of results has room for every device has no
-- deadlock: all workers have left, or one of them can make a step.
pub pool-progress :
    (e : Env) (p : Pool)
    → Returning e
    → 1 ≤ e.cap
    → IsBounded e p
    → count_pool any_id p ≤ e.room
    → (all_left p.crews ≡ true) ⊎ Moves e p.shared p.crews
unfolding count_pool
pool-progress e p ret cap b room = elim (Bool-cases (ltb (length p.shared.results) e.room)) [
  | inr full ↦ elim (Bool-cases (any (λ c. any is_idle c.workers) p.crews)) [
    | inl i ↦ inr (pool-Moves e p.shared ret is_idle (Ready-idle e p.shared) p.crews i)
    | inr n ↦ inl (empty-all_left p.crews (ground (arith, count_results-length p.shared.results)) n)
  ]
  | inl space ↦ elim (Bool-cases (ltb p.shared.used e.cap)) [
    | inl free ↦ elim (Bool-cases (any (λ c. any (λ x. not (is_left x)) c.workers) p.crews)) [
      | inl i ↦ inr (
          pool-Moves e p.shared ret (λ x. not (is_left x))
            (λ x h. Ready-any e p.shared x (ltb→lt _ _ free) (ltb→lt _ _ space) h) p.crews i)
      | inr n ↦ inl (none-all_left p.crews n)
    ]
    | inr taken_all ↦ elim (Bool-cases (any (λ c. any is_holder c.workers) p.crews)) [
      | inl i ↦ inr (pool-Moves e p.shared ret is_holder (Ready-holder e p.shared) p.crews i)
      | inr n ↦ absurd (ground (arith, holder-crews p.crews n, b.counted))
    ]
  ]
]
