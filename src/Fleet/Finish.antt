-- ===== src/Fleet/Finish.antt =====
-- A worker leaves only when its crew's queue is empty.
use wol.Prelude.{
  All, Bool, List, [], all, any, arith, inl, inr, length, refl, true, ℕ, ◌||◌, ◌∷◌, ◌≡◌, ◌≤◌, ◌⊎◌,
}
use wol.Fleet.{Crew, Phase, Pool, Shared, idle, left}
use wol.Fleet.Bounds.{Roster, roster}
use wol.Fleet.Count.{count_crews, count_devices, count_phase, count_phases}
use wol.Fleet.Progress.{all_left, is_left}
use wol.Fleet.Steps.{
  CrewWork, Env, PoolWork, Reach, View, Work, acquire, give_up, here, leave, look, more, operate,
  other, pass, put_result, receive, release, skip, start, stop, there, this, work,
}
use wol.Store.{Device}
use wol.Text.{Text}

abbrev LeftEmpty : List Phase → List Device → Type 0
LeftEmpty ws q = any is_left ws ≡ true → q ≡ []

Work-LeftEmpty :
    {e : Env} {t : ℕ} {v v' : View} {p p' : Phase}
    → Work e t v p v' p'
    → (v.queue ≡ [] → v'.queue ≡ []) × (is_left p' ≡ true → v'.queue ≡ [])
unfolding is_left
Work-LeftEmpty (receive d rest q) = (λ h. cc (h, q), λ l. cc l)
Work-LeftEmpty (leave q) = (λ h. h, λ l. q)
Work-LeftEmpty (look s) = (λ h. h, λ l. cc l)
Work-LeftEmpty (skip stamp s) = (λ h. h, λ l. cc l)
Work-LeftEmpty (acquire u) = (λ h. h, λ l. cc l)
Work-LeftEmpty (give_up stamp s) = (λ h. h, λ l. cc l)
Work-LeftEmpty (operate r s ret) = (λ h. h, λ l. cc l)
Work-LeftEmpty (pass stamp s) = (λ h. h, λ l. cc l)
Work-LeftEmpty release = (λ h. h, λ l. cc l)
Work-LeftEmpty (put_result room) = (λ h. h, λ l. cc l)

crew-queue :
    {e : Env} {t : ℕ} {v v' : View} {ws ws' : List Phase}
    → CrewWork e t v v' ws ws'
    → v.queue ≡ []
    → v'.queue ≡ []
crew-queue (here w) h = (Work-LeftEmpty w).0 h
crew-queue (there w) h = crew-queue w h

or-cases : (a b : Bool) → (a || b) ≡ true → (a ≡ true) ⊎ (b ≡ true)
or-cases a b h = ground arith

or-true : (a b : Bool) → b ≡ true → (a || b) ≡ true
or-true a b h = ground arith

crew-LeftEmpty :
    {e : Env} {t : ℕ} {v v' : View} {ws ws' : List Phase}
    → CrewWork e t v v' ws ws'
    → LeftEmpty ws v.queue
    → LeftEmpty ws' v'.queue
crew-LeftEmpty (here {p} {p'} {ws} w) l h = elim (or-cases (is_left p') (any is_left ws) h) [
  | inl y ↦ (Work-LeftEmpty w).1 y
  | inr n ↦ (Work-LeftEmpty w).0 (l (or-true (is_left p) (any is_left ws) n))
]
crew-LeftEmpty (there {p} {ws} {ws'} w) l h = elim (or-cases (is_left p) (any is_left ws') h) [
  | inl y ↦ crew-queue w (l (ground arith))
  | inr n ↦ crew-LeftEmpty w (λ m. l (or-true (is_left p) (any is_left ws) m)) n
]

abbrev IsTidy : List Crew → Type 0
IsTidy = All (λ c. LeftEmpty c.workers c.queue)

pool-IsTidy :
    {e : Env} {s s' : Shared} {cs cs' : List Crew} → PoolWork e s s' cs cs' → IsTidy cs → IsTidy cs'
pool-IsTidy (this q ws w) (h, t) = (crew-LeftEmpty w h, t)
pool-IsTidy (other p) (h, t) = (h, pool-IsTidy p t)

pub reach-IsTidy : {e : Env} {p q : Pool} → IsTidy p.crews → Reach e p q → IsTidy q.crews
reach-IsTidy h start = h
reach-IsTidy h (more r (work s cs w)) = pool-IsTidy w (reach-IsTidy h r)
reach-IsTidy h (more r stop) = reach-IsTidy h r

-- Every crew has a worker.
abbrev pub Manned : Roster → Type 0
Manned = All (λ x. 1 ≤ x.2)

left-phases : (f : Text → Bool) (ws : List Phase) → all is_left ws ≡ true → count_phases f ws ≡ 0
unfolding count_phases count_phase is_left
left-phases f [] h = refl
left-phases f (left ∷ ws) h = omega (arith, left-phases f ws h)
left-phases f (idle ∷ ws) h = cc
left-phases f (_ ∷ ws) h = cc

left-any : (ws : List Phase) → 1 ≤ length ws → all is_left ws ≡ true → any is_left ws ≡ true
left-any [] h a = absurd (omega arith)
left-any (p ∷ ws) h a = ground arith

-- When all workers have left, nothing is queued or in work.
pub all_left-count :
    (f : Text → Bool) (cs : List Crew)
    → Manned (roster cs)
    → IsTidy cs
    → all_left cs ≡ true
    → count_crews f cs ≡ 0
unfolding count_crews roster
all_left-count f [] m t h = refl
all_left-count f (c ∷ cs) (m, ms) (t, ts) h =
    let here_left : all is_left c.workers ≡ true = ground arith in
    let empty = t (left-any c.workers m here_left) in
    let no_device : count_devices f c.queue ≡ 0 = rw empty (unfold count_devices in refl) in
    omega (
      arith,
      no_device,
      left-phases f c.workers here_left,
      all_left-count f cs ms ts (ground arith),
    )
