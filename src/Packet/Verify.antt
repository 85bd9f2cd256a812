-- ===== src/Packet/Verify.antt =====
-- internal/wol/verify.go. Times are nanoseconds. The dialer and the clock are parameters: whether
-- attempt `i` connects and how long it takes, how late the timer of a pause fires, and
-- whether the context is done in the pause.
use wol.Prelude.{
  Bool, Bool-cases, IsPort, IsPort-no_port, Option, Outcome, [], arith, err, false, if◌then◌else◌,
  inl, inr, leb, lez, min, no_port, no_port-IsPort, none, ok, pos, refl, some, suc, to_nat, true,
  zero, ℕ, ℤ, ◌*◌, ◌+◌, ◌-◌, ◌/◌, ◌<◌, ◌||◌, ◌∷◌, ◌≡◌, ◌≢◌, ◌≤◌, ◌⊎◌,
}
use wol.Packet.{WolError, bad_target, cancelled, not_reachable}
use wol.Text.{Text, is_empty}

abbrev pub second : ℕ
second = 1000000000

pub record Dialer : Type 0 where
  -- whether attempt `i`, with the given timeout, connects, and the time that it takes
  pub dial : ℕ → ℕ → Bool × ℕ
  pub lag : ℕ → ℕ
  pub done : ℕ → Bool

-- What the wait returns, and the time at which it returns.
abbrev pub Waited : Type 0
Waited = Outcome WolError (Unit {0}) × ℕ

-- The loop of `WaitForTCP` from attempt `i` at time `now`; none is out of fuel.
unfoldable pub wait_loop : Dialer → ℕ → ℕ → ℕ → ℕ → Option Waited
wait_loop d deadline zero i now = none
wait_loop d deadline (suc fuel) i now =
    let next = λ (elapsed : ℕ).
      let failed = now + elapsed in
      let retry_wait = min second (deadline - failed) in
      wait_loop d deadline fuel (suc i) (failed + retry_wait + d.lag i) in
    if leb deadline now
    then some (err not_reachable, now)
    else let (connects, elapsed) = d.dial i (min (2 * second) (deadline - now)) in
      if connects
      then some (ok tt, now + elapsed)
      else if d.done i
      then some (err cancelled, now + elapsed)
      else next elapsed

unfoldable pub effective_timeout : ℤ → ℕ
effective_timeout timeout = if lez timeout (pos 0) then 30 * second else to_nat timeout

-- Enough rounds: each failed one takes a second, or goes up to the deadline.
unfoldable pub wait_fuel : ℕ → ℕ
wait_fuel timeout = timeout / second + 2

unfoldable pub wait_for_tcp : Dialer → Text → ℤ → ℤ → ℕ → Option Waited
wait_for_tcp d host port timeout now =
    let t = effective_timeout timeout in
    if is_empty host || no_port port
    then some (err bad_target, now)
    else wait_loop d (now + t) (wait_fuel t) 0 now

module _ (d : Dialer) (deadline : ℕ) where
  -- How the loop may end: an attempt that began before the deadline connected, the deadline has
  -- passed, or the context was done.
  abbrev pub Ends : Waited → Type 0
  Ends (ok _, t) =
      (i : ℕ) × (start : ℕ) × (elapsed : ℕ) × (start < deadline)
      × (d.dial i (min (2 * second) (deadline - start)) ≡ (true, elapsed))
      × (t ≡ start + elapsed)
  Ends (err e, t) =
      ((e ≡ not_reachable) × (deadline ≤ t)) ⊎ ((e ≡ cancelled) × ((i : ℕ) × (d.done i ≡ true)))

  wait_loop_total :
      (fuel i now : ℕ)
      → deadline + second ≤ now + fuel * second
      → (1 ≤ fuel)
      → (w : Waited) × (wait_loop d deadline fuel i now ≡ some w) × Ends w
  unfolding wait_loop
  wait_loop_total zero i now h p = absurd (omega arith)
  wait_loop_total (suc fuel) i now h p = elim (Bool-cases (leb deadline now)) [
    | inl e ↦ ((err not_reachable, now), rw e, inl (refl, ground arith))
    | inr e ↦
        let (connects, elapsed) = d.dial i (min (2 * second) (deadline - now)) in
        elim (Bool-cases (d.dial i (min (2 * second) (deadline - now))).0) [
          | inl f ↦ (
            (ok tt, now + elapsed),
            rw (e, f, wait_loop),
            (i, now, elapsed, ground arith, rw (← f) refl, refl),
          )
          | inr f ↦ elim (Bool-cases (d.done i)) [
            | inl g ↦ ((err cancelled, now + elapsed), rw (e, f, g), inr (refl, (i, g)))
            | inr g ↦
                rw (e, f, g)
                  (wait_loop_total fuel (suc i)
                    (now + elapsed + min second (deadline - (now + elapsed)) + d.lag i)
                    (later fuel now elapsed (d.lag i) h (ground arith))
                    (more fuel now h (ground arith)))
          ]
        ]
  ]
    where
      more : (f now : ℕ) → deadline + second ≤ now + suc f * second → now < deadline → 1 ≤ f
      more zero now h l = absurd (omega arith)
      more (suc f) now h l = omega arith

      later :
          (f now t lag : ℕ)
          → deadline + second ≤ now + suc f * second
          → now < deadline
          → deadline + second ≤ now + t + min second (deadline - (now + t)) + lag + f * second
      later zero now t lag h l = omega arith
      later (suc f) now t lag h l = omega arith

bad_cases :
    (host : Text) (port : ℤ)
    → (is_empty host || no_port port) ≡ true
    → (host ≡ []) ⊎ ¬ (IsPort port)
unfolding is_empty
bad_cases [] port e = inl refl
bad_cases (c ∷ host) port e = inr (λ p. cc (IsPort-no_port port p, e))

good_host : (host : Text) (port : ℤ) → (is_empty host || no_port port) ≡ false → host ≢ []
unfolding is_empty
good_host [] port e = λ _. cc (e)
good_host (c ∷ host) port e = λ same_text. cc (same_text)

-- The wait always ends within its fuel. Without a host, or with a port out of range, the target is
-- refused at once. Otherwise the wait succeeds only by an attempt that began before the deadline
-- and connected, at the time at which it did; it reports an unreachable target only when the
-- deadline has passed; and else it ends as cancelled, when its context is done.
pub wait_for_tcp_total :
    (d : Dialer) (host : Text) (port timeout : ℤ) (now : ℕ)
    → (w : Waited) × (wait_for_tcp d host port timeout now ≡ some w)
      × (((w ≡ (err bad_target, now)) × ((host ≡ []) ⊎ ¬ (IsPort port)))
          ⊎ ((host ≢ []) × IsPort port × Ends d (now + effective_timeout timeout) w))
unfolding wait_for_tcp is_empty
wait_for_tcp_total d host port timeout now = elim (Bool-cases (is_empty host || no_port port)) [
  | inl e ↦ ((err bad_target, now), rw e, inl (refl, bad_cases host port e))
  | inr e ↦
      let t = effective_timeout timeout in
      let (w, r, h) =
        wait_loop_total d (now + t) (wait_fuel t) 0 now (unfold wait_fuel in omega arith)
          (unfold wait_fuel in omega arith) in
      (
        w,
        rw (e, wait_for_tcp) r,
        inr (good_host host port e, no_port-IsPort port (ground arith), h),
      )
]
