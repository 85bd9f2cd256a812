-- ===== src/Desk/Custody.antt =====
-- Who owns what runs under the manager of internal/remoteflow.
use wol.Prelude.{All, List, [], arith, refl, true, ℕ, ◌||◌, ◌∷◌, ◌≡◌}
use wol.Desk.Leaks.{Distinct, has, opened, owned}
use wol.Desk.Registries.{handles}
use wol.Desk.Upkeep.{happen-Kept, new_world-Kept}
use wol.Desk.Worlds.{SessionEvent, World, happen, new_world}

-- what is in no list
All-has : (P : ℕ → Type 0) (hs : List ℕ) → ((h : ℕ) → has h hs ≡ true → P h) → All P hs
All-has P [] f = tt
All-has P (h ∷ hs) f = (f h (ground arith), All-has P hs (λ k e. f k (ground arith)))

All-⊥ : (hs : List ℕ) → All (λ _. ⊥) hs → hs ≡ []
All-⊥ [] a = refl
All-⊥ (h ∷ hs) a = absurd a.0

module _ (events : List SessionEvent) where
  abbrev after : World
  after = happen events new_world

  -- Whatever calls of `Open`, `Stop` and `Close` run, and however their parts and the ends of
  -- sessions are interleaved: when no call holds a session any more, every session that runs is in
  -- one of the two maps, and each map has one entry at most for a device.
  pub idle-registered :
      after.opening ≡ []
      → after.pending ≡ []
      → All
          (λ h.
            (has h (handles after.manager.sessions) || has h (handles after.manager.streams))
            ≡ true)
          after.live
        × Distinct after.manager.sessions
        × Distinct after.manager.streams
  unfolding owned opened
  idle-registered no_open no_pending =
      let kept = happen-Kept events new_world new_world-Kept in
      (
        All-has _ after.live (λ h l. ground (arith, kept.live_owned h)),
        kept.one_session,
        kept.one_stream,
      )

  -- After a `Close` that has emptied the maps, when no call holds a session any more, none runs.
  pub closed-nothing_live :
      after.manager.closed ≡ true
      → after.draining ≡ 0
      → after.opening ≡ []
      → after.pending ≡ []
      → after.live ≡ []
  unfolding owned opened
  closed-nothing_live shut done no_open no_pending =
      let kept = happen-Kept events new_world new_world-Kept in
      let (no_sessions, no_streams) = kept.emptied shut done in
      All-⊥ after.live (All-has _ after.live (λ h l. ground (arith, kept.live_owned h)))
