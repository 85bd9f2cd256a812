-- ===== src/Inventory/Wakes.antt =====
-- What a wake does to the store.
use wol.Prelude.{
  Bool-cases, List, Option, Option-cases, Outcome-cases, ap, arith, inl, inr, not, ok, refl, sym, ℕ,
  ◌&&◌, ◌∙◌, ◌≡◌, ◌⊎◌,
}
use wol.Inventory.{after, as_store, inventory}
use wol.Packet.{parse_mac}
use wol.Store.{Device, WakeAttempt}
use wol.Store.Attempts.Laws.{record_wake_attempt-cases, with_attempt}
use wol.Store.Db.{Env, World}
use wol.Text.{Text}
use wol.Wake.{Event, Hooks, Options, Repository, Route, WakeError, Woken, Wording, resolve_route}
use wol.Wake.Service.{deliver, finish, record_failure, wake_by, wake_device, wake_found}

-- How a wake leaves the repository: as it was, or behind the record of one attempt, which is the
-- attempt of the result once it is recorded.
module _ {S : Type 0} (repo : Repository S) (s : S) where
  data Kept (x : Woken S) : Type 0 where
    untouched : x.store ≡ s → Kept x
    written :
        (a : WakeAttempt)
        → x.store ≡ (repo.record_wake_attempt s a).1
        → ((row : WakeAttempt) → (repo.record_wake_attempt s a).0 ≡ ok row → x.result.attempt ≡ row)
        → Kept x

module _ {S : Type 0} (repo : Repository S) (hooks : Hooks) (words : Wording) (s : S) where
  finish-Kept :
      (a : WakeAttempt) (device : Device) (route : Route) (d d' : Text) (f : Option WakeError)
      (es : List Event)
      → Kept repo s (finish repo hooks words s a device route d d' f es)
  unfolding finish
  finish-Kept a device route d d' f es = elim (Outcome-cases (repo.record_wake_attempt s a).0) [
    | inl (k, e) ↦ written a (rw (e, finish) refl) (λ row r. rw (e, finish) (ground (arith, e, r)))
    | inr (x, e) ↦ written a (rw (e, finish) refl) (λ row r. absurd (ground (arith, e, r)))
  ]

  wake_by-Kept :
      (device : Device) (route : Route) (options : Options) (mac : List ℕ)
      → Kept repo s (wake_by repo hooks words s device route options mac)
  unfolding wake_by
  wake_by-Kept device route options mac =
      elim (Option-cases (deliver hooks words route options mac).failure) [
        | inr (e, f) ↦ rw (f, wake_by) (finish-Kept _ device route _ _ _ _)
        | inl f ↦ rw (f, wake_by) (finish-Kept _ device route _ _ _ _)
      ]

  wake_found-Kept :
      (device : Device) (options : Options)
      → Kept repo s (wake_found repo hooks words s device options)
  unfolding wake_found record_failure
  wake_found-Kept device options = elim (Bool-cases (not device.enabled && not options.force)) [
    | inl y ↦ rw (y, wake_found) (finish-Kept _ device _ _ _ _ _)
    | inr n ↦ elim (Outcome-cases (resolve_route repo words s device)) [
      | inr (e, r) ↦ rw (n, r, wake_found) (finish-Kept _ device _ _ _ _ _)
      | inl (route, r) ↦ elim (Outcome-cases (parse_mac device.mac_address)) [
        | inr (e, m) ↦ rw (n, r, m, wake_found) (finish-Kept _ device _ _ _ _ _)
        | inl (mac, m) ↦ rw (n, r, m, wake_found) (wake_by-Kept device route options mac)
      ]
    ]
  ]

  wake_device-Kept :
      (id : Text) (options : Options) → Kept repo s (wake_device repo hooks words s id options)
  unfolding wake_device
  wake_device-Kept id options = elim (Outcome-cases (repo.get_device s id)) [
    | inr (e, r) ↦ untouched (rw (r, wake_device) refl)
    | inl (device, r) ↦ rw (r, wake_device) (wake_found-Kept device options)
  ]

-- A wake over the store changes no table but that of the wake attempts, and there it adds the one
-- attempt of its result, or nothing.
pub wake_device-adds :
    (env : Env) (hooks : Hooks) (words : Wording) (w : World) (id : Text) (options : Options)
    → ((wake_device (inventory env) hooks words w id options).store.tables ≡ w.tables)
      ⊎ ((wake_device (inventory env) hooks words w id options).store.tables
          ≡ with_attempt
              (wake_device (inventory env) hooks words w id options).result.attempt
              w.tables)
unfolding inventory as_store
wake_device-adds env hooks words w id options =
    elim (wake_device-Kept (inventory env) hooks words w id options) [
      | untouched e ↦ inl (ap (λ x. x.tables) e)
      | written a e h ↦ elim (record_wake_attempt-cases env a (after 3 w)) [
        | inl q ↦ inl (ap (λ x. x.tables) e ∙ q)
        | inr (row, (r, q)) ↦
            let same = h row (rw r refl) in
            inr (ap (λ x. x.tables) e ∙ q ∙ ap (λ y. with_attempt y w.tables) (sym same))
      ]
    ]
