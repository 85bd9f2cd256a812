-- ===== src/Desk/Leaks.antt =====
-- No session of internal/remoteflow is lost: whatever runs has someone who will stop it.
use wol.Prelude.{
  Bool, List, [], any, arith, either_way, get_elem?, map, none, refl, some, suc, true, zero, ℕ,
  ◌++◌, ◌==◌, ◌||◌, ◌∷◌, ◌≡◌, ◌≢◌,
}
use wol.Desk.Registries.{Pool, Registry, drop_handle, find_handle, handles, put_handle, to_list}
use wol.Desk.Worlds.{World, remove_at, stopped}
use wol.Text.{Text, teq}
use wol.Text.Laws.{teq_iff}

abbrev pub has : ℕ → List ℕ → Bool
has h hs = any (λ k. k == h) hs

unfoldable pub opened : List (Pool × Text × ℕ) → List ℕ
opened = map (λ e. e.2)

-- Someone owns a handle: a map of the manager, the call that started it, or one that is to stop it.
unfoldable pub owned : ℕ → World → Bool
owned h w =
    has h (handles w.manager.sessions)
    || has h (handles w.manager.streams)
    || has h (opened w.opening)
    || has h w.pending

pub has-append : (h : ℕ) (xs ys : List ℕ) → has h (xs ++ ys) ≡ (has h xs || has h ys)
has-append h [] ys = refl
has-append h (x ∷ xs) ys = ground (arith, has-append h xs ys)

pub has-stopped :
    (h k : ℕ) (live : List ℕ) → has h (stopped k live) ≡ true → (has h live ≡ true) × (h ≢ k)
unfolding stopped
has-stopped h k [] e = absurd (cc)
has-stopped h k (l ∷ live) e = ground (arith, has-stopped h k live)

-- what is taken off a list is there, and the rest stays
pub has-remove_at :
    (h i k : ℕ) (hs : List ℕ)
    → get_elem? hs i ≡ some k
    → has h hs ≡ (k == h || has h (remove_at i hs))
unfolding remove_at
has-remove_at h i k [] e = absurd (cc)
has-remove_at h zero k (x ∷ hs) e = ground arith
has-remove_at h (suc i) k (x ∷ hs) e = ground (arith, has-remove_at h i k hs)

pub has-opened-remove_at :
    (h i : ℕ) (pool : Pool) (device : Text) (k : ℕ) (entries : List (Pool × Text × ℕ))
    → get_elem? entries i ≡ some (pool, device, k)
    → has h (opened entries) ≡ (k == h || has h (opened (remove_at i entries)))
unfolding remove_at opened
has-opened-remove_at h i pool device k [] e = absurd (cc)
has-opened-remove_at h zero pool device k (x ∷ entries) e = ground arith
has-opened-remove_at h (suc i) pool device k (x ∷ entries) e =
    ground (arith, has-opened-remove_at h i pool device k entries)

-- One entry for each device.
abbrev pub Distinct : Registry → Type 0
Distinct [] = Unit
Distinct ((d, h) ∷ registry) = (find_handle d registry ≡ none) × Distinct registry

drop_handle-absent :
    (device : Text) (registry : Registry)
    → find_handle device registry ≡ none
    → drop_handle device registry ≡ registry
unfolding find_handle drop_handle
drop_handle-absent device [] e = refl
drop_handle-absent device ((d, k) ∷ registry) e = ground (arith, drop_handle-absent device registry)

find_handle-drop_handle :
    (d device : Text) (registry : Registry)
    → find_handle d registry ≡ none
    → find_handle d (drop_handle device registry) ≡ none
unfolding find_handle drop_handle
find_handle-drop_handle d device [] e = refl
find_handle-drop_handle d device ((d', k) ∷ registry) e =
    ground (arith, find_handle-drop_handle d device registry)

find_handle-drop_self :
    (device : Text) (registry : Registry) → find_handle device (drop_handle device registry) ≡ none
unfolding find_handle drop_handle
find_handle-drop_self device [] = refl
find_handle-drop_self device ((d, k) ∷ registry) =
    ground (arith, find_handle-drop_self device registry)

pub drop_handle-Distinct :
    (device : Text) (registry : Registry)
    → Distinct registry
    → Distinct (drop_handle device registry)
unfolding drop_handle
drop_handle-Distinct device [] u = tt
drop_handle-Distinct device ((d, k) ∷ registry) (fresh, u) =
    either_way Distinct (teq d device) (drop_handle-Distinct device registry u)
      (find_handle-drop_handle d device registry fresh, drop_handle-Distinct device registry u)

pub put_handle-Distinct :
    (device : Text) (h : ℕ) (registry : Registry)
    → Distinct registry
    → Distinct (put_handle device h registry)
unfolding put_handle
put_handle-Distinct device h registry u =
    (find_handle-drop_self device registry, drop_handle-Distinct device registry u)

-- What a map forgets of a device is the handle that was found.
pub has-drop_handle :
    (h : ℕ) (device : Text) (registry : Registry)
    → Distinct registry
    → has h (handles registry) ≡ (
        has h (to_list (find_handle device registry))
        || has h (handles (drop_handle device registry)))
unfolding find_handle drop_handle to_list
has-drop_handle h device [] u = refl
has-drop_handle h device ((d, k) ∷ registry) (fresh, u) = ground (
  arith,
  teq_iff d device,
  drop_handle-absent device registry,
  has-drop_handle h device registry u,
)

pub record Kept (w : World) : Type 0 where
  pub live_owned : (h : ℕ) → has h w.live ≡ true → owned h w ≡ true
  pub one_session : Distinct w.manager.sessions
  pub one_stream : Distinct w.manager.streams
  pub emptied :
      w.manager.closed ≡ true
      → w.draining ≡ 0
      → (w.manager.sessions ≡ []) × (w.manager.streams ≡ [])
