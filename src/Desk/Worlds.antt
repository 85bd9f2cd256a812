-- ===== src/Desk/Worlds.antt =====
-- The manager of internal/remoteflow among the calls that run at the same time. A call holds the
-- lock for one part at a time, and the parts of different calls come in any order.
use wol.Prelude.{
  List, [], false, get_elem?, if◌then◌else◌, none, some, suc, zero, ℕ, ◌++◌, ◌-◌, ◌==◌, ◌∷◌,
}
use wol.Desk.Registries.{Manager, Pool, mark_closed, register, take_all, take_device}
use wol.Text.{Text}

-- `opening` are the sessions that an `Open` has started and not registered yet, `pending` the
-- handles that some call has yet to stop, `draining` counts the calls of `Close` that have set the
-- mark and not emptied the maps yet, and `live` are the sessions that run.
pub record World : Type 0 where
  pub manager : Manager
  pub live : List ℕ
  pub opening : List (Pool × Text × ℕ)
  pub pending : List ℕ
  pub draining : ℕ

pub data SessionEvent : Type 0 where
  start_session : Pool → Text → ℕ → SessionEvent
  register_at : ℕ → SessionEvent
  stop_device : Text → SessionEvent
  close_manager : SessionEvent
  drain_manager : SessionEvent
  stop_at : ℕ → SessionEvent
  session_ends : ℕ → SessionEvent

unfoldable pub remove_at {ℓ} : {A : Type ℓ} → ℕ → List A → List A
remove_at i [] = []
remove_at zero (x ∷ xs) = xs
remove_at (suc i) (x ∷ xs) = x ∷ remove_at i xs

unfoldable pub stopped : ℕ → List ℕ → List ℕ
stopped h [] = []
stopped h (l ∷ live) = let rest = stopped h live in if l == h then rest else l ∷ rest

-- the last part of an `Open`
unfoldable pub registered : ℕ → Pool → Text → ℕ → World → World
registered i pool device h w =
    let (previous, m) = register pool device h w.manager in
    record w { manager = m; opening = remove_at i w.opening; pending = previous ++ w.pending }

unfoldable pub drained : World → World
drained w =
    let (handed, m) = take_all w.manager in
    record w { manager = m; pending = handed ++ w.pending; draining = w.draining - 1 }

unfoldable pub next : SessionEvent → World → World
next (start_session pool device h) w = record w {
  live = h ∷ w.live;
  opening = (pool, device, h) ∷ w.opening;
}
next (register_at i) w = elim (get_elem? w.opening i) [
  | none ↦ w
  | some (pool, device, h) ↦ registered i pool device h w
]
next (stop_device device) w =
    let (handed, m) = take_device device w.manager in
    record w { manager = m; pending = handed ++ w.pending }
next close_manager w = record w { manager = mark_closed w.manager; draining = suc w.draining }
next drain_manager w = if w.draining == 0 then w else drained w
next (stop_at i) w = elim (get_elem? w.pending i) [
  | none ↦ w
  | some h ↦ record w { live = stopped h w.live; pending = remove_at i w.pending }
]
next (session_ends h) w = record w { live = stopped h w.live }

unfoldable pub happen : List SessionEvent → World → World
happen [] w = w
happen (e ∷ events) w = happen events (next e w)

abbrev pub new_world : World
new_world = record {
  manager = record { closed = false; sessions = []; streams = [] };
  live = [];
  opening = [];
  pending = [];
  draining = 0;
}
