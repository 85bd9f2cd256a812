-- ===== src/Desk/Upkeep.antt =====
-- Every event of internal/remoteflow keeps the books of its manager.
use wol.Prelude.{
  Bool-cases, List, Option-cases, [], ap, arith, either_way, false, get_elem?, inl, inr, refl, some,
  true, ℕ, ◌++◌, ◌==◌, ◌||◌, ◌∷◌, ◌≡◌,
}
use wol.Desk.Leaks.{
  Kept, drop_handle-Distinct, has, has-append, has-drop_handle, has-opened-remove_at, has-remove_at,
  has-stopped, opened, owned, put_handle-Distinct,
}
use wol.Desk.Registries.{
  Manager, Pool, Registry, browser, drop_handle, find_handle, handles, mark_closed, moonlight,
  put_handle, register, registry_of, take_all, take_device, to_list, with_registry,
}
use wol.Desk.Worlds.{
  SessionEvent, World, close_manager, drain_manager, drained, happen, new_world, next, register_at,
  registered, remove_at, session_ends, start_session, stop_at, stop_device, stopped,
}
use wol.Text.{Text}

has-put_handle :
    (k h : ℕ) (device : Text) (registry : Registry)
    → has k (handles (put_handle device h registry))
      ≡ (h == k || has k (handles (drop_handle device registry)))
unfolding put_handle
has-put_handle k h device registry = refl

register-free :
    (pool : Pool) (device : Text) (h : ℕ) (m : Manager)
    → m.closed ≡ false
    → register pool device h m ≡ (
      to_list (find_handle device (registry_of pool m)),
      with_registry pool (put_handle device h (registry_of pool m)) m,
    )
unfolding register
register-free pool device h m free = ground arith

register-closed :
    (pool : Pool) (device : Text) (h : ℕ) (m : Manager)
    → m.closed ≡ true
    → register pool device h m ≡ (h ∷ [], m)
unfolding register
register-closed pool device h m shut = ground arith

module _ (w : World) (kept : Kept w) where
  start_session-Kept :
      (pool : Pool) (device : Text) (h : ℕ) → Kept (next (start_session pool device h) w)
  unfolding next opened owned
  start_session-Kept pool device h = record {
    live_owned = λ k e. ground (arith, kept.live_owned k);
    one_session = kept.one_session;
    one_stream = kept.one_stream;
    emptied = kept.emptied;
  }

  registered_free :
      (pool : Pool) (i : ℕ) (device : Text) (h : ℕ)
      → get_elem? w.opening i ≡ some (pool, device, h)
      → w.manager.closed ≡ false
      → Kept (record w {
        manager = with_registry pool (put_handle device h (registry_of pool w.manager)) w.manager;
        opening = remove_at i w.opening;
        pending = to_list (find_handle device (registry_of pool w.manager)) ++ w.pending;
      })
  unfolding registry_of with_registry owned
  registered_free browser i device h e free = record {
    live_owned = λ k l. ground (
      arith,
      kept.live_owned k,
      has-opened-remove_at k i browser device h w.opening,
      has-put_handle k h device w.manager.sessions,
      has-drop_handle k device w.manager.sessions kept.one_session,
      has-append k (to_list (find_handle device w.manager.sessions)) w.pending,
    );
    one_session = put_handle-Distinct device h w.manager.sessions kept.one_session;
    one_stream = kept.one_stream;
    emptied = λ c d. absurd (cc);
  }
  registered_free moonlight i device h e free = record {
    live_owned = λ k l. ground (
      arith,
      kept.live_owned k,
      has-opened-remove_at k i moonlight device h w.opening,
      has-put_handle k h device w.manager.streams,
      has-drop_handle k device w.manager.streams kept.one_stream,
      has-append k (to_list (find_handle device w.manager.streams)) w.pending,
    );
    one_session = kept.one_session;
    one_stream = put_handle-Distinct device h w.manager.streams kept.one_stream;
    emptied = λ c d. absurd (cc);
  }

  registered-Kept :
      (i : ℕ) (pool : Pool) (device : Text) (h : ℕ)
      → get_elem? w.opening i ≡ some (pool, device, h)
      → Kept (registered i pool device h w)
  unfolding registered owned
  registered-Kept i pool device h e = elim (Bool-cases w.manager.closed) [
    | inl shut ↦ rw (register-closed pool device h w.manager shut) (record {
      live_owned = λ k l.
          ground (arith, kept.live_owned k, has-opened-remove_at k i pool device h w.opening);
      one_session = kept.one_session;
      one_stream = kept.one_stream;
      emptied = kept.emptied;
    })
    | inr free ↦
        rw (register-free pool device h w.manager free) (registered_free pool i device h e free)
  ]

  take_device-Kept : (device : Text) → Kept (next (stop_device device) w)
  unfolding next take_device owned drop_handle
  take_device-Kept device = record {
    live_owned = λ k l. ground (
      arith,
      kept.live_owned k,
      has-drop_handle k device w.manager.sessions kept.one_session,
      has-drop_handle k device w.manager.streams kept.one_stream,
      has-append k (to_list (find_handle device w.manager.streams))
          (to_list (find_handle device w.manager.sessions)),
      has-append k
          (to_list (find_handle device w.manager.streams)
            ++ to_list (find_handle device w.manager.sessions))
          w.pending,
    );
    one_session = drop_handle-Distinct device w.manager.sessions kept.one_session;
    one_stream = drop_handle-Distinct device w.manager.streams kept.one_stream;
    emptied = λ c d.
        let (a, b) = kept.emptied c d in (ap (drop_handle device) a, ap (drop_handle device) b);
  }

  drained-Kept : Kept (drained w)
  unfolding drained take_all owned
  drained-Kept = record {
    live_owned = λ k l. ground (
      arith,
      kept.live_owned k,
      has-append k (handles w.manager.sessions) (handles w.manager.streams),
      has-append k (handles w.manager.sessions ++ handles w.manager.streams) w.pending,
    );
    one_session = tt;
    one_stream = tt;
    emptied = λ c d. (refl, refl);
  }

  close_manager-Kept : Kept (next close_manager w)
  unfolding next mark_closed owned
  close_manager-Kept = record {
    live_owned = λ k l. ground (arith, kept.live_owned k);
    one_session = kept.one_session;
    one_stream = kept.one_stream;
    emptied = λ c d. absurd (omega arith);
  }

  stop_at-Kept :
      (i h : ℕ)
      → get_elem? w.pending i ≡ some h
      → Kept (record w { live = stopped h w.live; pending = remove_at i w.pending })
  unfolding owned
  stop_at-Kept i h e = record {
    live_owned = λ k l.
        ground (arith, kept.live_owned k, has-stopped k h w.live, has-remove_at k i h w.pending);
    one_session = kept.one_session;
    one_stream = kept.one_stream;
    emptied = kept.emptied;
  }

  session_ends-Kept : (h : ℕ) → Kept (next (session_ends h) w)
  unfolding next owned
  session_ends-Kept h = record {
    live_owned = λ k l. ground (arith, kept.live_owned k, has-stopped k h w.live);
    one_session = kept.one_session;
    one_stream = kept.one_stream;
    emptied = kept.emptied;
  }

  pub next-Kept : (event : SessionEvent) → Kept (next event w)
  unfolding next
  next-Kept (start_session pool device h) = start_session-Kept pool device h
  next-Kept (register_at i) = elim (Option-cases (get_elem? w.opening i)) [
    | inl out ↦ rw (out, next) kept
    | inr ((pool, device, h), e) ↦ rw (e, next) (registered-Kept i pool device h e)
  ]
  next-Kept (stop_device device) = take_device-Kept device
  next-Kept close_manager = close_manager-Kept
  next-Kept drain_manager = either_way Kept (w.draining == 0) kept drained-Kept
  next-Kept (stop_at i) = elim (Option-cases (get_elem? w.pending i)) [
    | inl out ↦ rw (out, next) kept
    | inr (h, e) ↦ rw (e, next) (stop_at-Kept i h e)
  ]
  next-Kept (session_ends h) = session_ends-Kept h

pub happen-Kept : (events : List SessionEvent) (w : World) → Kept w → Kept (happen events w)
unfolding happen
happen-Kept [] w kept = kept
happen-Kept (e ∷ events) w kept = happen-Kept events (next e w) (next-Kept w kept e)

pub new_world-Kept : Kept new_world
new_world-Kept = record {
  live_owned = λ h l. absurd (cc);
  one_session = tt;
  one_stream = tt;
  emptied = λ c d. (refl, refl);
}
