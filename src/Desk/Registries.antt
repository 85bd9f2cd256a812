-- ===== src/Desk/Registries.antt =====
-- The parts of `Manager` of internal/remoteflow/flow.go that run under its lock: the last part of
-- `Open`, and those of `Stop` and `Close`. A session or a stream is a handle. Each part returns the
-- handles that its caller stops when it has given the lock back.
use wol.Prelude.{Bool, List, Option, [], if◌then◌else◌, map, none, some, true, ℕ, ◌++◌, ◌∷◌}
use wol.Text.{Text, teq}

pub data Pool : Type 0 where
  browser moonlight : Pool

-- `map[string]*Session`, by the id of a device
abbrev pub Registry : Type 0
Registry = List (Text × ℕ)

pub record Manager : Type 0 where
  pub closed : Bool
  pub sessions : Registry
  pub streams : Registry

unfoldable pub find_handle : Text → Registry → Option ℕ
find_handle device [] = none
find_handle device ((d, h) ∷ rest) = if teq d device then some h else find_handle device rest

unfoldable pub drop_handle : Text → Registry → Registry
drop_handle device [] = []
drop_handle device ((d, h) ∷ rest) =
    let kept = drop_handle device rest in if teq d device then kept else (d, h) ∷ kept

unfoldable pub put_handle : Text → ℕ → Registry → Registry
put_handle device h registry = (device, h) ∷ drop_handle device registry

unfoldable pub to_list : Option ℕ → List ℕ
to_list none = []
to_list (some h) = h ∷ []

unfoldable pub registry_of : Pool → Manager → Registry
registry_of browser m = m.sessions
registry_of moonlight m = m.streams

unfoldable pub with_registry : Pool → Registry → Manager → Manager
with_registry browser registry m = record m { sessions = registry }
with_registry moonlight registry m = record m { streams = registry }

-- A closed manager takes no session: what was started is stopped.
unfoldable pub register : Pool → Text → ℕ → Manager → List ℕ × Manager
register pool device h m = if m.closed then (h ∷ [], m) else (
  to_list (find_handle device (registry_of pool m)),
  with_registry pool (put_handle device h (registry_of pool m)) m,
)

unfoldable pub take_device : Text → Manager → List ℕ × Manager
take_device device m = (
  to_list (find_handle device m.streams) ++ to_list (find_handle device m.sessions),
  record m { streams = drop_handle device m.streams; sessions = drop_handle device m.sessions },
)

unfoldable pub mark_closed : Manager → Manager
mark_closed m = record m { closed = true }

abbrev pub handles : Registry → List ℕ
handles = map (λ e. e.1)

unfoldable pub take_all : Manager → List ℕ × Manager
take_all m = (handles m.sessions ++ handles m.streams, record m { sessions = []; streams = [] })
