-- ===== src/Broker/Docker.antt =====
-- `dockerRuntime` of internal/localremote/docker.go: the commands that start and remove the sidecars
-- of a session, and the port that Docker publishes. A command is run by a shell that answers the
-- n-th command with its exit and its output, and keeps the commands and whether they succeeded.
use wol.Prelude.{
  Bool, List, Option, Outcome, [], err, false, if◌then◌else◌, length, ltz, map, no_port, none, not,
  ok, pos, some, true, ℕ, ℤ, ◌&&◌, ◌++◌, ◌||◌, ◌∷◌,
}
use wol.Broker.Commands.{
  DockerCommand, container_owner, create_network, list_containers, list_networks, network_owner,
  published_port, remove_container, remove_network, run_guacamole, run_guacd,
}
use wol.Broker.Hosts.{split_host_port}
use wol.Text.{Text, codes, contains, is_empty, is_space, split, teq, to_lower, trim_space}
use wol.Updater.{atoi}

pub record Answered : Type 0 where
  pub success : Bool
  pub stdout : Text
  pub stderr : Text

-- The newest command is the first.
pub record Shell : Type 0 where
  pub ran : List (DockerCommand × Bool)
  pub answers : ℕ → Answered

unfoldable pub run_docker : DockerCommand → Shell → Answered × Shell
run_docker command sh =
    let reply = sh.answers (length sh.ran) in
    (reply, record sh { ran = (command, reply.success) ∷ sh.ran })

pub data DockerError : Type 0 where
  command_failed : DockerCommand → DockerError
  no_published_port : DockerError

-- The part of a runtime that `start` and `close` change, beside its names.
pub record Runtime : Type 0 where
  pub network : Text
  pub guacd : Text
  pub guacamole : Text
  pub secret : Text
  pub owner : Text
  pub started_network : Bool
  pub started_guacd : Bool
  pub started_guacamole : Bool

-- one line of `docker port`
unfoldable pub published_line : Text → Option Text
published_line line = elim (split_host_port (trim_space line)) [
  | none ↦ none
  | some (host, port) ↦
      if not (teq host (codes "127.0.0.1"))
      then none
      else let (n, well) = atoi port in
        if well && not (no_port n) then some (codes "http://127.0.0.1:" ++ port) else none
]

unfoldable pub first_published : List Text → Option Text
first_published [] = none
first_published (line ∷ lines) = elim (published_line line) [
  | some url ↦ some url
  | none ↦ first_published lines
]

unfoldable pub parse_published_loopback : Text → Outcome DockerError Text
parse_published_loopback output = elim (first_published (split 10 output)) [
  | none ↦ err no_published_port
  | some url ↦ ok url
]

-- A step of `start`: it may fail, and changes the runtime and the shell.
abbrev pub Task : Type 0 → Type 0
Task A = Runtime → Shell → Outcome DockerError A × Runtime × Shell

abbrev pub carry :
    {A B : Type 0}
    → (A → Task B)
    → Outcome DockerError A × Runtime × Shell
    → Outcome DockerError B × Runtime × Shell
carry f (err e, d, sh) = (err e, d, sh)
carry f (ok a, d, sh) = f a d sh

infixl 5 ◌>>=◌ ◌>>◌
abbrev pub ◌>>=◌ : {A B : Type 0} → Task A → (A → Task B) → Task B
◌>>=◌ task f d sh = carry f (task d sh)

abbrev pub ◌>>◌ : {B : Type 0} → Task (Unit {0}) → Task B → Task B
task >> rest = task >>= (λ _. rest)

unfoldable pub must : DockerCommand → Task Text
must command d sh =
    let (reply, sh') = run_docker command sh in
    (if reply.success then ok reply.stdout else err (command_failed command), d, sh')

unfoldable pub mark : (Runtime → Runtime) → Task (Unit {0})
mark f d sh = (ok tt, f d, sh)

-- `processAlive`, and what `docker inspect` printed as the owner
unfoldable pub is_orphan : (ℤ → Bool) → Text → Bool
is_orphan alive owner =
    let (pid, well) = atoi (trim_space owner) in well && not (ltz pid (pos 1)) && not (alive pid)

-- `strings.Fields`
unfoldable pub filled : List Text → List Text
filled [] = []
filled (t ∷ ts) = let rest = filled ts in if is_empty t then rest else t ∷ rest

unfoldable pub fields : Text → List Text
fields s = filled (split 32 (map (λ c. if is_space c then 32 else c) s))

-- The loops of `cleanupOrphans`: a container whose owner cannot be told, or lives, is left alone.
unfoldable pub clean_containers : (ℤ → Bool) → List Text → Task (Unit {0})
clean_containers alive [] d sh = (ok tt, d, sh)
clean_containers alive (id ∷ ids) d sh =
    let (owner, sh') = run_docker (container_owner id) sh in
    let next = clean_containers alive ids in
    let removal : Task (Unit {0}) = (do _ ← must (remove_container id); next) in
    if owner.success && is_orphan alive owner.stdout then removal d sh' else next d sh'

-- a network that is gone already is no error
unfoldable pub try_network : Text → Task (Unit {0})
try_network id d sh =
    let (reply, sh') = run_docker (remove_network id) sh in
    if reply.success || contains (to_lower reply.stderr) (codes "not found")
    then (ok tt, d, sh')
    else (err (command_failed (remove_network id)), d, sh')

unfoldable pub clean_networks : (ℤ → Bool) → List Text → Task (Unit {0})
clean_networks alive [] d sh = (ok tt, d, sh)
clean_networks alive (id ∷ ids) d sh =
    let (owner, sh') = run_docker (network_owner id) sh in
    let next = clean_networks alive ids in
    let removal : Task (Unit {0}) = (do try_network id; next) in
    if owner.success && is_orphan alive owner.stdout then removal d sh' else next d sh'

unfoldable pub clean_all_containers : (ℤ → Bool) → Task (Unit {0})
clean_all_containers alive = do
  containers ← must list_containers
  clean_containers alive (fields containers)

unfoldable pub clean_all_networks : (ℤ → Bool) → Task (Unit {0})
clean_all_networks alive = do networks ← must list_networks; clean_networks alive (fields networks)

unfoldable pub cleanup_orphans : (ℤ → Bool) → Task (Unit {0})
cleanup_orphans alive = do clean_all_containers alive; clean_all_networks alive

-- the three resources of a session
unfoldable pub make_network : Task (Unit {0})
make_network d =
    (do
      _ ← must (create_network d.network d.owner)
      mark (λ d. record d { started_network = true }))
      d

unfoldable pub make_guacd : Task (Unit {0})
make_guacd d =
    (do
      _ ← must (run_guacd d.guacd d.network d.owner)
      mark (λ d. record d { started_guacd = true }))
      d

unfoldable pub make_guacamole : Task (Unit {0})
make_guacamole d =
    (do
      _ ← must (run_guacamole d.guacamole d.network d.guacd d.owner d.secret)
      mark (λ d. record d { started_guacamole = true }))
      d

unfoldable pub find_port : Task Text
find_port d =
    (do
      output ← must (published_port d.guacamole)
      (λ d sh. (parse_published_loopback output, d, sh)))
      d

unfoldable pub start : (ℤ → Bool) → Task Text
start alive = do cleanup_orphans alive; make_network; make_guacd; make_guacamole; find_port

-- Each removal is tried, whatever becomes of the others.
unfoldable pub remove_if :
    Bool → DockerCommand → List DockerError × Shell → List DockerError × Shell
remove_if false command (errors, sh) = (errors, sh)
remove_if true command (errors, sh) =
    let (reply, sh') = run_docker command sh in
    (if reply.success then errors else errors ++ (command_failed command ∷ []), sh')

unfoldable pub close : Runtime → Shell → List DockerError × Shell
close d sh = remove_if d.started_network (remove_network d.network) (
    remove_if d.started_guacd (remove_container d.guacd)
      (remove_if d.started_guacamole (remove_container d.guacamole) ([], sh)))
