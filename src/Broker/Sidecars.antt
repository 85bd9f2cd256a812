-- ===== src/Broker/Sidecars.antt =====
-- What internal/localremote/docker.go leaves behind: `close` removes what `start` has made.
use wol.Prelude.{
  Bool, List, Option, Outcome, [], arith, either_way, err, false, map, none, ok, refl, some, true,
  ℤ, ◌&&◌, ◌++◌, ◌∙◌, ◌∷◌, ◌≡◌,
}
use wol.Broker.Commands.{
  DockerCommand, container_owner, create_network, list_containers, list_networks, network_owner,
  published_port, remove_container, remove_network, run_guacamole, run_guacd,
}
use wol.Broker.Docker.{
  DockerError, Runtime, Shell, Task, carry, clean_all_containers, clean_all_networks,
  clean_containers, clean_networks, cleanup_orphans, fields, is_orphan, must, run_docker,
  try_network, ◌>>=◌,
}
use wol.Text.{Text}

-- the removal of what a command has made
unfoldable pub removal_of : DockerCommand → Option DockerCommand
removal_of (create_network name owner) = some (remove_network name)
removal_of (run_guacd name network owner) = some (remove_container name)
removal_of (run_guacamole name network guacd owner secret) = some (remove_container name)
removal_of list_containers = none
removal_of list_networks = none
removal_of (container_owner id) = none
removal_of (network_owner id) = none
removal_of (remove_container id) = none
removal_of (remove_network id) = none
removal_of (published_port name) = none

unfoldable pub to_removals : Bool → Option DockerCommand → List DockerCommand
to_removals success none = []
to_removals false (some removal) = []
to_removals true (some removal) = removal ∷ []

-- The removals that the commands which succeeded call for, the newest first.
unfoldable pub undo : List (DockerCommand × Bool) → List DockerCommand
unfolding to_removals
undo [] = []
undo ((command, success) ∷ log) = to_removals success (removal_of command) ++ undo log

abbrev pub commands : List (DockerCommand × Bool) → List DockerCommand
commands = map (λ e. e.0)

unfoldable pub due : Bool → DockerCommand → List DockerCommand
due false command = []
due true command = command ∷ []

unfoldable pub standing : Runtime → List DockerCommand
standing d =
    due d.started_guacamole (remove_container d.guacamole)
    ++ (due d.started_guacd (remove_container d.guacd)
        ++ due d.started_network (remove_network d.network))

-- A task that makes nothing and leaves the runtime alone.
unfoldable pub Quiet :
    {A : Type 0} → Runtime → Shell → Outcome DockerError A × Runtime × Shell → Type 0
Quiet d sh out = (out.1 ≡ d) × (undo out.2.ran ≡ undo sh.ran)

carry-Quiet :
    {A B : Type 0} (d : Runtime) (sh : Shell) (f : A → Task B)
    (out : Outcome DockerError A × Runtime × Shell)
    → Quiet d sh out
    → ((a : A) (sh' : Shell) → undo sh'.ran ≡ undo sh.ran → Quiet d sh (f a d sh'))
    → Quiet d sh (carry f out)
unfolding Quiet
carry-Quiet d sh f (err e, d', sh') quiet next = quiet
carry-Quiet d sh f (ok a, d', sh') (still, quiet) next = rw still (next a sh' quiet)

bind-Quiet :
    {A B : Type 0} (task : Task A) (f : A → Task B) (d : Runtime) (sh : Shell)
    → Quiet d sh (task d sh)
    → ((a : A) (sh' : Shell) → undo sh'.ran ≡ undo sh.ran → Quiet d sh (f a d sh'))
    → Quiet d sh ((task >>= f) d sh)
bind-Quiet task f d sh quiet next = carry-Quiet d sh f (task d sh) quiet next

pub must-Quiet :
    (command : DockerCommand) (d : Runtime) (sh : Shell)
    → removal_of command ≡ none
    → Quiet d sh (must command d sh)
unfolding Quiet must run_docker undo to_removals
must-Quiet command d sh h = (refl, ground arith)

run_docker-undo :
    (command : DockerCommand) (sh : Shell)
    → removal_of command ≡ none
    → undo (run_docker command sh).1.ran ≡ undo sh.ran
unfolding run_docker undo to_removals
run_docker-undo command sh h = ground arith

try_network-Quiet : (id : Text) (d : Runtime) (sh : Shell) → Quiet d sh (try_network id d sh)
unfolding Quiet try_network removal_of
try_network-Quiet id d sh =
    (ground arith, ground (arith, run_docker-undo (remove_network id) sh refl))

-- A task that follows quiet commands is as quiet as they.
next-Quiet :
    {A : Type 0} (d : Runtime) (sh sh' : Shell) (out : Outcome DockerError A × Runtime × Shell)
    → undo sh'.ran ≡ undo sh.ran
    → Quiet d sh' out
    → Quiet d sh out
unfolding Quiet
next-Quiet d sh sh' out e (still, quiet) = (still, quiet ∙ e)

end-Quiet : (d : Runtime) (sh : Shell) → Quiet {A = Unit {0}} d sh (ok tt, d, sh)
unfolding Quiet
end-Quiet d sh = (refl, refl)

clean_containers-Quiet :
    (alive : ℤ → Bool) (ids : List Text) (d : Runtime) (sh : Shell)
    → Quiet d sh (clean_containers alive ids d sh)
unfolding clean_containers removal_of
clean_containers-Quiet alive [] d sh = end-Quiet d sh
clean_containers-Quiet alive (id ∷ ids) d sh =
    let asked = run_docker (container_owner id) sh in
    next-Quiet d sh asked.1 _ (run_docker-undo (container_owner id) sh refl) (
      either_way (Quiet d asked.1) (asked.0.success && is_orphan alive asked.0.stdout)
        (bind-Quiet (must (remove_container id)) (λ _. clean_containers alive ids) d asked.1
          (must-Quiet (remove_container id) d asked.1 refl)
          (λ _ sh' e. next-Quiet d asked.1 sh' _ e (clean_containers-Quiet alive ids d sh')))
        (clean_containers-Quiet alive ids d asked.1))

clean_networks-Quiet :
    (alive : ℤ → Bool) (ids : List Text) (d : Runtime) (sh : Shell)
    → Quiet d sh (clean_networks alive ids d sh)
unfolding clean_networks removal_of
clean_networks-Quiet alive [] d sh = end-Quiet d sh
clean_networks-Quiet alive (id ∷ ids) d sh =
    let asked = run_docker (network_owner id) sh in
    next-Quiet d sh asked.1 _ (run_docker-undo (network_owner id) sh refl) (
      either_way (Quiet d asked.1) (asked.0.success && is_orphan alive asked.0.stdout)
        (bind-Quiet (try_network id) (λ _. clean_networks alive ids) d asked.1
          (try_network-Quiet id d asked.1)
          (λ _ sh' e. next-Quiet d asked.1 sh' _ e (clean_networks-Quiet alive ids d sh')))
        (clean_networks-Quiet alive ids d asked.1))

clean_all_containers-Quiet :
    (alive : ℤ → Bool) (d : Runtime) (sh : Shell) → Quiet d sh (clean_all_containers alive d sh)
unfolding clean_all_containers removal_of
clean_all_containers-Quiet alive d sh =
    bind-Quiet (must list_containers) (λ ids. clean_containers alive (fields ids)) d sh
      (must-Quiet list_containers d sh refl)
      (λ ids sh' e. next-Quiet d sh sh' _ e (clean_containers-Quiet alive (fields ids) d sh'))

clean_all_networks-Quiet :
    (alive : ℤ → Bool) (d : Runtime) (sh : Shell) → Quiet d sh (clean_all_networks alive d sh)
unfolding clean_all_networks removal_of
clean_all_networks-Quiet alive d sh =
    bind-Quiet (must list_networks) (λ ids. clean_networks alive (fields ids)) d sh
      (must-Quiet list_networks d sh refl)
      (λ ids sh' e. next-Quiet d sh sh' _ e (clean_networks-Quiet alive (fields ids) d sh'))

pub cleanup_orphans-Quiet :
    (alive : ℤ → Bool) (d : Runtime) (sh : Shell) → Quiet d sh (cleanup_orphans alive d sh)
unfolding cleanup_orphans
cleanup_orphans-Quiet alive d sh =
    bind-Quiet (clean_all_containers alive) (λ _. clean_all_networks alive) d sh
      (clean_all_containers-Quiet alive d sh)
      (λ _ sh' e. next-Quiet d sh sh' _ e (clean_all_networks-Quiet alive d sh'))
