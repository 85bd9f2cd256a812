-- ===== src/Broker/Commands.antt =====
-- The commands of internal/localremote/docker.go and orphans.go, with the arguments and the
-- additions to the environment that `docker` is given for each.
use wol.Prelude.{List, [], ◌++◌, ◌∷◌}
use wol.Text.{Text, codes}

pub data DockerCommand : Type 0 where
  list_containers list_networks : DockerCommand
  container_owner network_owner : Text → DockerCommand
  remove_container remove_network : Text → DockerCommand
  create_network : (name owner : Text) → DockerCommand
  run_guacd : (name network owner : Text) → DockerCommand
  run_guacamole : (name network guacd owner secret : Text) → DockerCommand
  published_port : Text → DockerCommand

abbrev pub ownership_label : Text
ownership_label = codes "dev.aklkbqx.wol.local-remote"

abbrev pub owner_pid_label : Text
owner_pid_label = codes "dev.aklkbqx.wol.owner-pid"

abbrev pub guacamole_image : Text
guacamole_image =
    codes
      "guacamole/guacamole@sha256:f344085e618bb05e22b964b0208dbd06d3468275bac70206f93805245e067b40"

abbrev pub guacd_image : Text
guacd_image =
    codes "guacamole/guacd@sha256:8974eaa9ba32f713daf311e7cc8cd7e4cdfba1edea39eed75524e78ef4b08f4f"

-- the labels of what a session makes
unfoldable pub labels : Text → List Text
labels owner =
    codes "--label"
    ∷ (ownership_label ++ codes "=true")
    ∷ codes "--label"
    ∷ (owner_pid_label ++ (b'=' ∷ owner))
    ∷ []

-- what a list is filtered by
unfoldable pub own_filter : List Text
own_filter = codes "--filter" ∷ (codes "label=" ++ (ownership_label ++ codes "=true")) ∷ []

-- the template that prints the label of the owner, in quotation marks
unfoldable pub owner_format : Text → Text
owner_format labels_of =
    codes "{{ index " ++ (labels_of ++ (32 ∷ 34 ∷ (owner_pid_label ++ (34 ∷ codes " }}"))))

unfoldable pub sealed_off : List Text
sealed_off =
    codes "--cap-drop" ∷ codes "ALL" ∷ codes "--security-opt" ∷ codes "no-new-privileges" ∷ []

unfoldable pub args_of : DockerCommand → List Text
args_of list_containers = codes "ps" ∷ codes "--all" ∷ codes "--quiet" ∷ own_filter
args_of list_networks = codes "network" ∷ codes "ls" ∷ codes "--quiet" ∷ own_filter
args_of (container_owner id) =
    codes "inspect" ∷ codes "--format" ∷ owner_format (codes ".Config.Labels") ∷ id ∷ []
args_of (network_owner id) =
    codes "network" ∷ codes "inspect" ∷ codes "--format" ∷ owner_format (codes ".Labels") ∷ id ∷ []
args_of (remove_container id) = codes "rm" ∷ codes "--force" ∷ id ∷ []
args_of (remove_network id) = codes "network" ∷ codes "rm" ∷ id ∷ []
args_of (create_network name owner) =
    codes "network"
    ∷ codes "create"
    ∷ codes "--driver"
    ∷ codes "bridge"
    ∷ (labels owner ++ (name ∷ []))
args_of (run_guacd name network owner) =
    codes "run"
    ∷ codes "--detach"
    ∷ codes "--network"
    ∷ network
    ∷ codes "--name"
    ∷ name
    ∷ (labels owner ++ (sealed_off ++ (guacd_image ∷ [])))
args_of (run_guacamole name network guacd owner secret) =
    codes "run"
    ∷ codes "--detach"
    ∷ codes "--network"
    ∷ network
    ∷ codes "--name"
    ∷ name
    ∷ (labels owner
        ++ (sealed_off
            ++ (codes "--publish"
                ∷ codes "127.0.0.1::8080"
                ∷ codes "--env"
                ∷ (codes "GUACD_HOSTNAME=" ++ guacd)
                ∷ codes "--env"
                ∷ codes "JSON_ENABLED=true"
                ∷ codes "--env"
                ∷ codes "JSON_SECRET_KEY"
                ∷ guacamole_image
                ∷ [])))
args_of (published_port name) = codes "port" ∷ name ∷ codes "8080/tcp" ∷ []

-- The secret goes through the environment.
unfoldable pub env_of : DockerCommand → List Text
env_of (run_guacamole name network guacd owner secret) = (codes "JSON_SECRET_KEY=" ++ secret) ∷ []
env_of (run_guacd name network owner) = []
env_of (create_network name owner) = []
env_of (published_port name) = []
env_of (remove_container id) = []
env_of (remove_network id) = []
env_of (container_owner id) = []
env_of (network_owner id) = []
env_of list_containers = []
env_of list_networks = []
