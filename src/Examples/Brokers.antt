-- ===== src/Examples/Brokers.antt =====
-- internal/localremote at concrete inputs.
use wol.Prelude.{
  Bool, List, Option, [], any, false, if◌then◌else◌, inr, ltb, map, none, pos, refl, some, true, ℕ,
  ℤ, ◌+◌, ◌∷◌, ◌≡◌, ◌≤◌, ◌⊎◌,
}
use wol.Broker.{Config, bad_text, line_break, validate_credentials}
use wol.Broker.Commands.{
  DockerCommand, create_network, list_containers, list_networks, run_guacamole, run_guacd,
}
use wol.Broker.Docker.{
  Runtime, Shell, clean_all_containers, clean_all_networks, clean_containers, clean_networks,
  cleanup_orphans, fields, filled, find_port, make_guacamole, make_guacd, make_network, mark, must,
  run_docker, start,
}
use wol.Broker.Forms.{serve_all-signed, signed_post}
use wol.Broker.Gate.{insiders, outsiders_refused, serve_all-insiders}
use wol.Broker.Handler.{
  accept_form, begin_remote, completed_credentials, connect, consume, remember, remote,
  saved_credentials, sign_on, stored_key, valid_form_token,
}
use wol.Broker.Hosts.{cut_last, is_loopback_name, split_host_port, trim_suffix, valid_local_host}
use wol.Broker.Launch.{launches, pages_due, pages_shown, pages_shown-le}
use wol.Broker.Link.{cookies_given, cookies_given-le, uses_left}
use wol.Broker.Remembered.{connect-saved}
use wol.Broker.Requests.{
  BrokerHandler, BrokerState, HttpRequest, Response, answer, find_value, get_value, redirect,
  typed_credentials, usable,
}
use wol.Broker.Serve.{admitted, loosens, route, serve, serve_all, valid_cookie}
use wol.Broker.Sidecars.{commands}
use wol.Broker.SignIn.{Launched, serve-Launched}
use wol.Broker.Start.{Surroundings, start_session}
use wol.Broker.Startup.{Clean, start_session-Clean}
use wol.Broker.Teardown.{after_start}
use wol.Broker.Token.{Crypto, build_auth_token}
use wol.Broker.Vaults.{Items, memory_put, memory_vault}
use wol.Text.{
  Text, byte_len, codes, has_char, has_prefix, has_suffix, is_empty, push_front, split, teq,
  to_lower, trim_prefix, trim_space,
}

abbrev pub plain_crypto : Crypto
plain_crypto = record {
  marshal = λ d. some (1 ∷ 2 ∷ 3 ∷ []);
  digest = λ key bytes. 9 ∷ 9 ∷ [];
  good_key = λ key. true;
  encrypt = λ key bytes. bytes;
  base64 = λ bytes. codes "token";
}

abbrev pub ssh_config : Config
ssh_config = record {
  name = codes "pc";
  protocol = codes "ssh";
  host = codes "10.0.0.7";
  port = pos 22;
  username_hint = [];
  domain_hint = [];
  certificate_policy = codes "strict";
}

abbrev pub broker : BrokerHandler (Option Items)
broker = record {
  expected_host = codes "127.0.0.1:4000";
  cookie_token = codes "cookie";
  form_token = codes "form";
  config = ssh_config;
  vault = some memory_vault;
  key = 1 ∷ [];
  crypto = plain_crypto;
  ipv6 = λ t. none;
  to_upper = λ t. t;
}

abbrev pub fresh_state : BrokerState (Option Items)
fresh_state = record {
  one_time_token = codes "link";
  consumed = false;
  launch_token = [];
  disconnected = false;
  stored = some [];
}

abbrev pub get_request : Text → List (Text × Text) → HttpRequest
get_request path cookies = record {
  method = codes "GET";
  host = codes "localhost:4000";
  path = path;
  cookies = cookies;
  query = [];
  form = λ n. none;
  now = 0;
}

abbrev pub with_cookie : List (Text × Text)
with_cookie = (codes "wol_local_session", codes "cookie") ∷ []

abbrev pub typed : List (Text × Text)
typed =
    (codes "csrf", codes "form")
    ∷ (codes "username", codes "me")
    ∷ (codes "password", codes "pw")
    ∷ (codes "remember", codes "1")
    ∷ []

abbrev pub sign_in : HttpRequest
sign_in = record (get_request (codes "/connect") with_cookie) {
  method = codes "POST";
  form = λ n. some typed;
}

abbrev pub visit : List HttpRequest
visit =
    get_request (codes "/s/wrong") []
    ∷ get_request (codes "/s/link") []
    ∷ get_request (codes "/s/link") []
    ∷ sign_in
    ∷ get_request (codes "/remote") with_cookie
    ∷ get_request (codes "/remote") with_cookie
    ∷ []

statuses : List Response → List ℕ
statuses = map (λ p. p.reply.status)

visited : statuses (serve_all broker visit fresh_state).0 ≡ 410 ∷ 303 ∷ 410 ∷ 303 ∷ 200 ∷ 303 ∷ []
unfolding statuses serve_all serve valid_local_host split_host_port cut_last has_prefix has_char teq
    is_loopback_name trim_suffix has_suffix to_lower trim_space admitted consume valid_cookie
    trim_prefix answer redirect find_value accept_form begin_remote completed_credentials connect
    remember remote sign_on stored_key valid_form_token get_value typed_credentials build_auth_token
    bad_text line_break validate_credentials route memory_vault memory_put byte_len is_empty loosens
visited = refl

serve_all-insiders_example :
    ((serve_all broker visit fresh_state).1
      ≡ (serve_all broker (insiders broker (codes "link") visit) fresh_state).1)
    × (outsiders_refused broker (codes "link") visit fresh_state ≡ true)
serve_all-insiders_example = serve_all-insiders broker (codes "link") visit fresh_state (inr refl)

serve_all-signed_example :
    ((any (signed_post broker 16384 (codes "/connect")) visit ≡ true)
      ⊎ ((serve_all broker visit fresh_state).1.stored ≡ fresh_state.stored))
    × ((any (signed_post broker 4096 (codes "/disconnect")) visit ≡ true)
        ⊎ ((serve_all broker visit fresh_state).1.disconnected ≡ fresh_state.disconnected))
serve_all-signed_example = serve_all-signed broker visit fresh_state

cookies_given-le_example :
    cookies_given (serve_all broker visit fresh_state).0 ≤ uses_left fresh_state.consumed
cookies_given-le_example = cookies_given-le broker visit fresh_state

pages_shown-le_example :
    pages_shown (serve_all broker visit fresh_state).0
    ≤ launches (serve_all broker visit fresh_state).0 + pages_due broker fresh_state
pages_shown-le_example = pages_shown-le broker visit fresh_state

serve-Launched_example :
    Launched broker sign_in.now fresh_state (serve broker sign_in fresh_state).1
serve-Launched_example = serve-Launched broker sign_in fresh_state

connect-saved_example : saved_credentials broker (connect broker sign_in fresh_state).1.stored ≡ (
    if teq (get_value (codes "remember") typed) (codes "1")
    then some (typed_credentials typed)
    else none)
unfolding get_value find_value teq is_empty typed_credentials validate_credentials bad_text usable
    byte_len trim_space line_break has_char
connect-saved_example =
    connect-saved broker refl sign_in fresh_state typed [] refl refl refl refl refl refl refl refl

-- Docker runs the first four commands of a start and fails at the fifth, Guacamole.
abbrev sidecars : Runtime
sidecars = record {
  network = codes "n";
  guacd = codes "d";
  guacamole = codes "g";
  secret = codes "s";
  owner = codes "42";
  started_network = false;
  started_guacd = false;
  started_guacamole = false;
}

abbrev docker : Shell
docker = record { ran = []; answers = λ n. record { success = ltb n 4; stdout = []; stderr = [] } }

abbrev no_process : ℤ → Bool
no_process pid = false

failed_start :
    commands (after_start no_process sidecars docker).1.ran
    ≡ run_guacamole (codes "g") (codes "n") (codes "d") (codes "42") (codes "s")
      ∷ run_guacd (codes "d") (codes "n") (codes "42")
      ∷ create_network (codes "n") (codes "42")
      ∷ list_networks
      ∷ list_containers
      ∷ []
unfolding start cleanup_orphans clean_all_containers clean_all_networks clean_containers
    clean_networks fields filled split push_front is_empty make_network make_guacd make_guacamole
    find_port must run_docker mark
failed_start = refl

abbrev deaf_host : Surroundings
deaf_host = record {
  random = λ n. some (codes "5f");
  listens = none;
  opener = none;
  open_browser = true;
  alive = no_process;
  own_pid = codes "42";
}

start_session-Clean_example :
    (log : List (DockerCommand × Bool)) × Clean log (start_session deaf_host ssh_config docker)
start_session-Clean_example = start_session-Clean deaf_host ssh_config docker refl
