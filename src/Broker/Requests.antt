-- ===== src/Broker/Requests.antt =====
-- Requests and replies of the broker of internal/localremote/session.go, its state, and what it
-- reads from a form.
use wol.Prelude.{Bool, List, Option, [], if◌then◌else◌, none, not, some, ℕ, ◌&&◌, ◌∷◌}
use wol.Broker.{
  Config, Credentials, SignInError, invalid_domain, invalid_password, invalid_username,
  username_required,
}
use wol.Broker.Pages.{LoginView, if_given}
use wol.Broker.Token.{Crypto, TokenError}
use wol.Broker.Vaults.{Vault}
use wol.Net.{Ip}
use wol.Text.{Text, codes, is_empty, teq, trim_space}

pub record HttpRequest : Type 0 where
  pub method : Text
  pub host : Text
  pub path : Text
  pub cookies : List (Text × Text)
  pub query : List (Text × Text)
  -- what `ParseForm` reads from a body of at most that many bytes
  pub form : ℕ → Option (List (Text × Text))
  -- the clock, in milliseconds
  pub now : ℕ

pub data Body : Type 0 where
  message : Text → Body
  sign_in_page : LoginView → Body
  session_page : (launch_token csrf title : Text) → Body
  closed_page ready proxied not_found empty_body : Body

pub record Reply : Type 0 where
  pub status : ℕ
  pub body : Body
  pub location : Text
  pub cookie : Option Text

-- the reply with the host and the sources of scripts that the security headers name
pub record Response : Type 0 where
  pub reply : Reply
  pub policy_host : Text
  pub unsafe_eval : Bool

-- The fields that no request changes; the vault may be absent.
pub record BrokerHandler (V : Type 0) : Type 0 where
  pub expected_host : Text
  pub cookie_token : Text
  pub form_token : Text
  pub config : Config
  pub vault : Option (Vault V)
  pub key : List ℕ
  pub crypto : Crypto
  pub ipv6 : Text → Option Ip
  pub to_upper : Text → Text

-- The fields that requests change, and what the vault keeps.
pub record BrokerState (V : Type 0) : Type 0 where
  pub one_time_token : Text
  pub consumed : Bool
  pub launch_token : Text
  pub disconnected : Bool
  pub stored : V

pub data BeginError : Type 0 where
  bad_sign_in : SignInError → BeginError
  no_token : TokenError → BeginError

unfoldable pub find_value : Text → List (Text × Text) → Option Text
find_value name [] = none
find_value name ((k, v) ∷ values) = if teq k name then some v else find_value name values

-- `url.Values.Get`
unfoldable pub get_value : Text → List (Text × Text) → Text
get_value name values = elim (find_value name values) [ none ↦ [] | some v ↦ v ]

unfoldable pub answer : ℕ → Body → Reply
answer status body = record { status = status; body = body; location = []; cookie = none }

unfoldable pub redirect : Text → Reply
redirect location = record { status = 303; body = empty_body; location = location; cookie = none }

abbrev pub method_refused : Reply
method_refused = answer 405 (message (codes "Method not allowed."))

unfoldable pub sign_in_message : SignInError → Text
sign_in_message invalid_username = codes "Username is invalid."
sign_in_message invalid_domain = codes "Domain is invalid."
sign_in_message invalid_password = codes "Password is invalid."
sign_in_message username_required = codes "SSH requires a username."

unfoldable pub usable : Text → Credentials → Bool
usable protocol c =
    if teq protocol (codes "ssh")
    then not (is_empty c.username)
    else if teq protocol (codes "vnc")
    then not (is_empty c.password)
    else not (is_empty c.username) && not (is_empty c.password)

unfoldable pub typed_credentials : List (Text × Text) → Credentials
typed_credentials form = record {
  username = trim_space (get_value (codes "username") form);
  domain = trim_space (get_value (codes "domain") form);
  password = get_value (codes "password") form;
}

unfoldable pub completed : Credentials → Credentials → Credentials
completed typed saved = record {
  username = if_given typed.username saved.username;
  domain = if_given typed.domain saved.domain;
  password = saved.password;
}
