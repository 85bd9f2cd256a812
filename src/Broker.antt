-- ===== src/Broker.antt =====
-- internal/localremote: the session in the browser. Here are the configuration and the credentials
-- of session.go with their checks; the children are the vault, the host names, the launch token and
-- the broker that answers the browser.
pub mod Vaults
pub mod Hosts
pub mod Token
pub mod Pages
pub mod Requests
pub mod Handler
pub mod Serve
pub mod Gate
pub mod Link
pub mod Launch
pub mod Forms
pub mod Items
pub mod Secrets
pub mod SignIn
pub mod Remembered
pub mod Commands
pub mod Docker
pub mod Sidecars
pub mod Teardown
pub mod Start
pub mod Startup
use wol.Prelude.{
  Bool, Outcome, [], any, if◌then◌else◌, ltb, no_port, not, refuse_if, ℕ, ℤ, ◌&&◌, ◌==◌, ◌>>=◌,
  ◌>>◌, ◌||◌, ◌∷◌,
}
use wol.Text.{Text, byte_len, codes, has_char, is_empty, teq, trim_space}

-- The fields that the browser's session reads; the vault, the runner and the opener are apart.
pub record Config : Type 0 where
  pub name : Text
  pub protocol : Text
  pub host : Text
  pub port : ℤ
  pub username_hint : Text
  pub domain_hint : Text
  pub certificate_policy : Text

pub record Credentials : Type 0 where
  pub username : Text
  pub domain : Text
  pub password : Text

pub data ConfigError : Type 0 where
  unsupported_protocol invalid_port invalid_host invalid_hint invalid_policy misplaced_trust :
      ConfigError

pub data SignInError : Type 0 where
  invalid_username invalid_domain invalid_password username_required : SignInError

unfoldable pub browser_protocol : Text → Bool
browser_protocol protocol = any (teq protocol) (codes "rdp" ∷ codes "vnc" ∷ codes "ssh" ∷ [])

-- `strings.ContainsAny` with the characters of an address
unfoldable pub address_mark : ℕ → Bool
address_mark c = c == b'/' || c == 92 || c == b'@' || c == b'?' || c == b'#'

unfoldable pub line_break : ℕ → Bool
line_break c = c == 13 || c == 10 || c == 0

unfoldable pub bad_text : Text → Bool
bad_text t = ltb 128 (byte_len t) || any line_break t

unfoldable pub check_hint : Text → Outcome ConfigError (Unit {0})
check_hint hint = refuse_if (not (teq (trim_space hint) hint) || bad_text hint) invalid_hint

unfoldable pub policy_of : Config → Text
policy_of cfg = if is_empty cfg.certificate_policy then codes "strict" else cfg.certificate_policy

unfoldable pub check_policy : Text → Text → Outcome ConfigError (Unit {0})
check_policy protocol policy = do
  refuse_if (not (teq policy (codes "strict")) && not (teq policy (codes "trust-local")))
      invalid_policy
  refuse_if (teq policy (codes "trust-local") && not (teq protocol (codes "rdp"))) misplaced_trust

unfoldable pub validate_config : Config → Outcome ConfigError (Unit {0})
validate_config cfg = do
  refuse_if (not (browser_protocol cfg.protocol)) unsupported_protocol
  refuse_if (no_port cfg.port) invalid_port
  refuse_if
      (is_empty (trim_space cfg.host)
        || ltb 253 (byte_len (trim_space cfg.host))
        || any address_mark (trim_space cfg.host))
      invalid_host
  check_hint cfg.username_hint
  check_hint cfg.domain_hint
  check_policy cfg.protocol (policy_of cfg)

unfoldable pub validate_credentials : Text → Credentials → Outcome SignInError (Unit {0})
validate_credentials protocol c = do
  refuse_if (bad_text c.username) invalid_username
  refuse_if (bad_text c.domain) invalid_domain
  refuse_if (ltb 4096 (byte_len c.password) || has_char 0 c.password) invalid_password
  refuse_if (teq protocol (codes "ssh") && is_empty c.username) username_required
