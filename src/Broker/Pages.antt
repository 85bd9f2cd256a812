-- ===== src/Broker/Pages.antt =====
-- internal/localremote/page.go: what the sign-in page shows. The HTML around it is not modelled.
use wol.Prelude.{Bool, Option, [], err, false, if◌then◌else◌, none, ok, some, true, ℤ}
use wol.Broker.{Config, Credentials}
use wol.Broker.Vaults.{Vault, vault_key}
use wol.Text.{Text, codes, is_empty, to_lower, trim_space}

pub record LoginView : Type 0 where
  pub title : Text
  pub protocol : Text
  pub protocol_label : Text
  pub host : Text
  pub port : ℤ
  pub username : Text
  pub domain : Text
  pub csrf : Text
  pub error : Text
  pub can_remember : Bool
  pub saved : Bool
  pub password_hint : Text

unfoldable pub session_title : Config → Text
session_title cfg = let name = trim_space cfg.name in if is_empty name then cfg.host else name

unfoldable pub blank_view : (Text → Text) → Config → Bool → Text → Text → LoginView
blank_view to_upper cfg remember csrf message = record {
  title = session_title cfg;
  protocol = to_lower cfg.protocol;
  protocol_label = to_upper cfg.protocol;
  host = cfg.host;
  port = cfg.port;
  username = cfg.username_hint;
  domain = cfg.domain_hint;
  csrf = csrf;
  error = message;
  can_remember = remember;
  saved = false;
  password_hint = [];
}

unfoldable pub if_given : Text → Text → Text
if_given new old = if is_empty new then old else new

unfoldable pub saved_view : LoginView → Credentials → LoginView
saved_view view c = record view {
  saved = true;
  username = if_given c.username view.username;
  domain = if_given c.domain view.domain;
  password_hint = if is_empty c.password then [] else codes "Saved on this Mac";
}

-- The vault may be absent. `strings.ToUpper` is a parameter.
unfoldable pub login_view :
    {V : Type 0} → (Text → Text) → Config → Option (Vault V) → V → Text → Text → LoginView
login_view to_upper cfg none v csrf message = blank_view to_upper cfg false csrf message
login_view to_upper cfg (some vault) v csrf message =
    elim (vault.get v (vault_key cfg.protocol cfg.host cfg.port)) [
      | err _ ↦ blank_view to_upper cfg true csrf message
      | ok c ↦ saved_view (blank_view to_upper cfg true csrf message) c
    ]
