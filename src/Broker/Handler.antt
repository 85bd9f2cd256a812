-- ===== src/Broker/Handler.antt =====
-- `brokerHandler` of internal/localremote/session.go: the answers to the browser. A handler takes a
-- request and the state, and returns the reply with the new state. The source holds a lock where
-- it touches the link or the launch token; here each request is one step. What the proxy sends, and
-- the headers that do not depend on the request, are not modelled. The comparison in constant time
-- is a comparison.
use wol.Prelude.{
  Bool, List, Option, Outcome, [], err, if◌then◌else◌, none, not, ok, some, true, ℕ, ◌&&◌,
}
use wol.Broker.{Credentials, validate_credentials}
use wol.Broker.Pages.{login_view, session_title}
use wol.Broker.Requests.{
  BeginError, BrokerHandler, BrokerState, HttpRequest, Reply, answer, bad_sign_in, closed_page,
  completed, get_value, message, method_refused, no_token, redirect, session_page, sign_in_message,
  sign_in_page, typed_credentials, usable,
}
use wol.Broker.Token.{build_auth_token}
use wol.Broker.Vaults.{vault_key}
use wol.Text.{Text, codes, is_empty, teq, trim_prefix}

module _ {V : Type 0} (b : BrokerHandler V) where
  unfoldable pub stored_key : Text
  stored_key = vault_key b.config.protocol b.config.host b.config.port

  unfoldable pub serve_login_page : BrokerState V → Text → Reply × BrokerState V
  serve_login_page s notice = (
    answer 200 (sign_in_page (login_view b.to_upper b.config b.vault s.stored b.form_token notice)),
    s,
  )

  unfoldable pub valid_form_token : Text → Bool
  valid_form_token presented = teq presented b.form_token

  unfoldable pub saved_credentials : V → Option Credentials
  saved_credentials v = elim b.vault [
    | none ↦ none
    | some vault ↦ elim (vault.get v stored_key) [
      | err _ ↦ none
      | ok c ↦ elim (validate_credentials b.config.protocol c) [
        | err _ ↦ none
        | ok _ ↦ if usable b.config.protocol c then some c else none
      ]
    ]
  ]

  unfoldable pub begin_remote : Credentials → ℕ → BrokerState V → Outcome BeginError (BrokerState V)
  begin_remote c now s = elim (validate_credentials b.config.protocol c) [
    | err e ↦ err (bad_sign_in e)
    | ok _ ↦ elim (build_auth_token b.crypto b.key b.config c now) [
      | err e ↦ err (no_token e)
      | ok token ↦ ok (record s { launch_token = token })
    ]
  ]

  unfoldable pub serve_session : HttpRequest → BrokerState V → Reply × BrokerState V
  serve_session r s =
      if teq (get_value (codes "manual") r.query) (codes "1")
      then serve_login_page s []
      else elim (saved_credentials s.stored) [
        | none ↦ serve_login_page s []
        | some c ↦ elim (begin_remote c r.now s) [
          | err _ ↦
              serve_login_page s (codes "Saved sign-in could not be used. Please sign in again.")
          | ok s' ↦ (redirect (codes "/remote"), s')
        ]
      ]

  unfoldable pub close_from_browser : HttpRequest → BrokerState V → Reply × BrokerState V
  close_from_browser r s =
      let refused : Reply = answer 403 (message (codes "Invalid local disconnect token.")) in
      if not (teq r.method (codes "POST")) then (method_refused, s) else elim (r.form 4096) [
        | none ↦ (refused, s)
        | some form ↦
            if valid_form_token (get_value (codes "csrf") form)
            then (answer 200 closed_page, record s { disconnected = true })
            else (refused, s)
      ]

  -- an empty password asks for the saved one
  unfoldable pub completed_credentials : V → Credentials → Credentials
  completed_credentials v typed = elim b.vault [
    | none ↦ typed
    | some vault ↦
        if not (is_empty typed.password)
        then typed
        else elim (vault.get v stored_key) [ err _ ↦ typed | ok saved ↦ completed typed saved ]
  ]

  unfoldable pub forget : V → V
  forget v = elim b.vault [ none ↦ v | some vault ↦ (vault.delete v stored_key).1 ]

  unfoldable pub remember : Bool → Credentials → V → V
  remember keep c v = elim b.vault [
    | none ↦ v
    | some vault ↦ if keep then (vault.put v stored_key c).1 else (vault.delete v stored_key).1
  ]

  unfoldable pub sign_on : ℕ → Bool → Credentials → BrokerState V → Reply × BrokerState V
  sign_on now keep c s = elim (validate_credentials b.config.protocol c) [
    | err e ↦ serve_login_page s (sign_in_message e)
    | ok _ ↦
        let s' = record s { stored = remember keep c s.stored } in
        elim (begin_remote c now s') [
          | err _ ↦
              (answer 500 (message (codes "Unable to prepare the encrypted local session.")), s')
          | ok s'' ↦ (redirect (codes "/remote"), s'')
        ]
  ]

  unfoldable pub accept_form : ℕ → List (Text × Text) → BrokerState V → Reply × BrokerState V
  accept_form now form s =
      if not (valid_form_token (get_value (codes "csrf") form))
      then (answer 403 (message (codes "Invalid local sign-in token.")), s)
      else if teq (get_value (codes "action") form) (codes "forget")
      then serve_login_page (record s { stored = forget s.stored }) (codes "Saved sign-in removed.")
      else sign_on now (teq (get_value (codes "remember") form) (codes "1"))
          (completed_credentials s.stored (typed_credentials form)) s

  unfoldable pub connect : HttpRequest → BrokerState V → Reply × BrokerState V
  connect r s =
      if not (teq r.method (codes "POST")) then (method_refused, s) else elim (r.form 16384) [
        | none ↦ serve_login_page s (codes "Could not read the credentials. Please try again.")
        | some form ↦ accept_form r.now form s
      ]

  unfoldable pub remote : BrokerState V → Reply × BrokerState V
  remote s =
      if is_empty s.launch_token
      then (redirect (codes "/session"), record s { launch_token = [] })
      else (
        answer 200 (session_page s.launch_token b.form_token (session_title b.config)),
        record s { launch_token = [] },
      )

  unfoldable pub consume : HttpRequest → BrokerState V → Reply × BrokerState V
  consume r s =
      if not (teq r.method (codes "GET"))
      then (method_refused, s)
      else if not s.consumed && teq (trim_prefix r.path (codes "/s/")) s.one_time_token
      then (
        record (redirect (codes "/session")) { cookie = some b.cookie_token },
        record s { consumed = true; one_time_token = [] },
      )
      else (answer 410 (message (codes "This one-time session link has expired.")), s)
