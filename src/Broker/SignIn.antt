-- ===== src/Broker/SignIn.antt =====
-- The sign-in of internal/localremote: what its page shows, and what its launch tokens seal.
use wol.Prelude.{
  Bool, Bool-cases, List, Option-cases, Outcome-cases, String, [], arith, either_way, false, inl,
  inr, not, ok, refl, some, ℕ, ◌≡◌,
}
use wol.Broker.{Config, Credentials, validate_credentials}
use wol.Broker.Handler.{
  accept_form, begin_remote, close_from_browser, completed_credentials, connect, consume, forget,
  remember, remote, saved_credentials, serve_login_page, serve_session, sign_on, valid_form_token,
}
use wol.Broker.Hosts.{valid_local_host}
use wol.Broker.Pages.{login_view, saved_view}
use wol.Broker.Requests.{
  BrokerHandler, BrokerState, HttpRequest, Reply, get_value, typed_credentials,
}
use wol.Broker.Serve.{admitted, is_guacamole, route, serve, valid_cookie}
use wol.Broker.Token.{build_auth_token}
use wol.Broker.Vaults.{Vault, vault_key}
use wol.Store.Rules.{failed}
use wol.Text.{Text, codes, has_prefix, is_empty, teq}

-- The page that asks for a sign-in does not depend on the saved password, only on whether there is
-- one: two vaults whose saved sign-ins differ in their passwords, none of them empty, give the
-- same page.
pub login_view-password :
    {V : Type 0} (to_upper : Text → Text) (cfg : Config) (vault : Vault V) (v w : V)
    (c : Credentials) (password csrf notice : Text)
    → vault.get v (vault_key cfg.protocol cfg.host cfg.port) ≡ ok c
    → vault.get w (vault_key cfg.protocol cfg.host cfg.port) ≡ ok (record c { password = password })
    → is_empty c.password ≡ false
    → is_empty password ≡ false
    → login_view to_upper cfg (some vault) v csrf notice
      ≡ login_view to_upper cfg (some vault) w csrf notice
unfolding login_view saved_view
login_view-password to_upper cfg vault v w c password csrf notice hv hw full full' = ground arith

module _ {V : Type 0} (b : BrokerHandler V) where
  -- the token seals credentials that pass the check, at that time
  abbrev pub Seals : ℕ → Text → Type 0
  Seals now token =
      (c : Credentials) × (validate_credentials b.config.protocol c ≡ ok tt)
      × (build_auth_token b.crypto b.key b.config c now ≡ ok token)

  -- What a request made of a launch token.
  pub data Launched (now : ℕ) (s t : BrokerState V) : Type 0 where
    left_alone : t.launch_token ≡ s.launch_token → Launched now s t
    taken : t.launch_token ≡ [] → Launched now s t
    sealed : Seals now t.launch_token → Launched now s t

  begin_remote-Seals :
      (c : Credentials) (now : ℕ) (s t : BrokerState V)
      → begin_remote b c now s ≡ ok t
      → Seals now t.launch_token
  unfolding begin_remote
  begin_remote-Seals c now s t h = elim (Outcome-cases (validate_credentials b.config.protocol c)) [
    | inl (u, good) ↦ elim (Outcome-cases (build_auth_token b.crypto b.key b.config c now)) [
      | inl (token, made) ↦ (c, good, ground (arith, h, good, made))
      | inr (e, failed) ↦ absurd (ground (arith, h, good, failed))
    ]
    | inr (e, bad) ↦ absurd (ground (arith, h, bad))
  ]

  Leaves : ℕ → BrokerState V → Reply × BrokerState V → Type 0
  Leaves now s out = Launched now s out.1

  unchanged : (now : ℕ) (s : BrokerState V) (reply : Reply) → Leaves now s (reply, s)
  unfolding Leaves
  unchanged now s reply = left_alone refl

  forgotten :
      (now : ℕ) (s : BrokerState V)
      → Leaves now s (
          serve_login_page b
            (record s { stored = forget b s.stored })
            (codes "Saved sign-in removed."))
  unfolding Leaves serve_login_page
  forgotten now s = left_alone refl

  serve_session-Leaves :
      (r : HttpRequest) (s : BrokerState V) → Leaves r.now s (serve_session b r s)
  unfolding serve_session Leaves serve_login_page
  serve_session-Leaves r s =
      elim (Bool-cases (teq (get_value (codes "manual") r.query) (codes "1"))) [
        | inl manual ↦ rw (manual, serve_session) (left_alone refl)
        | inr auto ↦ elim (Option-cases (saved_credentials b s.stored)) [
          | inl none_saved ↦ rw (auto, none_saved, serve_session) (left_alone refl)
          | inr (c, found) ↦ elim (Outcome-cases (begin_remote b c r.now s)) [
            | inl (t, begun) ↦
                rw (auto, found, begun, serve_session)
                  (sealed (begin_remote-Seals c r.now s t begun))
            | inr (e, failed) ↦ rw (auto, found, failed, serve_session) (left_alone refl)
          ]
        ]
      ]

  sign_on-Leaves :
      (now : ℕ) (keep : Bool) (c : Credentials) (s : BrokerState V)
      → Leaves now s (sign_on b now keep c s)
  unfolding sign_on Leaves serve_login_page
  sign_on-Leaves now keep c s =
      let s' = record s { stored = remember b keep c s.stored } in
      elim (Outcome-cases (validate_credentials b.config.protocol c)) [
        | inr (e, bad) ↦ rw (bad, sign_on) (left_alone refl)
        | inl (u, good) ↦ elim (Outcome-cases (begin_remote b c now s')) [
          | inl (t, begun) ↦
              rw (good, begun, sign_on) (sealed (begin_remote-Seals c now s' t begun))
          | inr (e, failed) ↦ rw (good, failed, sign_on) (left_alone refl)
        ]
      ]

  accept_form-Leaves :
      (now : ℕ) (form : List (Text × Text)) (s : BrokerState V)
      → Leaves now s (accept_form b now form s)
  unfolding accept_form
  accept_form-Leaves now form s =
      let P = Leaves now s in
      either_way P (not (valid_form_token b (get_value (codes "csrf") form))) (unchanged now s _) (
        either_way P (teq (get_value (codes "action") form) (codes "forget")) (forgotten now s) (
          sign_on-Leaves now (teq (get_value (codes "remember") form) (codes "1"))
            (completed_credentials b s.stored (typed_credentials form)) s))

  connect-Leaves : (r : HttpRequest) (s : BrokerState V) → Leaves r.now s (connect b r s)
  unfolding connect serve_login_page
  connect-Leaves r s =
      either_way (Leaves r.now s) (not (teq r.method (codes "POST"))) (unchanged r.now s _)
        (elim (Option-cases (r.form 16384)) [
          | inl unread ↦ rw unread (unchanged r.now s _)
          | inr (form, read) ↦ rw read (accept_form-Leaves r.now form s)
        ])

  close_from_browser-Leaves :
      (r : HttpRequest) (s : BrokerState V) → Leaves r.now s (close_from_browser b r s)
  unfolding close_from_browser Leaves
  close_from_browser-Leaves r s = left_alone (ground arith)

  remote-Leaves : (now : ℕ) (s : BrokerState V) → Leaves now s (remote b s)
  unfolding remote Leaves
  remote-Leaves now s = taken (ground arith)

  consume-Leaves : (r : HttpRequest) (s : BrokerState V) → Leaves r.now s (consume b r s)
  unfolding consume Leaves
  consume-Leaves r s = left_alone (ground arith)

  route-Leaves : (r : HttpRequest) (s : BrokerState V) → Leaves r.now s (route b r s)
  unfolding route
  route-Leaves r s =
      let P = Leaves r.now s in
      let at = λ (path : String). teq r.path (codes path) in
      either_way P (at "/session") (serve_session-Leaves r s) (
        either_way P (at "/connect") (connect-Leaves r s) (
          either_way P (at "/remote") (remote-Leaves r.now s) (
            either_way P (at "/disconnect") (close_from_browser-Leaves r s) (
              either_way P (at "/healthz") (unchanged r.now s _) (
                either_way P (is_guacamole b r.path) (unchanged r.now s _)
                  (unchanged r.now s _))))))

  admitted-Leaves : (r : HttpRequest) (s : BrokerState V) → Leaves r.now s (admitted b r s)
  unfolding admitted
  admitted-Leaves r s =
      let P = Leaves r.now s in
      either_way P (has_prefix r.path (codes "/s/")) (consume-Leaves r s)
        (either_way P (not (valid_cookie b r)) (unchanged r.now s _) (route-Leaves r s))

  -- A request leaves the launch token, empties it, or makes it one that seals credentials which
  -- pass the check on sign-ins, built at the time of the request.
  pub serve-Launched : (r : HttpRequest) (s : BrokerState V) → Launched r.now s (serve b r s).1
  unfolding serve Leaves
  serve-Launched r s = elim (Bool-cases (valid_local_host b.ipv6 r.host b.expected_host)) [
    | inl local ↦ rw (local, serve) (admitted-Leaves r s)
    | inr foreign ↦ rw (foreign, serve) (left_alone refl)
  ]
