-- ===== src/Broker/Forms.antt =====
-- What a request needs to change the vault, to end the session or to mint a launch token, in
-- internal/localremote.
use wol.Prelude.{
  Bool, List, [], any, arith, false, inr, none, refl, some, true, ℕ, ◌&&◌, ◌∷◌, ◌≡◌, ◌⊎◌,
}
use wol.Broker.Handler.{
  accept_form, begin_remote, close_from_browser, connect, consume, remote, serve_login_page,
  serve_session, sign_on, valid_form_token,
}
use wol.Broker.Hosts.{valid_local_host}
use wol.Broker.Requests.{BrokerHandler, BrokerState, HttpRequest, get_value}
use wol.Broker.Serve.{admitted, route, serve, serve_all, valid_cookie}
use wol.Text.{Text, codes, teq}

module _ {V : Type 0} (b : BrokerHandler V) where
  -- a POST from this host with the cookie, whose form of at most that many bytes has the form token
  unfoldable pub signed_post : ℕ → Text → HttpRequest → Bool
  signed_post limit path r =
      valid_local_host b.ipv6 r.host b.expected_host
      && valid_cookie b r
      && teq r.path path
      && teq r.method (codes "POST")
      && elim (r.form limit) [
        | none ↦ false
        | some form ↦ teq (get_value (codes "csrf") form) b.form_token
      ]

  serve_session-stored :
      (r : HttpRequest) (s : BrokerState V)
      → ((serve_session b r s).1.stored ≡ s.stored)
        × ((serve_session b r s).1.disconnected ≡ s.disconnected)
  unfolding serve_session serve_login_page begin_remote
  serve_session-stored r s = ground arith

  connect-disconnected :
      (r : HttpRequest) (s : BrokerState V) → (connect b r s).1.disconnected ≡ s.disconnected
  unfolding connect accept_form sign_on serve_login_page begin_remote
  connect-disconnected r s = ground arith

  connect-stored :
      (r : HttpRequest) (s : BrokerState V)
      → teq r.method (codes "POST") && elim (r.form 16384) [
        | none ↦ false
        | some form ↦ teq (get_value (codes "csrf") form) b.form_token
      ]
        ≡ false
      → (connect b r s).1.stored ≡ s.stored
  unfolding connect accept_form serve_login_page valid_form_token
  connect-stored r s h = ground arith

  close_from_browser-stored :
      (r : HttpRequest) (s : BrokerState V) → (close_from_browser b r s).1.stored ≡ s.stored
  unfolding close_from_browser
  close_from_browser-stored r s = ground arith

  close_from_browser-disconnected :
      (r : HttpRequest) (s : BrokerState V)
      → teq r.method (codes "POST") && elim (r.form 4096) [
        | none ↦ false
        | some form ↦ teq (get_value (codes "csrf") form) b.form_token
      ]
        ≡ false
      → (close_from_browser b r s).1.disconnected ≡ s.disconnected
  unfolding close_from_browser valid_form_token
  close_from_browser-disconnected r s h = ground arith

  remote-stored :
      (s : BrokerState V)
      → ((remote b s).1.stored ≡ s.stored) × ((remote b s).1.disconnected ≡ s.disconnected)
  unfolding remote
  remote-stored s = ground arith

  consume-stored :
      (r : HttpRequest) (s : BrokerState V)
      → ((consume b r s).1.stored ≡ s.stored) × ((consume b r s).1.disconnected ≡ s.disconnected)
  unfolding consume
  consume-stored r s = ground arith

  serve-stored :
      (r : HttpRequest) (s : BrokerState V)
      → signed_post 16384 (codes "/connect") r ≡ false
      → (serve b r s).1.stored ≡ s.stored
  unfolding serve admitted route signed_post
  serve-stored r s h = ground (
    arith,
    serve_session-stored r s,
    connect-stored r s,
    close_from_browser-stored r s,
    remote-stored s,
    consume-stored r s,
  )

  serve-disconnected :
      (r : HttpRequest) (s : BrokerState V)
      → signed_post 4096 (codes "/disconnect") r ≡ false
      → (serve b r s).1.disconnected ≡ s.disconnected
  unfolding serve admitted route signed_post
  serve-disconnected r s h = ground (
    arith,
    serve_session-stored r s,
    connect-disconnected r s,
    close_from_browser-disconnected r s,
    remote-stored s,
    consume-stored r s,
  )

  -- A sequence of requests changes what the vault keeps only if one of them is a POST to /connect
  -- from a host of this machine with the cookie and with the form token in a form of at most 16 KiB;
  -- and it ends the session only if one of them is such a POST to /disconnect, of at most 4 KiB.
  pub serve_all-signed :
      (rs : List HttpRequest) (s : BrokerState V)
      → ((any (signed_post 16384 (codes "/connect")) rs ≡ true)
          ⊎ ((serve_all b rs s).1.stored ≡ s.stored))
        × ((any (signed_post 4096 (codes "/disconnect")) rs ≡ true)
            ⊎ ((serve_all b rs s).1.disconnected ≡ s.disconnected))
  unfolding serve_all
  serve_all-signed [] s = (inr refl, inr refl)
  serve_all-signed (r ∷ rs) s =
      ground (arith, serve-stored r s, serve-disconnected r s, serve_all-signed rs (serve b r s).1)
