-- ===== src/Broker/Link.antt =====
-- The one-time link of internal/localremote hands the cookie out.
use wol.Prelude.{
  Bool, List, Option-cases, String, [], arith, either_way, false, if◌then◌else◌, inl, inr, none,
  not, refl, some, suc, true, ℕ, ◌∷◌, ◌≡◌, ◌≤◌, ◌⊎◌,
}
use wol.Broker.{Credentials}
use wol.Broker.Gate.{route-SameLink}
use wol.Broker.Handler.{
  accept_form, close_from_browser, connect, consume, remote, serve_login_page, serve_session,
  sign_on, valid_form_token,
}
use wol.Broker.Requests.{
  Body, BrokerHandler, BrokerState, HttpRequest, Reply, Response, answer, get_value, redirect,
}
use wol.Broker.Serve.{admitted, is_guacamole, route, serve, serve_all}
use wol.Text.{Text, codes, teq}

unfoldable pub cookies_given : List Response → ℕ
cookies_given [] = 0
cookies_given (p ∷ ps) = elim p.reply.cookie [
  | none ↦ cookies_given ps
  | some _ ↦ suc (cookies_given ps)
]

-- how often the link may still be used
unfoldable pub uses_left : Bool → ℕ
uses_left consumed = if consumed then 0 else 1

module _ {V : Type 0} (b : BrokerHandler V) where
  -- No handler but that of the link brings a cookie.
  NoCookie : Reply × BrokerState V → Type 0
  NoCookie out = out.0.cookie ≡ none

  answer-NoCookie :
      (status : ℕ) (body : Body) (s : BrokerState V) → NoCookie (answer status body, s)
  unfolding NoCookie answer
  answer-NoCookie status body s = refl

  serve_login_page-NoCookie :
      (s : BrokerState V) (notice : Text) → NoCookie (serve_login_page b s notice)
  unfolding NoCookie serve_login_page answer
  serve_login_page-NoCookie s notice = refl

  serve_session-NoCookie : (r : HttpRequest) (s : BrokerState V) → NoCookie (serve_session b r s)
  unfolding NoCookie serve_session serve_login_page answer redirect
  serve_session-NoCookie r s = ground arith

  sign_on-NoCookie :
      (now : ℕ) (keep : Bool) (c : Credentials) (s : BrokerState V)
      → NoCookie (sign_on b now keep c s)
  unfolding NoCookie sign_on serve_login_page answer redirect
  sign_on-NoCookie now keep c s = ground arith

  accept_form-NoCookie :
      (now : ℕ) (form : List (Text × Text)) (s : BrokerState V)
      → NoCookie (accept_form b now form s)
  unfolding accept_form
  accept_form-NoCookie now form s =
      either_way NoCookie (not (valid_form_token b (get_value (codes "csrf") form)))
        (answer-NoCookie _ _ s)
        (either_way NoCookie (teq (get_value (codes "action") form) (codes "forget"))
          (serve_login_page-NoCookie _ _) (sign_on-NoCookie now _ _ s))

  connect-NoCookie : (r : HttpRequest) (s : BrokerState V) → NoCookie (connect b r s)
  unfolding connect
  connect-NoCookie r s =
      either_way NoCookie (not (teq r.method (codes "POST"))) (answer-NoCookie _ _ s)
        (elim (Option-cases (r.form 16384)) [
          | inl unread ↦ rw unread (serve_login_page-NoCookie s _)
          | inr (form, filled) ↦ rw filled (accept_form-NoCookie r.now form s)
        ])

  close_from_browser-NoCookie :
      (r : HttpRequest) (s : BrokerState V) → NoCookie (close_from_browser b r s)
  unfolding NoCookie close_from_browser answer
  close_from_browser-NoCookie r s = ground arith

  remote-NoCookie : (s : BrokerState V) → NoCookie (remote b s)
  unfolding NoCookie remote answer redirect
  remote-NoCookie s = ground arith

  route-NoCookie : (r : HttpRequest) (s : BrokerState V) → NoCookie (route b r s)
  unfolding route
  route-NoCookie r s =
      let at = λ (path : String). teq r.path (codes path) in
      either_way NoCookie (at "/session") (serve_session-NoCookie r s) (
        either_way NoCookie (at "/connect") (connect-NoCookie r s) (
          either_way NoCookie (at "/remote") (remote-NoCookie s) (
            either_way NoCookie (at "/disconnect") (close_from_browser-NoCookie r s) (
              either_way NoCookie (at "/healthz") (answer-NoCookie _ _ s) (
                either_way NoCookie (is_guacamole b r.path) (answer-NoCookie _ _ s)
                  (answer-NoCookie _ _ s))))))

  route-cookie : (r : HttpRequest) (s : BrokerState V) → (route b r s).0.cookie ≡ none
  unfolding NoCookie
  route-cookie r s = route-NoCookie r s

  -- A reply brings a cookie only when the link is used up by it.
  abbrev UsesUp : Reply × BrokerState V → BrokerState V → Type 0
  UsesUp out s =
      (out.0.cookie ≡ none) × (out.1.consumed ≡ s.consumed)
      ⊎ (s.consumed ≡ false) × (out.1.consumed ≡ true)

  consume-UsesUp : (r : HttpRequest) (s : BrokerState V) → UsesUp (consume b r s) s
  unfolding consume answer redirect
  consume-UsesUp r s = ground arith

  admitted-UsesUp : (r : HttpRequest) (s : BrokerState V) → UsesUp (admitted b r s) s
  unfolding admitted answer
  admitted-UsesUp r s = ground (arith, consume-UsesUp r s, route-cookie r s, route-SameLink b r s)

  serve-uses :
      (r : HttpRequest) (s : BrokerState V)
      → ((serve b r s).0.reply.cookie ≡ none) × ((serve b r s).1.consumed ≡ s.consumed)
        ⊎ (s.consumed ≡ false) × ((serve b r s).1.consumed ≡ true)
  unfolding serve answer
  serve-uses r s = ground (arith, admitted-UsesUp r s)

  -- Whatever requests come in whatever order, from a broker whose link is not used up yet at most
  -- one response brings a cookie, and none from a broker whose link is used up.
  pub cookies_given-le :
      (rs : List HttpRequest) (s : BrokerState V)
      → cookies_given (serve_all b rs s).0 ≤ uses_left s.consumed
  unfolding serve_all cookies_given uses_left
  cookies_given-le [] s = omega arith
  cookies_given-le (r ∷ rs) s = ground (arith, serve-uses r s, cookies_given-le rs (serve b r s).1)
