-- ===== src/Broker/Launch.antt =====
-- The launch tokens of internal/localremote: where they come from and how often they are shown.
use wol.Prelude.{
  Bool, List, [], arith, either_way, false, if◌then◌else◌, not, true, ℕ, ◌+◌, ◌∷◌, ◌≤◌,
}
use wol.Broker.Handler.{
  accept_form, begin_remote, close_from_browser, connect, consume, remote, serve_login_page,
  serve_session, sign_on,
}
use wol.Broker.Requests.{
  Body, BrokerHandler, BrokerState, HttpRequest, Reply, Response, answer, closed_page, empty_body,
  message, not_found, proxied, ready, redirect, session_page, sign_in_page,
}
use wol.Broker.Serve.{admitted, is_guacamole, route, serve, serve_all}
use wol.Text.{Text, codes, is_empty, teq}

unfoldable pub is_session_page : Body → Bool
is_session_page (message _) = false
is_session_page (sign_in_page _) = false
is_session_page (session_page _ _ _) = true
is_session_page closed_page = false
is_session_page ready = false
is_session_page proxied = false
is_session_page not_found = false
is_session_page empty_body = false

unfoldable pub one_if : Bool → ℕ
one_if test = if test then 1 else 0

-- the responses that show a session, and those that send the browser to one
unfoldable pub pages_shown : List Response → ℕ
unfolding one_if
pages_shown [] = 0
pages_shown (p ∷ ps) = one_if (is_session_page p.reply.body) + pages_shown ps

unfoldable pub is_launch : Reply → Bool
is_launch reply = teq reply.location (codes "/remote")

unfoldable pub launches : List Response → ℕ
unfolding one_if
launches [] = 0
launches (p ∷ ps) = one_if (is_launch p.reply) + launches ps

module _ {V : Type 0} (b : BrokerHandler V) where
  unfoldable pub pages_due : BrokerState V → ℕ
  unfolding one_if
  pages_due s = one_if (not (is_empty s.launch_token))

  -- A page takes a launch token, and only a launch brings one.
  Balanced : BrokerState V → Reply × BrokerState V → Type 0
  Balanced s (reply, t) =
      one_if (is_session_page reply.body) + pages_due t ≤ one_if (is_launch reply) + pages_due s

  serve_login_page-Balanced :
      (s : BrokerState V) (notice : Text) → Balanced s (serve_login_page b s notice)
  unfolding Balanced serve_login_page answer is_session_page is_launch one_if
  serve_login_page-Balanced s notice = ground arith

  serve_session-Balanced : (r : HttpRequest) (s : BrokerState V) → Balanced s (serve_session b r s)
  unfolding Balanced serve_session serve_login_page begin_remote answer redirect is_session_page
      is_launch teq one_if pages_due
  serve_session-Balanced r s = ground arith

  connect-Balanced : (r : HttpRequest) (s : BrokerState V) → Balanced s (connect b r s)
  unfolding Balanced connect accept_form sign_on serve_login_page begin_remote answer redirect
      is_session_page is_launch teq one_if pages_due
  connect-Balanced r s = ground arith

  close_from_browser-Balanced :
      (r : HttpRequest) (s : BrokerState V) → Balanced s (close_from_browser b r s)
  unfolding Balanced close_from_browser answer is_session_page is_launch one_if pages_due
  close_from_browser-Balanced r s = ground arith

  remote-Balanced : (s : BrokerState V) → Balanced s (remote b s)
  unfolding Balanced remote answer redirect is_session_page is_launch teq one_if pages_due is_empty
  remote-Balanced s = ground arith

  consume-Balanced : (r : HttpRequest) (s : BrokerState V) → Balanced s (consume b r s)
  unfolding Balanced consume answer redirect is_session_page is_launch teq one_if pages_due
  consume-Balanced r s = ground arith

  answered-Balanced :
      (r : HttpRequest) (s : BrokerState V)
      → Balanced s (
          if teq r.path (codes "/healthz")
          then (answer 200 ready, s)
          else if is_guacamole b r.path
          then (answer 200 proxied, s)
          else (answer 404 not_found, s))
  unfolding Balanced answer is_session_page is_launch one_if
  answered-Balanced r s = ground arith

  route-Balanced : (r : HttpRequest) (s : BrokerState V) → Balanced s (route b r s)
  unfolding route
  route-Balanced r s = either_way (Balanced s) _ (serve_session-Balanced r s) (
      either_way (Balanced s) _ (connect-Balanced r s) (
        either_way (Balanced s) _ (remote-Balanced s)
          (either_way (Balanced s) _ (close_from_browser-Balanced r s) (answered-Balanced r s))))

  serve-balance :
      (r : HttpRequest) (s : BrokerState V)
      → one_if (is_session_page (serve b r s).0.reply.body) + pages_due (serve b r s).1
        ≤ one_if (is_launch (serve b r s).0.reply) + pages_due s
  unfolding Balanced serve admitted answer is_session_page is_launch one_if
  serve-balance r s = ground (arith, route-Balanced r s, consume-Balanced r s)

  -- Over any sequence of requests the pages that show a session are at most as many as the
  -- responses that sent the browser to one, and one more if a launch token waited at first.
  pub pages_shown-le :
      (rs : List HttpRequest) (s : BrokerState V)
      → pages_shown (serve_all b rs s).0 ≤ launches (serve_all b rs s).0 + pages_due s
  unfolding serve_all pages_shown launches
  pages_shown-le [] s = omega arith
  pages_shown-le (r ∷ rs) s = omega (arith, serve-balance r s, pages_shown-le rs (serve b r s).1)
