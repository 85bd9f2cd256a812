-- ===== src/Broker/Gate.antt =====
-- Who passes the broker of internal/localremote: the one-time link and the cookie.
use wol.Prelude.{
  Bool, Bool-cases, List, [], ap, arith, drop, false, if◌then◌else◌, inl, inr, leb, length, ok,
  refl, true, ℕ, ◌&&◌, ◌++◌, ◌||◌, ◌∙◌, ◌∷◌, ◌≡◌, ◌≤◌, ◌⊎◌,
}
use wol.Broker.{Credentials}
use wol.Broker.Handler.{
  accept_form, begin_remote, close_from_browser, connect, consume, remote, serve_login_page,
  serve_session, sign_on,
}
use wol.Broker.Requests.{BrokerHandler, BrokerState, HttpRequest, answer}
use wol.Broker.Serve.{admitted, route, serve, serve_all, valid_cookie}
use wol.Text.{Text, codes, has_prefix, teq, trim_prefix}
use wol.Text.Laws.{teq_iff}

prefix_drop : (s p : Text) → has_prefix s p ≡ true → s ≡ p ++ drop (length p) s
unfolding has_prefix
prefix_drop s [] h = refl
prefix_drop [] (c ∷ p) h = cc
prefix_drop (a ∷ s) (c ∷ p) h = ground (arith, prefix_drop s p)

-- A text that begins with a prefix is the prefix and what the trim leaves.
pub trim_prefix-append : (s p t : Text) → has_prefix s p ≡ true → trim_prefix s p ≡ t → s ≡ p ++ t
unfolding trim_prefix
trim_prefix-append s p t h e =
    let dropped : drop (length p) s ≡ t = rw (h, trim_prefix) at e in
    prefix_drop s p h ∙ ap (λ (r : Text). p ++ r) dropped

module _ {V : Type 0} (b : BrokerHandler V) where
  -- a request with the cookie or with the link of a token
  unfoldable pub insider : Text → HttpRequest → Bool
  insider token r = valid_cookie b r || teq r.path (codes "/s/" ++ token)

  unfoldable pub insiders : Text → List HttpRequest → List HttpRequest
  insiders token [] = []
  insiders token (r ∷ rs) =
      let rest = insiders token rs in if insider token r then r ∷ rest else rest

  -- The link is used up, or is the one of the token.
  abbrev pub Linked : Text → BrokerState V → Type 0
  Linked token s = (s.consumed ≡ true) ⊎ (s.one_time_token ≡ token)

  -- The link's fields are the link's alone.
  abbrev pub SameLink : BrokerState V → BrokerState V → Type 0
  SameLink s t = (t.consumed ≡ s.consumed) × (t.one_time_token ≡ s.one_time_token)

  begin_remote-SameLink :
      (c : Credentials) (now : ℕ) (s t : BrokerState V)
      → begin_remote b c now s ≡ ok t
      → SameLink s t
  unfolding begin_remote
  begin_remote-SameLink c now s t h = ground arith

  serve_session-SameLink :
      (r : HttpRequest) (s : BrokerState V) → SameLink s (serve_session b r s).1
  unfolding serve_session serve_login_page begin_remote
  serve_session-SameLink r s = ground arith

  connect-SameLink : (r : HttpRequest) (s : BrokerState V) → SameLink s (connect b r s).1
  unfolding connect accept_form sign_on serve_login_page begin_remote
  connect-SameLink r s = ground arith

  close_from_browser-SameLink :
      (r : HttpRequest) (s : BrokerState V) → SameLink s (close_from_browser b r s).1
  unfolding close_from_browser
  close_from_browser-SameLink r s = ground arith

  remote-SameLink : (s : BrokerState V) → SameLink s (remote b s).1
  unfolding remote
  remote-SameLink s = ground arith

  pub route-SameLink : (r : HttpRequest) (s : BrokerState V) → SameLink s (route b r s).1
  unfolding route
  route-SameLink r s = ground (
    arith,
    serve_session-SameLink r s,
    connect-SameLink r s,
    close_from_browser-SameLink r s,
    remote-SameLink s,
  )

  consume-Linked :
      (token : Text) (r : HttpRequest) (s : BrokerState V)
      → Linked token s
      → Linked token (consume b r s).1
  unfolding consume
  consume-Linked token r s h = ground arith

  admitted-Linked :
      (token : Text) (r : HttpRequest) (s : BrokerState V)
      → Linked token s
      → Linked token (admitted b r s).1
  unfolding admitted
  admitted-Linked token r s h = ground (arith, consume-Linked token r s, route-SameLink r s)

  pub serve-Linked :
      (token : Text) (r : HttpRequest) (s : BrokerState V)
      → Linked token s
      → Linked token (serve b r s).1
  unfolding serve
  serve-Linked token r s h = ground (arith, admitted-Linked token r s)

  -- A request that neither holds the cookie nor names the link.
  consume-outsider :
      (token : Text) (r : HttpRequest) (s : BrokerState V)
      → Linked token s
      → has_prefix r.path (codes "/s/") ≡ true
      → teq r.path (codes "/s/" ++ token) ≡ false
      → ((consume b r s).1 ≡ s) × (400 ≤ (consume b r s).0.status)
  unfolding consume answer
  consume-outsider token r s h starts other = ground (
    arith,
    h,
    teq_iff r.path (codes "/s/" ++ token),
    teq_iff (trim_prefix r.path (codes "/s/")) s.one_time_token,
    trim_prefix-append r.path (codes "/s/") token,
  )

  pub serve-outsider :
      (token : Text) (r : HttpRequest) (s : BrokerState V)
      → Linked token s
      → insider token r ≡ false
      → ((serve b r s).1 ≡ s) × (400 ≤ (serve b r s).0.reply.status)
  unfolding serve admitted insider answer
  serve-outsider token r s h out = ground (arith, consume-outsider token r s)

  -- whether each request of a sequence that comes from outside is refused where it comes
  unfoldable pub outsiders_refused : Text → List HttpRequest → BrokerState V → Bool
  outsiders_refused token [] s = true
  outsiders_refused token (r ∷ rs) s =
      let (response, s') = serve b r s in
      (insider token r || leb 400 response.reply.status) && outsiders_refused token rs s'

  -- Requests without the cookie and without the link are refused with a status of 400 or more, each
  -- of them wherever it comes in a sequence, and the state after the whole sequence is the state
  -- after the other requests alone. "The link" is the one of a given token; the broker's own link
  -- is that one, or it is used up already.
  pub serve_all-insiders :
      (token : Text) (rs : List HttpRequest) (s : BrokerState V)
      → Linked token s
      → ((serve_all b rs s).1 ≡ (serve_all b (insiders token rs) s).1)
        × (outsiders_refused token rs s ≡ true)
  unfolding serve_all insiders outsiders_refused
  serve_all-insiders token [] s h = (refl, refl)
  serve_all-insiders token (r ∷ rs) s h =
      let rest = serve_all-insiders token rs (serve b r s).1 (serve-Linked token r s h) in
      elim (Bool-cases (insider token r)) [
        | inl inside ↦ rw inside (rest.0, rest.1)
        | inr outside ↦
            let (same, status) = serve-outsider token r s h outside in
            rw outside (
              rest.0 ∙ ap (λ t. (serve_all b (insiders token rs) t).1) same,
              ground (arith, status, rest.1),
            )
      ]
