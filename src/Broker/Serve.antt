-- ===== src/Broker/Serve.antt =====
-- `ServeHTTP` of internal/localremote/session.go: the host, the link, the cookie and the route; and
-- a sequence of requests.
use wol.Prelude.{Bool, List, [], false, if◌then◌else◌, none, not, some, ◌&&◌, ◌||◌, ◌∷◌}
use wol.Broker.Handler.{close_from_browser, connect, consume, remote, serve_session}
use wol.Broker.Hosts.{valid_local_host}
use wol.Broker.Requests.{
  BrokerHandler, BrokerState, HttpRequest, Reply, Response, answer, find_value, message, not_found,
  proxied, ready,
}
use wol.Text.{Text, codes, has_prefix, teq}

module _ {V : Type 0} (b : BrokerHandler V) where
  unfoldable pub valid_cookie : HttpRequest → Bool
  valid_cookie r = elim (find_value (codes "wol_local_session") r.cookies) [
    | none ↦ false
    | some value ↦ teq value b.cookie_token
  ]

  unfoldable pub is_guacamole : Text → Bool
  is_guacamole path = has_prefix path (codes "/guacamole/") || teq path (codes "/guacamole")

  unfoldable pub route : HttpRequest → BrokerState V → Reply × BrokerState V
  route r s =
      if teq r.path (codes "/session")
      then serve_session b r s
      else if teq r.path (codes "/connect")
      then connect b r s
      else if teq r.path (codes "/remote")
      then remote b s
      else if teq r.path (codes "/disconnect")
      then close_from_browser b r s
      else if teq r.path (codes "/healthz")
      then (answer 200 ready, s)
      else if is_guacamole r.path
      then (answer 200 proxied, s)
      else (answer 404 not_found, s)

  unfoldable pub admitted : HttpRequest → BrokerState V → Reply × BrokerState V
  admitted r s =
      if has_prefix r.path (codes "/s/")
      then consume b r s
      else if not (valid_cookie r)
      then (answer 401 (message (codes "Local remote session is unavailable.")), s)
      else route r s

  -- The cases of `route` that precede the proxy's.
  unfoldable pub loosens : HttpRequest → Bool
  loosens r = not (has_prefix r.path (codes "/s/")) && valid_cookie r && is_guacamole r.path

  unfoldable pub serve : HttpRequest → BrokerState V → Response × BrokerState V
  serve r s =
      if not (valid_local_host b.ipv6 r.host b.expected_host)
      then (
        record {
          reply = answer 403 (message (codes "Invalid local session host."));
          policy_host = b.expected_host;
          unsafe_eval = false;
        },
        s,
      )
      else let (reply, s') = admitted r s in
        (record { reply = reply; policy_host = r.host; unsafe_eval = loosens r }, s')

  -- a sequence of requests
  unfoldable pub serve_all : List HttpRequest → BrokerState V → List Response × BrokerState V
  serve_all [] s = ([], s)
  serve_all (r ∷ rs) s =
      let (response, s') = serve r s in
      let (responses, s'') = serve_all rs s' in (response ∷ responses, s'')
