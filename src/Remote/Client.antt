-- ===== src/Remote/Client.antt =====
-- server.go: newSafeClient, the HTTP client of the fetches and deliveries, with the guards it sets on
-- the redirects of net/http and on the addresses that the dialer connects to.
pub mod Hops
pub mod Whole
use activity_pub_gw.Base.{
  ℕ, zero, suc, Bool, List, [], ◌∷◌, ◌++◌, Option, none, some, not, leb, length,
}
use activity_pub_gw.Base.Result.{Result, ok, err, guard, or_fail, ◌>>=◌, ◌>>◌}
use activity_pub_gw.Text.{Str}
use activity_pub_gw.Remote.{Gateway, FetchError, is_blocked_literal, validate_remote_url}

-- maxRedirects.
abbrev pub max_redirects : ℕ
max_redirects = 5

-- A request that the client has sent: its URL, and the address it connected to.
pub record Hop : Type 0 where
  pub url : Str
  pub address : Str

-- What a server makes of a request: a status with a body (none is a failed read), a redirect, or a
-- broken connection.
pub data Reply : Type 0 where
  answers : ℕ → Option Str → Reply
  redirects : Str → Reply
  breaks : Reply

-- The network: the address that a URL's host resolves to, net.SplitHostPort down to the host, and the
-- servers.
pub record Net : Type 0 where
  pub resolve : Str → Option Str
  pub split_host_port : Str → Option Str
  pub serve : Hop → Reply

pub data DoError : Type 0 where
  no_address bad_address blocked_address broken too_many_redirects : DoError
  bad_redirect : FetchError → DoError

-- The requests sent, in order, and what the client gives; none while the chain goes on.
abbrev pub Chain : Type 0
Chain = Option (List Hop × Result DoError (ℕ × Option Str))

-- The error of a refused redirect.
refused : Result FetchError (Unit {0}) → Result DoError (Unit {0})
refused (ok _) = ok tt
refused (err e) = err (bad_redirect e)

module _ (g : Gateway) (net : Net) where
  -- The dialer's Control, on the address it is about to connect to.
  unfoldable pub dial_control : Str → Result DoError (Unit {0})
  dial_control address = do
    host ← or_fail (net.split_host_port address) bad_address
    guard (not (is_blocked_literal (g.parse_addr host))) blocked_address

  -- CheckRedirect, on the requests sent so far and the target of the redirect.
  unfoldable pub check_redirect : List Hop → Str → Result DoError (Unit {0})
  unfolding refused
  check_redirect via target = do
    guard (not (leb max_redirects (length via))) too_many_redirects
    refused (validate_remote_url g target)

  module _ (next : List Hop → Str → Chain) where
    on_redirect : List Hop → Str → Result DoError (Unit {0}) → Chain
    on_redirect via target (err e) = some (via, err e)
    on_redirect via target (ok _) = next via target

    on_reply : List Hop → Reply → Chain
    on_reply via (answers status body) = some (via, ok (status, body))
    on_reply via (redirects target) = on_redirect via target (check_redirect via target)
    on_reply via breaks = some (via, err broken)

    on_dial : List Hop → Hop → Result DoError (Unit {0}) → Chain
    on_dial via hop (err e) = some (via, err e)
    on_dial via hop (ok _) = let sent = via ++ (hop ∷ []) in on_reply sent (net.serve hop)

    -- One request of the client behind those of `via`.
    on_address : List Hop → Str → Option Str → Chain
    on_address via url none = some (via, err no_address)
    on_address via url (some a) = on_dial via (record { url = url; address = a }) (dial_control a)

  -- The loop of http.Client.Do, on fuel.
  unfoldable pub follow_redirects : ℕ → List Hop → Str → Chain
  unfolding on_redirect on_reply on_dial on_address
  follow_redirects zero via url = none
  follow_redirects (suc n) via url = on_address (follow_redirects n) via url (net.resolve url)

  -- g.client.Do on a request to a URL.
  unfoldable pub do_request : Str → Chain
  do_request url = follow_redirects max_redirects [] url
