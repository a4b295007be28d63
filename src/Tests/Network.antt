-- ===== src/Tests/Network.antt =====
-- The client of the fetches, the limiters, the pollers, and the pages of the actor documents.
use activity_pub_gw.Base.{
  ap, ◌≢◌, ℕ, ◌-◌, ◌≡◌, refl, true, List, [], ◌∷◌, Option, none, some, All, arith, leb,
  if◌then◌else◌, is_some,
}
use activity_pub_gw.Base.Assoc.{lookup}
use activity_pub_gw.Base.Result.{Result, ok, err}
use activity_pub_gw.Text.{Str, codes, eqb}
use activity_pub_gw.Wire.{zero_tweet}
use activity_pub_gw.Remote.{check_remote_url}
use activity_pub_gw.Remote.Client.{Net, answers, redirects, do_request}
use activity_pub_gw.Remote.Cache.{
  Attempt, gave, try_again, too_large, SendError, exhausted, over_limit, CachedGet, send_retry,
}
use activity_pub_gw.Remote.Client.Whole.{IsRetrier, through_client, IsWhole, send_retry-IsWhole}
use activity_pub_gw.Remote.Client.Hops.{Ends, do_request-Ends}
use activity_pub_gw.RateLimit.Price.{is_control_plane}
use activity_pub_gw.RateLimit.Middleware.{
  Library, Request, new_rate_limiters, middleware, after_requests,
}
use activity_pub_gw.RateLimit.Middleware.Spares.{IsCache, IsFromOther, middleware-unaffected}
use activity_pub_gw.TweetPoller.{SeenSet}
use activity_pub_gw.Outbound.Pollers.{
  Running, changes, tweets_read, new_outbound_federation, step_pollers,
}
use activity_pub_gw.Outbound.History.{followed, is_wanted}
use activity_pub_gw.Outbound.Pollers.Own.{IsOwn}
use activity_pub_gw.Outbound.Pollers.Wanted.{Reach, at_start, changed, Reach-IsOwn}
use activity_pub_gw.ActorDoc.{WarpnetUser, build_actor, instance_actor}
use activity_pub_gw.Server.Routes.Paths.{IsPart}
use activity_pub_gw.Server.Routes.Live.{IsLive, IsLiveInstance, build_actor-IsLive}
use activity_pub_gw.Tests.Fixtures.{gw, alice, is_alice, bob_url}
use activity_pub_gw.Tests.Remotes.{gateway}

abbrev moved_url : Str
moved_url = codes "https://m.org/people/bob"

ok_inj : {r r' : CachedGet} → ◌≡◌ {A = Result SendError CachedGet} (ok r) (ok r') → r ≡ r'
ok_inj e = cc

abbrev answer_of : Attempt → Result SendError CachedGet
answer_of (gave status body) = ok (record { status = status; body = body })
answer_of try_again = err exhausted
answer_of too_large = err over_limit

answered : (a : Attempt) (r : CachedGet) → answer_of a ≡ ok r → a ≡ gave r.status r.body
answered (gave status body) r e = ap (λ c. gave c.status c.body) (ok_inj e)
answered try_again r e = cc
answered too_large r e = cc

-- A server that redirects to another of its URLs.
abbrev net : Net
net = record {
  resolve = λ _. some (codes "1.1.1.1:443");
  split_host_port = λ _. some (codes "1.1.1.1");
  serve =
      λ hop. if eqb hop.url bob_url then redirects moved_url else answers 200 (some (codes "bob"));
}

bob_passes : check_remote_url gateway bob_url ≡ ok tt
unfolding check_remote_url activity_pub_gw.Remote.is_self_url activity_pub_gw.Text.cut_prefix
    activity_pub_gw.Remote.is_self_host eqb activity_pub_gw.Text.until_byte
    activity_pub_gw.Remote.validate_remote_url activity_pub_gw.Remote.is_blocked_literal
bob_passes = refl

do_request-Ends_example : Ends gateway net (do_request gateway net bob_url)
do_request-Ends_example = do_request-Ends gateway net refl bob_url bob_passes

-- A retrier that tries once.
abbrev retry_once : (ℕ → Attempt) → Result SendError CachedGet
retry_once attempts = answer_of (attempts 0)

retry_once-IsRetrier : IsRetrier retry_once
retry_once-IsRetrier = record { gives = λ attempts r e. (0, answered (attempts 0) r e) }

abbrev bob_answer : CachedGet
bob_answer = record { status = 200; body = codes "bob" }

bob_answered :
    send_retry (some retry_once) 3 (through_client gateway (λ _. net) bob_url) ≡ ok bob_answer
unfolding send_retry activity_pub_gw.Remote.Cache.attempt through_client
    activity_pub_gw.Remote.Client.Whole.reply_of do_request
    activity_pub_gw.Remote.Client.follow_redirects activity_pub_gw.Remote.Client.dial_control
    activity_pub_gw.Remote.is_blocked_literal eqb activity_pub_gw.Remote.Client.check_redirect
    activity_pub_gw.Remote.validate_remote_url activity_pub_gw.Text.cut_prefix
    activity_pub_gw.Text.until_byte
bob_answered = refl

send_retry-IsWhole_example : IsWhole gateway (λ _. net) bob_url 3 bob_answer
send_retry-IsWhole_example =
    send_retry-IsWhole gateway (λ _. net) bob_url 3 bob_answer retry_once retry_once-IsRetrier refl
      bob_passes bob_answered refl

-- A limiter is what is left of its budget, and the cache is a function.
abbrev limiters : Library ℕ (Str → Option ℕ)
limiters = record {
  new_limiter = λ budget window. budget;
  is_locked = λ l. leb l 0;
  limit = λ weight l. l - weight;
  empty = λ _. none;
  find = λ ip cache. cache ip;
  add = λ ip l cache other. if eqb ip other then some l else cache other;
  split_host = λ address. some address;
}

limiters-IsCache : IsCache limiters
limiters-IsCache = record { find-add = λ ip other l cache. refl }

abbrev crawl : Request
crawl = record { remote_addr = codes "c"; path = codes "/media/x" }

abbrev fetch_alice : Request
fetch_alice = record { remote_addr = codes "p"; path = codes "/users/alice" }

another : IsFromOther limiters (codes "p") crawl
unfolding IsFromOther activity_pub_gw.RateLimit.Clients.client_ip eqb
another = refl

alice_control : is_control_plane (codes "/users/alice") ≡ true
unfolding is_control_plane eqb activity_pub_gw.Text.has_prefix activity_pub_gw.Text.after_byte
alice_control = refl

from_p :
    activity_pub_gw.RateLimit.Clients.client_ip limiters.split_host fetch_alice.remote_addr
    ≡ codes "p"
unfolding activity_pub_gw.RateLimit.Clients.client_ip
from_p = refl

middleware-unaffected_example :
    (middleware limiters
      (after_requests limiters (crawl ∷ crawl ∷ []) (new_rate_limiters limiters))
      fetch_alice).0
    ≡ (middleware limiters (new_rate_limiters limiters) fetch_alice).0
middleware-unaffected_example =
    middleware-unaffected limiters (codes "p") limiters-IsCache (crawl ∷ crawl ∷ []) fetch_alice
      (new_rate_limiters limiters) (another, (another, tt)) alice_control from_p

-- The ids seen, the latest first.
abbrev ids : SeenSet (List Str)
ids = record { empty = []; contains = λ id s. activity_pub_gw.Text.elem id s; add = λ id s. id ∷ s }

abbrev resolve : Str → Option Str
resolve _ = some bob_url

abbrev started : Running (List Str)
started = (step_pollers ids resolve (changes (followed alice)) new_outbound_federation).0

started_reached : Reach ids resolve (followed alice ∷ []) started
started_reached = changed at_start (followed alice)

alice_named : alice ≢ []
alice_named e = cc

Reach-IsOwn_example :
    (is_some (lookup alice started.pollers) ≡ is_wanted alice (followed alice ∷ []))
    × All (IsOwn started) (step_pollers ids resolve (tweets_read alice (zero_tweet ∷ [])) started).1
Reach-IsOwn_example =
    Reach-IsOwn ids resolve started_reached alice alice_named (tweets_read alice (zero_tweet ∷ []))

abbrev alice_profile : WarpnetUser
alice_profile = record {
  id = alice;
  preferred_username = alice;
  display_name = codes "Alice";
  summary = [];
  avatar = codes "a";
  background = [];
}

alice_known : is_alice alice ≡ true
unfolding eqb
alice_known = refl

alice-IsPart : IsPart alice
alice-IsPart = (λ e. cc, λ e. cc, λ e. cc, omega arith)

nine-IsPart : IsPart (codes "9")
nine-IsPart = (λ e. cc, λ e. cc, λ e. cc, omega arith)

build_actor-IsLive_example :
    IsLive gw
      (codes "pem")
      is_alice
      alice
      (codes "9")
      (build_actor gw (codes "pem") [] (λ s. s) alice_profile)
    × IsLiveInstance gw (codes "pem") is_alice (instance_actor gw (codes "pem"))
build_actor-IsLive_example =
    build_actor-IsLive gw (codes "pem") is_alice alice_profile (codes "9") [] (λ s. s) (omega arith)
      alice-IsPart alice_known (omega arith) nine-IsPart
