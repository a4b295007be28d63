-- ===== src/RateLimit/Middleware.antt =====
-- rate-limit.go: the limiters of the gateway, and what the middleware spends for a request. The
-- limiter and the cache of the clients are the libraries'.
pub mod Spares
use activity_pub_gw.Base.{ℕ, Bool, true, false, List, [], ◌∷◌, Option, none, some}
use activity_pub_gw.Text.{Str}
use activity_pub_gw.RateLimit.Clients.{client, client_ip}
use activity_pub_gw.RateLimit.Price.{Verdict, reject, client_only, both, verdict}

-- rateWindow in nanoseconds, perClientBudget and globalBudget.
abbrev pub rate_window : ℕ
rate_window = 60000000000

abbrev pub per_client_budget : ℕ
per_client_budget = 1200

abbrev pub global_budget : ℕ
global_budget = 6000

-- A ratelimiter.Limiter (newLimiter makes one from a budget and a window), and the LRU of clients.
pub record Library (Limiter Cache : Type 0) : Type 0 where
  pub new_limiter : ℕ → ℕ → Limiter
  pub is_locked : Limiter → Bool
  pub limit : ℕ → Limiter → Limiter
  pub empty : Cache
  pub find : Str → Cache → Option Limiter
  pub add : Str → Limiter → Cache → Cache
  -- net.SplitHostPort, down to the host.
  pub split_host : Str → Option Str

-- rateLimiters.
pub record RateLimiters (Limiter Cache : Type 0) : Type 0 where
  pub window : ℕ
  pub client_budget : ℕ
  pub global_budget : ℕ
  pub global : Limiter
  pub clients : Cache

-- A request: its remote address and its path.
pub record Request : Type 0 where
  pub remote_addr : Str
  pub path : Str

module _ {Limiter Cache : Type 0} (lib : Library Limiter Cache) where
  -- newRateLimitersWith.
  unfoldable pub new_rate_limiters_with : ℕ → ℕ → ℕ → RateLimiters Limiter Cache
  new_rate_limiters_with global per_client window = record {
    window = window;
    client_budget = per_client;
    global_budget = global;
    global = lib.new_limiter global window;
    clients = lib.empty;
  }

  -- newRateLimiters.
  unfoldable pub new_rate_limiters : RateLimiters Limiter Cache
  new_rate_limiters = new_rate_limiters_with global_budget per_client_budget rate_window

  -- What a verdict spends; the limiter of the client is changed in place.
  spent : Str → Limiter → RateLimiters Limiter Cache → Verdict → Bool × RateLimiters Limiter Cache
  spent ip lim rl reject = (false, rl)
  spent ip lim rl (client_only weight) =
      (true, record rl { clients = lib.add ip (lib.limit weight lim) rl.clients })
  spent ip lim rl (both weight) = (
    true,
    record rl {
      global = lib.limit weight rl.global;
      clients = lib.add ip (lib.limit weight lim) rl.clients;
    },
  )

  -- middleware: whether the request is served (or answered 429), and the limiters after it.
  unfoldable pub middleware :
      RateLimiters Limiter Cache → Request → Bool × RateLimiters Limiter Cache
  unfolding spent
  middleware rl r =
      let ip = client_ip lib.split_host r.remote_addr in
      let found =
        client lib.find lib.add (lib.new_limiter rl.client_budget rl.window) ip rl.clients in
      spent ip found.0 (record rl { clients = found.1 })
        (verdict (lib.is_locked found.0) (lib.is_locked rl.global) r.path)

  -- The limiters after some requests.
  unfoldable pub after_requests :
      List Request → RateLimiters Limiter Cache → RateLimiters Limiter Cache
  after_requests [] rl = rl
  after_requests (r ∷ rs) rl = after_requests rs (middleware rl r).1
