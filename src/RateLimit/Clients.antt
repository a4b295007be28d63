-- ===== src/RateLimit/Clients.antt =====
-- rate-limit.go: the limiters of the clients, and one tick of drain over all limiters.
use activity_pub_gw.Base.{ℕ, ◌≡◌, refl, Bool, false, List, Option, none, some}
use activity_pub_gw.Text.{Str, eqb}
use activity_pub_gw.RateLimit.Drain.{reset_global_if_stuck, reset_stuck_clients}

-- clientIP, from net.SplitHostPort; none is its error.
unfoldable pub client_ip : (Str → Option Str) → Str → Str
client_ip split_host address = elim (split_host address) [ none ↦ address | some host ↦ host ]

-- The limiter that a client has, or a fresh one.
unfoldable pub limiter_or : {Limiter : Type 0} → Limiter → Option Limiter → Limiter
limiter_or l none = l
limiter_or l (some found) = found

-- The cache of limiters, and a fresh limiter with the budget of a client.
module _ {Limiter Cache : Type 0} (find : Str → Cache → Option Limiter)
    (add : Str → Limiter → Cache → Cache) (fresh : Limiter) where
  found_or_fresh : Str → Cache → Option Limiter → Limiter × Cache
  found_or_fresh ip cache none = (fresh, add ip fresh cache)
  found_or_fresh ip cache (some l) = (l, add ip l cache)

  -- client: a known client is added again, which keeps it in the cache.
  unfoldable pub client : Str → Cache → Limiter × Cache
  unfolding found_or_fresh
  client ip cache = found_or_fresh ip cache (find ip cache)

  module _
      (find-add : (ip : Str) (l : Limiter) (cache : Cache)
        → find ip (add ip l cache) ≡ some l) where
    added :
        (ip : Str) (cache : Cache) (o : Option Limiter)
        → find ip (found_or_fresh ip cache o).1 ≡ some (found_or_fresh ip cache o).0
    unfolding found_or_fresh
    added ip cache none = find-add ip fresh cache
    added ip cache (some l) = find-add ip l cache

    -- A client that comes back gets the limiter that it had, as long as the cache keeps it.
    client-again :
        (ip : Str) (cache : Cache) → (client ip (client ip cache).1).0 ≡ (client ip cache).0
    unfolding client found_or_fresh
    client-again ip cache = rw (added ip cache (find ip cache)) refl

  or_fresh :
      (ip : Str) (cache : Cache) (o : Option Limiter)
      → (found_or_fresh ip cache o).0 ≡ limiter_or fresh o
  unfolding found_or_fresh limiter_or
  or_fresh ip cache none = refl
  or_fresh ip cache (some l) = refl

  pub client-limiter_or :
      (ip : Str) (cache : Cache) → (client ip cache).0 ≡ limiter_or fresh (find ip cache)
  unfolding client
  client-limiter_or ip cache = or_fresh ip cache (find ip cache)

  module _ (other : Str)
      (find-add : (ip : Str) (l : Limiter) (cache : Cache)
        → eqb ip other ≡ false
        → find other (add ip l cache) ≡ find other cache) where
    elsewhere :
        (ip : Str) (cache : Cache) (o : Option Limiter)
        → eqb ip other ≡ false
        → find other (found_or_fresh ip cache o).1 ≡ find other cache
    unfolding found_or_fresh
    elsewhere ip cache none e = find-add ip fresh cache e
    elsewhere ip cache (some l) e = find-add ip l cache e

    pub client-elsewhere :
        (ip : Str) (cache : Cache)
        → eqb ip other ≡ false
        → find other (client ip cache).1 ≡ find other cache
    unfolding client
    client-elsewhere ip cache e = elsewhere ip cache (find ip cache) e

-- What drain keeps from tick to tick: since when the global limiter and the clients are locked.
pub record LockedTimes : Type 0 where
  pub global : Option ℕ
  pub clients : List (Str × ℕ)

-- What a tick replaces: the global limiter or not, and some clients.
pub record Replaced : Type 0 where
  pub global : Bool
  pub clients : List Str

-- One tick of drain, from which limiters are locked.
unfoldable pub drain_tick : ℕ → ℕ → Bool → List (Str × Bool) → LockedTimes → LockedTimes × Replaced
drain_tick window now global_locked clients since =
    let g = reset_global_if_stuck window global_locked since.global now in
    let c = reset_stuck_clients window since.clients now clients in
    (record { global = g.1; clients = c.0 }, record { global = g.0; clients = c.1 })
