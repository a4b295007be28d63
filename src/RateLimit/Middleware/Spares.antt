-- ===== src/RateLimit/Middleware/Spares.antt =====
-- middleware: whose budget a request can touch.
use activity_pub_gw.Base.{
  ◌≡◌, refl, sym, ◌∙◌, ap, Bool, true, false, List, [], ◌∷◌, some, All, not, if◌then◌else◌,
}
use activity_pub_gw.Text.{Str, eqb}
use activity_pub_gw.RateLimit.Clients.{client_ip, limiter_or, client-limiter_or, client-elsewhere}
use activity_pub_gw.RateLimit.Price.{Verdict, reject, client_only, both, verdict, is_control_plane}
use activity_pub_gw.RateLimit.Middleware.{
  Library, RateLimiters, Request, spent, middleware, after_requests,
}

-- What the cache documents while nothing is evicted: an entry is only changed under its own key.
pub record IsCache {Limiter Cache : Type 0} (lib : Library Limiter Cache) : Type 0 where
  pub find-add :
      (ip other : Str) (l : Limiter) (cache : Cache)
      → lib.find other (lib.add ip l cache)
        ≡ (if eqb ip other then some l else lib.find other cache)

module _ {Limiter Cache : Type 0} (lib : Library Limiter Cache) (other : Str) where
  -- A request of another client.
  unfoldable pub IsFromOther : Request → Type 0
  IsFromOther r = eqb (client_ip lib.split_host r.remote_addr) other ≡ false

  -- What a request of the client depends on: its limiter, if it has one, and the settings.
  record Same (rl later : RateLimiters Limiter Cache) : Type 0 where
    limiter : lib.find other later.clients ≡ lib.find other rl.clients
    budget : later.client_budget ≡ rl.client_budget
    window : later.window ≡ rl.window

  module _ (laws : IsCache lib) where
    spent-Same :
        (ip : Str) (l : Limiter) (rl later : RateLimiters Limiter Cache) (v : Verdict)
        → eqb ip other ≡ false
        → Same rl later
        → Same rl (spent lib ip l later v).1
    unfolding spent
    spent-Same ip l rl later reject e same = same
    spent-Same ip l rl later (client_only w) e same = record {
      limiter = laws.find-add ip other (lib.limit w l) later.clients ∙ rw e same.limiter;
      budget = same.budget;
      window = same.window;
    }
    spent-Same ip l rl later (both w) e same = record {
      limiter = laws.find-add ip other (lib.limit w l) later.clients ∙ rw e same.limiter;
      budget = same.budget;
      window = same.window;
    }

    middleware-Same :
        (r : Request) (rl : RateLimiters Limiter Cache)
        → IsFromOther r
        → Same rl (middleware lib rl r).1
    unfolding middleware IsFromOther
    middleware-Same r rl e = spent-Same _ _ rl _ _ e (record {
      limiter =
          client-elsewhere lib.find lib.add (lib.new_limiter rl.client_budget rl.window) other
            (λ ip l cache ne. laws.find-add ip other l cache ∙ rw ne refl) _ rl.clients e;
      budget = refl;
      window = refl;
    })

    after-Same :
        (rs : List Request) (rl : RateLimiters Limiter Cache)
        → All IsFromOther rs
        → Same rl (after_requests lib rs rl)
    unfolding after_requests
    after-Same [] rl h = record { limiter = refl; budget = refl; window = refl }
    after-Same (r ∷ rs) rl (e, h) =
        let one = middleware-Same r rl e in
        let more = after-Same rs (middleware lib rl r).1 h in
        record {
          limiter = more.limiter ∙ one.limiter;
          budget = more.budget ∙ one.budget;
          window = more.window ∙ one.window;
        }

    decided :
        (ip : Str) (l : Limiter) (rl : RateLimiters Limiter Cache) (locked g : Bool) (p : Str)
        → is_control_plane p ≡ true
        → (spent lib ip l rl (verdict locked g p)).0 ≡ not locked
    unfolding verdict spent
    decided ip l rl true g p e = refl
    decided ip l rl false g p e = rw e refl

    -- Whether a request is served, when it is on the control plane.
    served :
        (r : Request) (rl : RateLimiters Limiter Cache)
        → is_control_plane r.path ≡ true
        → client_ip lib.split_host r.remote_addr ≡ other
        → (middleware lib rl r).0
          ≡ not (
              lib.is_locked (
                limiter_or
                  (lib.new_limiter rl.client_budget rl.window)
                  (lib.find other rl.clients)))
    unfolding middleware
    served r rl control own =
        decided _ _ _ _ _ r.path control
        ∙ ap (λ l. not (lib.is_locked l))
            (client-limiter_or lib.find lib.add (lib.new_limiter rl.client_budget rl.window) _
              rl.clients)
        ∙ ap
            (λ ip. not (
              lib.is_locked
                (limiter_or (lib.new_limiter rl.client_budget rl.window) (lib.find ip rl.clients))))
            own

    -- Whatever the other clients request in between, on whatever plane, a request on the control
    -- plane is served or refused as before: no other client can spend its budget or lock it out. The
    -- cache evicts nothing.
    pub middleware-unaffected :
        (rs : List Request) (r : Request) (rl : RateLimiters Limiter Cache)
        → All IsFromOther rs
        → is_control_plane r.path ≡ true
        → client_ip lib.split_host r.remote_addr ≡ other
        → (middleware lib (after_requests lib rs rl) r).0 ≡ (middleware lib rl r).0
    middleware-unaffected rs r rl others control own =
        let same = after-Same rs rl others in
        served r (after_requests lib rs rl) control own
        ∙ rw (same.budget, same.window, same.limiter) (sym (served r rl control own))
