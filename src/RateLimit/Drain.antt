-- ===== src/RateLimit/Drain.antt =====
-- rate-limit.go: one tick of drain, from the time and which limiters are locked;
-- times are counted in nanoseconds, the zero time is none.
pub mod Clients
pub mod Stuck
pub mod Live
use activity_pub_gw.Base.{
  ℕ, ◌+◌, Bool, true, false, List, [], ◌∷◌, ◌++◌, Option, none, some, leb, if◌then◌else◌,
}
use activity_pub_gw.Base.Assoc.{lookup, insert, erase}
use activity_pub_gw.Text.{Str, elem}

-- lockedSince, the clients seen locked in this tick, and those given a fresh limiter.
pub record Sweep : Type 0 where
  pub since : List (Str × ℕ)
  pub present : List Str
  pub replaced : List Str

-- The second loop: clients that recovered or left are dropped.
prune : List Str → List (Str × ℕ) → List (Str × ℕ)
prune present [] = []
prune present ((ip, t) ∷ m) =
    let rest = prune present m in if elem ip present then (ip, t) ∷ rest else rest

module _ (window : ℕ) where
  -- resetGlobalIfStuck: whether a fresh limiter is stored, and the updated lockedSince.
  unfoldable pub reset_global_if_stuck : Bool → Option ℕ → ℕ → Bool × Option ℕ
  reset_global_if_stuck false since now = (false, none)
  reset_global_if_stuck true none now = (false, some now)
  reset_global_if_stuck true (some since) now =
      if leb (since + window) now then (true, none) else (false, some since)

  -- One round of the loop over the clients.
  sweep_client : ℕ → Sweep → Str × Bool → Sweep
  sweep_client now s (ip, false) = s
  sweep_client now s (ip, true) = elim (lookup ip s.since) [
    | none ↦ record s { since = insert ip now s.since; present = ip ∷ s.present }
    | some t ↦
        if leb (t + window) now
        then record {
          since = erase ip s.since;
          present = ip ∷ s.present;
          replaced = ip ∷ s.replaced;
        }
        else record s { present = ip ∷ s.present }
  ]

  sweep_clients : ℕ → Sweep → List (Str × Bool) → Sweep
  sweep_clients now s [] = s
  sweep_clients now s (c ∷ cs) = sweep_clients now (sweep_client now s c) cs

  -- resetStuckClients, over the clients of the LRU with whether each is locked: the updated
  -- lockedSince, and the clients that got a fresh limiter.
  unfoldable pub reset_stuck_clients :
      List (Str × ℕ) → ℕ → List (Str × Bool) → List (Str × ℕ) × List Str
  unfolding sweep_clients sweep_client prune
  reset_stuck_clients since now clients =
      let s = sweep_clients now (record { since = since; present = []; replaced = [] }) clients in
      (prune s.present s.since, s.replaced)
