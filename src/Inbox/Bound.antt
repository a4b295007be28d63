-- ===== src/Inbox/Bound.antt =====
-- handleInbox and deliverToFollowers: the delivery semaphore that they share, over any interleaving
-- of requests, posts to followers and ends of deliveries.
use activity_pub_gw.Base.{
  ℕ, ◌+◌, ◌-◌, ◌≤◌, ◌<◌, ◌≡◌, Bool, Bool-cases, inl, inr, some, arith, length, ap, ltb,
}
use activity_pub_gw.Text.{Str}
use activity_pub_gw.Url.{Lib}
use activity_pub_gw.Inbox.{Job, Pool, InboxRequest, spawn, handle_inbox, max_inflight_deliveries}
use activity_pub_gw.Inbox.Authentic.{inbox-Starts}
use activity_pub_gw.Inbox.Started.{Starts, nothing, one}
use activity_pub_gw.Publish.{take_place}

-- The pool, and the delivery goroutines that run: those that a request or a post to followers has
-- started and that have not ended.
pub record State : Type 0 where
  pub pool : Pool
  pub running : ℕ

-- A request arrives, and starts as many goroutines as it leaves in the pool; deliverToFollowers has a
-- place for its next follower, and starts the delivery; or a running goroutine ends and gives a
-- place back.
pub data Step (host : Str) (lib : Lib) (hosted : Str → Bool) (Key : Type 0) (s t : State)
    : Type 0 where
  request :
      (now : ℕ) (has_node : Bool) (req : InboxRequest Key) (user : Str)
      → t.pool ≡ (handle_inbox host lib now has_node hosted s.pool req user).1
      → t.running ≡ s.running + (length t.pool.started - length s.pool.started)
      → Step host lib hosted Key s t
  delivers :
      take_place s.pool ≡ some t.pool → t.running ≡ s.running + 1 → Step host lib hosted Key s t
  finish :
      0 < s.running
      → t.pool ≡ record s.pool { in_flight = s.pool.in_flight - 1 }
      → t.running ≡ s.running - 1
      → Step host lib hosted Key s t

pub data Reach (host : Str) (lib : Lib) (hosted : Str → Bool) (Key : Type 0) (s : State)
    : State → Type 0 where
  here : Reach host lib hosted Key s s
  next :
      {t u : State}
      → Reach host lib hosted Key s t
      → Step host lib hosted Key t u
      → Reach host lib hosted Key s u

-- The places taken are those of the running goroutines, within capacity.
pub record IsValid (s : State) : Type 0 where
  pub bounded : s.pool.in_flight ≤ max_inflight_deliveries
  pub counted : s.running ≡ s.pool.in_flight

-- A start takes a place and adds one job to the list, or does neither.
spawn-counts :
    (p : Pool) (job : Job)
    → ((spawn p job).1.in_flight - p.in_flight ≡ length (spawn p job).1.started - length p.started)
      × (p.in_flight ≤ (spawn p job).1.in_flight)
      × (p.in_flight ≤ max_inflight_deliveries
          → (spawn p job).1.in_flight ≤ max_inflight_deliveries)
unfolding spawn
spawn-counts p job = elim (Bool-cases (ltb p.in_flight max_inflight_deliveries)) [
  | inl room ↦ rw room (omega arith, omega arith, λ h. ground arith)
  | inr busy ↦ rw busy (omega arith, omega arith, λ h. h)
]

Starts-counts :
    {P : Job → Type 0} {p : Pool} {r : ℕ × Pool}
    → Starts P p r
    → (r.1.in_flight - p.in_flight ≡ length r.1.started - length p.started)
      × (p.in_flight ≤ r.1.in_flight)
      × (p.in_flight ≤ max_inflight_deliveries → r.1.in_flight ≤ max_inflight_deliveries)
Starts-counts {p} (nothing e) = rw e (omega arith, omega arith, λ h. h)
Starts-counts {p} (one job _ e) = rw e (spawn-counts p job)

place-counts :
    (p q : Pool)
    → take_place p ≡ some q
    → (q.in_flight ≡ p.in_flight + 1) × (q.in_flight ≤ max_inflight_deliveries)
unfolding take_place
place-counts p q h = ground arith

module _ {host : Str} {lib : Lib} {hosted : Str → Bool} {Key : Type 0} where
  Step-IsValid : {s t : State} → Step host lib hosted Key s t → IsValid s → IsValid t
  Step-IsValid {s} {t} (request now has_node req user e r) v =
      let (same, grows, fits) =
        Starts-counts (inbox-Starts host lib hosted now has_node s.pool req user) in
      let e1 = ap (λ (p : Pool). p.in_flight) e in
      let e2 = ap (λ (p : Pool). length p.started) e in
      record {
        bounded = omega (arith, fits v.bounded, e1);
        counted = omega (arith, v.counted, r, same, grows, e1, e2);
      }
  Step-IsValid {s} {t} (delivers e r) v =
      let (one_more, fits) = place-counts s.pool t.pool e in
      record { bounded = fits; counted = omega (arith, v.counted, r, one_more) }
  Step-IsValid (finish busy e r) v =
      let e1 = ap (λ (p : Pool). p.in_flight) e in
      record {
        bounded = omega (arith, v.bounded, e1);
        counted = omega (arith, v.counted, busy, r, e1);
      }

  valid : {s t : State} → Reach host lib hosted Key s t → IsValid s → IsValid t
  valid here v = v
  valid (next r st) v = Step-IsValid st (valid r v)

  -- However requests to the inbox, posts to followers and ends of deliveries interleave, from a state
  -- where the places taken are those of the running goroutines and within capacity: this stays so,
  -- and at most sixteen of the goroutines that handleInbox and deliverToFollowers start run at once.
  pub Reach-IsValid :
      {s t : State} → Reach host lib hosted Key s t → IsValid s → IsValid t × (t.running ≤ 16)
  Reach-IsValid r v = let w = valid r v in (w, omega (arith, w.counted, w.bounded))
