-- ===== src/Members/Request/Returns.antt =====
-- tryMembers: after which events the loop has returned.
use activity_pub_gw.Base.{
  ℕ, suc, ◌+◌, ◌≤◌, ◌≡◌, ◌≢◌, refl, ◌⊎◌, inl, inr, Bool, true, false, List, [], ◌∷◌, length,
  length-append, Option, none, is_some, arith,
}
use activity_pub_gw.Text.{elem}
use activity_pub_gw.Members.{
  Peer, Client, Attempts, launch, launch_next, take_out, start_attempts, on_error, on_hedge,
}
use activity_pub_gw.Members.Hedge.Ends.{length-take_out}
use activity_pub_gw.Members.Request.{
  Event, answers, fails, timer, expired, Outcome, while_awaited, try_loop, try_members,
}

-- Only candidates that are awaited fail.
abbrev pub AwaitedIn : List Event → Attempts → Type 0
AwaitedIn [] s = Unit
AwaitedIn (answers p body ∷ es) s = Unit
AwaitedIn (fails p ∷ es) s = (elem p s.in_flight ≡ true) × AwaitedIn es (on_error p s)
AwaitedIn (timer ∷ es) s = AwaitedIn es (on_hedge s)
AwaitedIn (expired ∷ es) s = Unit

-- The failed replies of some events, counted up to a reply or the end of the time, which end the
-- loop.
unfoldable pub failures : List Event → ℕ
failures [] = 0
failures (answers p body ∷ es) = 0
failures (fails p ∷ es) = suc (failures es)
failures (timer ∷ es) = failures es
failures (expired ∷ es) = 0

-- An event that ends the loop by itself is among the events.
unfoldable pub ends_loop : List Event → Bool
ends_loop [] = false
ends_loop (answers p body ∷ es) = true
ends_loop (fails p ∷ es) = ends_loop es
ends_loop (timer ∷ es) = ends_loop es
ends_loop (expired ∷ es) = true

-- The candidates that have not failed.
left : Attempts → ℕ
left s = length s.waiting + length s.in_flight

left-launch :
    (waiting in_flight failed : List Peer)
    → left (launch waiting in_flight failed) ≡ length waiting + length in_flight
unfolding left launch
left-launch [] in_flight failed = refl
left-launch (q ∷ waiting) in_flight failed = omega (arith, length-append in_flight (q ∷ []))

left-on_error :
    (p : Peer) (s : Attempts) → elem p s.in_flight ≡ true → suc (left (on_error p s)) ≡ left s
unfolding left on_error launch_next
left-on_error p s h = omega (
  arith,
  left-launch s.waiting (take_out p s.in_flight) (p ∷ s.failed),
  length-take_out p s.in_flight h,
)

left-on_hedge : (s : Attempts) → left (on_hedge s) ≡ left s
unfolding left on_hedge launch_next
left-on_hedge s = left-launch s.waiting s.in_flight s.failed

left-start : (peers : List Peer) → left (start_attempts peers) ≡ length peers
unfolding start_attempts launch_next
left-start peers = omega (arith, left-launch peers [] [])

awaited_round :
    (ps : List Peer) (c : Client) (round : Option Outcome)
    → (ps ≢ [] → is_some round ≡ true)
    → is_some (while_awaited ps c round) ≡ true
unfolding while_awaited
awaited_round [] c round h = refl
awaited_round (p ∷ ps) c round h = h (λ e. cc)

not_below : (n : ℕ) → suc n ≤ 0 → ⊥
not_below n h = omega arith

none_awaited :
    (ps : List Peer) (c : Client) → length ps ≤ 0 → is_some (while_awaited ps c none) ≡ true
unfolding while_awaited
none_awaited [] c h = refl
none_awaited (p ∷ ps) c h = absurd (not_below (length ps) h)

try_loop-returns :
    (events : List Event) (s : Attempts) (c : Client)
    → AwaitedIn events s
    → (ends_loop events ≡ true) ⊎ (left s ≤ failures events)
    → is_some (try_loop events s c) ≡ true
unfolding try_loop failures ends_loop left
try_loop-returns [] s c a (inl e) = cc
try_loop-returns [] s c a (inr le) = none_awaited s.in_flight c (omega (arith, le))
try_loop-returns (answers p body ∷ es) s c a h = awaited_round s.in_flight c _ (λ _. refl)
try_loop-returns (expired ∷ es) s c a h = awaited_round s.in_flight c _ (λ _. refl)
try_loop-returns (fails p ∷ es) s c (awaited, a) (inl e) =
    awaited_round s.in_flight c _ (λ _. try_loop-returns es (on_error p s) c a (inl e))
try_loop-returns (fails p ∷ es) s c (awaited, a) (inr le) = awaited_round s.in_flight c _ (λ _.
    try_loop-returns es (on_error p s) c a (inr (omega (arith, le, left-on_error p s awaited))))
try_loop-returns (timer ∷ es) s c a (inl e) =
    awaited_round s.in_flight c _ (λ _. try_loop-returns es (on_hedge s) c a (inl e))
try_loop-returns (timer ∷ es) s c a (inr le) =
    awaited_round s.in_flight c _
      (λ _. try_loop-returns es (on_hedge s) c a (inr (omega (arith, le, left-on_hedge s))))

-- However replies, timers and failures interleave, a request has returned as soon as a candidate has
-- answered, its time is over, or as many replies have failed as there are candidates, when
-- only candidates that are awaited fail.
pub try_members-returns :
    (peers : List Peer) (events : List Event) (c : Client)
    → AwaitedIn events (start_attempts peers)
    → (ends_loop events ≡ true) ⊎ (length peers ≤ failures events)
    → is_some (try_members peers events c) ≡ true
unfolding try_members
try_members-returns peers events c a (inl e) =
    try_loop-returns events (start_attempts peers) c a (inl e)
try_members-returns peers events c a (inr le) =
    try_loop-returns events (start_attempts peers) c a (inr (omega (arith, le, left-start peers)))
