-- ===== src/Members/Hedge.antt =====
-- The hedged requests of tryMembers, over any interleaving of replies, hedge timers and the end of
-- the request's time.
pub mod Ends
use activity_pub_gw.Base.{
  ℕ, ◌+◌, ◌≡◌, ◌≢◌, ◌≤◌, refl, ap, true, List, [], ◌∷◌, ◌++◌, arith, if◌then◌else◌,
}
use activity_pub_gw.Text.{eqb, elem}
use activity_pub_gw.Text.Laws.{eqb_iff}
use activity_pub_gw.Members.Request.{RequestError, no_members, all_failed, timed_out}
use activity_pub_gw.Members.{
  Peer, Attempts, launch, launch_next, take_out, start_attempts, on_error, on_hedge,
}

-- The loop of tryMembers: it waits in a state, has returned an answer of a candidate, or has returned
-- an error.
pub data Loop : Type 0 where
  waits : Attempts → Loop
  answered : Peer → Attempts → Loop
  fails_with : RequestError → Attempts → Loop

-- What may happen in a state: while replies are awaited, one of them comes, as an answer or as a
-- failure, the hedge timer fires, or the request's time is over; else the loop is at its end.
pub data Step (s : Attempts) : Loop → Type 0 where
  answers : (p : Peer) → elem p s.in_flight ≡ true → Step s (answered p s)
  errs : (p : Peer) → elem p s.in_flight ≡ true → Step s (waits (on_error p s))
  hedges : s.in_flight ≢ [] → Step s (waits (on_hedge s))
  expires : s.in_flight ≢ [] → Step s (fails_with timed_out s)
  runs_out : s.in_flight ≡ [] → Step s (fails_with all_failed s)

-- The states of the loop over some candidates.
pub data Reach (peers : List Peer) : Loop → Type 0 where
  starts : Reach peers (waits (start_attempts peers))
  steps : {s : Attempts} {l : Loop} → Reach peers (waits s) → Step s l → Reach peers l

-- How often a peer is in a list.
unfoldable pub count : Peer → List Peer → ℕ
count p [] = 0
count p (q ∷ qs) = (if eqb q p then 1 else 0) + count p qs

count-append : (p : Peer) (qs rs : List Peer) → count p (qs ++ rs) ≡ count p qs + count p rs
unfolding count
count-append p [] rs = omega arith
count-append p (q ∷ qs) rs = omega (arith, count-append p qs rs)

count-take_out :
    (p q : Peer) (qs : List Peer)
    → elem q qs ≡ true
    → count p (take_out q qs) + (if eqb q p then 1 else 0) ≡ count p qs
unfolding count take_out elem
count-take_out p q [] h = cc
count-take_out p q (r ∷ qs) h = grind (arith, count-take_out p q qs, eqb_iff r q)

-- A state of the loop: the candidates are those waiting, awaited and failed, each as often as it
-- was given; and while one is waiting, one is awaited.
pub record IsValid (peers : List Peer) (s : Attempts) : Type 0 where
  pub keeps :
      (p : Peer) → count p s.waiting + (count p s.in_flight + count p s.failed) ≡ count p peers
  pub is_busy : s.in_flight ≡ [] → s.waiting ≡ []

snoc_ne : (p : Peer) (ps : List Peer) → ps ++ (p ∷ []) ≢ []
snoc_ne p [] h = cc
snoc_ne p (q ∷ ps) h = cc

launch-IsValid :
    (peers waiting in_flight failed : List Peer)
    → ((p : Peer) → count p waiting + (count p in_flight + count p failed) ≡ count p peers)
    → IsValid peers (launch waiting in_flight failed)
unfolding launch count
launch-IsValid peers [] in_flight failed h = record { keeps = h; is_busy = λ e. refl }
launch-IsValid peers (q ∷ waiting) in_flight failed h = record {
  keeps = λ p. omega (arith, h p, count-append p in_flight (q ∷ []));
  is_busy = λ e. absurd (snoc_ne q in_flight e);
}

-- The state that the loop is in, or was in at its end.
abbrev pub state_of : Loop → Attempts
state_of (waits s) = s
state_of (answered p s) = s
state_of (fails_with e s) = s

pub Step-IsValid :
    {peers : List Peer} {s : Attempts} {l : Loop}
    → Step s l
    → IsValid peers s
    → IsValid peers (state_of l)
unfolding on_error on_hedge launch_next count
Step-IsValid {peers} {s} (errs p awaited) v =
    launch-IsValid peers s.waiting (take_out p s.in_flight) (p ∷ s.failed)
      (λ q. omega (arith, v.keeps q, count-take_out q p s.in_flight awaited))
Step-IsValid {peers} {s} (hedges busy) v =
    launch-IsValid peers s.waiting s.in_flight s.failed v.keeps
Step-IsValid (answers p awaited) v = v
Step-IsValid (expires busy) v = v
Step-IsValid (runs_out idle) v = v

pub Reach-IsValid : {peers : List Peer} {l : Loop} → Reach peers l → IsValid peers (state_of l)
unfolding start_attempts count launch_next
Reach-IsValid {peers} starts = launch-IsValid peers peers [] [] (λ p. omega arith)
Reach-IsValid (steps r step) = Step-IsValid step (Reach-IsValid r)

ended :
    (p : Peer) (peers waiting in_flight failed : List Peer)
    → in_flight ≡ []
    → waiting ≡ []
    → count p waiting + (count p in_flight + count p failed) ≡ count p peers
    → count p failed ≡ count p peers
unfolding count
ended p peers waiting in_flight failed e w h = omega (arith, ap (count p) e, ap (count p) w, h)

-- What an end of the loop says: an answer is that of an awaited candidate; it fails on all members
-- only when each candidate has failed as often as it was given; and it is timed out only while it
-- awaits a candidate.
abbrev pub Verdict : List Peer → Loop → Type 0
Verdict peers (waits s) = Unit {0}
Verdict peers (answered p s) = elem p s.in_flight ≡ true
Verdict peers (fails_with all_failed s) = (p : Peer) → count p s.failed ≡ count p peers
Verdict peers (fails_with timed_out s) = s.in_flight ≢ []
Verdict peers (fails_with no_members s) = ⊥

Step-Verdict :
    {peers : List Peer} {s : Attempts} {l : Loop} → IsValid peers s → Step s l → Verdict peers l
Step-Verdict v (answers p awaited) = awaited
Step-Verdict v (errs p awaited) = tt
Step-Verdict v (hedges busy) = tt
Step-Verdict v (expires busy) = busy
Step-Verdict {peers} {s} v (runs_out idle) =
    λ p. ended p peers s.waiting s.in_flight s.failed idle (v.is_busy idle) (v.keeps p)

Reach-Verdict : {peers : List Peer} {l : Loop} → Reach peers l → Verdict peers l
Reach-Verdict starts = tt
Reach-Verdict (steps r step) = Step-Verdict (Reach-IsValid r) step

-- However replies, timers and the end of the request's time interleave: no candidate is asked more
-- often than it is listed; an answer is one of a candidate that was asked; the loop fails on all
-- members only when every candidate has been asked and has failed; and it times out only while a
-- candidate is awaited.
pub Reach-asked :
    {peers : List Peer} {l : Loop}
    → Reach peers l
    → ((p : Peer) → count p (state_of l).in_flight + count p (state_of l).failed ≤ count p peers)
      × Verdict peers l
unfolding count
Reach-asked {peers} r = let v = Reach-IsValid r in (λ p. omega (arith, v.keeps p), Reach-Verdict r)
