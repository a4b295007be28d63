-- ===== src/Tests/Store.antt =====
-- The stores, the members, the limiter and the identifiers.
use activity_pub_gw.Base.{
  subst, inl, inr, ℕ, ◌≡◌, refl, ◌+◌, Bool, true, false, List, [], ◌∷◌, Option, none, some, arith,
  ◌≤◌, length, is_some, if◌then◌else◌, ◌==◌,
}
use activity_pub_gw.Base.Result.{err}
use activity_pub_gw.Base.Assoc.{lookup}
use activity_pub_gw.Text.{Str, codes, eqb, elem}
use activity_pub_gw.LogRing.{new_log_ring, fire_all, lines}
use activity_pub_gw.LogRing.Refine.{last, lines-fire_all}
use activity_pub_gw.Actor.{encode_actor_id, decode_actor_id}
use activity_pub_gw.Actor.Ids.{decode_actor_id-encode_actor_id}
use activity_pub_gw.Followers.{Decoder, FollowersPage, transport, list}
use activity_pub_gw.Followers.Paging.{IsEnd, Answers, Breaks, Fails, list-Fails}
use activity_pub_gw.Members.{
  Peer, Client, Attempts, start_attempts, on_error, on_hedge, member_candidates,
  max_member_candidates, remember, request_user,
}
use activity_pub_gw.Members.Candidates.{are_members, member_candidates-are_members}
use activity_pub_gw.Members.Hedge.{
  waits, fails_with, errs, runs_out, Reach, starts, steps, count, Reach-asked,
}
use activity_pub_gw.RateLimit.Drain.{reset_stuck_clients, reset_global_if_stuck}
use activity_pub_gw.RateLimit.Drain.Clients.{Distinct, is_locked, reset_stuck_clients-eq}
use activity_pub_gw.RateLimit.Drain.Stuck.{History, LockedSince}
use activity_pub_gw.RateLimit.Drain.Live.{any_replaces, any_replaces-in_time}
use activity_pub_gw.Members.Request.{Event, all_failed, try_members}
use activity_pub_gw.Members.Request.Returns.{AwaitedIn, failures, try_members-returns}
use activity_pub_gw.Tests.Fixtures.{bob_url}

lines-fire_all_example :
    lines (fire_all (new_log_ring 1) (codes "a" ∷ codes "b" ∷ []))
    ≡ last 1 (codes "a" ∷ codes "b" ∷ [])
lines-fire_all_example = lines-fire_all 1 (codes "a" ∷ codes "b" ∷ []) (omega arith)

decode_actor_id-encode_actor_id_example :
    decode_actor_id (encode_actor_id (codes "hi")) ≡ some (codes "hi")
decode_actor_id-encode_actor_id_example = decode_actor_id-encode_actor_id (codes "hi") (omega arith)

abbrev page : FollowersPage
page = record { followers = codes "bob@m.org" ∷ []; cursor = [] }

abbrev first_page : FollowersPage
first_page = record { followers = codes "amy@m.org" ∷ []; cursor = codes "1" }

abbrev decoder : Decoder
decoder = record {
  error_body = λ _. none;
  followers_page = λ body. some (if eqb body (codes "0") then first_page else page);
}

abbrev two_pages : ℕ → Str → Option Str
two_pages n _ = some (if n == 0 then codes "0" else codes "1")

abbrev one_page : ℕ → Str → Option Str
one_page n _ = if n == 0 then some (codes "0") else none

abbrev resolve : Str → Option Str
resolve _ = some bob_url

first_answered : Answers decoder one_page 0 [] first_page
unfolding eqb
first_answered = record { body = codes "0"; answered = refl; no_error = λ e h. cc; decoded = refl }

first_goes_on : ¬ IsEnd [] first_page
first_goes_on (inl e) = cc
first_goes_on (inr (inl e)) = cc
first_goes_on (inr (inr e)) = cc

list-Fails_example : list decoder one_page resolve ≡ err transport
list-Fails_example =
    list-Fails decoder one_page {e = transport} {k = 1} resolve
      (Fails.later first_page first_answered first_goes_on (Fails.here (Breaks.unanswered refl)))
      (omega arith)

abbrev member : Client
member = record {
  own = codes "me";
  relays = codes "relay" ∷ [];
  good = codes "p" ∷ codes "relay" ∷ [];
  owner = [];
}

abbrev table : List Peer
table = codes "q" ∷ codes "p" ∷ []

member_candidates-are_members_example :
    (are_members member (member_candidates member table) ≡ true)
    × (length (member_candidates member table) ≤ max_member_candidates)
member_candidates-are_members_example = member_candidates-are_members member table

p_asked : elem (codes "p") (start_attempts (codes "p" ∷ [])).in_flight ≡ true
unfolding start_attempts elem eqb
p_asked = refl

abbrev p_failed : Attempts
p_failed = record { waiting = []; in_flight = []; failed = codes "p" ∷ [] }

failing : on_error (codes "p") (start_attempts (codes "p" ∷ [])) ≡ p_failed
unfolding on_error start_attempts activity_pub_gw.Members.take_out eqb
failing = refl

Reach-asked_example :
    ((p : Peer) → count p [] + count p (codes "p" ∷ []) ≤ count p (codes "p" ∷ []))
    × ((p : Peer) → count p (codes "p" ∷ []) ≡ count p (codes "p" ∷ []))
Reach-asked_example = Reach-asked {peers = codes "p" ∷ []} {l = fails_with all_failed p_failed} (
    steps
      (subst (λ s. Reach (codes "p" ∷ []) (waits s)) failing
        (steps starts (errs (codes "p") p_asked)))
      (runs_out refl))

abbrev clients : List (Str × Bool)
clients = (codes "10.0.0.1", true) ∷ (codes "10.0.0.2", false) ∷ []

clients-Distinct : Distinct clients
unfolding lookup eqb
clients-Distinct = (refl, (refl, tt))

reset_stuck_clients-eq_example :
    let (since', replaced) = reset_stuck_clients 10 ((codes "10.0.0.1", 5) ∷ []) 20 clients in
    ◌≡◌ {A = Bool × Option ℕ}
      (elem (codes "10.0.0.1") replaced, lookup (codes "10.0.0.1") since')
      (reset_global_if_stuck 10
        (is_locked (lookup (codes "10.0.0.1") clients))
        (lookup (codes "10.0.0.1") ((codes "10.0.0.1", 5) ∷ []))
        20)
reset_stuck_clients-eq_example =
    reset_stuck_clients-eq 10 20 (codes "10.0.0.1") ((codes "10.0.0.1", 5) ∷ []) clients
      clients-Distinct

abbrev ticks : History
ticks = (8, true) ∷ (5, true) ∷ []

abbrev rounds : List Event
rounds = Event.timer ∷ Event.fails (codes "q") ∷ Event.fails (codes "p") ∷ []

rounds_awaited : AwaitedIn rounds (start_attempts (codes "p" ∷ codes "q" ∷ []))
unfolding start_attempts on_hedge on_error elem eqb activity_pub_gw.Members.take_out
rounds_awaited = (refl, (refl, tt))

two_failures : failures rounds ≡ 2
unfolding failures
two_failures = refl

try_members-returns_example :
    is_some (try_members (codes "p" ∷ codes "q" ∷ []) rounds member) ≡ true
try_members-returns_example =
    try_members-returns (codes "p" ∷ codes "q" ∷ []) rounds member rounds_awaited
      (inr (omega (arith, two_failures)))

clock_forward : (s : ℕ) → LockedSince 10 s ticks → s ≤ 9
clock_forward s (_, inl e) = omega (arith, e)
clock_forward s (_, inr (_, inl e)) = omega (arith, e)
clock_forward s (_, inr (_, inr past)) = absurd past

any_replaces-in_time_example : any_replaces 10 ticks (9 ∷ 12 ∷ 19 ∷ []) ≡ true
any_replaces-in_time_example =
    any_replaces-in_time 10 ticks 9 (12 ∷ 19 ∷ []) 19 clock_forward (inr (inl refl)) (omega arith)
