-- ===== src/Members.antt =====
-- discovery.go, nodeclient.go: the members of the network that may answer a request, the hedged
-- requests to them, and the requests to the node that owns a user.
pub mod Candidates
pub mod Hedge
pub mod Owner
pub mod Request
pub mod Join
use activity_pub_gw.Base.{
  ℕ, Bool, true, false, List, [], ◌∷◌, ◌++◌, Option, none, some, take, ◌||◌, not, if◌then◌else◌,
}
use activity_pub_gw.Base.Assoc.{lookup, insert, erase}
use activity_pub_gw.Text.{Str, eqb, elem}

-- A peer.ID.
abbrev pub Peer : Type 0
Peer = Str

-- maxMemberCandidates.
abbrev pub max_member_candidates : ℕ
max_member_candidates = 64

-- The fields of nodeClient that these operations use: the member's own id, the relays, the members
-- that have answered, and the cached owner of each user.
pub record Client : Type 0 where
  pub own : Peer
  pub relays : List Peer
  pub good : List Peer
  pub owner : List (Str × Peer)

-- The peers other than one.
unfoldable pub without : Peer → List Peer → List Peer
without p [] = []
without p (q ∷ qs) = let rest = without p qs in if eqb q p then rest else q ∷ rest

-- remember.
unfoldable pub remember : Peer → Client → Client
remember p c = record c { good = take max_member_candidates (p ∷ without p c.good) }

-- The function add of memberCandidates.
add_candidate : Client → Peer → List Peer → List Peer
add_candidate c p out =
    if eqb p [] || eqb p c.own
    then out
    else if elem p c.relays
    then out
    else if elem p out
    then out
    else out ++ (p ∷ [])

unfoldable pub add_candidates : Client → List Peer → List Peer → List Peer
unfolding add_candidate
add_candidates c [] out = out
add_candidates c (p ∷ ps) out = add_candidates c ps (add_candidate c p out)

-- memberCandidates, from the peers of the routing table (none without a DHT).
unfoldable pub member_candidates : Client → List Peer → List Peer
member_candidates c table =
    take max_member_candidates (add_candidates c table (add_candidates c c.good []))

-- The state of tryMembers: the candidates not tried yet, those whose reply is awaited, and those
-- that have failed.
pub record Attempts : Type 0 where
  pub waiting : List Peer
  pub in_flight : List Peer
  pub failed : List Peer

-- launchNext, on the candidates not tried yet.
launch : List Peer → List Peer → List Peer → Attempts
launch [] in_flight failed = record { waiting = []; in_flight = in_flight; failed = failed }
launch (p ∷ ps) in_flight failed = record {
  waiting = ps;
  in_flight = in_flight ++ (p ∷ []);
  failed = failed;
}

-- launchNext.
unfoldable pub launch_next : Attempts → Attempts
unfolding launch
launch_next s = launch s.waiting s.in_flight s.failed

-- The first occurrence is taken out.
unfoldable pub take_out : Peer → List Peer → List Peer
take_out p [] = []
take_out p (q ∷ qs) = if eqb q p then qs else q ∷ take_out p qs

-- tryMembers up to its loop.
unfoldable pub start_attempts : List Peer → Attempts
unfolding launch_next
start_attempts peers = launch_next (record { waiting = peers; in_flight = []; failed = [] })

-- A reply of a candidate that is an error.
unfoldable pub on_error : Peer → Attempts → Attempts
unfolding launch_next
on_error p s = launch_next (record s { in_flight = take_out p s.in_flight; failed = p ∷ s.failed })

-- The hedge timer.
unfoldable pub on_hedge : Attempts → Attempts
unfolding launch_next
on_hedge s = launch_next s

-- forgetOwner.
unfoldable pub forget_owner : Str → Client → Client
forget_owner user c = record c { owner = erase user c.owner }

-- ownerNode for a user that is not cached, from the owner that its profile names.
found_owner : Str → Option Peer → Client → Option Peer × Client
found_owner user none c = (none, c)
found_owner user (some p) c = (some p, record c { owner = insert user p c.owner })

cached_owner : (Str → Option Peer) → Str → Option Peer → Client → Option Peer × Client
cached_owner resolve user (some p) c = (some p, c)
cached_owner resolve user none c = found_owner user (resolve user) c

-- ownerNode; `resolve` is the owner that a user's profile names.
unfoldable pub owner_node : (Str → Option Peer) → Str → Client → Option Peer × Client
unfolding found_owner cached_owner
owner_node resolve user c = cached_owner resolve user (lookup user c.owner) c

-- What requestUser does with the owner's answer: none is an error.
owner_reply : Option Str → Str → Peer → Option Str → Client → Option Str × Client
owner_reply broadcast user p (some body) c = (some body, remember p c)
owner_reply broadcast user p none c = (broadcast, forget_owner user c)

-- What requestUser does with the owner it found, if any.
ask_owner : (Peer → Option Str) → Option Str → Str → Option Peer × Client → Option Str × Client
ask_owner stream broadcast user (none, c) = (broadcast, c)
ask_owner stream broadcast user (some p, c) = owner_reply broadcast user p (stream p) c

-- requestUser, from what a member answers to the request itself and what its broadcast gives.
unfoldable pub request_user :
    (Peer → Option Str) → Option Str → (Str → Option Peer) → Str → Client → Option Str × Client
unfolding ask_owner owner_reply
request_user stream broadcast resolve user c =
    ask_owner stream broadcast user (owner_node resolve user c)
