-- ===== src/Members/Request.antt =====
-- nodeclient.go: a request to the members of the network, and the profiles that it reads.
pub mod Returns
use activity_pub_gw.Base.{
  ℕ, suc, Bool, true, false, List, [], ◌∷◌, Option, none, some, if◌then◌else◌,
}
use activity_pub_gw.Base.Result.{Result, ok, err}
use activity_pub_gw.Text.{Str, eqb}
use activity_pub_gw.Wire.{User}
use activity_pub_gw.ActorDoc.{WarpnetUser}
use activity_pub_gw.Members.{
  Peer, Client, Attempts, remember, member_candidates, start_attempts, on_error, on_hedge,
}

-- What the loop of tryMembers waits for: a reply, a failed reply, the hedge timer, or the end of the
-- request's time.
pub data Event : Type 0 where
  answers : Peer → Str → Event
  fails : Peer → Event
  timer expired : Event

pub data RequestError : Type 0 where
  no_members all_failed timed_out : RequestError

abbrev pub Outcome : Type 0
Outcome = Result RequestError Str × Client

-- The condition of the loop.
unfoldable pub while_awaited : List Peer → Client → Option Outcome → Option Outcome
while_awaited [] c round = some (err all_failed, c)
while_awaited (p ∷ ps) c round = round

-- The loop of tryMembers over what happens; none while it still waits.
unfoldable pub try_loop : List Event → Attempts → Client → Option Outcome
try_loop [] s c = while_awaited s.in_flight c none
try_loop (answers p body ∷ es) s c = while_awaited s.in_flight c (some (ok body, remember p c))
try_loop (fails p ∷ es) s c = while_awaited s.in_flight c (try_loop es (on_error p s) c)
try_loop (timer ∷ es) s c = while_awaited s.in_flight c (try_loop es (on_hedge s) c)
try_loop (expired ∷ es) s c = while_awaited s.in_flight c (some (err timed_out, c))

-- tryMembers.
unfoldable pub try_members : List Peer → List Event → Client → Option Outcome
try_members peers events c = try_loop events (start_attempts peers) c

-- The candidates of a request: those of the refreshed table if there were none.
candidates : List Peer → List Peer → List Peer
candidates [] refreshed = refreshed
candidates (p ∷ ps) refreshed = p ∷ ps

request_to : List Peer → List Event → Client → Option Outcome
request_to [] events c = some (err no_members, c)
request_to (p ∷ ps) events c = try_members (p ∷ ps) events c

-- request, with the peers of the routing table before and after it is refreshed.
unfoldable pub request : List Peer → List Peer → List Event → Client → Option Outcome
unfolding candidates request_to
request table refreshed events c =
    request_to (candidates (member_candidates c table) (member_candidates c refreshed)) events c

-- The profile of a decoded user.
warpnet_user : User → WarpnetUser
warpnet_user u = record {
  id = u.id;
  preferred_username = u.id;
  display_name = u.username;
  summary = u.bio;
  avatar = u.avatar_key;
  background = u.background_image_key;
}

known_user : Option User → Option WarpnetUser
known_user none = none
known_user (some u) = if eqb u.id [] then none else some (warpnet_user u)

-- nodeSource.GetUser, from the result of the request; `unmarshal` is json.Unmarshal.
unfoldable pub node_source_user : (Str → Option User) → Result RequestError Str → Option WarpnetUser
unfolding warpnet_user known_user
node_source_user unmarshal (err _) = none
node_source_user unmarshal (ok body) = known_user (unmarshal body)
