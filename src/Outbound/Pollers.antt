-- ===== src/Outbound/Pollers.antt =====
-- outbound.go, tweetpoller.go: the pollers that start runs for a user and that stop ends, their
-- rounds in whatever order they come, and what they send. A round is one step.
pub mod Paired
pub mod Own
pub mod Wanted
use activity_pub_gw.Base.{
  ℕ, ◌+◌, leb, Bool, true, false, List, [], ◌∷◌, ◌++◌, Option, none, some, map, if◌then◌else◌,
}
use activity_pub_gw.Base.Assoc.{lookup, insert, erase}
use activity_pub_gw.Text.{Str, eqb}
use activity_pub_gw.Wire.{Tweet, TweetsPage}
use activity_pub_gw.TweetPoller.{SeenSet, poll_tweets, seed}
use activity_pub_gw.Outbound.{Federation, federating, start, stop, count_of, empty_scans_to_stop}
use activity_pub_gw.Outbound.History.{followed, scanned}
use activity_pub_gw.Outbound.History as History
use activity_pub_gw.Outbound.Follows.{Fired, poll}

-- tweetPoller.fetch, from the answer of the node; an error gives no tweets.
page_tweets : Option TweetsPage → List Tweet
page_tweets none = []
page_tweets (some page) = page.tweets

unfoldable pub fetch : (Str → Option TweetsPage) → Option Str → List Tweet
unfolding page_tweets
fetch unmarshal none = []
fetch unmarshal (some body) = page_tweets (unmarshal body)

-- The two pollers of a user: the seen set (none before the seed), and the known follows (none before
-- the baseline).
pub record Pollers (S : Type 0) : Type 0 where
  pub seen : Option S
  pub known : Option (List Str)

-- A change of the federated users: a follow, or a scan of one user.
abbrev pub Change : Type 0
Change = History.Event

-- outboundFederation with the pollers that run.
pub record Running (S : Type 0) : Type 0 where
  pub federation : Federation
  pub pollers : List (Str × Pollers S)

-- An accepted follow or a user read by a scan, or a round of one of a user's pollers with what the
-- node gave it.
pub data Event : Type 0 where
  changes : Change → Event
  tweets_read : Str → List Tweet → Event
  follows_read : Str → Option (List Str) → Event

-- What is sent for a user: an Update of the actor, a new post, a Follow or its Undo.
pub data Effect : Type 0 where
  refreshes : Str → Effect
  publishes : Str → Tweet → Effect
  delivers : Str → Fired → Effect

abbrev pub Step : Type 0 → Type 0
Step S = Running S × List Effect

-- newOutboundFederation.
unfoldable pub new_outbound_federation : {S : Type 0} → Running S
new_outbound_federation = record {
  federation = record { started = []; empty_scans = [] };
  pollers = [];
}

-- newTweetPoller and newFollowPoller.
unfoldable pub new_pollers : {S : Type 0} → Pollers S
new_pollers = record { seen = none; known = none }

module _ {S : Type 0} (seen_set : SeenSet S) (resolve : Str → Option Str) where
  -- start, with the pollers it runs.
  unfoldable pub start_pollers : Str → Running S → Step S
  start_pollers user r =
      if eqb user [] then (r, []) else if federating r.federation user then (r, []) else (
        record {
          federation = start user r.federation;
          pollers = insert user new_pollers r.pollers;
        },
        refreshes user ∷ [],
      )

  -- stop, with the pollers it cancels.
  unfoldable pub stop_pollers : Str → Running S → Running S
  stop_pollers user r =
      if federating r.federation user
      then record { federation = stop user r.federation; pollers = erase user r.pollers }
      else r

  with_counts : List (Str × ℕ) → Running S → Running S
  with_counts m r = record r { federation = record r.federation { empty_scans = m } }

  -- The body of scan's loop for a Warpnet user, from what the read of its followers gave.
  unfoldable pub scan_user_pollers : Str → Option (List Str) → Running S → Step S
  unfolding with_counts
  scan_user_pollers user none r = (r, [])
  scan_user_pollers user (some (u ∷ us)) r =
      start_pollers user (with_counts (erase user r.federation.empty_scans) r)
  scan_user_pollers user (some []) r =
      let n = count_of (lookup user r.federation.empty_scans) + 1 in
      let r' = with_counts (insert user n r.federation.empty_scans) r in
      (if leb empty_scans_to_stop n then stop_pollers user r' else r', [])

  with_pollers : Str → Pollers S → Running S → Running S
  with_pollers user p r = record r { pollers = insert user p r.pollers }

  -- A round of tweetPoller.run: the seed, then the polls.
  tweet_round : Str → List Tweet → Option S → Pollers S → Running S → Step S
  tweet_round user ts none p r =
      (with_pollers user (record p { seen = some (seed seen_set user seen_set.empty ts) }) r, [])
  tweet_round user ts (some seen) p r =
      let polled = poll_tweets seen_set user seen ts in
      (with_pollers user (record p { seen = some polled.0 }) r, map (publishes user) polled.1)

  -- A round of followPoller.run.
  follow_round : Str → Option (List Str) → Pollers S → Running S → Step S
  follow_round user followings p r =
      let polled = poll resolve p.known followings in
      (with_pollers user (record p { known = polled.0 }) r, map (delivers user) polled.1)

  on_tweets : Str → List Tweet → Option (Pollers S) → Running S → Step S
  on_tweets user ts none r = (r, [])
  on_tweets user ts (some p) r = tweet_round user ts p.seen p r

  on_follows : Str → Option (List Str) → Option (Pollers S) → Running S → Step S
  on_follows user followings none r = (r, [])
  on_follows user followings (some p) r = follow_round user followings p r

  -- One event; a poller that was cancelled has no rounds.
  unfoldable pub step_pollers : Event → Running S → Step S
  unfolding with_pollers tweet_round follow_round on_tweets on_follows
  step_pollers (changes (followed user)) r = start_pollers user r
  step_pollers (changes (scanned user read)) r = scan_user_pollers user read r
  step_pollers (tweets_read user ts) r = on_tweets user ts (lookup user r.pollers) r
  step_pollers (follows_read user followings) r =
      on_follows user followings (lookup user r.pollers) r
