-- ===== src/TweetPoller.antt =====
-- tweetpoller.go: which of a user's tweets are federated, and when.
use activity_pub_gw.Base.{
  Bool, true, false, List, [], ◌∷◌, ◌++◌, none, some, not, ◌||◌, is_some, if◌then◌else◌,
}
use activity_pub_gw.Text.{Str, eqb}
use activity_pub_gw.Wire.{Tweet}

-- publishableTweet.
unfoldable pub publishable_tweet : Tweet → Str → Bool
publishable_tweet t owner =
    if not (eqb t.user_id owner) || is_some t.retweeted_by
    then false
    else elim t.parent_id [ none ↦ true | some p ↦ eqb p [] ]

-- The calls of the seen set, an expirable LRU of hashicorp/golang-lru: Add of an id that is there
-- renews its time, and what is evicted, and when, is the library's.
pub record SeenSet (S : Type 0) : Type 0 where
  pub empty : S
  pub contains : Str → S → Bool
  pub add : Str → S → S

module _ {S : Type 0} (seen_set : SeenSet S) (owner : Str) where
  -- The loop of poll: the seen set after it, and the tweets it published.
  unfoldable pub poll_tweets : S → List Tweet → S × List Tweet
  poll_tweets seen [] = (seen, [])
  poll_tweets seen (t ∷ ts) =
      let rest = poll_tweets (seen_set.add t.id seen) ts in
      if seen_set.contains t.id seen
      then rest
      else if publishable_tweet t owner
      then (rest.0, t ∷ rest.1)
      else rest

  -- The seed of run.
  unfoldable pub seed : S → List Tweet → S
  seed seen [] = seen
  seed seen (t ∷ ts) = seed (seen_set.add t.id seen) ts

  -- The polls of run, over what fetch gave each time (nil on an error).
  unfoldable pub poll_rounds : S → List (List Tweet) → S × List Tweet
  poll_rounds seen [] = (seen, [])
  poll_rounds seen (ts ∷ rounds) =
      let now = poll_tweets seen ts in
      let rest = poll_rounds now.0 rounds in (rest.0, now.1 ++ rest.1)

  -- run.
  unfoldable pub run : List Tweet → List (List Tweet) → List Tweet
  run first rounds = (poll_rounds (seed seen_set.empty first) rounds).1
