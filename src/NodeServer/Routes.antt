-- ===== src/NodeServer/Routes.antt =====
-- serveRoutes: the handlers of the routes.
use activity_pub_gw.Base.{
  ℕ, ltb, Bool, true, false, List, [], ◌∷◌, Option, none, some, not, ◌&&◌, if◌then◌else◌,
}
use activity_pub_gw.Base.Result.{Result, ok, err}
use activity_pub_gw.Text.{Str, eqb}
use activity_pub_gw.Url.{Lib}
use activity_pub_gw.Wire.{Tweet, User, ReactionEvent, UnretweetEvent, NewFollowEvent}
use activity_pub_gw.TweetPoller.{publishable_tweet}
use activity_pub_gw.MastodonMap.{Reader}
use activity_pub_gw.Bridge.{BridgeError, Transport}
use activity_pub_gw.Bridge.Resolve.{get_user}
use activity_pub_gw.Bridge.Timeline.{Query}
use activity_pub_gw.Bridge.Status.{get_tweet}
use activity_pub_gw.Bridge.Replies.{GetTweetsEvent, get_tweets_or_replies}
use activity_pub_gw.Bridge.Lists.{get_followers, get_followings}
use activity_pub_gw.Bridge.Stats.{get_tweet_stats, get_image}
use activity_pub_gw.Bridge.Write.{
  Effect, federate, Call, DeleteTweetEvent, react, announce_status, follow, reply, delete_reply,
}
use activity_pub_gw.NodeServer.{
  ReactionsCount, Response, node_info, info_handler, done, user_of, users_of, tweet_of, tweets_of,
  stats_of, followers_of, followings_of, image_of, views_of, reactions_of, HandlerError,
  bridge_error, bad_reaction, Answer,
}

-- The decoded requests, one for each route.
pub data Request : Type 0 where
  info view : Request
  user users tweet stats image : Str → Request
  tweets : GetTweetsEvent → Request
  followers followings : Str → Option Str → Request
  react_event unreact_event : ReactionEvent → Request
  follow_event unfollow_event : NewFollowEvent → Request
  post_tweet retweet : Tweet → Request
  delete_tweet : DeleteTweetEvent → Request
  unretweet : UnretweetEvent → Request

-- reactionsCount.
unfoldable pub reactions_count : Str → ℕ → ReactionsCount
reactions_count emoji n = record {
  count = n;
  reactions = if not (eqb emoji []) && ltb 0 n then (emoji, n) ∷ [] else [];
}

-- *s, or the empty text for nil.
text_of : Option Str → Str
text_of none = []
text_of (some s) = s

-- retweeterOf.
unfoldable pub retweeter_of : Tweet → Str
unfolding text_of
retweeter_of ev =
    if not (eqb (text_of ev.retweeted_by) []) then text_of ev.retweeted_by else ev.user_id

-- retweetObject.
unfoldable pub retweet_object : Tweet → Str
retweet_object ev = if eqb ev.id [] then ev.root_id else ev.id

-- The answer that a handler makes of a result of the bridge.
answered : {A : Type 0} → Result BridgeError A → (A → Response) → Result HandlerError Response
answered (err e) make = err (bridge_error e)
answered (ok a) make = ok (make a)

-- A call that only reads.
reading : {A : Type 0} → Result BridgeError A → (A → Response) → Answer
reading r make = ([], answered r make)

calling : {A : Type 0} → Call A → (A → Response) → Answer
calling (effects, r) make = (effects, answered r make)

-- The brief list of one user; an unknown handle gives an empty list.
listed_user : Result BridgeError User → Answer
listed_user (err _) = ([], ok (users_of []))
listed_user (ok u) = ([], ok (users_of (u ∷ [])))

-- What the handlers take of package domain: RetweetPrefix, NormalizeReaction and Tweet.IsReply.
pub record Domain : Type 0 where
  pub retweet_prefix : Str
  pub normalize_reaction : Str → Option Str
  pub is_reply : Tweet → Bool

module _ (t : Transport) (lib : Lib) (reader : Reader) (query : Query) (domain : Domain) (now : ℕ)
    (node_id owner_handle network : Str) (addresses : List Str)
    (deliver : Effect → Option BridgeError) (encode_query encode_base64 : Str → Str) where
  react_as : ReactionEvent → Option Str → Answer
  react_as ev none = ([], err bad_reaction)
  react_as ev (some emoji) =
      calling
        (react t lib reader deliver encode_query domain.retweet_prefix ev.owner_id ev.tweet_id emoji
          false)
        (λ n. reactions_of (reactions_count emoji n))

  -- The handlers of serveRoutes.
  unfoldable pub serve : Request → Answer
  unfolding answered reading calling listed_user react_as
  serve info = ([], ok (node_info (info_handler owner_handle node_id addresses network)))
  serve (user handle) = reading (get_user t lib reader now node_id handle true) user_of
  serve (users handle) = listed_user (get_user t lib reader now node_id handle false)
  serve (tweets ev) =
      reading (get_tweets_or_replies t lib reader query now domain.retweet_prefix ev) tweets_of
  serve (tweet id) = reading (get_tweet t lib reader now domain.retweet_prefix id) tweet_of
  serve (stats id) = reading (get_tweet_stats t lib reader domain.retweet_prefix id) stats_of
  serve (followers handle cursor) = reading (get_followers t lib handle cursor) followers_of
  serve (followings handle cursor) = reading (get_followings t lib handle cursor) followings_of
  serve (image key) = reading (get_image t encode_base64 key) image_of
  serve view = ([], ok (views_of 1))
  serve (react_event ev) = react_as ev (domain.normalize_reaction ev.emoji)
  serve (unreact_event ev) =
      calling
        (react t lib reader deliver encode_query domain.retweet_prefix ev.owner_id ev.tweet_id []
          true)
        (λ n. reactions_of (reactions_count [] n))
  serve (follow_event ev) =
      calling
        (follow t lib reader deliver encode_query domain.retweet_prefix ev.follower_id
          ev.following_id false)
        (λ _. done)
  serve (unfollow_event ev) =
      calling
        (follow t lib reader deliver encode_query domain.retweet_prefix ev.follower_id
          ev.following_id true)
        (λ _. done)
  serve (post_tweet ev) =
      if domain.is_reply ev
      then calling (reply t lib reader deliver encode_query domain.retweet_prefix ev)
          (λ _. tweet_of ev)
      else (if publishable_tweet ev ev.user_id then federate ev ∷ [] else [], ok (tweet_of ev))
  serve (delete_tweet ev) =
      if eqb ev.parent_id [] && eqb ev.root_id []
      then ([], ok done)
      else calling (delete_reply t lib reader deliver encode_query domain.retweet_prefix ev)
          (λ _. done)
  serve (retweet ev) =
      calling
        (announce_status t lib reader deliver encode_query domain.retweet_prefix (retweeter_of ev)
          (retweet_object ev) false)
        (λ _. tweet_of ev)
  serve (unretweet ev) =
      calling
        (announce_status t lib reader deliver encode_query domain.retweet_prefix ev.retweeter_id
          ev.tweet_id true)
        (λ _. done)
