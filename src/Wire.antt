-- ===== src/Wire.antt =====
-- warpdto.go: the routes that the gateway calls or serves, and the payloads that travel on them,
-- with the fields that the gateway reads or writes. (The types are the node's own.)
use activity_pub_gw.Base.{ℕ, List, [], Option, none}
use activity_pub_gw.Text.{Str}

pub data Route : Type 0 where
  get_user get_users get_tweet get_tweets get_followers get_followings get_image : Route
  post_follow post_unfollow post_react post_unreact post_retweet post_unretweet : Route
  post_tweet delete_tweet : Route

-- domain.Tweet. A time is its number of nanoseconds; zero is the zero time.
pub record Tweet : Type 0 where
  pub id : Str
  pub root_id : Str
  pub parent_id : Option Str
  pub parent_user_id : Option Str
  pub text : Str
  pub user_id : Str
  pub username : Str
  pub created_at : ℕ
  pub retweeted_by : Option Str
  pub quoted_tweet_id : Option Str
  pub quoted_user_id : Option Str
  pub image_keys : List Str
  pub network : Str

-- The zero value tweet{}.
unfoldable pub zero_tweet : Tweet
zero_tweet = record {
  id = [];
  root_id = [];
  parent_id = none;
  parent_user_id = none;
  text = [];
  user_id = [];
  username = [];
  created_at = 0;
  retweeted_by = none;
  quoted_tweet_id = none;
  quoted_user_id = none;
  image_keys = [];
  network = [];
}

pub record ReactionEvent : Type 0 where
  pub tweet_id : Str
  pub user_id : Str
  pub owner_id : Str
  pub emoji : Str

pub record UnretweetEvent : Type 0 where
  pub tweet_id : Str
  pub retweeter_id : Str

pub record NewFollowEvent : Type 0 where
  pub follower_id : Str
  pub following_id : Str

-- The payloads that the gateway sends to a node for an inbound activity.
pub data Payload : Type 0 where
  reaction : ReactionEvent → Payload
  tweet : Tweet → Payload
  unretweet : UnretweetEvent → Payload
  follow : NewFollowEvent → Payload

-- domain.User, with the fields that the gateway fills. A time is its number of nanoseconds.
pub record User : Type 0 where
  pub id : Str
  pub username : Str
  pub bio : Str
  pub node_id : Str
  pub network : Str
  pub avatar_key : Str
  pub background_image_key : Str
  pub created_at : ℕ
  pub website : Option Str
  pub followers_count : ℕ
  pub followings_count : ℕ
  pub tweets_count : ℕ

-- tweetsResponse.
pub record TweetsPage : Type 0 where
  pub user_id : Str
  pub tweets : List Tweet
  pub cursor : Str
