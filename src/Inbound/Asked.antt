-- ===== src/Inbound/Asked.antt =====
-- What an inbound activity asks for, read off the activity by its type: the URL that it names, and
-- what a request to a node may be about.
use activity_pub_gw.Base.{◌≡◌, ◌≢◌, true, Option, none, some, []}
use activity_pub_gw.Text.{Str, codes}
use activity_pub_gw.Json.{Fields, get, is_text, string_field, as_map}
use activity_pub_gw.Url.{Lib}
use activity_pub_gw.Wire.{
  Route, post_react, post_unreact, post_retweet, post_unretweet, post_tweet, post_unfollow, Tweet,
  Payload, reaction, tweet, unretweet, follow,
}
use activity_pub_gw.Quote.{html_to_text, split_re_prefix, split_re_quote, quoted_note_url}
use activity_pub_gw.Actor.{parse_local_status, user_from_actor_url}

-- The account that a payload makes the node act for.
abbrev pub author_of : Payload → Str
author_of (reaction r) = r.owner_id
author_of (tweet t) = elim t.retweeted_by [ none ↦ t.user_id | some by ↦ by ]
author_of (unretweet u) = u.retweeter_id
author_of (follow f) = f.follower_id

-- The type of an activity, or of the object of one.
abbrev pub IsType : Fields → Str → Type 0
IsType raw name = is_text (get raw (codes "type")) name ≡ true

abbrev pub IsObject : Fields → Fields → Type 0
IsObject raw obj = as_map (get raw (codes "object")) ≡ some obj

-- The text of a note.
abbrev pub note_text : Lib → Fields → Str
note_text lib obj = html_to_text lib (string_field obj (codes "content"))

-- The URL that an activity names, by its type and by the route of the node that it goes to.
pub data Names (lib : Lib) (raw : Fields) : Route → Str → Type 0 where
  liked : IsType raw (codes "Like") → Names lib raw post_react (string_field raw (codes "object"))
  boosted :
      IsType raw (codes "Announce") → Names lib raw post_retweet (string_field raw (codes "object"))
  answered :
      (obj : Fields)
      → IsType raw (codes "Create")
      → IsObject raw obj
      → Names lib raw post_tweet (string_field obj (codes "inReplyTo"))
  answered_in_text :
      (obj : Fields) (url rest : Str)
      → IsType raw (codes "Create")
      → IsObject raw obj
      → split_re_prefix lib (note_text lib obj) ≡ some (url, rest)
      → Names lib raw post_tweet url
  quoted :
      (obj : Fields)
      → IsType raw (codes "Create")
      → IsObject raw obj
      → Names lib raw post_retweet (quoted_note_url obj)
  quoted_in_text :
      (obj : Fields) (url comment : Str)
      → IsType raw (codes "Create")
      → IsObject raw obj
      → split_re_quote lib (note_text lib obj) ≡ some (url, comment)
      → Names lib raw post_retweet url
  unfollowed :
      (obj : Fields)
      → IsType raw (codes "Undo")
      → IsObject raw obj
      → IsType obj (codes "Follow")
      → Names lib raw post_unfollow (string_field obj (codes "object"))
  unliked :
      (obj : Fields)
      → IsType raw (codes "Undo")
      → IsObject raw obj
      → IsType obj (codes "Like")
      → Names lib raw post_unreact (string_field obj (codes "object"))
  unboosted :
      (obj : Fields)
      → IsType raw (codes "Undo")
      → IsObject raw obj
      → IsType obj (codes "Announce")
      → Names lib raw post_unretweet (string_field obj (codes "object"))

-- A URL is that of a status of ours.
abbrev pub IsStatus : Str → Str → Str → Str → Type 0
IsStatus host url owner id = parse_local_status host url ≡ some (owner, id)

abbrev pub SomeStatus : Str → Str → Option Str → Option Str → Type 0
SomeStatus host url (some owner) (some id) = IsStatus host url owner id
SomeStatus host url _ _ = ⊥

-- The status that a tweet payload answers, quotes or boosts is the one at the URL.
abbrev pub TweetTarget : Str → Str → Tweet → Type 0
TweetTarget host url t = elim t.quoted_tweet_id [
  | some id ↦ SomeStatus host url t.quoted_user_id (some id)
  | none ↦ elim t.parent_id [
    | some id ↦ SomeStatus host url t.parent_user_id (some id)
    | none ↦ IsStatus host url t.user_id t.id
  ]
]

-- A payload is about the status of ours at a URL; an unfollow, about the user that the URL ends in.
abbrev pub IsAbout : Str → Str → Payload → Type 0
IsAbout host url (reaction r) = IsStatus host url r.user_id r.tweet_id
IsAbout host url (tweet t) = TweetTarget host url t
IsAbout host url (unretweet u) = (owner : Str) × IsStatus host url owner u.tweet_id
IsAbout host url (follow f) = (f.following_id ≡ user_from_actor_url url) × (f.following_id ≢ [])

-- A payload for a route is about what an activity names.
abbrev pub IsAsked : Str → Lib → Fields → Route → Payload → Type 0
IsAsked host lib raw r p = (url : Str) × Names lib raw r url × IsAbout host url p
