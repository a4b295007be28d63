-- ===== src/Inbound.antt =====
-- inbound.go: what an inbound ActivityPub activity asks of the owner's node.
pub mod Asked
pub mod Attribution
use activity_pub_gw.Base.{
  ℕ, Bool, true, false, List, [], ◌∷◌, Option, none, some, ◌&&◌, ◌||◌, not, if◌then◌else◌, ◌>>=◌,
  is_some,
}
use activity_pub_gw.Text.{Str, codes, eqb}
use activity_pub_gw.Json.{Json, Fields, get, is_text, string_or_empty, string_field, as_map}
use activity_pub_gw.Url.{Lib}
use activity_pub_gw.Wire.{
  Route, post_react, post_unreact, post_retweet, post_unretweet, post_tweet, post_unfollow, Tweet,
  zero_tweet, Payload, reaction, tweet, unretweet, follow,
}
use activity_pub_gw.Actor.{
  parse_local_status, user_from_actor_url, bridged_user_id, handle_from_actor_url,
}
use activity_pub_gw.Quote.{
  html_to_text, split_re_quote, split_re_prefix, strip_quote_fallback, quoted_note_url,
}

-- `if s != "" { t = s }`.
abbrev or_else : Str → Str → Str
or_else s t = if eqb s [] then t else s

abbrev text_or : Option Str → Str → Str
text_or none t = t
text_or (some s) t = or_else s t

-- The gateway's host name, the libraries, and the time of the call.
module _ (host : Str) (lib : Lib) (now : ℕ) where
  -- ingestedNoteID.
  unfoldable pub ingested_note_id : Fields → Str
  ingested_note_id note =
      or_else (string_field note (codes "id")) (or_else (string_field note (codes "url")) lib.token)

  -- A like of one of our statuses.
  translate_like : Str → Fields → Option (Route × Payload)
  translate_like actor raw = do
    status ← parse_local_status host (string_field raw (codes "object"))
    some (
      post_react,
      reaction (record {
        tweet_id = status.1;
        user_id = status.0;
        owner_id = bridged_user_id lib actor;
        emoji = lib.default_reaction;
      }),
    )

  -- A boost of one of our statuses.
  translate_announce : Str → Fields → Option (Route × Payload)
  translate_announce actor raw = do
    status ← parse_local_status host (string_field raw (codes "object"))
    some (
      post_retweet,
      tweet (record zero_tweet {
        id = status.1;
        root_id = status.1;
        user_id = status.0;
        retweeted_by = some (bridged_user_id lib actor);
        created_at = now;
      }),
    )

  -- A reply to one of our statuses, given by owner and tweet id.
  reply_to : Str → Fields → Str → Str × Str → Route × Payload
  reply_to actor obj text (owner, parent) = (
    post_tweet,
    tweet (record zero_tweet {
      created_at = now;
      id = ingested_note_id obj;
      parent_id = some parent;
      parent_user_id = some owner;
      root_id = parent;
      text = text;
      user_id = bridged_user_id lib actor;
      username = handle_from_actor_url lib actor;
    }),
  )

  -- A quote of one of our statuses.
  quote_of : Str → Str → Str × Str → Route × Payload
  quote_of actor text (owner, id) = (
    post_retweet,
    tweet (record zero_tweet {
      id = id;
      created_at = now;
      user_id = bridged_user_id lib actor;
      username = handle_from_actor_url lib actor;
      text = text_or (strip_quote_fallback lib text) text;
      retweeted_by = some (bridged_user_id lib actor);
      quoted_tweet_id = some id;
      quoted_user_id = some owner;
    }),
  )

  -- The URL that a note quotes: its property, or the "RE:" line behind a comment.
  quote_url : Fields → Str → Str
  quote_url obj text = elim (split_re_quote lib text) [
    | none ↦ quoted_note_url obj
    | some (url, comment) ↦
        if eqb (quoted_note_url obj) [] && not (eqb comment []) then url else quoted_note_url obj
  ]

  -- The convention that a text opening with "RE: <our status URL>" answers that status.
  re_reply : Str → Fields → Str → Option (Route × Payload)
  re_reply actor obj text = do
    split ← split_re_prefix lib text
    status ← parse_local_status host split.0
    some (reply_to actor obj (or_else split.1 text) status)

  translate_create : Str → Fields → Option (Route × Payload)
  unfolding reply_to quote_of quote_url re_reply
  translate_create actor raw = do
    obj ← as_map (get raw (codes "object"))
    let text = html_to_text lib (string_field obj (codes "content"))
    elim (parse_local_status host (string_field obj (codes "inReplyTo"))) [
      | some status ↦ some (reply_to actor obj text status)
      | none ↦ elim (parse_local_status host (quote_url obj text)) [
        | some status ↦ some (quote_of actor text status)
        | none ↦ re_reply actor obj text
      ]
    ]

  undo_follow : Str → Fields → Option (Route × Payload)
  undo_follow actor obj =
      let owner = user_from_actor_url (string_field obj (codes "object")) in
      if eqb owner []
      then none
      else some (
        post_unfollow,
        follow (record { follower_id = bridged_user_id lib actor; following_id = owner }),
      )

  undo_like : Str → Fields → Option (Route × Payload)
  undo_like actor obj = do
    status ← parse_local_status host (string_field obj (codes "object"))
    some (
      post_unreact,
      reaction (record {
        tweet_id = status.1;
        user_id = status.0;
        owner_id = bridged_user_id lib actor;
        emoji = [];
      }),
    )

  undo_announce : Str → Fields → Option (Route × Payload)
  undo_announce actor obj = do
    status ← parse_local_status host (string_field obj (codes "object"))
    some (
      post_unretweet,
      unretweet (record { tweet_id = status.1; retweeter_id = bridged_user_id lib actor }),
    )

  translate_undo : Str → Fields → Option (Route × Payload)
  unfolding undo_follow undo_like undo_announce
  translate_undo actor raw = do
    obj ← as_map (get raw (codes "object"))
    let typ = get obj (codes "type")
    (if is_text typ (codes "Follow")
        then undo_follow actor obj
        else if is_text typ (codes "Like")
        then undo_like actor obj
        else if is_text typ (codes "Announce")
        then undo_announce actor obj
        else none)

  -- translateInbound; none is its ok = false.
  unfoldable pub translate_inbound : Fields → Option (Route × Payload)
  unfolding translate_like translate_announce translate_create translate_undo
  translate_inbound raw =
      let actor = string_or_empty (get raw (codes "actor")) in
      let typ = get raw (codes "type") in
      if eqb actor []
      then none
      else if is_text typ (codes "Like")
      then translate_like actor raw
      else if is_text typ (codes "Announce")
      then translate_announce actor raw
      else if is_text typ (codes "Create")
      then translate_create actor raw
      else if is_text typ (codes "Undo")
      then translate_undo actor raw
      else none
