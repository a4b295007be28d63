-- ===== src/Collections.antt =====
-- server.go: the collections below a user's actor. A collection is its id and its items; its
-- totalItems is their number.
use activity_pub_gw.Base.{
  ℕ, List, [], ◌∷◌, ◌++◌, Option, none, some, not, ◌||◌, length, if◌then◌else◌,
}
use activity_pub_gw.Text.{Str, codes, eqb}
use activity_pub_gw.Wire.{Tweet}
use activity_pub_gw.Actor.{actor_id, status_url, is_bridged_user_id}
use activity_pub_gw.TweetPoller.{publishable_tweet}
use activity_pub_gw.Notes.{Note, CreateNote, build_note, build_create_note}

-- orderedCollection.
pub record Collection (A : Type 0) : Type 0 where
  pub id : Str
  pub total_items : ℕ
  pub ordered_items : List A

unfoldable pub collection : {A : Type 0} → Str → List A → Collection A
collection id items = record { id = id; total_items = length items; ordered_items = items }

-- serveEmptyCollection.
unfoldable pub serve_empty_collection : {A : Type 0} → Str → Collection A
unfolding collection
serve_empty_collection id = collection id []

module _ (host : Str) (escape : Str → Str) where
  -- The loop of serveOutbox.
  outbox_items : Str → List Tweet → List CreateNote
  outbox_items user [] = []
  outbox_items user (t ∷ ts) =
      let rest = outbox_items user ts in
      if publishable_tweet t user then build_create_note host escape user t ∷ rest else rest

  -- serveOutbox, from the tweets that the node gave; none without a node, on an error or a malformed
  -- answer.
  unfoldable pub serve_outbox : Str → Option (List Tweet) → Collection CreateNote
  unfolding outbox_items
  serve_outbox user none = serve_empty_collection (actor_id host user ++ codes "/outbox")
  serve_outbox user (some ts) =
      collection (actor_id host user ++ codes "/outbox") (outbox_items user ts)

  -- The loop of serveReplies.
  reply_items : Str → List Tweet → List Note
  reply_items parent_url [] = []
  reply_items parent_url (t ∷ ts) =
      let rest = reply_items parent_url ts in
      if eqb t.id [] || is_bridged_user_id t.user_id
      then rest
      else record (build_note host escape t.user_id t) { in_reply_to = parent_url } ∷ rest

  -- serveReplies, from the replies that the node gave.
  unfoldable pub serve_replies : Str → Str → Option (List Tweet) → Collection Note
  unfolding reply_items
  serve_replies user id none = serve_empty_collection (status_url host user id ++ codes "/replies")
  serve_replies user id (some ts) =
      collection (status_url host user id ++ codes "/replies")
        (reply_items (status_url host user id) ts)

-- An account that resolves is listed; one that does not is passed over.
listed : Option Str → List Str → List Str
listed none rest = rest
listed (some url) rest = url ∷ rest

module _ (host : Str) (resolve : Str → Option Str) where
  -- The loop of serveFollowing; `resolve` is resolveActorID.
  following_items : List Str → List Str
  unfolding listed
  following_items [] = []
  following_items (id ∷ ids) =
      let rest = following_items ids in
      if not (is_bridged_user_id id) then actor_id host id ∷ rest else listed (resolve id) rest

  -- serveFollowing, from the followings that the node gave.
  unfoldable pub serve_following : Str → Option (List Str) → Collection Str
  unfolding following_items
  serve_following user none = serve_empty_collection (actor_id host user ++ codes "/following")
  serve_following user (some ids) =
      collection (actor_id host user ++ codes "/following") (following_items ids)

-- serveFollowers, from what List gave: an error is only logged, and lists nobody.
unfoldable pub serve_followers : Str → Str → Option (List Str) → Collection Str
serve_followers host user none = collection (actor_id host user ++ codes "/followers") []
serve_followers host user (some urls) = collection (actor_id host user ++ codes "/followers") urls
