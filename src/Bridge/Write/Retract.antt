-- ===== src/Bridge/Write/Retract.antt =====
-- Reply and Delete: a reply and its deletion.
use activity_pub_gw.Base.{◌≡◌, refl, ◌⊎◌, inl, inr, List, [], ◌∷◌, All, Option, none, some}
use activity_pub_gw.Base.Result.{Result, ok, err}
use activity_pub_gw.Text.{Str}
use activity_pub_gw.Json.{Fields}
use activity_pub_gw.Url.{Lib}
use activity_pub_gw.Wire.{Tweet}
use activity_pub_gw.Actor.{actor_id, status_url, parse_local_status}
use activity_pub_gw.Actor.Own.{IsHost, IsSegment, parse_local_status-reply}
use activity_pub_gw.MastodonMap.{Reader}
use activity_pub_gw.Bridge.{BridgeError, Transport}
use activity_pub_gw.Bridge.Write.{
  Effect, post, deliver_follow, federate, Activity, like, announce, create, delete, undo,
  DeleteTweetEvent, then_call, reply_parent, delete_parent, author_inbox, send, note_url, reply_url,
  reply_id, reply_to, reply, delete_from, delete_reply,
}

-- The id of the note that an activity creates or deletes, and who it is parcel to.
unfoldable pub object_of : Activity → Str × List Str
object_of (like _ _ object) = (object, [])
object_of (announce _ _ object) = (object, [])
object_of (create _ _ n) = (n.id, n.to)
object_of (delete _ _ id to) = (id, to)
object_of (undo _ _ a) = object_of a

-- Where an effect delivers, for whom, and what of.
pub record Parcel : Type 0 where
  pub user : Str
  pub inbox : Str
  pub object : Str
  pub to : List Str

unfoldable pub parcel : Effect → Parcel
parcel (post u i a) = record { user = u; inbox = i; object = (object_of a).0; to = (object_of a).1 }
parcel (deliver_follow u a _) = record { user = u; inbox = a; object = []; to = [] }
parcel (federate t) = record { user = t.user_id; inbox = []; object = t.id; to = [] }

unfoldable pub parcels : List Effect → List Parcel
parcels [] = []
parcels (e ∷ es) = parcel e ∷ parcels es

-- A tweet and its deletion name the same tweet that was answered, or none.
abbrev pub AnswersSame : Tweet → DeleteTweetEvent → Type 0
AnswersSame ev del =
    (ev.parent_id ≡ some del.parent_id) ⊎ ((ev.parent_id ≡ none) × (del.parent_id ≡ []))

module _ (t : Transport) (lib : Lib) (reader : Reader) (deliver : Effect → Option BridgeError)
    (encode_query : Str → Str) (retweet_prefix : Str) (host : Str) (ev : Tweet)
    (del : DeleteTweetEvent) (own : (user : Str) → t.actor_id user ≡ actor_id host user)
    (same_tweet : del.tweet_id ≡ ev.id) (same_user : del.user_id ≡ ev.user_id)
    (same_root : del.root_id ≡ ev.root_id) (same_answered : AnswersSame ev del)
    (clean_host : IsHost host) (clean_user : IsSegment ev.user_id)
    (clean_id : IsSegment ev.id) where
  same_parent : delete_parent del ≡ reply_parent ev
  unfolding delete_parent reply_parent
  same_parent = elim same_answered [
    | inl e ↦ rw (e, same_root) refl
    | inr (e, f) ↦ rw (e, f, same_root) refl
  ]

  -- The deletion after the same look-up of the parent's author.
  sent_same :
      (r : Result BridgeError (Fields × Str))
      → parcels (then_call r (delete_from t lib reader deliver encode_query retweet_prefix del)).0
        ≡ parcels (then_call r (reply_to t lib reader deliver encode_query retweet_prefix ev)).0
  unfolding then_call delete_from reply_to send parcels parcel object_of reply_id note_url reply_url
  sent_same (err _) = refl
  sent_same (ok (obj, inbox)) = rw (same_parent, same_tweet, same_user, clean_id.nonempty) refl

  names_tweet :
      (r : Result BridgeError (Fields × Str))
      → All
          (λ (a : Parcel). parse_local_status host a.object ≡ some (ev.user_id, ev.id))
          (parcels (then_call r (reply_to t lib reader deliver encode_query retweet_prefix ev)).0)
  unfolding then_call reply_to send parcels parcel object_of reply_id note_url reply_url status_url
  names_tweet (err _) = tt
  names_tweet (ok (obj, inbox)) =
      rw (clean_id.nonempty, own ev.user_id)
        (
          parse_local_status-reply host ev.user_id ev.id clean_host clean_user clean_id
              (encode_query (reply_parent ev)),
          tt,
        )

  -- A reply by the bridge and the later deletion of it, for a reply with an id of its own and a
  -- deletion that names the same tweet, user, root and answered tweet, make the same deliveries, by the same user to the same inbox and
  -- recipients: of a note, and of a tombstone with the id of that note. The id leads back
  -- to the user and the tweet, for a host, a user and an id that are clean segments of a URL.
  pub delete_reply-reply :
      (parcels (delete_reply t lib reader deliver encode_query retweet_prefix del).0
        ≡ parcels (reply t lib reader deliver encode_query retweet_prefix ev).0)
      × All
          (λ (a : Parcel). parse_local_status host a.object ≡ some (ev.user_id, ev.id))
          (parcels (reply t lib reader deliver encode_query retweet_prefix ev).0)
  unfolding delete_reply reply
  delete_reply-reply =
      let found = author_inbox t lib reader deliver encode_query retweet_prefix (reply_parent ev) in
      (rw same_parent (sent_same found), names_tweet found)
