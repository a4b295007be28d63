-- ===== src/Bridge/Write.antt =====
-- What the bridge writes to the Fediverse: reactions, boosts, follows, replies and their deletion.
pub mod Retract
use activity_pub_gw.Base.{
  ℕ, ◌+◌, ◌-◌, ltb, Bool, true, false, List, [], ◌∷◌, ◌++◌, Option, none, some, not, ◌&&◌, ◌||◌,
  if◌then◌else◌,
}
use activity_pub_gw.Base.Result.{Result, ok, err, ◌>>=◌}
use activity_pub_gw.Text.{Str, codes, eqb, trim_prefix}
use activity_pub_gw.Json.{Json, Fields, get, as_string}
use activity_pub_gw.Url.{Lib}
use activity_pub_gw.Wire.{Tweet}
use activity_pub_gw.MastodonMap.{Reader, ap_collection_count, status_author_handle}
use activity_pub_gw.Notes.{as_public}
use activity_pub_gw.Bridge.{BridgeError, no_author, Transport, content_type_ap, inner_object}

-- mentionTag: the actor that is mentioned, and the name that is shown.
pub record Mention : Type 0 where
  pub href : Str
  pub name : Str

-- The note of a reply, as Reply builds it, but for its time.
pub record ReplyNote : Type 0 where
  pub id : Str
  pub attributed_to : Str
  pub content : Str
  pub in_reply_to : Str
  pub to : List Str
  pub cc : List Str
  pub tag : List Mention

-- The activities of the bridge, with their id and their actor: a Like and an Announce with their
-- object (an Announce is addressed to the public), a Create with its note, to whose recipients it is
-- addressed, a Delete with the id of its tombstone and its recipients, and the Undo of one.
pub data Activity : Type 0 where
  like announce : Str → Str → Str → Activity
  create : Str → Str → ReplyNote → Activity
  delete : Str → Str → Str → List Str → Activity
  undo : Str → Str → Activity → Activity

-- What the bridge does: postSigned (by a user, to an inbox), deliverFollow, and a post that is
-- federated in the background.
pub data Effect : Type 0 where
  post : Str → Str → Activity → Effect
  deliver_follow : Str → Str → Bool → Effect
  federate : Tweet → Effect

-- The effects of a call, and its result.
abbrev pub Call : Type 0 → Type 0
Call A = List Effect × Result BridgeError A

-- deleteTweetEvent.
pub record DeleteTweetEvent : Type 0 where
  pub tweet_id : Str
  pub root_id : Str
  pub parent_id : Str
  pub user_id : Str

-- *s, or the empty text for nil.
text_of : Option Str → Str
text_of none = []
text_of (some s) = s

-- A step that may fail before any effect.
unfoldable pub then_call : {A B : Type 0} → Result BridgeError A → (A → Call B) → Call B
then_call (err e) next = ([], err e)
then_call (ok a) next = next a

-- A value, unless a delivery failed.
unfoldable pub delivered : {A : Type 0} → Option BridgeError → A → Result BridgeError A
delivered none a = ok a
delivered (some e) a = err e

-- mentionOf.
unfoldable pub mention_of : Lib → Str → Str → List Mention
mention_of lib author parent =
    let handle = status_author_handle lib parent in
    if eqb author []
    then []
    else record { href = author; name = if eqb handle [] then [] else codes "@" ++ handle } ∷ []

-- The parents of Reply and Delete.
unfoldable pub reply_parent : Tweet → Str
unfolding text_of
reply_parent ev = if eqb (text_of ev.parent_id) [] then ev.root_id else text_of ev.parent_id

unfoldable pub delete_parent : DeleteTweetEvent → Str
delete_parent ev = if eqb ev.parent_id [] then ev.root_id else ev.parent_id

-- The error of a delivery, the encoding of the query that holds the parent, and domain.RetweetPrefix.
module _ (t : Transport) (lib : Lib) (reader : Reader) (deliver : Effect → Option BridgeError)
    (encode_query : Str → Str) (retweet_prefix : Str) where
  -- postSigned, with the value of the call.
  send : {A : Type 0} → Effect → A → Call A
  send effect a = (effect ∷ [], delivered (deliver effect) a)

  -- undoIf.
  unfoldable pub undo_if : Str → Activity → Bool → Activity
  undo_if actor inner undone =
      if undone then undo (actor ++ (codes "#undo-" ++ lib.token)) actor inner else inner

  inbox_of_author : Fields → Result BridgeError (Fields × Str)
  inbox_of_author m =
      let author = as_string (get m (codes "attributedTo")) in
      if eqb author [] then err no_author else t.remote_inbox author >>= λ inbox. ok (m, inbox)

  -- authorInbox.
  unfoldable pub author_inbox : Str → Result BridgeError (Fields × Str)
  unfolding inbox_of_author
  author_inbox url = do
    m ← t.ap_get_json content_type_ap (trim_prefix url retweet_prefix)
    inbox_of_author (inner_object m)

  -- The count after a reaction, or after the end of one.
  count_after : Bool → ℕ → ℕ
  count_after true n = if ltb 0 n then n - 1 else n
  count_after false n = n + 1

  react_to : Str → Bool → Fields × Str → Call ℕ
  react_to user undone (note, inbox) =
      let actor = t.actor_id user in
      send
        (post user inbox (
          undo_if actor
            (like (actor ++ (codes "#like-" ++ lib.token)) actor
              (as_string (get note (codes "id"))))
            undone))
        (count_after undone (ap_collection_count reader (get note (codes "likes"))))

  -- React.
  unfoldable pub react : Str → Str → Str → Bool → Call ℕ
  unfolding send react_to count_after
  react user url emoji undone =
      if not undone && not (eqb emoji lib.default_reaction)
      then ([], ok 0)
      else then_call (author_inbox url) (react_to user undone)

  announce_to : Str → Bool → Fields × Str → Call (Unit {0})
  announce_to user undone (note, inbox) =
      let actor = t.actor_id user in
      send
        (post user inbox (
          undo_if actor
            (announce (actor ++ (codes "#announce-" ++ lib.token)) actor
              (as_string (get note (codes "id"))))
            undone))
        tt

  -- Announce.
  unfoldable pub announce_status : Str → Str → Bool → Call (Unit {0})
  unfolding send announce_to
  announce_status user url undone = then_call (author_inbox url) (announce_to user undone)

  -- Follow.
  unfoldable pub follow : Str → Str → Bool → Call (Unit {0})
  follow user handle undone =
      then_call (t.resolve_actor_id handle) (λ url. (deliver_follow user url undone ∷ [], ok tt))

  -- The URL of a reply's note, and that URL with the parent in its query.
  note_url : Str → Str → Str
  note_url user id = t.actor_id user ++ (codes "/statuses/" ++ id)

  reply_url : Str → Str → Str → Str
  reply_url user id parent = note_url user id ++ (codes "?" ++ encode_query parent)

  reply_id : Tweet → Str
  reply_id ev = if eqb ev.id [] then lib.token else ev.id

  reply_to : Tweet → Fields × Str → Call (Unit {0})
  reply_to ev (obj, inbox) =
      let author = as_string (get obj (codes "attributedTo")) in
      send
        (post ev.user_id inbox (
          create (note_url ev.user_id (reply_id ev) ++ codes "#create") (t.actor_id ev.user_id)
            (record {
              id = reply_url ev.user_id (reply_id ev) (reply_parent ev);
              attributed_to = t.actor_id ev.user_id;
              content = ev.text;
              in_reply_to = reply_parent ev;
              to = author ∷ [];
              cc = as_public ∷ [];
              tag = mention_of lib author (reply_parent ev);
            })))
        tt

  -- Reply.
  unfoldable pub reply : Tweet → Call (Unit {0})
  unfolding send note_url reply_url reply_id reply_to
  reply ev = then_call (author_inbox (reply_parent ev)) (reply_to ev)

  delete_from : DeleteTweetEvent → Fields × Str → Call (Unit {0})
  delete_from ev (obj, inbox) =
      send
        (post ev.user_id inbox (
          delete (note_url ev.user_id ev.tweet_id ++ codes "#delete") (t.actor_id ev.user_id)
            (reply_url ev.user_id ev.tweet_id (delete_parent ev))
            (as_string (get obj (codes "attributedTo")) ∷ [])))
        tt

  -- Delete.
  unfoldable pub delete_reply : DeleteTweetEvent → Call (Unit {0})
  unfolding send note_url reply_url delete_from
  delete_reply ev = then_call (author_inbox (delete_parent ev)) (delete_from ev)
