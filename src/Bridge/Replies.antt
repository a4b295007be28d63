-- ===== src/Bridge/Replies.antt =====
-- The replies to a status, which the route of the timelines serves too.
pub mod Direct
pub mod Bounded
use activity_pub_gw.Base.{
  ℕ, zero, suc, ◌-◌, Bool, true, false, List, [], ◌∷◌, ◌++◌, length, take, ltb, Option, none, some,
  not, is_some, ◌&&◌, ◌||◌, if◌then◌else◌,
}
use activity_pub_gw.Base.Result.{Result, ok, err, ◌>>=◌}
use activity_pub_gw.Text.{Str, codes, eqb, trim_prefix, cut, cut_prefix, until_byte}
use activity_pub_gw.Json.{Json, obj, Fields, get, has_key, get_in, as_string, as_map, as_slice}
use activity_pub_gw.Url.{Url, Lib}
use activity_pub_gw.Wire.{Tweet, TweetsPage}
use activity_pub_gw.Actor.{handle_from_actor_url}
use activity_pub_gw.MastodonMap.{Reader, note_to_tweet}
use activity_pub_gw.Bridge.{BridgeError, Transport, content_type_ap, content_type_json}
use activity_pub_gw.Bridge.Rest.{rest_status_ref, rest_reply_to_tweet}
use activity_pub_gw.Bridge.Items.{listed, filled}
use activity_pub_gw.Bridge.OwnStatus.{nativize_own_status}
use activity_pub_gw.Bridge.Timeline.{Query, get_tweets}

-- maxReplies, and maxPages of apReplies.
abbrev pub max_replies : ℕ
max_replies = 50

abbrev pub max_pages : ℕ
max_pages = 5

-- A page of replies: GetReplies sets neither its user nor its cursor.
unfoldable pub replies_page : List Tweet → TweetsPage
replies_page ts = record { user_id = []; tweets = ts; cursor = [] }

-- The items of a page of a replies collection.
page_items : List Json → List Json → List Json
page_items [] ordered = ordered
page_items (v ∷ vs) ordered = v ∷ vs

-- getAllTweetsEvent.
pub record GetTweetsEvent : Type 0 where
  pub user_id : Str
  pub root_id : Str
  pub parent_id : Str
  pub cursor : Option Str

module _ (t : Transport) (lib : Lib) (reader : Reader) (query : Query) (now : ℕ) where
  -- The reply that contextReplies makes of a status.
  unfoldable pub context_reply : Str → Str → Str → Fields → Option Tweet
  context_reply host id url s =
      if eqb (as_string (get s (codes "in_reply_to_id"))) id
      then (elim (rest_reply_to_tweet lib reader now host s url ((id, url) ∷ [])) [
        | none ↦ none
        | some tw ↦ some (nativize_own_status t lib (as_map (get s (codes "account"))) tw)
      ])
      else none

  -- The loop of contextReplies, with the room that is left: a reply takes one place of suc n.
  add_reply : ℕ → Option Tweet → (ℕ → List Tweet) → List Tweet
  add_reply n none rest = rest (suc n)
  add_reply n (some tw) rest = tw ∷ rest n

  unfoldable pub context_loop : Str → Str → Str → List Json → ℕ → List Tweet
  unfolding add_reply context_reply
  context_loop host id url [] room = []
  context_loop host id url (_ ∷ vs) zero = []
  context_loop host id url (obj s ∷ vs) (suc n) =
      add_reply n (context_reply host id url s) (context_loop host id url vs)
  context_loop host id url (_ ∷ vs) (suc n) = context_loop host id url vs (suc n)

  -- contextReplies, on the answer to the request; none is ok = false.
  context_page : Str → Str → Str → Result BridgeError Fields → Option TweetsPage
  context_page host id url (err _) = none
  context_page host id url (ok m) =
      if has_key m (codes "descendants") || has_key m (codes "ancestors")
      then some (
          replies_page
            (context_loop host id url (as_slice (get m (codes "descendants"))) max_replies))
      else none

  context_at : Str → Option (Str × Str) → Option TweetsPage
  context_at url none = none
  context_at url (some (host, id)) = context_page host id url (
      t.ap_get_json content_type_json
        (codes "https://" ++ (host ++ (codes "/api/v1/statuses/" ++ (id ++ codes "/context")))))

  -- contextReplies.
  unfoldable pub context_replies : Str → Option TweetsPage
  unfolding context_page context_at
  context_replies url = context_at url (rest_status_ref lib url)

  -- An item of a replies collection: a note, or the URL of one.
  fetched_note : Result BridgeError Fields → Option Fields
  fetched_note (err _) = none
  fetched_note (ok m) = some m

  item_note : Json → Option Fields
  item_note (obj m) = some m
  item_note v =
      if eqb (as_string v) []
      then none
      else fetched_note (t.ap_get_json content_type_ap (as_string v))

  note_reply : Option Fields → Option Tweet
  note_reply none = none
  note_reply (some note) = filled t lib reader now (
      note_to_tweet lib reader now
        (handle_from_actor_url lib (as_string (get note (codes "attributedTo")))) note)

  -- resolveReplyItems: each item on its own, the order kept.
  unfoldable pub resolve_reply_items : List Json → List Tweet
  unfolding fetched_note item_note note_reply
  resolve_reply_items [] = []
  resolve_reply_items (v ∷ vs) = listed (note_reply (item_note v)) (resolve_reply_items vs)

  -- The page that a step of apReplies reads: the one at hand, or else that at the URL.
  current_page : Option Fields → Str → Option Fields
  current_page (some page) url = some page
  current_page none url =
      if eqb url [] then none else fetched_note (t.ap_get_json content_type_ap url)

  -- The tweets of a page, of as many items as there is room for.
  page_replies : Fields → List Tweet → List Tweet
  page_replies page ts =
      ts
      ++ resolve_reply_items (
          take (max_replies - length ts) (
            page_items (as_slice (get page (codes "items")))
              (as_slice (get page (codes "orderedItems")))))

  -- A step of the loop of apReplies, before the steps that are left.
  page_step : Option Fields → List Tweet → (Str → List Tweet → List Tweet) → List Tweet
  page_step none ts later = ts
  page_step (some page) ts later =
      later (as_string (get page (codes "next"))) (page_replies page ts)

  page_loop : ℕ → Option Fields → Str → List Tweet → List Tweet
  unfolding page_step
  page_loop zero page url ts = ts
  page_loop (suc n) page url ts =
      let steps = page_step (current_page page url) ts (page_loop n none) in
      if ltb (length ts) max_replies then steps else ts

  -- apReplies, on the answer for the collection.
  collection_replies : Result BridgeError Fields → List Tweet
  collection_replies (err _) = []
  collection_replies (ok coll) =
      let first = get coll (codes "first") in
      page_loop max_pages (as_map first) (if is_some (as_map first) then [] else as_string first) []

  note_replies : Str → List Tweet
  note_replies url =
      if eqb url [] then [] else collection_replies (t.ap_get_json content_type_ap url)

  -- apReplies.
  unfoldable pub ap_replies : Str → Result BridgeError TweetsPage
  unfolding fetched_note current_page page_items page_replies page_step page_loop collection_replies
      note_replies
  ap_replies url = do
    m ← t.ap_get_json content_type_ap url
    ok (replies_page (note_replies (as_string (get m (codes "replies")))))

  nativize_all : List Tweet → List Tweet
  nativize_all [] = []
  nativize_all (tw ∷ ts) = nativize_own_status t lib none tw ∷ nativize_all ts

  native_page : TweetsPage → TweetsPage
  native_page page = record page { tweets = nativize_all page.tweets }

  context_or_collection : Str → Option TweetsPage → Result BridgeError TweetsPage
  context_or_collection url (some page) = ok page
  context_or_collection url none = do page ← ap_replies url; ok (native_page page)

  -- GetReplies.
  unfoldable pub get_replies : Str → Str → Result BridgeError TweetsPage
  unfolding nativize_all native_page context_or_collection
  get_replies retweet_prefix note_url =
      let url = trim_prefix note_url retweet_prefix in
      context_or_collection url (context_replies url)

  -- GetTweetsOrReplies.
  unfoldable pub get_tweets_or_replies : Str → GetTweetsEvent → Result BridgeError TweetsPage
  get_tweets_or_replies retweet_prefix ev =
      if eqb ev.root_id [] && eqb ev.parent_id []
      then get_tweets t lib reader query now ev.user_id ev.cursor
      else get_replies retweet_prefix (if eqb ev.parent_id [] then ev.root_id else ev.parent_id)
