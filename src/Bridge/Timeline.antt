-- ===== src/Bridge/Timeline.antt =====
-- The timelines that the bridge serves.
pub mod TopLevel
use activity_pub_gw.Base.{
  ℕ, Bool, true, false, List, [], ◌∷◌, ◌++◌, Option, none, some, not, ◌&&◌, ◌||◌, if◌then◌else◌,
}
use activity_pub_gw.Base.Result.{Result, ok, err, ◌>>=◌}
use activity_pub_gw.Text.{Str, codes, eqb, trim_prefix}
use activity_pub_gw.Json.{Json, obj, Fields, get, as_string, as_map, as_slice}
use activity_pub_gw.Url.{Url, Lib}
use activity_pub_gw.Wire.{Tweet, zero_tweet, TweetsPage}
use activity_pub_gw.Actor.{handle_from_actor_url}
use activity_pub_gw.MastodonMap.{Reader, note_to_tweet}
use activity_pub_gw.Bridge.{
  BridgeError, Transport, content_type_ap, content_type_json, inner_object, page_cursor,
  split_handle,
}
use activity_pub_gw.Bridge.Items.{listed, resolve_timeline_items}
use activity_pub_gw.Bridge.Rest.{is_rest_statuses_url, rest_status_ref, rest_status_to_tweet}

-- What the bridge takes of package net/url beside the parser: url.QueryEscape, and a URL with the
-- query parameter max_id set (none when it does not parse).
pub record Query : Type 0 where
  pub escape : Str → Str
  pub with_max_id : Str → Str → Option Str

-- topLevelOnly.
unfoldable pub is_top_level : Tweet → Bool
is_top_level t = elim t.parent_id [ none ↦ true | some p ↦ eqb p [] ]

unfoldable pub top_level_only : List Tweet → List Tweet
top_level_only [] = []
top_level_only (t ∷ ts) = let rest = top_level_only ts in if is_top_level t then t ∷ rest else rest

-- A page without tweets.
unfoldable pub no_tweets : Str → TweetsPage
no_tweets user = record { user_id = user; tweets = []; cursor = [] }

or_empty : Option Str → Str
or_empty none = []
or_empty (some s) = s

-- The host of a page's URL.
url_host : Option Url → Str
url_host none = []
url_host (some u) = u.host

-- The last id of a status page that is not empty.
last_id : List Json → Str → Str
last_id [] id = id
last_id (obj s ∷ vs) id =
    last_id vs
      (if eqb (as_string (get s (codes "id"))) [] then id else as_string (get s (codes "id")))
last_id (_ ∷ vs) id = last_id vs id

module _ (t : Transport) (lib : Lib) (reader : Reader) (query : Query) (now : ℕ) where
  -- The statuses of a page that are no replies.
  page_tweets : Str → List Json → List Tweet
  page_tweets host [] = []
  page_tweets host (obj s ∷ vs) =
      let rest = page_tweets host vs in
      if eqb (as_string (get s (codes "in_reply_to_id"))) []
      then listed (rest_status_to_tweet lib reader now host s) rest
      else rest
  page_tweets host (_ ∷ vs) = page_tweets host vs

  -- restTweetsPage, on the statuses of the page.
  rest_page : Str → Str → List Json → TweetsPage
  rest_page handle url statuses = record {
    user_id = handle;
    tweets = page_tweets (url_host (lib.parse_url url)) statuses;
    cursor =
        if eqb (last_id statuses []) []
        then []
        else or_empty (query.with_max_id url (last_id statuses []));
  }

  -- restTweetsPage; none is ok = false.
  rest_answer : Str → Str → Result BridgeError (List Json) → Option TweetsPage
  rest_answer handle url (err _) = none
  rest_answer handle url (ok statuses) = some (rest_page handle url statuses)

  unfoldable pub rest_tweets_page : Str → Str → Option TweetsPage
  unfolding rest_answer rest_page page_tweets listed or_empty url_host last_id
  rest_tweets_page handle url = rest_answer handle url (t.ap_get_array content_type_json url)

  -- restTweets, on the answer to the lookup of the account.
  rest_account : Str → Str → Result BridgeError Fields → Option TweetsPage
  rest_account handle instance_host (err _) = none
  rest_account handle instance_host (ok look) =
      let id = as_string (get look (codes "id")) in
      if eqb id []
      then none
      else rest_tweets_page handle (
          codes "https://"
          ++ (instance_host
              ++ (codes "/api/v1/accounts/"
                  ++ (id ++ codes "/statuses?limit=40&exclude_replies=true"))))

  rest_lookup : Str → Option (Str × Str) → Option TweetsPage
  rest_lookup handle none = none
  rest_lookup handle (some (name, instance_host)) = rest_account handle instance_host (
      t.ap_get_json content_type_json (
        codes "https://"
        ++ (instance_host
            ++ (codes "/api/v1/accounts/lookup?acct="
                ++ query.escape (name ++ (codes "@" ++ instance_host))))))

  -- restTweets.
  unfoldable pub rest_tweets : Str → Option TweetsPage
  unfolding rest_account rest_lookup
  rest_tweets handle = rest_lookup handle (split_handle handle)

  -- apTweets at the URL of a page.
  outbox_page : Str → Str → Result BridgeError TweetsPage
  outbox_page handle url = do
    page ← t.ap_get_json content_type_ap url
    ok (record {
      user_id = handle;
      tweets = top_level_only (
          resolve_timeline_items t lib reader now handle
            (as_slice (get page (codes "orderedItems"))));
      cursor = as_string (get page (codes "next"));
    })

  -- The outbox of an actor from its first page.
  outbox_first : Str → Fields → Result BridgeError TweetsPage
  outbox_first handle ob =
      let first = as_string (get ob (codes "first")) in
      if eqb first [] then ok (no_tweets handle) else outbox_page handle first

  outbox_of : Str → Str → Result BridgeError TweetsPage
  outbox_of handle outbox =
      if eqb outbox []
      then ok (no_tweets handle)
      else t.ap_get_json content_type_ap outbox >>= outbox_first handle

  from_actor : Str → Result BridgeError TweetsPage
  from_actor handle = do
    url ← t.resolve_actor_id handle
    actor ← t.fetch_actor url
    outbox_of handle (as_string (get actor (codes "outbox")))

  -- apTweets.
  unfoldable pub ap_tweets : Str → Option Str → Result BridgeError TweetsPage
  unfolding outbox_page outbox_first outbox_of from_actor
  ap_tweets handle cursor =
      if eqb (page_cursor cursor) []
      then from_actor handle
      else outbox_page handle (page_cursor cursor)

  -- The answer of GetTweets on a cursor of the REST interface.
  rest_or_none : Str → Option TweetsPage → TweetsPage
  rest_or_none handle none = no_tweets handle
  rest_or_none handle (some page) = page

  -- The answer of GetTweets without a cursor.
  rest_or_outbox : Str → Option Str → Option TweetsPage → Result BridgeError TweetsPage
  rest_or_outbox handle cursor none = ap_tweets handle cursor
  rest_or_outbox handle cursor (some page) = ok page

  -- GetTweets.
  unfoldable pub get_tweets : Str → Option Str → Result BridgeError TweetsPage
  unfolding rest_or_none rest_or_outbox
  get_tweets handle cursor =
      let url = page_cursor cursor in
      if eqb url []
      then rest_or_outbox handle cursor (rest_tweets handle)
      else if is_rest_statuses_url url
      then ok (rest_or_none handle (rest_tweets_page handle url))
      else ap_tweets handle cursor
