-- ===== src/Bridge/Rest.antt =====
-- The statuses of the Mastodon REST interface as tweets.
use activity_pub_gw.Base.{
  ap, ℕ, ◌≡◌, refl, Bool, List, [], ◌∷◌, ◌++◌, Option, none, some, ◌&&◌, ◌||◌, arith, if◌then◌else◌,
}
use activity_pub_gw.Base.Assoc.{lookup}
use activity_pub_gw.Text.{Str, codes, eqb, contains, trim_right}
use activity_pub_gw.Json.{
  Json, Fields, null, bool, num, str, arr, obj, end, field, get, get_in, as_string, as_map,
  as_slice,
}
use activity_pub_gw.Url.{Lib}
use activity_pub_gw.Wire.{Tweet, zero_tweet}
use activity_pub_gw.Actor.{path_base}
use activity_pub_gw.Quote.{html_to_text}
use activity_pub_gw.MastodonMap.{Reader, parse_ap_time, or_now, mastodon_network}

-- isRESTStatusesURL.
unfoldable pub is_rest_statuses_url : Str → Bool
is_rest_statuses_url u = contains u (codes "/api/v1/accounts/") && contains u (codes "/statuses")

-- restStatusRef: the host and the last segment of the path.
unfoldable pub rest_status_ref : Lib → Str → Option (Str × Str)
rest_status_ref lib url = elim (lib.parse_url url) [
  | none ↦ none
  | some u ↦
      let id = path_base (trim_right b'/' u.path) in
      if eqb u.host []
      then none
      else if eqb id [] || (eqb id (codes ".") || eqb id (codes "/"))
      then none
      else some (u.host, id)
]

-- acctHandle.
unfoldable pub acct_handle : Str → Str → Str
acct_handle host acct =
    if eqb acct [] || contains acct (codes "@") then acct else acct ++ (codes "@" ++ host)

-- The account handle under a key of a status or of a quote.
account_handle : Str → Fields → Str
account_handle host s =
    acct_handle host (as_string (get_in (as_map (get s (codes "account"))) (codes "acct")))

-- The URL of a media attachment that is an image; the empty text otherwise.
media_url : Json → Str
media_url (obj a) =
    if eqb (as_string (get a (codes "type"))) (codes "image")
    then as_string (get a (codes "url"))
    else []
media_url _ = []

media_urls : List Json → List Str
media_urls [] = []
media_urls (v ∷ vs) =
    let rest = media_urls vs in if eqb (media_url v) [] then rest else media_url v ∷ rest

-- The quote of a status.
with_rest_quote : Str → Option Fields → Tweet → Tweet
with_rest_quote host none t = t
with_rest_quote host (some q) t =
    let uri = as_string (get q (codes "uri")) in
    let by = account_handle host q in
    if eqb uri [] then t else record t {
      quoted_tweet_id = some uri;
      quoted_user_id = if eqb by [] then t.quoted_user_id else some by;
    }

-- The URI of a status, or else its URL.
status_uri : Fields → Str
status_uri s =
    let uri = as_string (get s (codes "uri")) in
    if eqb uri [] then as_string (get s (codes "url")) else uri

or_root : Str → Option Str → Str
or_root root none = root
or_root root (some uri) = uri

module _ (lib : Lib) (reader : Reader) (now : ℕ) (host : Str) where
  -- The tweet of restBaseTweet for a status with a URI.
  rest_tweet : Str → Fields → Tweet
  rest_tweet uri s =
      let handle = account_handle host s in
      with_rest_quote host (as_map (get s (codes "quote"))) (record zero_tweet {
        id = uri;
        root_id = uri;
        text = html_to_text lib (as_string (get s (codes "content")));
        user_id = handle;
        username = handle;
        created_at = or_now now (parse_ap_time reader (as_string (get s (codes "created_at"))));
        network = mastodon_network;
        image_keys = media_urls (as_slice (get s (codes "media_attachments")));
      })

  -- restBaseTweet; none is ok = false.
  unfoldable pub rest_base_tweet : Fields → Option Tweet
  unfolding account_handle media_url media_urls with_rest_quote status_uri rest_tweet
  rest_base_tweet s = if eqb (status_uri s) [] then none else some (rest_tweet (status_uri s) s)

  -- A status, from the tweet of the status that it boosts: none if it boosts none.
  boost_of : Fields → Option (Option Tweet) → Option Tweet
  boost_of s none = rest_base_tweet s
  boost_of s (some none) = none
  boost_of s (some (some t)) =
      let by = account_handle host s in
      some (if eqb by [] then t else record t { retweeted_by = some by })

  -- The tweet of the status under the key "reblog".
  reblogged : Fields → Option (Option Tweet)
  unfolding boost_of account_handle
  reblogged end = none
  reblogged (field k (obj m) fs) =
      let here = boost_of m (reblogged m) in
      let later = reblogged fs in if eqb k (codes "reblog") then some here else later
  reblogged (field k _ fs) =
      let later = reblogged fs in if eqb k (codes "reblog") then none else later

  -- restStatusToTweet.
  unfoldable pub rest_status_to_tweet : Fields → Option Tweet
  unfolding boost_of reblogged account_handle
  rest_status_to_tweet s = boost_of s (reblogged s)

  reblogged_lem :
      (s : Fields)
      → reblogged s ≡ (elim (as_map (get s (codes "reblog"))) [
        | none ↦ none
        | some m ↦ some (rest_status_to_tweet m)
      ])
  unfolding reblogged rest_status_to_tweet get as_map
  reblogged_lem end = refl
  reblogged_lem (field k (obj m) fs) = ground (arith, reblogged_lem fs)
  reblogged_lem (field k null fs) = ground (arith, reblogged_lem fs)
  reblogged_lem (field k (bool _) fs) = ground (arith, reblogged_lem fs)
  reblogged_lem (field k (num _) fs) = ground (arith, reblogged_lem fs)
  reblogged_lem (field k (str _) fs) = ground (arith, reblogged_lem fs)
  reblogged_lem (field k (arr _) fs) = ground (arith, reblogged_lem fs)

  -- What restStatusToTweet recurses on is the status that is boosted.
  rest_status_to_tweet-reblog :
      (s : Fields)
      → rest_status_to_tweet s
        ≡ boost_of s (elim (as_map (get s (codes "reblog"))) [
          | none ↦ none
          | some m ↦ some (rest_status_to_tweet m)
        ])
  unfolding rest_status_to_tweet
  rest_status_to_tweet-reblog s = ap (boost_of s) (reblogged_lem s)

  -- The parent of a reply: the known URI of the status it answers, or else the root.
  parent_of : Str → Str → List (Str × Str) → Str
  parent_of root_url id id_to_uri =
      if eqb id [] then root_url else or_root root_url (lookup id id_to_uri)

  -- restReplyToTweet, with the URIs of the statuses that are known by their ids.
  unfoldable pub rest_reply_to_tweet : Fields → Str → List (Str × Str) → Option Tweet
  unfolding parent_of or_root
  rest_reply_to_tweet s root_url id_to_uri = elim (rest_base_tweet s) [
    | none ↦ none
    | some t ↦ some (record t {
      root_id = root_url;
      parent_id = some (parent_of root_url (as_string (get s (codes "in_reply_to_id"))) id_to_uri);
    })
  ]
