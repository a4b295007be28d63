-- ===== src/Bridge/Stats.antt =====
-- The counts of a status, and images.
use activity_pub_gw.Base.{ℕ, ltb, List, [], ◌∷◌, ◌++◌, Option, none, some, if◌then◌else◌}
use activity_pub_gw.Base.Result.{Result, ok, err, ◌>>=◌}
use activity_pub_gw.Text.{Str, codes, eqb, trim_prefix}
use activity_pub_gw.Json.{Fields, get, has_key}
use activity_pub_gw.Url.{Lib}
use activity_pub_gw.MastodonMap.{Reader, num_field, ap_collection_count}
use activity_pub_gw.Bridge.{
  BridgeError, Transport, content_type_ap, content_type_json, inner_object,
}
use activity_pub_gw.Bridge.Rest.{rest_status_ref}

-- event.TweetStatsResponse, without the reaction of the asking user.
pub record TweetStats : Type 0 where
  pub tweet_id : Str
  pub reactions_count : ℕ
  pub retweets_count : ℕ
  pub replies_count : ℕ
  pub reactions : List (Str × ℕ)

module _ (t : Transport) (lib : Lib) (reader : Reader) where
  -- tweetStats.
  unfoldable pub tweet_stats : Str → ℕ → ℕ → ℕ → TweetStats
  tweet_stats url favourites boosts replies = record {
    tweet_id = url;
    reactions_count = favourites;
    retweets_count = boosts;
    replies_count = replies;
    reactions = if ltb 0 favourites then (lib.default_reaction, favourites) ∷ [] else [];
  }

  -- The counts of a REST status; none when the answer is no status.
  rest_stats : Str → Result BridgeError Fields → Option TweetStats
  rest_stats url (err _) = none
  rest_stats url (ok m) =
      if has_key m (codes "replies_count")
      then some (
          tweet_stats url (num_field reader (get m (codes "favourites_count")))
            (num_field reader (get m (codes "reblogs_count")))
            (num_field reader (get m (codes "replies_count"))))
      else none

  rest_stats_at : Str → Option (Str × Str) → Option TweetStats
  rest_stats_at url none = none
  rest_stats_at url (some (host, id)) = rest_stats url (
      t.ap_get_json content_type_json
        (codes "https://" ++ (host ++ (codes "/api/v1/statuses/" ++ id))))

  -- The counts of a note.
  note_stats : Str → Fields → TweetStats
  note_stats url m =
      tweet_stats url (ap_collection_count reader (get m (codes "likes")))
        (ap_collection_count reader (get m (codes "shares")))
        (ap_collection_count reader (get m (codes "replies")))

  stats_or_note : Str → Option TweetStats → Result BridgeError TweetStats
  stats_or_note url (some s) = ok s
  stats_or_note url none = do
    m ← t.ap_get_json content_type_ap url
    ok (note_stats url (inner_object m))

  -- GetTweetStats; `retweet_prefix` is domain.RetweetPrefix.
  unfoldable pub get_tweet_stats : Str → Str → Result BridgeError TweetStats
  unfolding rest_stats rest_stats_at note_stats stats_or_note
  get_tweet_stats retweet_prefix note_url =
      let url = trim_prefix note_url retweet_prefix in
      stats_or_note url (rest_stats_at url (rest_status_ref lib url))

-- GetImage, from the media type and the bytes.
data_url : (Str → Str) → Str × Str → Str
data_url encode_base64 (mime, bytes) =
    codes "data:"
    ++ ((if eqb mime [] then codes "image/jpeg" else mime)
        ++ (codes ";base64," ++ encode_base64 bytes))

-- GetImage; `encode_base64` is base64.StdEncoding.
unfoldable pub get_image : Transport → (Str → Str) → Str → Result BridgeError Str
unfolding data_url
get_image t encode_base64 url = do r ← t.fetch_media url; ok (data_url encode_base64 r)
