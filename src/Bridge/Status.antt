-- ===== src/Bridge/Status.antt =====
-- A single status: GetTweet.
use activity_pub_gw.Base.{ℕ, ◌++◌, Option, none, some}
use activity_pub_gw.Base.Result.{Result, ok, err, ◌>>=◌}
use activity_pub_gw.Text.{Str, codes, trim_prefix}
use activity_pub_gw.Json.{Fields, get, as_string}
use activity_pub_gw.Url.{Lib}
use activity_pub_gw.Wire.{Tweet, zero_tweet}
use activity_pub_gw.Actor.{handle_from_actor_url}
use activity_pub_gw.MastodonMap.{Reader, note_to_tweet}
use activity_pub_gw.Bridge.{
  BridgeError, Transport, content_type_ap, content_type_json, inner_object,
}
use activity_pub_gw.Bridge.Rest.{rest_status_ref, rest_status_to_tweet}
use activity_pub_gw.Bridge.Items.{filled}

module _ (t : Transport) (lib : Lib) (reader : Reader) (now : ℕ) where
  or_zero_tweet : Option Tweet → Tweet
  or_zero_tweet none = zero_tweet
  or_zero_tweet (some tw) = tw

  -- The tweet of apTweet, from the document.
  note_tweet : Fields → Tweet
  note_tweet m = or_zero_tweet (
      filled t lib reader now (
        note_to_tweet lib reader now
          (handle_from_actor_url lib (as_string (get m (codes "attributedTo")))) m))

  -- apTweet.
  unfoldable pub ap_tweet : Str → Result BridgeError Tweet
  unfolding filled or_zero_tweet note_tweet
  ap_tweet url = do m ← t.ap_get_json content_type_ap url; ok (note_tweet (inner_object m))

  -- The status of the REST interface, if the URL names one.
  rest_tweet_on : Str → Result BridgeError Fields → Option Tweet
  rest_tweet_on host (err _) = none
  rest_tweet_on host (ok m) = rest_status_to_tweet lib reader now host m

  rest_tweet_at : Option (Str × Str) → Option Tweet
  rest_tweet_at none = none
  rest_tweet_at (some (host, id)) = rest_tweet_on host (
      t.ap_get_json content_type_json
        (codes "https://" ++ (host ++ (codes "/api/v1/statuses/" ++ id))))

  tweet_or_note : Str → Option Tweet → Result BridgeError Tweet
  tweet_or_note url none = ap_tweet url
  tweet_or_note url (some tw) = ok tw

  -- GetTweet; `retweet_prefix` is domain.RetweetPrefix.
  unfoldable pub get_tweet : Str → Str → Result BridgeError Tweet
  unfolding rest_tweet_on rest_tweet_at tweet_or_note
  get_tweet retweet_prefix note_url =
      let url = trim_prefix note_url retweet_prefix in
      tweet_or_note url (rest_tweet_at (rest_status_ref lib url))
