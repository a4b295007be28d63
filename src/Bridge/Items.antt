-- ===== src/Bridge/Items.antt =====
-- The items of an outbox as tweets: posts, boosts and quotes.
use activity_pub_gw.Base.{ℕ, List, [], ◌∷◌, Option, none, some, if◌then◌else◌}
use activity_pub_gw.Base.Result.{Result, ok, err}
use activity_pub_gw.Text.{Str, codes, eqb}
use activity_pub_gw.Json.{Json, obj, Fields, get, as_string}
use activity_pub_gw.Url.{Lib}
use activity_pub_gw.Wire.{Tweet}
use activity_pub_gw.Actor.{handle_from_actor_url}
use activity_pub_gw.MastodonMap.{Reader, note_to_tweet}
use activity_pub_gw.Bridge.{BridgeError, Transport, content_type_ap, inner_object}

-- A tweet that was made, in front of the others.
unfoldable pub listed : Option Tweet → List Tweet → List Tweet
listed none ts = ts
listed (some t) ts = t ∷ ts

module _ (t : Transport) (lib : Lib) (reader : Reader) (now : ℕ) where
  -- fillQuotedAuthor, on the document of the quoted status.
  quoted_author : Result BridgeError Fields → Tweet → Tweet
  quoted_author (err _) tw = tw
  quoted_author (ok m) tw =
      let author = as_string (get (inner_object m) (codes "attributedTo")) in
      if eqb author []
      then tw
      else record tw { quoted_user_id = some (handle_from_actor_url lib author) }

  quoted_unless_known : Option Str → Option Str → Tweet → Tweet
  quoted_unless_known (some url) none tw = quoted_author (t.ap_get_json content_type_ap url) tw
  quoted_unless_known _ _ tw = tw

  -- fillQuotedAuthor.
  unfoldable pub fill_quoted_author : Tweet → Tweet
  unfolding quoted_author quoted_unless_known
  fill_quoted_author tw = quoted_unless_known tw.quoted_tweet_id tw.quoted_user_id tw

  unfoldable pub filled : Option Tweet → Option Tweet
  filled none = none
  filled (some tw) = some (fill_quoted_author tw)

  -- The boost of activityToTweet, on the boosted note.
  boosted : Str → Result BridgeError Fields → Option Tweet
  boosted handle (err _) = none
  boosted handle (ok bm) =
      elim (note_to_tweet lib reader now
        (handle_from_actor_url lib (as_string (get bm (codes "attributedTo")))) bm) [
          | none ↦ none
          | some tw ↦ some (fill_quoted_author (record tw { retweeted_by = some handle }))
        ]

  -- activityToTweet; none is ok = false.
  unfoldable pub activity_to_tweet : Str → Fields → Option Tweet
  unfolding boosted filled
  activity_to_tweet handle item =
      let object = as_string (get item (codes "object")) in
      if eqb (as_string (get item (codes "type"))) (codes "Announce")
      then (if eqb object [] then none else boosted handle (t.ap_get_json content_type_ap object))
      else filled (note_to_tweet lib reader now handle (inner_object item))

  -- resolveTimelineItems: each item on its own, the order kept.
  unfoldable pub resolve_timeline_items : Str → List Json → List Tweet
  unfolding listed
  resolve_timeline_items handle [] = []
  resolve_timeline_items handle (obj item ∷ vs) =
      listed (activity_to_tweet handle item) (resolve_timeline_items handle vs)
  resolve_timeline_items handle (_ ∷ vs) = resolve_timeline_items handle vs
