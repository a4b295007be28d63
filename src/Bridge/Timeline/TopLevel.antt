-- ===== src/Bridge/Timeline/TopLevel.antt =====
-- The tweets of a profile's timeline.
use activity_pub_gw.Base.{ℕ, ◌≡◌, ◌⊎◌, true, List, [], ◌∷◌, Option, none, some, All}
use activity_pub_gw.Base.Result.{Result, ok, err}
use activity_pub_gw.Text.{Str, codes}
use activity_pub_gw.Json.{Json, Fields, obj, get, as_string, as_slice}
use activity_pub_gw.Url.{Lib}
use activity_pub_gw.Wire.{Tweet, TweetsPage}
use activity_pub_gw.MastodonMap.{Reader}
use activity_pub_gw.Bridge.{BridgeError, Transport, content_type_ap, content_type_json}
use activity_pub_gw.Bridge.Rest.{rest_status_to_tweet}
use activity_pub_gw.Bridge.Items.{resolve_timeline_items}
use activity_pub_gw.Bridge.Timeline.{Query, is_top_level, top_level_only}

-- A tweet that is no reply.
abbrev pub TopLevel : Tweet → Type 0
TopLevel t = is_top_level t ≡ true

-- A value is one of a list.
abbrev pub IsIn : Json → List Json → Type 0
IsIn v [] = ⊥
IsIn v (w ∷ ws) = (v ≡ w) ⊎ IsIn v ws

module _ (t : Transport) (lib : Lib) (reader : Reader) (query : Query) (now : ℕ) where
  -- A tweet is made of one of some REST statuses, on a host, and the status answers none.
  abbrev pub IsOfStatus : Str → List Json → Tweet → Type 0
  IsOfStatus host statuses tw =
      (s : Fields) × IsIn (obj s) statuses
      × (as_string (get s (codes "in_reply_to_id")) ≡ [])
      × (rest_status_to_tweet lib reader now host s ≡ some tw)

  -- A page of a timeline without replies: it has no tweets; or they are made of the statuses that a
  -- REST interface answered and that are no replies; or they are those of an outbox page's items
  -- that answer no tweet.
  pub data IsTopPage (handle : Str) (page : TweetsPage) : Type 0 where
    nothing : page.tweets ≡ [] → IsTopPage handle page
    of_statuses :
        (url host : Str) (statuses : List Json)
        → t.ap_get_array content_type_json url ≡ ok statuses
        → All (IsOfStatus host statuses) page.tweets
        → IsTopPage handle page
    of_outbox :
        (url : Str) (m : Fields)
        → t.ap_get_json content_type_ap url ≡ ok m
        → page.tweets
          ≡ top_level_only (
              resolve_timeline_items t lib reader now handle
                (as_slice (get m (codes "orderedItems"))))
        → All TopLevel page.tweets
        → IsTopPage handle page

  abbrev IfPage : Str → Option TweetsPage → Type 0
  IfPage handle none = Unit
  IfPage handle (some page) = IsTopPage handle page

  abbrev IfAnswer : Str → Result BridgeError TweetsPage → Type 0
  IfAnswer handle (err _) = Unit
  IfAnswer handle (ok page) = IsTopPage handle page
