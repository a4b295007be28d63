-- ===== src/Bridge/Resolve.antt =====
-- resolveActorID, and the profiles behind it.
pub mod NotSelf
use activity_pub_gw.Base.{
  ℕ, Bool, true, false, List, [], ◌∷◌, ◌++◌, Option, none, some, not, ◌&&◌, ◌||◌, if◌then◌else◌,
}
use activity_pub_gw.Base.Assoc.{lookup, insert}
use activity_pub_gw.Base.Result.{Result, ok, err, ◌>>=◌}
use activity_pub_gw.Text.{Str, codes, eqb}
use activity_pub_gw.Json.{Json, Fields, get, get_in, as_string, as_map, as_slice, string_or_empty}
use activity_pub_gw.Url.{Url, Lib}
use activity_pub_gw.Wire.{User}
use activity_pub_gw.Actor.{decode_actor_id}
use activity_pub_gw.MastodonMap.{Reader, actor_to_user, ap_collection_count}
use activity_pub_gw.Remote.{Gateway, is_self_url, is_self_host}
use activity_pub_gw.Bridge.{
  BridgeError, self_target, not_a_handle, no_self_link, Transport, content_type_ap, split_handle,
}

-- The loop over the links of a WebFinger document: the first self link with a target.
self_link : List Json → Option Str
self_link [] = none
self_link (l ∷ ls) =
    let rest = self_link ls in
    let href = string_or_empty (get_in (as_map l) (codes "href")) in
    if eqb (as_string (get_in (as_map l) (codes "rel"))) (codes "self")
    then (if eqb href [] then rest else some href)
    else rest

-- The address of a WebFinger request.
unfoldable pub webfinger_url : Str → Str → Str
webfinger_url name instance_host =
    codes "https://"
    ++ (instance_host
        ++ (codes "/.well-known/webfinger?resource=acct:"
            ++ (name ++ (codes "@" ++ instance_host))))

-- The cache actorIDs, and the WebFinger document that a server gives at an address.
module _ (g : Gateway) (webfinger : Str → Result BridgeError Fields) where
  -- What resolveActorID makes of a WebFinger answer; a found actor is cached.
  resolved :
      Str → List (Str × Str) → Result BridgeError Fields → Result BridgeError Str × List (Str × Str)
  resolved handle cache (err e) = (err e, cache)
  resolved handle cache (ok doc) = elim (self_link (as_slice (get doc (codes "links")))) [
    | none ↦ (err no_self_link, cache)
    | some href ↦ (ok href, insert handle href cache)
  ]

  look_up :
      Str → List (Str × Str) → Str × Str → Option Str → Result BridgeError Str × List (Str × Str)
  look_up handle cache parts (some cached) = (ok cached, cache)
  look_up handle cache (name, instance_host) none =
      resolved handle cache (webfinger (webfinger_url name instance_host))

  resolve_handle :
      Str → List (Str × Str) → Option (Str × Str) → Result BridgeError Str × List (Str × Str)
  resolve_handle handle cache none = (err not_a_handle, cache)
  resolve_handle handle cache (some (name, instance_host)) =
      if is_self_host g instance_host
      then (err self_target, cache)
      else look_up handle cache (name, instance_host) (lookup handle cache)

  resolve_id : Str → List (Str × Str) → Option Str → Result BridgeError Str × List (Str × Str)
  resolve_id handle cache none = resolve_handle handle cache (split_handle handle)
  resolve_id handle cache (some url) =
      if is_self_url g url then (err self_target, cache) else (ok url, cache)

  -- resolveActorID, with the cache before and after it.
  unfoldable pub resolve_actor_id :
      Str → List (Str × Str) → Result BridgeError Str × List (Str × Str)
  unfolding self_link resolved look_up resolve_handle resolve_id
  resolve_actor_id handle cache = resolve_id handle cache (decode_actor_id handle)

module _ (t : Transport) (lib : Lib) (reader : Reader) (now : ℕ) (node_id : Str) where
  -- collectionCount.
  collection_count : Str → ℕ
  collection_count url = if eqb url [] then 0 else elim (t.ap_get_json content_type_ap url) [
    | err _ ↦ 0
    | ok m ↦ ap_collection_count reader (Json.obj m)
  ]

  -- The end of getUser, on the actor document.
  profile : Str → Str → Fields → Bool → User
  unfolding collection_count
  profile handle url m with_counts =
      let u = actor_to_user lib reader now handle url m node_id in
      if with_counts
      then record u {
        followers_count = collection_count (as_string (get m (codes "followers")));
        followings_count = collection_count (as_string (get m (codes "following")));
        tweets_count = collection_count (as_string (get m (codes "outbox")));
      }
      else u

  -- getUser.
  unfoldable pub get_user : Str → Bool → Result BridgeError User
  unfolding profile
  get_user handle with_counts = do
    url ← t.resolve_actor_id handle
    m ← t.fetch_actor url
    ok (profile handle url m with_counts)
