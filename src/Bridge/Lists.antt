-- ===== src/Bridge/Lists.antt =====
-- The followers and followings of a remote actor.
pub mod NoSelf
use activity_pub_gw.Base.{
  Bool, true, false, List, [], ◌∷◌, Option, none, some, not, ◌&&◌, if◌then◌else◌,
}
use activity_pub_gw.Base.Result.{Result, ok, err, ◌>>=◌}
use activity_pub_gw.Text.{Str, codes, eqb, cut}
use activity_pub_gw.Json.{Json, Fields, get, as_string, as_slice}
use activity_pub_gw.Url.{Lib}
use activity_pub_gw.MastodonMap.{collect_handles}
use activity_pub_gw.Bridge.{BridgeError, Transport, content_type_ap, page_cursor}

-- followersResponse and followingsResponse: whose list it is, the handles and the cursor.
pub record Handles : Type 0 where
  pub owner : Str
  pub handles : List Str
  pub cursor : Str

is_empty : List Json → Bool
is_empty [] = true
is_empty (_ ∷ _) = false

module _ (t : Transport) (lib : Lib) where
  -- The test of dropSelfHandles on the instance of a handle.
  self_instance : Option (Str × Str) → Bool
  self_instance none = false
  self_instance (some (_, instance_host)) = t.is_self_host instance_host

  unfoldable pub is_self_handle : Str → Bool
  unfolding self_instance
  is_self_handle h = self_instance (cut h (codes "@"))

  -- dropSelfHandles.
  unfoldable pub drop_self_handles : List Str → List Str
  drop_self_handles [] = []
  drop_self_handles (h ∷ hs) =
      let rest = drop_self_handles hs in if is_self_handle h then rest else h ∷ rest

  listed_page : Fields → List Str × Str
  listed_page page =
      (drop_self_handles (collect_handles lib page), as_string (get page (codes "next")))

  -- A page of the collection; a hidden one is empty.
  list_page : Result BridgeError Fields → List Str × Str
  list_page (err _) = ([], [])
  list_page (ok page) = listed_page page

  list_at : Str → List Str × Str
  list_at url = list_page (t.ap_get_json content_type_ap url)

  -- The collection itself, which may have its members in pages.
  collection_list : Result BridgeError Fields → List Str × Str
  collection_list (err _) = ([], [])
  collection_list (ok page) =
      let first = as_string (get page (codes "first")) in
      if not (eqb first [])
        && (is_empty (as_slice (get page (codes "orderedItems")))
            && is_empty (as_slice (get page (codes "items"))))
      then list_at first
      else listed_page page

  actor_list : Str → List Str × Str
  actor_list url =
      if eqb url [] then ([], []) else collection_list (t.ap_get_json content_type_ap url)

  from_actor : Str → Str → Result BridgeError (List Str × Str)
  from_actor handle key = do
    url ← t.resolve_actor_id handle
    actor ← t.fetch_actor url
    ok (actor_list (as_string (get actor key)))

  -- followList.
  unfoldable pub follow_list : Str → Option Str → Str → Result BridgeError (List Str × Str)
  unfolding is_empty listed_page list_page list_at collection_list actor_list from_actor
  follow_list handle cursor key =
      if eqb (page_cursor cursor) []
      then from_actor handle key
      else ok (list_at (page_cursor cursor))

  -- GetFollowers.
  unfoldable pub get_followers : Str → Option Str → Result BridgeError Handles
  get_followers handle cursor = do
    r ← follow_list handle cursor (codes "followers")
    ok (record { owner = handle; handles = r.0; cursor = r.1 })

  -- GetFollowings.
  unfoldable pub get_followings : Str → Option Str → Result BridgeError Handles
  get_followings handle cursor = do
    r ← follow_list handle cursor (codes "following")
    ok (record { owner = handle; handles = r.0; cursor = r.1 })
