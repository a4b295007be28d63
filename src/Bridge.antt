-- ===== src/Bridge.antt =====
-- mastodon-bridge.go: what a Warpnet node reads of the Fediverse, and what it writes there.
pub mod Resolve
pub mod Rest
pub mod Items
pub mod Status
pub mod OwnStatus
pub mod Timeline
pub mod Replies
pub mod Lists
pub mod Stats
pub mod Write
use activity_pub_gw.Base.{ℕ, Bool, true, false, List, [], ◌∷◌, Option, none, some, if◌then◌else◌}
use activity_pub_gw.Base.Result.{Result}
use activity_pub_gw.Text.{Str, codes, eqb, has_prefix, trim_prefix, cut}
use activity_pub_gw.Json.{Json, Fields, get, as_map}
use activity_pub_gw.Remote.{FetchError}

-- Why an operation of the bridge fails.
pub data BridgeError : Type 0 where
  fetch : FetchError → BridgeError
  self_target not_a_handle no_self_link no_author : BridgeError

-- apTransport: what the bridge uses of the gateway. Each fetch gives what the remote server answers
-- to it; `accept` tells the documents of ActivityPub from those of the REST interface.
pub record Transport : Type 0 where
  pub resolve_actor_id : Str → Result BridgeError Str
  pub fetch_actor : Str → Result BridgeError Fields
  pub ap_get_json : Str → Str → Result BridgeError Fields
  pub ap_get_array : Str → Str → Result BridgeError (List Json)
  pub remote_inbox : Str → Result BridgeError Str
  pub fetch_media : Str → Result BridgeError (Str × Str)
  pub actor_id : Str → Str
  pub is_self_host : Str → Bool

abbrev pub content_type_ap : Str
content_type_ap = codes "application/activity+json"

abbrev pub content_type_json : Str
content_type_json = codes "application/json"

-- `if inner := asMap(m["object"]); inner != nil { m = inner }`.
unfoldable pub inner_object : Fields → Fields
inner_object m = elim (as_map (get m (codes "object"))) [ none ↦ m | some inner ↦ inner ]

-- pageCursor; the empty text when the cursor is no page of the Fediverse.
unfoldable pub page_cursor : Option Str → Str
page_cursor none = []
page_cursor (some c) = if has_prefix c (codes "https://") then c else []

-- The split of name@instance; none unless both parts are there.
unfoldable pub split_handle : Str → Option (Str × Str)
split_handle handle = elim (cut (trim_prefix handle (codes "@")) (codes "@")) [
  | none ↦ none
  | some (name, instance_host) ↦
      if eqb name []
      then none
      else if eqb instance_host []
      then none
      else some (name, instance_host)
]
