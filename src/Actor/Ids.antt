-- ===== src/Actor/Ids.antt =====
-- followers.go, inbound.go: the Warpnet ids of Fediverse accounts.
use activity_pub_gw.Base.{◌≡◌, true, some, arith, Bool-cases, inl, inr}
use activity_pub_gw.Text.{Str, codes, contains}
use activity_pub_gw.Text.Laws.{cut_prefix-append, has_prefix-append}
use activity_pub_gw.Base64
use activity_pub_gw.Base64.RoundTrip.{IsBytes, decode-encode}
use activity_pub_gw.Url.{Lib}
use activity_pub_gw.Actor.{
  encode_actor_id, decode_actor_id, is_bridged_user_id, handle_from_actor_url, bridged_user_id,
  ap_follower_prefix,
}

-- An encoded actor URL, a text of bytes, decodes to the URL.
pub decode_actor_id-encode_actor_id :
    (url : Str) → IsBytes url → decode_actor_id (encode_actor_id url) ≡ some url
unfolding decode_actor_id encode_actor_id
decode_actor_id-encode_actor_id url h =
    rw (cut_prefix-append ap_follower_prefix _) (decode-encode url h)

encode_actor_id-bridged : (url : Str) → is_bridged_user_id (encode_actor_id url) ≡ true
unfolding is_bridged_user_id encode_actor_id
encode_actor_id-bridged url =
    ground (arith, has_prefix-append ap_follower_prefix (Base64.encode url))

contains-bridged : (id : Str) → contains id (codes "@") ≡ true → is_bridged_user_id id ≡ true
unfolding is_bridged_user_id
contains-bridged id h = ground arith

-- Whatever the actor URL, the id that a node is given for it is recognised as a Fediverse account.
bridged_user_id-bridged :
    (lib : Lib) (url : Str) → is_bridged_user_id (bridged_user_id lib url) ≡ true
unfolding bridged_user_id
bridged_user_id-bridged lib url =
    elim (Bool-cases (contains (handle_from_actor_url lib url) (codes "@"))) [
      | inl handle ↦ rw handle (contains-bridged (handle_from_actor_url lib url) handle)
      | inr raw ↦ rw raw (encode_actor_id-bridged url)
    ]
