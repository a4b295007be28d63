-- ===== src/Actor.antt =====
-- The identifiers of actors and statuses: our own URLs (server.go, notes.go), their parsers
-- (inbound.go, server.go), and the Warpnet ids of Fediverse accounts (followers.go, inbound.go).
pub mod Own
pub mod Ids
use activity_pub_gw.Base.{
  ℕ, Bool, true, false, List, [], ◌∷◌, ◌++◌, Option, none, some, ◌&&◌, ◌||◌, ◌==◌, if◌then◌else◌,
  ◌>>=◌, is_some,
}
use activity_pub_gw.Text.{
  Str, codes, eqb, cut_prefix, has_prefix, trim_prefix, cut, contains, until_byte, last_cut, Runes,
}
use activity_pub_gw.Base64
use activity_pub_gw.Url.{Url, Lib}

-- Our own URLs, for the gateway's public host name.
module _ (host : Str) where
  unfoldable pub base_url : Str
  base_url = codes "https://" ++ host

  unfoldable pub actor_id : Str → Str
  unfolding base_url
  actor_id user = base_url ++ (codes "/users/" ++ user)

  unfoldable pub key_id : Str → Str
  key_id user = actor_id user ++ codes "#main-key"

  unfoldable pub instance_actor_id : Str
  instance_actor_id = base_url ++ codes "/actor"

  unfoldable pub instance_key_id : Str
  instance_key_id = instance_actor_id ++ codes "#main-key"

  -- The id that buildNote gives a tweet.
  unfoldable pub status_url : Str → Str → Str
  status_url user id = actor_id user ++ (codes "/statuses/" ++ id)

  -- parseLocalStatus: the owner and the tweet id of one of our own status URLs.
  unfoldable pub parse_local_status : Str → Option (Str × Str)
  parse_local_status url = do
    rest ← cut_prefix (until_byte b'?' (until_byte b'#' url)) (base_url ++ codes "/users/")
    found ← cut rest (codes "/statuses/")
    if eqb found.0 [] || eqb found.1 [] then none else some (found.0, until_byte b'/' found.1)

-- userFromActorURL.
unfoldable pub user_from_actor_url : Str → Str
user_from_actor_url url = elim (cut url (codes "/users/")) [
  | none ↦ []
  | some (_, rest) ↦ until_byte b'/' rest
]

abbrev pub ap_follower_prefix : Str
ap_follower_prefix = codes "ap:"

unfoldable pub encode_actor_id : Str → Str
encode_actor_id url = ap_follower_prefix ++ Base64.encode url

-- none stands for errNotAPFollower and for a decoding error.
unfoldable pub decode_actor_id : Str → Option Str
decode_actor_id id = do enc ← cut_prefix id ap_follower_prefix; Base64.decode enc

unfoldable pub is_bridged_user_id : Str → Bool
is_bridged_user_id id = has_prefix id ap_follower_prefix || contains id (codes "@")

-- path.Base: the last element of a slash-separated path, trailing slashes dropped.
trim_slashes : Str → Str
trim_slashes [] = []
trim_slashes (a ∷ s) = elim (trim_slashes s) [
  | [] ↦ if a == b'/' then [] else a ∷ []
  | b ∷ r ↦ a ∷ b ∷ r
]

last_element : Str → Str
last_element s = elim (last_cut s (codes "/")) [
  | none ↦ s
  | some (_, r) ↦ trim_prefix r (codes "/")
]

unfoldable pub path_base : Str → Str
unfolding trim_slashes last_element
path_base s =
    if eqb s []
    then codes "."
    else let r = last_element (trim_slashes s) in if eqb r [] then codes "/" else r

module _ (lib : Lib) where
  -- handleFromActorURL.
  unfoldable pub handle_from_actor_url : Str → Str
  handle_from_actor_url url = elim (lib.parse_url url) [
    | none ↦ url
    | some u ↦
        let name = trim_prefix (path_base u.path) (codes "@") in
        if eqb u.host []
        then url
        else if eqb name [] || eqb name (codes ".") || eqb name (codes "/")
        then url
        else name ++ (codes "@" ++ u.host)
  ]

  -- bridgedUserID.
  unfoldable pub bridged_user_id : Str → Str
  bridged_user_id url =
      let handle = handle_from_actor_url url in
      if contains handle (codes "@") then handle else encode_actor_id url
