-- ===== src/Bridge/OwnStatus.antt =====
-- The statuses that this gateway serves itself, among those that other servers list.
use activity_pub_gw.Base.{[], Option, none, some, not, ◌||◌, if◌then◌else◌}
use activity_pub_gw.Text.{Str, codes, eqb, cut, cut_prefix, until_byte}
use activity_pub_gw.Json.{Fields, get_in, as_string}
use activity_pub_gw.Url.{Url, Lib}
use activity_pub_gw.Wire.{Tweet}
use activity_pub_gw.Bridge.{Transport}

module _ (t : Transport) (lib : Lib) where
  -- ownStatusRef.
  status_path : Option (Str × Str) → Option (Str × Str)
  status_path none = none
  status_path (some (owner, id)) =
      if eqb owner [] || eqb id [] then none else some (owner, until_byte b'/' id)

  own_path : Option Str → Option (Str × Str)
  own_path none = none
  own_path (some rest) = status_path (cut rest (codes "/statuses/"))

  own_url : Option Url → Option (Str × Str)
  own_url none = none
  own_url (some u) =
      if eqb u.host [] || not (t.is_self_host u.hostname)
      then none
      else own_path (cut_prefix u.path (codes "/users/"))

  unfoldable pub own_status_ref : Str → Option (Str × Str)
  unfolding status_path own_path own_url
  own_status_ref url = own_url (lib.parse_url url)

  -- A parent of ours under its bare id.
  native_id : Str → Option (Str × Str) → Str
  native_id url none = url
  native_id url (some (_, id)) = id

  native_parent : Option Str → Option Str
  native_parent none = none
  native_parent (some url) = some (native_id url (own_status_ref url))

  -- A tweet in its native shape, if its id is a status of ours.
  native_tweet : Option (Str × Str) → Str → Tweet → Tweet
  native_tweet none name tw = tw
  native_tweet (some (owner, id)) name tw = record tw {
    id = id;
    user_id = owner;
    network = [];
    username = if eqb name [] then owner else name;
  }

  -- nativizeOwnStatus.
  unfoldable pub nativize_own_status : Option Fields → Tweet → Tweet
  unfolding native_id native_parent native_tweet
  nativize_own_status account tw =
      native_tweet (own_status_ref tw.id) (as_string (get_in account (codes "display_name")))
        (record tw { parent_id = native_parent tw.parent_id })
