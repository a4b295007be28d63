-- ===== src/ActorDoc.antt =====
-- server.go, badge.go, source.go: the actor documents that the gateway serves and updates.
use activity_pub_gw.Base.{List, [], ◌∷◌, ◌++◌, Option, none, some, ◌||◌, if◌then◌else◌}
use activity_pub_gw.Text.{Str, codes, eqb, trim_prefix}
use activity_pub_gw.Actor.{base_url, actor_id, key_id, instance_actor_id, instance_key_id}
use activity_pub_gw.Server.{instance_actor_name}
use activity_pub_gw.Notes.{encode_media_ref}

-- warpnetUser.
pub record WarpnetUser : Type 0 where
  pub id : Str
  pub preferred_username : Str
  pub display_name : Str
  pub summary : Str
  pub avatar : Str
  pub background : Str

-- staticSource.GetUser.
unfoldable pub static_user : WarpnetUser → Str → Option WarpnetUser
static_user user name = if eqb name user.preferred_username then some user else none

-- emojiTag with its emojiIcon, and propertyValue.
pub record EmojiTag : Type 0 where
  pub kind : Str
  pub id : Str
  pub name : Str
  pub icon_kind : Str
  pub icon_media_type : Str
  pub icon_url : Str

pub record PropertyValue : Type 0 where
  pub kind : Str
  pub name : Str
  pub value : Str

-- actor, with the fields that vary; `icon` and `image` are empty when they are left out.
pub record ActorDocument : Type 0 where
  pub id : Str
  pub kind : Str
  pub preferred_username : Str
  pub name : Str
  pub summary : Str
  pub inbox : Str
  pub outbox : Str
  pub followers : Str
  pub following : Str
  pub key_id : Str
  pub key_owner : Str
  pub key_pem : Str
  pub shared_inbox : Str
  pub tags : List EmojiTag
  pub attachments : List PropertyValue
  pub icon : Str
  pub image : Str

-- warpnetEmojiShortcode, and warpnetBioPrefix as a parameter of what uses it.
abbrev pub warpnet_emoji : Str
warpnet_emoji = codes ":warpnet:"

-- warpnetBadgePath.
abbrev pub warpnet_badge_path : Str
warpnet_badge_path = codes "/static/warpnet.png"

-- warpnetActorTag.
unfoldable pub warpnet_actor_tag : Str → EmojiTag
warpnet_actor_tag host = record {
  kind = codes "Emoji";
  id = base_url host ++ codes "/emoji/warpnet";
  name = warpnet_emoji;
  icon_kind = codes "Image";
  icon_media_type = codes "image/png";
  icon_url = base_url host ++ warpnet_badge_path;
}

-- warpnetNetworkField.
unfoldable pub warpnet_network_field : PropertyValue
warpnet_network_field = record {
  kind = codes "PropertyValue";
  name = codes "Network";
  value =
      codes
        "<a href=\"https://warpnet.site\" rel=\"nofollow noopener\" target=\"_blank\">Warpnet</a>";
}

-- badgedSummary; `escape` is html.EscapeString.
unfoldable pub badged_summary : Str → (Str → Str) → Str → Str
badged_summary prefix escape bio =
    if eqb bio [] then prefix else prefix ++ (codes "<p>" ++ (escape bio ++ codes "</p>"))

-- What handleInstanceActorSub answers: an empty collection under an id, or a 404.
pub data SubReply : Type 0 where
  empty_collection : Str → SubReply
  not_found : SubReply

module _ (host pem : Str) where
  -- handleInstanceActor.
  unfoldable pub instance_actor : ActorDocument
  instance_actor =
      let id = instance_actor_id host in
      record {
        id = id;
        kind = codes "Application";
        preferred_username = instance_actor_name;
        name = [];
        summary = [];
        inbox = base_url host ++ codes "/inbox";
        outbox = id ++ codes "/outbox";
        followers = id ++ codes "/followers";
        following = id ++ codes "/following";
        key_id = instance_key_id host;
        key_owner = id;
        key_pem = pem;
        shared_inbox = base_url host ++ codes "/inbox";
        tags = [];
        attachments = [];
        icon = [];
        image = [];
      }

  -- handleInstanceActorSub.
  unfoldable pub handle_instance_actor_sub : Str → SubReply
  handle_instance_actor_sub path =
      let sub = trim_prefix path (codes "/actor/") in
      if eqb sub (codes "outbox") || (eqb sub (codes "followers") || eqb sub (codes "following"))
      then empty_collection (base_url host ++ path)
      else not_found

  -- The URL of a user's picture.
  picture : Str → Str → Str
  picture user key =
      if eqb key [] then [] else base_url host ++ (codes "/media/" ++ encode_media_ref user key)

  -- buildActor.
  unfoldable pub build_actor : Str → (Str → Str) → WarpnetUser → ActorDocument
  unfolding picture
  build_actor prefix escape wu =
      let id = actor_id host wu.preferred_username in
      record {
        id = id;
        kind = codes "Person";
        preferred_username = wu.preferred_username;
        name =
            (if eqb wu.display_name [] then wu.preferred_username else wu.display_name)
            ++ (codes " " ++ warpnet_emoji);
        summary = badged_summary prefix escape wu.summary;
        inbox = id ++ codes "/inbox";
        outbox = id ++ codes "/outbox";
        followers = id ++ codes "/followers";
        following = id ++ codes "/following";
        key_id = key_id host wu.preferred_username;
        key_owner = id;
        key_pem = pem;
        shared_inbox = base_url host ++ codes "/inbox";
        tags = warpnet_actor_tag host ∷ [];
        attachments = warpnet_network_field ∷ [];
        icon = picture wu.preferred_username wu.avatar;
        image = picture wu.preferred_username wu.background;
      }
