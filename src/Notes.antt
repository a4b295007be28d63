-- ===== src/Notes.antt =====
-- notes.go, mediaproxy.go: the ActivityPub note of a tweet, and the references to its images.
pub mod Refs
use activity_pub_gw.Base.{
  ℕ, Bool, true, false, List, [], ◌∷◌, ◌++◌, Option, none, some, not, ◌&&◌, ◌||◌, if◌then◌else◌,
  ◌>>=◌,
}
use activity_pub_gw.Text.{Str, codes, eqb, cut, trim_prefix}
use activity_pub_gw.Base64
use activity_pub_gw.Wire.{Tweet}
use activity_pub_gw.Actor.{base_url, actor_id, status_url}

-- mediaRefSep.
abbrev pub media_ref_sep : Str
media_ref_sep = 31 ∷ []

-- encodeMediaRef.
unfoldable pub encode_media_ref : Str → Str → Str
encode_media_ref user key = Base64.encode (user ++ (media_ref_sep ++ key))

-- decodeMediaRef.
unfoldable pub decode_media_ref : Str → Option (Str × Str)
decode_media_ref ref = do bytes ← Base64.decode ref; cut bytes media_ref_sep

-- The answers of handleMedia; the last has the media type and the bytes.
pub data MediaReply : Type 0 where
  no_node not_found fetch_failed decode_failed : MediaReply
  image : Str → Str → MediaReply

-- The file of a node's answer: `std_decode` is base64.StdEncoding, `trim_base64` cuts the suffix
-- ";base64".
media_file : (Str → Option Str) → (Str → Str) → Str → MediaReply
media_file std_decode trim_base64 file = elim (cut file (codes ",")) [
  | none ↦ not_found
  | some (mime, encoded) ↦ elim (std_decode encoded) [
    | none ↦ decode_failed
    | some bytes ↦ image (trim_base64 (trim_prefix mime (codes "data:"))) bytes
  ]
]

-- The part of handleMedia behind the fetch; none is a malformed answer.
media_answer : (Str → Option Str) → (Str → Str) → Option Str → MediaReply
media_answer std_decode trim_base64 none = not_found
media_answer std_decode trim_base64 (some file) =
    if eqb file [] then not_found else media_file std_decode trim_base64 file

media_for :
    (Str → Option Str)
    → (Str → Str)
    → (Str → Str → Option (Option Str))
    → Option (Str × Str)
    → MediaReply
media_for std_decode trim_base64 get_image none = not_found
media_for std_decode trim_base64 get_image (some (user, key)) =
    if eqb key [] then not_found else elim (get_image user key) [
      | none ↦ fetch_failed
      | some file ↦ media_answer std_decode trim_base64 file
    ]

-- handleMedia, from whether a node is connected and what it answers to PUBLIC_GET_IMAGE: none is a
-- failed request.
unfoldable pub handle_media :
    (Str → Option Str) → (Str → Str) → Bool → (Str → Str → Option (Option Str)) → Str → MediaReply
unfolding media_for media_answer media_file
handle_media std_decode trim_base64 has_node get_image path =
    if has_node
    then media_for std_decode trim_base64 get_image
        (decode_media_ref (trim_prefix path (codes "/media/")))
    else no_node

-- note, with the fields that depend on the tweet; `in_reply_to` is empty when it is left out.
pub record Note : Type 0 where
  pub id : Str
  pub attributed_to : Str
  pub content : Str
  pub published : ℕ
  pub replies : Str
  pub to : List Str
  pub cc : List Str
  pub in_reply_to : Str
  pub attachments : List Str

-- activity, for a Create.
pub record CreateNote : Type 0 where
  pub id : Str
  pub actor : Str
  pub object : Note
  pub to : List Str
  pub cc : List Str

abbrev pub as_public : Str
as_public = codes "https://www.w3.org/ns/activitystreams#Public"

-- *s, or the empty text for nil.
text_of : Option Str → Str
text_of none = []
text_of (some s) = s

-- replyParentID.
unfoldable pub reply_parent_id : Tweet → Str
unfolding text_of
reply_parent_id t =
    if not (eqb (text_of t.parent_id) [])
    then text_of t.parent_id
    else if not (eqb t.root_id []) && not (eqb t.root_id t.id)
    then t.root_id
    else []

module _ (host : Str) (escape : Str → Str) where
  -- The attachment URLs of buildNote.
  attachments_of : Str → List Str → List Str
  attachments_of user [] = []
  attachments_of user (key ∷ keys) =
      (base_url host ++ (codes "/media/" ++ encode_media_ref user key)) ∷ attachments_of user keys

  -- buildNote; `escape` is html.EscapeString.
  unfoldable pub build_note : Str → Tweet → Note
  unfolding attachments_of
  build_note local_user t =
      let parent = reply_parent_id t in
      record {
        id = status_url host local_user t.id;
        attributed_to = actor_id host local_user;
        content = codes "<p>" ++ (escape t.text ++ codes "</p>");
        published = t.created_at;
        replies = status_url host local_user t.id ++ codes "/replies";
        to = as_public ∷ [];
        cc = (actor_id host local_user ++ codes "/followers") ∷ [];
        in_reply_to = if eqb parent [] then [] else status_url host local_user parent;
        attachments = attachments_of t.user_id t.image_keys;
      }

  -- buildCreateNote.
  unfoldable pub build_create_note : Str → Tweet → CreateNote
  build_create_note local_user t =
      let n = build_note local_user t in
      record {
        id = n.id ++ codes "/activity";
        actor = n.attributed_to;
        object = n;
        to = n.to;
        cc = n.cc;
      }

  -- The note that serveStatus gives for a tweet: `parent` is the parent URL of the query, and
  -- `encode_query` the encoding of a query with it.
  unfoldable pub served_note : (Str → Str) → Str → Str → Tweet → Note
  served_note encode_query user parent t =
      if eqb parent [] then build_note user t else record (build_note user t) {
        id = status_url host user t.id ++ (codes "?" ++ encode_query parent);
        in_reply_to = parent;
      }

  -- serveStatus, from the node's answer (none without a node, on an error or a malformed answer);
  -- none is a 404.
  unfoldable pub serve_status : (Str → Str) → Str → Str → Option Tweet → Option Note
  serve_status encode_query user parent none = none
  serve_status encode_query user parent (some t) =
      if eqb t.id [] then none else some (served_note encode_query user parent t)
