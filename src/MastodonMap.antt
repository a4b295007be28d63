-- ===== src/MastodonMap.antt =====
-- mastodon-map.go: remote actors and notes as Warpnet users and tweets.
pub mod Threading
use activity_pub_gw.Base.{
  ℕ, Bool, true, false, List, [], ◌∷◌, ◌++◌, Option, none, some, ◌&&◌, ◌||◌, ◌==◌, not, is_some,
  if◌then◌else◌, ◌>>=◌,
}
use activity_pub_gw.Text.{Str, codes, eqb, has_prefix, split_byte, trim_byte, trim_left, trim_right}
use activity_pub_gw.Json.{
  Json, Items, Fields, null, bool, num, str, arr, obj, nil, cons, get, get_in, as_string, as_map,
  as_slice, string_or_empty,
}
use activity_pub_gw.Url.{Url, Lib}
use activity_pub_gw.Wire.{Tweet, zero_tweet, User}
use activity_pub_gw.Actor.{handle_from_actor_url}
use activity_pub_gw.Quote.{
  html_to_text, quoted_note_url, strip_quote_fallback, split_re_quote, split_re_prefix,
}

-- What the mapping takes of packages time and encoding/json: time.Parse at RFC 3339, in nanoseconds
-- (none is its error), and a JSON number as a uint64, 0 unless it is positive.
pub record Reader : Type 0 where
  pub rfc3339 : Str → Option ℕ
  pub uint_of : Str → ℕ

-- mastodonNetwork.
abbrev pub mastodon_network : Str
mastodon_network = codes "mastodon"

or_zero : Option ℕ → ℕ
or_zero none = 0
or_zero (some t) = t

-- parseAPTime; the zero time is 0.
unfoldable pub parse_ap_time : Reader → Str → ℕ
unfolding or_zero
parse_ap_time reader s = if eqb s [] then 0 else or_zero (reader.rfc3339 s)

-- `if t.IsZero() { t = time.Now() }`.
unfoldable pub or_now : ℕ → ℕ → ℕ
or_now now t = if t == 0 then now else t

-- asImageURL: a string, the url of an object, or the first of an array.
unfoldable mutual
  pub as_image_url : Json → Str
  as_image_url (str s) = s
  as_image_url (obj m) = as_string (get m (codes "url"))
  as_image_url (arr vs) = first_image_url vs
  as_image_url _ = []

  first_image_url : Items → Str
  first_image_url nil = []
  first_image_url (cons v _) = as_image_url v

-- A count under a key of a JSON number.
count_of : Reader → Json → ℕ
count_of reader (num n) = reader.uint_of n
count_of reader _ = 0

-- numField.
unfoldable pub num_field : Reader → Json → ℕ
unfolding count_of
num_field reader v = count_of reader v

-- apCollectionCount.
unfoldable pub ap_collection_count : Reader → Json → ℕ
ap_collection_count reader v = num_field reader (get_in (as_map v) (codes "totalItems"))

-- The name in a segment @name.
at_name : Str → Str
at_name [] = []
at_name (c ∷ name) = if c == b'@' then name else []

-- The switch of statusAuthorHandle on the segments of the path.
author_segment : List Str → Str
author_segment [] = []
author_segment (s ∷ []) = []
author_segment (s ∷ id ∷ []) = at_name s
author_segment (s ∷ id ∷ third ∷ more) =
    if eqb s (codes "users") && (not (eqb id []) && eqb third (codes "statuses"))
    then id
    else at_name s

-- The fields of a tweet that make it a reply to a parent.
unfoldable pub reply_of : Str → Tweet → Tweet
reply_of parent t = record t { root_id = parent; parent_id = some parent }

-- The URL of an attachment that is an image; the empty text otherwise.
image_attachment : Json → Str
image_attachment (obj a) =
    if has_prefix (string_or_empty (get a (codes "mediaType"))) (codes "image/")
    then as_string (get a (codes "url"))
    else []
image_attachment _ = []

image_attachments : List Json → List Str
image_attachments [] = []
image_attachments (v ∷ vs) =
    let rest = image_attachments vs in
    if eqb (image_attachment v) [] then rest else image_attachment v ∷ rest

module _ (lib : Lib) where
  -- statusAuthorHandle; the empty text when the URL does not name the author.
  unfoldable pub status_author_handle : Str → Str
  unfolding author_segment at_name
  status_author_handle url = elim (lib.parse_url url) [
    | none ↦ []
    | some u ↦
        let name = author_segment (split_byte b'/' (trim_byte b'/' u.path)) in
        if eqb u.host [] || eqb name [] then [] else name ++ (codes "@" ++ u.host)
  ]

  -- setQuoted.
  unfoldable pub set_quoted : Str → Tweet → Tweet
  set_quoted url t =
      let h = status_author_handle url in
      record t {
        quoted_tweet_id = some url;
        quoted_user_id = if eqb h [] then t.quoted_user_id else some h;
      }

  -- collectHandles.
  handles_of : List Json → List Str
  handles_of [] = []
  handles_of (v ∷ vs) =
      let rest = handles_of vs in
      if eqb (as_string v) [] then rest else handle_from_actor_url lib (as_string v) ∷ rest

  unfoldable pub collect_handles : Fields → List Str
  unfolding handles_of
  collect_handles page = elim (as_slice (get page (codes "orderedItems"))) [
    | [] ↦ handles_of (as_slice (get page (codes "items")))
    | v ∷ vs ↦ handles_of (v ∷ vs)
  ]

  -- The quote of a note whose quote property names a URL: the text fallback is dropped.
  quote_by_property : Str → Option Str → Tweet → Tweet
  quote_by_property url none t = set_quoted url t
  quote_by_property url (some comment) t =
      if eqb comment [] then set_quoted url t else record (set_quoted url t) { text = comment }

  -- The quote-post convention of a text that begins with the URL of its parent.
  reply_by_prefix : Option (Str × Str) → Tweet → Tweet
  reply_by_prefix none t = t
  reply_by_prefix (some (parent, rest)) t = record (reply_of parent t) {
    text = if eqb rest [] then t.text else rest;
  }

  reply_if_top_level : Option Str → Tweet → Tweet
  reply_if_top_level none t = reply_by_prefix (split_re_prefix lib t.text) t
  reply_if_top_level (some _) t = t

  -- The quote of a note without a quote property.
  quote_by_text : Option (Str × Str) → Tweet → Tweet
  quote_by_text none t = reply_if_top_level t.parent_id t
  quote_by_text (some (url, comment)) t =
      if eqb comment []
      then reply_if_top_level t.parent_id t
      else record (set_quoted url t) { text = comment }

  -- The branches of noteToTweet on quotes.
  unfoldable pub with_quote : Str → Tweet → Tweet
  unfolding quote_by_property quote_by_text reply_if_top_level reply_by_prefix
  with_quote url t =
      if eqb url []
      then quote_by_text (split_re_quote lib t.text) t
      else quote_by_property url (strip_quote_fallback lib t.text) t

module _ (lib : Lib) (reader : Reader) (now : ℕ) where
  -- The tweet of noteToTweet before the quotes and the attachments, by the author and the id.
  note_base : Str → Str → Fields → Tweet
  note_base user id note =
      let parent = as_string (get note (codes "inReplyTo")) in
      let t = record zero_tweet {
        id = id;
        root_id = id;
        text = html_to_text lib (as_string (get note (codes "content")));
        user_id = user;
        username = user;
        created_at = parse_ap_time reader (as_string (get note (codes "published")));
        network = mastodon_network;
      } in
      if eqb parent [] then t else reply_of parent t

  -- noteToTweet; none is ok = false.
  unfoldable pub note_to_tweet : Str → Fields → Option Tweet
  unfolding note_base image_attachments image_attachment
  note_to_tweet author note =
      let id = as_string (get note (codes "id")) in
      let user =
        if eqb author []
        then handle_from_actor_url lib (as_string (get note (codes "attributedTo")))
        else author in
      let t = with_quote lib (quoted_note_url note) (note_base user id note) in
      if not (eqb (string_or_empty (get note (codes "type"))) (codes "Note")) || eqb id []
      then none
      else some (record t {
        created_at = or_now now t.created_at;
        image_keys = image_attachments (as_slice (get note (codes "attachment")));
      })

  -- actorToUser.
  unfoldable pub actor_to_user : Str → Str → Fields → Str → User
  actor_to_user handle actor_url m node_id =
      let name = string_or_empty (get m (codes "name")) in
      record {
        id = handle;
        username =
            if eqb name [] then string_or_empty (get m (codes "preferredUsername")) else name;
        bio = lib.strip_tags (as_string (get m (codes "summary")));
        node_id = node_id;
        network = mastodon_network;
        avatar_key = as_image_url (get m (codes "icon"));
        background_image_key = as_image_url (get m (codes "image"));
        created_at = or_now now (parse_ap_time reader (as_string (get m (codes "published"))));
        website = if eqb actor_url [] then none else some actor_url;
        followers_count = 0;
        followings_count = 0;
        tweets_count = 0;
      }
