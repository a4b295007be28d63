-- ===== src/Notes/Refs.antt =====
-- notes.go, mediaproxy.go: the references in a note, against their parsers.
use activity_pub_gw.Base.{
  subst, ◌≡◌, refl, ◌∙◌, sym, false, [], ◌++◌, some, arith, if◌then◌else◌, Bool-cases, inl, inr,
}
use activity_pub_gw.Text.{Str, codes, eqb}
use activity_pub_gw.Text.Laws.{Free, cut_at}
use activity_pub_gw.Base64.RoundTrip.{IsBytes, decode-encode}
use activity_pub_gw.Wire.{Tweet}
use activity_pub_gw.Actor.{parse_local_status, status_url}
use activity_pub_gw.Actor.Own.{
  IsHost, IsSegment, parse_local_status-status_url, parse_local_status-reply,
}
use activity_pub_gw.Notes.{
  Note, encode_media_ref, decode_media_ref, media_ref_sep, serve_status, served_note, build_note,
}

-- A media reference decodes to the user and the key it was made from, texts of bytes, when the
-- user's id does not hold the separator.
pub decode_media_ref-encode_media_ref :
    (user key : Str)
    → IsBytes (user ++ (media_ref_sep ++ key))
    → Free 31 user
    → decode_media_ref (encode_media_ref user key) ≡ some (user, key)
unfolding decode_media_ref encode_media_ref
decode_media_ref-encode_media_ref user key bytes free =
    rw (decode-encode (user ++ (media_ref_sep ++ key)) bytes) (cut_at user 31 [] key free)

some_note : {a b : Note} → some a ≡ some b → a ≡ b
some_note h = cc

module _ (host : Str) (escape encode_query : Str → Str) (user parent : Str) (t : Tweet) where
  served_id : (served_note host escape encode_query user parent t).id ≡ (
      if eqb parent []
      then status_url host user t.id
      else status_url host user t.id ++ (codes "?" ++ encode_query parent))
  unfolding served_note build_note
  served_id = ground arith

  served :
      eqb t.id [] ≡ false
      → serve_status host escape encode_query user parent (some t)
        ≡ some (served_note host escape encode_query user parent t)
  unfolding serve_status
  served e = rw e refl

  -- The id of a served note, a reply's with its parent in the query as well as a post's, names the
  -- user and the tweet, for a host, a user and a tweet id that are
  -- clean segments of a URL.
  pub parse_local_status-serve_status :
      (n : Note)
      → IsHost host
      → IsSegment user
      → IsSegment t.id
      → serve_status host escape encode_query user parent (some t) ≡ some n
      → parse_local_status host n.id ≡ some (user, t.id)
  parse_local_status-serve_status n h u i e =
      subst (λ (m : Note). parse_local_status host m.id ≡ some (user, t.id))
        (some_note (sym (served i.nonempty) ∙ e))
        (subst (λ id. parse_local_status host id ≡ some (user, t.id)) (sym served_id)
          (elim (Bool-cases (eqb parent [])) [
            | inl none_given ↦ rw none_given (parse_local_status-status_url host user t.id h u i)
            | inr given ↦
                rw given (parse_local_status-reply host user t.id h u i (encode_query parent))
          ]))
