-- ===== src/Tests/Notes.antt =====
-- Notes and their references.
use activity_pub_gw.Base.{◌≡◌, refl, some, arith}
use activity_pub_gw.Text.{Str, codes, eqb}
use activity_pub_gw.Wire.{Tweet, zero_tweet}
use activity_pub_gw.Actor.{parse_local_status}
use activity_pub_gw.Actor.Own.{IsHost, IsSegment}
use activity_pub_gw.Notes.{Note, encode_media_ref, decode_media_ref, serve_status, served_note}
use activity_pub_gw.Notes.Refs.{decode_media_ref-encode_media_ref, parse_local_status-serve_status}
use activity_pub_gw.Tests.Fixtures.{gw, alice}

decode_media_ref-encode_media_ref_example :
    decode_media_ref (encode_media_ref alice (codes "k")) ≡ some (alice, codes "k")
decode_media_ref-encode_media_ref_example =
    decode_media_ref-encode_media_ref alice (codes "k") (omega arith) (omega arith)

abbrev post : Tweet
post = record zero_tweet { id = codes "9"; user_id = alice }

abbrev plain : Str → Str
plain s = s

abbrev note : Note
note = served_note gw plain plain alice (codes "p") post

gw-IsHost : IsHost gw
gw-IsHost = record { no_query = omega arith; no_fragment = omega arith }

alice-IsSegment : IsSegment alice
unfolding eqb
alice-IsSegment = record {
  nonempty = refl;
  no_slash = omega arith;
  no_query = omega arith;
  no_fragment = omega arith;
}

post-IsSegment : IsSegment (codes "9")
unfolding eqb
post-IsSegment = record {
  nonempty = refl;
  no_slash = omega arith;
  no_query = omega arith;
  no_fragment = omega arith;
}

post_served : serve_status gw plain plain alice (codes "p") (some post) ≡ some note
unfolding serve_status eqb zero_tweet
post_served = refl

post_id : post.id ≡ codes "9"
unfolding zero_tweet
post_id = refl

parse_local_status-serve_status_example : parse_local_status gw note.id ≡ some (alice, post.id)
parse_local_status-serve_status_example =
    parse_local_status-serve_status gw plain plain alice (codes "p") post note gw-IsHost
      alice-IsSegment post-IsSegment post_served
