-- ===== src/Tests/Writes.antt =====
-- What the gateway does for a Warpnet node, and deliveries to followers.
use activity_pub_gw.Base.{ℕ, ◌≡◌, refl, ◌⊎◌, inl, true, [], All, none, some, Option, arith}
use activity_pub_gw.Text.{Str, codes, eqb}
use activity_pub_gw.Actor.{parse_local_status}
use activity_pub_gw.Actor.Own.{IsHost, IsSegment}
use activity_pub_gw.Remote.{Sent}
use activity_pub_gw.Bridge.Write.{reply, delete_reply}
use activity_pub_gw.Bridge.Write.Retract.{Parcel, parcels, delete_reply-reply}
use activity_pub_gw.NodeServer.{Codec, Answer, stream_handler}
use activity_pub_gw.NodeServer.Routes.{Domain, serve, user}
use activity_pub_gw.NodeServer.Verified.{IsVerified, stream_handler-IsVerified}
use activity_pub_gw.Tests.Fixtures.{test_lib, gw, alice}
use activity_pub_gw.Tests.Remotes.{reader, query, remote, alice_reply, alice_delete, deliver, plain}

gw-IsHost : IsHost gw
gw-IsHost = record { no_query = omega arith; no_fragment = omega arith }

alice-IsSegment : IsSegment alice
unfolding eqb
alice-IsSegment = record {
  nonempty = refl;
  no_slash = omega arith;
  no_query = omega arith;
  no_fragment = omega arith;
}

nine-IsSegment : IsSegment (codes "9")
unfolding eqb
nine-IsSegment = record {
  nonempty = refl;
  no_slash = omega arith;
  no_query = omega arith;
  no_fragment = omega arith;
}

delete_reply-reply_example :
    (parcels (delete_reply remote test_lib reader deliver plain (codes "RT:") alice_delete).0
      ≡ parcels (reply remote test_lib reader deliver plain (codes "RT:") alice_reply).0)
    × All
        (λ (a : Parcel). parse_local_status gw a.object ≡ some (alice, codes "9"))
        (parcels (reply remote test_lib reader deliver plain (codes "RT:") alice_reply).0)
delete_reply-reply_example =
    delete_reply-reply remote test_lib reader deliver plain (codes "RT:") gw alice_reply
      alice_delete (λ _. refl) refl refl refl (inl refl) gw-IsHost alice-IsSegment nine-IsSegment

abbrev codec : Codec
codec = record {
  envelope = λ bytes.
      some (record { body = codes "bob@m.org"; signature = codes "s"; signing_bytes = bytes });
  verify = λ peer bytes signature. eqb signature (codes "s");
  marshal = λ _. some (codes "answer");
}

abbrev domain : Domain
domain = record {
  retweet_prefix = codes "RT:";
  normalize_reaction = λ emoji. some emoji;
  is_reply = λ _. true;
}

abbrev handler : Str → Answer
handler body =
    serve remote test_lib reader query domain 9 (codes "node") (codes "warpnet@mastodon.social")
      (codes "warpnet") [] deliver plain plain (user body)

stream_handler-IsVerified_example :
    (stream_handler codec handler (some (codes "peer")) (some (codes "request")) ≡ ([], none))
    ⊎ IsVerified codec handler
        (codes "peer")
        (some (codes "request"))
        (stream_handler codec handler (some (codes "peer")) (some (codes "request")))
stream_handler-IsVerified_example =
    stream_handler-IsVerified codec handler (codes "peer") (some (codes "request"))

abbrev responder : Sent → Option (ℕ × Str)
responder _ = some (200, [])
