-- ===== src/Tests/Remotes.antt =====
-- Remote servers, and what they serve.
use activity_pub_gw.Base.{false, [], ◌∷◌, ◌++◌, none, some, Option, if◌then◌else◌}
use activity_pub_gw.Base.Result.{Result, ok, err}
use activity_pub_gw.Text.{Str, codes, eqb}
use activity_pub_gw.Json.{str, arr, obj, nil, cons, Fields, end, field}
use activity_pub_gw.Wire.{Tweet, zero_tweet, TweetsPage}
use activity_pub_gw.Actor.{actor_id}
use activity_pub_gw.MastodonMap.{Reader}
use activity_pub_gw.Remote.{Gateway}
use activity_pub_gw.Bridge.{Transport, BridgeError}
use activity_pub_gw.Bridge.Timeline.{Query, no_tweets}
use activity_pub_gw.Bridge.Write.{Effect, DeleteTweetEvent}
use activity_pub_gw.Tests.Fixtures.{test_lib, gw, alice, bob_url}

abbrev pub gateway : Gateway
gateway = record {
  lib = test_lib;
  host = gw;
  allow_private_targets = false;
  parse_addr = λ _. none;
  ends_in_localhost = λ _. false;
}

abbrev pub reader : Reader
reader = record { rfc3339 = λ _. some 7; uint_of = λ _. 3 }

abbrev pub query : Query
query = record { escape = λ s. s; with_max_id = λ url id. some (url ++ id) }

-- Two statuses: a post, and a reply to the status "bob".
abbrev pub post_status : Fields
post_status =
    field (codes "id") (str (codes "1")) (field (codes "uri") (str (codes "https://m.org/1")) end)

abbrev pub reply_status : Fields
reply_status = field (codes "id") (str (codes "2")) (
    field (codes "uri") (str (codes "https://m.org/2"))
      (field (codes "in_reply_to_id") (str (codes "bob")) end))

-- A document that serves as a context, a page of followers and a note.
abbrev pub document : Fields
document =
    field (codes "descendants") (arr (cons (obj post_status) (cons (obj reply_status) nil))) (
      field (codes "orderedItems")
        (arr (cons (str bob_url) (cons (str (codes "https://gw.org/users/alice")) nil)))
        (field (codes "attributedTo") (str bob_url) end))

abbrev pub remote : Transport
remote = record {
  resolve_actor_id = λ _. ok bob_url;
  fetch_actor = λ _. ok document;
  ap_get_json = λ _ _. ok document;
  ap_get_array = λ _ _. ok (obj post_status ∷ obj reply_status ∷ []);
  remote_inbox = λ _. ok (codes "https://m.org/inbox");
  fetch_media = λ _. ok ([], []);
  actor_id = actor_id gw;
  is_self_host = λ h. eqb h gw;
}

abbrev pub page_of : Result BridgeError TweetsPage → TweetsPage
page_of (ok page) = page
page_of (err _) = no_tweets []

-- A reply of alice to a status of bob, and its deletion.
abbrev pub alice_reply : Tweet
alice_reply = record zero_tweet {
  id = codes "9";
  user_id = alice;
  text = codes "hi";
  root_id = codes "https://m.org/1";
  parent_id = some bob_url;
}

abbrev pub alice_delete : DeleteTweetEvent
alice_delete = record {
  tweet_id = codes "9";
  root_id = codes "https://m.org/1";
  parent_id = bob_url;
  user_id = alice;
}

abbrev pub deliver : Effect → Option BridgeError
deliver _ = none

abbrev pub plain : Str → Str
plain s = s

-- A server that answers with a WebFinger document or with an actor, by the accepted type.
abbrev pub webfinger_document : Fields
webfinger_document =
    field (codes "links")
      (arr (
        cons
          (obj (field (codes "rel") (str (codes "self")) (field (codes "href") (str bob_url) end)))
          nil))
      end

abbrev pub unmarshal : Str → Option Fields
unmarshal body =
    some (if eqb body (codes "application/jrd+json") then webfinger_document else document)
