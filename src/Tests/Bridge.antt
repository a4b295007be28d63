-- ===== src/Tests/Bridge.antt =====
-- What a Warpnet node reads through the bridge.
use activity_pub_gw.Base.{
  ℕ, ◌≡◌, refl, ◌≤◌, ◌+◌, ◌⊎◌, inl, inr, ◌↔◌, Bool, true, false, List, [], ◌∷◌, ◌++◌, length, All,
  none, some, Option, arith, if◌then◌else◌,
}
use activity_pub_gw.Base.Result.{Result, ok, err}
use activity_pub_gw.Text.{Str, codes, eqb}
use activity_pub_gw.Json.{Json, Items, str, arr, obj, nil, cons, Fields, end, field}
use activity_pub_gw.Wire.{User, TweetsPage}
use activity_pub_gw.Actor.{actor_id, parse_local_status}
use activity_pub_gw.MastodonMap.{Reader, mastodon_network}
use activity_pub_gw.Remote.{Gateway, Sent}
use activity_pub_gw.Bridge.{Transport, BridgeError}
use activity_pub_gw.Bridge.Resolve.{get_user}
use activity_pub_gw.Bridge.Resolve.NotSelf.{gateway_transport}
use activity_pub_gw.Bridge.Timeline.{get_tweets}
use activity_pub_gw.Bridge.Replies.{get_replies, max_replies}
use activity_pub_gw.Bridge.Replies.Bounded.{length-get_replies}
use activity_pub_gw.Tests.Fixtures.{test_lib, bob_url}
use activity_pub_gw.Tests.Remotes.{gateway, reader, query, remote, page_of, unmarshal}

abbrev cursor : Option Str
cursor = some (codes "https://m.org/api/v1/accounts/5/statuses")

abbrev timeline : TweetsPage
timeline = page_of (get_tweets remote test_lib reader query 9 (codes "bob@m.org") cursor)

abbrev replies : TweetsPage
replies = page_of (get_replies remote test_lib reader query 9 (codes "RT:") bob_url)

replies_given : get_replies remote test_lib reader query 9 (codes "RT:") bob_url ≡ ok replies
unfolding get_replies eqb activity_pub_gw.Bridge.Replies.context_replies
    activity_pub_gw.Bridge.Rest.rest_status_ref activity_pub_gw.Text.cut_prefix
    activity_pub_gw.Text.trim_prefix activity_pub_gw.Text.until_byte activity_pub_gw.Actor.path_base
    activity_pub_gw.Text.trim_right activity_pub_gw.Text.last_cut activity_pub_gw.Json.has_key
replies_given = refl

length-get_replies_example : length replies.tweets ≤ max_replies
length-get_replies_example =
    length-get_replies remote test_lib reader query 9 (codes "RT:") bob_url replies replies_given

abbrev real : Transport
real = gateway_transport gateway (λ accept _. some (200, accept)) unmarshal (λ _. none) (λ _. []) []

abbrev user_in : Result BridgeError User → User
user_in (ok u) = u
user_in (err _) = record {
  id = [];
  username = [];
  bio = [];
  node_id = [];
  network = [];
  avatar_key = [];
  background_image_key = [];
  created_at = 0;
  website = none;
  followers_count = 0;
  followings_count = 0;
  tweets_count = 0;
}

abbrev bob : User
bob = user_in (get_user real test_lib reader 9 (codes "node") (codes "bob@m.org") false)

bob_given : get_user real test_lib reader 9 (codes "node") (codes "bob@m.org") false ≡ ok bob
unfolding get_user eqb gateway_transport activity_pub_gw.Bridge.Resolve.resolve_actor_id
    activity_pub_gw.Actor.decode_actor_id activity_pub_gw.Text.cut_prefix
    activity_pub_gw.Bridge.split_handle activity_pub_gw.Text.cut activity_pub_gw.Text.trim_prefix
    activity_pub_gw.Remote.is_self_host activity_pub_gw.Base.Assoc.lookup
    activity_pub_gw.Bridge.Resolve.NotSelf.lift activity_pub_gw.Remote.fetch_actor
    activity_pub_gw.Remote.if_allowed activity_pub_gw.Remote.check_remote_url
    activity_pub_gw.Remote.is_self_url activity_pub_gw.Bridge.Resolve.webfinger_url
    activity_pub_gw.Text.until_byte activity_pub_gw.Remote.validate_remote_url
    activity_pub_gw.Remote.decode_answer activity_pub_gw.Remote.is_blocked_literal
    activity_pub_gw.Json.as_slice activity_pub_gw.Json.get activity_pub_gw.Json.get_in
    activity_pub_gw.Json.as_map activity_pub_gw.Json.as_string activity_pub_gw.Json.string_or_empty
    activity_pub_gw.Base.Assoc.insert activity_pub_gw.MastodonMap.actor_to_user
    activity_pub_gw.MastodonMap.as_image_url activity_pub_gw.MastodonMap.or_now
    activity_pub_gw.MastodonMap.parse_ap_time
bob_given = refl
