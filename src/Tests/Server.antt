-- ===== src/Tests/Server.antt =====
-- Requests to the public endpoints, and to other servers.
use activity_pub_gw.Base.{
  ◌≡◌, ◌≢◌, refl, ◌⊎◌, ◌↔◌, true, false, List, [], ◌∷◌, ◌++◌, none, some, if◌then◌else◌,
}
use activity_pub_gw.Base.Result.{ok}
use activity_pub_gw.Text.{Str, codes, eqb, trim_prefix}
use activity_pub_gw.Url.{Url}
use activity_pub_gw.RateLimit.Price.{verdict, path_users, reject, client_only, both}
use activity_pub_gw.Server.{
  handle_users, handle_webfinger, jrd, handle_logs, text, log_text, instance_actor_name,
}
use activity_pub_gw.Server.Routes.Weighed.{plane_of_page, verdict-page}
use activity_pub_gw.Server.Plane.Priced.{is_clean}
use activity_pub_gw.Server.Routes.{page}
use activity_pub_gw.Server.Discovery.{actor_of, handle_webfinger_sound, handle_logs_sound}
use activity_pub_gw.Remote.{Gateway, check_remote_url}
use activity_pub_gw.Remote.Guard.{IsPublic, check_remote_url_iff}
use activity_pub_gw.Tests.Fixtures.{test_lib, gw, is_alice, bob_url}

inbox_page : plane_of_page (page gw [] is_alice (codes "/inbox")) ≡ some (true, 4)
unfolding plane_of_page page activity_pub_gw.Server.Routes.dispatch eqb
inbox_page = refl

not_below_users : (rest : Str) → codes "/inbox" ≡ path_users ++ rest → is_clean rest ≡ true
not_below_users rest h = cc

verdict-page_example :
    verdict false true (codes "/inbox")
    ≡ (if false then reject else if true then client_only 4 else if true then reject else both 4)
verdict-page_example =
    verdict-page gw [] is_alice (codes "/inbox") true 4 not_below_users inbox_page false true

abbrev account : Str
account = codes "acct:alice@gw.org"

alice_found :
    handle_webfinger gw is_alice account ≡ jrd account (codes "https://gw.org/users/alice")
unfolding handle_webfinger activity_pub_gw.Text.last_byte_cut trim_prefix eqb
    activity_pub_gw.Actor.actor_id
alice_found = refl

handle_webfinger_sound_example :
    (user : Str) × (trim_prefix account (codes "acct:") ≡ user ++ (codes "@" ++ gw))
    × (account ≡ codes "acct:" ++ (user ++ (codes "@" ++ gw)))
    × (codes "https://gw.org/users/alice" ≡ actor_of gw is_alice user)
    × ((eqb user instance_actor_name ≡ true) ⊎ (is_alice user ≡ true))
handle_webfinger_sound_example =
    handle_webfinger_sound gw is_alice account account (codes "https://gw.org/users/alice")
      alice_found

logs_given :
    handle_logs (codes "pass") (some (codes "a" ∷ [])) [] (codes "Bearer pass")
    ≡ text (log_text (codes "a" ∷ []))
unfolding handle_logs eqb trim_prefix
logs_given = refl

handle_logs_sound_example :
    (lines : List Str) × (some (codes "a" ∷ []) ≡ some lines)
    × (log_text (codes "a" ∷ []) ≡ log_text lines)
    × (codes "pass" ≢ [])
    × (([] ≡ codes "pass") ⊎ (trim_prefix (codes "Bearer pass") (codes "Bearer ") ≡ codes "pass"))
handle_logs_sound_example =
    handle_logs_sound (codes "pass") (some (codes "a" ∷ [])) [] (codes "Bearer pass")
      (log_text (codes "a" ∷ [])) logs_given

abbrev gateway : Gateway
gateway = record {
  lib = test_lib;
  host = gw;
  allow_private_targets = false;
  parse_addr = λ _. none;
  ends_in_localhost = λ _. false;
}

check_remote_url_iff_example :
    (check_remote_url gateway bob_url ≡ ok tt)
    ↔ ((u : Url) × (gateway.lib.parse_url bob_url ≡ some u) × IsPublic gateway u)
check_remote_url_iff_example = check_remote_url_iff gateway refl bob_url
