-- ===== src/Tests/Inbound.antt =====
-- A signed Like of a status.
use activity_pub_gw.Base.{◌≡◌, refl, ◌↔◌, true, [], ◌∷◌, some, arith, length, ◌≤◌}
use activity_pub_gw.Base.Result.{ok}
use activity_pub_gw.Text.{Str, codes}
use activity_pub_gw.Json.{get, string_or_empty}
use activity_pub_gw.Wire.{post_react, Payload, reaction}
use activity_pub_gw.Actor.{bridged_user_id}
use activity_pub_gw.HttpSig.{verify_request}
use activity_pub_gw.HttpSig.Policy.{IsAuthentic, verify_request_iff}
use activity_pub_gw.Inbound.{translate_inbound}
use activity_pub_gw.Inbound.Asked.{author_of, IsAsked}
use activity_pub_gw.Inbound.Attribution.{translate_inbound-IsBy}
use activity_pub_gw.Inbox.{Job, forward, Pool, handle_inbox}
use activity_pub_gw.Inbox.Authentic.{IsWarranted, handle_inbox-IsWarranted}
use activity_pub_gw.Inbox.Bound.{State, request, here, next, IsValid, Reach-IsValid}
use activity_pub_gw.Tests.Fixtures.{
  ascii, test_lib, gw, alice, bob_key, like, is_alice, signed_like, like_request, idle,
}

abbrev bob_likes : Payload
bob_likes = reaction (record {
  tweet_id = codes "7";
  user_id = alice;
  owner_id = codes "bob@m.org";
  emoji = codes "+";
})

like_translated : translate_inbound gw test_lib 5 like ≡ some (post_react, bob_likes)
unfolding translate_inbound activity_pub_gw.Text.eqb string_or_empty get
    activity_pub_gw.Json.is_text activity_pub_gw.Actor.parse_local_status
    activity_pub_gw.Text.cut_prefix activity_pub_gw.Actor.base_url activity_pub_gw.Text.until_byte
    activity_pub_gw.Json.string_field activity_pub_gw.Text.cut bridged_user_id
    activity_pub_gw.Text.contains activity_pub_gw.Actor.handle_from_actor_url
    activity_pub_gw.Text.trim_prefix activity_pub_gw.Actor.path_base activity_pub_gw.Text.last_cut
like_translated = refl

translate_inbound-IsBy_example :
    (author_of bob_likes ≡ bridged_user_id test_lib (string_or_empty (get like (codes "actor"))))
    × IsAsked gw test_lib like post_react bob_likes
translate_inbound-IsBy_example =
    translate_inbound-IsBy gw test_lib 5 like post_react bob_likes like_translated

verify_request_iff_example :
    (verify_request ascii 5 signed_like ≡ ok bob_key) ↔ IsAuthentic ascii 5 signed_like bob_key
verify_request_iff_example = verify_request_iff ascii 5 signed_like bob_key

like_starts :
    (handle_inbox gw test_lib 5 true is_alice idle like_request alice).1.started
    ≡ forward post_react bob_likes ∷ []
unfolding handle_inbox activity_pub_gw.Text.eqb verify_request
    activity_pub_gw.HttpSig.parse_signature_header activity_pub_gw.Text.split_byte
    activity_pub_gw.Text.cut activity_pub_gw.Text.elem activity_pub_gw.HttpSig.is_fresh
    activity_pub_gw.Text.until_byte activity_pub_gw.Json.string_field get string_or_empty
    translate_inbound activity_pub_gw.Json.is_text activity_pub_gw.Actor.parse_local_status
    activity_pub_gw.Actor.base_url activity_pub_gw.Inbox.spawn bridged_user_id
    activity_pub_gw.Text.contains activity_pub_gw.Actor.handle_from_actor_url
    activity_pub_gw.Actor.path_base activity_pub_gw.Text.cut_prefix activity_pub_gw.Text.trim_prefix
    activity_pub_gw.Text.last_cut
like_starts = refl

handle_inbox-IsWarranted_example :
    IsWarranted gw test_lib is_alice 5 like_request alice (forward post_react bob_likes)
handle_inbox-IsWarranted_example =
    handle_inbox-IsWarranted gw test_lib is_alice 5 true idle like_request alice
      (forward post_react bob_likes) like_starts

abbrev at_rest : State
at_rest = record { pool = idle; running = 0 }

at_rest-IsValid : IsValid at_rest
at_rest-IsValid = record { bounded = omega arith; counted = refl }

abbrev busy : Pool
busy = (handle_inbox gw test_lib 5 true is_alice idle like_request alice).1

one_started : 1 ≡ length busy.started
one_started = rw like_starts refl

Reach-IsValid_example : IsValid (record { pool = busy; running = 1 }) × 1 ≤ 16
Reach-IsValid_example =
    Reach-IsValid {host = gw} {lib = test_lib} {hosted = is_alice} {Key = Str}
      (next here (request 5 true like_request alice refl (omega (arith, one_started))))
      at_rest-IsValid
