-- ===== src/Remote.antt =====
-- server.go: the guard on remote URLs, and the signed fetches and deliveries behind it. A run of one
-- of these gives the requests it sent, in order, and its result.
pub mod Guard
pub mod Cache
pub mod Client
use activity_pub_gw.Base.{
  ℕ, Bool, true, false, List, [], ◌∷◌, ◌++◌, Option, none, some, not, ◌&&◌, ◌||◌, ◌==◌, leb,
  if◌then◌else◌, is_some,
}
use activity_pub_gw.Base.Result.{Result, ok, err, guard, or_fail, ◌>>=◌, ◌>>◌}
use activity_pub_gw.Text.{Str, codes, eqb, until_byte}
use activity_pub_gw.Json.{Json, obj, arr, cons, Fields, get, get_in, as_map, string_or_empty}
use activity_pub_gw.Url.{Url, Lib}

-- The tests of netip.Addr.
pub record Addr : Type 0 where
  pub is_loopback : Bool
  pub is_private : Bool
  pub is_unspecified : Bool
  pub is_link_local_unicast : Bool
  pub is_link_local_multicast : Bool
  pub is_multicast : Bool

-- isBlockedIP.
unfoldable pub is_blocked_ip : Addr → Bool
is_blocked_ip ip =
    ip.is_loopback
    || (ip.is_private
        || (ip.is_unspecified
            || (ip.is_link_local_unicast || (ip.is_link_local_multicast || ip.is_multicast))))

pub data FetchError : Type 0 where
  bad_url insecure_url blocked_host self_target : FetchError
  transport remote_status bad_json actor_malformed : FetchError

-- The gateway's settings, and netip.ParseAddr and strings.HasSuffix at ".localhost".
pub record Gateway : Type 0 where
  pub lib : Lib
  pub host : Str
  pub allow_private_targets : Bool
  pub parse_addr : Str → Option Addr
  pub ends_in_localhost : Str → Bool

-- The test on a literal address; a name passes.
unfoldable pub is_blocked_literal : Option Addr → Bool
is_blocked_literal none = false
is_blocked_literal (some a) = is_blocked_ip a

module _ (g : Gateway) where
  -- validateRemoteURL.
  unfoldable pub validate_remote_url : Str → Result FetchError (Unit {0})
  validate_remote_url raw = do
    u ← or_fail (g.lib.parse_url raw) bad_url
    guard (eqb u.scheme (codes "https")) insecure_url
    guard (not (eqb u.hostname [])) blocked_host
    guard
        (not (
          g.lib.runes.equal_fold u.hostname (codes "localhost")
          || g.ends_in_localhost (g.lib.runes.to_lower u.hostname)))
        blocked_host
    guard (not (is_blocked_literal (g.parse_addr u.hostname))) blocked_host

  -- isSelfHost.
  unfoldable pub is_self_host : Str → Bool
  is_self_host h = not (eqb g.host []) && g.lib.runes.equal_fold h g.host

  -- isSelfURL.
  unfoldable pub is_self_url : Str → Bool
  is_self_url raw = elim (g.lib.parse_url raw) [ none ↦ false | some u ↦ is_self_host u.hostname ]

  -- checkRemoteURL.
  unfoldable pub check_remote_url : Str → Result FetchError (Unit {0})
  check_remote_url raw =
      if is_self_url raw
      then err self_target
      else if g.allow_private_targets
      then ok tt
      else validate_remote_url raw

-- A request of the gateway to another server.
pub data Sent : Type 0 where
  get_from post_to : Str → Sent

-- A run: the requests sent, and the result.
abbrev pub Run : Type 0 → Type 0
Run A = List Sent × Result FetchError A

-- `if err := g.checkRemoteURL(...); err != nil { return err }`, before a request and its result.
unfoldable pub if_allowed :
    {A : Type 0} → Result FetchError (Unit {0}) → Sent → Result FetchError A → Run A
if_allowed (err e) request result = ([], err e)
if_allowed (ok _) request result = (request ∷ [], result)

-- The answer to a request is its status and its body, at the end of its redirects, which are guarded
-- by validateRemoteURL only (Remote/Client has them one by one): it may be that of another URL than
-- the one asked for. None stands for an exhausted retry.
module _ (g : Gateway) (answer : Sent → Option (ℕ × Str)) (unmarshal : Str → Option Fields) where
  -- What fetchActor and apGetJSON make of an answer.
  unfoldable pub decode_answer : Option (ℕ × Str) → Result FetchError Fields
  decode_answer o = do
    r ← or_fail o transport
    guard (r.0 == 200) remote_status
    or_fail (unmarshal r.1) bad_json

  -- fetchActor.
  unfoldable pub fetch_actor : Str → Run Fields
  fetch_actor url =
      if_allowed (check_remote_url g url) (get_from url) (decode_answer (answer (get_from url)))

  -- apGetJSON: fetchActor with an Accept header of its own, which `answer` is to depend on.
  unfoldable pub ap_get_json : Str → Run Fields
  ap_get_json url =
      if_allowed (check_remote_url g url) (get_from url) (decode_answer (answer (get_from url)))

  -- fetchMedia; a body over the limit is one of the failed answers.
  unfoldable pub fetch_media : Str → Run Str
  fetch_media url =
      if_allowed (check_remote_url g url) (get_from url)
        (do r ← or_fail (answer (get_from url)) transport; guard (r.0 == 200) remote_status; ok r.1)

  -- postSigned.
  unfoldable pub post_signed : Str → Run (Unit {0})
  post_signed target =
      if_allowed (check_remote_url g target) (post_to target) (do
        r ← or_fail (answer (post_to target)) transport
        guard (not (leb 300 r.0)) remote_status)

-- remoteInbox, on the actor document: the shared inbox if there is one, else the actor's own.
unfoldable pub inbox_of : Fields → Result FetchError Str
inbox_of m =
    let shared =
      string_or_empty (get_in (as_map (get m (codes "endpoints"))) (codes "sharedInbox")) in
    let own = string_or_empty (get m (codes "inbox")) in
    if not (eqb shared [])
    then ok shared
    else if not (eqb own [])
    then ok own
    else err actor_malformed

-- The object under publicKey: it may stand in an array.
public_key : Json → Option Fields
public_key (obj m) = some m
public_key (arr (cons (obj m) vs)) = some m
public_key _ = none

-- fetchKey, on the actor document, down to the text that parseRSAPublicKeyPEM reads.
unfoldable pub key_of : Fields → Result FetchError Str
unfolding public_key
key_of m = do
  pk ← or_fail (public_key (get m (codes "publicKey"))) actor_malformed
  let pem = string_or_empty (get pk (codes "publicKeyPem")) in
      if eqb pem [] then err actor_malformed else ok pem

-- A run, continued with its result unless it failed.
unfoldable pub and_then : {A B : Type 0} → Run A → (A → Run B) → Run B
and_then (sent, err e) k = (sent, err e)
and_then (sent, ok a) k = let next = k a in (sent ++ next.0, next.1)

module _ (g : Gateway) (answer : Sent → Option (ℕ × Str)) (unmarshal : Str → Option Fields) where
  -- fetchKey.
  unfoldable pub fetch_key : Str → Run Str
  fetch_key key_id =
      and_then (fetch_actor g answer unmarshal (until_byte b'#' key_id)) (λ m. ([], key_of m))

  -- remoteInbox.
  unfoldable pub remote_inbox : Str → Run Str
  remote_inbox url = and_then (fetch_actor g answer unmarshal url) (λ m. ([], inbox_of m))

  -- deliverFollow: the Follow or its Undo goes to the inbox of the remote actor.
  unfoldable pub deliver_follow : Str → Run (Unit {0})
  deliver_follow url = and_then (remote_inbox url) (post_signed g answer unmarshal)
