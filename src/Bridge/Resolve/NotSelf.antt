-- ===== src/Bridge/Resolve/NotSelf.antt =====
-- The gateway as the bridge's transport, and whose profiles the bridge makes.
use activity_pub_gw.Base.{
  subst, ◌==◌, ℕ, ◌≡◌, refl, Bool, true, false, List, [], Option, none, some, arith, if◌then◌else◌,
}
use activity_pub_gw.Base.Result.{Result, ok, err, or_fail, guard, ◌>>=◌, ◌>>◌, >>=-eq-ok}
use activity_pub_gw.Text.{Str, codes, eqb}
use activity_pub_gw.Json.{Json, Fields}
use activity_pub_gw.Url.{Lib}
use activity_pub_gw.Wire.{User}
use activity_pub_gw.Actor.{actor_id}
use activity_pub_gw.MastodonMap.{Reader, mastodon_network, actor_to_user}
use activity_pub_gw.Remote.{
  Gateway, FetchError, Sent, get_from, Run, if_allowed, check_remote_url, is_self_url, is_self_host,
  fetch_actor, fetch_media, remote_inbox, remote_status, transport, bad_json,
}
use activity_pub_gw.Bridge.{BridgeError, fetch, Transport, content_type_ap}
use activity_pub_gw.Bridge.Resolve.{resolve_actor_id, get_user, profile}

-- The result of a run of the gateway, as the bridge sees it.
unfoldable pub lift : {A : Type 0} → Run A → Result BridgeError A
lift (sent, ok a) = ok a
lift (sent, err e) = err (fetch e)

-- What other servers answer, by the accepted type, and encoding/json.
module _ (g : Gateway) (answer : Str → Sent → Option (ℕ × Str)) (unmarshal : Str → Option Fields)
    (unmarshal_array : Str → Option (List Json)) (media_type : Str → Str) where
  -- apGetArray.
  unfoldable pub ap_get_array : Str → Str → Run (List Json)
  ap_get_array accept url = if_allowed (check_remote_url g url) (get_from url) (do
    r ← or_fail (answer accept (get_from url)) transport
    guard (r.0 == 200) remote_status
    or_fail (unmarshal_array r.1) bad_json)

  -- The gateway as an apTransport, with a cache of actors.
  unfoldable pub gateway_transport : List (Str × Str) → Transport
  gateway_transport cache = record {
    resolve_actor_id = λ handle.
        (resolve_actor_id g
          (λ url. lift (fetch_actor g (answer (codes "application/jrd+json")) unmarshal url)) handle
          cache).0;
    fetch_actor = λ url. lift (fetch_actor g (answer content_type_ap) unmarshal url);
    ap_get_json = λ accept url. lift (fetch_actor g (answer accept) unmarshal url);
    ap_get_array = λ accept url. lift (ap_get_array accept url);
    remote_inbox = λ url. lift (remote_inbox g (answer content_type_ap) unmarshal url);
    fetch_media = λ url. elim (lift (fetch_media g (answer []) unmarshal url)) [
      | err e ↦ err e
      | ok bytes ↦ ok (media_type url, bytes)
    ];
    actor_id = actor_id g.host;
    is_self_host = is_self_host g;
  }

module _ (g : Gateway) where
  passed_not_self : (url : Str) → check_remote_url g url ≡ ok tt → is_self_url g url ≡ false
  unfolding check_remote_url
  passed_not_self url e = ground arith

  if_allowed-ok :
      {A : Type 0} (c : Result FetchError (Unit {0})) (request : Sent) (r : Result FetchError A)
      (a : A)
      → lift (if_allowed c request r) ≡ ok a
      → c ≡ ok tt
  unfolding lift if_allowed
  if_allowed-ok (ok _) request r a e = refl
  if_allowed-ok (err f) request r a e = cc

  fetched_not_self :
      (answer : Sent → Option (ℕ × Str)) (unmarshal : Str → Option Fields) (url : Str) (m : Fields)
      → lift (fetch_actor g answer unmarshal url) ≡ ok m
      → is_self_url g url ≡ false
  unfolding fetch_actor
  fetched_not_self answer unmarshal url m e =
      passed_not_self url (if_allowed-ok (check_remote_url g url) (get_from url) _ m e)

ok_inj : {E A : Type 0} {a b : A} → ◌≡◌ {A = Result E A} (ok a) (ok b) → a ≡ b
ok_inj e = cc

-- The users that the bridge makes: of a request to another host, tagged as foreign, under the asked
-- handle and the gateway's node.
pub record IsForeign (g : Gateway) (handle node_id : Str) (u : User) : Type 0 where
  pub actor_url : Str
  pub not_self : is_self_url g actor_url ≡ false
  pub linked : u.website ≡ (if eqb actor_url [] then none else some actor_url)
  pub same_id : u.id ≡ handle
  pub tagged : u.network ≡ mastodon_network
  pub hosted : u.node_id ≡ node_id

profile-IsForeign :
    (t : Transport) (lib : Lib) (reader : Reader) (now : ℕ) (node_id : Str) (g : Gateway)
    (handle url : Str) (m : Fields) (with_counts : Bool)
    → is_self_url g url ≡ false
    → IsForeign g handle node_id (profile t lib reader now node_id handle url m with_counts)
unfolding profile actor_to_user
profile-IsForeign t lib reader now node_id g handle url m true ne = record {
  actor_url = url;
  not_self = ne;
  linked = refl;
  same_id = refl;
  tagged = refl;
  hosted = refl;
}
profile-IsForeign t lib reader now node_id g handle url m false ne = record {
  actor_url = url;
  not_self = ne;
  linked = refl;
  same_id = refl;
  tagged = refl;
  hosted = refl;
}

module _ (g : Gateway) (answer : Str → Sent → Option (ℕ × Str)) (unmarshal : Str → Option Fields)
    (unmarshal_array : Str → Option (List Json)) (media_type : Str → Str)
    (cache : List (Str × Str)) where
  -- Whatever a handle, the servers' answers and the cache are, a profile is only ever made of the
  -- answer to a request for a URL that is not on this gateway's host. Where the answer's redirects lead
  -- is not looked at.
  pub get_user-IsForeign :
      (lib : Lib) (reader : Reader) (now : ℕ) (node_id handle : Str) (with_counts : Bool) (u : User)
      → get_user
          (gateway_transport g answer unmarshal unmarshal_array media_type cache)
          lib
          reader
          now
          node_id
          handle
          with_counts
        ≡ ok u
      → IsForeign g handle node_id u
  unfolding get_user gateway_transport
  get_user-IsForeign lib reader now node_id handle with_counts u e =
      let t = gateway_transport g answer unmarshal unmarshal_array media_type cache in
      let (url, resolved, e1) = >>=-eq-ok (t.resolve_actor_id handle) _ e in
      let (m, fetched, e2) = >>=-eq-ok (t.fetch_actor url) _ e1 in
      subst (IsForeign g handle node_id) (ok_inj e2) (
        profile-IsForeign t lib reader now node_id g handle url m with_counts
          (fetched_not_self g (answer content_type_ap) unmarshal url m fetched))
