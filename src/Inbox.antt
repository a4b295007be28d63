-- ===== src/Inbox.antt =====
-- inbox.go: the handler of inbound activities, and the delivery of an Accept.
pub mod Authentic
pub mod Started
pub mod Bound
use activity_pub_gw.Base.{
  ℕ, ◌+◌, Bool, true, false, List, [], ◌∷◌, ◌++◌, Option, none, some, ◌&&◌, not, ltb, if◌then◌else◌,
}
use activity_pub_gw.Base.Result.{ok, err}
use activity_pub_gw.Text.{Str, codes, eqb, until_byte}
use activity_pub_gw.Json.{Fields, get, is_text, string_or_empty, string_field}
use activity_pub_gw.Url.{Lib}
use activity_pub_gw.Wire.{Route, Payload}
use activity_pub_gw.Actor.{user_from_actor_url, actor_id}
use activity_pub_gw.HttpSig.{SignedRequest, verify_request}
use activity_pub_gw.Inbound.{translate_inbound}

-- What a handler leaves to a goroutine: the answer to a Follow, or a request to a node.
pub data Job : Type 0 where
  accept_follow : Str → Str → Fields → Job
  forward : Route → Payload → Job

-- The delivery semaphore and the goroutines started so far, the newest first.
pub record Pool : Type 0 where
  pub in_flight : ℕ
  pub started : List Job

abbrev pub max_inflight_deliveries : ℕ
max_inflight_deliveries = 16

-- Statuses of net/http.
abbrev pub status_accepted : ℕ
status_accepted = 202

abbrev pub status_bad_request : ℕ
status_bad_request = 400

abbrev pub status_unauthorized : ℕ
status_unauthorized = 401

abbrev pub status_forbidden : ℕ
status_forbidden = 403

abbrev pub status_not_found : ℕ
status_not_found = 404

abbrev pub status_method_not_allowed : ℕ
status_method_not_allowed = 405

abbrev pub status_service_unavailable : ℕ
status_service_unavailable = 503

-- An inbound request: its body as read up to the limit (none is a read error), the request as the
-- signature check sees it with that body, and the decoded body (none is a JSON error).
pub record InboxRequest (Key : Type 0) : Type 0 where
  pub method : Str
  pub body : Option Str
  pub signed : Str → SignedRequest Key
  pub unmarshal : Str → Option Fields

-- The `select` on the semaphore: start the job, or answer that the pool is busy.
unfoldable pub spawn : Pool → Job → ℕ × Pool
spawn pool job =
    if ltb pool.in_flight max_inflight_deliveries
    then (
      status_accepted,
      record pool { in_flight = pool.in_flight + 1; started = job ∷ pool.started },
    )
    else (status_service_unavailable, pool)

module _ (host : Str) (lib : Lib) (now : ℕ) (has_node : Bool) (hosted : Str → Bool) where
  -- handleInboundActivity.
  handle_inbound_activity : Pool → Fields → ℕ × Pool
  handle_inbound_activity pool raw = elim (translate_inbound host lib now raw) [
    | none ↦ (status_accepted, pool)
    | some (route, payload) ↦
        if has_node then spawn pool (forward route payload) else (status_accepted, pool)
  ]

  -- The Follow case of handleInbox; `hosted` is whether source.GetUser finds the user.
  handle_follow : Pool → Fields → Str → Str → ℕ × Pool
  handle_follow pool raw remote user =
      let named = user_from_actor_url (string_field raw (codes "object")) in
      let local_user = if eqb named [] then user else named in
      if hosted local_user
      then spawn pool (accept_follow local_user remote raw)
      else (status_not_found, pool)

  -- The switch of handleInbox on a verified activity of the signer. A Delete is only acknowledged.
  handle_activity : Pool → Fields → Str → ℕ × Pool
  unfolding handle_inbound_activity handle_follow
  handle_activity pool raw user =
      let typ = string_or_empty (get raw (codes "type")) in
      if eqb typ (codes "Follow")
      then handle_follow pool raw (string_field raw (codes "actor")) user
      else if eqb typ (codes "Delete")
      then (status_accepted, pool)
      else handle_inbound_activity pool raw

  handle_verified : Pool → Option Fields → Str → Str → ℕ × Pool
  handle_verified pool none key_id user = (status_bad_request, pool)
  handle_verified pool (some raw) key_id user =
      if eqb (until_byte b'#' key_id) (string_field raw (codes "actor"))
      then handle_activity pool raw user
      else (status_forbidden, pool)

  handle_body : {Key : Type 0} → Pool → InboxRequest Key → Str → Str → ℕ × Pool
  handle_body pool req body user = elim (verify_request lib.runes now (req.signed body)) [
    | err _ ↦ (status_unauthorized, pool)
    | ok key_id ↦ handle_verified pool (req.unmarshal body) key_id user
  ]

  handle_read : {Key : Type 0} → Pool → InboxRequest Key → Str → ℕ × Pool
  handle_read pool req user = elim req.body [
    | none ↦ (status_bad_request, pool)
    | some body ↦ handle_body pool req body user
  ]

  -- handleInbox; the shared inbox calls it with no user.
  unfoldable pub handle_inbox : {Key : Type 0} → Pool → InboxRequest Key → Str → ℕ × Pool
  unfolding handle_read handle_body handle_verified handle_activity
  handle_inbox pool req user =
      if eqb req.method (codes "POST")
      then handle_read pool req user
      else (status_method_not_allowed, pool)

  unfoldable pub handle_shared_inbox : {Key : Type 0} → Pool → InboxRequest Key → ℕ × Pool
  handle_shared_inbox pool req = handle_inbox pool req []

-- The effects of acceptFollow, in order.
pub data Effect : Type 0 where
  deliver_accept : Str → Str → Effect
  add_follower : Str → Str → Effect
  on_followed : Str → Effect

-- acceptFollow: `remote_inbox` is the inbox that an actor's document names, `delivered` whether the
-- signed Accept got through to an inbox, `connected` whether g.onFollowed is set. A failure of
-- followers.Add is logged only.
unfoldable pub accept : (Str → Option Str) → (Str → Bool) → Bool → Str → Str → List Effect
accept remote_inbox delivered connected local_user remote =
    if eqb remote [] then [] else elim (remote_inbox remote) [
      | none ↦ []
      | some inbox ↦
          if delivered inbox
          then deliver_accept local_user inbox
            ∷ add_follower local_user remote
            ∷ (if connected then on_followed local_user ∷ [] else [])
          else deliver_accept local_user inbox ∷ []
    ]
