-- ===== src/Server.antt =====
-- server.go: the routing of /users/, WebFinger and the log endpoint.
pub mod Plane
pub mod Discovery
pub mod Routes
use activity_pub_gw.Base.{
  ℕ, Bool, true, false, List, [], ◌∷◌, ◌++◌, Option, none, some, not, ◌&&◌, ◌||◌, ◌==◌,
  if◌then◌else◌,
}
use activity_pub_gw.Text.{Str, codes, eqb, trim_prefix, has_prefix, split_byte, last_byte_cut}
use activity_pub_gw.Actor.{actor_id, instance_actor_id}
use activity_pub_gw.RateLimit.Price.{path_users}

-- What handleUsers serves.
pub data Served : Type 0 where
  not_found : Served
  actor inbox outbox followers following : Str → Served
  replies status : Str → Str → Served

-- The part of handleUsers below /statuses/.
serve_statuses : Str → List Str → Served
serve_statuses user [] = not_found
serve_statuses user (id ∷ []) = if eqb id [] then not_found else status user id
serve_statuses user (id ∷ sub ∷ _) =
    if eqb id []
    then not_found
    else if eqb sub (codes "replies")
    then replies user id
    else status user id

-- The switch of handleUsers on the second part of the path.
serve_sub : Str → Str → List Str → Served
serve_sub user sub more =
    if eqb sub []
    then actor user
    else if eqb sub (codes "inbox")
    then inbox user
    else if eqb sub (codes "outbox")
    then outbox user
    else if eqb sub (codes "followers")
    then followers user
    else if eqb sub (codes "following")
    then following user
    else if eqb sub (codes "statuses")
    then serve_statuses user more
    else not_found

pub serve_parts : (Str → Bool) → List Str → Served
serve_parts is_user [] = not_found
serve_parts is_user (user ∷ []) = if is_user user then actor user else not_found
serve_parts is_user (user ∷ sub ∷ more) =
    if is_user user then serve_sub user sub more else not_found

-- handleUsers, from whether GetUser finds a user.
unfoldable pub handle_users : (Str → Bool) → Str → Served
unfolding serve_parts serve_sub serve_statuses
handle_users is_user p = serve_parts is_user (split_byte b'/' (trim_prefix p path_users))

-- What an HTTP answer says, as far as the handlers decide it.
pub data Reply : Type 0 where
  bad_request missing unauthorized : Reply
  -- The subject and the actor URL of a WebFinger document.
  jrd : Str → Str → Reply
  text : Str → Reply

abbrev pub instance_actor_name : Str
instance_actor_name = codes "warpnet-gw"

-- handleWebFinger behind the split of the account at its last @.
webfinger_for : Str → (Str → Bool) → Option (Str × Str) → Reply
webfinger_for host is_user none = bad_request
webfinger_for host is_user (some (user, domain)) =
    let subject = codes "acct:" ++ (user ++ (codes "@" ++ host)) in
    if not (eqb domain host)
    then missing
    else if eqb user instance_actor_name
    then jrd subject (instance_actor_id host)
    else if is_user user
    then jrd subject (actor_id host user)
    else missing

-- handleWebFinger, from the resource of the query.
unfoldable pub handle_webfinger : Str → (Str → Bool) → Str → Reply
unfolding webfinger_for
handle_webfinger host is_user resource =
    webfinger_for host is_user (last_byte_cut b'@' (trim_prefix resource (codes "acct:")))

-- The body of handleLogs.
unfoldable pub log_text : List Str → Str
log_text [] = []
log_text (line ∷ lines) = line ++ (10 ∷ log_text lines)

-- handleLogs, from the configured token, the lines of the ring (none without a ring), the token of
-- the query and the Authorization header.
unfoldable pub handle_logs : Str → Option (List Str) → Str → Str → Reply
handle_logs token ring query authorization = elim ring [
  | none ↦ missing
  | some lines ↦
      let provided = if eqb query [] then trim_prefix authorization (codes "Bearer ") else query in
      if eqb token []
      then missing
      else if eqb provided token
      then text (log_text lines)
      else unauthorized
]
