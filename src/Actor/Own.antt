-- ===== src/Actor/Own.antt =====
-- notes.go, inbound.go: our own status URLs and their parser.
use activity_pub_gw.Base.{
  ℕ, ◌≡◌, refl, ◌≢◌, false, [], ◌∷◌, ◌++◌, some, arith, All-append, append_assoc, ◌∙◌,
}
use activity_pub_gw.Text.{Str, codes, eqb, until_byte}
use activity_pub_gw.Text.Laws.{
  Free, until_byte-Free, until_byte-append, until_byte_stop, cut_at, cut_prefix-append,
}
use activity_pub_gw.Actor.{base_url, actor_id, status_url, parse_local_status}

-- A path segment of a URL: not empty, and without '/', '?' and '#'.
pub record IsSegment (s : Str) : Type 0 where
  pub nonempty : eqb s [] ≡ false
  pub no_slash : Free b'/' s
  pub no_query : Free b'?' s
  pub no_fragment : Free b'#' s

-- A host name: without '?' and '#'.
pub record IsHost (s : Str) : Type 0 where
  pub no_query : Free b'?' s
  pub no_fragment : Free b'#' s

module _ (c : ℕ) (host user id : Str) where
  status_url-Free :
      Free c (codes "https://")
      → Free c (codes "/users/")
      → Free c (codes "/statuses/")
      → Free c host
      → Free c user
      → Free c id
      → Free c (status_url host user id)
  unfolding status_url actor_id
  status_url-Free a b d h u i =
      let base : Str = codes "https://" ++ host in
      let users : Str = codes "/users/" ++ user in
      let statuses : Str = codes "/statuses/" ++ id in
      All-append (λ x. x ≢ c) (base ++ users) statuses
        (All-append (λ x. x ≢ c) base users (All-append (λ x. x ≢ c) (codes "https://") host a h)
          (All-append (λ x. x ≢ c) (codes "/users/") user b u))
        (All-append (λ x. x ≢ c) (codes "/statuses/") id d i)

until_byte_step : (query : Str) → until_byte b'#' (b'?' ∷ query) ≡ b'?' ∷ until_byte b'#' query
unfolding until_byte
until_byte_step query = refl

regroup : (a b c d : Str) → (a ++ (b ++ c)) ++ d ≡ (a ++ b) ++ (c ++ d)
regroup a b c d = simp append_assoc

module _ (host user id : Str) (h : IsHost host) (u : IsSegment user) (i : IsSegment id) where
  status_url-no_query : Free b'?' (status_url host user id)
  status_url-no_query =
      status_url-Free b'?' host user id (omega arith) (omega arith) (omega arith) h.no_query
        u.no_query i.no_query

  status_url-no_fragment : Free b'#' (status_url host user id)
  status_url-no_fragment =
      status_url-Free b'#' host user id (omega arith) (omega arith) (omega arith) h.no_fragment
        u.no_fragment i.no_fragment

  -- The path of a status URL parses to its two segments.
  parse_path :
      (url : Str)
      → until_byte b'?' (until_byte b'#' url) ≡ status_url host user id
      → parse_local_status host url ≡ some (user, id)
  unfolding parse_local_status status_url actor_id
  parse_path url e =
      let base : Str = base_url host in
      let split : status_url host user id
          ≡ (base ++ codes "/users/") ++ (user ++ (codes "/statuses/" ++ id)) =
        regroup base (codes "/users/") user (codes "/statuses/" ++ id) in
      rw (e ∙ split) (
        rw (cut_prefix-append (base ++ codes "/users/") (user ++ (codes "/statuses/" ++ id))) (
          rw (cut_at user b'/' (codes "statuses/") id u.no_slash)
            (rw (u.nonempty, i.nonempty) (rw (until_byte-Free b'/' id i.no_slash)))))

  -- The id of a status, as it is federated, names the user and the tweet it was made from, for a
  -- host without ? and #, and a user and an id that are path segments.
  pub parse_local_status-status_url :
      parse_local_status host (status_url host user id) ≡ some (user, id)
  parse_local_status-status_url = parse_path (status_url host user id) (
      rw (until_byte-Free b'#' _ status_url-no_fragment)
        (until_byte-Free b'?' _ status_url-no_query))

  -- The id of a federated reply, which carries its parent in a query, names the user and the tweet
  -- too, for a host without ? and #, and a user and an id that are path segments.
  pub parse_local_status-reply :
      (query : Str)
      → parse_local_status host (status_url host user id ++ b'?' ∷ query) ≡ some (user, id)
  parse_local_status-reply query = parse_path (status_url host user id ++ b'?' ∷ query) (
      rw (until_byte-append b'#' _ (b'?' ∷ query) status_url-no_fragment) (
        rw (until_byte_step query)
          (until_byte_stop b'?' _ (until_byte b'#' query) status_url-no_query)))
