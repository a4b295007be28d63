-- ===== src/RateLimit/Price.antt =====
-- What the middleware makes of a request: its plane, its weight, and whom it spends from.
use activity_pub_gw.Base.{
  ℕ, ◌≡◌, refl, ◌++◌, Bool, true, false, [], none, some, ◌&&◌, ◌||◌, not, if◌then◌else◌,
}
use activity_pub_gw.Text.{Str, codes, eqb, cut_prefix, has_prefix, after_byte}

abbrev pub path_users : Str
path_users = codes "/users/"

abbrev pub path_inbox : Str
path_inbox = codes "/inbox"

abbrev pub path_actor : Str
path_actor = codes "/actor"

abbrev pub path_media : Str
path_media = codes "/media/"

abbrev pub path_webfinger : Str
path_webfinger = codes "/.well-known/webfinger"

abbrev pub weight_static : ℕ
weight_static = 1

abbrev pub weight_actor : ℕ
weight_actor = 2

abbrev pub weight_collection : ℕ
weight_collection = 4

abbrev pub weight_inbox : ℕ
weight_inbox = 4

abbrev pub weight_media : ℕ
weight_media = 8

-- The part of isControlPlane below /users/.
control_rest : Str → Bool
control_rest rest = elim (after_byte b'/' rest) [
  | none ↦ true
  | some sub ↦ eqb sub [] || has_prefix sub (codes "inbox")
]

-- isControlPlane.
unfoldable pub is_control_plane : Str → Bool
unfolding control_rest
is_control_plane p =
    if eqb p path_inbox || eqb p path_actor || has_prefix p path_webfinger
    then true
    else elim (cut_prefix p path_users) [ none ↦ false | some rest ↦ control_rest rest ]

-- The part of requestWeight below /users/.
weight_rest : Str → ℕ
weight_rest rest = elim (after_byte b'/' rest) [
  | none ↦ weight_actor
  | some sub ↦
      if eqb sub []
      then weight_actor
      else if has_prefix sub (codes "inbox")
      then weight_inbox
      else weight_collection
]

-- requestWeight.
unfoldable pub request_weight : Str → ℕ
unfolding weight_rest
request_weight p =
    if has_prefix p path_media
    then weight_media
    else if eqb p path_inbox
    then weight_inbox
    else elim (cut_prefix p path_users) [
      | some rest ↦ weight_rest rest
      | none ↦ if has_prefix p path_webfinger then weight_actor else weight_static
    ]

module _ (rest : Str) where
  -- The plane and the weight of a path below /users/.
  pub is_control_plane-users :
      is_control_plane (path_users ++ rest) ≡ (elim (after_byte b'/' rest) [
        | none ↦ true
        | some sub ↦ eqb sub [] || has_prefix sub (codes "inbox")
      ])
  unfolding is_control_plane control_rest eqb has_prefix cut_prefix
  is_control_plane-users = refl

  pub request_weight-users : request_weight (path_users ++ rest) ≡ (elim (after_byte b'/' rest) [
    | none ↦ weight_actor
    | some sub ↦
        if eqb sub []
        then weight_actor
        else if has_prefix sub (codes "inbox")
        then weight_inbox
        else weight_collection
  ])
  unfolding request_weight weight_rest eqb has_prefix cut_prefix
  request_weight-users = refl

-- What the middleware does with a request: 429, or the weight spent from the client's limiter
-- alone, or from the global one and the client's.
pub data Verdict : Type 0 where
  reject : Verdict
  client_only both : ℕ → Verdict

-- middleware, from whether the client's and the global limiter are locked.
unfoldable pub verdict : Bool → Bool → Str → Verdict
verdict client_locked global_locked p =
    let ctrl = is_control_plane p in
    if client_locked || (not ctrl && global_locked)
    then reject
    else if ctrl
    then client_only (request_weight p)
    else both (request_weight p)
