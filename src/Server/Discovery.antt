-- ===== src/Server/Discovery.antt =====
-- Whom WebFinger finds, and who may read the logs.
use activity_pub_gw.Base.{
  ℕ, ◌≡◌, ◌≢◌, refl, ◌∙◌, ap, ◌⊎◌, inl, inr, Bool, true, false, List, [], ◌∷◌, ◌++◌, Option, none,
  some, Option-cases, Bool-cases, arith, if◌then◌else◌, ==_iff,
}
use activity_pub_gw.Text.{Str, codes, eqb, trim_prefix, last_byte_cut, cut_prefix}
use activity_pub_gw.Text.Laws.{Free, eqb_iff, eqb_refl, eqb_sound}
use activity_pub_gw.Actor.{actor_id, instance_actor_id}
use activity_pub_gw.Server.{
  webfinger_for, jrd, text, handle_webfinger, instance_actor_name, handle_logs, log_text,
}

last_byte_cut_sound : (c : ℕ) (s l r : Str) → last_byte_cut c s ≡ some (l, r) → s ≡ l ++ c ∷ r
unfolding last_byte_cut
last_byte_cut_sound c [] l r h = cc
last_byte_cut_sound c (a ∷ s) l r h = elim (Option-cases (last_byte_cut c s)) [
  | inl gone ↦ grind (arith, ==_iff a c)
  | inr ((l', r'), e) ↦ grind (arith, last_byte_cut_sound c s l' r' e)
]

last_byte_cut-none : (c : ℕ) (s : Str) → Free c s → last_byte_cut c s ≡ none
unfolding last_byte_cut
last_byte_cut-none c [] h = refl
last_byte_cut-none c (a ∷ s) (ne, hs) = ground (arith, last_byte_cut-none c s hs)

last_byte_cut_at : (c : ℕ) (l r : Str) → Free c r → last_byte_cut c (l ++ c ∷ r) ≡ some (l, r)
unfolding last_byte_cut
last_byte_cut_at c [] r h = ground (arith, last_byte_cut-none c r h)
last_byte_cut_at c (a ∷ l) r h = ground (arith, last_byte_cut_at c l r h)

hit :
    (b : Bool) (s : Str) (u v : Str) → (if b then jrd s u else jrd s v) ≡ jrd s (if b then u else v)
hit true s u v = refl
hit false s u v = refl

module _ (host : Str) (is_user : Str → Bool) where
  -- The actor that an account name of this gateway stands for.
  unfoldable pub actor_of : Str → Str
  actor_of user =
      if eqb user instance_actor_name then instance_actor_id host else actor_id host user

  webfinger_hit :
      (user : Str)
      → (eqb user instance_actor_name ≡ true) ⊎ (is_user user ≡ true)
      → webfinger_for host is_user (some (user, host))
        ≡ jrd (codes "acct:" ++ (user ++ (codes "@" ++ host))) (actor_of user)
  unfolding webfinger_for actor_of
  webfinger_hit user (inl own) = rw (eqb_refl host, own) refl
  webfinger_hit user (inr known) =
      rw (eqb_refl host, known) (hit (eqb user instance_actor_name) _ _ _)

  webfinger_only :
      (o : Option (Str × Str)) (subject url : Str)
      → webfinger_for host is_user o ≡ jrd subject url
      → (user : Str) × (o ≡ some (user, host))
        × (subject ≡ codes "acct:" ++ (user ++ (codes "@" ++ host)))
        × (url ≡ actor_of user)
        × ((eqb user instance_actor_name ≡ true) ⊎ (is_user user ≡ true))
  unfolding webfinger_for actor_of
  webfinger_only none subject url h = cc
  webfinger_only (some (user, domain)) subject url h = (
    user,
    ap (λ d. some (user, d)) (eqb_sound domain host (ground arith)),
    ground arith,
    ground arith,
    elim (Bool-cases (eqb user instance_actor_name)) [
      | inl own ↦ inl own
      | inr other ↦ inr (ground arith)
    ],
  )

  -- WebFinger finds every user of the gateway, and the gateway's own actor, at user@host, for a host
  -- name without an @.
  handle_webfinger-found :
      (user : Str)
      → Free b'@' host
      → (eqb user instance_actor_name ≡ true) ⊎ (is_user user ≡ true)
      → handle_webfinger host is_user (codes "acct:" ++ (user ++ (codes "@" ++ host)))
        ≡ jrd (codes "acct:" ++ (user ++ (codes "@" ++ host))) (actor_of user)
  unfolding handle_webfinger trim_prefix cut_prefix
  handle_webfinger-found user free known =
      ap (webfinger_for host is_user) (last_byte_cut_at b'@' user host free)
      ∙ webfinger_hit user known

  -- A WebFinger document is only ever given for an account at the gateway's host that is a user's or
  -- the gateway's own, and it names that account and its actor.
  pub handle_webfinger_sound :
      (resource subject url : Str)
      → handle_webfinger host is_user resource ≡ jrd subject url
      → (user : Str) × (trim_prefix resource (codes "acct:") ≡ user ++ (codes "@" ++ host))
        × (subject ≡ codes "acct:" ++ (user ++ (codes "@" ++ host)))
        × (url ≡ actor_of user)
        × ((eqb user instance_actor_name ≡ true) ⊎ (is_user user ≡ true))
  unfolding handle_webfinger
  handle_webfinger_sound resource subject url h =
      let (user, split, subject_is, url_is, known) =
        webfinger_only (last_byte_cut b'@' (trim_prefix resource (codes "acct:"))) subject url h in
      (user, last_byte_cut_sound b'@' _ user host split, subject_is, url_is, known)

-- The logs are given only to a request that has the configured token, which is not empty, and they
-- are the lines of the ring.
pub handle_logs_sound :
    (token : Str) (ring : Option (List Str)) (query authorization body : Str)
    → handle_logs token ring query authorization ≡ text body
    → (lines : List Str) × (ring ≡ some lines)
      × (body ≡ log_text lines)
      × (token ≢ [])
      × ((query ≡ token) ⊎ (trim_prefix authorization (codes "Bearer ") ≡ token))
unfolding handle_logs
handle_logs_sound token none query authorization body h = cc
handle_logs_sound token (some lines) query authorization body h = (
  lines,
  refl,
  ground arith,
  (λ e. grind (arith, eqb_refl token, eqb_iff token [])),
  elim (Bool-cases (eqb query [])) [
    | inl from_header ↦ inr (eqb_sound _ token (ground arith))
    | inr from_query ↦ inl (eqb_sound query token (ground arith))
  ],
)
