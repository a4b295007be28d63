-- ===== src/Server/Routes/Weighed.antt =====
-- The pages of the public server against the rate limiter's planes and weights.
use activity_pub_gw.Base.{
  ℕ, Bool-cases, Option-cases, ap, subst, ◌≡◌, refl, sym, Bool, true, false, [], ◌∷◌, ◌++◌, Option,
  none, some, inl, inr, arith, if◌then◌else◌,
}
use activity_pub_gw.Text.{Str, codes, eqb, cut_prefix, has_prefix}
use activity_pub_gw.Text.Laws.{eqb_sound}
use activity_pub_gw.RateLimit.Price.{
  reject, client_only, both, verdict, is_control_plane, request_weight, path_users,
}
use activity_pub_gw.Server.Routes.{
  Handler, webfinger, nodeinfo_links, nodeinfo, users, instance_actor_sub, shared_inbox, media,
  static_files, logs, moved, no_handler, Page, user_page, actor_page, page_of, page, dispatch,
  below, is_subtree, served_by,
}
use activity_pub_gw.Server.Plane.{verdict_by}
use activity_pub_gw.Server.Plane.Priced.{is_clean, plane_of, priced}

-- The plane and the weight that a page is meant to have: the documents of actors, the inboxes and
-- WebFinger are the control plane; a media file is the dearest, a static answer costs least. A path
-- without a page has none.
unfoldable pub plane_of_page : Page → Option (Bool × ℕ)
plane_of_page (user_page s) = plane_of s
plane_of_page (actor_page r) = some (false, 1)
plane_of_page (page_of webfinger) = some (true, 2)
plane_of_page (page_of Handler.instance_actor) = some (true, 1)
plane_of_page (page_of shared_inbox) = some (true, 4)
plane_of_page (page_of media) = some (false, 8)
plane_of_page (page_of nodeinfo_links) = some (false, 1)
plane_of_page (page_of nodeinfo) = some (false, 1)
plane_of_page (page_of static_files) = some (false, 1)
plane_of_page (page_of logs) = some (false, 1)
plane_of_page (page_of moved) = some (false, 1)
plane_of_page (page_of users) = none
plane_of_page (page_of instance_actor_sub) = none
plane_of_page (page_of no_handler) = none

cut_sound : (s p t : Str) → cut_prefix s p ≡ some t → s ≡ p ++ t
unfolding cut_prefix
cut_sound s [] t h = cc
cut_sound [] (b ∷ p) t h = cc
cut_sound (a ∷ s) (b ∷ p) t h = grind (arith, cut_sound s p t)

prefix_sound : (s p : Str) → has_prefix s p ≡ true → (t : Str) × (s ≡ p ++ t)
unfolding has_prefix
prefix_sound s p h = elim (Option-cases (cut_prefix s p)) [
  | inl e ↦ cc (rw e at h)
  | inr (t, e) ↦ (t, cut_sound s p t e)
]

-- What the limiter reads off a path.
price : Str → Bool × ℕ
price p = (is_control_plane p, request_weight p)

some_inj : {A : Type 0} {a b : A} → some a ≡ some b → a ≡ b
some_inj h = cc

module _ (host pem : Str) (is_user : Str → Bool) where
  -- A path is priced as its page is meant to be.
  abbrev IsPriced : Str → Handler → Type 0
  IsPriced p h =
      (r : Bool × ℕ) → plane_of_page (served_by host pem is_user p h) ≡ some r → price p ≡ r

  at_path : (p c : Str) (h : Handler) → IsPriced c h → eqb p c ≡ true → IsPriced p h
  at_path p c h known e = subst (λ p. IsPriced p h) (sym (eqb_sound p c e)) known

  at_prefix :
      (p c : Str) (h : Handler)
      → ((t : Str) → p ≡ c ++ t → IsPriced (c ++ t) h)
      → has_prefix p c ≡ true
      → IsPriced p h
  at_prefix p c h known e =
      let (t, split) = prefix_sound p c e in subst (λ p. IsPriced p h) (sym split) (known t split)

  pick :
      (p : Str) (b : Bool) (x y : Handler)
      → (b ≡ true → IsPriced p x)
      → IsPriced p y
      → IsPriced p (if b then x else y)
  pick p true x y hx hy = hx refl
  pick p false x y hx hy = hy

  moved-IsPriced : (p : Str) → is_subtree p ≡ true → IsPriced p moved
  unfolding is_subtree served_by plane_of_page price is_control_plane request_weight eqb has_prefix
      cut_prefix
  moved-IsPriced p h = elim (Bool-cases (eqb p (codes "/users"))) [
    | inl e ↦ at_path p (codes "/users") moved (λ r k. some_inj k) e
    | inr n ↦ elim (Bool-cases (eqb p (codes "/media"))) [
      | inl e ↦ at_path p (codes "/media") moved (λ r k. some_inj k) e
      | inr m ↦ elim (Bool-cases (eqb p (codes "/static"))) [
        | inl e ↦ at_path p (codes "/static") moved (λ r k. some_inj k) e
        | inr l ↦ ground arith
      ]
    ]
  ]

  below-IsPriced :
      (p : Str)
      → ((rest : Str) → p ≡ path_users ++ rest → is_clean rest ≡ true)
      → IsPriced p (below p)
  unfolding below served_by plane_of_page price is_control_plane request_weight eqb has_prefix
      cut_prefix
  below-IsPriced p clean =
      pick p (has_prefix p (codes "/users/")) users _
        (at_prefix p (codes "/users/") users (λ t split r. priced is_user t r (clean t split)))
        (pick p (has_prefix p (codes "/actor/")) instance_actor_sub _
          (at_prefix p (codes "/actor/") instance_actor_sub (λ t split r k. some_inj k))
          (pick p (has_prefix p (codes "/media/")) media _
            (at_prefix p (codes "/media/") media (λ t split r k. some_inj k))
            (pick p (has_prefix p (codes "/static/")) static_files _
              (at_prefix p (codes "/static/") static_files (λ t split r k. some_inj k))
              (pick p (is_subtree p) moved no_handler (moved-IsPriced p) (λ r k. cc)))))

  dispatch-IsPriced :
      (p : Str)
      → ((rest : Str) → p ≡ path_users ++ rest → is_clean rest ≡ true)
      → IsPriced p (dispatch p)
  unfolding dispatch served_by plane_of_page price is_control_plane request_weight eqb has_prefix
      cut_prefix
  dispatch-IsPriced p clean =
      let at = at_path p in
      pick p (eqb p (codes "/.well-known/webfinger")) webfinger _
        (at (codes "/.well-known/webfinger") webfinger (λ r k. some_inj k))
        (pick p (eqb p (codes "/.well-known/nodeinfo")) nodeinfo_links _
          (at (codes "/.well-known/nodeinfo") nodeinfo_links (λ r k. some_inj k))
          (pick p (eqb p (codes "/nodeinfo/2.0")) nodeinfo _
            (at (codes "/nodeinfo/2.0") nodeinfo (λ r k. some_inj k))
            (pick p (eqb p (codes "/actor")) Handler.instance_actor _
              (at (codes "/actor") Handler.instance_actor (λ r k. some_inj k))
              (pick p (eqb p (codes "/inbox")) shared_inbox _
                (at (codes "/inbox") shared_inbox (λ r k. some_inj k))
                (pick p (eqb p (codes "/logs")) logs _ (at (codes "/logs") logs (λ r k. some_inj k))
                  (below-IsPriced p clean))))))

  -- A request for a path that has a page, without empty parts below /users/: it is refused when the client is over its
  -- budget; when the whole gateway is, only the pages off the control plane are refused, while actor
  -- documents, inboxes (the shared one too) and WebFinger are served from the client's budget alone.
  -- Each costs the weight that its page is meant to have.
  pub verdict-page :
      (p : Str) (control : Bool) (weight : ℕ)
      → ((rest : Str) → p ≡ path_users ++ rest → is_clean rest ≡ true)
      → plane_of_page (page host pem is_user p) ≡ some (control, weight)
      → (client_locked global_locked : Bool)
      → verdict client_locked global_locked p ≡ (
          if client_locked
          then reject
          else if control
          then client_only weight
          else if global_locked
          then reject
          else both weight)
  unfolding page price
  verdict-page p control weight clean h client_locked global_locked =
      let e = dispatch-IsPriced p clean (control, weight) h in
      verdict_by p control weight client_locked global_locked (ap (λ r. r.0) e) (ap (λ r. r.1) e)
