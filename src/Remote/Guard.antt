-- ===== src/Remote/Guard.antt =====
-- server.go: checkRemoteURL as conditions on the parsed URL, and the requests behind it.
use activity_pub_gw.Base.{
  Option-cases, inl, inr, ℕ, ◌≡◌, refl, ◌↔◌, false, [], Option, some, arith, All, All-append,
}
use activity_pub_gw.Base.Result.{Result, ok, err}
use activity_pub_gw.Text.{Str, codes, eqb}
use activity_pub_gw.Text.Laws.{eqb_iff}
use activity_pub_gw.Json.{Fields}
use activity_pub_gw.Url.{Url}
use activity_pub_gw.Remote.{
  Gateway, Sent, get_from, post_to, Run, is_blocked_literal, validate_remote_url, is_self_host,
  is_self_url, check_remote_url, FetchError, if_allowed, fetch_actor, post_signed, and_then,
  remote_inbox, deliver_follow,
}

module _ (g : Gateway) where
  -- What the guard asks of the parsed URL: it names another host than ours, over https, and neither
  -- localhost nor an address of a blocked range.
  pub record IsPublic (u : Url) : Type 0 where
    pub is_https : u.scheme ≡ codes "https"
    pub has_host : eqb u.hostname [] ≡ false
    pub not_localhost : g.lib.runes.equal_fold u.hostname (codes "localhost") ≡ false
    pub not_below_localhost : g.ends_in_localhost (g.lib.runes.to_lower u.hostname) ≡ false
    pub not_blocked : is_blocked_literal (g.parse_addr u.hostname) ≡ false
    pub not_self : is_self_host g u.hostname ≡ false

  self_of :
      (raw : Str) (u : Url)
      → g.lib.parse_url raw ≡ some u
      → is_self_url g raw ≡ is_self_host g u.hostname
  unfolding is_self_url
  self_of raw u e = rw (e, is_self_url) refl

  -- With private targets off, the guard passes a URL exactly when it parses and is public.
  pub check_remote_url_iff :
      g.allow_private_targets ≡ false
      → (raw : Str)
      → (check_remote_url g raw ≡ ok tt) ↔ ((u : Url) × (g.lib.parse_url raw ≡ some u) × IsPublic u)
  unfolding check_remote_url is_self_url validate_remote_url
  check_remote_url_iff off raw = (
    (λ h. elim (Option-cases (g.lib.parse_url raw)) [
      | inl none_e ↦ ground arith
      | inr (u, e) ↦ (
        u,
        e,
        record {
          is_https = (eqb_iff u.scheme (codes "https")).0 (ground arith);
          has_host = ground arith;
          not_localhost = ground arith;
          not_below_localhost = ground arith;
          not_blocked = ground arith;
          not_self = ground arith;
        },
      )
    ]),
    λ (u, e, p).
        let https = (eqb_iff u.scheme (codes "https")).1 p.is_https in
        rw
          (
            self_of raw u e,
            e,
            p.not_self,
            off,
            https,
            p.has_host,
            p.not_localhost,
            p.not_below_localhost,
            p.not_blocked,
          )
          refl,
  )

  -- The URL of a request passed the guard.
  unfoldable pub IsAllowed : Sent → Type 0
  IsAllowed (get_from url) = check_remote_url g url ≡ ok tt
  IsAllowed (post_to url) = check_remote_url g url ≡ ok tt

if_allowed-IsAllowed :
    {A : Type 0} (g : Gateway) (c : Result FetchError (Unit {0})) (request : Sent)
    (r : Result FetchError A)
    → (c ≡ ok tt → IsAllowed g request)
    → All (IsAllowed g) (if_allowed c request r).0
unfolding if_allowed
if_allowed-IsAllowed g (err e) request r h = tt
if_allowed-IsAllowed g (ok _) request r h = (h refl, tt)

module _ (g : Gateway) (answer : Sent → Option (ℕ × Str)) (unmarshal : Str → Option Fields) where
  fetch_actor-IsAllowed : (url : Str) → All (IsAllowed g) (fetch_actor g answer unmarshal url).0
  unfolding fetch_actor IsAllowed
  fetch_actor-IsAllowed url = if_allowed-IsAllowed g _ (get_from url) _ (λ e. e)

  post_signed-IsAllowed : (url : Str) → All (IsAllowed g) (post_signed g answer unmarshal url).0
  unfolding post_signed IsAllowed
  post_signed-IsAllowed url = if_allowed-IsAllowed g _ (post_to url) _ (λ e. e)

and_then-IsAllowed :
    {A B : Type 0} (g : Gateway) (m : Run A) (k : A → Run B)
    → All (IsAllowed g) m.0
    → ((a : A) → All (IsAllowed g) (k a).0)
    → All (IsAllowed g) (and_then m k).0
unfolding and_then
and_then-IsAllowed g (sent, err e) k h next = h
and_then-IsAllowed g (sent, ok a) k h next = All-append (IsAllowed g) sent (k a).0 h (next a)

module _ (g : Gateway) (answer : Sent → Option (ℕ × Str)) (unmarshal : Str → Option Fields) where
  remote_inbox-IsAllowed : (url : Str) → All (IsAllowed g) (remote_inbox g answer unmarshal url).0
  unfolding remote_inbox
  remote_inbox-IsAllowed url =
      and_then-IsAllowed g _ _ (fetch_actor-IsAllowed g answer unmarshal url) (λ m. tt)

  -- Whatever the other servers answer, a delivery of a Follow or its Undo sends requests only to
  -- URLs that the guard lets through: that of the actor, and that of the inbox the actor names.
  pub deliver_follow-IsAllowed :
      (url : Str) → All (IsAllowed g) (deliver_follow g answer unmarshal url).0
  unfolding deliver_follow
  deliver_follow-IsAllowed url =
      and_then-IsAllowed g _ _ (remote_inbox-IsAllowed url)
        (post_signed-IsAllowed g answer unmarshal)
