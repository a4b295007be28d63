-- ===== src/Remote/Client/Hops.antt =====
-- newSafeClient: where the requests of a chain of redirects may go, and how many they are.
use activity_pub_gw.Base.{
  ℕ, zero, suc, ◌+◌, ◌≤◌, ◌≡◌, refl, ◌∙◌, false, List, [], ◌∷◌, ◌++◌, Option, none, some, inl, inr,
  Option-cases, length, length-append, All, All-append, arith,
}
use activity_pub_gw.Base.Result.{Result, ok, err, Result-cases}
use activity_pub_gw.Text.{Str, codes, eqb}
use activity_pub_gw.Text.Laws.{eqb_iff}
use activity_pub_gw.Url.{Url}
use activity_pub_gw.Remote.{Gateway, is_blocked_literal, validate_remote_url, check_remote_url}
use activity_pub_gw.Remote.Client.{
  Hop, Reply, answers, redirects, breaks, Net, DoError, Chain, max_redirects, refused, dial_control,
  check_redirect, on_redirect, on_reply, on_dial, on_address, follow_redirects, do_request,
}

module _ (g : Gateway) (net : Net) where
  -- A URL that a request may go to: over https, to a named host that is not localhost and not a
  -- blocked address.
  pub record IsSafeUrl (raw : Str) : Type 0 where
    pub u : Url
    pub parsed : g.lib.parse_url raw ≡ some u
    pub is_https : u.scheme ≡ codes "https"
    pub has_host : eqb u.hostname [] ≡ false
    pub not_localhost : g.lib.runes.equal_fold u.hostname (codes "localhost") ≡ false
    pub not_blocked : is_blocked_literal (g.parse_addr u.hostname) ≡ false

  -- An address that a request may connect to: its host is not a blocked one.
  pub record IsSafeAddress (address : Str) : Type 0 where
    pub host : Str
    pub split : net.split_host_port address ≡ some host
    pub not_blocked : is_blocked_literal (g.parse_addr host) ≡ false

  unfoldable pub IsSafe : Hop → Type 0
  IsSafe hop = IsSafeUrl hop.url × IsSafeAddress hop.address

  validate_sound : (raw : Str) → validate_remote_url g raw ≡ ok tt → IsSafeUrl raw
  unfolding validate_remote_url
  validate_sound raw h = elim (Option-cases (g.lib.parse_url raw)) [
    | inl none_e ↦ ground arith
    | inr (u, e) ↦ record {
      u = u;
      parsed = e;
      is_https = (eqb_iff u.scheme (codes "https")).0 (ground arith);
      has_host = ground arith;
      not_localhost = ground arith;
      not_blocked = ground arith;
    }
  ]

  dial_sound : (a : Str) → dial_control g net a ≡ ok tt → IsSafeAddress a
  unfolding dial_control
  dial_sound a h = elim (Option-cases (net.split_host_port a)) [
    | inl none_e ↦ ground arith
    | inr (host, e) ↦ record { host = host; split = e; not_blocked = ground arith }
  ]

  -- A redirect that is followed: its target is safe, and there is room for one more request.
  redirect_sound :
      (via : List Hop) (target : Str)
      → check_redirect g net via target ≡ ok tt
      → IsSafeUrl target × (suc (length via) ≤ max_redirects)
  unfolding check_redirect refused
  redirect_sound via target h = elim (Result-cases (validate_remote_url g target)) [
    | inr (e, bad) ↦ ground arith
    | inl (u, good) ↦ (validate_sound target (good ∙ refl), ground arith)
  ]

  -- A chain that has ended, with the requests it sent: all went to safe places, and there are at most
  -- five.
  pub record Ends (chain : Chain) : Type 0 where
    pub sent : List Hop
    pub result : Result DoError (ℕ × Option Str)
    pub ended : chain ≡ some (sent, result)
    pub safe : All IsSafe sent
    pub bounded : length sent ≤ max_redirects

  module _ (n : ℕ) (next : List Hop → Str → Chain)
      (goes_on : (via : List Hop) (url : Str)
        → All IsSafe via
        → length via + n ≡ max_redirects
        → suc (length via) ≤ max_redirects
        → IsSafeUrl url
        → Ends (next via url)) where
    stops :
        (via : List Hop) (r : Result DoError (ℕ × Option Str))
        → All IsSafe via
        → length via ≤ max_redirects
        → Ends (some (via, r))
    stops via r safe fits = record {
      sent = via;
      result = r;
      ended = refl;
      safe = safe;
      bounded = fits;
    }

    on_redirect-Ends :
        (via : List Hop) (target : Str) (r : Result DoError (Unit {0}))
        → check_redirect g net via target ≡ r
        → All IsSafe via
        → length via + n ≡ max_redirects
        → Ends (on_redirect g net next via target r)
    unfolding on_redirect
    on_redirect-Ends via target (err e) h safe fits = stops via (err e) safe (omega arith)
    on_redirect-Ends via target (ok tt) h safe fits =
        let (here, room) = redirect_sound via target h in goes_on via target safe fits room here

    on_reply-Ends :
        (via : List Hop) (r : Reply)
        → All IsSafe via
        → length via + n ≡ max_redirects
        → Ends (on_reply g net next via r)
    unfolding on_reply
    on_reply-Ends via (answers status body) safe fits = stops via _ safe (omega arith)
    on_reply-Ends via breaks safe fits = stops via _ safe (omega arith)
    on_reply-Ends via (redirects target) safe fits =
        on_redirect-Ends via target (check_redirect g net via target) refl safe fits

    on_dial-Ends :
        (via : List Hop) (hop : Hop) (r : Result DoError (Unit {0}))
        → dial_control g net hop.address ≡ r
        → All IsSafe via
        → length via + suc n ≡ max_redirects
        → IsSafeUrl hop.url
        → Ends (on_dial g net next via hop r)
    unfolding on_dial IsSafe
    on_dial-Ends via hop (err e) h safe fits here = stops via (err e) safe (omega arith)
    on_dial-Ends via hop (ok tt) h safe fits here =
        on_reply-Ends (via ++ (hop ∷ [])) (net.serve hop)
          (All-append IsSafe via (hop ∷ []) safe ((here, dial_sound hop.address h), tt))
          (omega (arith, length-append via (hop ∷ [])))

    on_address-Ends :
        (via : List Hop) (url : Str) (a : Option Str)
        → All IsSafe via
        → length via + suc n ≡ max_redirects
        → IsSafeUrl url
        → Ends (on_address g net next via url a)
    unfolding on_address
    on_address-Ends via url none safe fits here = stops via _ safe (omega arith)
    on_address-Ends via url (some a) safe fits here =
        on_dial-Ends via (record { url = url; address = a }) (dial_control g net a) refl safe fits
          here

  follow_redirects-Ends :
      (n : ℕ) (via : List Hop) (url : Str)
      → All IsSafe via
      → length via + suc n ≡ max_redirects
      → IsSafeUrl url
      → Ends (follow_redirects g net (suc n) via url)
  unfolding follow_redirects
  follow_redirects-Ends zero via url safe fits here =
      on_address-Ends zero (follow_redirects g net zero)
        (λ _ _ _ full room _. ground (arith, full, room)) via url (net.resolve url) safe fits here
  follow_redirects-Ends (suc n) via url safe fits here =
      on_address-Ends (suc n) (follow_redirects g net (suc n))
        (λ sent target sound full _ next. follow_redirects-Ends n sent target sound full next) via
        url (net.resolve url) safe fits here

  -- With private targets off, a request to a URL that passed the gateway's guard comes to an end
  -- after at most five requests, however the servers redirect it, and each of them goes to an https
  -- URL that is not localhost or a blocked address, over a connection to an address whose host is
  -- not a blocked one.
  pub do_request-Ends :
      g.allow_private_targets ≡ false
      → (url : Str) → check_remote_url g url ≡ ok tt
      → Ends (do_request g net url)
  unfolding do_request check_remote_url
  do_request-Ends off url h =
      follow_redirects-Ends 4 [] url tt refl (validate_sound url (ground arith))
