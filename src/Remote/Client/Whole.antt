-- ===== src/Remote/Client/Whole.antt =====
-- sendRetry over the client of newSafeClient: what a successful answer is.
use activity_pub_gw.Base.{
  ℕ, suc, ◌≤◌, ◌≡◌, refl, ◌∙◌, sym, subst, Bool, true, false, List, Option, none, some, ltb, ◌&&◌,
  if◌then◌else◌, length, take, take_all, length-take, All, arith,
}
use activity_pub_gw.Base.Result.{Result, ok, err}
use activity_pub_gw.Text.{Str}
use activity_pub_gw.Remote.{Gateway, check_remote_url}
use activity_pub_gw.Remote.Cache.{
  Attempt, gave, try_again, too_large, attempt, CachedGet, SendError, send_retry,
}
use activity_pub_gw.Remote.Client.{Hop, Net, DoError, Chain, max_redirects, do_request}
use activity_pub_gw.Remote.Client.Hops.{IsSafe, Ends, do_request-Ends}

-- What an attempt sees of a chain: an error of the client is a network error.
unfoldable pub reply_of : Chain → Option (ℕ × Option Str)
reply_of none = none
reply_of (some (_, err _)) = none
reply_of (some (_, ok reply)) = some reply

-- The server of sendRetry's attempts: the n-th attempt goes through the client on the network as it is
-- then.
unfoldable pub through_client : Gateway → (ℕ → Net) → Str → ℕ → Option (ℕ × Option Str)
through_client g nets url n = reply_of (do_request g (nets n) url)

-- What the retrier documents: it succeeds only with the answer of one of the attempts.
pub record IsRetrier (retry : (ℕ → Attempt) → Result SendError CachedGet) : Type 0 where
  pub gives :
      (attempts : ℕ → Attempt) (r : CachedGet)
      → retry attempts ≡ ok r
      → (n : ℕ) × (attempts n ≡ gave r.status r.body)

took_all :
    (limit : ℕ) (s : Str) → ltb limit (length (take (suc limit) s)) ≡ false → take (suc limit) s ≡ s
took_all limit s h = take_all (suc limit) s (ground (arith, length-take (suc limit) s))

gave_inj :
    {st status : ℕ} {body body' : Str}
    → gave st body ≡ gave status body'
    → (st ≡ status) × (body ≡ body')
gave_inj h = (cc, cc)

read_whole :
    (limit st status : ℕ) (bytes body : Str) (again is_success large : Bool)
    → ltb limit (length (take (suc limit) bytes)) ≡ large
    → ltb st 300 ≡ is_success
    → (if again
        then try_again
        else if is_success && large
        then too_large
        else gave st (take (suc limit) bytes))
      ≡ gave status body
    → ltb status 300 ≡ true
    → (st ≡ status) × (bytes ≡ body) × (length body ≤ limit)
read_whole limit st status bytes body true is_success large e f h small = cc
read_whole limit st status bytes body false true true e f h small = cc
read_whole limit st status bytes body false false large e f h small =
    let (same, _) = gave_inj h in ground arith
read_whole limit st status bytes body false true false e f h small =
    let (same, taken) = gave_inj h in
    (same, sym (took_all limit bytes e) ∙ taken, subst (λ s. length s ≤ limit) taken (ground arith))

attempt_whole :
    (limit status : ℕ) (o : Option (ℕ × Option Str)) (body : Str)
    → attempt limit o ≡ gave status body
    → ltb status 300 ≡ true
    → (o ≡ some (status, some body)) × (length body ≤ limit)
unfolding attempt
attempt_whole limit status none body h small = cc
attempt_whole limit status (some (st, none)) body h small = cc
attempt_whole limit status (some (st, some bytes)) body h small =
    let (same, whole, fits) = read_whole limit st status bytes body _ _ _ refl refl h small in
    (cc, fits)

module _ (g : Gateway) (nets : ℕ → Net) (url : Str) where
  -- An answer that is the whole body that a server sent at the end of a chain of safe requests.
  pub record IsWhole (limit : ℕ) (r : CachedGet) : Type 0 where
    pub attempt_number : ℕ
    pub sent : List Hop
    pub received : do_request g (nets attempt_number) url ≡ some (sent, ok (r.status, some r.body))
    pub safe : All (IsSafe g (nets attempt_number)) sent
    pub few : length sent ≤ max_redirects
    pub fits : length r.body ≤ limit

reply_of_sound :
    (c : Chain) (reply : ℕ × Option Str)
    → reply_of c ≡ some reply
    → (sent : List Hop) × (c ≡ some (sent, ok reply))
unfolding reply_of
reply_of_sound none reply h = cc
reply_of_sound (some (sent, err e)) reply h = cc
reply_of_sound (some (sent, ok answer)) reply h = (sent, cc)

module _ (g : Gateway) (nets : ℕ → Net) (url : Str) (limit : ℕ) (r : CachedGet) where
  same_sent :
      {first sent : List Hop} {result result' : Result DoError (ℕ × Option Str)} {c : Chain}
      → c ≡ some (first, result)
      → c ≡ some (sent, result')
      → first ≡ sent
  same_sent e e' = cc

  whole :
      (n : ℕ) (sent : List Hop)
      → Ends g (nets n) (do_request g (nets n) url)
      → do_request g (nets n) url ≡ some (sent, ok (r.status, some r.body))
      → length r.body ≤ limit
      → IsWhole g nets url limit r
  whole n sent ends received fits =
      let same = same_sent ends.ended received in
      record {
        attempt_number = n;
        sent = sent;
        received = received;
        safe = subst (All (IsSafe g (nets n))) same ends.safe;
        few = subst (λ hops. length hops ≤ max_redirects) same ends.bounded;
        fits = fits;
      }

  -- With private targets off and a retrier that only succeeds with the answer of an attempt: when a
  -- request to a URL that passed the guard succeeds with a status below 300, its body is the whole body
  -- that a server sent, no longer than the limit, at the end of a chain of at most five requests, all
  -- of them to safe URLs over connections to addresses that are not blocked.
  pub send_retry-IsWhole :
      (retry : (ℕ → Attempt) → Result SendError CachedGet)
      → IsRetrier retry
      → g.allow_private_targets ≡ false
      → check_remote_url g url ≡ ok tt
      → send_retry (some retry) limit (through_client g nets url) ≡ ok r
      → ltb r.status 300 ≡ true
      → IsWhole g nets url limit r
  unfolding send_retry through_client
  send_retry-IsWhole retry laws off passes succeeds small =
      let (n, e) = laws.gives (λ n. attempt limit (through_client g nets url n)) r succeeds in
      let (received, fits) = attempt_whole limit r.status _ r.body e small in
      let (sent, chain) = reply_of_sound (do_request g (nets n) url) _ received in
      whole n sent (do_request-Ends g (nets n) off url passes) chain fits
