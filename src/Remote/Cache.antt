-- ===== src/Remote/Cache.antt =====
-- server.go: one attempt of a request to another server, and the memory of answers to signed
-- requests. An answer is a status and a body.
use activity_pub_gw.Base.{
  ℕ, suc, ◌≡◌, refl, Bool, List, ◌++◌, length, take, ltb, leb, ◌==◌, ◌&&◌, ◌||◌, Option, none, some,
  if◌then◌else◌, ◌∙◌,
}
use activity_pub_gw.Base.Assoc.{lookup, insert, lookup-insert}
use activity_pub_gw.Base.Result.{Result, ok, err}
use activity_pub_gw.Text.{Str, codes}
use activity_pub_gw.Text.Laws.{eqb_refl}

-- retryableStatus.
unfoldable pub retryable_status : ℕ → Bool
retryable_status code = code == 429 || leb 500 code

-- An attempt of sendRetry: an answer, an error after which the retrier tries again, or one after
-- which it stops.
pub data Attempt : Type 0 where
  gave : ℕ → Str → Attempt
  try_again too_large : Attempt

read_attempt : ℕ → ℕ → Option Str → Attempt
read_attempt limit status none = try_again
read_attempt limit status (some bytes) =
    let body = take (suc limit) bytes in
    if leb 300 status && retryable_status status
    then try_again
    else if ltb status 300 && ltb limit (length body)
    then too_large
    else gave status body

-- The function `do` of sendRetry, from what the server sends: none is a network error, and a missing
-- body a failed read.
unfoldable pub attempt : ℕ → Option (ℕ × Option Str) → Attempt
unfolding read_attempt
attempt limit none = try_again
attempt limit (some (status, body)) = read_attempt limit status body

-- cachedGet.
pub record CachedGet : Type 0 where
  pub status : ℕ
  pub body : Str

-- Why a request gives no answer in the end.
pub data SendError : Type 0 where
  exhausted over_limit : SendError

-- A single attempt, without a retrier.
once : Attempt → Result SendError CachedGet
once (gave status body) = ok (record { status = status; body = body })
once try_again = err exhausted
once too_large = err over_limit

-- sendRetry: the retrier, if there is one, runs the attempts by their number.
unfoldable pub send_retry :
    Option ((ℕ → Attempt) → Result SendError CachedGet)
    → ℕ
    → (ℕ → Option (ℕ × Option Str))
    → Result SendError CachedGet
unfolding once
send_retry none limit server = once (attempt limit (server 0))
send_retry (some retry) limit server = retry (λ n. attempt limit (server n))

-- The answers to signed requests, by their keys; getCache.
abbrev pub Answers : Type 0
Answers = List (Str × CachedGet)

-- What signedGet keeps of a new answer.
kept : Str → Answers → Result SendError CachedGet → Result SendError CachedGet × Answers
kept key cache (err e) = (err e, cache)
kept key cache (ok r) = (ok r, insert key r cache)

cached_or_sent :
    Str
    → Answers
    → Option CachedGet
    → Result SendError CachedGet
    → Result SendError CachedGet × Answers
cached_or_sent key cache (some r) sent = (ok r, cache)
cached_or_sent key cache none sent = kept key cache sent

-- signedGet, from what the request gives if it is sent, and the cache after it.
unfoldable pub signed_get :
    Str → Str → Answers → Result SendError CachedGet → Result SendError CachedGet × Answers
unfolding kept cached_or_sent
signed_get accept url cache sent =
    let key = accept ++ (codes " " ++ url) in cached_or_sent key cache (lookup key cache) sent

module _ (key : Str) (cache : Answers) (r : CachedGet) where
  kept-again :
      (o : Option CachedGet) (sent : Result SendError CachedGet)
      → lookup key cache ≡ o
      → (cached_or_sent key cache o sent).0 ≡ ok r
      → lookup key (cached_or_sent key cache o sent).1 ≡ some r
  unfolding cached_or_sent kept
  kept-again (some q) sent e h = e ∙ cc
  kept-again none (err _) e h = cc
  kept-again none (ok q) e h = lookup-insert key key q cache ∙ rw (eqb_refl key) cc

-- Once a signed request has given an answer, the same request gives that answer again, whatever the
-- server would send, as long as the cache keeps it.
signed_get-again :
    (accept url : Str) (cache : Answers) (sent later : Result SendError CachedGet) (r : CachedGet)
    → (signed_get accept url cache sent).0 ≡ ok r
    → signed_get accept url (signed_get accept url cache sent).1 later
      ≡ (ok r, (signed_get accept url cache sent).1)
unfolding signed_get cached_or_sent
signed_get-again accept url cache sent later r h =
    let key = accept ++ (codes " " ++ url) in
    rw (kept-again key cache r (lookup key cache) sent refl h) refl
