-- ===== src/Followers/Paging.antt =====
-- nodeFollowerStore.List against the pages that a node serves.
use activity_pub_gw.Base.{
  ℕ, zero, suc, ◌≤◌, ◌≡◌, ◌≢◌, ◌⊎◌, ◌↔◌, ◌||◌, refl, Bool, true, false, List, [], ◌∷◌, ◌++◌, Option,
  none, some, arith, inl, inr, Bool-cases,
}
use activity_pub_gw.Base.Result.{ok, err}
use activity_pub_gw.Text.{Str, eqb}
use activity_pub_gw.Text.Laws.{eqb_iff, eqb_sound}
use activity_pub_gw.Followers.{
  Decoder, ErrorBody, FollowersPage, StoreError, transport, malformed, node, node_response_error,
  is_empty, collect, read_page, is_last_page, list_pages, list, followers_max_pages,
}

eqb-holds : (s t : Str) → s ≡ t → eqb s t ≡ true
eqb-holds s t e = (eqb_iff s t).1 e

eqb-fails : (s t : Str) → s ≢ t → eqb s t ≡ false
eqb-fails s t h = elim (Bool-cases (eqb s t)) [ inl e ↦ absurd (h (eqb_sound s t e)) | inr e ↦ e ]

empty_iff : (ids : List Str) → (is_empty ids ≡ true) ↔ (ids ≡ [])
empty_iff [] = (λ e. refl, λ e. refl)
empty_iff (id ∷ ids) = (λ e. cc, λ e. cc)

or_true : (a b c : Bool) → (a || (b || c)) ≡ true → (a ≡ true) ⊎ (b ≡ true) ⊎ (c ≡ true)
or_true true b c h = inl refl
or_true false true c h = inr (inl refl)
or_true false false c h = inr (inr h)

-- What ends the list after a page that was asked for with a cursor: it has no followers, or no cursor, or the cursor
-- that was sent.
abbrev pub IsEnd : Str → FollowersPage → Type 0
IsEnd cursor page = (page.followers ≡ []) ⊎ (page.cursor ≡ []) ⊎ (page.cursor ≡ cursor)

-- An error of the node in an answer: an error body with a message.
abbrev pub IsError : Option ErrorBody → ErrorBody → Type 0
IsError o e = (o ≡ some e) × (e.message ≢ [])

last-IsEnd :
    (cursor : Str) (page : FollowersPage) → ¬ IsEnd cursor page → is_last_page cursor page ≡ false
unfolding is_last_page
last-IsEnd cursor page h = elim (Bool-cases (is_last_page cursor page)) [
  | inr e ↦ e
  | inl e ↦
      elim (or_true (is_empty page.followers) (eqb page.cursor []) (eqb page.cursor cursor) e) [
        | inl a ↦ absurd (h (inl ((empty_iff page.followers).0 a)))
        | inr (inl b) ↦ absurd (h (inr (inl (eqb_sound page.cursor [] b))))
        | inr (inr c) ↦ absurd (h (inr (inr (eqb_sound page.cursor cursor c))))
      ]
]

module _ (decoder : Decoder) (ask : ℕ → Str → Option Str) where
  -- The node answers a request with a page.
  pub record Answers (n : ℕ) (cursor : Str) (page : FollowersPage) : Type 0 where
    pub body : Str
    pub answered : ask n cursor ≡ some body
    pub no_error : (e : ErrorBody) → decoder.error_body body ≡ some e → e.message ≡ []
    pub decoded : decoder.followers_page body ≡ some page

  -- A request that gives no page: it fails, the node answers an error, or what is no page.
  pub data Breaks (n : ℕ) (cursor : Str) : StoreError → Type 0 where
    unanswered : ask n cursor ≡ none → Breaks n cursor transport
    refused :
        (body : Str) (e : ErrorBody)
        → ask n cursor ≡ some body
        → IsError (decoder.error_body body) e
        → Breaks n cursor (node e.code e.message)
    garbled :
        (body : Str)
        → ask n cursor ≡ some body
        → ((e : ErrorBody) → decoder.error_body body ≡ some e → e.message ≡ [])
        → decoder.followers_page body ≡ none
        → Breaks n cursor malformed

  -- From the n-th request on, with a cursor, the node serves these followers on so many pages, and
  -- the last one is an end.
  pub data Serves : ℕ → Str → List Str → ℕ → Type 0 where
    last :
        {n : ℕ} {cursor : Str} (page : FollowersPage)
        → Answers n cursor page
        → IsEnd cursor page
        → Serves n cursor page.followers 1
    more :
        {n k : ℕ} {cursor : Str} {ids : List Str} (page : FollowersPage)
        → Answers n cursor page
        → ¬ IsEnd cursor page
        → Serves (suc n) page.cursor ids k
        → Serves n cursor (page.followers ++ ids) (suc k)

  -- From the n-th request on, so many pages are served, none of them an end, and the next request
  -- gives no page.
  pub data Fails (e : StoreError) : ℕ → Str → ℕ → Type 0 where
    here : {n : ℕ} {cursor : Str} → Breaks n cursor e → Fails e n cursor 0
    later :
        {n k : ℕ} {cursor : Str} (page : FollowersPage)
        → Answers n cursor page
        → ¬ IsEnd cursor page
        → Fails e (suc n) page.cursor k
        → Fails e n cursor (suc k)

  no_error-read :
      (o : Option ErrorBody)
      → ((e : ErrorBody) → o ≡ some e → e.message ≡ [])
      → node_response_error o ≡ ok tt
  unfolding node_response_error
  no_error-read none h = refl
  no_error-read (some e) h = rw (eqb-holds e.message [] (h e refl)) refl

  error-read :
      (e : ErrorBody) → e.message ≢ [] → node_response_error (some e) ≡ err (node e.code e.message)
  unfolding node_response_error
  error-read e h = rw (eqb-fails e.message [] h) refl

  read-Answers :
      {n : ℕ} {cursor : Str} {page : FollowersPage}
      → Answers n cursor page
      → read_page decoder ask n cursor ≡ ok page
  unfolding read_page
  read-Answers a =
      rw (a.answered, no_error-read (decoder.error_body a.body) a.no_error, a.decoded) refl

  read-Breaks :
      {n : ℕ} {cursor : Str} {e : StoreError}
      → Breaks n cursor e
      → read_page decoder ask n cursor ≡ err e
  unfolding read_page
  read-Breaks (unanswered lost) = rw lost refl
  read-Breaks (refused body e answered (is, ne)) = rw (answered, is, error-read e ne) refl
  read-Breaks (garbled body answered no_error broken) =
      rw (answered, no_error-read (decoder.error_body body) no_error, broken) refl

  list_pages-Fails :
      {e : StoreError} {n k fuel : ℕ} {cursor : Str}
      → Fails e n cursor k
      → suc k ≤ fuel
      → (resolve : Str → Option Str) (urls : List Str)
      → list_pages decoder ask resolve fuel n cursor urls ≡ err e
  unfolding list_pages
  list_pages-Fails {fuel = zero} fails le resolve urls = elim le [ ]
  list_pages-Fails {fuel = suc f} (here breaks) le resolve urls = rw (read-Breaks breaks) refl
  list_pages-Fails {fuel = suc f} {cursor = cursor} (later page read not_last rest) le resolve
        urls =
      rw (read-Answers read, last-IsEnd cursor page not_last)
        (list_pages-Fails {fuel = f} rest (omega arith) resolve
          (collect resolve page.followers urls))

  -- A node that serves fewer than 100 pages that are no end, and then does not answer, answers an
  -- error or answers what is no page: the list fails with just that error.
  pub list-Fails :
      {e : StoreError} {k : ℕ} (resolve : Str → Option Str)
      → Fails e 0 [] k
      → suc k ≤ followers_max_pages
      → list decoder ask resolve ≡ err e
  unfolding list
  list-Fails resolve fails le = list_pages-Fails fails le resolve []
