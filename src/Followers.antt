-- ===== src/Followers.antt =====
-- followers.go, nodefollowers.go: the store of a user's Fediverse followers, in the network (read
-- page by page) and in memory.
pub mod Paging
pub mod Memory
use activity_pub_gw.Base.{
  ℕ, zero, suc, Bool, true, false, List, [], ◌∷◌, ◌++◌, Option, none, some, ◌||◌, if◌then◌else◌,
}
use activity_pub_gw.Base.Result.{Result, ok, err, or_fail, ◌>>=◌, ◌>>◌}
use activity_pub_gw.Text.{Str, eqb, elem}
use activity_pub_gw.Actor.{is_bridged_user_id, bridged_user_id}
use activity_pub_gw.Url.{Lib}
use activity_pub_gw.Wire.{NewFollowEvent}

-- followersResponse.
pub record FollowersPage : Type 0 where
  pub followers : List Str
  pub cursor : Str

-- The envelope of event.ResponseError, with the fields that are read.
pub record ErrorBody : Type 0 where
  pub code : ℕ
  pub message : Str

-- json.Unmarshal at the two types; none is its error.
pub record Decoder : Type 0 where
  pub error_body : Str → Option ErrorBody
  pub followers_page : Str → Option FollowersPage

pub data StoreError : Type 0 where
  transport malformed : StoreError
  node : ℕ → Str → StoreError

-- followersMaxPages.
abbrev pub followers_max_pages : ℕ
followers_max_pages = 100

-- nodeResponseError: an answer that is an error of the node.
unfoldable pub node_response_error : Option ErrorBody → Result StoreError (Unit {0})
node_response_error none = ok tt
node_response_error (some e) = if eqb e.message [] then ok tt else err (node e.code e.message)

-- nodeFollowerStore.Add, from the answer of requestUser to the event.
unfoldable pub add :
    Lib → Decoder → (NewFollowEvent → Option Str) → Str → Str → Result StoreError (Unit {0})
add lib decoder request local_user actor_url = do
  body ←
      or_fail
        (request
          (record { follower_id = bridged_user_id lib actor_url; following_id = local_user }))
        transport
  node_response_error (decoder.error_body body)

-- len(ids) == 0.
abbrev pub is_empty : List Str → Bool
is_empty [] = true
is_empty (_ ∷ _) = false

-- The tests that end the loop after a page.
unfoldable pub is_last_page : Str → FollowersPage → Bool
is_last_page cursor page = is_empty page.followers || (eqb page.cursor [] || eqb page.cursor cursor)

-- A follower that resolves is appended; one that does not is passed over.
append_resolved : Option Str → List Str → List Str
append_resolved none urls = urls
append_resolved (some url) urls = urls ++ (url ∷ [])

-- resolveActorID; none is its error.
module _ (resolve : Str → Option Str) where
  -- The loop over the followers of a page.
  unfoldable pub collect : List Str → List Str → List Str
  unfolding append_resolved
  collect [] urls = urls
  collect (id ∷ ids) urls =
      collect ids (if is_bridged_user_id id then append_resolved (resolve id) urls else urls)

-- What requestUser answers to the n-th page request, by its cursor; none is an error. The empty
-- cursor stands for a request without one.
module _ (decoder : Decoder) (ask : ℕ → Str → Option Str) where
  -- A page's answer: a failed request, an error of the node and a malformed answer are errors.
  unfoldable pub read_page : ℕ → Str → Result StoreError FollowersPage
  read_page n cursor = do
    body ← or_fail (ask n cursor) transport
    node_response_error (decoder.error_body body)
    or_fail (decoder.followers_page body) malformed

  unfoldable pub list_pages :
      (Str → Option Str) → ℕ → ℕ → Str → List Str → Result StoreError (List Str)
  list_pages resolve zero n cursor urls = ok urls
  list_pages resolve (suc pages) n cursor urls = do
    page ← read_page n cursor
    let urls' = collect resolve page.followers urls in
        if is_last_page cursor page
        then ok urls'
        else list_pages resolve pages (suc n) page.cursor urls'

  -- nodeFollowerStore.List.
  unfoldable pub list : (Str → Option Str) → Result StoreError (List Str)
  list resolve = list_pages resolve followers_max_pages 0 [] []

-- memFollowerStore: the followers of a user, as the store keeps them.
module _ {S : Type 0} (get : Str → S → List Str) (put : Str → List Str → S → S) where
  -- memFollowerStore.Add.
  unfoldable pub mem_add : Str → Str → S → S
  mem_add local_user actor_url s =
      if elem actor_url (get local_user s)
      then s
      else put local_user (get local_user s ++ (actor_url ∷ [])) s

  -- memFollowerStore.List: the list is copied, and no error is possible.
  unfoldable pub mem_list : Str → S → List Str
  mem_list local_user s = get local_user s
