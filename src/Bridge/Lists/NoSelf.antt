-- ===== src/Bridge/Lists/NoSelf.antt =====
-- dropSelfHandles, and the lists that the bridge gives.
use activity_pub_gw.Base.{
  ◌≡◌, subst, Bool-cases, false, inl, inr, List, [], ◌∷◌, All, Option, not, ◌&&◌, if_both,
  if◌then◌else◌,
}
use activity_pub_gw.Base.Result.{Result, ok, err, ◌>>=◌}
use activity_pub_gw.Text.{Str, codes, eqb}
use activity_pub_gw.Json.{Fields, get, as_string, as_slice}
use activity_pub_gw.Url.{Lib}
use activity_pub_gw.MastodonMap.{collect_handles}
use activity_pub_gw.Bridge.{BridgeError, Transport, content_type_ap, page_cursor}
use activity_pub_gw.Bridge.Lists.{
  is_empty, is_self_handle, drop_self_handles, listed_page, list_page, list_at, collection_list,
  actor_list, from_actor, follow_list,
}

module _ (t : Transport) (lib : Lib) where
  -- The lists without a handle of ours.
  abbrev Clean : List Str → Type 0
  Clean hs = All (λ h. is_self_handle t lib h ≡ false) hs

  abbrev IfList : Result BridgeError (List Str × Str) → Type 0
  IfList (err _) = Unit
  IfList (ok r) = Clean r.0

  then_list :
      {A : Type 0} (r : Result BridgeError A) (next : A → Result BridgeError (List Str × Str))
      → ((a : A) → IfList (next a))
      → IfList (r >>= next)
  then_list (err _) next h = tt
  then_list (ok a) next h = h a

  drop_self_handles-Clean : (hs : List Str) → Clean (drop_self_handles t lib hs)
  unfolding drop_self_handles
  drop_self_handles-Clean [] = tt
  drop_self_handles-Clean (h ∷ hs) =
      elim (Bool-cases (is_self_handle t lib h))
        as (λ _. Clean (
          if is_self_handle t lib h
          then drop_self_handles t lib hs
          else h ∷ drop_self_handles t lib hs)) [
            | inl own ↦ rw own (drop_self_handles-Clean hs)
            | inr foreign ↦ rw foreign (foreign, drop_self_handles-Clean hs)
          ]

  list_page-Clean : (r : Result BridgeError Fields) → Clean (list_page t lib r).0
  unfolding list_page listed_page
  list_page-Clean (err _) = tt
  list_page-Clean (ok page) = drop_self_handles-Clean (collect_handles lib page)

  collection_list-Clean : (r : Result BridgeError Fields) → Clean (collection_list t lib r).0
  unfolding collection_list listed_page list_at
  collection_list-Clean (err _) = tt
  collection_list-Clean (ok page) =
      if_both (λ (r : List Str × Str). Clean r.0)
        (not (eqb (as_string (get page (codes "first"))) [])
          && (is_empty (as_slice (get page (codes "orderedItems")))
              && is_empty (as_slice (get page (codes "items")))))
        (list_page-Clean (t.ap_get_json content_type_ap (as_string (get page (codes "first")))))
        (drop_self_handles-Clean (collect_handles lib page))

  actor_list-Clean : (url : Str) → Clean (actor_list t lib url).0
  unfolding actor_list
  actor_list-Clean url =
      if_both (λ (r : List Str × Str). Clean r.0) (eqb url []) tt
        (collection_list-Clean (t.ap_get_json content_type_ap url))

  answer-Clean :
      (handle : Str) (cursor : Option Str) (key : Str)
      → IfList (follow_list t lib handle cursor key)
  unfolding follow_list from_actor list_at
  answer-Clean handle cursor key =
      if_both IfList (eqb (page_cursor cursor) [])
        (then_list (t.resolve_actor_id handle) _
          (λ url. then_list (t.fetch_actor url) _ (λ actor. actor_list-Clean _)))
        (list_page-Clean (t.ap_get_json content_type_ap (page_cursor cursor)))

  -- No list of followers or followings, on the first page or behind a cursor, has a handle whose
  -- instance is this gateway's host.
  follow_list-All_foreign :
      (handle : Str) (cursor : Option Str) (key : Str) (handles : List Str) (next : Str)
      → follow_list t lib handle cursor key ≡ ok (handles, next)
      → All (λ h. is_self_handle t lib h ≡ false) handles
  follow_list-All_foreign handle cursor key handles next e =
      subst IfList e (answer-Clean handle cursor key)
