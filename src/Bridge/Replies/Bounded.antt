-- ===== src/Bridge/Replies/Bounded.antt =====
-- contextReplies, apReplies: how many replies there are.
use activity_pub_gw.Base.{
  ℕ, zero, suc, ◌-◌, ◌≤◌, ◌≡◌, refl, ap, subst, List, [], ◌∷◌, length, take, length-append,
  length-take, ltb, Option, none, some, ◌||◌, arith, if_both,
}
use activity_pub_gw.Base.Result.{Result, ok, err, ◌>>=◌}
use activity_pub_gw.Text.{Str, codes, eqb, trim_prefix}
use activity_pub_gw.Json.{Json, Fields, get, has_key, as_string, as_slice}
use activity_pub_gw.Url.{Lib}
use activity_pub_gw.Wire.{Tweet, TweetsPage}
use activity_pub_gw.MastodonMap.{Reader}
use activity_pub_gw.Bridge.{BridgeError, Transport, content_type_ap}
use activity_pub_gw.Bridge.Rest.{rest_status_ref}
use activity_pub_gw.Bridge.Items.{listed}
use activity_pub_gw.Bridge.Timeline.{Query}
use activity_pub_gw.Bridge.Replies.{
  max_replies, max_pages, replies_page, page_items, context_page, context_at, context_replies,
  item_note, note_reply, resolve_reply_items, current_page, page_replies, page_step, page_loop,
  collection_replies, note_replies, ap_replies, nativize_all, native_page, context_or_collection,
  get_replies,
}
use activity_pub_gw.Bridge.Replies.Direct.{direct_replies, context_loop-take}

abbrev Few : List Tweet → Type 0
Few ts = length ts ≤ max_replies

abbrev IfPage : Option TweetsPage → Type 0
IfPage none = Unit
IfPage (some page) = length page.tweets ≤ max_replies

abbrev IfAnswer : Result BridgeError TweetsPage → Type 0
IfAnswer (err _) = Unit
IfAnswer (ok page) = length page.tweets ≤ max_replies

length-listed : (o : Option Tweet) (ts : List Tweet) → length (listed o ts) ≤ suc (length ts)
unfolding listed
length-listed none ts = omega arith
length-listed (some t) ts = omega arith

module _ (t : Transport) (lib : Lib) (reader : Reader) (query : Query) (now : ℕ) where
  context_page-bounded :
      (host id url : Str) (r : Result BridgeError Fields)
      → IfPage (context_page t lib reader query now host id url r)
  unfolding context_page replies_page
  context_page-bounded host id url (err _) = tt
  context_page-bounded host id url (ok m) =
      if_both IfPage (has_key m (codes "descendants") || has_key m (codes "ancestors"))
        (rw
          (context_loop-take t lib reader query now host id url
            (as_slice (get m (codes "descendants"))) max_replies)
          (omega (
            arith,
            length-take max_replies (
                direct_replies t lib reader query now host id url
                  (as_slice (get m (codes "descendants")))),
          )))
        tt

  context_at-bounded :
      (url : Str) (o : Option (Str × Str)) → IfPage (context_at t lib reader query now url o)
  unfolding context_at
  context_at-bounded url none = tt
  context_at-bounded url (some (host, id)) = context_page-bounded host id url _

  length-resolve_reply_items :
      (vs : List Json) → length (resolve_reply_items t lib reader query now vs) ≤ length vs
  unfolding resolve_reply_items
  length-resolve_reply_items [] = omega arith
  length-resolve_reply_items (v ∷ vs) = omega (
    arith,
    length-resolve_reply_items vs,
    length-listed (note_reply t lib reader query now (item_note t lib reader query now v))
        (resolve_reply_items t lib reader query now vs),
  )

  page_replies-bounded :
      (page : Fields) (ts : List Tweet)
      → length ts ≤ max_replies
      → length (page_replies t lib reader query now page ts) ≤ max_replies
  unfolding page_replies
  page_replies-bounded page ts h =
      let items =
        page_items (as_slice (get page (codes "items")))
          (as_slice (get page (codes "orderedItems"))) in
      omega (
        arith,
        length-append ts
            (resolve_reply_items t lib reader query now (take (max_replies - length ts) items)),
        length-resolve_reply_items (take (max_replies - length ts) items),
        length-take (max_replies - length ts) items,
      )

  page_step-bounded :
      (o : Option Fields) (ts : List Tweet) (later : Str → List Tweet → List Tweet)
      → length ts ≤ max_replies
      → ((url : Str) (us : List Tweet)
          → length us ≤ max_replies
          → length (later url us) ≤ max_replies)
      → length (page_step t lib reader query now o ts later) ≤ max_replies
  unfolding page_step
  page_step-bounded none ts later h next = h
  page_step-bounded (some page) ts later h next = next _ _ (page_replies-bounded page ts h)

  page_loop-bounded :
      (n : ℕ) (page : Option Fields) (url : Str) (ts : List Tweet)
      → length ts ≤ max_replies
      → length (page_loop t lib reader query now n page url ts) ≤ max_replies
  unfolding page_loop
  page_loop-bounded zero page url ts h = h
  page_loop-bounded (suc n) page url ts h =
      if_both Few (ltb (length ts) max_replies)
        (page_step-bounded (current_page t lib reader query now page url) ts _ h
          (page_loop-bounded n none))
        h

  collection_replies-bounded :
      (r : Result BridgeError Fields)
      → length (collection_replies t lib reader query now r) ≤ max_replies
  unfolding collection_replies
  collection_replies-bounded (err _) = omega arith
  collection_replies-bounded (ok coll) = page_loop-bounded max_pages _ _ [] (omega arith)

  note_replies-bounded :
      (url : Str) → length (note_replies t lib reader query now url) ≤ max_replies
  unfolding note_replies
  note_replies-bounded url =
      if_both Few (eqb url []) (omega arith)
        (collection_replies-bounded (t.ap_get_json content_type_ap url))

  length-nativize_all :
      (ts : List Tweet) → length (nativize_all t lib reader query now ts) ≡ length ts
  unfolding nativize_all
  length-nativize_all [] = refl
  length-nativize_all (tw ∷ ts) = ap suc (length-nativize_all ts)

  walked-bounded :
      (url : Str) (r : Result BridgeError Fields)
      → IfAnswer (
          (r >>= λ m. ok (
            replies_page
              (note_replies t lib reader query now (as_string (get m (codes "replies"))))))
          >>= λ page. ok (native_page t lib reader query now page))
  unfolding native_page replies_page
  walked-bounded url (err _) = tt
  walked-bounded url (ok m) =
      rw
        (length-nativize_all
          (note_replies t lib reader query now (as_string (get m (codes "replies")))))
        (note_replies-bounded (as_string (get m (codes "replies"))))

  context_or_collection-bounded :
      (url : Str) (o : Option TweetsPage)
      → IfPage o
      → IfAnswer (context_or_collection t lib reader query now url o)
  unfolding context_or_collection ap_replies
  context_or_collection-bounded url none h = walked-bounded url (t.ap_get_json content_type_ap url)
  context_or_collection-bounded url (some page) h = h

  answer-bounded :
      (retweet_prefix url : Str) → IfAnswer (get_replies t lib reader query now retweet_prefix url)
  unfolding get_replies context_replies
  answer-bounded retweet_prefix url =
      let status = trim_prefix url retweet_prefix in
      context_or_collection-bounded status
        (context_at t lib reader query now status (rest_status_ref lib status))
        (context_at-bounded status (rest_status_ref lib status))

  -- Whatever the servers answer, a request for replies gives at most fifty tweets, from the context
  -- of a Mastodon server as from the pages of a replies collection.
  pub length-get_replies :
      (retweet_prefix url : Str) (page : TweetsPage)
      → get_replies t lib reader query now retweet_prefix url ≡ ok page
      → length page.tweets ≤ max_replies
  length-get_replies retweet_prefix url page e =
      subst IfAnswer e (answer-bounded retweet_prefix url)
