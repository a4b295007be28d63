-- ===== src/Bridge/Replies/Direct.antt =====
-- contextReplies: which replies of a context are given.
use activity_pub_gw.Base.{
  ℕ, zero, suc, ◌≡◌, refl, ap, true, List, [], ◌∷◌, ◌++◌, take, Option, none, some, ◌||◌,
}
use activity_pub_gw.Base.Result.{ok}
use activity_pub_gw.Text.{Str, codes, trim_prefix}
use activity_pub_gw.Json.{Json, Fields, null, bool, num, str, arr, obj, get, has_key, as_slice}
use activity_pub_gw.Url.{Lib}
use activity_pub_gw.Wire.{Tweet}
use activity_pub_gw.MastodonMap.{Reader}
use activity_pub_gw.Bridge.{Transport, content_type_json}
use activity_pub_gw.Bridge.Rest.{rest_status_ref}
use activity_pub_gw.Bridge.Items.{listed}
use activity_pub_gw.Bridge.Timeline.{Query}
use activity_pub_gw.Bridge.Replies.{
  max_replies, replies_page, add_reply, context_reply, context_loop, context_page, context_at,
  context_replies, context_or_collection, get_replies,
}

module _ (t : Transport) (lib : Lib) (reader : Reader) (query : Query) (now : ℕ) where
  -- The direct replies in a context, each as contextReplies makes it.
  unfoldable pub direct_replies : Str → Str → Str → List Json → List Tweet
  direct_replies host id url [] = []
  direct_replies host id url (obj s ∷ vs) =
      listed (context_reply t lib reader query now host id url s) (direct_replies host id url vs)
  direct_replies host id url (_ ∷ vs) = direct_replies host id url vs

  add_reply-take :
      (n : ℕ) (o : Option Tweet) (rest : ℕ → List Tweet) (all : List Tweet)
      → ((m : ℕ) → rest m ≡ take m all)
      → add_reply t lib reader query now n o rest ≡ take (suc n) (listed o all)
  unfolding add_reply listed
  add_reply-take n none rest all h = h (suc n)
  add_reply-take n (some tw) rest all h = ap (λ ts. tw ∷ ts) (h n)

  pub context_loop-take :
      (host id url : Str) (vs : List Json) (room : ℕ)
      → context_loop t lib reader query now host id url vs room
        ≡ take room (direct_replies host id url vs)
  unfolding context_loop direct_replies
  context_loop-take host id url [] zero = refl
  context_loop-take host id url [] (suc n) = refl
  context_loop-take host id url (v ∷ vs) zero = refl
  context_loop-take host id url (obj s ∷ vs) (suc n) =
      add_reply-take n (context_reply t lib reader query now host id url s) _
        (direct_replies host id url vs) (context_loop-take host id url vs)
  context_loop-take host id url (null ∷ vs) (suc n) = context_loop-take host id url vs (suc n)
  context_loop-take host id url (bool _ ∷ vs) (suc n) = context_loop-take host id url vs (suc n)
  context_loop-take host id url (num _ ∷ vs) (suc n) = context_loop-take host id url vs (suc n)
  context_loop-take host id url (str _ ∷ vs) (suc n) = context_loop-take host id url vs (suc n)
  context_loop-take host id url (arr _ ∷ vs) (suc n) = context_loop-take host id url vs (suc n)

  -- When the server of a status answers with its context, the replies are the first fifty that are
  -- made of its direct replies, in the order of the context.
  get_replies-direct_replies :
      (retweet_prefix url host id : Str) (m : Fields)
      → rest_status_ref lib (trim_prefix url retweet_prefix) ≡ some (host, id)
      → t.ap_get_json content_type_json
          (codes "https://" ++ (host ++ (codes "/api/v1/statuses/" ++ (id ++ codes "/context"))))
        ≡ ok m
      → (has_key m (codes "descendants") || has_key m (codes "ancestors")) ≡ true
      → get_replies t lib reader query now retweet_prefix url
        ≡ ok (
            replies_page (
              take max_replies (
                direct_replies host id
                  (trim_prefix url retweet_prefix)
                  (as_slice (get m (codes "descendants"))))))
  unfolding get_replies context_replies context_at context_page context_or_collection
  get_replies-direct_replies retweet_prefix url host id m e f h = rw e (
      rw f (
        rw h (
          rw
            (context_loop-take host id (trim_prefix url retweet_prefix)
              (as_slice (get m (codes "descendants"))) max_replies)
            refl)))
