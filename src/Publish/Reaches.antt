-- ===== src/Publish/Reaches.antt =====
-- publishNote: whom a post is delivered to, and what the gateway sends for it.
use activity_pub_gw.Base.{ℕ, ◌≡◌, List, [], ◌∷◌, All, Option, some}
use activity_pub_gw.Base.Result.{ok}
use activity_pub_gw.Text.{Str}
use activity_pub_gw.Json.{Fields}
use activity_pub_gw.Remote.{Gateway, Sent, get_from, post_to, check_remote_url, inbox_of}
use activity_pub_gw.Remote.Guard.{IsAllowed}
use activity_pub_gw.Publish.{Document, Delivery}

-- The followers of some deliveries, in order.
unfoldable pub reached : List Delivery → List Str
reached [] = []
reached (d ∷ ds) = d.follower ∷ reached ds

module _ (g : Gateway) (answer : Sent → Option (ℕ × Str)) (unmarshal : Str → Option Fields) where
  -- An account that can be delivered to: its URL passes the guard and gives a document that names an
  -- inbox, whose URL passes the guard too.
  pub record IsReachable (actor inbox : Str) : Type 0 where
    pub allowed : check_remote_url g actor ≡ ok tt
    pub body : Str
    pub answered : answer (get_from actor) ≡ some (200, body)
    pub document : Fields
    pub decoded : unmarshal body ≡ some document
    pub named : inbox_of document ≡ ok inbox
    pub inbox_allowed : check_remote_url g inbox ≡ ok tt

  -- A delivery: it carries a document, the guard lets its requests through, and to an account that
  -- can be delivered to it fetches the actor and posts to its inbox, once, and does nothing else.
  pub record IsDelivered (doc : Document) (d : Delivery) : Type 0 where
    pub carries : d.document ≡ doc
    pub guarded : All (IsAllowed g) d.run.0
    pub posted :
        (inbox : Str)
        → IsReachable d.follower inbox
        → d.run.0 ≡ get_from d.follower ∷ post_to inbox ∷ []
