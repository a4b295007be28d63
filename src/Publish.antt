-- ===== src/Publish.antt =====
-- publish.go: the delivery of posts and profile changes to a user's followers.
pub mod Reaches
use activity_pub_gw.Base.{
  ℕ, suc, ◌+◌, ltb, is_some, List, [], ◌∷◌, ◌++◌, Option, none, some, if◌then◌else◌,
}
use activity_pub_gw.Text.{Str, codes}
use activity_pub_gw.Json.{Fields}
use activity_pub_gw.Wire.{Tweet}
use activity_pub_gw.Inbox.{Pool, max_inflight_deliveries}
use activity_pub_gw.Actor.{actor_id}
use activity_pub_gw.Notes.{CreateNote, build_create_note, as_public}
use activity_pub_gw.ActorDoc.{WarpnetUser, ActorDocument, build_actor}
use activity_pub_gw.Remote.{Gateway, Sent, Run, post_signed, remote_inbox, and_then}

-- The Update of a profile.
pub record UpdateActor : Type 0 where
  pub id : Str
  pub actor : Str
  pub object : ActorDocument
  pub to : List Str
  pub cc : List Str

-- What is delivered.
pub data Document : Type 0 where
  create : CreateNote → Document
  update : UpdateActor → Document

-- One delivery: the follower, the document, and what its goroutine did.
pub record Delivery : Type 0 where
  pub follower : Str
  pub document : Document
  pub run : Run (Unit {0})

-- The semaphore in deliverToFollowers: a place is taken as soon as one is free.
unfoldable pub take_place : Pool → Option Pool
take_place pool =
    if ltb pool.in_flight max_inflight_deliveries
    then some (record pool { in_flight = pool.in_flight + 1 })
    else none

module _ (g : Gateway) (answer : Sent → Option (ℕ × Str)) (unmarshal : Str → Option Fields) where
  -- The goroutine of deliverToFollowers for a follower.
  unfoldable pub deliver_to : Str → Run (Unit {0})
  deliver_to actor =
      and_then (remote_inbox g answer unmarshal actor) (post_signed g answer unmarshal)

  -- The loop of deliverToFollowers: the pool is that at the end of the wait for the n-th follower,
  -- which has a free place unless the context ended. The deliveries run side by side.
  unfoldable pub deliver_each : (ℕ → Pool) → ℕ → Document → List Str → List Delivery
  deliver_each pools n doc [] = []
  deliver_each pools n doc (actor ∷ actors) =
      let rest = deliver_each pools (suc n) doc actors in
      if is_some (take_place (pools n))
      then record { follower = actor; document = doc; run = deliver_to actor } ∷ rest
      else []

  -- deliverToFollowers, from the list of the store; none is its error.
  unfoldable pub deliver_to_followers : (ℕ → Pool) → Document → Option (List Str) → List Delivery
  deliver_to_followers pools doc none = []
  deliver_to_followers pools doc (some actors) = deliver_each pools 0 doc actors

  -- publishNote.
  unfoldable pub publish_note :
      (Str → Str) → (ℕ → Pool) → Str → Tweet → Option (List Str) → List Delivery
  publish_note escape pools user t followers =
      deliver_to_followers pools (create (build_create_note g.host escape user t)) followers

  -- The goroutine of federateTweetAsync.
  unfoldable pub federate_tweet_async :
      (Str → Str) → (ℕ → Pool) → Tweet → Option (List Str) → List Delivery
  federate_tweet_async escape pools t followers = publish_note escape pools t.user_id t followers

  -- The Update of sendActorUpdate.
  actor_update : Str → Str → (Str → Str) → Str → WarpnetUser → UpdateActor
  actor_update pem prefix escape user wu =
      let id = actor_id g.host user in
      record {
        id = id ++ (codes "#update-" ++ g.lib.token);
        actor = id;
        object = build_actor g.host pem prefix escape wu;
        to = as_public ∷ [];
        cc = (id ++ codes "/followers") ∷ [];
      }

  -- sendActorUpdate, from what the source knows of the user.
  unfoldable pub send_actor_update :
      Str
      → Str
      → (Str → Str)
      → (ℕ → Pool)
      → Str
      → Option WarpnetUser
      → Option (List Str)
      → List Delivery
  unfolding actor_update
  send_actor_update pem prefix escape pools user none followers = []
  send_actor_update pem prefix escape pools user (some wu) followers =
      deliver_to_followers pools (update (actor_update pem prefix escape user wu)) followers
