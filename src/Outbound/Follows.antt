-- ===== src/Outbound/Follows.antt =====
-- followPoller.poll (outbound.go): the Fediverse accounts a user follows, as activities.
pub mod Deliver
use activity_pub_gw.Base.{
  ℕ, Bool, true, false, List, [], ◌∷◌, ◌++◌, Option, none, some, not, if◌then◌else◌,
}
use activity_pub_gw.Text.{Str, elem}
use activity_pub_gw.Actor.{is_bridged_user_id}

-- What a poll fires: onFollow or onUnfollow, with the actor URL.
pub data Fired : Type 0 where
  on_follow on_unfollow : Str → Fired

-- current[actorURL] = true.
unfoldable pub mark : Str → List Str → List Str
mark url urls = if elem url urls then urls else urls ++ (url ∷ [])

-- The loops over a set that fire for the URLs that another set does not have.
unfoldable pub fire_missing : (Str → Fired) → List Str → List Str → List Fired
fire_missing on others [] = []
fire_missing on others (u ∷ us) =
    let rest = fire_missing on others us in if elem u others then rest else on u ∷ rest

-- The end of poll, from `known` and the current follows.
unfoldable pub reconcile : Option (List Str) → List Str → Option (List Str) × List Fired
reconcile none current = (some current, [])
reconcile (some (k ∷ ks)) [] = (some (k ∷ ks), [])
reconcile (some []) [] = (some [], [])
reconcile (some known) (c ∷ cs) = (
  some (c ∷ cs),
  fire_missing on_follow known (c ∷ cs) ++ fire_missing on_unfollow (c ∷ cs) known,
)

-- A resolved account is marked; one that does not resolve is passed over.
mark_resolved : Option Str → List Str → List Str
mark_resolved none urls = urls
mark_resolved (some url) urls = mark url urls

-- resolveActorID; none is its error.
module _ (resolve : Str → Option Str) where
  -- The loop over the followings.
  unfoldable pub current_follows : List Str → List Str → List Str
  unfolding mark_resolved
  current_follows [] acc = acc
  current_follows (id ∷ ids) acc =
      current_follows ids (if is_bridged_user_id id then mark_resolved (resolve id) acc else acc)

  -- poll, from the followings that the node answered; none stands for its three errors.
  unfoldable pub poll : Option (List Str) → Option (List Str) → Option (List Str) × List Fired
  poll known none = (known, [])
  poll known (some followings) = reconcile known (current_follows followings [])
