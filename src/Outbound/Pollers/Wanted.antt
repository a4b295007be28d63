-- ===== src/Outbound/Pollers/Wanted.antt =====
-- The pollers against the history of follows and scans.
use activity_pub_gw.Base.{
  ◌+◌, leb, ap, sym, ◌∙◌, ◌≡◌, ◌≢◌, refl, false, List, [], ◌∷◌, Option, none, some, is_some, All,
  Bool-cases, inl, inr, arith,
}
use activity_pub_gw.Base.Assoc.{lookup}
use activity_pub_gw.Text.{Str, elem}
use activity_pub_gw.Wire.{Tweet}
use activity_pub_gw.TweetPoller.{SeenSet}
use activity_pub_gw.Outbound.{
  federating, start, stop, delete_user, scan_user, count_of, empty_scans_to_stop,
}
use activity_pub_gw.Outbound.History.{
  followed, scanned, after, is_wanted, federating-after, federating-stop,
}
use activity_pub_gw.Outbound.History as History
use activity_pub_gw.Outbound.Pollers.{
  Pollers, Running, Change, Event, changes, tweets_read, follows_read, new_outbound_federation,
  start_pollers, scan_user_pollers, with_counts, stop_pollers, with_pollers, tweet_round,
  follow_round, on_tweets, on_follows, step_pollers,
}
use activity_pub_gw.Outbound.Pollers.Paired.{IsPaired, step-IsPaired}
use activity_pub_gw.Outbound.Pollers.Own.{IsOwn, step-IsOwn}

delete_user_absent : (u : Str) (us : List Str) → elem u us ≡ false → delete_user u us ≡ us
unfolding delete_user elem
delete_user_absent u [] h = refl
delete_user_absent u (v ∷ us) h = ground (arith, delete_user_absent u us)

module _ {S : Type 0} where
  module _ (seen_set : SeenSet S) (resolve : Str → Option Str) where
    -- The federation changes as the history says, and a round of a poller leaves it alone.
    start-federation :
        (v : Str) (r : Running S)
        → (start_pollers seen_set resolve v r).0.federation ≡ start v r.federation
    unfolding start_pollers start federating
    start-federation v r = ground arith

    stop-federation :
        (v : Str) (r : Running S)
        → (stop_pollers seen_set resolve v r).federation ≡ stop v r.federation
    unfolding stop_pollers federating stop
    stop-federation v r = elim (Bool-cases (elem v r.federation.started)) [
      | inl there ↦ rw there refl
      | inr gone ↦ rw gone (
          ap (λ us. record { started = us; empty_scans = r.federation.empty_scans })
            (sym (delete_user_absent v r.federation.started gone)))
    ]

    scan-federation :
        (v : Str) (read : Option (List Str)) (r : Running S)
        → (scan_user_pollers seen_set resolve v read r).0.federation ≡ scan_user v read r.federation
    unfolding scan_user_pollers scan_user with_counts
    scan-federation v none r = refl
    scan-federation v (some (x ∷ xs)) r = start-federation v _
    scan-federation v (some []) r =
        elim (Bool-cases
          (leb empty_scans_to_stop (count_of (lookup v r.federation.empty_scans) + 1))) [
            | inl again ↦ rw again (stop-federation v _)
            | inr once ↦ rw once refl
          ]

    change-federation :
        (e : Change) (r : Running S)
        → (step_pollers seen_set resolve (changes e) r).0.federation ≡ History.step e r.federation
    unfolding step_pollers History.step
    change-federation (followed v) r = start-federation v r
    change-federation (scanned v read) r = scan-federation v read r

    round-federation :
        (v : Str) (ts : List Tweet) (seen : Option S) (p : Pollers S) (r : Running S)
        → (tweet_round seen_set resolve v ts seen p r).0.federation ≡ r.federation
    unfolding tweet_round with_pollers
    round-federation v ts none p r = refl
    round-federation v ts (some s) p r = refl

    tweets-federation :
        (v : Str) (ts : List Tweet) (o : Option (Pollers S)) (r : Running S)
        → (on_tweets seen_set resolve v ts o r).0.federation ≡ r.federation
    unfolding on_tweets
    tweets-federation v ts none r = refl
    tweets-federation v ts (some p) r = round-federation v ts p.seen p r

    follows-federation :
        (v : Str) (ids : Option (List Str)) (o : Option (Pollers S)) (r : Running S)
        → (on_follows seen_set resolve v ids o r).0.federation ≡ r.federation
    unfolding on_follows follow_round with_pollers
    follows-federation v ids none r = refl
    follows-federation v ids (some p) r = refl

    -- The states that follows, scans and rounds of pollers lead to, in any order, with the history of
    -- follows and scans, the latest first.
    pub data Reach : List Change → Running S → Type 0 where
      at_start : Reach [] new_outbound_federation
      changed :
          {h : List Change} {r : Running S}
          → Reach h r
          → (e : Change) → Reach (e ∷ h) (step_pollers seen_set resolve (changes e) r).0
      read_tweets :
          {h : List Change} {r : Running S}
          → Reach h r
          → (v : Str) (ts : List Tweet)
          → Reach h (step_pollers seen_set resolve (tweets_read v ts) r).0
      read_follows :
          {h : List Change} {r : Running S}
          → Reach h r
          → (v : Str) (ids : Option (List Str))
          → Reach h (step_pollers seen_set resolve (follows_read v ids) r).0

    Reach-after : {h : List Change} {r : Running S} → Reach h r → r.federation ≡ after h
    unfolding new_outbound_federation after step_pollers
    Reach-after at_start = refl
    Reach-after (changed {h} {r} reached e) =
        change-federation e r ∙ ap (History.step e) (Reach-after reached)
    Reach-after (read_tweets {h} {r} reached v ts) =
        tweets-federation v ts _ r ∙ Reach-after reached
    Reach-after (read_follows {h} {r} reached v ids) =
        follows-federation v ids _ r ∙ Reach-after reached

    Reach-IsPaired : {h : List Change} {r : Running S} → Reach h r → (user : Str) → IsPaired user r
    unfolding new_outbound_federation IsPaired federating elem lookup
    Reach-IsPaired at_start user = refl
    Reach-IsPaired (changed {h} {r} reached e) user =
        step-IsPaired seen_set resolve user (changes e) r (Reach-IsPaired reached user)
    Reach-IsPaired (read_tweets {h} {r} reached v ts) user =
        step-IsPaired seen_set resolve user (tweets_read v ts) r (Reach-IsPaired reached user)
    Reach-IsPaired (read_follows {h} {r} reached v ids) user =
        step-IsPaired seen_set resolve user (follows_read v ids) r (Reach-IsPaired reached user)

    -- However follows, scans of users and the rounds of pollers interleave, a user with a name that is
    -- not empty has pollers exactly when its own history of follows and scans asks for its federation,
    -- and every event sends for a user only what it may: an Update of the actor when its federation
    -- starts, and, while it is federated, follows and its own original top-level posts.
    pub Reach-IsOwn :
        {h : List Change} {r : Running S}
        → Reach h r
        → (user : Str) → user ≢ []
        → (e : Event)
        → (is_some (lookup user r.pollers) ≡ is_wanted user h)
          × All (IsOwn r) (step_pollers seen_set resolve e r).1
    unfolding IsPaired
    Reach-IsOwn {h} {r} reached user named e = (
      sym (Reach-IsPaired reached user)
          ∙ ap (λ f. federating f user) (Reach-after reached)
          ∙ federating-after user named h,
      step-IsOwn seen_set resolve e r (Reach-IsPaired reached),
    )
