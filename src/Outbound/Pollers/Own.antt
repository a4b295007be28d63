-- ===== src/Outbound/Pollers/Own.antt =====
-- What is sent for a user is its own.
use activity_pub_gw.Base.{
  ℕ, ◌≡◌, ◌≢◌, true, false, List, [], ◌∷◌, Option, none, some, map, is_some, All, Bool-cases, inl,
  inr,
}
use activity_pub_gw.Text.{Str, eqb}
use activity_pub_gw.Wire.{Tweet}
use activity_pub_gw.TweetPoller.{SeenSet, publishable_tweet, poll_tweets}
use activity_pub_gw.Outbound.{federating}
use activity_pub_gw.Outbound.History.{followed, scanned}
use activity_pub_gw.Outbound.Follows.{Fired}
use activity_pub_gw.Outbound.Pollers.{
  Pollers, Running, Event, changes, tweets_read, follows_read, Effect, refreshes, publishes,
  delivers, start_pollers, scan_user_pollers, with_counts, tweet_round, follow_round, on_tweets,
  on_follows, step_pollers,
}
use activity_pub_gw.Outbound.Pollers.Paired.{IsPaired}

not_empty : (s : Str) → eqb s [] ≡ false → s ≢ []
unfolding eqb
not_empty [] e = cc
not_empty (a ∷ s) e = λ empty. cc

module _ {S : Type 0} where
  -- An effect of a step from a state: the actor is refreshed as its federation starts; posts and
  -- follows are sent for a federated user, and a post is an original top-level one of that user.
  unfoldable pub IsOwn : Running S → Effect → Type 0
  IsOwn r (refreshes user) = (federating r.federation user ≡ false) × (user ≢ [])
  IsOwn r (publishes user t) =
      (federating r.federation user ≡ true) × (publishable_tweet t user ≡ true)
  IsOwn r (delivers user f) = federating r.federation user ≡ true

  module _ (seen_set : SeenSet S) (resolve : Str → Option Str) where
    -- What polls publish is publishable.
    polled-publishable :
        (owner : Str) (s : S) (ts : List Tweet)
        → All (λ t. publishable_tweet t owner ≡ true) (poll_tweets seen_set owner s ts).1
    unfolding poll_tweets
    polled-publishable owner s [] = tt
    polled-publishable owner s (t ∷ ts) = elim (Bool-cases (seen_set.contains t.id s)) [
      | inl seen ↦ rw seen (polled-publishable owner (seen_set.add t.id s) ts)
      | inr new ↦ elim (Bool-cases (publishable_tweet t owner)) [
        | inl good ↦ rw (new, good) (good, polled-publishable owner (seen_set.add t.id s) ts)
        | inr skipped ↦ rw (new, skipped) (polled-publishable owner (seen_set.add t.id s) ts)
      ]
    ]

    All-map :
        {A : Type 0} (P : A → Type 0) (Q : Effect → Type 0) (f : A → Effect) (xs : List A)
        → ((a : A) → P a → Q (f a))
        → All P xs
        → All Q (map f xs)
    All-map P Q f [] h ps = tt
    All-map P Q f (x ∷ xs) h (p, ps) = (h x p, All-map P Q f xs h ps)

    any : (xs : List Fired) → All (λ _. Unit {0}) xs
    any [] = tt
    any (x ∷ xs) = (tt, any xs)

    tweets-IsOwn :
        (v : Str) (ts : List Tweet) (p : Pollers S) (seen : Option S) (r : Running S)
        → federating r.federation v ≡ true
        → All (IsOwn r) (tweet_round seen_set resolve v ts seen p r).1
    unfolding tweet_round IsOwn
    tweets-IsOwn v ts p none r on = tt
    tweets-IsOwn v ts p (some s) r on =
        All-map (λ t. publishable_tweet t v ≡ true) (IsOwn r) (publishes v) _ (λ t good. (on, good))
          (polled-publishable v s ts)

    on_tweets-IsOwn :
        (v : Str) (ts : List Tweet) (o : Option (Pollers S)) (r : Running S)
        → federating r.federation v ≡ is_some o
        → All (IsOwn r) (on_tweets seen_set resolve v ts o r).1
    unfolding on_tweets
    on_tweets-IsOwn v ts none r on = tt
    on_tweets-IsOwn v ts (some p) r on = tweets-IsOwn v ts p p.seen r on

    on_follows-IsOwn :
        (v : Str) (ids : Option (List Str)) (o : Option (Pollers S)) (r : Running S)
        → federating r.federation v ≡ is_some o
        → All (IsOwn r) (on_follows seen_set resolve v ids o r).1
    unfolding on_follows follow_round IsOwn
    on_follows-IsOwn v ids none r on = tt
    on_follows-IsOwn v ids (some p) r on =
        All-map (λ _. Unit {0}) (IsOwn r) (delivers v) _ (λ _ _. on) (any _)

    starts-IsOwn : (v : Str) (r : Running S) → All (IsOwn r) (start_pollers seen_set resolve v r).1
    unfolding start_pollers IsOwn
    starts-IsOwn v r = elim (Bool-cases (eqb v [])) [
      | inl unnamed ↦ rw unnamed tt
      | inr named ↦ elim (Bool-cases (federating r.federation v)) [
        | inl on ↦ rw (named, on) tt
        | inr off ↦ rw (named, off) ((off, not_empty v named), tt)
      ]
    ]

    counted_one :
        (r : Running S) (m : List (Str × ℕ)) (e : Effect)
        → IsOwn (with_counts seen_set resolve m r) e
        → IsOwn r e
    unfolding with_counts IsOwn federating
    counted_one r m (refreshes v) h = h
    counted_one r m (publishes v t) h = h
    counted_one r m (delivers v f) h = h

    counted-IsOwn :
        (r : Running S) (m : List (Str × ℕ)) (es : List Effect)
        → All (IsOwn (with_counts seen_set resolve m r)) es
        → All (IsOwn r) es
    counted-IsOwn r m [] h = tt
    counted-IsOwn r m (e ∷ es) (h, hs) = (counted_one r m e h, counted-IsOwn r m es hs)

    scan-IsOwn :
        (v : Str) (read : Option (List Str)) (r : Running S)
        → All (IsOwn r) (scan_user_pollers seen_set resolve v read r).1
    unfolding scan_user_pollers
    scan-IsOwn v none r = tt
    scan-IsOwn v (some []) r = tt
    scan-IsOwn v (some (x ∷ xs)) r = counted-IsOwn r _ _ (starts-IsOwn v _)

    pub step-IsOwn :
        (e : Event) (r : Running S)
        → ((v : Str) → IsPaired v r)
        → All (IsOwn r) (step_pollers seen_set resolve e r).1
    unfolding step_pollers IsPaired
    step-IsOwn (changes (followed v)) r h = starts-IsOwn v r
    step-IsOwn (changes (scanned v read)) r h = scan-IsOwn v read r
    step-IsOwn (tweets_read v ts) r h = on_tweets-IsOwn v ts _ r (h v)
    step-IsOwn (follows_read v ids) r h = on_follows-IsOwn v ids _ r (h v)
