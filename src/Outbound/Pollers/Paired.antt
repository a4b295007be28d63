-- ===== src/Outbound/Pollers/Paired.antt =====
-- A user has pollers exactly while it is federated.
use activity_pub_gw.Base.{
  ℕ, ◌+◌, leb, if_both, ◌≡◌, refl, false, List, [], ◌∷◌, Option, none, some, is_some, ◌||◌, arith,
}
use activity_pub_gw.Base.Assoc.{lookup, lookup-insert, lookup-erase}
use activity_pub_gw.Text.{Str, eqb, elem}
use activity_pub_gw.Text.Laws.{eqb_iff}
use activity_pub_gw.Wire.{Tweet}
use activity_pub_gw.TweetPoller.{SeenSet}
use activity_pub_gw.Outbound.{Federation, federating, start, count_of, empty_scans_to_stop}
use activity_pub_gw.Outbound.History.{followed, scanned, federating-stop}
use activity_pub_gw.Outbound.Pollers.{
  Pollers, Running, Event, changes, tweets_read, follows_read, new_pollers, start_pollers,
  scan_user_pollers, with_counts, stop_pollers, with_pollers, tweet_round, follow_round, on_tweets,
  on_follows, step_pollers,
}

started :
    (u v : Str) (f : Federation)
    → eqb v [] ≡ false
    → federating (start v f) u ≡ (eqb v u || federating f u)
unfolding federating start elem
started u v f named = grind (arith, eqb_iff v u)

module _ {S : Type 0} where
  -- The user with this name is federated exactly when it has pollers.
  unfoldable pub IsPaired : Str → Running S → Type 0
  IsPaired user r = federating r.federation user ≡ is_some (lookup user r.pollers)

  module _ (seen_set : SeenSet S) (resolve : Str → Option Str) where
    start-IsPaired :
        (user v : Str) (r : Running S)
        → IsPaired user r
        → IsPaired user (start_pollers seen_set resolve v r).0
    unfolding IsPaired start_pollers
    start-IsPaired user v r h = grind (
      arith,
      started user v r.federation,
      lookup-insert v user new_pollers r.pollers,
      eqb_iff v user,
      eqb_iff v [],
    )

    stop-IsPaired :
        (user v : Str) (r : Running S)
        → IsPaired user r
        → IsPaired user (stop_pollers seen_set resolve v r)
    unfolding IsPaired stop_pollers
    stop-IsPaired user v r h =
        grind (arith, federating-stop user v r.federation, lookup-erase v user r.pollers)

    with-IsPaired :
        (user v : Str) (p q : Pollers S) (r : Running S)
        → lookup v r.pollers ≡ some q
        → IsPaired user r
        → IsPaired user (with_pollers seen_set resolve v p r)
    unfolding IsPaired with_pollers
    with-IsPaired user v p q r known h =
        grind (arith, lookup-insert v user p r.pollers, eqb_iff v user)

    tweets-IsPaired :
        (user v : Str) (ts : List Tweet) (q p : Pollers S) (seen : Option S) (r : Running S)
        → lookup v r.pollers ≡ some q
        → IsPaired user r
        → IsPaired user (tweet_round seen_set resolve v ts seen p r).0
    unfolding tweet_round
    tweets-IsPaired user v ts q p none r known h = with-IsPaired user v _ q r known h
    tweets-IsPaired user v ts q p (some s) r known h = with-IsPaired user v _ q r known h

    on_tweets-IsPaired :
        (user v : Str) (ts : List Tweet) (o : Option (Pollers S)) (r : Running S)
        → lookup v r.pollers ≡ o
        → IsPaired user r
        → IsPaired user (on_tweets seen_set resolve v ts o r).0
    unfolding on_tweets
    on_tweets-IsPaired user v ts none r known h = h
    on_tweets-IsPaired user v ts (some p) r known h = tweets-IsPaired user v ts p p p.seen r known h

    on_follows-IsPaired :
        (user v : Str) (ids : Option (List Str)) (o : Option (Pollers S)) (r : Running S)
        → lookup v r.pollers ≡ o
        → IsPaired user r
        → IsPaired user (on_follows seen_set resolve v ids o r).0
    unfolding on_follows follow_round
    on_follows-IsPaired user v ids none r known h = h
    on_follows-IsPaired user v ids (some p) r known h = with-IsPaired user v _ p r known h

    counts-IsPaired :
        (user : Str) (m : List (Str × ℕ)) (r : Running S)
        → IsPaired user r
        → IsPaired user (with_counts seen_set resolve m r)
    unfolding IsPaired with_counts federating
    counts-IsPaired user m r h = h

    scan-IsPaired :
        (user v : Str) (read : Option (List Str)) (r : Running S)
        → IsPaired user r
        → IsPaired user (scan_user_pollers seen_set resolve v read r).0
    unfolding scan_user_pollers
    scan-IsPaired user v none r h = h
    scan-IsPaired user v (some (x ∷ xs)) r h = start-IsPaired user v _ (counts-IsPaired user _ r h)
    scan-IsPaired user v (some []) r h =
        if_both (IsPaired user)
          (leb empty_scans_to_stop (count_of (lookup v r.federation.empty_scans) + 1))
          (stop-IsPaired user v _ (counts-IsPaired user _ r h)) (counts-IsPaired user _ r h)

    pub step-IsPaired :
        (user : Str) (e : Event) (r : Running S)
        → IsPaired user r
        → IsPaired user (step_pollers seen_set resolve e r).0
    unfolding step_pollers
    step-IsPaired user (changes (followed v)) r h = start-IsPaired user v r h
    step-IsPaired user (changes (scanned v read)) r h = scan-IsPaired user v read r h
    step-IsPaired user (tweets_read v ts) r h = on_tweets-IsPaired user v ts _ r refl h
    step-IsPaired user (follows_read v ids) r h = on_follows-IsPaired user v ids _ r refl h
