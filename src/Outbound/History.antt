-- ===== src/Outbound/History.antt =====
-- Federation of one user, read off the history of follows and scans of all of them.
use activity_pub_gw.Base.{
  ℕ, suc, ◌+◌, ◌≡◌, refl, ◌≢◌, Bool, false, List, [], ◌∷◌, Option, none, some, leb, ◌||◌, arith,
  if◌then◌else◌,
}
use activity_pub_gw.Base.Assoc.{lookup, insert, erase, lookup-insert, lookup-erase}
use activity_pub_gw.Text.{Str, eqb, elem}
use activity_pub_gw.Text.Laws.{eqb_iff}
use activity_pub_gw.Outbound.{
  Federation, federating, start, stop, delete_user, count_of, scan_user, empty_scans_to_stop,
}

-- What happens to the federation: an accepted inbound Follow starts a user, a scan reads one.
pub data Event : Type 0 where
  followed : Str → Event
  scanned : Str → Option (List Str) → Event

unfoldable pub step : Event → Federation → Federation
step (followed user) f = start user f
step (scanned user read) f = scan_user user read f

-- The federation after a history, the latest event first.
unfoldable pub after : List Event → Federation
after [] = record { started = []; empty_scans = [] }
after (e ∷ h) = step e (after h)

module _ (user : Str) where
  -- How many times in a row the user's followers have read as empty; a failed read does not count.
  unfoldable pub empty_reads : List Event → ℕ
  empty_reads [] = 0
  empty_reads (followed v ∷ h) = empty_reads h
  empty_reads (scanned v none ∷ h) = empty_reads h
  empty_reads (scanned v (some (_ ∷ _)) ∷ h) = if eqb v user then 0 else empty_reads h
  empty_reads (scanned v (some []) ∷ h) = if eqb v user then suc (empty_reads h) else empty_reads h

  -- Whether the user is to be federated.
  unfoldable pub is_wanted : List Event → Bool
  is_wanted [] = false
  is_wanted (followed v ∷ h) = eqb v user || is_wanted h
  is_wanted (scanned v none ∷ h) = is_wanted h
  is_wanted (scanned v (some (_ ∷ _)) ∷ h) = eqb v user || is_wanted h
  is_wanted (scanned v (some []) ∷ h) =
      if eqb v user
      then (if leb empty_scans_to_stop (suc (empty_reads h)) then false else is_wanted h)
      else is_wanted h

elem-delete_user :
    (u v : Str) (us : List Str) → elem u (delete_user v us) ≡ (if eqb v u then false else elem u us)
unfolding elem delete_user
elem-delete_user u v [] = ground arith
elem-delete_user u v (w ∷ us) =
    ground (arith, elem-delete_user u v us, eqb_iff w v, eqb_iff w u, eqb_iff v u)

federating-start :
    (u v : Str) (f : Federation) → (u ≢ []) → federating (start v f) u ≡ (eqb v u || federating f u)
unfolding federating start elem
federating-start u v f ne = grind (arith, eqb_iff v [], eqb_iff v u)

pub federating-stop :
    (u v : Str) (f : Federation)
    → federating (stop v f) u ≡ (if eqb v u then false else federating f u)
unfolding federating stop
federating-stop u v f = elem-delete_user u v f.started

start_counts : (v : Str) (f : Federation) → (start v f).empty_scans ≡ f.empty_scans
unfolding start
start_counts v f = ground arith

scan_counts :
    (v : Str) (f : Federation)
    → (scan_user v (some []) f).empty_scans
      ≡ insert v (count_of (lookup v f.empty_scans) + 1) f.empty_scans
unfolding scan_user stop
scan_counts v f = ground arith

federating-scan :
    (u v : Str) (f : Federation)
    → federating (scan_user v (some []) f) u ≡ (
        if eqb v u
        then (if leb empty_scans_to_stop (suc (count_of (lookup u f.empty_scans)))
            then false
            else federating f u)
        else federating f u)
unfolding scan_user federating stop
federating-scan u v f = grind (arith, eqb_iff v u, elem-delete_user u v f.started)

count-insert :
    (u v : Str) (m : List (Str × ℕ))
    → count_of (lookup u (insert v (count_of (lookup v m) + 1) m))
      ≡ (if eqb v u then suc (count_of (lookup u m)) else count_of (lookup u m))
unfolding count_of
count-insert u v m = grind (arith, eqb_iff v u, lookup-insert v u (count_of (lookup v m) + 1) m)

count-erase :
    (u v : Str) (m : List (Str × ℕ))
    → count_of (lookup u (erase v m)) ≡ (if eqb v u then 0 else count_of (lookup u m))
unfolding count_of
count-erase u v m = grind (arith, lookup-erase v u m)

scan_failed : (v : Str) (f : Federation) → scan_user v none f ≡ f
unfolding scan_user
scan_failed v f = refl

count_nobody : (user : Str) → count_of (lookup user []) ≡ 0
unfolding count_of lookup
count_nobody user = refl

federating_nobody : (user : Str) → federating (after []) user ≡ false
unfolding federating after elem
federating_nobody user = refl

module _ (user v x : Str) (xs : List Str) (f : Federation) where
  count-read :
      count_of (lookup user (scan_user v (some (x ∷ xs)) f).empty_scans)
      ≡ (if eqb v user then 0 else count_of (lookup user f.empty_scans))
  unfolding scan_user
  count-read =
      rw (start_counts v (record f { empty_scans = erase v f.empty_scans }))
        (count-erase user v f.empty_scans)

  federating-read :
      user ≢ []
      → federating (scan_user v (some (x ∷ xs)) f) user ≡ (eqb v user || federating f user)
  unfolding scan_user federating
  federating-read ne = federating-start user v (record f { empty_scans = erase v f.empty_scans }) ne

-- The counts of the scanner are the empty reads of the history.
count_lem :
    (user : Str) (h : List Event)
    → count_of (lookup user (after h).empty_scans) ≡ empty_reads user h
unfolding after empty_reads step
count_lem user [] = count_nobody user
count_lem user (followed v ∷ h) = rw (start_counts v (after h)) (count_lem user h)
count_lem user (scanned v none ∷ h) = rw (scan_failed v (after h)) (count_lem user h)
count_lem user (scanned v (some (x ∷ xs)) ∷ h) =
    rw (count-read user v x xs (after h), count_lem user h)
count_lem user (scanned v (some []) ∷ h) =
    rw (scan_counts v (after h), count-insert user v (after h).empty_scans, count_lem user h)

-- Whatever the interleaving of follows and scans of all users, a user with a name that is not empty
-- is federated exactly when its own history asks for it.
pub federating-after :
    (user : Str) → user ≢ [] → (h : List Event) → federating (after h) user ≡ is_wanted user h
unfolding after is_wanted step
federating-after user ne [] = federating_nobody user
federating-after user ne (followed v ∷ h) =
    rw (federating-start user v (after h) ne, federating-after user ne h)
federating-after user ne (scanned v none ∷ h) =
    rw (scan_failed v (after h)) (federating-after user ne h)
federating-after user ne (scanned v (some (x ∷ xs)) ∷ h) =
    rw (federating-read user v x xs (after h) ne, federating-after user ne h)
federating-after user ne (scanned v (some []) ∷ h) =
    rw (federating-scan user v (after h), count_lem user h, federating-after user ne h)
