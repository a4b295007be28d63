-- ===== src/Outbound/Follows/Deliver.antt =====
-- What the polls last sent to each account.
use activity_pub_gw.Base.{Bool, true, false, List, [], ◌∷◌, ◌++◌, Option, if◌then◌else◌}
use activity_pub_gw.Text.{Str, eqb}
use activity_pub_gw.Outbound.Follows.{Fired, on_follow, on_unfollow, poll}

-- Whether the last activity for the account at a URL is a Follow, from whether one before them was.
unfoldable pub last_is_follow : Str → Bool → List Fired → Bool
last_is_follow url b [] = b
last_is_follow url b (on_follow u ∷ fs) = last_is_follow url (if eqb u url then true else b) fs
last_is_follow url b (on_unfollow u ∷ fs) = last_is_follow url (if eqb u url then false else b) fs

-- The polls of a run, the first one first.
unfoldable pub poll_all :
    (Str → Option Str)
    → Option (List Str)
    → List (Option (List Str))
    → Option (List Str) × List Fired
poll_all resolve known [] = (known, [])
poll_all resolve known (a ∷ answers) =
    let now = poll resolve known a in
    let rest = poll_all resolve now.0 answers in (rest.0, now.1 ++ rest.1)
