-- ===== src/Outbound.antt =====
-- outbound.go: which users' posts are federated, from accepted follows and from scans of the
-- network; and the poller of a user's own follows.

pub mod Follows
pub mod History
pub mod Scans
pub mod Pollers
use activity_pub_gw.Base.{
  ℕ, zero, suc, ◌+◌, Bool, true, false, List, [], ◌∷◌, Option, none, some, leb, ◌==◌, ◌||◌,
  if◌then◌else◌,
}
use activity_pub_gw.Base.Assoc.{lookup, insert, erase}
use activity_pub_gw.Text.{Str, codes, eqb, elem}

-- emptyScansToStop.
abbrev pub empty_scans_to_stop : ℕ
empty_scans_to_stop = 2

-- federationScanMaxPages.
abbrev pub federation_scan_max_pages : ℕ
federation_scan_max_pages = 100

-- outboundFederation: the users whose pollers run, and the consecutive empty scans of a user.
pub record Federation : Type 0 where
  pub started : List Str
  pub empty_scans : List (Str × ℕ)

-- federating.
unfoldable pub federating : Federation → Str → Bool
federating f user = elem user f.started

-- start: what it adds to `started`; the pollers it runs are TweetPoller and Outbound/Follows.
unfoldable pub start : Str → Federation → Federation
start user f =
    if eqb user []
    then f
    else if elem user f.started
    then f
    else record f { started = user ∷ f.started }

-- delete(o.started, localUser).
unfoldable pub delete_user : Str → List Str → List Str
delete_user user [] = []
delete_user user (u ∷ us) = let rest = delete_user user us in if eqb u user then rest else u ∷ rest

-- stop.
unfoldable pub stop : Str → Federation → Federation
stop user f = record f { started = delete_user user f.started }

-- The entry of a map of numbers; a missing key reads as 0.
unfoldable pub count_of : Option ℕ → ℕ
count_of none = 0
count_of (some n) = n

-- The body of scan's loop for a Warpnet user, from what the read of its followers gave.
unfoldable pub scan_user : Str → Option (List Str) → Federation → Federation
scan_user user none f = f
scan_user user (some (u ∷ us)) f = start user (record f { empty_scans = erase user f.empty_scans })
scan_user user (some []) f =
    let n = count_of (lookup user f.empty_scans) + 1 in
    let f' = record f { empty_scans = insert user n f.empty_scans } in
    if leb empty_scans_to_stop n then stop user f' else f'

-- A listed user: its id, and whether its network is Mastodon.
pub record Listed : Type 0 where
  pub id : Str
  pub is_mastodon : Bool

-- usersResponse.
pub record UsersPage : Type 0 where
  pub users : List Listed
  pub cursor : Str

-- nodeFollowerStore.List, and the answers to the listing requests: by the number of the request
-- and its cursor, none for a failed request or a malformed answer.
module _ (list : Str → Option (List Str)) (ask : ℕ → Str → Option UsersPage) where
  unfoldable pub scan_users : List Listed → Federation → Federation
  scan_users [] f = f
  scan_users (u ∷ us) f = scan_users us (if u.is_mastodon then f else scan_user u.id (list u.id) f)

  scan_pages : ℕ → ℕ → Str → Federation → Federation
  scan_pages zero n cursor f = f
  scan_pages (suc pages) n cursor f = elim (ask n cursor) [
    | none ↦ f
    | some page ↦
        let f' = scan_users page.users f in
        let rest = scan_pages pages (suc n) page.cursor f' in
        elim page.users [
          | [] ↦ f'
          | _ ∷ _ ↦ if eqb page.cursor [] || eqb page.cursor cursor then f' else rest
        ]
  ]

  -- scan.
  unfoldable pub scan : Federation → Federation
  unfolding scan_pages
  scan f = scan_pages federation_scan_max_pages 0 [] f
