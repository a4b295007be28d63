-- ===== src/Tests/Outbound.antt =====
-- Followers, follows and tweets of a user.
use activity_pub_gw.Base.{◌≡◌, ◌≢◌, ℕ, true, false, List, [], ◌∷◌, Option, none, some}
use activity_pub_gw.Text.{Str, codes}
use activity_pub_gw.Outbound.{federating, UsersPage, scan, federation_scan_max_pages}
use activity_pub_gw.Outbound.Scans.{listed_users, with_scans, scan-is_wanted}
use activity_pub_gw.Outbound.History.{Event, followed, scanned, after, is_wanted, federating-after}
use activity_pub_gw.Tests.Fixtures.{alice, bob_url}

abbrev events : List Event
events =
    scanned alice (some [])
    ∷ scanned (codes "carol") (some (bob_url ∷ []))
    ∷ scanned alice (some [])
    ∷ followed alice
    ∷ []

alice_named : alice ≢ []
alice_named e = cc

federating-after_example : federating (after events) alice ≡ is_wanted alice events
federating-after_example = federating-after alice alice_named events

-- One page of users: alice, and a bridged account.
abbrev listing : ℕ → Str → Option UsersPage
listing n cursor = some (record {
  users =
      record { id = alice; is_mastodon = false }
      ∷ record { id = codes "bob@m.org"; is_mastodon = true }
      ∷ [];
  cursor = [];
})

abbrev no_followers : Str → Option (List Str)
no_followers user = some []

scan-is_wanted_example :
    federating (scan no_followers listing (after events)) alice
    ≡ is_wanted alice (
        with_scans no_followers listing
          (listed_users no_followers listing federation_scan_max_pages 0 [])
          events)
scan-is_wanted_example = scan-is_wanted no_followers listing events alice alice_named

abbrev resolve : Str → Option Str
resolve _ = some bob_url

abbrev answers : List (Option (List Str))
answers = some (codes "bob@m.org" ∷ []) ∷ none ∷ some [] ∷ []
