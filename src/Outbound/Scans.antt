-- ===== src/Outbound/Scans.antt =====
-- outbound.go: a whole scan of the network, page by page, in the history of follows and scans.
use activity_pub_gw.Base.{
  ℕ, zero, suc, ◌≡◌, ◌≢◌, refl, sym, ◌∙◌, ap, Bool, true, false, List, [], ◌∷◌, ◌++◌, Option, none,
  some, Bool-cases, Option-cases, inl, inr, ◌||◌, if◌then◌else◌,
}
use activity_pub_gw.Text.{Str, eqb}
use activity_pub_gw.Outbound.{
  Federation, federating, Listed, UsersPage, scan_users, scan_pages, scan,
  federation_scan_max_pages,
}
use activity_pub_gw.Outbound.History.{Event, scanned, step, after, is_wanted, federating-after}

module _ (list : Str → Option (List Str)) (ask : ℕ → Str → Option UsersPage) where
  -- The users listed on the pages, in order: up to a request that fails, an empty page, a page
  -- without a new cursor, or the given number of pages.
  unfoldable pub listed_users : ℕ → ℕ → Str → List Listed
  listed_users zero n cursor = []
  listed_users (suc pages) n cursor = elim (ask n cursor) [
    | none ↦ []
    | some page ↦
        let more = listed_users pages (suc n) page.cursor in
        page.users ++ (elim page.users [
          | [] ↦ []
          | _ ∷ _ ↦ if eqb page.cursor [] || eqb page.cursor cursor then [] else more
        ])
  ]

  -- A history, with a scan of each listed user that is no bridged account, the latest first.
  unfoldable pub with_scans : List Listed → List Event → List Event
  with_scans [] h = h
  with_scans (u ∷ us) h = with_scans us (if u.is_mastodon then h else scanned u.id (list u.id) ∷ h)

  with_scans-append :
      (us vs : List Listed) (h : List Event)
      → with_scans (us ++ vs) h ≡ with_scans vs (with_scans us h)
  unfolding with_scans
  with_scans-append [] vs h = refl
  with_scans-append (u ∷ us) vs h = with_scans-append us vs _

  users-after :
      (us : List Listed) (h : List Event)
      → scan_users list ask us (after h) ≡ after (with_scans us h)
  unfolding scan_users with_scans after step
  users-after [] h = refl
  users-after (u ∷ us) h = elim (Bool-cases u.is_mastodon) [
    | inl bridged ↦ rw bridged (users-after us h)
    | inr ours ↦ rw ours (users-after us (scanned u.id (list u.id) ∷ h))
  ]

  page-after :
      (us vs more : List Listed) (is_last : Bool) (h : List Event) (rest : Federation)
      → rest ≡ after (with_scans more (with_scans us h))
      → (elim vs [
        | [] ↦ scan_users list ask us (after h)
        | _ ∷ _ ↦ if is_last then scan_users list ask us (after h) else rest
      ])
        ≡ after (
            with_scans
              (elim vs [ [] ↦ [] | _ ∷ _ ↦ if is_last then [] else more ])
              (with_scans us h))
  unfolding with_scans
  page-after us [] more is_last h rest e = users-after us h
  page-after us (v ∷ vs) more true h rest e = users-after us h
  page-after us (v ∷ vs) more false h rest e = e

  pages-after :
      (pages n : ℕ) (cursor : Str) (h : List Event)
      → scan_pages list ask pages n cursor (after h)
        ≡ after (with_scans (listed_users pages n cursor) h)
  unfolding with_scans scan_pages listed_users
  pages-after zero n cursor h = refl
  pages-after (suc pages) n cursor h = elim (Option-cases (ask n cursor)) [
    | inl failed ↦ rw (failed, scan_pages, listed_users) refl
    | inr (page, e) ↦
        let more = listed_users pages (suc n) page.cursor in
        let is_last = eqb page.cursor [] || eqb page.cursor cursor in
        rw (e, scan_pages, listed_users)
          (page-after page.users page.users more is_last h
              (scan_pages list ask pages (suc n) page.cursor
                (scan_users list ask page.users (after h)))
              (ap (scan_pages list ask pages (suc n) page.cursor) (users-after page.users h)
                ∙ pages-after pages (suc n) page.cursor (with_scans page.users h))
            ∙ ap after (sym (with_scans-append page.users _ h)))
  ]

  -- After any history of follows and scans, a whole scan of the network federates a user with a name
  -- that is not empty exactly when the history with a scan of each Warpnet user on the pages asks for
  -- it: of at most a hundred pages, up to a request that fails, an empty page, or a page without a new
  -- cursor.
  pub scan-is_wanted :
      (h : List Event) (user : Str)
      → user ≢ []
      → federating (scan list ask (after h)) user
        ≡ is_wanted user (with_scans (listed_users federation_scan_max_pages 0 []) h)
  unfolding scan
  scan-is_wanted h user named =
      ap (λ f. federating f user) (pages-after federation_scan_max_pages 0 [] h)
      ∙ federating-after user named (with_scans (listed_users federation_scan_max_pages 0 []) h)
