-- ===== src/RateLimit/Drain/Stuck.antt =====
-- rate-limit.go: resetGlobalIfStuck over a history of ticks.
use activity_pub_gw.Base.{
  ℕ, ◌+◌, ◌≤◌, ◌≡◌, refl, ◌⊎◌, inl, inr, Bool, true, false, List, [], ◌∷◌, Option, none, some,
  arith, leb→le,
}
use activity_pub_gw.RateLimit.Drain.{reset_global_if_stuck}

-- The ticks of the drain so far, the latest first: the time, and whether the limiter was locked.
abbrev pub History : Type 0
History = List (ℕ × Bool)

module _ (window : ℕ) where
  -- lockedSince after the ticks.
  unfoldable pub since_after : History → Option ℕ
  since_after [] = none
  since_after ((now, locked) ∷ h) = (reset_global_if_stuck window locked (since_after h) now).1

  -- The latest tick stored a fresh limiter.
  unfoldable pub replaces : History → Bool
  replaces [] = false
  replaces ((now, locked) ∷ h) = (reset_global_if_stuck window locked (since_after h) now).0

  -- The limiter was locked at every tick from a given time to the latest.
  abbrev pub LockedSince : ℕ → History → Type 0
  LockedSince t [] = ⊥
  LockedSince t ((now, locked) ∷ h) = (locked ≡ true) × ((now ≡ t) ⊎ LockedSince t h)

  -- The tick of a locked limiter, by the value of lockedSince before it.
  reset_since :
      (o : Option ℕ) (now t : ℕ)
      → (reset_global_if_stuck window true o now).1 ≡ some t
      → ((o ≡ none) × (now ≡ t)) ⊎ (o ≡ some t)
  unfolding reset_global_if_stuck
  reset_since none now t e = ground arith
  reset_since (some s) now t e = ground arith

  reset_replaces :
      (o : Option ℕ) (now : ℕ)
      → (reset_global_if_stuck window true o now).0 ≡ true
      → (s : ℕ) × (o ≡ some s) × (s + window ≤ now)
  unfolding reset_global_if_stuck
  reset_replaces none now e = cc
  reset_replaces (some s) now e = (s, refl, ground (arith, leb→le (s + window) now))

  pub since_locked : (h : History) (t : ℕ) → since_after h ≡ some t → LockedSince t h
  unfolding since_after reset_global_if_stuck
  since_locked [] t e = cc
  since_locked ((now, false) ∷ h) t e = cc
  since_locked ((now, true) ∷ h) t e = elim (reset_since (since_after h) now t e) [
    | inl (_, now_t) ↦ (refl, inl now_t)
    | inr old ↦ (refl, inr (since_locked h t old))
  ]

  -- A limiter is replaced only when it was locked at every tick over at least one window.
  replaces_sound :
      (now : ℕ) (locked : Bool) (h : History)
      → replaces ((now, locked) ∷ h) ≡ true
      → (t : ℕ) × LockedSince t h × (t + window ≤ now) × (locked ≡ true)
  unfolding replaces reset_global_if_stuck
  replaces_sound now false h e = cc
  replaces_sound now true h e =
      let (s, old, le) = reset_replaces (since_after h) now e in (s, since_locked h s old, le, refl)
