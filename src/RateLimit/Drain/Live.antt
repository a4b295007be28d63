-- ===== src/RateLimit/Drain/Live.antt =====
-- rate-limit.go: resetGlobalIfStuck over the ticks that are still to come.
use activity_pub_gw.Base.{
  ℕ, ◌+◌, ◌≤◌, ◌≡◌, refl, sym, ◌⊎◌, inl, inr, Bool, Bool-cases, true, false, List, [], ◌∷◌, Option,
  none, some, ◌||◌, arith, leb, Option-cases,
}
use activity_pub_gw.RateLimit.Drain.{reset_global_if_stuck}
use activity_pub_gw.RateLimit.Drain.Stuck.{
  History, since_after, replaces, LockedSince, since_locked,
}

-- A tick at a time is in a list of ticks.
abbrev pub Occurs : ℕ → List ℕ → Type 0
Occurs t [] = ⊥
Occurs t (u ∷ us) = (u ≡ t) ⊎ Occurs t us

above : (a b : ℕ) → leb a b ≡ false → b + 1 ≤ a
above a b h = ground arith

some_inj : {a b : ℕ} → some a ≡ some b → a ≡ b
some_inj e = cc

too_early : (s window t later : ℕ) → t + 1 ≤ s + window → t ≡ later → s + window ≤ later → ⊥
too_early s window t later early same le = omega arith

sooner : (s first window later : ℕ) → s ≤ first → first + window ≤ later → s + window ≤ later
sooner s first window later early le = omega arith

module _ (window : ℕ) where
  -- Some of the coming ticks, at all of which the limiter is locked, stores a fresh limiter.
  unfoldable pub any_replaces : History → List ℕ → Bool
  any_replaces h [] = false
  any_replaces h (t ∷ ts) =
      let later = any_replaces ((t, true) ∷ h) ts in replaces window ((t, true) ∷ h) || later

  -- A tick of a locked limiter, by the value of lockedSince before it.
  tick_replaces :
      (o : Option ℕ) (s now : ℕ)
      → o ≡ some s
      → ((reset_global_if_stuck window true o now).0 ≡ true)
        ⊎ (((reset_global_if_stuck window true o now).1 ≡ some s) × (now + 1 ≤ s + window))
  unfolding reset_global_if_stuck
  tick_replaces none s now e = cc
  tick_replaces (some r) s now e = elim (Bool-cases (leb (r + window) now)) [
    | inl due ↦ inl (rw due refl)
    | inr not_due ↦ inr (rw not_due e, rw (sym (some_inj e)) (above (r + window) now not_due))
  ]

  or_true : (a b : Bool) → (a ≡ true) ⊎ (b ≡ true) → (a || b) ≡ true
  or_true true b h = refl
  or_true false b (inl e) = cc
  or_true false b (inr e) = e

  waits :
      (h : History) (s : ℕ) (ticks : List ℕ) (later : ℕ)
      → since_after window h ≡ some s
      → Occurs later ticks
      → s + window ≤ later
      → any_replaces h ticks ≡ true
  unfolding any_replaces replaces since_after
  waits h s [] later e o le = absurd o
  waits h s (t ∷ ts) later e o le = elim (tick_replaces (since_after window h) s t e) [
    | inl now ↦ or_true _ _ (inl now)
    | inr (kept, early) ↦ elim o as (λ _. any_replaces h (t ∷ ts) ≡ true) [
      | inl same ↦ absurd (too_early s window t later early same le)
      | inr rest ↦ or_true _ _ (inr (waits ((t, true) ∷ h) s ts later kept rest le))
    ]
  ]

  first_since :
      (o : Option ℕ) (now : ℕ) → o ≡ none → (reset_global_if_stuck window true o now).1 ≡ some now
  unfolding reset_global_if_stuck
  first_since none now e = refl
  first_since (some s) now e = cc

  -- While the limiter stays locked, a fresh one is stored at the latest at the tick
  -- that comes a window after the first, when no earlier tick was at a later time.
  pub any_replaces-in_time :
      (h : History) (first : ℕ) (ticks : List ℕ) (later : ℕ)
      → ((s : ℕ) → LockedSince window s h → s ≤ first)
      → Occurs later ticks
      → first + window ≤ later
      → any_replaces h (first ∷ ticks) ≡ true
  unfolding any_replaces replaces since_after
  any_replaces-in_time h first ticks later clock o le = elim (Option-cases (since_after window h)) [
    | inl fresh ↦ or_true _ _ (
        inr (
          waits ((first, true) ∷ h) first ticks later
            (first_since (since_after window h) first fresh) o le))
    | inr (s, e) ↦ elim (tick_replaces (since_after window h) s first e) [
      | inl now ↦ or_true _ _ (inl now)
      | inr (kept, early) ↦ or_true _ _ (
          inr (
            waits ((first, true) ∷ h) s ticks later kept o
              (sooner s first window later (clock s (since_locked window h s e)) le)))
    ]
  ]
