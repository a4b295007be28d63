-- ===== src/RateLimit/Drain/Clients.antt =====
-- rate-limit.go: resetStuckClients against resetGlobalIfStuck.
use activity_pub_gw.Base.{
  subst, ℕ, ◌≡◌, refl, ◌∙◌, sym, ap, Bool, true, false, List, [], ◌∷◌, Option, none, some, arith,
  if◌then◌else◌, Bool-cases, Option-cases, inl, inr,
}
use activity_pub_gw.Base.Assoc.{lookup, lookup-insert, lookup-erase}
use activity_pub_gw.Text.{Str, eqb, elem}
use activity_pub_gw.Text.Laws.{eqb_iff, eqb_refl}
use activity_pub_gw.RateLimit.Drain.{
  Sweep, reset_global_if_stuck, sweep_client, sweep_clients, prune, reset_stuck_clients,
}

-- No client is listed twice.
abbrev pub Distinct : List (Str × Bool) → Type 0
Distinct [] = Unit
Distinct ((ip, _) ∷ cs) = (lookup ip cs ≡ none) × Distinct cs

-- A client that is not listed is not locked.
abbrev pub is_locked : Option Bool → Bool
is_locked none = false
is_locked (some b) = b

lookup-prune :
    (ip : Str) (present : List Str) (m : List (Str × ℕ))
    → lookup ip (prune present m) ≡ (if elem ip present then lookup ip m else none)
unfolding lookup prune
lookup-prune ip present [] = ground arith
lookup-prune ip present ((j, t) ∷ m) = ground (arith, eqb_iff j ip, lookup-prune ip present m)

module _ (ip j : Str) (b : Bool) (cs : List (Str × Bool)) where
  lookup-none : lookup ip ((j, b) ∷ cs) ≡ none → (eqb j ip ≡ false) × (lookup ip cs ≡ none)
  unfolding lookup
  lookup-none e = ground arith

  lookup_there :
      eqb j ip ≡ false → {o : Option Bool} → lookup ip ((j, b) ∷ cs) ≡ o → lookup ip cs ≡ o
  unfolding lookup
  lookup_there ne e = ground arith

  lookup_here :
      eqb j ip ≡ true → {locked : Bool} → lookup ip ((j, b) ∷ cs) ≡ some locked → b ≡ locked
  unfolding lookup
  lookup_here same e = ground arith

module _ (window now : ℕ) (ip : Str) where
  -- What a sweep holds of one client.
  record Seen (s : Sweep) (since : Option ℕ) (present replaced : Bool) : Type 0 where
    since_is : lookup ip s.since ≡ since
    present_is : elem ip s.present ≡ present
    replaced_is : elem ip s.replaced ≡ replaced

  sweep_other :
      (s : Sweep) (c : Str × Bool) {since : Option ℕ} {p r : Bool}
      → eqb c.0 ip ≡ false
      → Seen s since p r
      → Seen (sweep_client window now s c) since p r
  unfolding sweep_client elem
  sweep_other s (j, false) ne h = h
  sweep_other s (j, true) ne h =
      ground (arith, lookup-insert j ip now s.since, lookup-erase j ip s.since)

  sweep_same :
      (s : Sweep) (locked : Bool) (since : Option ℕ)
      → Seen s since false false
      → let (replaced, since') = reset_global_if_stuck window locked since now in
        Seen
          (sweep_client window now s (ip, locked))
          (if locked then since' else since)
          locked
          replaced
  unfolding sweep_client elem reset_global_if_stuck
  sweep_same s false since h = h
  sweep_same s true since h =
      ground (arith, eqb_refl ip, lookup-insert ip ip now s.since, lookup-erase ip ip s.since)

  sweep_absent :
      (s : Sweep) (cs : List (Str × Bool)) {since : Option ℕ} {p r : Bool}
      → lookup ip cs ≡ none
      → Seen s since p r
      → Seen (sweep_clients window now s cs) since p r
  unfolding sweep_clients
  sweep_absent s [] e h = h
  sweep_absent s ((j, b) ∷ cs) e h =
      let (ne, rest) = lookup-none ip j b cs e in
      sweep_absent (sweep_client window now s (j, b)) cs rest (sweep_other s (j, b) ne h)

  sweep_listed :
      (s : Sweep) (cs : List (Str × Bool)) (locked : Bool) (since : Option ℕ)
      → Distinct cs
      → lookup ip cs ≡ some locked
      → Seen s since false false
      → let (replaced, since') = reset_global_if_stuck window locked since now in
        Seen (sweep_clients window now s cs) (if locked then since' else since) locked replaced
  unfolding sweep_clients
  sweep_listed s [] locked since d e h = absurd (unfold lookup in cc e)
  sweep_listed s ((j, b) ∷ cs) locked since (new, d) e h = elim (Bool-cases (eqb j ip)) [
    | inl here ↦
        let same = (eqb_iff j ip).0 here in
        let found = lookup_here ip j b cs here e in
        let client : (ip, locked) ≡ (j, b) = λ i. (sym same i, sym found i) in
        let (replaced, since') = reset_global_if_stuck window locked since now in
        sweep_absent (sweep_client window now s (j, b)) cs
          (ap (λ (k : Str). lookup k cs) (sym same) ∙ new)
          (subst
            (λ c.
              Seen (sweep_client window now s c) (if locked then since' else since) locked replaced)
            client (sweep_same s locked since h))
    | inr there ↦
        sweep_listed (sweep_client window now s (j, b)) cs locked since d
          (lookup_there ip j b cs there e) (sweep_other s (j, b) there h)
  ]

  seen_result :
      (s : Sweep) {since : Option ℕ} {p r : Bool}
      → Seen s since p r
      → ◌≡◌ {A = Bool × Option ℕ}
          (elem ip s.replaced, lookup ip (prune s.present s.since))
          (r, if p then since else none)
  seen_result s h =
      let pruned = lookup-prune ip s.present s.since in
      ground (arith, pruned, h.since_is, h.present_is, h.replaced_is)

  unseen :
      (m : List (Str × ℕ))
      → Seen (record { since = m; present = []; replaced = [] }) (lookup ip m) false false
  unfolding elem
  unseen m = record { since_is = refl; present_is = refl; replaced_is = refl }

  locked_result :
      (locked : Bool) (since : Option ℕ)
      → let (replaced, since') = reset_global_if_stuck window locked since now in
        ◌≡◌ {A = Bool × Option ℕ}
          (replaced, if locked then (if locked then since' else since) else none)
          (reset_global_if_stuck window locked since now)
  unfolding reset_global_if_stuck
  locked_result true since = refl
  locked_result false since = refl

  -- In one tick, each client is treated exactly as the global limiter would be from its own
  -- lockedSince: the same clients get a fresh limiter, and the same times are kept; a client that is
  -- gone or has recovered is forgotten.
  pub reset_stuck_clients-eq :
      (since : List (Str × ℕ)) (clients : List (Str × Bool))
      → Distinct clients
      → let (since', replaced) = reset_stuck_clients window since now clients in
        ◌≡◌ {A = Bool × Option ℕ}
          (elem ip replaced, lookup ip since')
          (reset_global_if_stuck window (is_locked (lookup ip clients)) (lookup ip since) now)
  unfolding reset_stuck_clients reset_global_if_stuck lookup
  reset_stuck_clients-eq since clients d = elim (Option-cases (lookup ip clients)) [
    | inl gone ↦ rw gone (
        seen_result _ (sweep_absent _ clients gone (unseen since))
        ∙ locked_result false (lookup ip since))
    | inr (locked, there) ↦ rw there (
        seen_result _ (sweep_listed _ clients locked (lookup ip since) d there (unseen since))
        ∙ locked_result locked (lookup ip since))
  ]
