-- ===== src/Followers/Memory.antt =====
-- memFollowerStore.Add over a history of calls.
use activity_pub_gw.Base.{
  ℕ, ◌≡◌, ◌+◌, refl, Bool, true, false, List, [], ◌∷◌, ◌++◌, ◌&&◌, ◌||◌, ◌==◌, arith, if◌then◌else◌,
}
use activity_pub_gw.Text.{Str, eqb, elem}
use activity_pub_gw.Text.Laws.{eqb_iff}
use activity_pub_gw.Followers.{mem_add}

-- What the cache documents while nothing is evicted: it holds at most memFollowerSize users, for
-- at most memFollowerTTL.
pub record IsCache {S : Type 0} (get : Str → S → List Str) (put : Str → List Str → S → S)
    (empty : S) : Type 0 where
  pub get-empty : (user : Str) → get user empty ≡ []
  pub get-put :
      (user u : Str) (urls : List Str) (s : S)
      → get user (put u urls s) ≡ (if eqb u user then urls else get user s)

unfoldable pub times : Str → List Str → ℕ
times a [] = 0
times a (b ∷ bs) = (if eqb b a then 1 else 0) + times a bs

module _ {S : Type 0} (get : Str → S → List Str) (put : Str → List Str → S → S) where
  -- The calls of Add, the latest first.
  unfoldable pub mem_add_all : S → List (Str × Str) → S
  mem_add_all s [] = s
  mem_add_all s ((u, a) ∷ adds) = mem_add get put u a (mem_add_all s adds)

-- The actor was added for the user.
unfoldable pub was_added : Str → Str → List (Str × Str) → Bool
was_added user actor [] = false
was_added user actor ((u, a) ∷ adds) = (eqb u user && eqb a actor) || was_added user actor adds

nobody : (a : Str) → times a [] ≡ 0
unfolding times
nobody a = refl

once :
    (b c : Bool)
    → ◌≡◌ {A = ℕ}
        (if b
          then (if (if c then 1 else 0) == 0 then 1 else if c then 1 else 0)
          else if c
          then 1
          else 0)
        (if b || c then 1 else 0)
once true true = refl
once true false = refl
once false true = refl
once false false = refl

times-append :
    (a b : Str) (bs : List Str) → times a (bs ++ (b ∷ [])) ≡ times a bs + (if eqb b a then 1 else 0)
unfolding times
times-append a b [] = ground arith
times-append a b (c ∷ bs) = ground (arith, times-append a b bs)

elem-times : (a : Str) (bs : List Str) → elem a bs ≡ (if times a bs == 0 then false else true)
unfolding times elem
elem-times a [] = refl
elem-times a (c ∷ bs) = ground (arith, elem-times a bs)

module _ {S : Type 0} (get : Str → S → List Str) (put : Str → List Str → S → S) (empty : S)
    (laws : IsCache get put empty) where
  times-mem_add :
      (user actor u a : Str) (s : S)
      → times actor (get user (mem_add get put u a s)) ≡ (
          if eqb u user && eqb a actor
          then (if times actor (get user s) == 0 then 1 else times actor (get user s))
          else times actor (get user s))
  unfolding mem_add
  times-mem_add user actor u a s = grind (
    arith,
    laws.get-put user u (get u s ++ (a ∷ [])) s,
    eqb_iff u user,
    eqb_iff a actor,
    elem-times a (get u s),
    times-append actor a (get u s),
  )

  -- In a cache that evicts nothing, after any calls of Add, in any order and repeated, an actor is once in the user's list when it
  -- was added for the user, and not at all otherwise.
  pub times-mem_add_all :
      (user actor : Str) (adds : List (Str × Str))
      → times actor (get user (mem_add_all get put empty adds))
        ≡ (if was_added user actor adds then 1 else 0)
  unfolding mem_add_all was_added
  times-mem_add_all user actor [] = rw (laws.get-empty user) (nobody actor)
  times-mem_add_all user actor ((u, a) ∷ adds) =
      rw
        (
          times-mem_add user actor u a (mem_add_all get put empty adds),
          times-mem_add_all user actor adds,
        )
        (once (eqb u user && eqb a actor) (was_added user actor adds))
