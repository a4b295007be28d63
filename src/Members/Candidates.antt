-- ===== src/Members/Candidates.antt =====
-- The order and the bound of the candidates.
use activity_pub_gw.Base.{
  zero, suc, Bool-cases, inl, inr, ℕ, ◌≡◌, ◌≤◌, refl, ◌∙◌, ap, Bool, true, false, List, [], ◌∷◌,
  ◌++◌, some, take, length, length-take, ◌||◌, ◌&&◌, not, arith, get_elem?,
}
use activity_pub_gw.Text.{eqb, elem}
use activity_pub_gw.Text.Laws.{eqb_iff}
use activity_pub_gw.Members.{
  Peer, Client, without, remember, add_candidate, add_candidates, member_candidates,
  max_member_candidates,
}

-- A peer that may serve a request: it is named, and is neither this node nor a relay.
unfoldable pub is_member : Client → Peer → Bool
is_member c p = not (eqb p []) && (not (eqb p c.own) && not (elem p c.relays))

-- Every peer of the list may serve, and none is there twice.
unfoldable pub are_members : Client → List Peer → Bool
are_members c [] = true
are_members c (p ∷ ps) = is_member c p && (not (elem p ps) && are_members c ps)

elem-append : (p q : Peer) (ps : List Peer) → elem p (ps ++ (q ∷ [])) ≡ (elem p ps || eqb q p)
unfolding elem
elem-append p q [] = ground arith
elem-append p q (r ∷ ps) = ground (arith, elem-append p q ps)

are_members-append :
    (c : Client) (q : Peer) (ps : List Peer)
    → are_members c ps ≡ true
    → is_member c q ≡ true
    → elem q ps ≡ false
    → are_members c (ps ++ (q ∷ [])) ≡ true
unfolding are_members elem
are_members-append c q [] h hq new = ground arith
are_members-append c q (p ∷ ps) h hq new =
    grind (arith, are_members-append c q ps, elem-append p q ps, eqb_iff p q, eqb_iff q p)

elem-take : (p : Peer) (n : ℕ) (ps : List Peer) → elem p ps ≡ false → elem p (take n ps) ≡ false
unfolding elem
elem-take p zero ps h = refl
elem-take p (suc n) [] h = refl
elem-take p (suc n) (q ∷ ps) h = grind (arith, elem-take p n ps)

are_members-take :
    (c : Client) (n : ℕ) (ps : List Peer)
    → are_members c ps ≡ true
    → are_members c (take n ps) ≡ true
unfolding are_members
are_members-take c zero ps h = refl
are_members-take c (suc n) [] h = refl
are_members-take c (suc n) (p ∷ ps) h = grind (arith, are_members-take c n ps, elem-take p n ps)

are_members-add_candidate :
    (c : Client) (p : Peer) (out : List Peer)
    → are_members c out ≡ true
    → are_members c (add_candidate c p out) ≡ true
unfolding add_candidate is_member
are_members-add_candidate c p out h = grind (arith, are_members-append c p out h)

-- The first peer of a list stays the first one.
add_candidate-head :
    (c : Client) (p q : Peer) (out : List Peer)
    → (rest : List Peer) × (add_candidate c q (p ∷ out) ≡ p ∷ rest)
unfolding add_candidate
add_candidate-head c p q out = elim (Bool-cases (eqb q [] || eqb q c.own)) [
  | inl skipped ↦ (out, rw skipped refl)
  | inr named ↦ elim (Bool-cases (elem q c.relays)) [
    | inl relay ↦ (out, rw (named, relay) refl)
    | inr member ↦ elim (Bool-cases (elem q (p ∷ out))) [
      | inl there ↦ (out, rw (named, member, there) refl)
      | inr new ↦ (out ++ (q ∷ []), rw (named, member, new) refl)
    ]
  ]
]

add_candidates-head :
    (c : Client) (p : Peer) (ps out : List Peer)
    → (rest : List Peer) × (add_candidates c ps (p ∷ out) ≡ p ∷ rest)
unfolding add_candidates
add_candidates-head c p [] out = (out, refl)
add_candidates-head c p (q ∷ ps) out =
    let (out', e) = add_candidate-head c p q out in
    let (rest, e') = add_candidates-head c p ps out' in (rest, rw e e')

are_members-add :
    (c : Client) (ps out : List Peer)
    → are_members c out ≡ true
    → are_members c (add_candidates c ps out) ≡ true
unfolding add_candidates
are_members-add c [] out h = h
are_members-add c (p ∷ ps) out h =
    are_members-add c ps (add_candidate c p out) (are_members-add_candidate c p out h)

no_members : (c : Client) → are_members c [] ≡ true
unfolding are_members
no_members c = refl

-- The candidates of a request: each may serve, none is there twice, and there are at most 64.
pub member_candidates-are_members :
    (c : Client) (table : List Peer)
    → (are_members c (member_candidates c table) ≡ true)
      × (length (member_candidates c table) ≤ max_member_candidates)
unfolding member_candidates
member_candidates-are_members c table = (
  are_members-take c max_member_candidates _
      (are_members-add c table _ (are_members-add c c.good [] (no_members c))),
  omega (
    arith,
    length-take max_member_candidates (add_candidates c table (add_candidates c c.good [])),
  ),
)

add_first :
    (c : Client) (p : Peer) → is_member c p ≡ true → add_candidate (remember p c) p [] ≡ p ∷ []
unfolding add_candidate remember is_member elem
add_first c p h = ground arith

first_candidate :
    (c : Client) (p : Peer)
    → is_member c p ≡ true
    → (rest : List Peer) × (add_candidates (remember p c) (remember p c).good [] ≡ p ∷ rest)
unfolding add_candidates remember
first_candidate c p h =
    let (rest, e) = add_candidates-head (remember p c) p (take 63 (without p c.good)) [] in
    (rest, ap (add_candidates (remember p c) (take 63 (without p c.good))) (add_first c p h) ∙ e)

-- A named peer that answered, neither this node nor a relay, is the first candidate of the next
-- request.
member_candidates-remember :
    (c : Client) (p : Peer) (table : List Peer)
    → is_member c p ≡ true
    → get_elem? (member_candidates (remember p c) table) 0 ≡ some p
unfolding member_candidates
member_candidates-remember c p table h =
    let (first, e) = first_candidate c p h in
    let (all, e') = add_candidates-head (remember p c) p table first in rw (e, e') refl
