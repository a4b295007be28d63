-- ===== src/Members/Join/Settles.antt =====
-- connectNetwork: what is left open, and what the joined client knows of its entries.
use activity_pub_gw.Base.{
  ◌≡◌, ◌≢◌, refl, inl, inr, true, false, List, [], ◌∷◌, Option, none, some, All, Bool-cases,
  if_both, ◌==◌, arith,
}
use activity_pub_gw.Base.Result.{Result, ok, err}
use activity_pub_gw.Text.{Str, elem}
use activity_pub_gw.Text.Laws.{eqb_refl, eqb_sound}
use activity_pub_gw.Parts.{closes, Part, host, dht, close_part, open_after}
use activity_pub_gw.Members.{Peer, Client, member_candidates}
use activity_pub_gw.Members.Candidates.{is_member, are_members, member_candidates-are_members}
use activity_pub_gw.Members.Join.{
  Entry, JoinError, Setup, Joined, connected, relays_of, network_entries, join, on_host, on_setup,
  on_entries, connect_network,
}

member_of :
    (c : Client) (p : Peer) (ps : List Peer)
    → are_members c ps ≡ true
    → elem p ps ≡ true
    → is_member c p ≡ true
unfolding are_members elem
member_of c p [] h there = cc
member_of c p (q ∷ qs) h there = grind (arith, member_of c p qs, eqb_sound q p)

-- A relay is never a candidate.
candidates_without_relays :
    (c : Client) (p : Peer) (table : List Peer)
    → elem p c.relays ≡ true
    → elem p (member_candidates c table) ≡ false
unfolding is_member
candidates_without_relays c p table relay = elim (Bool-cases (elem p (member_candidates c table))) [
  | inr e ↦ e
  | inl there ↦
      grind (arith, member_of c p _ (member_candidates-are_members c table).0 there, relay)
]

All-map :
    {A : Type 0} (P Q : A → Type 0) (xs : List A) → ((x : A) → P x → Q x) → All P xs → All Q xs
All-map P Q [] f h = tt
All-map P Q (x ∷ xs) f (hx, hs) = (f x hx, All-map P Q xs f hs)

elem-cons : (p q : Peer) (ps : List Peer) → elem p ps ≡ true → elem p (q ∷ ps) ≡ true
unfolding elem
elem-cons p q ps h = ground arith

elem-head : (p : Peer) (ps : List Peer) → elem p (p ∷ ps) ≡ true
unfolding elem
elem-head p ps = rw (eqb_refl p) refl

elem-relays : (es : List Entry) → All (λ e. elem e.id (relays_of es) ≡ true) es
unfolding relays_of
elem-relays [] = tt
elem-relays (e ∷ es) = (
  elem-head e.id (relays_of es),
  All-map (λ d. elem d.id (relays_of es) ≡ true) (λ d. elem d.id (e.id ∷ relays_of es) ≡ true) es
      (λ d. elem-cons d.id e.id (relays_of es)) (elem-relays es),
)

module _ (setup : Setup) (network : Str) where
  -- A joined client: at least one of the network's entries connected, and whatever the client learns
  -- later, no entry is among the candidates that it tries for a request to any member.
  pub record IsJoined (c : Client) : Type 0 where
    pub entries : List Entry
    pub known : network_entries setup.parse network ≡ ok entries
    pub reached : connected setup.connects entries ≢ 0
    pub named : setup.own ≡ some c.own
    pub never_candidates :
        (good : List Peer) (owner : List (Str × Peer)) (table : List Peer)
        → All
            (λ e.
              elem e.id (member_candidates (record c { good = good; owner = owner }) table) ≡ false)
            entries

  -- What the end of a try to join leaves open: after an error what was open before, else also the host
  -- and its DHT, with a joined client.
  unfoldable pub IsSettled : List Part → Joined → Type 0
  IsSettled before (acts, err e) = open_after acts before ≡ before
  IsSettled before (acts, ok c) = (open_after acts before ≡ dht ∷ host ∷ before) × IsJoined c

module _ (setup : Setup) (network : Str) (before : List Part)
    (no_host : close_part host before ≡ before) (no_dht : close_part dht before ≡ before) where
  close_both : open_after (closes dht ∷ closes host ∷ []) (dht ∷ host ∷ before) ≡ before
  unfolding open_after close_part
  close_both = rw (no_dht, close_part) no_host

  close_host : open_after (closes host ∷ []) (host ∷ before) ≡ before
  unfolding open_after close_part
  close_host = no_host

  join-IsSettled :
      (own : Peer) (entries : List Entry)
      → setup.own ≡ some own
      → network_entries setup.parse network ≡ ok entries
      → IsSettled setup network before (join setup own entries)
  unfolding join IsSettled open_after
  join-IsSettled own entries named known =
      elim (Bool-cases (connected setup.connects entries == 0)) [
        | inl nobody ↦ rw nobody close_both
        | inr somebody ↦ rw somebody (
          refl,
          record {
            entries = entries;
            known = known;
            reached = ground arith;
            named = named;
            never_candidates = λ good owner table.
                All-map (λ e. elem e.id (relays_of entries) ≡ true) _ entries
                  (λ e.
                    candidates_without_relays
                      (record { own = own; relays = relays_of entries; good = good; owner = owner })
                      e.id table)
                  (elem-relays entries);
          },
        )
      ]

  host-IsSettled :
      (o : Option Peer) (entries : List Entry)
      → setup.own ≡ o
      → network_entries setup.parse network ≡ ok entries
      → IsSettled setup network before (on_host setup o entries)
  unfolding on_host IsSettled open_after
  host-IsSettled none entries e known = refl
  host-IsSettled (some own) entries e known =
      if_both (IsSettled setup network before) setup.makes_dht (join-IsSettled own entries e known)
        close_host

  setup-IsSettled :
      (o : Option JoinError) (entries : List Entry)
      → network_entries setup.parse network ≡ ok entries
      → IsSettled setup network before (on_setup setup o entries)
  unfolding on_setup IsSettled open_after
  setup-IsSettled (some e) entries known = refl
  setup-IsSettled none entries known = host-IsSettled setup.own entries refl known

  entries-IsSettled :
      (r : Result JoinError (List Entry))
      → network_entries setup.parse network ≡ r
      → IsSettled setup network before (on_entries setup r)
  unfolding on_entries IsSettled open_after
  entries-IsSettled (err e) known = refl
  entries-IsSettled (ok entries) known = setup-IsSettled setup.error entries known

  -- A try to join a network before which neither a host nor a DHT is open leaves open just what was
  -- when it fails, wherever it fails; when it succeeds, the host and its DHT are open, at least one
  -- entry of the network connected, and no entry is ever among the candidates that the client tries
  -- for a request to any member, whatever it remembers later. A request to the owner of a user goes to
  -- the node that the user's profile names, which is not looked at here.
  pub connect_network-IsSettled : IsSettled setup network before (connect_network setup network)
  unfolding connect_network
  connect_network-IsSettled = entries-IsSettled (network_entries setup.parse network) refl
