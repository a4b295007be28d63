-- ===== src/Start/Wired.antt =====
-- main: when the gateway starts, how it is wired, and what its end leaves open.
use activity_pub_gw.Base.{
  ◌≡◌, refl, ◌∙◌, ◌⊎◌, inl, inr, Bool, true, false, List, [], ◌∷◌, ◌++◌, Option, none, some,
  Bool-cases, ap, subst, sym, if◌then◌else◌,
}
use activity_pub_gw.Base.Result.{Result, ok, err, >>=-eq-ok, Result-cases}
use activity_pub_gw.Text.{Str, codes, eqb}
use activity_pub_gw.Parts.{
  Act, opens, Part, close_part, open_after, open_after-append, host, dht, funnel,
}
use activity_pub_gw.Keys.{Pki, KeyError, load_or_create_key, public_key_pem}
use activity_pub_gw.Members.{Client}
use activity_pub_gw.Members.Join.{
  JoinError, Joined, default_warpnet_network, connect_network, close_client,
}
use activity_pub_gw.Members.Join.Settles.{IsSettled, connect_network-IsSettled}
use activity_pub_gw.Start.{
  World, Wiring, Fatal, env_or, trim_suffix, prepare, wiring, servers, started, on_prepared, start,
  shut_down, closed_node, name_of, pem_of, no_dns_name, static_source, node_source, mem_store,
  node_store, fatal_key, fatal_acts,
}

ok_inj : {E A : Type 0} {a b : A} → ◌≡◌ {A = Result E A} (ok a) (ok b) → a ≡ b
ok_inj h = cc

clash : {E A : Type 0} {r : Result E A} {a : A} {e : E} → r ≡ ok a → r ≡ err e → ⊥
clash h e = cc

fatal_key-eq-ok : {A : Type 0} (r : Result KeyError A) (a : A) → fatal_key r ≡ ok a → r ≡ ok a
unfolding fatal_key
fatal_key-eq-ok (ok b) a h = cc
fatal_key-eq-ok (err e) a h = cc

named :
    (s name : Str) (b : Bool)
    → eqb s [] ≡ b
    → (if b then err no_dns_name else ok s) ≡ ok name
    → (some s ≡ some name) × (eqb name [] ≡ false)
named s name true e h = cc
named s name false e h = (ap some (ok_inj h), subst (λ t. eqb t [] ≡ false) (ok_inj h) e)

name_of_sound :
    (o : Option Str) (name : Str) → name_of o ≡ ok name → (o ≡ some name) × (eqb name [] ≡ false)
unfolding name_of
name_of_sound none name h = cc
name_of_sound (some s) name h = named s name (eqb s []) refl h

pem_of_sound :
    {Key Pub : Type 0} (pki : Pki Key Pub) (r : Result KeyError Key) (pem : Str)
    → pem_of pki r ≡ ok pem
    → (key : Key) × (r ≡ ok key) × (public_key_pem pki key ≡ ok pem)
unfolding pem_of
pem_of_sound pki (err e) pem h = cc
pem_of_sound pki (ok key) pem h = (key, refl, fatal_key-eq-ok (public_key_pem pki key) pem h)

module _ {Key Pub : Type 0} (world : World Key Pub) where
  -- What the start needs: the Tailscale node is up with a name, the key is in its file or is created,
  -- and its public half can be written.
  pub record IsReady (domain pem : Str) : Type 0 where
    pub name : Str
    pub up : world.dns_name ≡ some name
    pub named : eqb name [] ≡ false
    pub key : Key
    pub loaded :
        (load_or_create_key world.pki world.key_file world.generated world.write).0 ≡ ok key
    pub published : public_key_pem world.pki key ≡ ok pem
    pub is_host : domain ≡ trim_suffix b'.' name

  abbrev network : Str
  network = env_or (world.env (codes "NODE_NETWORK")) default_warpnet_network

  -- The result of joining the network of the environment.
  unfoldable pub joined : Joined
  joined = connect_network world.setup network

  -- With a node, profiles and followers come from the network, the node's routes are served and posts
  -- are federated; without one, none of it.
  unfoldable pub IsWired : Wiring → Result JoinError Client → Type 0
  IsWired w (ok c) =
      (w.node ≡ some c)
      × (w.source ≡ node_source)
      × (w.followers ≡ node_store)
      × (w.serves_routes ≡ true)
      × (w.federates ≡ true)
  IsWired w (err e) =
      (w.node ≡ none)
      × (w.source ≡ static_source)
      × (w.followers ≡ mem_store)
      × (w.serves_routes ≡ false)
      × (w.federates ≡ false)

  pub record Runs (acts : List Act) (w : Wiring) : Type 0 where
    pub ready : IsReady w.host w.key_pub_pem
    pub wired : IsWired w joined.1
    pub stops : open_after (acts ++ shut_down w) [] ≡ []

  ready :
      (name text : Str) {domain pem : Str}
      → name_of world.dns_name ≡ ok name
      → pem_of world.pki (load_or_create_key world.pki world.key_file world.generated world.write).0
        ≡ ok text
      → ◌≡◌ {A = Str × Str} (trim_suffix b'.' name, text) (domain, pem)
      → IsReady domain pem
  ready name text up published e =
      let (is_up, named) = name_of_sound world.dns_name name up in
      let (key, loaded, written) = pem_of_sound world.pki _ text published in
      record {
        name = name;
        up = is_up;
        named = named;
        key = key;
        loaded = loaded;
        published = written ∙ ap ok (ap (λ p. p.1) e);
        is_host = ap (λ p. p.0) (sym e);
      }

  prepare-IsReady : (domain pem : Str) → prepare world ≡ ok (domain, pem) → IsReady domain pem
  unfolding prepare
  prepare-IsReady domain pem h =
      let (name, up, rest) = >>=-eq-ok (name_of world.dns_name) _ h in
      let (text, published, e) = >>=-eq-ok _ _ rest in ready name text up published (ok_inj e)

  prepared_of : (domain pem : Str) → IsReady domain pem → prepare world ≡ ok (domain, pem)
  unfolding prepare name_of pem_of fatal_key
  prepared_of domain pem r = rw (r.up, r.named, r.loaded, r.published, r.is_host) refl

  closes_all :
      (w : Wiring) (acts : List Act) (left : List Part)
      → open_after acts (funnel ∷ []) ≡ left
      → open_after (shut_down w) (open_after (servers world w.logs_addr) left) ≡ []
      → open_after ((opens funnel ∷ (acts ++ servers world w.logs_addr)) ++ shut_down w) [] ≡ []
  unfolding open_after
  closes_all w acts left e closed =
      open_after-append (acts ++ servers world w.logs_addr) (shut_down w) (funnel ∷ [])
      ∙ ap (open_after (shut_down w)) (
          open_after-append acts (servers world w.logs_addr) (funnel ∷ [])
          ∙ ap (open_after (servers world w.logs_addr)) e)
      ∙ closed

  without_node :
      (pr : Str × Str) (e : JoinError)
      → open_after
          (shut_down (wiring world pr (err e)))
          (open_after (servers world (wiring world pr (err e)).logs_addr) (funnel ∷ []))
        ≡ []
  unfolding shut_down closed_node wiring servers open_after close_part
  without_node pr e = elim (Bool-cases (eqb (world.env (codes "GATEWAY_LOGS_ADDR")) [])) [
    | inl empty ↦ rw empty refl
    | inr given ↦ rw given refl
  ]

  with_node :
      (pr : Str × Str) (c : Client)
      → open_after
          (shut_down (wiring world pr (ok c)))
          (open_after (servers world (wiring world pr (ok c)).logs_addr) (dht ∷ host ∷ funnel ∷ []))
        ≡ []
  unfolding shut_down closed_node wiring servers open_after close_part close_client
  with_node pr c = elim (Bool-cases (eqb (world.env (codes "GATEWAY_LOGS_ADDR")) [])) [
    | inl empty ↦ rw empty refl
    | inr given ↦ rw given refl
  ]

  started-Runs :
      (pr : Str × Str) (j : Joined)
      → prepare world ≡ ok pr
      → joined ≡ j
      → IsSettled world.setup network (funnel ∷ []) j
      → Runs (started world pr j).0 (wiring world pr j.1)
  unfolding started wiring IsSettled IsWired
  started-Runs pr (acts, err e) h is_j settled = record {
    ready = prepare-IsReady pr.0 pr.1 h;
    wired = rw is_j (refl, refl, refl, refl, refl);
    stops = closes_all (wiring world pr (err e)) acts (funnel ∷ []) settled (without_node pr e);
  }
  started-Runs pr (acts, ok c) h is_j (settled, _) = record {
    ready = prepare-IsReady pr.0 pr.1 h;
    wired = rw is_j (refl, refl, refl, refl, refl);
    stops = closes_all (wiring world pr (ok c)) acts _ settled (with_node pr c);
  }

  left_open :
      (o : Option Str)
      → open_after (fatal_acts world o) [] ≡ (elim o [ none ↦ [] | some name ↦ funnel ∷ [] ])
  unfolding fatal_acts open_after
  left_open none = refl
  left_open (some name) = refl

  -- main up to its wait for a signal ends the process exactly when the Tailscale node does not come up
  -- with a name or the key cannot be had, and then only that node is open, if it came up at all;
  -- otherwise, whether or not Warpnet can be joined, the gateway is wired, for the node if there is
  -- one, and when its end is reached it closes all that was opened. The goroutine that serves is not
  -- part of this.
  pub start-Runs :
      ((w : Wiring) × ((start world).1 ≡ ok w) × Runs (start world).0 w)
      ⊎ ((f : Fatal) × ((start world).1 ≡ err f)
          × (open_after (start world).0 []
              ≡ (elim world.dns_name [ none ↦ [] | some name ↦ funnel ∷ [] ]))
          × ((domain pem : Str) → IsReady domain pem → ⊥))
  unfolding start on_prepared joined close_part
  start-Runs = elim (Result-cases (prepare world)) [
    | inl (pr, e) ↦
        let j = connect_network world.setup network in
        inl (
          wiring world pr j.1,
          rw e refl,
          rw e (
              started-Runs pr j e refl
                (connect_network-IsSettled world.setup network (funnel ∷ []) refl refl)),
        )
    | inr (f, e) ↦ inr (
      f,
      rw e refl,
      rw e (left_open world.dns_name),
      λ domain pem r. clash (prepared_of domain pem r) e,
    )
  ]
