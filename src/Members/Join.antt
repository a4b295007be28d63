-- ===== src/Members/Join.antt =====
-- warpwire.go, nodeclient.go: the entry nodes of a network, and how the gateway joins it.
pub mod Settles
use activity_pub_gw.Base.{
  ℕ, suc, Bool, true, false, List, [], ◌∷◌, ◌++◌, Option, none, some, if◌then◌else◌, ◌==◌,
}
use activity_pub_gw.Base.Result.{Result, ok, err}
use activity_pub_gw.Text.{Str, codes, eqb}
use activity_pub_gw.Parts.{Act, opens, closes, host, dht}
use activity_pub_gw.Members.{Peer, Client}

-- defaultWarpnetNetwork.
abbrev pub default_warpnet_network : Str
default_warpnet_network = codes "warpnet"

-- bootstrapByNetwork; a missing key gives nothing.
unfoldable pub bootstrap_by_network : Str → List Str
bootstrap_by_network network =
    if eqb network default_warpnet_network
    then codes
        "/ip4/207.154.221.44/tcp/4001/p2p/12D3KooWMKZFrp1BDKg9amtkv5zWnLhuUXN32nhqMvbtMdV2hz7j"
      ∷ codes
          "/ip4/207.154.221.44/tcp/4002/p2p/12D3KooWSjbYrsVoXzJcEtmgJLMVCbPXMzJmNN1JkEZB9LJ2rnmU"
      ∷ codes
          "/ip4/207.154.221.44/tcp/4003/p2p/12D3KooWNXSGyfTuYc3JznW48jay73BtQgHszWfPpyF581EWcpGJ"
      ∷ codes "/ip4/130.94.88.38/tcp/4011/p2p/12D3KooWNW7nbLpbsEVJ86JN6c1zXRDKGCbqmLfhitFCPccRv2YW"
      ∷ []
    else if eqb network (codes "testnet")
    then codes
        "/ip4/207.154.221.44/tcp/4011/p2p/12D3KooWMKZFrp1BDKg9amtkv5zWnLhuUXN32nhqMvbtMdV2hz7j"
      ∷ codes
          "/ip4/207.154.221.44/tcp/4022/p2p/12D3KooWSjbYrsVoXzJcEtmgJLMVCbPXMzJmNN1JkEZB9LJ2rnmU"
      ∷ codes
          "/ip4/207.154.221.44/tcp/4033/p2p/12D3KooWNXSGyfTuYc3JznW48jay73BtQgHszWfPpyF581EWcpGJ"
      ∷ []
    else []

-- A peer.AddrInfo.
pub record Entry : Type 0 where
  pub id : Peer
  pub addresses : List Str

-- The steps of connectNetwork that can fail before the host is there, then the host and its DHT.
pub data JoinError : Type 0 where
  no_entry_peers no_entry_reachable : JoinError
  no_identity no_key no_version no_psk no_resources no_host no_dht : JoinError

with_entry : Option Entry → List Entry → List Entry
with_entry none entries = entries
with_entry (some e) entries = e ∷ entries

-- The loop of networkEntries: an address that does not parse is passed over.
unfoldable pub parse_entries : (Str → Option Entry) → List Str → List Entry
unfolding with_entry
parse_entries parse [] = []
parse_entries parse (s ∷ ss) = with_entry (parse s) (parse_entries parse ss)

some_entries : List Entry → Result JoinError (List Entry)
some_entries [] = err no_entry_peers
some_entries (e ∷ es) = ok (e ∷ es)

-- networkEntries; `parse` is peer.AddrInfoFromString.
unfoldable pub network_entries : (Str → Option Entry) → Str → Result JoinError (List Entry)
unfolding some_entries
network_entries parse network = some_entries (parse_entries parse (bootstrap_by_network network))

-- What the node's packages give for the steps: the first error before the host is made, if any, the
-- id of the host (none if libp2p.New fails), whether the DHT is made, and which entries connect.
pub record Setup : Type 0 where
  pub parse : Str → Option Entry
  pub error : Option JoinError
  pub own : Option Peer
  pub makes_dht : Bool
  pub connects : Entry → Bool

-- The loop over the entries: how many of them connect.
unfoldable pub connected : (Entry → Bool) → List Entry → ℕ
connected connects [] = 0
connected connects (e ∷ es) =
    let rest = connected connects es in if connects e then suc rest else rest

-- The loop over the entries: the relays, each entry whether it connects or not.
unfoldable pub relays_of : List Entry → List Peer
relays_of [] = []
relays_of (e ∷ es) = e.id ∷ relays_of es

abbrev pub Joined : Type 0
Joined = List Act × Result JoinError Client

module _ (setup : Setup) where
  -- The end of connectNetwork, when the host and the DHT are there.
  join : Peer → List Entry → Joined
  join own entries =
      if connected setup.connects entries == 0
      then (opens host ∷ opens dht ∷ closes dht ∷ closes host ∷ [], err no_entry_reachable)
      else (
        opens host ∷ opens dht ∷ [],
        ok (record { own = own; relays = relays_of entries; good = []; owner = [] }),
      )

  on_host : Option Peer → List Entry → Joined
  on_host none entries = ([], err no_host)
  on_host (some own) entries =
      if setup.makes_dht then join own entries else (opens host ∷ closes host ∷ [], err no_dht)

  on_setup : Option JoinError → List Entry → Joined
  on_setup (some e) entries = ([], err e)
  on_setup none entries = on_host setup.own entries

  on_entries : Result JoinError (List Entry) → Joined
  on_entries (err e) = ([], err e)
  on_entries (ok entries) = on_setup setup.error entries

  -- connectNetwork, for the network of the environment.
  unfoldable pub connect_network : Str → Joined
  unfolding join on_host on_setup on_entries
  connect_network network = on_entries (network_entries setup.parse network)

-- close: the DHT, then the host.
unfoldable pub close_client : List Act
close_client = closes dht ∷ closes host ∷ []
