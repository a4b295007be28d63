-- ===== src/Start.antt =====
-- main.go: how the gateway starts and stops. The environment, the Tailscale node, the key file and
-- the node's packages are arguments.
pub mod Wired
use activity_pub_gw.Base.{
  ℕ, Bool, true, false, List, [], ◌∷◌, ◌++◌, Option, none, some, ◌==◌, if◌then◌else◌,
}
use activity_pub_gw.Base.Result.{Result, ok, err, ◌>>=◌}
use activity_pub_gw.Text.{Str, codes, eqb}
use activity_pub_gw.Parts.{Act, opens, closes, funnel, server, logs_server}
use activity_pub_gw.Keys.{Pki, File, Write, KeyError, load_or_create_key, public_key_pem}
use activity_pub_gw.Members.{Client}
use activity_pub_gw.Members.Join.{
  Setup, JoinError, Joined, default_warpnet_network, connect_network, close_client,
}

-- envOr, from the value of the variable.
unfoldable pub env_or : Str → Str → Str
env_or value default_value = if eqb value [] then default_value else value

-- strings.TrimSuffix with a suffix of one byte.
unfoldable pub trim_suffix : ℕ → Str → Str
trim_suffix c [] = []
trim_suffix c (a ∷ []) = if a == c then [] else a ∷ []
trim_suffix c (a ∷ b ∷ s) = a ∷ trim_suffix c (b ∷ s)

-- Where profiles come from, and where the followers are.
pub data Source : Type 0 where
  static_source node_source : Source

pub data Store : Type 0 where
  mem_store node_store : Store

-- The gateway that main builds: the fields that its start decides, whether the node's routes are
-- served, and whether posts are federated (onFollowed and the scanner).
pub record Wiring : Type 0 where
  pub host : Str
  pub key_pub_pem : Str
  pub source : Source
  pub followers : Store
  pub node : Option Client
  pub serves_routes : Bool
  pub federates : Bool
  pub logs_token : Str
  pub logs_addr : Str

-- The log.Fatal calls: of main itself, and of its goroutine that serves.
pub data Fatal : Type 0 where
  funnel_failed no_dns_name : Fatal
  key_failed : KeyError → Fatal
  listen_failed serve_failed : Fatal

-- How Serve ends: with http.ErrServerClosed, after Shutdown, or with another error.
pub data Served : Type 0 where
  server_closed broken : Served

-- What main finds: the environment, the DNS name of the Tailscale node (none if it does not come up,
-- empty if it has no name), the key file with the generator and the disk, the node's packages, whether ListenFunnel succeeds, and
-- how Serve ends.
pub record World (Key Pub : Type 0) : Type 0 where
  pub env : Str → Str
  pub dns_name : Option Str
  pub pki : Pki Key Pub
  pub key_file : File
  pub generated : Option Key
  pub write : Write
  pub setup : Setup
  pub listens : Bool
  pub served : Served

fatal_key : {A : Type 0} → Result KeyError A → Result Fatal A
fatal_key (ok a) = ok a
fatal_key (err e) = err (key_failed e)

-- The name of the Tailscale node.
name_of : Option Str → Result Fatal Str
name_of none = err funnel_failed
name_of (some name) = if eqb name [] then err no_dns_name else ok name

-- The PEM text of the public half of a key.
pem_of : {Key Pub : Type 0} → Pki Key Pub → Result KeyError Key → Result Fatal Str
pem_of pki (err e) = err (key_failed e)
pem_of pki (ok key) = fatal_key (public_key_pem pki key)

module _ {Key Pub : Type 0} (world : World Key Pub) where
  -- The Tailscale node, the key and its public half; the steps of main that end the process when
  -- they fail.
  unfoldable pub prepare : Result Fatal (Str × Str)
  unfolding name_of pem_of fatal_key
  prepare = do
    name ← name_of world.dns_name
    pem ←
        pem_of world.pki (load_or_create_key world.pki world.key_file world.generated world.write).0
    ok (trim_suffix b'.' name, pem)

  -- The wiring with a node, and without one.
  wiring : Str × Str → Result JoinError Client → Wiring
  wiring (host, pem) (ok client) = record {
    host = host;
    key_pub_pem = pem;
    source = node_source;
    followers = node_store;
    node = some client;
    serves_routes = true;
    federates = true;
    logs_token = world.env (codes "GATEWAY_LOGS_TOKEN");
    logs_addr = world.env (codes "GATEWAY_LOGS_ADDR");
  }
  wiring (host, pem) (err _) = record {
    host = host;
    key_pub_pem = pem;
    source = static_source;
    followers = mem_store;
    node = none;
    serves_routes = false;
    federates = false;
    logs_token = world.env (codes "GATEWAY_LOGS_TOKEN");
    logs_addr = world.env (codes "GATEWAY_LOGS_ADDR");
  }

  -- The servers that main starts.
  servers : Str → List Act
  servers logs_addr = opens server ∷ (if eqb logs_addr [] then [] else opens logs_server ∷ [])

  started : Str × Str → Joined → List Act × Result Fatal Wiring
  started prepared (acts, r) =
      let w = wiring prepared r in (opens funnel ∷ (acts ++ servers w.logs_addr), ok w)

  -- A fatal error ends the process, which closes nothing itself; the Tailscale node is open once it
  -- is up.
  fatal_acts : Option Str → List Act
  fatal_acts none = []
  fatal_acts (some name) = opens funnel ∷ []

  on_prepared : Result Fatal (Str × Str) → List Act × Result Fatal Wiring
  on_prepared (err e) = (fatal_acts world.dns_name, err e)
  on_prepared (ok prepared) = started prepared (
      connect_network world.setup
        (env_or (world.env (codes "NODE_NETWORK")) default_warpnet_network))

  -- main up to the wait for a signal: what it opens, and the gateway.
  unfoldable pub start : List Act × Result Fatal Wiring
  unfolding wiring servers started fatal_acts on_prepared
  start = on_prepared prepare

serve_end : Bool → Served → Option Fatal
serve_end false served = some listen_failed
serve_end true server_closed = none
serve_end true broken = some serve_failed

-- The goroutine that serves, once main has started it: the error that ends the process, or none after
-- Shutdown.
unfoldable pub serve_funnel : {Key Pub : Type 0} → World Key Pub → Option Fatal
unfolding serve_end
serve_funnel world = serve_end world.listens world.served

closed_node : Option Client → List Act
closed_node none = []
closed_node (some c) = close_client

-- The end of main.
unfoldable pub shut_down : Wiring → List Act
unfolding closed_node
shut_down w =
    closed_node w.node
    ++ (closes server
        ∷ ((if eqb w.logs_addr [] then [] else closes logs_server ∷ []) ++ (closes funnel ∷ [])))
