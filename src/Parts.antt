-- ===== src/Parts.antt =====
-- main.go, nodeclient.go: what the process opens while it starts, and closes when it stops or gives up.
use activity_pub_gw.Base.{Bool, true, false, List, [], ◌∷◌, ◌++◌, ◌≡◌, refl, if◌then◌else◌}

-- The Tailscale node, the libp2p host, its DHT, the public server and the listener of the logs.
pub data Part : Type 0 where
  funnel host dht server logs_server : Part

-- A part opened or closed.
pub data Act : Type 0 where
  opens closes : Part → Act

is_same : Part → Part → Bool
is_same funnel funnel = true
is_same host host = true
is_same dht dht = true
is_same server server = true
is_same logs_server logs_server = true
is_same _ _ = false

-- The parts other than one.
unfoldable pub close_part : Part → List Part → List Part
unfolding is_same
close_part p [] = []
close_part p (q ∷ qs) = let rest = close_part p qs in if is_same q p then rest else q ∷ rest

-- The parts that are open after some acts, the latest first.
unfoldable pub open_after : List Act → List Part → List Part
open_after [] ps = ps
open_after (opens p ∷ acts) ps = open_after acts (p ∷ ps)
open_after (closes p ∷ acts) ps = open_after acts (close_part p ps)

pub open_after-append :
    (first next : List Act) (ps : List Part)
    → open_after (first ++ next) ps ≡ open_after next (open_after first ps)
unfolding open_after
open_after-append [] next ps = refl
open_after-append (opens p ∷ acts) next ps = open_after-append acts next (p ∷ ps)
open_after-append (closes p ∷ acts) next ps = open_after-append acts next (close_part p ps)
