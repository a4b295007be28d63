-- ===== src/Stream.antt =====
-- warpwire.go, discovery.go: a request to a node of the network, as a signed envelope on a stream of
-- the route's protocol. The node's packages (JSON, signatures, the peer store, the DHT) are arguments.
use activity_pub_gw.Base.{ℕ, Bool, List, [], ◌∷◌, Option, none, some}
use activity_pub_gw.Base.Assoc.{lookup, insert}
use activity_pub_gw.Base.Result.{Result, ok, guard, or_fail, ◌>>=◌, ◌>>◌}
use activity_pub_gw.Text.{Str, codes}

-- message without its signature, as it is signed.
pub record Envelope : Type 0 where
  pub body : Str
  pub message_id : Str
  pub node_id : Str
  pub destination : Str
  pub timestamp : ℕ
  pub version : Str

-- What is sent: nothing, bytes as they are, or a value.
pub data Payload (V : Type 0) : Type 0 where
  nil : Payload V
  raw : Str → Payload V
  value : V → Payload V

-- wjson.Marshal at a payload and at an envelope with its signature (none is its error),
-- message.SigningBytes and security.Sign.
pub record Packages (V : Type 0) : Type 0 where
  pub marshal : V → Option Str
  pub marshal_envelope : Envelope → Str → Option Str
  pub signing_bytes : Envelope → Str
  pub sign : Str → Str → Str

-- The host: its peer id and its private key.
pub record Host : Type 0 where
  pub id : Str
  pub priv : Str

pub data SendError : Type 0 where
  marshal_payload no_stream bad_envelope write_failed read_failed : SendError

-- What goes on the wire with a message: its id and its time.
pub record Stamp : Type 0 where
  pub message_id : Str
  pub timestamp : ℕ

module _ {V : Type 0} (packages : Packages V) (host : Host) where
  -- The body of the message.
  unfoldable pub body_of : Payload V → Result SendError Str
  body_of nil = ok []
  body_of (raw bytes) = ok bytes
  body_of (value v) = or_fail (packages.marshal v) marshal_payload

  unfoldable pub envelope : Stamp → Str → Str → Envelope
  envelope stamp route body = record {
    body = body;
    message_id = stamp.message_id;
    node_id = host.id;
    destination = route;
    timestamp = stamp.timestamp;
    version = codes "0.0.0";
  }

  -- The bytes of the signed envelope.
  unfoldable pub sealed : Envelope → Option Str
  sealed e = packages.marshal_envelope e (packages.sign host.priv (packages.signing_bytes e))

  -- streamSend, from whether the stream opens and what comes back for the bytes written on it.
  unfoldable pub stream_send :
      Stamp → Bool → (Str → Result SendError Str) → Str → Payload V → Result SendError Str
  stream_send stamp opens exchange route payload = do
    body ← body_of payload
    guard opens no_stream
    data_ ← or_fail (sealed (envelope stamp route body)) bad_envelope
    exchange data_

-- The addresses of the peer store.
abbrev pub Peerstore : Type 0
Peerstore = List (Str × List Str)

addresses : Option (List Str) → List Str
addresses none = []
addresses (some found_at) = found_at

found : Str → Option (List Str) → Peerstore → Peerstore
found p none store = store
found p (some found_at) store = insert p found_at store

ask_dht : Str → Option (Str → Option (List Str)) → Peerstore → Peerstore
ask_dht p none store = store
ask_dht p (some find) store = found p (find p) store

look_up : Str → Option (Str → Option (List Str)) → List Str → Peerstore → Peerstore
look_up p dht (a ∷ more) store = store
look_up p dht [] store = ask_dht p dht store

-- The first lines of streamToMember: the peer store after them, from dht.FindPeer (none without a
-- DHT).
unfoldable pub with_addresses : Str → Option (Str → Option (List Str)) → Peerstore → Peerstore
unfolding addresses found ask_dht look_up
with_addresses p dht store = look_up p dht (addresses (lookup p store)) store

-- streamToMember, from whether a stream opens to some addresses.
unfoldable pub stream_to_member :
    {V : Type 0}
    → Packages V
    → Host
    → Stamp
    → Option (Str → Option (List Str))
    → (List Str → Bool)
    → (Str → Result SendError Str)
    → Str
    → Str
    → Payload V
    → Peerstore
    → Result SendError Str × Peerstore
unfolding addresses
stream_to_member packages host stamp dht opens exchange p route payload store =
    let store' = with_addresses p dht store in
    (
      stream_send packages host stamp (opens (addresses (lookup p store'))) exchange route payload,
      store',
    )
