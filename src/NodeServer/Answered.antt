-- ===== src/NodeServer/Answered.antt =====
-- A request of streamSend on a stream that streamHandler serves.
use activity_pub_gw.Base.{◌≤◌, ◌≡◌, refl, true, none, some, [], length, take_all, false}
use activity_pub_gw.Base.Result.{Result, ok}
use activity_pub_gw.Text.{Str, eqb}
use activity_pub_gw.NodeServer.{
  Answer, Codec, Served, max_request_bytes, written, is_signed, answer_message, answer_read,
  stream_handler,
}
use activity_pub_gw.Stream.{
  Envelope, Payload, Packages, Host, Stamp, SendError, body_of, envelope, sealed, stream_send,
}

-- What the packages of the two ends document: an envelope decodes to what was encoded if its body is
-- compact JSON, the signature of the host's key is valid for the host's id, and no signature is empty.
pub record IsWire {V : Type 0} (packages : Packages V) (host : Host) (codec : Codec)
    (IsCompact : Str → Type 0) : Type 0 where
  pub decodes :
      (e : Envelope) (signature bytes : Str)
      → IsCompact e.body
      → packages.marshal_envelope e signature ≡ some bytes
      → codec.envelope bytes
        ≡ some (record {
          body = e.body;
          signature = signature;
          signing_bytes = packages.signing_bytes e;
        })
  pub verifies : (bytes : Str) → codec.verify host.id bytes (packages.sign host.priv bytes) ≡ true
  pub signs : (bytes : Str) → eqb (packages.sign host.priv bytes) [] ≡ false

-- What the caller reads from the stream; a stream closed without an answer gives no bytes.
unfoldable pub read_back : Served → Result SendError Str
read_back (_, none) = ok []
read_back (_, some bytes) = ok bytes

module _ {V : Type 0} (packages : Packages V) (host : Host) (codec : Codec)
    (IsCompact : Str → Type 0) (laws : IsWire packages host codec IsCompact)
    (h : Str → Answer) where
  served-sealed :
      (e : Envelope) (bytes : Str)
      → IsCompact e.body
      → sealed packages host e ≡ some bytes
      → length bytes ≤ max_request_bytes
      → stream_handler codec h (some host.id) (some bytes) ≡ written codec h (h e.body)
  unfolding sealed stream_handler answer_read answer_message is_signed
  served-sealed e bytes compact is_sealed fits =
      rw
        (
          take_all max_request_bytes bytes fits,
          laws.decodes e (packages.sign host.priv (packages.signing_bytes e)) bytes compact
              is_sealed,
          laws.signs (packages.signing_bytes e),
          laws.verifies (packages.signing_bytes e),
        )
        refl

  -- A payload that is compact JSON and fits the limit of a request, sent on a stream that opens to a
  -- node that serves its streams as the gateway does, runs the route's handler on just that payload,
  -- and comes back with what the handler makes of it.
  pub stream_send-stream_handler :
      (stamp : Stamp) (route body bytes : Str) (payload : Payload V)
      → body_of packages host payload ≡ ok body
      → IsCompact body
      → sealed packages host (envelope packages host stamp route body) ≡ some bytes
      → length bytes ≤ max_request_bytes
      → (stream_handler codec h (some host.id) (some bytes)
          ≡ ((h body).0, codec.marshal (h body).1))
        × (stream_send packages host stamp true
              (λ sent. read_back (stream_handler codec h (some host.id) (some sent)))
              route
              payload
            ≡ read_back ((h body).0, codec.marshal (h body).1))
  unfolding stream_send envelope written
  stream_send-stream_handler stamp route body bytes payload is_body compact is_sealed fits =
      let served =
        served-sealed (envelope packages host stamp route body) bytes compact is_sealed fits in
      (served, rw (is_body, is_sealed, served) refl)
