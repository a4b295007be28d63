-- ===== src/NodeServer/Verified.antt =====
-- streamHandler: whose requests run.
use activity_pub_gw.Base.{
  ◌≡◌, ◌≢◌, refl, ◌⊎◌, inl, inr, Bool-cases, true, false, [], ◌∷◌, take, Option, none, some,
}
use activity_pub_gw.Text.{Str, eqb}
use activity_pub_gw.NodeServer.{
  Answer, Message, Codec, Served, max_request_bytes, dropped, written, is_signed, answer_message,
  answer_read, stream_handler,
}

module _ (codec : Codec) (h : Str → Answer) (peer : Str) where
  -- A stream whose request is served: the envelope in its first bytes has a signature of the peer,
  -- and what is done and written is what the handler makes of the body.
  pub record IsVerified (bytes : Option Str) (served : Served) : Type 0 where
    pub raw : Str
    pub msg : Message
    pub read : bytes ≡ some raw
    pub decoded : codec.envelope (take max_request_bytes raw) ≡ some msg
    pub has_signature : msg.signature ≢ []
    pub signed : codec.verify peer msg.signing_bytes msg.signature ≡ true
    pub effects : served.0 ≡ (h msg.body).0
    pub answered : served.1 ≡ codec.marshal (h msg.body).1

not_empty : (s : Str) → eqb s [] ≡ false → s ≢ []
unfolding eqb
not_empty [] e = cc
not_empty (a ∷ s) e = λ empty. cc

module _ (codec : Codec) (h : Str → Answer) (peer : Str) where
  message_sound :
      (raw : Str) (o : Option Message)
      → codec.envelope (take max_request_bytes raw) ≡ o
      → (answer_message codec h (some peer) o ≡ ([], none))
        ⊎ IsVerified codec h peer (some raw) (answer_message codec h (some peer) o)
  unfolding answer_message dropped written is_signed
  message_sound raw none e = inl refl
  message_sound raw (some msg) e = elim (Bool-cases (eqb msg.signature [])) [
    | inl unsigned ↦ inl (rw unsigned refl)
    | inr named ↦ elim (Bool-cases (codec.verify peer msg.signing_bytes msg.signature)) [
      | inl signed ↦ inr (
          rw (named, signed)
            (record {
              raw = raw;
              msg = msg;
              read = refl;
              decoded = e;
              has_signature = not_empty msg.signature named;
              signed = signed;
              effects = refl;
              answered = refl;
            }))
      | inr forged ↦ inl (rw (named, forged) refl)
    ]
  ]

  -- Whatever a peer sends on a stream, the gateway does nothing and writes nothing, or the envelope
  -- it read bears a valid signature of that peer, and the gateway does and writes what the handler
  -- makes of the body.
  pub stream_handler-IsVerified :
      (bytes : Option Str)
      → (stream_handler codec h (some peer) bytes ≡ ([], none))
        ⊎ IsVerified codec h peer bytes (stream_handler codec h (some peer) bytes)
  unfolding stream_handler answer_read dropped
  stream_handler-IsVerified none = inl refl
  stream_handler-IsVerified (some raw) =
      message_sound raw (codec.envelope (take max_request_bytes raw)) refl
