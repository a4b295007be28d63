-- ===== src/NodeServer.antt =====
-- nodeserver.go: the answers that the gateway gives to Warpnet nodes, and the streams that they ask
-- on.
pub mod Routes
pub mod Verified
pub mod Answered
use activity_pub_gw.Base.{ℕ, Bool, true, false, List, [], take, Option, none, some, if◌then◌else◌}
use activity_pub_gw.Base.Result.{Result, err}
use activity_pub_gw.Text.{Str, eqb}
use activity_pub_gw.Wire.{Tweet, User, TweetsPage}
use activity_pub_gw.Bridge.{BridgeError}
use activity_pub_gw.Bridge.Lists.{Handles}
use activity_pub_gw.Bridge.Stats.{TweetStats}
use activity_pub_gw.Bridge.Write.{Effect}

-- maxRequestBytes.
abbrev pub max_request_bytes : ℕ
max_request_bytes = 1048576

-- event.ReactionsCountResponse.
pub record ReactionsCount : Type 0 where
  pub count : ℕ
  pub reactions : List (Str × ℕ)

-- warpnet.NodeInfo, with the fields that the gateway decides; it is always a member node without a
-- relay of its own that is privately reachable, and its version is 0.0.0.
pub record NodeInfo : Type 0 where
  pub owner_id : Str
  pub id : Str
  pub addresses : List Str
  pub network : Str

-- infoHandler, on the host's id and addresses and the network of the environment.
unfoldable pub info_handler : Str → Str → List Str → Str → NodeInfo
info_handler owner_handle id addresses network = record {
  owner_id = owner_handle;
  id = id;
  addresses = addresses;
  network = network;
}

-- The answers of the handlers.
pub data Response : Type 0 where
  done : Response
  node_info : NodeInfo → Response
  user_of : User → Response
  users_of : List User → Response
  tweet_of : Tweet → Response
  tweets_of : TweetsPage → Response
  stats_of : TweetStats → Response
  followers_of followings_of : Handles → Response
  image_of : Str → Response
  views_of : ℕ → Response
  reactions_of : ReactionsCount → Response

-- The error of a handler: of the bridge, of a reaction that is no emoji, or of a body that does not
-- decode.
pub data HandlerError : Type 0 where
  bridge_error : BridgeError → HandlerError
  bad_reaction bad_body : HandlerError

-- The effects of a handler, and its answer.
abbrev pub Answer : Type 0
Answer = List Effect × Result HandlerError Response

-- wrapJSON: an empty body is the zero event.
wrapped : {E : Type 0} → (E → Answer) → Option E → Answer
wrapped h none = ([], err bad_body)
wrapped h (some ev) = h ev

unfoldable pub wrap_json : {E : Type 0} → E → (Str → Option E) → (E → Answer) → Str → Answer
unfolding wrapped
wrap_json zero_event unmarshal h body =
    if eqb body [] then h zero_event else wrapped h (unmarshal body)

-- message: the signed envelope of a request.
pub record Message : Type 0 where
  pub body : Str
  pub signature : Str
  pub signing_bytes : Str

-- What a stream's handler takes of the node's packages: the decoder of envelopes, the check of a
-- peer's signature, and the encoder of answers (none is its error).
pub record Codec : Type 0 where
  pub envelope : Str → Option Message
  pub verify : Str → Str → Str → Bool
  pub marshal : Result HandlerError Response → Option Str

-- The effects of a stream's handler, and what it writes; none when it closes the stream without an
-- answer.
abbrev pub Served : Type 0
Served = List Effect × Option Str

dropped : Served
dropped = ([], none)

module _ (codec : Codec) (h : Str → Answer) where
  written : Answer → Served
  written (effects, r) = (effects, codec.marshal r)

  -- The peer of the connection, if there is one, has signed the envelope.
  unfoldable pub is_signed : Option Str → Message → Bool
  is_signed none msg = true
  is_signed (some peer) msg = codec.verify peer msg.signing_bytes msg.signature

  answer_message : Option Str → Option Message → Served
  answer_message conn none = dropped
  answer_message conn (some msg) =
      if eqb msg.signature []
      then dropped
      else if is_signed conn msg
      then written (h msg.body)
      else dropped

  answer_read : Option Str → Option Str → Served
  answer_read conn none = dropped
  answer_read conn (some bytes) =
      answer_message conn (codec.envelope (take max_request_bytes bytes))

  -- streamHandler, on what the stream holds (none is a failed read).
  unfoldable pub stream_handler : Option Str → Option Str → Served
  unfolding dropped written answer_message answer_read
  stream_handler conn bytes = answer_read conn bytes
