-- ===== src/Tests/Starts.antt =====
-- The start of the gateway, its key, the network it joins and the streams to it.
use activity_pub_gw.Base.{
  ◌≡◌, ◌⊎◌, refl, ap, subst, true, [], ◌∷◌, ◌++◌, Option, none, some, arith, length, take, drop,
}
use activity_pub_gw.Base.Result.{ok, err}
use activity_pub_gw.Text.{Str, codes, eqb}
use activity_pub_gw.Parts.{funnel, dht, close_part, open_after}
use activity_pub_gw.Keys.{Block, Pki, rsa, missing, written}
use activity_pub_gw.Members.Join.{Setup, connect_network}
use activity_pub_gw.Members.Join.Settles.{IsSettled, connect_network-IsSettled}
use activity_pub_gw.Start.{World, Wiring, Fatal, server_closed, start}
use activity_pub_gw.Start.Wired.{Runs, IsReady, start-Runs}
use activity_pub_gw.NodeServer.{Codec, Answer, Message, done, stream_handler}
use activity_pub_gw.NodeServer.Answered.{IsWire, read_back, stream_send-stream_handler}
use activity_pub_gw.Stream.{Packages, Host, Stamp, value, body_of, envelope, sealed, stream_send}

-- A block is written with the length of its type.
abbrev pem_encode : Block → Str
pem_encode b = length b.kind ∷ (b.kind ++ b.bytes)

abbrev pem_decode : Str → Option Block
pem_decode [] = none
pem_decode (n ∷ s) = some (record { kind = take n s; bytes = drop n s })

take_front : (s t : Str) → take (length s) (s ++ t) ≡ s
take_front [] t = refl
take_front (a ∷ s) t = ap (λ r. a ∷ r) (take_front s t)

drop_front : (s t : Str) → drop (length s) (s ++ t) ≡ t
drop_front [] t = refl
drop_front (a ∷ s) t = drop_front s t

-- A key is a text, and is its own public half.
abbrev pki : Pki Str Str
pki = record {
  public_half = λ k. k;
  pem_decode = pem_decode;
  pem_encode = pem_encode;
  parse_pkcs1_private = λ s. some s;
  marshal_pkcs1_private = λ k. k;
  parse_pkix_public = λ s. some (rsa s);
  marshal_pkix_public = λ p. some p;
  parse_pkcs1_public = λ s. none;
}

abbrev key : Str
key = codes "key"

-- All the entries parse, and the first connects.
abbrev setup : Setup
setup = record {
  parse = λ s. some (record { id = s; addresses = [] });
  error = none;
  own = some (codes "gateway");
  makes_dht = true;
  connects = λ e. true;
}

no_host : close_part activity_pub_gw.Parts.host (funnel ∷ []) ≡ funnel ∷ []
unfolding close_part
no_host = refl

no_dht : close_part dht (funnel ∷ []) ≡ funnel ∷ []
unfolding close_part
no_dht = refl

connect_network-IsSettled_example :
    IsSettled setup (codes "testnet") (funnel ∷ []) (connect_network setup (codes "testnet"))
connect_network-IsSettled_example =
    connect_network-IsSettled setup (codes "testnet") (funnel ∷ []) no_host no_dht

abbrev world : World Str Str
world = record {
  env = λ _. [];
  dns_name = some (codes "gw.ts.net.");
  pki = pki;
  key_file = missing;
  generated = some key;
  write = written;
  setup = setup;
  listens = true;
  served = server_closed;
}

start-Runs_example :
    ((w : Wiring) × ((start world).1 ≡ ok w) × Runs world (start world).0 w)
    ⊎ ((f : Fatal) × ((start world).1 ≡ err f)
        × (open_after (start world).0 []
            ≡ (elim world.dns_name [ none ↦ [] | some name ↦ funnel ∷ [] ]))
        × ((domain pem : Str) → IsReady world domain pem → ⊥))
start-Runs_example = start-Runs world

-- An envelope is written as its signature, with its length, and its body.
abbrev packages : Packages Str
packages = record {
  marshal = λ v. some v;
  marshal_envelope = λ e signature. some (length signature ∷ (signature ++ e.body));
  signing_bytes = λ e. e.body;
  sign = λ priv bytes. codes "s";
}

abbrev host : Host
host = record { id = codes "node"; priv = codes "priv" }

abbrev open_envelope : Str → Option Message
open_envelope [] = none
open_envelope (n ∷ s) =
    some (record { body = drop n s; signature = take n s; signing_bytes = drop n s })

abbrev codec : Codec
codec = record {
  envelope = open_envelope;
  verify = λ peer bytes signature. eqb peer (codes "node");
  marshal = λ _. some (codes "answer");
}

abbrev handler : Str → Answer
handler body = ([], ok done)

IsWord : Str → Type 0
IsWord s = eqb s (codes "hello") ≡ true

some_inj : {a b : Str} → some a ≡ some b → a ≡ b
some_inj h = cc

opened :
    (s body bytes : Str)
    → length s ∷ (s ++ body) ≡ bytes
    → open_envelope bytes ≡ some (record { body = body; signature = s; signing_bytes = body })
opened s body bytes e =
    subst
      (λ b. open_envelope b ≡ some (record { body = body; signature = s; signing_bytes = body })) e
      (rw (take_front s body, drop_front s body) refl)

wire : IsWire packages host codec IsWord
unfolding eqb
wire = record {
  decodes =
      λ e signature bytes compact is_sealed. opened signature e.body bytes (some_inj is_sealed);
  verifies = λ bytes. refl;
  signs = λ bytes. refl;
}

abbrev stamp : Stamp
stamp = record { message_id = codes "m"; timestamp = 1 }

abbrev hello : Str
hello = codes "hello"

hello_body : body_of packages host (value hello) ≡ ok hello
unfolding body_of
hello_body = refl

hello-IsWord : IsWord hello
unfolding IsWord eqb
hello-IsWord = refl

hello-sealed :
    sealed packages host (envelope packages host stamp (codes "/public/get/user") hello)
    ≡ some (1 ∷ (codes "s" ++ hello))
unfolding sealed envelope
hello-sealed = refl

stream_send-stream_handler_example :
    (stream_handler codec handler (some host.id) (some (1 ∷ (codes "s" ++ hello)))
      ≡ ((handler hello).0, codec.marshal (handler hello).1))
    × (stream_send packages host stamp true
          (λ sent. read_back (stream_handler codec handler (some host.id) (some sent)))
          (codes "/public/get/user")
          (value hello)
        ≡ read_back ((handler hello).0, codec.marshal (handler hello).1))
stream_send-stream_handler_example =
    stream_send-stream_handler packages host codec IsWord wire handler stamp
      (codes "/public/get/user") hello (1 ∷ (codes "s" ++ hello)) (value hello) hello_body
      hello-IsWord hello-sealed (omega arith)
