-- ===== src/Tests/Fixtures.antt =====
-- A gateway, its users, and requests to it.
use activity_pub_gw.Base.{Bool, [], Option, none, some, if◌then◌else◌}
use activity_pub_gw.Text.{Str, codes, eqb, cut_prefix, until_byte, split_byte, Runes}
use activity_pub_gw.Json.{str, Fields, end, field}
use activity_pub_gw.Url.{Url, Lib}
use activity_pub_gw.HttpSig.{SignedRequest}
use activity_pub_gw.Inbox.{InboxRequest, Pool}

abbrev pub ascii : Runes
ascii = record {
  trim_space = λ s. s;
  equal_fold = λ s t. eqb s t;
  to_lower = λ s. s;
  fields = λ s. split_byte b' ' s;
  cut_space = λ s. none;
}

abbrev pub https_url : Option Str → Option Url
https_url none = none
https_url (some rest) = some (record {
  scheme = codes "https";
  host = until_byte b'/' rest;
  hostname = until_byte b'/' rest;
  path = codes "/users/bob";
})

abbrev pub test_lib : Lib
test_lib = record {
  parse_url = λ s. https_url (cut_prefix s (codes "https://"));
  runes = ascii;
  strip_tags = λ s. s;
  break_lines = λ s. s;
  token = codes "t";
  default_reaction = codes "+";
}

abbrev pub gw : Str
gw = codes "gw.org"

abbrev pub alice : Str
alice = codes "alice"

abbrev pub bob_url : Str
bob_url = codes "https://m.org/users/bob"

abbrev pub bob_key : Str
bob_key = codes "https://m.org/users/bob#main-key"

abbrev pub alice_status : Str
alice_status = codes "https://gw.org/users/alice/statuses/7"

abbrev pub like : Fields
like =
    field (codes "type") (str (codes "Like"))
      (field (codes "actor") (str bob_url) (field (codes "object") (str alice_status) end))

abbrev pub is_alice : Str → Bool
is_alice u = eqb u alice

abbrev pub header : Str → Str
header k =
    if◌then◌else◌ (eqb k (codes "Signature"))
      (codes
        "keyId=\"https://m.org/users/bob#main-key\",headers=\"(request-target) host date digest\",signature=\"s\"")
      (if◌then◌else◌ (eqb k (codes "Digest")) (codes "SHA-256=h") (codes "now"))

abbrev pub signed_like : SignedRequest Str
signed_like = record {
  header = header;
  body = codes "like";
  parse_time = λ _. some 5;
  sha256 = λ _. codes "h";
  verifier = some bob_key;
  verify = λ k. eqb k (codes "pem");
  fetch_key = λ _. some (codes "pem");
}

abbrev pub like_request : InboxRequest Str
like_request = record {
  method = codes "POST";
  body = some (codes "like");
  signed = λ _. signed_like;
  unmarshal = λ _. some like;
}

abbrev pub idle : Pool
idle = record { in_flight = 0; started = [] }
