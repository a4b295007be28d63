-- ===== src/HttpSig/Sign.antt =====
-- httpsig.go, server.go: the signing of the gateway's own requests, against the policy on inbound
-- ones.
use activity_pub_gw.Base.{
  ℕ, ◌+◌, ◌≤◌, ◌≡◌, ◌≢◌, refl, ap, sym, ◌∙◌, Bool, true, arith, List, [], ◌∷◌, ◌++◌, All, Option,
  none, some, if◌then◌else◌,
}
use activity_pub_gw.Base.Assoc.{lookup, insert, lookup-insert}
use activity_pub_gw.Base.Result.{ok}
use activity_pub_gw.Text.{Str, codes, eqb, elem, Runes}
use activity_pub_gw.HttpSig.{
  parse_signature_header, min_signed_headers, digest_header, max_clock_skew, SignedRequest,
  verify_request,
}
use activity_pub_gw.HttpSig.Policy.{verify_request_iff}
use activity_pub_gw.HttpSig.Header.{
  IsValue, IsName, IsStrings, spaced, signature_text, parse_signature_header-signature_text,
}

-- The header of a request.
abbrev pub Header : Type 0
Header = List (Str × Str)

value_of : Option Str → Str
value_of none = []
value_of (some v) = v

-- Header.Get: empty when the header is missing.
unfoldable pub header_of : Header → Str → Str
unfolding value_of
header_of h key = value_of (lookup key h)

-- The body of a request, which may have none.
unfoldable pub body_of : Option Str → Str
body_of none = []
body_of (some body) = body

-- The headers that signRequest signs.
unfoldable pub signed_headers : Option Str → List Str
signed_headers none = min_signed_headers
signed_headers (some body) = min_signed_headers ++ (digest_header ∷ [])

-- http.TimeFormat, and SignRequest of the signature library, by the headers to sign, the key id and
-- the body: it gives the request's header with the signature in it, and none is its error.
module _ (format_time : ℕ → Str) (sign : Header → List Str → Str → Option Str → Option Header) where
  -- The header that signRequest hands to the library.
  unfoldable pub prepared : ℕ → Str → Str → Header → Header
  prepared now request_host url_host h =
      insert (codes "Host") (if eqb request_host [] then url_host else request_host) (
        if eqb (header_of h (codes "Date")) []
        then insert (codes "Date") (format_time now) h
        else h)

  -- signRequest.
  unfoldable pub sign_request : ℕ → Str → Str → Str → Option Str → Header → Option Header
  sign_request now request_host url_host key_id body h =
      sign (prepared now request_host url_host h) (signed_headers body) key_id body

  -- signGet, from whether there is a key.
  unfoldable pub sign_get : Bool → ℕ → Str → Str → Str → Header → Option Header
  sign_get has_key now request_host url_host instance_key h =
      if has_key then sign_request now request_host url_host instance_key none h else some h

-- What the receiver of a request takes of the libraries: dates, the hash, the verifier's key id and
-- its check under a key, and the fetch of a key.
pub record Receiver (Key : Type 0) : Type 0 where
  pub parse_time : Str → Option ℕ
  pub sha256 : Str → Str
  pub key_id_of : Header → Option Str
  pub verify : Header → Str → Key → Bool
  pub fetch_key : Str → Option Key

-- A received request, as verifyRequest sees it.
unfoldable pub received : {Key : Type 0} → Receiver Key → Header → Str → SignedRequest Key
received r h body = record {
  header = header_of h;
  body = body;
  parse_time = r.parse_time;
  sha256 = r.sha256;
  verifier = r.key_id_of h;
  verify = r.verify h body;
  fetch_key = r.fetch_key;
}

module _ {Key : Type 0} (r : Receiver Key) where
  -- What the library documents of a header that it has signed: the Signature header is the text of the
  -- key id, an algorithm, the names of the signed headers and a signature, the date is left alone, a signed digest is that of the body, and the
  -- signature verifies under the key.
  pub record IsSigned (key : Key) (key_id : Str) (headers : List Str) (body : Option Str)
      (before after : Header) : Type 0 where
    pub algorithm : Str
    pub signature : Str
    pub written :
        header_of after (codes "Signature") ≡ signature_text key_id algorithm headers signature
    pub is_algorithm : IsValue algorithm
    pub is_signature : IsValue signature
    pub is_given : signature ≢ []
    pub keeps_date : header_of after (codes "Date") ≡ header_of before (codes "Date")
    pub digest :
        elem digest_header headers ≡ true
        → header_of after (codes "Digest") ≡ codes "SHA-256=" ++ r.sha256 (body_of body)
    pub named : r.key_id_of after ≡ some key_id
    pub verified : r.verify after (body_of body) key ≡ true

names_signed : (body : Option Str) → All IsName (signed_headers body)
unfolding signed_headers
names_signed none = ((λ e. cc, omega arith), ((λ e. cc, omega arith), ((λ e. cc, omega arith), tt)))
names_signed (some body) = (
  (λ e. cc, omega arith),
  ((λ e. cc, omega arith), ((λ e. cc, omega arith), ((λ e. cc, omega arith), tt))),
)

text_signed : (body : Option Str) → IsValue (spaced (signed_headers body))
unfolding signed_headers spaced
text_signed none = record { no_comma = omega arith; no_quote = omega arith }
text_signed (some body) = record { no_comma = omega arith; no_quote = omega arith }

some_signed : (body : Option Str) → signed_headers body ≢ []
unfolding signed_headers
some_signed none e = cc
some_signed (some body) e = cc

text_present :
    (key_id algorithm : Str) (names : List Str) (signature : Str)
    → signature_text key_id algorithm names signature ≢ []
unfolding signature_text
text_present key_id algorithm names signature e = cc

minimum_signed :
    (body : Option Str) → All (λ h. elem h (signed_headers body) ≡ true) min_signed_headers
unfolding signed_headers elem eqb
minimum_signed none = (refl, (refl, (refl, tt)))
minimum_signed (some body) = (refl, (refl, (refl, tt)))

digest_signed :
    (body : Option Str) → body_of body ≢ [] → elem digest_header (signed_headers body) ≡ true
unfolding signed_headers body_of elem eqb
digest_signed none h = absurd (h refl)
digest_signed (some body) h = refl

date_inserted :
    (date host : Str) (h : Header)
    → header_of (insert (codes "Host") host (insert (codes "Date") date h)) (codes "Date") ≡ date
unfolding header_of value_of eqb
date_inserted date host h = ap value_of (
    lookup-insert (codes "Host") (codes "Date") host (insert (codes "Date") date h)
    ∙ lookup-insert (codes "Date") (codes "Date") date h)

module _ (format_time : ℕ → Str) (sign : Header → List Str → Str → Option Str → Option Header)
    (sent : ℕ) (request_host url_host : Str) (h : Header)
    (undated : header_of h (codes "Date") ≡ []) where
  prepared-Date :
      header_of (prepared format_time sign sent request_host url_host h) (codes "Date")
      ≡ format_time sent
  unfolding prepared eqb
  prepared-Date =
      rw undated (
        date_inserted (format_time sent) (if eqb request_host [] then url_host else request_host) h)

  module _ {Key : Type 0} (runes : Runes) (r : Receiver Key) (now when : ℕ) (key : Key) where
    -- A request that the gateway signs passes verifyRequest, under the key id it was signed with, when
    -- that id is a text that can stand in quotes, the header had no date, the library writes its header
    -- as it documents and package strings trims and splits as it does, the receiver reads back
    -- the date, fetches the key that belongs to the key id, and has a clock within twelve hours of
    -- the date.
    pub verify_request-sign_request :
        (key_id : Str) (body : Option Str) (after : Header)
        → IsStrings runes
        → IsValue key_id
        → key_id ≢ []
        → sign_request format_time sign sent request_host url_host key_id body h ≡ some after
        → ((before signed : Header)
            → sign before (signed_headers body) key_id body ≡ some signed
            → IsSigned r key key_id (signed_headers body) body before signed)
        → format_time sent ≢ []
        → r.parse_time (format_time sent) ≡ some when
        → now ≤ when + max_clock_skew
        → when ≤ now + max_clock_skew
        → r.fetch_key key_id ≡ some key
        → verify_request runes now (received r after (body_of body)) ≡ ok key_id
    unfolding received sign_request
    verify_request-sign_request key_id body after strings is_key_id ne_key made signs dated timed
          not_old not_ahead fetched =
        let s = signs (prepared format_time sign sent request_host url_host h) after made in
        let date : header_of after (codes "Date") ≡ format_time sent =
          s.keeps_date ∙ prepared-Date in
        let names = signed_headers body in
        let parsed =
          parse_signature_header-signature_text runes strings key_id s.algorithm s.signature names
            is_key_id s.is_algorithm (text_signed body) s.is_signature (some_signed body)
            (names_signed body) ne_key s.is_given in
        (verify_request_iff runes now (received r after (body_of body)) key_id).1 (record {
          sig = record { key_id = key_id; headers = names; signature = s.signature };
          key = key;
          when = when;
          present = λ e. text_present key_id s.algorithm names s.signature (sym s.written ∙ e);
          parsed = ap (parse_signature_header runes) s.written ∙ parsed;
          signed = minimum_signed body;
          dated = rw date dated;
          timed = rw date timed;
          not_old = not_old;
          not_ahead = not_ahead;
          bound = λ ne. digest_signed body ne;
          digest = λ d. s.digest d;
          named = s.named;
          fetched = fetched;
          verified = s.verified;
        })
