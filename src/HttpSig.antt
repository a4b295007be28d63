-- ===== src/HttpSig.antt =====
-- httpsig.go: the policy on inbound HTTP signatures. The signature library, the hash, the parser of
-- dates and the fetch of a key are arguments of the model.
pub mod Header
pub mod Policy
pub mod Sign
use activity_pub_gw.Base.{
  ℕ, ◌+◌, ◌*◌, Bool, true, false, List, [], ◌∷◌, ◌++◌, Option, none, some, ◌&&◌, ◌||◌, not, ◌==◌,
  ltb, if◌then◌else◌,
}
use activity_pub_gw.Base.Result.{Result, ok, err, ◌>>=◌, ◌>>◌, guard, or_fail}
use activity_pub_gw.Text.{
  Str, codes, eqb, elem, cut, split_byte, trim_byte, trim_left, trim_right, Runes,
}

pub data SigError : Type 0 where
  no_signature_header digest_mismatch incomplete_signature stale_request : SigError
  new_verifier_failed fetch_key_failed verify_failed : SigError

-- What parseSignatureHeader reads.
pub record SignatureHeader : Type 0 where
  pub key_id : Str
  pub headers : List Str
  pub signature : Str

module _ (runes : Runes) where
  open runes use {trim_space, to_lower, fields}

  -- One `k=v` part of the header.
  read_part : SignatureHeader → Str → SignatureHeader
  read_part h part = elim (cut part (codes "=")) [
    | none ↦ h
    | some (key, value) ↦
        let k = trim_space key in
        let val = trim_byte b'"' (trim_space value) in
        if eqb k (codes "keyId")
        then record h { key_id = val }
        else if eqb k (codes "headers")
        then record h { headers = fields (to_lower val) }
        else if eqb k (codes "signature")
        then record h { signature = val }
        else h
  ]

  read_parts : SignatureHeader → List Str → SignatureHeader
  read_parts h [] = h
  read_parts h (p ∷ ps) = read_parts (read_part h p) ps

  -- parseSignatureHeader.
  unfoldable pub parse_signature_header : Str → Result SigError SignatureHeader
  unfolding read_parts read_part trim_left trim_right
  parse_signature_header v =
      let h =
        read_parts (record { key_id = []; headers = []; signature = [] }) (split_byte b',' v) in
      if eqb h.key_id [] || eqb h.signature []
      then err incomplete_signature
      else elim h.headers [ [] ↦ ok (record h { headers = codes "date" ∷ [] }) | _ ∷ _ ↦ ok h ]

abbrev pub min_signed_headers : List Str
min_signed_headers = codes "(request-target)" ∷ codes "host" ∷ codes "date" ∷ []

abbrev pub digest_header : Str
digest_header = codes "digest"

-- 12 hours in nanoseconds.
abbrev pub max_clock_skew : ℕ
max_clock_skew = 43_200_000_000_000

-- An inbound request as the verifier sees it, with the answers of the libraries about it.
pub record SignedRequest (Key : Type 0) : Type 0 where
  -- Header.Get: empty when the header is missing.
  pub header : Str → Str
  pub body : Str
  -- http.ParseTime, in nanoseconds.
  pub parse_time : Str → Option ℕ
  -- base64 of the SHA-256 sum.
  pub sha256 : Str → Str
  -- The key id of httpsig.NewVerifier; none is its error.
  pub verifier : Option Str
  -- Verify with RSA-SHA256 under a key.
  pub verify : Key → Bool
  pub fetch_key : Str → Option Key

abbrev pub nonempty : Str → Bool
nonempty [] = false
nonempty (_ ∷ _) = true

-- Every header of the list is signed.
all_signed : List Str → List Str → Bool
all_signed headers [] = true
all_signed headers (r ∷ rs) = elem r headers && all_signed headers rs

-- Whether `skew > maxClockSkew || skew < -maxClockSkew` fails for the time since `when`.
unfoldable pub is_fresh : ℕ → ℕ → Bool
is_fresh now when = not (ltb (when + max_clock_skew) now || ltb (now + max_clock_skew) when)

module _ {Key : Type 0} (runes : Runes) (now : ℕ) where
  check_date : SignedRequest Key → Result SigError (Unit {0})
  check_date req = do
    guard (nonempty (req.header (codes "Date"))) incomplete_signature
    when ← or_fail (req.parse_time (req.header (codes "Date"))) incomplete_signature
    guard (is_fresh now when) stale_request

  check_digest : SignedRequest Key → List Str → Result SigError (Unit {0})
  check_digest req headers =
      let want = codes "SHA-256=" ++ req.sha256 req.body in
      if elem digest_header headers
      then guard (eqb (req.header (codes "Digest")) want) digest_mismatch
      else guard (not (nonempty req.body)) incomplete_signature

  check_signature : SignedRequest Key → Result SigError Str
  check_signature req = do
    key_id ← or_fail req.verifier new_verifier_failed
    key ← or_fail (req.fetch_key key_id) fetch_key_failed
    guard (req.verify key) verify_failed
    ok key_id

  -- verifyRequest: the verified key id.
  unfoldable pub verify_request : SignedRequest Key → Result SigError Str
  unfolding all_signed check_date check_digest check_signature
  verify_request req = do
    guard (nonempty (req.header (codes "Signature"))) no_signature_header
    sig ← parse_signature_header runes (req.header (codes "Signature"))
    guard (all_signed sig.headers min_signed_headers) incomplete_signature
    check_date req
    check_digest req sig.headers
    check_signature req
