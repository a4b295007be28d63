-- ===== src/HttpSig/Policy.antt =====
-- The policy of verifyRequest as a record of conditions.
use activity_pub_gw.Base.{
  ap, sym, ◌∙◌, ℕ, ◌+◌, ◌≤◌, ◌≡◌, refl, ◌≢◌, ◌↔◌, true, List, [], ◌∷◌, ◌++◌, some, arith,
  Bool-cases, inl, inr, All,
}
use mathlib.Core.Bool.{and-eq-true_iff}
use activity_pub_gw.Base.Result.{ok, >>=-eq-ok, guard, guard-eq-ok, or_fail, or_fail-eq-ok}
use activity_pub_gw.Text.{Str, codes, elem, Runes}
use activity_pub_gw.Text.Laws.{eqb_iff}
use activity_pub_gw.HttpSig.{
  nonempty, no_signature_header, incomplete_signature, stale_request, new_verifier_failed,
  fetch_key_failed, verify_failed, SignatureHeader, parse_signature_header, min_signed_headers,
  digest_header, max_clock_skew, SignedRequest, all_signed, is_fresh, check_date, check_digest,
  check_signature, verify_request,
}

nonempty_sound : (s : Str) → nonempty s ≡ true → s ≢ []
nonempty_sound [] h = cc
nonempty_sound (a ∷ s) h = λ e. cc

nonempty_complete : (s : Str) → s ≢ [] → nonempty s ≡ true
nonempty_complete [] h = absurd (h refl)
nonempty_complete (a ∷ s) h = refl

all_signed_complete :
    (headers rs : List Str) → All (λ r. elem r headers ≡ true) rs → all_signed headers rs ≡ true
unfolding all_signed
all_signed_complete headers [] h = refl
all_signed_complete headers (r ∷ rs) (here, later) = rw here (all_signed_complete headers rs later)

is_fresh_complete :
    (now when : ℕ)
    → now ≤ when + max_clock_skew
    → when ≤ now + max_clock_skew
    → is_fresh now when ≡ true
unfolding is_fresh
is_fresh_complete now when h k = ground arith

module _ {Key : Type 0} (runes : Runes) (now : ℕ) where
  -- A request that the gateway may act on: the whole minimum set of headers is signed, the date is
  -- within the clock skew, a body is bound by a signed digest of it, and the signature verifies
  -- under the key that the named key id resolves to.
  pub record IsAuthentic (req : SignedRequest Key) (key_id : Str) : Type 0 where
    pub sig : SignatureHeader
    pub key : Key
    pub when : ℕ
    pub present : req.header (codes "Signature") ≢ []
    pub parsed : parse_signature_header runes (req.header (codes "Signature")) ≡ ok sig
    pub signed : All (λ h. elem h sig.headers ≡ true) min_signed_headers
    pub dated : req.header (codes "Date") ≢ []
    pub timed : req.parse_time (req.header (codes "Date")) ≡ some when
    pub not_old : now ≤ when + max_clock_skew
    pub not_ahead : when ≤ now + max_clock_skew
    pub bound : req.body ≢ [] → elem digest_header sig.headers ≡ true
    pub digest :
        elem digest_header sig.headers ≡ true
        → req.header (codes "Digest") ≡ codes "SHA-256=" ++ req.sha256 req.body
    pub named : req.verifier ≡ some key_id
    pub fetched : req.fetch_key key_id ≡ some key
    pub verified : req.verify key ≡ true

  module _ (req : SignedRequest Key) where
    date_sound :
        {u : Unit {0}}
        → check_date runes now req ≡ ok u
        → (when : ℕ) × (req.header (codes "Date") ≢ [])
          × (req.parse_time (req.header (codes "Date")) ≡ some when)
          × (now ≤ when + max_clock_skew)
          × (when ≤ now + max_clock_skew)
    unfolding check_date is_fresh
    date_sound h =
        let (_, dated, rest) =
          >>=-eq-ok (guard (nonempty (req.header (codes "Date"))) incomplete_signature) _ h in
        let (when, timed, fresh) =
          >>=-eq-ok (or_fail (req.parse_time (req.header (codes "Date"))) incomplete_signature) _
            rest in
        let recent = guard-eq-ok (is_fresh now when) stale_request fresh in
        (
          when,
          nonempty_sound (req.header (codes "Date")) (guard-eq-ok _ _ dated),
          or_fail-eq-ok _ _ timed,
          ground arith,
          ground arith,
        )

    digest_sound :
        (headers : List Str) {u : Unit {0}}
        → check_digest runes now req headers ≡ ok u
        → (req.body ≢ [] → elem digest_header headers ≡ true)
          × (elem digest_header headers ≡ true
              → req.header (codes "Digest") ≡ codes "SHA-256=" ++ req.sha256 req.body)
    unfolding check_digest
    digest_sound headers h =
        let same =
          eqb_iff (req.header (codes "Digest")) (codes "SHA-256=" ++ req.sha256 req.body) in
        (ground (arith, same), ground (arith, same))

    signature_sound :
        (key_id : Str)
        → check_signature runes now req ≡ ok key_id
        → (key : Key) × (req.verifier ≡ some key_id)
          × (req.fetch_key key_id ≡ some key)
          × (req.verify key ≡ true)
    unfolding check_signature
    signature_sound key_id h =
        let (k, named, rest) = >>=-eq-ok (or_fail req.verifier new_verifier_failed) _ h in
        let (key, fetched, last) = >>=-eq-ok (or_fail (req.fetch_key k) fetch_key_failed) _ rest in
        let (_, verified, same) = >>=-eq-ok (guard (req.verify key) verify_failed) _ last in
        let e : k ≡ key_id = cc same in
        (
          key,
          or_fail-eq-ok _ _ named ∙ ap some e,
          ap req.fetch_key (sym e) ∙ or_fail-eq-ok _ _ fetched,
          guard-eq-ok _ _ verified,
        )

    all_signed_sound :
        (headers rs : List Str) → all_signed headers rs ≡ true → All (λ r. elem r headers ≡ true) rs
    unfolding all_signed
    all_signed_sound headers [] h = tt
    all_signed_sound headers (r ∷ rs) h =
        let (here, later) = (and-eq-true_iff _ _).0 h in (here, all_signed_sound headers rs later)

    verify_sound :
        (key_id : Str) → verify_request runes now req ≡ ok key_id → IsAuthentic req key_id
    unfolding verify_request
    verify_sound key_id h =
        let (_, present, h1) =
          >>=-eq-ok (guard (nonempty (req.header (codes "Signature"))) no_signature_header) _ h in
        let (sig, parsed, h2) =
          >>=-eq-ok (parse_signature_header runes (req.header (codes "Signature"))) _ h1 in
        let (_, signed, h3) =
          >>=-eq-ok (guard (all_signed sig.headers min_signed_headers) incomplete_signature) _ h2 in
        let (_, date, h4) = >>=-eq-ok (check_date runes now req) _ h3 in
        let (_, digest, h5) = >>=-eq-ok (check_digest runes now req sig.headers) _ h4 in
        let (when, dated, timed, not_old, not_ahead) = date_sound date in
        let (bound, matches) = digest_sound sig.headers digest in
        let (key, named, fetched, verified) = signature_sound key_id h5 in
        record {
          sig = sig;
          key = key;
          when = when;
          present = nonempty_sound (req.header (codes "Signature")) (guard-eq-ok _ _ present);
          parsed = parsed;
          signed = all_signed_sound sig.headers min_signed_headers (guard-eq-ok _ _ signed);
          dated = dated;
          timed = timed;
          not_old = not_old;
          not_ahead = not_ahead;
          bound = bound;
          digest = matches;
          named = named;
          fetched = fetched;
          verified = verified;
        }

    date_complete : (key_id : Str) → IsAuthentic req key_id → check_date runes now req ≡ ok tt
    unfolding check_date
    date_complete key_id a =
        rw (nonempty_complete (req.header (codes "Date")) a.dated)
          (rw a.timed (rw (is_fresh_complete now a.when a.not_old a.not_ahead)))

    signature_complete :
        (key_id : Str) → IsAuthentic req key_id → check_signature runes now req ≡ ok key_id
    unfolding check_signature
    signature_complete key_id a = rw a.named (rw a.fetched (rw a.verified))

    digest_complete :
        (key_id : Str) (a : IsAuthentic req key_id)
        → check_digest runes now req a.sig.headers ≡ ok tt
    unfolding check_digest
    digest_complete key_id a =
        let same =
          eqb_iff (req.header (codes "Digest")) (codes "SHA-256=" ++ req.sha256 req.body) in
        elim (Bool-cases (elem digest_header a.sig.headers)) [
          | inl signed ↦ rw signed (rw (same.1 (a.digest signed)))
          | inr unsigned ↦ elim (Bool-cases (nonempty req.body)) [
            | inl body ↦ absurd (cc (a.bound (nonempty_sound req.body body), unsigned))
            | inr empty ↦ rw unsigned (rw empty)
          ]
        ]

    verify_complete :
        (key_id : Str) → IsAuthentic req key_id → verify_request runes now req ≡ ok key_id
    unfolding verify_request
    verify_complete key_id a = rw (nonempty_complete (req.header (codes "Signature")) a.present) (
        rw a.parsed (
          rw (all_signed_complete a.sig.headers min_signed_headers a.signed) (
            rw (date_complete key_id a)
              (rw (digest_complete key_id a) (signature_complete key_id a)))))

    -- verifyRequest succeeds with a key id exactly when the request is authentic under it.
    pub verify_request_iff :
        (key_id : Str) → (verify_request runes now req ≡ ok key_id) ↔ IsAuthentic req key_id
    verify_request_iff key_id = (verify_sound key_id, verify_complete key_id)
