-- ===== src/Tests/Signing.antt =====
-- A signed request of the gateway at a receiver.
use activity_pub_gw.Base.{
  ℕ, ◌≤◌, ◌<◌, ◌⊎◌, ◌∙◌, ap, All, ◌≡◌, ◌≢◌, refl, subst, true, List, [], ◌∷◌, Option, none, some,
  arith,
}
use activity_pub_gw.Base.Result.{ok}
use activity_pub_gw.Text.{Str, codes, eqb, split_byte}
use activity_pub_gw.HttpSig.{verify_request}
use activity_pub_gw.HttpSig.Sign.{
  Header, Receiver, IsSigned, sign_request, signed_headers, received, body_of, header_of,
  verify_request-sign_request,
}
use activity_pub_gw.HttpSig.Header.{IsValue, IsName, IsStrings, spaced, signature_text}
use activity_pub_gw.Text.Laws.{Free, split-Free, split_last}
use activity_pub_gw.Tests.Fixtures.{ascii}

abbrev signature : Str
signature =
    codes
      "keyId=\"k\",algorithm=\"a\",headers=\"(request-target) host date digest\",signature=\"s\""

abbrev sign : Header → List Str → Str → Option Str → Option Header
sign before headers key_id body =
    some ((codes "Signature", signature) ∷ (codes "Digest", codes "SHA-256=h") ∷ before)

abbrev receiver : Receiver Str
receiver = record {
  parse_time = λ _. some 5;
  sha256 = λ _. codes "h";
  key_id_of = λ _. some (codes "k");
  verify = λ header body key. eqb key (codes "pem");
  fetch_key = λ _. some (codes "pem");
}

abbrev format_time : ℕ → Str
format_time _ = codes "now"

abbrev body : Option Str
body = some (codes "like")

same_header : {a b : Header} → some a ≡ some b → a ≡ b
same_header e = cc

one_letter-IsValue : (a : ℕ) → b'A' ≤ a → IsValue (a ∷ [])
one_letter-IsValue a h = record { no_comma = (omega arith, tt); no_quote = (omega arith, tt) }

-- A name has no space in it.
name-Free :
    (s : Str) → All (λ a. (b' ' < a) × (a < 127) × ((a < b'A') ⊎ (b'Z' < a))) s → Free b' ' s
name-Free [] h = tt
name-Free (a ∷ s) ((above, _, _), hs) = (omega arith, name-Free s hs)

spaced-fields :
    (names : List Str) → names ≢ [] → All IsName names → split_byte b' ' (spaced names) ≡ names
unfolding spaced
spaced-fields [] ne h = absurd (ne refl)
spaced-fields (name ∷ []) ne ((_, is), _) = split_last b' ' name (name-Free name is)
spaced-fields (name ∷ other ∷ names) ne ((_, is), h) =
    split-Free b' ' name (spaced (other ∷ names)) (name-Free name is)
    ∙ ap (λ ns. name ∷ ns) (spaced-fields (other ∷ names) (λ e. cc) h)

ascii-IsStrings : IsStrings ascii
ascii-IsStrings = record {
  trim_word = λ s h. refl;
  trim_quoted = λ v. refl;
  fields_spaced = spaced-fields;
}

k_given : codes "k" ≢ []
k_given e = cc

s_given : codes "s" ≢ []
s_given e = cc

signs :
    (before signed : Header)
    → sign before (signed_headers body) (codes "k") body ≡ some signed
    → IsSigned receiver (codes "pem") (codes "k") (signed_headers body) body before signed
unfolding activity_pub_gw.HttpSig.Sign.header_of activity_pub_gw.Base.Assoc.lookup eqb
    signed_headers signature_text spaced
signs before signed e =
    subst
      (λ after. IsSigned receiver (codes "pem") (codes "k") (signed_headers body) body before after)
      (same_header e)
      (record {
        algorithm = codes "a";
        signature = codes "s";
        written = refl;
        is_algorithm = one_letter-IsValue b'a' (omega arith);
        is_signature = one_letter-IsValue b's' (omega arith);
        is_given = s_given;
        keeps_date = refl;
        digest = λ _. refl;
        named = refl;
        verified = refl;
      })

undated : header_of [] (codes "Date") ≡ []
unfolding header_of activity_pub_gw.Base.Assoc.lookup
undated = refl

abbrev sent : Header
sent =
    (codes "Signature", signature)
    ∷ (codes "Digest", codes "SHA-256=h")
    ∷ (codes "Date", codes "now")
    ∷ (codes "Host", codes "m.org")
    ∷ []

sent_given : sign_request format_time sign 5 [] (codes "m.org") (codes "k") body [] ≡ some sent
unfolding sign_request eqb activity_pub_gw.HttpSig.Sign.prepared activity_pub_gw.Base.Assoc.insert
    activity_pub_gw.HttpSig.Sign.header_of activity_pub_gw.Base.Assoc.lookup
sent_given = refl

not_empty : codes "now" ≢ []
not_empty e = cc

verify_request-sign_request_example :
    verify_request ascii 6 (received receiver sent (body_of body)) ≡ ok (codes "k")
verify_request-sign_request_example =
    verify_request-sign_request format_time sign 5 [] (codes "m.org") [] undated ascii receiver 6 5
      (codes "pem") (codes "k") body sent ascii-IsStrings (one_letter-IsValue b'k' (omega arith))
      k_given sent_given signs not_empty refl (omega arith) (omega arith) refl
