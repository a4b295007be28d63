-- ===== src/HttpSig/Header.antt =====
-- httpsig.go: parseSignatureHeader on a Signature header as the signature library writes it.
use activity_pub_gw.Base.{
  ℕ, ◌≤◌, ◌<◌, ◌≡◌, ◌≢◌, ◌⊎◌, refl, sym, ap, ◌∙◌, Bool-cases, inl, inr, false, List, [], ◌∷◌, ◌++◌,
  All, some, arith, ◌==◌, ◌||◌, if◌then◌else◌,
}
use activity_pub_gw.Base.Result.{Result, ok, err}
use activity_pub_gw.Text.{Str, codes, eqb, cut, split_byte, trim_left, trim_right, trim_byte, Runes}
use activity_pub_gw.Text.Laws.{Free, cut_at, split-Free, split_last}
use activity_pub_gw.HttpSig.{
  SignatureHeader, SigError, incomplete_signature, parse_signature_header, read_part, read_parts,
}

-- A value in quotes, and a part `name="value"` of the header.
abbrev quoted : Str → Str
quoted v = b'"' ∷ (v ++ (b'"' ∷ []))

abbrev part : Str → Str → Str
part name v = name ++ (b'=' ∷ quoted v)

-- Names with a space between them.
unfoldable pub spaced : List Str → Str
spaced [] = []
spaced (h ∷ []) = h
spaced (h ∷ g ∷ hs) = h ++ (b' ' ∷ spaced (g ∷ hs))

-- The header that the library writes: the key id, the algorithm, the names of the signed headers,
-- and the signature.
unfoldable pub signature_text : Str → Str → List Str → Str → Str
signature_text key_id algorithm headers signature =
    part (codes "keyId") key_id
    ++ (b','
        ∷ (part (codes "algorithm") algorithm
            ++ (b','
                ∷ (part (codes "headers") (spaced headers)
                    ++ (b',' ∷ part (codes "signature") signature)))))

-- A text that can stand in quotes in the header.
pub record IsValue (v : Str) : Type 0 where
  pub no_comma : Free b',' v
  pub no_quote : Free b'"' v

-- The name of a header in lower case, without a space.
abbrev pub IsName : Str → Type 0
IsName h = (h ≢ []) × All (λ a. (b' ' < a) × (a < 127) × ((a < b'A') ⊎ (b'Z' < a))) h

-- What package strings documents of the texts that are read: nothing is trimmed off a text that has
-- a space at neither end, and names in lower case with spaces between them are the fields of a text.
pub record IsStrings (runes : Runes) : Type 0 where
  pub trim_word : (s : Str) → All (λ a. (b'A' ≤ a) × (a ≤ b'z')) s → runes.trim_space s ≡ s
  pub trim_quoted : (v : Str) → runes.trim_space (quoted v) ≡ quoted v
  pub fields_spaced :
      (headers : List Str)
      → headers ≢ []
      → All IsName headers
      → runes.fields (runes.to_lower (spaced headers)) ≡ headers

trim_right-quoted : (v : Str) → Free b'"' v → trim_right b'"' (v ++ (b'"' ∷ [])) ≡ v
unfolding trim_right
trim_right-quoted [] h = refl
trim_right-quoted (a ∷ []) (ne, hs) = ground arith
trim_right-quoted (a ∷ b ∷ s) (ne, hs) = rw (trim_right-quoted (b ∷ s) hs) refl

trim_left-quoted : (v : Str) → Free b'"' v → trim_right b'"' (trim_left b'"' (v ++ (b'"' ∷ []))) ≡ v
unfolding trim_left trim_right
trim_left-quoted [] h = refl
trim_left-quoted (a ∷ s) (ne, hs) = elim (Bool-cases (a == b'"')) [
  | inl e ↦ ground (arith, e)
  | inr e ↦ rw e (trim_right-quoted (a ∷ s) (ne, hs))
]

trim_byte-quoted : (v : Str) → Free b'"' v → trim_byte b'"' (quoted v) ≡ v
unfolding trim_left
trim_byte-quoted v h = trim_left-quoted v h

not_empty : (s : Str) → s ≢ [] → eqb s [] ≡ false
unfolding eqb
not_empty [] h = absurd (h refl)
not_empty (a ∷ s) h = refl

kept :
    (h : SignatureHeader) (names : List Str)
    → names ≢ []
    → ◌≡◌ {A = Result SigError SignatureHeader}
        (elim names [ [] ↦ ok (record h { headers = codes "date" ∷ [] }) | _ ∷ _ ↦ ok h ])
        (ok h)
kept h [] ne = absurd (ne refl)
kept h (name ∷ names) ne = refl

given :
    (h : SignatureHeader)
    → h.key_id ≢ []
    → h.signature ≢ []
    → h.headers ≢ []
    → ◌≡◌ {A = Result SigError SignatureHeader}
        (if eqb h.key_id [] || eqb h.signature []
          then err incomplete_signature
          else elim h.headers [ [] ↦ ok (record h { headers = codes "date" ∷ [] }) | _ ∷ _ ↦ ok h ])
        (ok h)
given h key signature names =
    rw (not_empty h.key_id key, not_empty h.signature signature) (kept h h.headers names)

cut-part : (name v : Str) → Free b'=' name → cut (part name v) (codes "=") ≡ some (name, quoted v)
cut-part name v free = cut_at name b'=' [] (quoted v) free

Free-append : (c : ℕ) (s t : Str) → Free c s → Free c t → Free c (s ++ t)
Free-append c [] t hs ht = ht
Free-append c (a ∷ s) t (ha, hs) ht = (ha, Free-append c s t hs ht)

part-Free : (name v : Str) → Free b',' name → Free b',' v → Free b',' (part name v)
part-Free name v hn hv =
    Free-append b',' name (b'=' ∷ quoted v) hn
      (omega arith, (omega arith, Free-append b',' v (b'"' ∷ []) hv (omega arith)))

module _ (runes : Runes) (laws : IsStrings runes) where
  read_key_id :
      (h : SignatureHeader) (v : Str)
      → IsValue v
      → read_part runes h (part (codes "keyId") v) ≡ record h { key_id = v }
  unfolding read_part eqb
  read_key_id h v is =
      rw (cut-part (codes "keyId") v (omega arith), read_part)
        (rw
          (
            laws.trim_word (codes "keyId") (omega arith),
            laws.trim_quoted v,
            trim_byte-quoted v is.no_quote,
          )
          refl)

  read_algorithm :
      (h : SignatureHeader) (v : Str)
      → IsValue v
      → read_part runes h (part (codes "algorithm") v) ≡ h
  unfolding read_part eqb
  read_algorithm h v is =
      rw (cut-part (codes "algorithm") v (omega arith), read_part)
        (rw (laws.trim_word (codes "algorithm") (omega arith)) refl)

  read_headers :
      (h : SignatureHeader) (names : List Str)
      → IsValue (spaced names)
      → names ≢ []
      → All IsName names
      → read_part runes h (part (codes "headers") (spaced names)) ≡ record h { headers = names }
  unfolding read_part eqb
  read_headers h names is ne are_names =
      rw (cut-part (codes "headers") (spaced names) (omega arith), read_part)
        (rw
          (
            laws.trim_word (codes "headers") (omega arith),
            laws.trim_quoted (spaced names),
            trim_byte-quoted (spaced names) is.no_quote,
            laws.fields_spaced names ne are_names,
          )
          refl)

  read_signature :
      (h : SignatureHeader) (v : Str)
      → IsValue v
      → read_part runes h (part (codes "signature") v) ≡ record h { signature = v }
  unfolding read_part eqb
  read_signature h v is =
      rw (cut-part (codes "signature") v (omega arith), read_part)
        (rw
          (
            laws.trim_word (codes "signature") (omega arith),
            laws.trim_quoted v,
            trim_byte-quoted v is.no_quote,
          )
          refl)

  module _ (key_id algorithm signature : Str) (names : List Str) (is_key_id : IsValue key_id)
      (is_algorithm : IsValue algorithm) (is_headers : IsValue (spaced names))
      (is_signature : IsValue signature) (ne_names : names ≢ [])
      (are_names : All IsName names) where
    parts_of :
        split_byte b',' (signature_text key_id algorithm names signature)
        ≡ part (codes "keyId") key_id
          ∷ part (codes "algorithm") algorithm
          ∷ part (codes "headers") (spaced names)
          ∷ part (codes "signature") signature
          ∷ []
    unfolding signature_text
    parts_of =
        rw
          (
            split-Free b',' (part (codes "keyId") key_id) _
                (part-Free (codes "keyId") key_id (omega arith) is_key_id.no_comma),
            split-Free b',' (part (codes "algorithm") algorithm) _
                (part-Free (codes "algorithm") algorithm (omega arith) is_algorithm.no_comma),
            split-Free b',' (part (codes "headers") (spaced names)) _
                (part-Free (codes "headers") (spaced names) (omega arith) is_headers.no_comma),
            split_last b',' (part (codes "signature") signature)
                (part-Free (codes "signature") signature (omega arith) is_signature.no_comma),
          )
          refl

    read :
        read_parts runes
          (record { key_id = []; headers = []; signature = [] })
          (split_byte b',' (signature_text key_id algorithm names signature))
        ≡ record { key_id = key_id; headers = names; signature = signature }
    unfolding read_parts
    read =
        rw
          (
            parts_of,
            read_key_id (record { key_id = []; headers = []; signature = [] }) key_id is_key_id,
            read_algorithm (record { key_id = key_id; headers = []; signature = [] }) algorithm
                is_algorithm,
            read_headers (record { key_id = key_id; headers = []; signature = [] }) names is_headers
                ne_names are_names,
            read_signature (record { key_id = key_id; headers = names; signature = [] }) signature
                is_signature,
          )
          refl

    -- The header that the library writes is read back: the key id, the names of the signed headers and
    -- the signature.
    pub parse_signature_header-signature_text :
        key_id ≢ []
        → signature ≢ []
        → parse_signature_header runes (signature_text key_id algorithm names signature)
          ≡ ok (record { key_id = key_id; headers = names; signature = signature })
    unfolding parse_signature_header
    parse_signature_header-signature_text ne_key ne_signature =
        given _ (λ e. ne_key (sym (ap (λ h. h.key_id) read) ∙ e))
          (λ e. ne_signature (sym (ap (λ h. h.signature) read) ∙ e))
          (λ e. ne_names (sym (ap (λ h. h.headers) read) ∙ e))
        ∙ ap ok read
