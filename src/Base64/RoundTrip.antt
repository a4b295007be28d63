-- ===== src/Base64/RoundTrip.antt =====
-- The encoder against the decoder.
use activity_pub_gw.Base.{ℕ, ◌+◌, ◌*◌, ◌/◌, ◌%◌, ◌<◌, ◌≡◌, refl, [], ◌∷◌, some, arith, All}
use activity_pub_gw.Text.{Str}
use activity_pub_gw.Base64.{enc_char, dec_char, encode, dec_chars, join, decode}

-- A Go string holds bytes.
abbrev pub IsBytes : Str → Type 0
IsBytes = All (λ a. a < 256)

dec_char-enc_char : (v : ℕ) → v < 64 → dec_char (enc_char v) ≡ some v
unfolding dec_char enc_char
dec_char-enc_char v h = ground arith

enc_char_visible : (v : ℕ) → v < 64 → 13 < enc_char v
unfolding enc_char
enc_char_visible v h = ground arith

dec_chars-cons :
    (v : ℕ) (s : Str) {vs : Str}
    → v < 64
    → dec_chars s ≡ some vs
    → dec_chars (enc_char v ∷ s) ≡ some (v ∷ vs)
unfolding dec_chars
dec_chars-cons v s h e = ground (arith, dec_char-enc_char v h, enc_char_visible v h)

dec_chars-nil : dec_chars [] ≡ some []
unfolding dec_chars
dec_chars-nil = refl

-- The values of a text's characters.
values : Str → Str
values [] = []
values (a ∷ []) = (a / 4) ∷ (a % 4 * 16) ∷ []
values (a ∷ b ∷ []) = (a / 4) ∷ (a % 4 * 16 + b / 16) ∷ (b % 16 * 4) ∷ []
values (a ∷ b ∷ c ∷ s) =
    (a / 4) ∷ (a % 4 * 16 + b / 16) ∷ (b % 16 * 4 + c / 64) ∷ (c % 64) ∷ values s

dec_chars-encode : (s : Str) → IsBytes s → dec_chars (encode s) ≡ some (values s)
unfolding encode values
dec_chars-encode [] h = dec_chars-nil
dec_chars-encode (a ∷ []) (ha, _) =
    dec_chars-cons _ _ (omega arith) (dec_chars-cons _ _ (omega arith) dec_chars-nil)
dec_chars-encode (a ∷ b ∷ []) (ha, (hb, _)) =
    dec_chars-cons _ _ (omega arith)
      (dec_chars-cons _ _ (omega arith) (dec_chars-cons _ _ (omega arith) dec_chars-nil))
dec_chars-encode (a ∷ b ∷ c ∷ s) (ha, (hb, (hc, hs))) = dec_chars-cons _ _ (omega arith) (
    dec_chars-cons _ _ (omega arith)
      (dec_chars-cons _ _ (omega arith) (dec_chars-cons _ _ (omega arith) (dec_chars-encode s hs))))

join-values : (s : Str) → IsBytes s → join (values s) ≡ some s
unfolding values join
join-values [] h = refl
join-values (a ∷ []) (ha, _) = let e : (a / 4 * 4 + a % 4 * 16 / 16) ≡ a = omega arith in rw e
join-values (a ∷ b ∷ []) (ha, (hb, _)) =
    let e : (a / 4 * 4 + (a % 4 * 16 + b / 16) / 16) ≡ a = omega arith in
    let f : ((a % 4 * 16 + b / 16) % 16 * 16 + b % 16 * 4 / 4) ≡ b = omega arith in rw (e, f)
join-values (a ∷ b ∷ c ∷ s) (ha, (hb, (hc, hs))) =
    let e : (a / 4 * 4 + (a % 4 * 16 + b / 16) / 16) ≡ a = omega arith in
    let f : ((a % 4 * 16 + b / 16) % 16 * 16 + (b % 16 * 4 + c / 64) / 4) ≡ b = omega arith in
    let g : ((b % 16 * 4 + c / 64) % 4 * 64 + c % 64) ≡ c = omega arith in
    rw (join-values s hs) (rw (e, f, g))

-- Decoding an encoded text gives the text back.
pub decode-encode : (s : Str) → IsBytes s → decode (encode s) ≡ some s
unfolding decode
decode-encode s h = rw (dec_chars-encode s h) (join-values s h)
