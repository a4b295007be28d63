-- ===== src/Base64/Safe.antt =====
-- base64.RawURLEncoding: its alphabet needs no escape in the path of a URL.
use activity_pub_gw.Base.{ℕ, ◌≢◌, ◌+◌, ◌*◌, ◌/◌, ◌%◌, [], ◌∷◌, All, arith}
use activity_pub_gw.Text.{Str}
use activity_pub_gw.Base64.{enc_char, encode}

-- A byte that is none of the path's own characters, and no dot.
abbrev pub IsSafe : ℕ → Type 0
IsSafe a = (a ≢ b'/') × (a ≢ b'?') × (a ≢ b'#') × (a ≢ b'%') × (a ≢ b'.')

enc_char-IsSafe : (v : ℕ) → IsSafe (enc_char v)
unfolding enc_char
enc_char-IsSafe v =
    (λ e. ground arith, λ e. ground arith, λ e. ground arith, λ e. ground arith, λ e. ground arith)

pub encode-IsSafe : (s : Str) → All IsSafe (encode s)
unfolding encode
encode-IsSafe [] = tt
encode-IsSafe (a ∷ []) = (enc_char-IsSafe (a / 4), (enc_char-IsSafe (a % 4 * 16), tt))
encode-IsSafe (a ∷ b ∷ []) = (
  enc_char-IsSafe (a / 4),
  (enc_char-IsSafe (a % 4 * 16 + b / 16), (enc_char-IsSafe (b % 16 * 4), tt)),
)
encode-IsSafe (a ∷ b ∷ c ∷ s) = (
  enc_char-IsSafe (a / 4),
  (
    enc_char-IsSafe (a % 4 * 16 + b / 16),
    (enc_char-IsSafe (b % 16 * 4 + c / 64), (enc_char-IsSafe (c % 64), encode-IsSafe s)),
  ),
)

pub encode-ne : (a : ℕ) (s : Str) → encode (a ∷ s) ≢ []
unfolding encode
encode-ne a [] h = cc
encode-ne a (b ∷ []) h = cc
encode-ne a (b ∷ c ∷ s) h = cc
