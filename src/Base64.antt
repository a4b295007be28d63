-- ===== src/Base64.antt =====
-- base64.RawURLEncoding: unpadded, with '-' and '_'. The decoder skips carriage returns and line
-- feeds and ignores the trailing bits, as encoding/base64 does outside its strict mode.
pub mod RoundTrip
pub mod Safe
use activity_pub_gw.Base.{
  ℕ, ◌+◌, ◌-◌, ◌*◌, ◌/◌, ◌%◌, List, [], ◌∷◌, Option, none, some, ◌||◌, ltb, leb, ◌==◌, ◌&&◌,
  if◌then◌else◌, ◌>>=◌,
}
use activity_pub_gw.Text.{Str}

-- The character of a 6-bit value.
enc_char : ℕ → ℕ
enc_char v =
    if ltb v 26
    then b'A' + v
    else if ltb v 52
    then b'a' + (v - 26)
    else if ltb v 62
    then b'0' + (v - 52)
    else if v == 62
    then b'-'
    else b'_'

-- The 6-bit value of a character.
dec_char : ℕ → Option ℕ
dec_char c =
    if leb b'A' c && leb c b'Z'
    then some (c - b'A')
    else if leb b'a' c && leb c b'z'
    then some (c - b'a' + 26)
    else if leb b'0' c && leb c b'9'
    then some (c - b'0' + 52)
    else if c == b'-'
    then some 62
    else if c == b'_'
    then some 63
    else none

unfoldable pub encode : Str → Str
unfolding enc_char
encode [] = []
encode (a ∷ []) = enc_char (a / 4) ∷ enc_char (a % 4 * 16) ∷ []
encode (a ∷ b ∷ []) = enc_char (a / 4) ∷ enc_char (a % 4 * 16 + b / 16) ∷ enc_char (b % 16 * 4) ∷ []
encode (a ∷ b ∷ c ∷ s) =
    enc_char (a / 4)
    ∷ enc_char (a % 4 * 16 + b / 16)
    ∷ enc_char (b % 16 * 4 + c / 64)
    ∷ enc_char (c % 64)
    ∷ encode s

-- The values of the characters, line breaks skipped.
dec_chars : Str → Option (List ℕ)
unfolding dec_char
dec_chars [] = some []
dec_chars (c ∷ s) =
    let rest = dec_chars s in
    if c == 10 || c == 13 then rest else do v ← dec_char c; vs ← rest; some (v ∷ vs)

-- Four values are three bytes; two or three left over are one or two bytes; one is an error.
join : List ℕ → Option Str
join [] = some []
join (u ∷ []) = none
join (u ∷ v ∷ []) = some ((u * 4 + v / 16) ∷ [])
join (u ∷ v ∷ w ∷ []) = some ((u * 4 + v / 16) ∷ (v % 16 * 16 + w / 4) ∷ [])
join (u ∷ v ∷ w ∷ x ∷ vs) = do
  s ← join vs
  some ((u * 4 + v / 16) ∷ (v % 16 * 16 + w / 4) ∷ (w % 4 * 64 + x) ∷ s)

unfoldable pub decode : Str → Option Str
unfolding dec_chars join
decode s = do vs ← dec_chars s; join vs
