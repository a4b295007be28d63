-- ===== src/Text.antt =====
-- Go strings as lists of bytes, with the operations of package strings that the gateway uses.
pub mod Laws
use Prim.Native.Char.{code}
use Prim.Native.String.{String}
use activity_pub_gw.Base.{
  ℕ, Bool, true, false, List, [], ◌∷◌, Option, none, some, ◌&&◌, ◌==◌, if◌then◌else◌, is_some,
}
use mathlib.Core.Option

-- A Go string: its bytes.
abbrev pub Str : Type 0
Str = List ℕ

-- The bytes of an ASCII literal.
abbrev pub codes : String → Str
codes String.[] = []
codes (String.◌∷◌ c s) = code c ∷ codes s

-- `s == t`.
unfoldable pub eqb : Str → Str → Bool
eqb [] [] = true
eqb [] (_ ∷ _) = false
eqb (_ ∷ _) [] = false
eqb (a ∷ s) (b ∷ t) = a == b && eqb s t

-- strings.CutPrefix.
unfoldable pub cut_prefix : Str → Str → Option Str
cut_prefix s [] = some s
cut_prefix [] (_ ∷ _) = none
cut_prefix (a ∷ s) (b ∷ p) = if a == b then cut_prefix s p else none

-- strings.HasPrefix.
unfoldable pub has_prefix : Str → Str → Bool
unfolding cut_prefix
has_prefix s p = is_some (cut_prefix s p)

-- strings.TrimPrefix.
unfoldable pub trim_prefix : Str → Str → Str
unfolding cut_prefix
trim_prefix s p = elim (cut_prefix s p) [ none ↦ s | some r ↦ r ]

abbrev before : ℕ → Option (Str × Str) → Option (Str × Str)
before a none = none
before a (some (s, t)) = some (a ∷ s, t)

-- strings.Cut: the text before and after the first occurrence of the separator.
unfoldable pub cut : Str → Str → Option (Str × Str)
unfolding cut_prefix
cut [] sep = elim (cut_prefix [] sep) [ none ↦ none | some r ↦ some ([], r) ]
cut (a ∷ s) sep = elim (cut_prefix (a ∷ s) sep) [
  | none ↦ before a (cut s sep)
  | some r ↦ some ([], r)
]

-- strings.Contains.
unfoldable pub contains : Str → Str → Bool
unfolding cut
contains s sub = is_some (cut s sub)

-- strings.IndexByte and the slice before the index: the whole text when the byte is absent.
unfoldable pub until_byte : ℕ → Str → Str
until_byte c [] = []
until_byte c (a ∷ s) = if a == c then [] else a ∷ until_byte c s

-- strings.IndexByte and the slice behind the index.
unfoldable pub after_byte : ℕ → Str → Option Str
after_byte c [] = none
after_byte c (a ∷ s) = if a == c then some s else after_byte c s

-- slices.Contains on strings.
unfoldable pub elem : Str → List Str → Bool
unfolding eqb
elem s [] = false
elem s (t ∷ ts) = if eqb t s then true else elem s ts

-- strings.LastIndex: the text before the last occurrence, and the text from there on.
unfoldable pub last_cut : Str → Str → Option (Str × Str)
unfolding has_prefix
last_cut [] sep = none
last_cut (a ∷ s) sep = elim (last_cut s sep) [
  | none ↦ if has_prefix (a ∷ s) sep then some ([], a ∷ s) else none
  | some (p, r) ↦ some (a ∷ p, r)
]

-- strings.Split on a one-byte separator: always at least one part.
unfoldable pub split_byte : ℕ → Str → List Str
split_byte c [] = [] ∷ []
split_byte c (a ∷ s) = elim (split_byte c s) [
  | [] ↦ [] ∷ []
  | p ∷ ps ↦ if a == c then [] ∷ p ∷ ps else (a ∷ p) ∷ ps
]

-- The operations of package strings that decode runes; the model takes them as arguments.
pub record Runes : Type 0 where
  pub trim_space : Str → Str
  pub equal_fold : Str → Str → Bool
  pub to_lower : Str → Str
  pub fields : Str → List Str
  -- strings.IndexFunc with unicode.IsSpace: the text before the first space, and from there on.
  pub cut_space : Str → Option (Str × Str)

-- strings.LastIndexByte, and the slices before and behind the index.
unfoldable pub last_byte_cut : ℕ → Str → Option (Str × Str)
last_byte_cut c [] = none
last_byte_cut c (a ∷ s) = elim (last_byte_cut c s) [
  | some (l, r) ↦ some (a ∷ l, r)
  | none ↦ if a == c then some ([], s) else none
]

-- strings.TrimLeft with a cutset of one byte.
unfoldable pub trim_left : ℕ → Str → Str
trim_left c [] = []
trim_left c (a ∷ s) = if a == c then trim_left c s else a ∷ s

-- strings.TrimRight with a cutset of one byte.
unfoldable pub trim_right : ℕ → Str → Str
trim_right c [] = []
trim_right c (a ∷ s) = elim (trim_right c s) [
  | [] ↦ if a == c then [] else a ∷ []
  | b ∷ r ↦ a ∷ b ∷ r
]

-- strings.Trim with a cutset of one byte.
abbrev pub trim_byte : ℕ → Str → Str
trim_byte c s = trim_right c (trim_left c s)
