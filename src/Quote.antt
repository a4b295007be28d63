-- ===== src/Quote.antt =====
-- mastodon-map.go: the text conventions of quote posts and replies, and the quote properties.
use activity_pub_gw.Base.{
  ℕ, Bool, true, List, [], ◌∷◌, Option, none, some, ◌&&◌, ◌||◌, ◌==◌, not, if◌then◌else◌, leb,
  is_some, ltb, length, take, drop,
}
use activity_pub_gw.Text.{Str, codes, eqb, has_prefix, last_cut}
use activity_pub_gw.Json.{Fields, get, as_string, as_map, get_in}
use activity_pub_gw.Url.{Lib}

-- unicode.IsSpace of a single byte taken as a rune.
unfoldable pub is_space_byte : ℕ → Bool
is_space_byte c = (leb 9 c && leb c 13) || c == 32 || c == 0x85 || c == 0xa0

-- The last byte of a text is a space; true of the empty text.
ends_in_space : Str → Bool
ends_in_space [] = true
ends_in_space (a ∷ []) = is_space_byte a
ends_in_space (a ∷ b ∷ s) = ends_in_space (b ∷ s)

module _ (lib : Lib) where
  open lib.runes use {trim_space, equal_fold, cut_space}

  -- htmlToText.
  unfoldable pub html_to_text : Str → Str
  html_to_text html = trim_space (lib.strip_tags (lib.break_lines html))

  -- splitREQuote: the quoted URL behind the last "RE: ", and the comment in front of it.
  unfoldable pub split_re_quote : Str → Option (Str × Str)
  unfolding ends_in_space
  split_re_quote text = elim (last_cut (trim_space text) (codes "RE: https://")) [
    | none ↦ none
    | some (front, match) ↦
        let quoted = drop 4 match in
        if not (ends_in_space front) || is_some (cut_space quoted)
        then none
        else some (quoted, trim_space front)
  ]

  -- splitREPrefix: the URL behind a leading "RE:", and the text behind the URL.
  unfoldable pub split_re_prefix : Str → Option (Str × Str)
  split_re_prefix text =
      let trimmed = trim_space text in
      let behind = trim_space (drop 3 trimmed) in
      let parts : Str × Str = elim (cut_space behind) [
        | none ↦ (behind, [])
        | some (url, rest) ↦ (url, trim_space rest)
      ] in
      if ltb (length trimmed) 3 || not (equal_fold (take 3 trimmed) (codes "re:"))
      then none
      else if has_prefix parts.0 (codes "https://")
      then some parts
      else none

  -- stripQuoteFallback; none is its ok = false, where the text is left alone.
  unfoldable pub strip_quote_fallback : Str → Option Str
  strip_quote_fallback text = elim (split_re_quote text) [
    | some (_, comment) ↦ some comment
    | none ↦ elim (split_re_prefix text) [ some (_, rest) ↦ some rest | none ↦ none ]
  ]

-- One key of quotedNoteURL.
quote_key : Fields → Str → Str
quote_key note k =
    let u = as_string (get note k) in
    if eqb u [] then as_string (get_in (as_map (get note k)) (codes "href")) else u

quote_keys : Fields → List Str → Str
quote_keys note [] = []
quote_keys note (k ∷ ks) =
    if has_prefix (quote_key note k) (codes "https://")
    then quote_key note k
    else quote_keys note ks

-- quotedNoteURL: the first quote property that is an https URL.
unfoldable pub quoted_note_url : Fields → Str
unfolding quote_keys quote_key
quoted_note_url note =
    quote_keys note
      (codes "quoteUri" ∷ codes "quoteUrl" ∷ codes "_misskey_quote" ∷ codes "quote" ∷ [])
