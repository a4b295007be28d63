-- ===== src/Server/Routes/Paths.antt =====
-- The paths of the gateway's URLs, part by part.
use activity_pub_gw.Base.{
  ℕ, ◌≡◌, ◌≢◌, All, ap, ◌∙◌, false, List, [], ◌∷◌, ◌++◌, arith, inl, inr, Bool-cases,
}
use activity_pub_gw.Text.{Str, codes, eqb, split_byte}
use activity_pub_gw.Text.Laws.{Free, eqb_sound, split-Free, split_last}
use activity_pub_gw.Base64.Safe.{IsSafe, encode-IsSafe, encode-ne}
use activity_pub_gw.Notes.{encode_media_ref}

-- A byte that stands for itself in the path of a URL, and one part of a path: it is not empty and is
-- no dots, which a path is cleaned of.
abbrev pub IsPlain : ℕ → Type 0
IsPlain a = (a ≢ b'?') × (a ≢ b'#') × (a ≢ b'%')

abbrev pub IsPart : Str → Type 0
IsPart s = (s ≢ []) × (s ≢ codes ".") × (s ≢ codes "..") × All IsPlain s

-- A path that a URL may end in as it is, and that the mux leaves alone.
pub record IsPath (path : Str) : Type 0 where
  pub parts : List Str
  pub splits : split_byte b'/' path ≡ [] ∷ parts
  pub plain : All IsPart parts

pub not_empty : (s : Str) → s ≢ [] → eqb s [] ≡ false
not_empty s ne = elim (Bool-cases (eqb s [])) [ inl e ↦ absurd (ne (eqb_sound s [] e)) | inr e ↦ e ]

-- Constant parts.
pub plain_inbox : IsPart (codes "inbox")
plain_inbox = (λ e. cc, λ e. cc, λ e. cc, omega arith)

pub plain_outbox : IsPart (codes "outbox")
plain_outbox = (λ e. cc, λ e. cc, λ e. cc, omega arith)

pub plain_followers : IsPart (codes "followers")
plain_followers = (λ e. cc, λ e. cc, λ e. cc, omega arith)

pub plain_following : IsPart (codes "following")
plain_following = (λ e. cc, λ e. cc, λ e. cc, omega arith)

pub plain_statuses : IsPart (codes "statuses")
plain_statuses = (λ e. cc, λ e. cc, λ e. cc, omega arith)

pub plain_users : IsPart (codes "users")
plain_users = (λ e. cc, λ e. cc, λ e. cc, omega arith)

pub plain_media : IsPart (codes "media")
plain_media = (λ e. cc, λ e. cc, λ e. cc, omega arith)

pub plain_actor : IsPart (codes "actor")
plain_actor = (λ e. cc, λ e. cc, λ e. cc, omega arith)

safe-Free : (s : Str) → All IsSafe s → Free b'/' s
safe-Free [] h = tt
safe-Free (a ∷ s) ((no_slash, _, _, _, _), hs) = (no_slash, safe-Free s hs)

safe-IsPlain : (s : Str) → All IsSafe s → All IsPlain s
safe-IsPlain [] h = tt
safe-IsPlain (a ∷ s) ((_, no_query, no_fragment, no_escape, _), hs) =
    ((no_query, no_fragment, no_escape), safe-IsPlain s hs)

safe_dot : (s t : Str) → All IsSafe s → s ≢ b'.' ∷ t
safe_dot [] t h e = cc
safe_dot (a ∷ s) t ((_, _, _, _, no_dot), hs) e = absurd (no_dot cc)

safe_part : (s : Str) → s ≢ [] → All IsSafe s → IsPart s
safe_part s ne h = (ne, safe_dot s [] h, safe_dot s (codes ".") h, safe-IsPlain s h)

media_ref_ne : (user key : Str) → encode_media_ref user key ≢ []
unfolding encode_media_ref
media_ref_ne [] key = encode-ne _ _
media_ref_ne (a ∷ user) key = encode-ne _ _

media_ref-IsSafe : (user key : Str) → All IsSafe (encode_media_ref user key)
unfolding encode_media_ref
media_ref-IsSafe user key = encode-IsSafe _

-- The parts of a path whose first part is given.
pub below_root :
    (first : Str)
    → Free b'/' first
    → (rest : Str) (parts : List Str) → split_byte b'/' rest ≡ parts
    → split_byte b'/' (b'/' ∷ (first ++ (b'/' ∷ rest))) ≡ [] ∷ first ∷ parts
below_root first free rest parts splits =
    split-Free b'/' [] (first ++ (b'/' ∷ rest)) tt
    ∙ ap (λ ps. [] ∷ ps) (split-Free b'/' first rest free ∙ ap (λ ps. first ∷ ps) splits)

pub media-IsPath : (user key : Str) → IsPath (codes "/media/" ++ encode_media_ref user key)
unfolding split_byte
media-IsPath user key =
    let ref = encode_media_ref user key in
    let safe = media_ref-IsSafe user key in
    record {
      parts = codes "media" ∷ ref ∷ [];
      splits =
          below_root (codes "media") (omega arith) ref _ (split_last b'/' ref (safe-Free ref safe));
      plain = (plain_media, (safe_part ref (media_ref_ne user key) safe, tt));
    }
