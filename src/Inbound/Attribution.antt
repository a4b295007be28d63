-- ===== src/Inbound/Attribution.antt =====
-- Whom an inbound activity is attributed to, and what it is about: the actor of the activity, and a
-- user and status of this gateway.
use activity_pub_gw.Base.{
  ◌≢◌, All, List, ℕ, ◌≡◌, refl, Bool, true, false, [], ◌∷◌, Option, some, none, Bool-cases, inl,
  inr, ◌>>=◌, if◌then◌else◌, subst, if_both, ◌&&◌, not,
}
use activity_pub_gw.Text.{Str, codes, eqb}
use activity_pub_gw.Text.Laws.{eqb_iff}
use activity_pub_gw.Json.{Json, Fields, get, is_text, string_or_empty, string_field, as_map}
use activity_pub_gw.Url.{Lib}
use activity_pub_gw.Wire.{Route, post_retweet, post_tweet, Payload, zero_tweet}
use activity_pub_gw.Quote.{split_re_prefix, split_re_quote, quoted_note_url}
use activity_pub_gw.Actor.{parse_local_status, bridged_user_id, user_from_actor_url}
use activity_pub_gw.Inbound.Asked.{
  author_of, IsType, IsObject, note_text, Names, liked, boosted, answered, answered_in_text, quoted,
  quoted_in_text, unfollowed, unliked, unboosted, IsAsked,
}
use activity_pub_gw.Inbound.{
  translate_like, translate_announce, translate_create, translate_undo, translate_inbound, reply_to,
  quote_of, quote_url, undo_follow, undo_like, undo_announce, re_reply,
}

abbrev Holds : (Route × Payload → Type 0) → Option (Route × Payload) → Type 0
Holds P none = Unit
Holds P (some x) = P x

-- What every later step keeps, a chain of steps keeps.
Holds-bind :
    (P : Route × Payload → Type 0) {A : Type 0} (o : Option A) (k : A → Option (Route × Payload))
    → ((a : A) → o ≡ some a → Holds P (k a))
    → Holds P (o >>= k)
Holds-bind P none k h = tt
Holds-bind P (some a) k h = h a refl

Holds-if :
    (P : Route × Payload → Type 0) (b : Bool) (x y : Option (Route × Payload))
    → (b ≡ true → Holds P x)
    → Holds P y
    → Holds P (if b then x else y)
Holds-if P true x y hx hy = hx refl
Holds-if P false x y hx hy = hy

-- A switch on the type of an activity.
abbrev choose : Json → List (Str × Option (Route × Payload)) → Option (Route × Payload)
choose typ [] = none
choose typ ((name, o) ∷ os) = if is_text typ name then o else choose typ os

Holds-choose :
    (P : Route × Payload → Type 0) (typ : Json) (os : List (Str × Option (Route × Payload)))
    → All (λ c. is_text typ c.0 ≡ true → Holds P c.1) os
    → Holds P (choose typ os)
Holds-choose P typ [] h = tt
Holds-choose P typ ((name, o) ∷ os) (h, hs) =
    Holds-if P (is_text typ name) o (choose typ os) h (Holds-choose P typ os hs)

not_empty : (s : Str) → eqb s [] ≡ false → s ≢ []
not_empty s e h = cc ((eqb_iff s []).1 h)

module _ (host : Str) (lib : Lib) (now : ℕ) where
  -- The payload acts for the actor, on what the activity names.
  abbrev IsBy : Str → Fields → Route × Payload → Type 0
  IsBy actor raw (r, p) = (author_of p ≡ bridged_user_id lib actor) × IsAsked host lib raw r p

  like-IsBy :
      (actor : Str) (raw : Fields)
      → IsType raw (codes "Like")
      → Holds (IsBy actor raw) (translate_like host lib now actor raw)
  unfolding translate_like
  like-IsBy actor raw typ =
      Holds-bind (IsBy actor raw) (parse_local_status host (string_field raw (codes "object"))) _
        (λ s e. (refl, (_, liked typ, e)))

  announce-IsBy :
      (actor : Str) (raw : Fields)
      → IsType raw (codes "Announce")
      → Holds (IsBy actor raw) (translate_announce host lib now actor raw)
  unfolding translate_announce zero_tweet
  announce-IsBy actor raw typ =
      Holds-bind (IsBy actor raw) (parse_local_status host (string_field raw (codes "object"))) _
        (λ s e. (refl, (_, boosted typ, e)))

  reply-IsBy :
      (actor : Str) (raw obj : Fields) (text url : Str) (s : Str × Str)
      → Names lib raw post_tweet url
      → parse_local_status host url ≡ some s
      → IsBy actor raw (reply_to host lib now actor obj text s)
  unfolding reply_to zero_tweet
  reply-IsBy actor raw obj text url s named e = (refl, (url, named, e))

  quote-IsBy :
      (actor : Str) (raw : Fields) (text url : Str) (s : Str × Str)
      → Names lib raw post_retweet url
      → parse_local_status host url ≡ some s
      → IsBy actor raw (quote_of host lib now actor text s)
  unfolding quote_of zero_tweet
  quote-IsBy actor raw text url s named e = (refl, (url, named, e))

  split-Names :
      (raw obj : Fields) (o : Option (Str × Str))
      → IsType raw (codes "Create")
      → IsObject raw obj
      → split_re_quote lib (note_text lib obj) ≡ o
      → Names lib raw post_retweet (elim o [
        | none ↦ quoted_note_url obj
        | some (url, comment) ↦
            if eqb (quoted_note_url obj) [] && not (eqb comment [])
            then url
            else quoted_note_url obj
      ])
  split-Names raw obj none typ is e = quoted obj typ is
  split-Names raw obj (some (url, comment)) typ is e =
      if_both (Names lib raw post_retweet) (eqb (quoted_note_url obj) [] && not (eqb comment []))
        (quoted_in_text obj url comment typ is e) (quoted obj typ is)

  quote_url-Names :
      (raw obj : Fields)
      → IsType raw (codes "Create")
      → IsObject raw obj
      → Names lib raw post_retweet (quote_url host lib now obj (note_text lib obj))
  unfolding quote_url
  quote_url-Names raw obj typ is =
      split-Names raw obj (split_re_quote lib (note_text lib obj)) typ is refl

  module _ (actor : Str) (raw obj : Fields) (typ : IsType raw (codes "Create"))
      (is : IsObject raw obj) where
    re_reply-IsBy : Holds (IsBy actor raw) (re_reply host lib now actor obj (note_text lib obj))
    unfolding re_reply
    re_reply-IsBy =
        Holds-bind (IsBy actor raw) (split_re_prefix lib (note_text lib obj)) _ (λ split f.
          Holds-bind (IsBy actor raw) (parse_local_status host split.0) _ (λ s e.
            reply-IsBy actor raw obj _ split.0 s (answered_in_text obj split.0 split.1 typ is f) e))

    note-IsBy :
        (url quote : Str) (o q : Option (Str × Str))
        → Names lib raw post_tweet url
        → Names lib raw post_retweet quote
        → parse_local_status host url ≡ o
        → parse_local_status host quote ≡ q
        → Holds (IsBy actor raw) (elim o [
          | some status ↦ some (reply_to host lib now actor obj (note_text lib obj) status)
          | none ↦ elim q [
            | some status ↦ some (quote_of host lib now actor (note_text lib obj) status)
            | none ↦ re_reply host lib now actor obj (note_text lib obj)
          ]
        ])
    note-IsBy url quote (some s) q n m e f = reply-IsBy actor raw obj _ url s n e
    note-IsBy url quote none (some s) n m e f = quote-IsBy actor raw _ quote s m f
    note-IsBy url quote none none n m e f = re_reply-IsBy

  create-IsBy :
      (actor : Str) (raw : Fields)
      → IsType raw (codes "Create")
      → Holds (IsBy actor raw) (translate_create host lib now actor raw)
  unfolding translate_create
  create-IsBy actor raw typ =
      Holds-bind (IsBy actor raw) (as_map (get raw (codes "object"))) _ (λ obj is.
        note-IsBy actor raw obj typ is _ _ _ _ (answered obj typ is)
          (quote_url-Names raw obj typ is) refl refl)

  module _ (actor : Str) (raw obj : Fields) (typ : IsType raw (codes "Undo"))
      (is : IsObject raw obj) where
    undo_follow-IsBy :
        IsType obj (codes "Follow") → Holds (IsBy actor raw) (undo_follow host lib now actor obj)
    unfolding undo_follow
    undo_follow-IsBy of_follow =
        let owner = user_from_actor_url (string_field obj (codes "object")) in
        elim (Bool-cases (eqb owner [])) [
          | inl e ↦ rw e tt
          | inr e ↦ rw e (refl, (_, unfollowed obj typ is of_follow, (refl, not_empty owner e)))
        ]

    undo_like-IsBy :
        IsType obj (codes "Like") → Holds (IsBy actor raw) (undo_like host lib now actor obj)
    unfolding undo_like
    undo_like-IsBy of_like =
        Holds-bind (IsBy actor raw) (parse_local_status host (string_field obj (codes "object"))) _
          (λ s e. (refl, (_, unliked obj typ is of_like, e)))

    undo_announce-IsBy :
        IsType obj (codes "Announce")
        → Holds (IsBy actor raw) (undo_announce host lib now actor obj)
    unfolding undo_announce
    undo_announce-IsBy of_announce =
        Holds-bind (IsBy actor raw) (parse_local_status host (string_field obj (codes "object"))) _
          (λ s e. (refl, (_, unboosted obj typ is of_announce, (s.0, e))))

  undo-IsBy :
      (actor : Str) (raw : Fields)
      → IsType raw (codes "Undo")
      → Holds (IsBy actor raw) (translate_undo host lib now actor raw)
  unfolding translate_undo
  undo-IsBy actor raw typ =
      Holds-bind (IsBy actor raw) (as_map (get raw (codes "object"))) _ (λ obj is.
        Holds-choose (IsBy actor raw) (get obj (codes "type"))
          ((codes "Follow", undo_follow host lib now actor obj)
            ∷ (codes "Like", undo_like host lib now actor obj)
            ∷ (codes "Announce", undo_announce host lib now actor obj)
            ∷ [])
          (
            undo_follow-IsBy actor raw obj typ is,
            (undo_like-IsBy actor raw obj typ is, (undo_announce-IsBy actor raw obj typ is, tt)),
          ))

  translate-IsBy :
      (raw : Fields)
      → Holds
          (IsBy (string_or_empty (get raw (codes "actor"))) raw)
          (translate_inbound host lib now raw)
  unfolding translate_inbound
  translate-IsBy raw =
      let actor = string_or_empty (get raw (codes "actor")) in
      let P = IsBy actor raw in
      let translations : List (Str × Option (Route × Payload)) =
        (codes "Like", translate_like host lib now actor raw)
        ∷ (codes "Announce", translate_announce host lib now actor raw)
        ∷ (codes "Create", translate_create host lib now actor raw)
        ∷ (codes "Undo", translate_undo host lib now actor raw)
        ∷ [] in
      Holds-if P (eqb actor []) none (choose (get raw (codes "type")) translations) (λ _. tt)
        (Holds-choose P (get raw (codes "type")) translations (
          like-IsBy actor raw,
          (announce-IsBy actor raw, (create-IsBy actor raw, (undo-IsBy actor raw, tt))),
        ))

  -- Whatever an inbound activity makes a node do is done in the name of the activity's actor, and
  -- is about the URL that an activity of its type names: a Like, an Announce or an Undo of one, about
  -- the status of this gateway at the object; a Create, about the status of this gateway that its
  -- note answers or quotes; and an Undo of a Follow, about the user in the follow's object, whatever
  -- host that has.
  pub translate_inbound-IsBy :
      (raw : Fields) (r : Route) (p : Payload)
      → translate_inbound host lib now raw ≡ some (r, p)
      → (author_of p ≡ bridged_user_id lib (string_or_empty (get raw (codes "actor"))))
        × IsAsked host lib raw r p
  translate_inbound-IsBy raw r p e =
      subst (Holds (IsBy (string_or_empty (get raw (codes "actor"))) raw)) e (translate-IsBy raw)

  -- Only an activity that names its actor by a plain string is translated.
  pub translate_inbound-named :
      (raw : Fields) {x : Route × Payload}
      → translate_inbound host lib now raw ≡ some x
      → string_or_empty (get raw (codes "actor")) ≢ []
  unfolding translate_inbound
  translate_inbound-named raw e empty =
      cc (rw ((eqb_iff (string_or_empty (get raw (codes "actor"))) []).1 empty) at e)
