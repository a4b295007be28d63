-- ===== src/MastodonMap/Threading.antt =====
-- noteToTweet: the thread that a note is put into.
use activity_pub_gw.Base.{
  ◌≢◌, ℕ, ◌≡◌, refl, ◌∙◌, ◌⊎◌, inl, inr, Bool, true, false, [], ◌∷◌, Option, none, some, ◌||◌,
  subst, sym, if◌then◌else◌,
}
use activity_pub_gw.Text.{Str, codes, eqb}
use activity_pub_gw.Json.{Fields, get, as_string}
use activity_pub_gw.Url.{Lib}
use activity_pub_gw.Wire.{Tweet, zero_tweet}
use activity_pub_gw.Quote.{strip_quote_fallback, split_re_quote, split_re_prefix, quoted_note_url}
use activity_pub_gw.MastodonMap.{
  Reader, mastodon_network, reply_of, set_quoted, quote_by_property, reply_by_prefix,
  reply_if_top_level, quote_by_text, with_quote, note_base, note_to_tweet,
}

-- A tweet of the network "mastodon" that is its own root, or a reply whose root is its parent.
pub record IsBridged (id : Str) (t : Tweet) : Type 0 where
  pub same_id : t.id ≡ id
  pub tagged : t.network ≡ mastodon_network
  pub one_author : t.username ≡ t.user_id
  pub threaded : ((t.parent_id ≡ none) × (t.root_id ≡ id)) ⊎ (t.parent_id ≡ some t.root_id)

module _ (lib : Lib) (id : Str) where
  reply_of-IsBridged :
      (parent : Str) (t : Tweet) → IsBridged id t → IsBridged id (reply_of parent t)
  unfolding reply_of
  reply_of-IsBridged parent t b = record {
    same_id = b.same_id;
    tagged = b.tagged;
    one_author = b.one_author;
    threaded = inr refl;
  }

  -- A change that leaves the thread alone.
  kept-IsBridged :
      (t u : Tweet)
      → (u.id ≡ t.id)
        × (u.network ≡ t.network)
        × (u.username ≡ t.username)
        × (u.user_id ≡ t.user_id)
        × (u.parent_id ≡ t.parent_id)
        × (u.root_id ≡ t.root_id)
      → IsBridged id t
      → IsBridged id u
  kept-IsBridged t u (a, n, w, v, p, r) b = record {
    same_id = a ∙ b.same_id;
    tagged = n ∙ b.tagged;
    one_author = w ∙ (b.one_author ∙ sym v);
    threaded = rw (p, r) b.threaded;
  }

  if-IsBridged :
      (c : Bool) (t u : Tweet) → IsBridged id t → IsBridged id u → IsBridged id (if c then t else u)
  if-IsBridged true t u ht hu = ht
  if-IsBridged false t u ht hu = hu

  set_quoted-IsBridged :
      (url : Str) (t : Tweet) → IsBridged id t → IsBridged id (set_quoted lib url t)
  unfolding set_quoted
  set_quoted-IsBridged url t =
      kept-IsBridged t (set_quoted lib url t) (refl, refl, refl, refl, refl, refl)

  text-IsBridged :
      (text : Str) (t : Tweet) → IsBridged id t → IsBridged id (record t { text = text })
  text-IsBridged text t =
      kept-IsBridged t (record t { text = text }) (refl, refl, refl, refl, refl, refl)

  quote_by_property-IsBridged :
      (url : Str) (o : Option Str) (t : Tweet)
      → IsBridged id t
      → IsBridged id (quote_by_property lib url o t)
  unfolding quote_by_property
  quote_by_property-IsBridged url none t b = set_quoted-IsBridged url t b
  quote_by_property-IsBridged url (some comment) t b =
      if-IsBridged (eqb comment []) _ _ (set_quoted-IsBridged url t b)
        (text-IsBridged comment (set_quoted lib url t) (set_quoted-IsBridged url t b))

  reply_by_prefix-IsBridged :
      (o : Option (Str × Str)) (t : Tweet) → IsBridged id t → IsBridged id (reply_by_prefix lib o t)
  unfolding reply_by_prefix
  reply_by_prefix-IsBridged none t b = b
  reply_by_prefix-IsBridged (some (parent, rest)) t b =
      text-IsBridged (if eqb rest [] then t.text else rest) (reply_of parent t)
        (reply_of-IsBridged parent t b)

  top_level-IsBridged :
      (o : Option Str) (t : Tweet) → IsBridged id t → IsBridged id (reply_if_top_level lib o t)
  unfolding reply_if_top_level
  top_level-IsBridged none t b = reply_by_prefix-IsBridged (split_re_prefix lib t.text) t b
  top_level-IsBridged (some _) t b = b

  quote_by_text-IsBridged :
      (o : Option (Str × Str)) (t : Tweet) → IsBridged id t → IsBridged id (quote_by_text lib o t)
  unfolding quote_by_text
  quote_by_text-IsBridged none t b = top_level-IsBridged t.parent_id t b
  quote_by_text-IsBridged (some (url, comment)) t b =
      if-IsBridged (eqb comment []) _ _ (top_level-IsBridged t.parent_id t b)
        (text-IsBridged comment (set_quoted lib url t) (set_quoted-IsBridged url t b))

  with_quote-IsBridged :
      (url : Str) (t : Tweet) → IsBridged id t → IsBridged id (with_quote lib url t)
  unfolding with_quote
  with_quote-IsBridged url t b =
      if-IsBridged (eqb url []) _ _ (quote_by_text-IsBridged (split_re_quote lib t.text) t b)
        (quote_by_property-IsBridged url (strip_quote_fallback lib t.text) t b)

unless_sound :
    (c d : Bool) (x t : Tweet) → (if c || d then none else some x) ≡ some t → (d ≡ false) × (x ≡ t)
unless_sound true d x t e = cc
unless_sound false true x t e = cc
unless_sound false false x t e = (refl, cc)

named_id : (id : Str) → eqb id [] ≡ false → id ≢ []
unfolding eqb
named_id [] e = cc
named_id (a ∷ s) e = λ empty. cc

module _ (lib : Lib) (reader : Reader) (now : ℕ) where
  note_base-IsBridged :
      (user id : Str) (note : Fields) → IsBridged id (note_base lib reader now user id note)
  unfolding note_base zero_tweet reply_of
  note_base-IsBridged user id note =
      if-IsBridged lib id (eqb (as_string (get note (codes "inReplyTo"))) []) _ _
        (record { same_id = refl; tagged = refl; one_author = refl; threaded = inl (refl, refl) })
        (record { same_id = refl; tagged = refl; one_author = refl; threaded = inr refl })

  -- A note becomes a tweet only if it has an id, which is the tweet's; the tweet has the network tag
  -- and one author, and it is either its own root without a parent, or its root is its parent.
  note_to_tweet-IsBridged :
      (author : Str) (note : Fields) (t : Tweet)
      → note_to_tweet lib reader now author note ≡ some t
      → (as_string (get note (codes "id")) ≢ []) × IsBridged (as_string (get note (codes "id"))) t
  unfolding note_to_tweet
  note_to_tweet-IsBridged author note t e =
      let (named, same) = unless_sound _ (eqb (as_string (get note (codes "id"))) []) _ t e in
      (
        named_id (as_string (get note (codes "id"))) named,
        subst (IsBridged (as_string (get note (codes "id")))) same (
            kept-IsBridged lib (as_string (get note (codes "id")))
              (with_quote lib (quoted_note_url note)
                (note_base lib reader now _ (as_string (get note (codes "id"))) note))
              _ (refl, refl, refl, refl, refl, refl)
              (with_quote-IsBridged lib _ (quoted_note_url note) _ (note_base-IsBridged _ _ note))),
      )
