-- ===== src/Json.antt =====
-- Decoded JSON documents (`map[string]any` and `any`) and the accessors of inbox.go and
-- mastodon-map.go that read them loosely.
use activity_pub_gw.Base.{
  ◌≡◌, ◌≢◌, refl, Bool, true, false, List, [], ◌∷◌, Option, none, some, ◌||◌, if◌then◌else◌,
}
use activity_pub_gw.Text.{Str, codes, eqb}

-- What encoding/json decodes into `any`. A number keeps the text of its literal. The keys of an
-- object are distinct after decoding, so the first one found is the one.
mutual
  pub data Json : Type 0 where
    null : Json
    bool : Bool → Json
    num : Str → Json
    str : Str → Json
    arr : Items → Json
    obj : Fields → Json

  pub data Items : Type 0 where
    nil : Items
    cons : Json → Items → Items

  pub data Fields : Type 0 where
    end : Fields
    field : Str → Json → Fields → Fields

-- `m[key]`: the nil interface when the key is missing.
unfoldable pub get : Fields → Str → Json
get end key = null
get (field k v fs) key = if eqb k key then v else get fs key

-- `_, ok := m[key]`.
unfoldable pub has_key : Fields → Str → Bool
has_key end key = false
has_key (field k v fs) key = eqb k key || has_key fs key

-- `_, ok := m[key]`.
unfoldable pub has : Fields → Str → Bool
has end key = false
has (field k v fs) key = if eqb k key then true else has fs key

abbrev pub elems : Items → List Json
elems nil = []
elems (cons v vs) = v ∷ elems vs

-- `s, _ := v.(string)`.
unfoldable pub string_or_empty : Json → Str
string_or_empty (str s) = s
string_or_empty _ = []

-- asString: a string, or the "id" of an object.
unfoldable pub as_string : Json → Str
unfolding string_or_empty
as_string (str s) = s
as_string (obj m) = string_or_empty (get m (codes "id"))
as_string _ = []

-- asMap: none for the nil map.
unfoldable pub as_map : Json → Option Fields
as_map (obj m) = some m
as_map _ = none

-- asSlice.
unfoldable pub as_slice : Json → List Json
as_slice (arr vs) = elems vs
as_slice _ = []

-- The switch of stringField: a string, or the "id" of an object.
field_text : Json → Str
field_text (str s) = s
field_text (obj v) = string_or_empty (get v (codes "id"))
field_text _ = []

-- stringField.
unfoldable pub string_field : Fields → Str → Str
unfolding field_text string_or_empty
string_field m key = field_text (get m key)

plain_text : (v : Json) → string_or_empty v ≢ [] → field_text v ≡ string_or_empty v
unfolding string_or_empty field_text
plain_text (str s) h = refl
plain_text _ h = absurd (h refl)

-- Where the strict reader of a string finds one, the loose reader finds the same.
pub string_field_plain :
    (m : Fields) (key : Str)
    → string_or_empty (get m key) ≢ []
    → string_field m key ≡ string_or_empty (get m key)
unfolding string_field
string_field_plain m key h = plain_text (get m key) h

-- `v == name` for an interface value and a string constant.
unfoldable pub is_text : Json → Str → Bool
is_text (str s) name = eqb s name
is_text _ name = false

-- `m[key]` on a map that may be nil.
unfoldable pub get_in : Option Fields → Str → Json
get_in none key = null
get_in (some m) key = get m key
