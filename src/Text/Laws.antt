-- ===== src/Text/Laws.antt =====
-- Laws of the string operations: equality, prefixes, cuts.
use activity_pub_gw.Base.{
  is_some, All, ℕ, ◌≢◌, Option, none, inl, inr, Option-cases, ◌∙◌, ◌≡◌, refl, ◌↔◌, true, [], ◌∷◌,
  ◌++◌, some, arith, Bool, false, List, ◌==◌, if◌then◌else◌,
}
use activity_pub_gw.Text.{
  before, cut, split_byte, until_byte, contains, has_prefix, Str, eqb, cut_prefix,
}

pub eqb_refl : (s : Str) → eqb s s ≡ true
unfolding eqb
eqb_refl [] = refl
eqb_refl (a ∷ s) = ground (arith, eqb_refl s)

pub eqb_sound : (s t : Str) → eqb s t ≡ true → s ≡ t
unfolding eqb
eqb_sound [] [] h = refl
eqb_sound [] (_ ∷ _) h = cc
eqb_sound (_ ∷ _) [] h = cc
eqb_sound (a ∷ s) (b ∷ t) h = ground (arith, eqb_sound s t)

-- The test decides equality.
pub eqb_iff : (s t : Str) → (eqb s t ≡ true) ↔ (s ≡ t)
eqb_iff s t = (eqb_sound s t, λ e. cc (eqb_refl t, e))

pub cut_prefix-append : (p s : Str) → cut_prefix (p ++ s) p ≡ some s
unfolding cut_prefix
cut_prefix-append [] [] = refl
cut_prefix-append [] (a ∷ s) = refl
cut_prefix-append (a ∷ p) s = ground (arith, cut_prefix-append p s)

pub has_prefix-append : (p s : Str) → has_prefix (p ++ s) p ≡ true
unfolding has_prefix
has_prefix-append p s = rw (cut_prefix-append p s)

pub cut_prefix_sound : (s p r : Str) → cut_prefix s p ≡ some r → s ≡ p ++ r
unfolding cut_prefix
cut_prefix_sound [] [] r h = ground arith
cut_prefix_sound (a ∷ s) [] r h = ground arith
cut_prefix_sound [] (b ∷ p) r h = cc
cut_prefix_sound (a ∷ s) (b ∷ p) r h = ground (arith, cut_prefix_sound s p r)

-- A text without a byte.
abbrev pub Free : ℕ → Str → Type 0
Free c = All (λ a. a ≢ c)

pub until_byte-Free : (c : ℕ) (s : Str) → Free c s → until_byte c s ≡ s
unfolding until_byte
until_byte-Free c [] h = refl
until_byte-Free c (a ∷ s) (ha, hs) = ground (arith, until_byte-Free c s hs)

pub until_byte-append : (c : ℕ) (s t : Str) → Free c s → until_byte c (s ++ t) ≡ s ++ until_byte c t
unfolding until_byte
until_byte-append c [] t h = refl
until_byte-append c (a ∷ s) t (ha, hs) = ground (arith, until_byte-append c s t hs)

pub until_byte_stop : (c : ℕ) (s t : Str) → Free c s → until_byte c (s ++ c ∷ t) ≡ s
unfolding until_byte
until_byte_stop c [] t h = ground arith
until_byte_stop c (a ∷ s) t (ha, hs) = ground (arith, until_byte_stop c s t hs)

pub cut_prefix-ne : (a c : ℕ) (s p : Str) → a ≢ c → cut_prefix (a ∷ s) (c ∷ p) ≡ none
unfolding cut_prefix
cut_prefix-ne a c s p h = ground arith

-- A separator that begins with a byte absent from the text in front is found at once.
pub cut_at :
    (s : Str) (c : ℕ) (sep t : Str) → Free c s → cut (s ++ c ∷ (sep ++ t)) (c ∷ sep) ≡ some (s, t)
unfolding cut
cut_at [] c sep t h = rw (cut_prefix-append (c ∷ sep) t, cut)
cut_at (a ∷ s) c sep t (ha, hs) =
    rw (cut_prefix-ne a c (s ++ c ∷ (sep ++ t)) sep ha, cut) (rw (cut_at s c sep t hs))

is_some-before : (a : ℕ) (o : Option (Str × Str)) → is_some (before a o) ≡ is_some o
is_some-before a none = refl
is_some-before a (some (l, r)) = refl

-- A text that holds a separator still does with one more byte in front.
pub contains-cons : (a : ℕ) (s sep : Str) → contains s sep ≡ true → contains (a ∷ s) sep ≡ true
unfolding contains
contains-cons a s sep h = elim (Option-cases (cut_prefix (a ∷ s) sep)) [
  | inl e ↦ rw (e, cut) (is_some-before a (cut s sep) ∙ h)
  | inr (t, e) ↦ rw (e, cut)
]

pub contains-append_right : (s t : Str) (c : ℕ) → contains (s ++ c ∷ t) (c ∷ []) ≡ true
contains-append_right [] t c = unfold contains cut in rw (cut_prefix-append (c ∷ []) t, cut)
contains-append_right (a ∷ s) t c =
    contains-cons a (s ++ c ∷ t) (c ∷ []) (contains-append_right s t c)

split_head :
    (b : Bool) (a : ℕ) (p : Str) (ps : List Str)
    → (q : Str) × (qs : List Str) × ((if b then [] ∷ p ∷ ps else (a ∷ p) ∷ ps) ≡ q ∷ qs)
split_head true a p ps = ([], p ∷ ps, refl)
split_head false a p ps = (a ∷ p, ps, refl)

split_cons : (c : ℕ) (s : Str) → (p : Str) × (ps : List Str) × (split_byte c s ≡ p ∷ ps)
unfolding split_byte
split_cons c [] = ([], [], refl)
split_cons c (a ∷ s) = let (p, ps, e) = split_cons c s in rw e (split_head (a == c) a p ps)

pub split-Free : (c : ℕ) (s t : Str) → Free c s → split_byte c (s ++ (c ∷ t)) ≡ s ∷ split_byte c t
unfolding split_byte
split-Free c [] t h = let (p, ps, e) = split_cons c t in ground (arith, e)
split-Free c (a ∷ s) t (ne, hs) = ground (arith, split-Free c s t hs)

pub split_last : (c : ℕ) (s : Str) → Free c s → split_byte c s ≡ s ∷ []
unfolding split_byte
split_last c [] h = refl
split_last c (a ∷ s) (ne, hs) = ground (arith, split_last c s hs)
