-- ===== src/Server/Plane/Priced.antt =====
-- The plane and the weight of each route below /users/, as the limiter reads them off the path.
use activity_pub_gw.Base.{
  ◌≢◌, ℕ, Bool-cases, ap, subst, ◌≡◌, refl, ◌∙◌, sym, Bool, true, false, List, [], ◌∷◌, ◌++◌,
  Option, none, some, inl, inr, ◌||◌, not, arith, if◌then◌else◌, ◌==◌,
}
use activity_pub_gw.Text.{
  Str, codes, eqb, cut_prefix, has_prefix, trim_prefix, after_byte, until_byte, split_byte,
}
use activity_pub_gw.Text.Laws.{eqb_sound}
use activity_pub_gw.RateLimit.Price.{
  is_control_plane-users, request_weight-users, is_control_plane, request_weight, path_users,
}
use activity_pub_gw.Server.{
  Served, not_found, actor, inbox, outbox, followers, following, replies, status, handle_users,
  serve_sub, serve_statuses, serve_parts,
}

-- The plane (true for the control plane) and the weight that a route is meant to have.
unfoldable pub plane_of : Served → Option (Bool × ℕ)
plane_of not_found = none
plane_of (actor _) = some (true, 2)
plane_of (inbox _) = some (true, 4)
plane_of (outbox _) = some (false, 4)
plane_of (followers _) = some (false, 4)
plane_of (following _) = some (false, 4)
plane_of (replies _ _) = some (false, 4)
plane_of (status _ _) = some (false, 4)

split-after :
    (c : ℕ) (s : Str)
    → split_byte c s
      ≡ until_byte c s ∷ (elim (after_byte c s) [ none ↦ [] | some t ↦ split_byte c t ])
unfolding split_byte until_byte after_byte
split-after c [] = refl
split-after c (a ∷ s) = ground (arith, split-after c s)

trim-users : (rest : Str) → trim_prefix (path_users ++ rest) path_users ≡ rest
unfolding trim_prefix cut_prefix
trim-users rest = refl

until_tail : (c : ℕ) (s : Str) → (t : Str) × (s ≡ until_byte c s ++ t)
unfolding until_byte
until_tail c [] = ([], refl)
until_tail c (a ∷ s) = elim (Bool-cases (a == c)) [
  | inl e ↦ (a ∷ s, rw e refl)
  | inr e ↦ let (t, p) = until_tail c s in (t, rw e (ap (λ r. a ∷ r) p))
]

-- The plane and the weight of a path /users/{user}/ ++ sub.
sub_plane : Str → Bool × ℕ
sub_plane sub = (
  eqb sub [] || has_prefix sub (codes "inbox"),
  if eqb sub [] then 2 else if has_prefix sub (codes "inbox") then 4 else 4,
)

some_inj : {A : Type 0} {a b : A} → some a ≡ some b → a ≡ b
some_inj h = cc

plane-statuses :
    (user : Str) (more : List Str) (r : Bool × ℕ)
    → plane_of (serve_statuses user more) ≡ some r
    → ◌≡◌ {A = Bool × ℕ} (false, 4) r
unfolding plane_of serve_statuses
plane-statuses user [] r h = cc
plane-statuses user (id ∷ []) r h = ground arith
plane-statuses user (id ∷ sub ∷ _) r h = ground arith

module _ (user : Str) (more : List Str) (t : Str) (r : Bool × ℕ) where
  at_word :
      (w c : Str)
      → (plane_of (serve_sub user c more) ≡ some r → sub_plane (c ++ t) ≡ r)
      → eqb w c ≡ true
      → plane_of (serve_sub user w more) ≡ some r
      → sub_plane (w ++ t) ≡ r
  at_word w c known e =
      subst (λ w. plane_of (serve_sub user w more) ≡ some r → sub_plane (w ++ t) ≡ r)
        (sym (eqb_sound w c e)) known

  plane-sub :
      (w : Str)
      → (w ≡ [] → t ≡ [])
      → plane_of (serve_sub user w more) ≡ some r
      → sub_plane (w ++ t) ≡ r
  unfolding plane_of serve_sub sub_plane eqb has_prefix cut_prefix
  plane-sub w clean h = elim (Bool-cases (eqb w [])) [
    | inl e ↦ at_word w [] (λ k. rw (clean (eqb_sound w [] e)) (some_inj k)) e h
    | inr n0 ↦ elim (Bool-cases (eqb w (codes "inbox"))) [
      | inl e ↦ at_word w (codes "inbox") (λ k. some_inj k) e h
      | inr n1 ↦ elim (Bool-cases (eqb w (codes "outbox"))) [
        | inl e ↦ at_word w (codes "outbox") (λ k. some_inj k) e h
        | inr n2 ↦ elim (Bool-cases (eqb w (codes "followers"))) [
          | inl e ↦ at_word w (codes "followers") (λ k. some_inj k) e h
          | inr n3 ↦ elim (Bool-cases (eqb w (codes "following"))) [
            | inl e ↦ at_word w (codes "following") (λ k. some_inj k) e h
            | inr n4 ↦ elim (Bool-cases (eqb w (codes "statuses"))) [
              | inl e ↦ at_word w (codes "statuses") (plane-statuses user more r) e h
              | inr n5 ↦ ground arith
            ]
          ]
        ]
      ]
    ]
  ]

-- The path has no empty part before its end, as the paths that ServeMux passes on.
unfoldable pub is_clean : Str → Bool
is_clean rest = elim (after_byte b'/' rest) [
  | none ↦ true
  | some sub ↦ eqb sub [] || not (eqb (until_byte b'/' sub) [])
]

-- The plane and the weight, by what follows the user.
tail_plane : Option Str → Bool × ℕ
tail_plane none = (true, 2)
tail_plane (some sub) = sub_plane sub

tails :
    (o : Option Str)
    → ◌≡◌ {A = Bool × ℕ}
        (
          elim o [ none ↦ true | some sub ↦ eqb sub [] || has_prefix sub (codes "inbox") ],
          elim o [
            | none ↦ 2
            | some sub ↦ if eqb sub [] then 2 else if has_prefix sub (codes "inbox") then 4 else 4
          ],
        )
        (tail_plane o)
unfolding tail_plane sub_plane
tails none = refl
tails (some sub) = refl

price_tail :
    (rest : Str)
    → ◌≡◌ {A = Bool × ℕ}
        (is_control_plane (path_users ++ rest), request_weight (path_users ++ rest))
        (tail_plane (after_byte b'/' rest))
unfolding tail_plane sub_plane
price_tail rest =
    rw (is_control_plane-users rest, request_weight-users rest) (tails (after_byte b'/' rest))

clean_tail :
    (sub t : Str)
    → sub ≡ until_byte b'/' sub ++ t
    → (eqb sub [] || not (eqb (until_byte b'/' sub) [])) ≡ true
    → until_byte b'/' sub ≡ []
    → t ≡ []
unfolding eqb until_byte
clean_tail [] [] split clean none_before = refl
clean_tail [] (a ∷ t) split clean none_before = cc
clean_tail (a ∷ sub) t split clean none_before = grind arith

serve_found :
    (is_user : Str → Bool) (user w : Str) (more : List Str) (r : Bool × ℕ)
    → is_user user ≡ true
    → plane_of (serve_parts is_user (user ∷ w ∷ more)) ≡ some r
    → plane_of (serve_sub user w more) ≡ some r
unfolding serve_parts
serve_found is_user user w more r found h = ground arith

serve_lost :
    (is_user : Str → Bool) (user : Str) (ps : List Str) (r : Bool × ℕ)
    → is_user user ≡ false
    → plane_of (serve_parts is_user (user ∷ ps)) ≢ some r
unfolding serve_parts plane_of
serve_lost is_user user [] r lost h = ground arith
serve_lost is_user user (w ∷ more) r lost h = ground arith

served_tail :
    (is_user : Str → Bool) (user : Str) (o : Option Str) (r : Bool × ℕ)
    → (elim o [ none ↦ true | some sub ↦ eqb sub [] || not (eqb (until_byte b'/' sub) []) ]) ≡ true
    → plane_of (serve_parts is_user (user ∷ (elim o [ none ↦ [] | some t ↦ split_byte b'/' t ])))
      ≡ some r
    → tail_plane o ≡ r
unfolding tail_plane serve_parts plane_of
served_tail is_user user none r clean h = ground arith
served_tail is_user user (some sub) r clean h =
    let w = until_byte b'/' sub in
    let (t, split) = until_tail b'/' sub in
    elim (Bool-cases (is_user user)) [
      | inl found ↦
          subst (λ s. sub_plane s ≡ r) (sym split)
            (plane-sub user _ t r w (clean_tail sub t split clean) (
              serve_found is_user user w _ r found (
                subst (λ ps. plane_of (serve_parts is_user (user ∷ ps)) ≡ some r)
                  (split-after b'/' sub) h)))
      | inr lost ↦ absurd (serve_lost is_user user (split_byte b'/' sub) r lost h)
    ]

pub priced :
    (is_user : Str → Bool) (rest : Str) (r : Bool × ℕ)
    → is_clean rest ≡ true
    → plane_of (handle_users is_user (path_users ++ rest)) ≡ some r
    → ◌≡◌ {A = Bool × ℕ}
        (is_control_plane (path_users ++ rest), request_weight (path_users ++ rest))
        r
unfolding is_clean handle_users
priced is_user rest r clean h =
    price_tail rest
    ∙ served_tail is_user (until_byte b'/' rest) (after_byte b'/' rest) r clean (
        subst (λ ps. plane_of (serve_parts is_user ps) ≡ some r) (split-after b'/' rest)
          (subst (λ s. plane_of (serve_parts is_user (split_byte b'/' s)) ≡ some r)
            (trim-users rest) h))
