-- ===== src/LogRing/Refine.antt =====
-- log-buffer.go: the ring against a bounded queue of lines.
use activity_pub_gw.Base.{
  ℕ, zero, suc, ◌+◌, ◌-◌, ◌%◌, ◌≤◌, ◌<◌, ◌≡◌, refl, sym, ap, Bool, true, false, List, [], ◌∷◌, ◌++◌,
  ◌==◌, if◌then◌else◌, set, take, drop, length, length-append, length-drop, length-replicate,
  length-set, arith, append_assoc, append-nil, Bool-cases, inl, inr, ltb, ◌∙◌,
}
use activity_pub_gw.Text.{Str}
use activity_pub_gw.LogRing.{LogRing, new_log_ring, fire, lines, fire_all}

-- A queue of at most n lines: a full one drops its oldest.
abbrev pub push : ℕ → List Str → Str → List Str
push n ls l = if ltb (length ls) n then ls ++ l ∷ [] else drop 1 (ls ++ l ∷ [])

module _ {ℓ} {A : Type ℓ} where
  take_left : (xs ys : List A) → take (length xs) (xs ++ ys) ≡ xs
  take_left [] ys = refl
  take_left (x ∷ xs) ys = ap (λ t. x ∷ t) (take_left xs ys)

  drop_left : (xs ys : List A) → drop (length xs) (xs ++ ys) ≡ ys
  drop_left [] ys = refl
  drop_left (x ∷ xs) ys = drop_left xs ys

  set_left :
      (xs : List A) (y : A) (ys : List A) (v : A) → set (xs ++ y ∷ ys) (length xs) v ≡ xs ++ v ∷ ys
  set_left [] y ys v = refl
  set_left (x ∷ xs) y ys v = ap (λ t. x ∷ t) (set_left xs y ys v)

  -- A list is what stands before, at and behind a position.
  split_at :
      (xs : List A) (i : ℕ)
      → i < length xs
      → (a : List A) × (x : A) × (b : List A) × (xs ≡ a ++ x ∷ b) × (length a ≡ i)
  split_at [] i h = absurd (omega arith)
  split_at (x ∷ xs) zero h = ([], x, xs, refl, refl)
  split_at (x ∷ xs) (suc i) h =
      let (a, y, b, e, l) = split_at xs i (omega arith) in
      (x ∷ a, y, b, ap (λ t. x ∷ t) e, ap suc l)

-- The cursor stands in the buffer, which has its fixed size.
pub record IsValid (lr : LogRing) : Type 0 where
  pub length_buf : length lr.buf ≡ lr.size
  pub in_range : lr.next < lr.size

pub new_log_ring-IsValid : (n : ℕ) → 0 < n → IsValid (new_log_ring n)
unfolding new_log_ring
new_log_ring-IsValid n h = record { length_buf = length-replicate n []; in_range = h }

module _ {ℓ} {A : Type ℓ} where
  take_left_suc :
      (xs : List A) (y : A) (ys : List A) → take (suc (length xs)) (xs ++ y ∷ ys) ≡ xs ++ y ∷ []
  take_left_suc [] y ys = refl
  take_left_suc (x ∷ xs) y ys = ap (λ t. x ∷ t) (take_left_suc xs y ys)

  drop_left_suc : (xs : List A) (y : A) (ys : List A) → drop (suc (length xs)) (xs ++ y ∷ ys) ≡ ys
  drop_left_suc [] y ys = refl
  drop_left_suc (x ∷ xs) y ys = drop_left_suc xs y ys

-- The lines of a buffer that is cut at the cursor.
lines_split : List Str → Str → List Str → Bool → List Str
lines_split a x b full = if full then (x ∷ b) ++ a else a

lines_split_lem :
    (a : List Str) (x : Str) (b : List Str) (n : ℕ) (full : Bool)
    → lines (record { buf = a ++ x ∷ b; size = n; next = length a; full = full })
      ≡ lines_split a x b full
unfolding lines lines_split
lines_split_lem a x b n true = rw (drop_left a (x ∷ b), take_left a (x ∷ b))
lines_split_lem a x b n false = take_left a (x ∷ b)

-- One line written in the last cell: the cursor wraps and the ring is full.
fire_last :
    (a : List Str) (x l : Str) (n : ℕ) (full : Bool)
    → length a + 1 ≡ n
    → lines (fire (record { buf = a ++ x ∷ []; size = n; next = length a; full = full }) l)
      ≡ a ++ l ∷ []
unfolding fire lines
fire_last a x l n full e =
    let wraps : (length a + 1) % n ≡ 0 = grind arith in
    rw wraps (rw (set_left a x [] l) (append-nil _))

fire_inner :
    (a : List Str) (x y : Str) (b : List Str) (l : Str) (n : ℕ) (full : Bool)
    → length a + 1 < n
    → lines (fire (record { buf = a ++ x ∷ y ∷ b; size = n; next = length a; full = full }) l)
      ≡ (if full then (y ∷ b) ++ (a ++ l ∷ []) else a ++ l ∷ [])
unfolding fire lines
fire_inner a x y b l n full h =
    let inner : (length a + 1) % n ≡ suc (length a) = grind arith in
    let moved : (suc (length a) == 0) ≡ false = ground arith in
    rw (inner, set_left a x (y ∷ b) l)
      (rw moved (rw (drop_left_suc a l (y ∷ b), take_left_suc a l (y ∷ b))))

fire_split :
    (a : List Str) (x : Str) (b : List Str) (l : Str) (n : ℕ) (full : Bool)
    → length (a ++ x ∷ b) ≡ n
    → let lr : LogRing = record { buf = a ++ x ∷ b; size = n; next = length a; full = full } in
      lines (fire lr l) ≡ push n (lines lr) l
unfolding lines_split
fire_split a x [] l n true e =
    let size : length a + 1 ≡ n = omega (arith, length-append a (x ∷ [])) in
    let over : ltb (suc (length a)) n ≡ false = ground arith in
    rw (fire_last a x l n true size, lines_split_lem a x [] n true) (rw over)
fire_split a x [] l n false e =
    let size : length a + 1 ≡ n = omega (arith, length-append a (x ∷ [])) in
    let under : ltb (length a) n ≡ true = ground arith in
    rw (fire_last a x l n false size, lines_split_lem a x [] n false) (rw under)
fire_split a x (y ∷ b) l n true e =
    let inner : length a + 1 < n = omega (arith, length-append a (x ∷ y ∷ b)) in
    let over : ltb (suc (suc (length (b ++ a)))) n ≡ false =
      ground (arith, length-append a (x ∷ y ∷ b), length-append b a) in
    rw (fire_inner a x y b l n true inner, lines_split_lem a x (y ∷ b) n true)
      (rw over (ap (λ t. y ∷ t) (sym (append_assoc b a (l ∷ [])))))
fire_split a x (y ∷ b) l n false e =
    let inner : length a + 1 < n = omega (arith, length-append a (x ∷ y ∷ b)) in
    let under : ltb (length a) n ≡ true = ground arith in
    rw (fire_inner a x y b l n false inner, lines_split_lem a x (y ∷ b) n false) (rw under)

-- One more line: a ring in use shows the bounded queue's next content.
pub lines-fire :
    (lr : LogRing) (l : Str) → IsValid lr → lines (fire lr l) ≡ push lr.size (lines lr) l
lines-fire lr l v =
    let (a, x, b, e, at) = split_at lr.buf lr.next (omega (arith, v.length_buf, v.in_range)) in
    let same : lr ≡ record { buf = a ++ x ∷ b; size = lr.size; next = length a; full = lr.full } =
      λ i. record { buf = e i; size = lr.size; next = sym at i; full = lr.full } in
    rw same (fire_split a x b l lr.size lr.full (ap length (sym e) ∙ v.length_buf))

pub fire-IsValid : (lr : LogRing) (l : Str) → IsValid lr → IsValid (fire lr l)
unfolding fire
fire-IsValid lr l v = record {
  length_buf = length-set lr.buf lr.next l ∙ v.length_buf;
  in_range = grind (arith, v.in_range);
}

module _ {ℓ} {A : Type ℓ} where
  -- The last n elements.
  abbrev pub last : ℕ → List A → List A
  last n xs = drop (length xs - n) xs

  drop-append : (k : ℕ) (xs ys : List A) → k ≤ length xs → drop k (xs ++ ys) ≡ drop k xs ++ ys
  drop-append zero xs ys h = refl
  drop-append (suc k) [] ys h = absurd (omega arith)
  drop-append (suc k) (x ∷ xs) ys h = drop-append k xs ys (omega arith)

  drop-drop_one : (k : ℕ) (xs : List A) → drop 1 (drop k xs) ≡ drop (suc k) xs
  drop-drop_one zero [] = refl
  drop-drop_one zero (x ∷ xs) = refl
  drop-drop_one (suc k) [] = refl
  drop-drop_one (suc k) (x ∷ xs) = drop-drop_one k xs

drop-nil : (k : ℕ) → drop {A = Str} k [] ≡ []
drop-nil zero = refl
drop-nil (suc k) = refl

push-last : (n : ℕ) (xs : List Str) (l : Str) → push n (last n xs) l ≡ last n (xs ++ l ∷ [])
push-last n xs l = elim (Bool-cases (ltb (length xs) n)) [
  | inl short ↦
      let here : length xs - n ≡ 0 = ground arith in
      let next : length (xs ++ l ∷ []) - n ≡ 0 = ground (arith, length-append xs (l ∷ [])) in
      rw (here, next) (rw short)
  | inr long ↦
      let size : length (last n xs) ≡ n = ground (arith, length-drop (length xs - n) xs) in
      let over : ltb (length (last n xs)) n ≡ false = ground arith in
      let next : length (xs ++ l ∷ []) - n ≡ suc (length xs - n) =
        ground (arith, length-append xs (l ∷ [])) in
      rw over (
        rw (next, ← drop-append (length xs - n) xs (l ∷ []) (omega arith))
          (drop-drop_one (length xs - n) (xs ++ l ∷ [])))
]

size-fire : (lr : LogRing) (l : Str) → (fire lr l).size ≡ lr.size
unfolding fire
size-fire lr l = refl

lines-fire_from :
    (n : ℕ) (lr : LogRing) (xs ls : List Str)
    → IsValid lr
    → lr.size ≡ n
    → lines lr ≡ last n xs
    → lines (fire_all lr ls) ≡ last n (xs ++ ls)
unfolding fire_all
lines-fire_from n lr xs [] v e h = rw (append-nil xs) h
lines-fire_from n lr xs (l ∷ ls) v e h =
    let step : lines (fire lr l) ≡ last n (xs ++ l ∷ []) =
      lines-fire lr l v ∙ (λ i. push (e i) (h i) l) ∙ push-last n xs l in
    let rest =
      lines-fire_from n (fire lr l) (xs ++ l ∷ []) ls (fire-IsValid lr l v) (size-fire lr l ∙ e)
        step in
    rest ∙ ap (last n) (append_assoc xs (l ∷ []) ls)

lines-new : (n : ℕ) → lines (new_log_ring n) ≡ []
unfolding lines new_log_ring
lines-new n = refl

size-new : (n : ℕ) → (new_log_ring n).size ≡ n
unfolding new_log_ring
size-new n = refl

-- After any sequence of log lines, a ring of a positive size shows exactly the last lines that
-- fit, oldest first.
pub lines-fire_all :
    (n : ℕ) (ls : List Str) → 0 < n → lines (fire_all (new_log_ring n) ls) ≡ last n ls
lines-fire_all n ls h =
    lines-fire_from n (new_log_ring n) [] ls (new_log_ring-IsValid n h) (size-new n)
      (lines-new n ∙ sym (drop-nil (0 - n)))
