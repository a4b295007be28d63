-- ===== src/RateLimit/Queue.antt =====
-- taskQueue: the sliding-window log behind a limiter. The mutex makes each method one step.
use activity_pub_gw.Base.{
  ℕ, zero, suc, ◌-◌, ◌≤◌, ◌≡◌, refl, List, [], ◌∷◌, ◌++◌, Option, none, arith, leb, if◌then◌else◌,
  length, get_elem?, drop, Bool-cases, inl, inr,
}

-- An int.
pub data ℤ : Type 0 where
  pos : ℕ → ℤ
  negsuc : ℕ → ℤ

abbrev pub nonneg : ℤ → ℕ
nonneg (pos n) = n
nonneg (negsuc _) = 0

module _ {A : Type 0} where
  -- TaskByIndex: the index is clamped to the queue; none is the panic on an empty queue.
  unfoldable pub task_by_index : List A → ℤ → Option A
  task_by_index q (negsuc _) = get_elem? q 0
  task_by_index q (pos i) =
      if leb (length q) i
      then (if leb (length q) 0 then none else get_elem? q (length q - 1))
      else get_elem? q i

  -- CutOffBefore.
  unfoldable pub cut_off_before : List A → ℤ → List A
  cut_off_before q (negsuc _) = q
  cut_off_before q (pos start) =
      if leb start 0 then q else if leb (length q) start then [] else drop start q

  -- Append.
  unfoldable pub append : List A → List A → List A
  append q tasks = q ++ tasks

  drop_all : (n : ℕ) (q : List A) → length q ≤ n → drop n q ≡ []
  drop_all zero [] h = refl
  drop_all zero (x ∷ q) h = absurd (omega arith)
  drop_all (suc n) [] h = refl
  drop_all (suc n) (x ∷ q) h = drop_all n q (omega arith)

  -- Exactly the tasks before the index go, also when all have expired or the index lies past the
  -- end; a negative index keeps all.
  cut_off_before-drop : (q : List A) (start : ℤ) → cut_off_before q start ≡ drop (nonneg start) q
  unfolding cut_off_before
  cut_off_before-drop q (negsuc _) = refl
  cut_off_before-drop q (pos zero) = refl
  cut_off_before-drop q (pos (suc n)) = elim (Bool-cases (leb (length q) (suc n))) [
    | inl past ↦ ground (arith, drop_all (suc n) q (ground arith))
    | inr within ↦ ground arith
  ]
