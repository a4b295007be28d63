-- ===== src/Inbox/Started.antt =====
-- handleInbox: outcomes of a handler by the goroutine that it starts, if any.
use activity_pub_gw.Base.{
  ◌⊎◌, ◌≢◌, length, ltb, ℕ, ◌≡◌, refl, ◌∙◌, sym, ap, subst, Bool, true, false, List, ◌∷◌, arith,
  Bool-cases, inl, inr, if◌then◌else◌,
}
use activity_pub_gw.Inbox.{Job, Pool, spawn, max_inflight_deliveries}

-- A handler's outcome that leaves the pool alone, or that starts one job with a property.
pub data Starts (P : Job → Type 0) (pool : Pool) (r : ℕ × Pool) : Type 0 where
  nothing : r.1 ≡ pool → Starts P pool r
  one : (job : Job) → P job → r ≡ spawn pool job → Starts P pool r

pub Starts-if :
    {P : Job → Type 0} {pool : Pool} (b : Bool) (x y : ℕ × Pool)
    → (b ≡ true → Starts P pool x)
    → (b ≡ false → Starts P pool y)
    → Starts P pool (if b then x else y)
Starts-if true x y hx hy = hx refl
Starts-if false x y hx hy = hy refl

pub Starts-map :
    {P Q : Job → Type 0} {pool : Pool} {r : ℕ × Pool}
    → ((job : Job) → P job → Q job)
    → Starts P pool r
    → Starts Q pool r
Starts-map f (nothing e) = nothing e
Starts-map f (one job p e) = one job (f job p) e

spawn_started :
    (pool : Pool) (job : Job)
    → ((spawn pool job).1.started ≡ pool.started)
      ⊎ ((spawn pool job).1.started ≡ job ∷ pool.started)
unfolding spawn
spawn_started pool job = elim (Bool-cases (ltb pool.in_flight max_inflight_deliveries)) [
  | inl room ↦ inr (rw room)
  | inr busy ↦ inl (rw busy)
]

cons_irrefl : (job : Job) (jobs : List Job) → jobs ≢ job ∷ jobs
cons_irrefl job jobs e = omega (arith, ap length e)

cons_head : {a b : Job} {xs : List Job} → a ∷ xs ≡ b ∷ xs → a ≡ b
cons_head e = cc

-- The job on top of the jobs started before is one with the property.
pub started_only :
    {P : Job → Type 0} {pool : Pool} {r : ℕ × Pool} (job : Job)
    → Starts P pool r
    → r.1.started ≡ job ∷ pool.started
    → P job
started_only {pool} job (nothing same) e =
    absurd (cons_irrefl job pool.started (ap (λ (p : Pool). p.started) (sym same) ∙ e))
started_only {P} {pool} job (one done p same) e =
    let now_started = ap (λ (x : ℕ × Pool). x.1.started) (sym same) ∙ e in
    elim (spawn_started pool done) [
      | inl busy ↦ absurd (cons_irrefl job pool.started (sym busy ∙ now_started))
      | inr started ↦ subst P (cons_head (sym started ∙ now_started)) p
    ]
