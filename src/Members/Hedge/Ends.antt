-- ===== src/Members/Hedge/Ends.antt =====
-- tryMembers: how many failed replies the loop takes.
use activity_pub_gw.Base.{
  ℕ, suc, ◌+◌, ◌≡◌, ◌≤◌, ◌↔◌, refl, ap, true, List, [], ◌∷◌, length, length-append, arith,
}
use activity_pub_gw.Text.{elem}
use activity_pub_gw.Members.{
  Peer, Attempts, launch, launch_next, take_out, start_attempts, on_error, on_hedge,
}
use activity_pub_gw.Members.Hedge.{
  Loop, waits, answers, errs, hedges, expires, runs_out, Reach, starts, steps, state_of,
  Reach-IsValid,
}

-- The failed replies on the way to a state.
unfoldable pub fails : {peers : List Peer} {l : Loop} → Reach peers l → ℕ
fails starts = 0
fails (steps r (errs p awaited)) = suc (fails r)
fails (steps r (hedges busy)) = fails r
fails (steps r (answers p awaited)) = fails r
fails (steps r (expires busy)) = fails r
fails (steps r (runs_out idle)) = fails r

pub length-take_out :
    (q : Peer) (qs : List Peer) → elem q qs ≡ true → suc (length (take_out q qs)) ≡ length qs
unfolding take_out elem
length-take_out q [] h = cc
length-take_out q (r ∷ qs) h = grind (arith, length-take_out q qs)

-- The number of candidates in a state.
total : Attempts → ℕ
total s = length s.waiting + (length s.in_flight + length s.failed)

total-launch :
    (waiting in_flight failed : List Peer)
    → total (launch waiting in_flight failed) ≡ length waiting + (length in_flight + length failed)
unfolding total launch
total-launch [] in_flight failed = refl
total-launch (q ∷ waiting) in_flight failed = omega (arith, length-append in_flight (q ∷ []))

failed-launch :
    (waiting in_flight failed : List Peer) → (launch waiting in_flight failed).failed ≡ failed
unfolding launch
failed-launch [] in_flight failed = refl
failed-launch (q ∷ waiting) in_flight failed = refl

total-Reach : {peers : List Peer} {l : Loop} → Reach peers l → total (state_of l) ≡ length peers
unfolding total start_attempts on_error on_hedge launch_next
total-Reach {peers} starts = omega (arith, total-launch peers [] [])
total-Reach (steps {s} r (errs p awaited)) = omega (
  arith,
  total-Reach r,
  length-take_out p s.in_flight awaited,
  total-launch s.waiting (take_out p s.in_flight) (p ∷ s.failed),
)
total-Reach (steps {s} r (hedges busy)) =
    omega (arith, total-Reach r, total-launch s.waiting s.in_flight s.failed)
total-Reach (steps r (answers p awaited)) = total-Reach r
total-Reach (steps r (expires busy)) = total-Reach r
total-Reach (steps r (runs_out idle)) = total-Reach r

fails-Reach :
    {peers : List Peer} {l : Loop} (r : Reach peers l) → length (state_of l).failed ≡ fails r
unfolding fails start_attempts on_error on_hedge launch_next
fails-Reach {peers} starts = ap length (failed-launch peers [] [])
fails-Reach (steps {s} r (errs p awaited)) = omega (
  arith,
  fails-Reach r,
  ap length (failed-launch s.waiting (take_out p s.in_flight) (p ∷ s.failed)),
)
fails-Reach (steps {s} r (hedges busy)) =
    omega (arith, fails-Reach r, ap length (failed-launch s.waiting s.in_flight s.failed))
fails-Reach (steps r (answers p awaited)) = fails-Reach r
fails-Reach (steps r (expires busy)) = fails-Reach r
fails-Reach (steps r (runs_out idle)) = fails-Reach r

not_zero : (n : ℕ) → suc n ≡ 0 → ⊥
not_zero n e = omega arith

none_awaited : (ps : List Peer) → length ps ≡ 0 → ps ≡ []
none_awaited [] e = refl
none_awaited (p ∷ ps) e = absurd (not_zero (length ps) e)

-- However replies and timers interleave, the loop has at most as many failed replies as there are
-- candidates, and it waits for no reply any more, which ends it, exactly when every candidate has
-- failed.
Reach-ends :
    {peers : List Peer} {s : Attempts} (r : Reach peers (waits s))
    → (fails r ≤ length peers) × ((s.in_flight ≡ []) ↔ (fails r ≡ length peers))
unfolding total
Reach-ends {peers} {s} r =
    let v = Reach-IsValid r in
    let t = total-Reach r in
    let f = fails-Reach r in
    (
      omega (arith, t, f),
      (
        λ e. omega (arith, t, f, ap length e, ap length (v.is_busy e)),
        λ e. none_awaited s.in_flight (omega (arith, t, f, e)),
      ),
    )
