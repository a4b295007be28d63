-- ===== src/Server/Plane.antt =====
-- The verdict of the limiter by the plane and the weight of a path.
pub mod Priced
use activity_pub_gw.Base.{ℕ, ◌≡◌, refl, Bool, true, false, ◌||◌, ◌&&◌, not, if◌then◌else◌}
use activity_pub_gw.Text.{Str}
use activity_pub_gw.RateLimit.Price.{
  reject, client_only, both, verdict, is_control_plane, request_weight,
}

verdicts :
    (control client_locked global_locked : Bool) (weight : ℕ)
    → (if client_locked || (not control && global_locked)
        then reject
        else if control
        then client_only weight
        else both weight)
      ≡ (if client_locked
          then reject
          else if control
          then client_only weight
          else if global_locked
          then reject
          else both weight)
verdicts true true g weight = refl
verdicts true false g weight = refl
verdicts false true g weight = refl
verdicts false false true weight = refl
verdicts false false false weight = refl

pub verdict_by :
    (p : Str) (control : Bool) (weight : ℕ) (client_locked global_locked : Bool)
    → is_control_plane p ≡ control
    → request_weight p ≡ weight
    → verdict client_locked global_locked p ≡ (
        if client_locked
        then reject
        else if control
        then client_only weight
        else if global_locked
        then reject
        else both weight)
unfolding verdict
verdict_by p control weight client_locked global_locked c w =
    rw (c, w) (verdicts control client_locked global_locked weight)
