-- ===== src/LogRing.antt =====
-- log-buffer.go: the ring of the most recent log lines behind /logs. The mutex makes each method
-- one step. A line is formatted by package fmt before it is stored, so it is any text here.
pub mod Refine
use activity_pub_gw.Base.{
  ℕ, ◌+◌, ◌%◌, Bool, true, false, List, [], ◌∷◌, ◌++◌, ◌==◌, if◌then◌else◌, replicate, set, take,
  drop,
}
use activity_pub_gw.Text.{Str}

pub record LogRing : Type 0 where
  pub buf : List Str
  pub size : ℕ
  pub next : ℕ
  pub full : Bool

unfoldable pub new_log_ring : ℕ → LogRing
new_log_ring size = record { buf = replicate size []; size = size; next = 0; full = false }

-- Fire stores one formatted line.
unfoldable pub fire : LogRing → Str → LogRing
fire lr line =
    let next' = (lr.next + 1) % lr.size in
    record lr {
      buf = set lr.buf lr.next line;
      next = next';
      full = if next' == 0 then true else lr.full;
    }

-- The buffered lines, oldest first.
unfoldable pub lines : LogRing → List Str
lines lr = if lr.full then drop lr.next lr.buf ++ take lr.next lr.buf else take lr.next lr.buf

-- Every emitted entry, in order.
unfoldable pub fire_all : LogRing → List Str → LogRing
fire_all lr [] = lr
fire_all lr (l ∷ ls) = fire_all (fire lr l) ls
