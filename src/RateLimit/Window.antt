-- ===== src/RateLimit/Window.antt =====
-- How many requests one window admits.
use vexlo.Common.{ℕ, suc, ◌+◌, ◌-◌, ◌≤◌, ◌<◌, ◌≡◌, List, [], ◌∷◌, arith, if◌then◌else◌, min, length}
use vexlo.RateLimit.{RateWindow, minute, advance_rate_window}

-- The requests that a window admits of a run of them, at the given times.
unfoldable pub admitted : ℕ → RateWindow → List ℕ → ℕ
unfolding advance_rate_window
admitted limit w [] = 0
admitted limit w (t ∷ ts) =
    let (w', within) = advance_rate_window w t limit in
    let rest = admitted limit w' ts in if within then suc rest else rest

-- Times that do not fall, from `low` on and before `high`.
abbrev pub Ascend : ℕ → ℕ → List ℕ → Type 0
Ascend low high [] = Unit
Ascend low high (t ∷ ts) = (low ≤ t) × (t < high) × Ascend t high ts

-- Of requests at times that do not fall and lie within a window's minute, it admits the first ones,
-- up to what is left of its limit, and no more.
pub admitted-inside :
    (limit : ℕ) (w : RateWindow) (low high : ℕ) (ts : List ℕ)
    → high ≤ w.start + minute
    → Ascend low high ts
    → admitted limit w ts ≡ min (limit - w.count) (length ts)
unfolding admitted
admitted-inside limit w low high [] h a = omega arith
admitted-inside limit w low high (t ∷ ts) h a =
    ground (arith, admitted-inside limit (record w { count = w.count + 1 }) t high ts h a.2)

-- In any minute a window admits at most twice its limit, whatever it has counted before.
pub admitted-le :
    (limit : ℕ) (w : RateWindow) (low high : ℕ) (ts : List ℕ)
    → high ≤ low + minute
    → Ascend low high ts
    → admitted limit w ts ≤ (limit - w.count) + limit
unfolding admitted
admitted-le limit w low high [] h a = omega arith
admitted-le limit w low high (t ∷ ts) h a =
    let later : high ≤ t + minute = omega arith in
    ground (
      arith,
      admitted-inside limit (record { start = t; count = 1 }) t high ts later a.2,
      admitted-le limit (record w { count = w.count + 1 }) t high ts later a.2,
    )
