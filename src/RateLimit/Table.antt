-- ===== src/RateLimit/Table.antt =====
-- The table of windows, one for each source address: its size, and what it admits of one address.
use vexlo.Common.{
  ℕ, ◌+◌, ◌-◌, ◌*◌, ◌≤◌, ◌<◌, ◌≡◌, Bytes, Bool, true, false, ◌&&◌, arith, leb, if◌then◌else◌,
  length, Map, get, delete_if, Unique, get-put, get-delete_if, length-put-le, length-delete_if-le,
  put-Unique, delete_if-Unique, str_eq, str_eq_iff,
}
use vexlo.RateLimit.{
  RateWindow, Limiter, minute, zero_window, is_over, or_zero, advance_rate_window,
  rate_map_has_capacity, check_ip, check, is_allowed,
}

-- The window that a request from `ip` would be counted in.
abbrev pub window : Bytes → Map RateWindow → RateWindow
window ip m = or_zero (get ip m)

capacity-Unique : (m : Map RateWindow) (now : ℕ) → Unique m → Unique (rate_map_has_capacity m now).0
unfolding rate_map_has_capacity
capacity-Unique m now u = ground (arith, delete_if-Unique (is_over now) m u)

-- The table keeps its keys apart.
pub check-Unique :
    (g i now : ℕ) (ip : Bytes) (l : Limiter) → Unique l.by_ip → Unique (check g i now ip l).0.by_ip
unfolding check
check-Unique g i now ip l u = ground (
  arith,
  capacity-Unique l.by_ip now u,
  put-Unique ip (advance_rate_window (window ip (rate_map_has_capacity l.by_ip now).0) now i).0
      (rate_map_has_capacity l.by_ip now).0,
)

-- What a window may still admit of times from `low` on and before `high`, less than a minute.
pub budget : ℕ → ℕ → ℕ → RateWindow → ℕ
budget i low high w =
    if leb high (w.start + minute)
    then i - w.count
    else if is_over low w
    then i
    else (i - w.count) + i

budget_ages :
    (i low t high : ℕ) (w : RateWindow) → low ≤ t → budget i t high w ≤ budget i low high w
unfolding budget
budget_ages i low t high w h = ground arith

budget_pruned :
    (i t high : ℕ) (w : RateWindow)
    → minute ≤ t
    → t < high
    → is_over t w ≡ true
    → budget i t high zero_window ≤ budget i t high w
unfolding budget
budget_pruned i t high w h k over = ground arith

abbrev pub one_if : Bool → ℕ
one_if true = 1
one_if false = 0

budget_spent :
    (i t high : ℕ) (w : RateWindow)
    → t < high
    → high ≤ t + minute
    → let (w', within) = advance_rate_window w t i in
      budget i t high w' + one_if within ≤ budget i t high w
unfolding budget advance_rate_window
budget_spent i t high w h k = ground arith

-- Dropping the windows that are over gives no address more room.
budget_capacity :
    (i t high : ℕ) (ip : Bytes) (m : Map RateWindow)
    → Unique m
    → minute ≤ t
    → t < high
    → budget i t high (window ip (rate_map_has_capacity m t).0) ≤ budget i t high (window ip m)
unfolding rate_map_has_capacity
budget_capacity i t high ip m u h k =
    ground (arith, get-delete_if (is_over t) ip m u, budget_pruned i t high (window ip m) h k)

pub budget-check_ip :
    (i t high : ℕ) (j ip : Bytes) (l : Limiter)
    → Unique l.by_ip
    → minute ≤ t
    → t < high
    → high ≤ t + minute
    → let (l', v) = check_ip i t j l in
      budget i t high (window ip l'.by_ip) + one_if (is_allowed v && str_eq j ip)
      ≤ budget i t high (window ip l.by_ip)
unfolding check_ip
budget-check_ip i t high j ip l u h k m =
    let table : Map RateWindow = (rate_map_has_capacity l.by_ip t).0 in
    ground (
      arith,
      budget_capacity i t high ip l.by_ip u h k,
      budget_spent i t high (window ip table) k m,
      get-put j ip (advance_rate_window (window j table) t i).0 table,
      str_eq_iff j ip,
    )

pub budget-check :
    (g i low t high : ℕ) (j ip : Bytes) (l : Limiter)
    → Unique l.by_ip
    → minute ≤ t
    → low ≤ t
    → t < high
    → high ≤ t + minute
    → let (l', v) = check g i t j l in
      budget i t high (window ip l'.by_ip) + one_if (is_allowed v && str_eq j ip)
      ≤ budget i low high (window ip l.by_ip)
unfolding check
budget-check g i low t high j ip l u h a k m = ground (
  arith,
  budget_ages i low t high (window ip l.by_ip) a,
  budget-check_ip i t high j ip (record l { global = (advance_rate_window l.global t g).0 }) u,
)

pub budget-le : (i low high : ℕ) (w : RateWindow) → budget i low high w ≤ 2 * i
unfolding budget
budget-le i low high w = ground arith

-- However many addresses ask, the table holds at most 10001 windows.
pub check-length :
    (g i now : ℕ) (ip : Bytes) (l : Limiter)
    → length l.by_ip ≤ 10001
    → length (check g i now ip l).0.by_ip ≤ 10001
unfolding check check_ip rate_map_has_capacity
check-length g i now ip l h =
    let counted : Map RateWindow → RateWindow =
      λ (m : Map RateWindow). (advance_rate_window (window ip m) now i).0 in
    let pruned : Map RateWindow = delete_if (is_over now) l.by_ip in
    ground (
      arith,
      length-delete_if-le (is_over now) l.by_ip,
      length-put-le ip (counted l.by_ip) l.by_ip,
      length-put-le ip (counted pruned) pruned,
    )
