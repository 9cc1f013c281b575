-- ===== src/RateLimit.antt =====
-- internal/server/tunnel.go: rateWindow, advanceRateWindow, rateMapHasCapacity, and the two limiters
-- that use them, allowPublicRequest and checkRegistrationRate. A time is the number of nanoseconds
-- since Go's zero time, and `now.Sub(start) >= d` is `start + d <= now`. A window's `count` has no
-- upper end here.
pub mod Window
pub mod Table
pub mod Run
use vexlo.Common.{
  ℕ, suc, ◌+◌, ◌*◌, ◌^◌, Bytes, Bool, true, false, Option, none, some, length, leb, if◌then◌else◌,
  Map, get, put, delete_if, [],
}

abbrev pub second : ℕ
second = 10 ^ 9

abbrev pub minute : ℕ
minute = 60 * second

pub record RateWindow : Type 0 where
  pub start : ℕ
  pub count : ℕ

-- rateWindow{}
abbrev pub zero_window : RateWindow
zero_window = record { start = 0; count = 0 }

-- now.Sub(value.start) >= time.Minute
abbrev pub is_over : ℕ → RateWindow → Bool
is_over now value = leb (value.start + minute) now

unfoldable pub advance_rate_window : RateWindow → ℕ → ℕ → RateWindow × Bool
advance_rate_window value now limit =
    let current = if is_over now value then record { start = now; count = 0 } else value in
    let counted = record current { count = current.count + 1 } in (counted, leb counted.count limit)

-- The map after the loop, and whether there is room in it.
unfoldable pub rate_map_has_capacity : Map RateWindow → ℕ → Map RateWindow × Bool
rate_map_has_capacity windows now =
    if leb (length windows) 10000
    then (windows, true)
    else (let pruned = delete_if (is_over now) windows in (pruned, leb (length pruned) 10000))

-- windows[ip], with the zero value for a missing key
abbrev pub or_zero : Option RateWindow → RateWindow
or_zero none = zero_window
or_zero (some w) = w

-- A global window and one for each source address.
pub record Limiter : Type 0 where
  pub global : RateWindow
  pub by_ip : Map RateWindow

abbrev pub new_limiter : Limiter
new_limiter = record { global = zero_window; by_ip = [] }

pub data Verdict : Type 0 where
  allowed : Verdict
  global_limit : Verdict
  table_full : Verdict
  ip_limit : Verdict

-- The part after the global window has let the request pass.
unfoldable pub check_ip : ℕ → ℕ → Bytes → Limiter → Limiter × Verdict
unfolding advance_rate_window rate_map_has_capacity
check_ip limit now source_ip l =
    let (windows, room) = rate_map_has_capacity l.by_ip now in
    let (w, within) = advance_rate_window (or_zero (get source_ip windows)) now limit in
    if room
    then (record l { by_ip = put source_ip w windows }, if within then allowed else ip_limit)
    else (record l { by_ip = windows }, table_full)

unfoldable pub check : ℕ → ℕ → ℕ → Bytes → Limiter → Limiter × Verdict
unfolding advance_rate_window check_ip
check global_limits ip_limits now source_ip l =
    let (g, within) = advance_rate_window l.global now global_limits in
    let l' = record l { global = g } in
    if within then check_ip ip_limits now source_ip l' else (l', global_limit)

abbrev pub is_allowed : Verdict → Bool
is_allowed allowed = true
is_allowed _ = false

-- TunnelManager.allowPublicRequest
unfoldable pub allow_public_request : ℕ → Bytes → Limiter → Limiter × Bool
unfolding check
allow_public_request now source_ip l =
    let (l', v) = check 6000 120 now source_ip l in (l', is_allowed v)

-- TunnelManager.checkRegistrationRate
unfoldable pub check_registration_rate : ℕ → Bytes → Limiter → Limiter × Verdict
unfolding check
check_registration_rate now source_ip l = check 60 10 now source_ip l
