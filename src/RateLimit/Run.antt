-- ===== src/RateLimit/Run.antt =====
-- A run of requests through a limiter, from any mix of addresses.
use vexlo.Common.{
  ℕ, suc, ◌+◌, ◌*◌, ◌≤◌, ◌≡◌, Bytes, true, ◌&&◌, List, [], ◌∷◌, arith, if◌then◌else◌, length, map,
  Unique, str_eq,
}
use vexlo.RateLimit.{Limiter, minute, check, check_ip, is_allowed, advance_rate_window}
use vexlo.RateLimit.Window.{admitted, Ascend, admitted-le}
use vexlo.RateLimit.Table.{check-Unique, check-length, budget, budget-check, budget-le, window}

-- Requests, each with its time and its source address.
abbrev pub Requests : Type 0
Requests = List (ℕ × Bytes)

abbrev pub times : Requests → List ℕ
times = map λ r. r.0

-- The limiter after a run.
unfoldable pub run : ℕ → ℕ → Requests → Limiter → Limiter
run g i [] l = l
run g i ((t, ip) ∷ rs) l = run g i rs (check g i t ip l).0

-- How many requests of a run are allowed: all of them, and those of one address.
unfoldable pub allowed_in_all : ℕ → ℕ → Requests → Limiter → ℕ
allowed_in_all g i [] l = 0
allowed_in_all g i ((t, ip) ∷ rs) l =
    let (l', v) = check g i t ip l in
    let rest = allowed_in_all g i rs l' in if is_allowed v then suc rest else rest

unfoldable pub allowed_from : ℕ → ℕ → Bytes → Requests → Limiter → ℕ
allowed_from g i ip [] l = 0
allowed_from g i ip ((t, j) ∷ rs) l =
    let (l', v) = check g i t j l in
    let rest = allowed_from g i ip rs l' in if is_allowed v && str_eq j ip then suc rest else rest

-- The global window counts every request, also those that another rule refuses.
check-global :
    (g i t : ℕ) (ip : Bytes) (l : Limiter)
    → (check g i t ip l).0.global ≡ (advance_rate_window l.global t g).0
unfolding check check_ip
check-global g i t ip l = ground arith

check-allowed :
    (g i t : ℕ) (ip : Bytes) (l : Limiter)
    → is_allowed (check g i t ip l).1 ≡ true
    → (advance_rate_window l.global t g).1 ≡ true
unfolding check
check-allowed g i t ip l h = ground arith

allowed_in_all-admitted :
    (g i : ℕ) (rs : Requests) (l : Limiter)
    → allowed_in_all g i rs l ≤ admitted g l.global (times rs)
unfolding allowed_in_all admitted
allowed_in_all-admitted g i [] l = omega arith
allowed_in_all-admitted g i ((t, ip) ∷ rs) l = ground (
  arith,
  allowed_in_all-admitted g i rs (check g i t ip l).0,
  check-global g i t ip l,
  check-allowed g i t ip l,
)

-- Of requests at times that do not fall and lie within a minute, at most twice the global limit
-- passes.
pub allowed_in_all-le :
    (g i low high : ℕ) (rs : Requests) (l : Limiter)
    → high ≤ low + minute
    → Ascend low high (times rs)
    → allowed_in_all g i rs l ≤ 2 * g
allowed_in_all-le g i low high rs l h a =
    omega (arith, allowed_in_all-admitted g i rs l, admitted-le g l.global low high (times rs) h a)

allowed_from-budget :
    (g i low high : ℕ) (ip : Bytes) (rs : Requests) (l : Limiter)
    → Unique l.by_ip
    → minute ≤ low
    → high ≤ low + minute
    → Ascend low high (times rs)
    → allowed_from g i ip rs l ≤ budget i low high (window ip l.by_ip)
unfolding allowed_from
allowed_from-budget g i low high ip [] l u h k a = omega arith
allowed_from-budget g i low high ip ((t, j) ∷ rs) l u h k a = ground (
  arith,
  budget-check g i low t high j ip l u,
  allowed_from-budget g i t high ip rs (check g i t j l).0 (check-Unique g i t j l u),
)

-- Of requests at times that do not fall, lie within a minute and are not in the first minute of
-- Go's time, at most twice the limit of an address passes from it, whoever else asks and whatever
-- windows are dropped to make room, if the table has each address once.
pub allowed_from-le :
    (g i low high : ℕ) (ip : Bytes) (rs : Requests) (l : Limiter)
    → Unique l.by_ip
    → minute ≤ low
    → high ≤ low + minute
    → Ascend low high (times rs)
    → allowed_from g i ip rs l ≤ 2 * i
allowed_from-le g i low high ip rs l u h k a = omega (
  arith,
  allowed_from-budget g i low high ip rs l u h k a,
  budget-le i low high (window ip l.by_ip),
)

-- After any run from a table of at most 10001 windows, the table holds at most 10001.
pub run-length :
    (g i : ℕ) (rs : Requests) (l : Limiter)
    → length l.by_ip ≤ 10001
    → length (run g i rs l).by_ip ≤ 10001
unfolding run
run-length g i [] l h = h
run-length g i ((t, ip) ∷ rs) l h = run-length g i rs _ (check-length g i t ip l h)
