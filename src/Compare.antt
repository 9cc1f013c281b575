-- ===== src/Compare.antt =====
-- internal/server/auth.go, subtleConstantTimeCompare: the comparison of secrets.
use Prim.Native.Nat.{bit_or, bit_xor, digits, bit_or-bitwise, bit_xor-bitwise, max, differ}
use vexlo.Common.{
  ℕ, zero, suc, ◌/◌, ◌%◌, ◌≤◌, ◌≡◌, ◌↔◌, refl, ap, subst, Bytes, Bool, true, false, [], ◌∷◌, arith,
  length, ◌==◌, if◌then◌else◌,
}

-- The loop, over the rest of both texts: diff |= a[i] ^ b[i].
unfoldable pub diff_from : ℕ → Bytes → Bytes → ℕ
diff_from diff (x ∷ a) (y ∷ b) = diff_from (bit_or diff (bit_xor x y)) a b
diff_from diff _ _ = diff

-- subtleConstantTimeCompare
unfoldable pub constant_time_compare : Bytes → Bytes → Bool
unfolding diff_from
constant_time_compare a b = if length a == length b then diff_from 0 a b == 0 else false

differ_zero : (x y : ℕ) → differ x y ≡ 0 → x ≡ y
differ_zero zero y e = omega arith
differ_zero (suc x) zero e = absurd (omega arith)
differ_zero (suc x) (suc y) e = ap suc (differ_zero x y e)

digits-differ : (n a b : ℕ) → a ≤ n → digits (λ b. b) differ n a b ≡ 0 → a ≡ b
digits-differ zero zero b h e = omega arith
digits-differ zero (suc a) b h e = absurd (omega arith)
digits-differ (suc n) zero b h e = omega arith
digits-differ (suc n) (suc a) b h e =
    let halves = digits-differ n (suc a / 2) (b / 2) (omega arith) (omega arith) in
    let ends = differ_zero (suc a % 2) (b % 2) (omega arith) in omega arith

digits-max : (n a b : ℕ) → a ≤ n → digits (λ b. b) max n a b ≡ 0 → (a ≡ 0) × (b ≡ 0)
digits-max zero zero b h e = omega arith
digits-max zero (suc a) b h e = absurd (omega arith)
digits-max (suc n) zero b h e = omega arith
digits-max (suc n) (suc a) b h e =
    let halves = digits-max n (suc a / 2) (b / 2) (omega arith) (omega arith) in
    absurd (omega arith)

digits-same : (n a : ℕ) → a ≤ n → digits (λ b. b) differ n a a ≡ 0
digits-same zero zero h = refl
digits-same zero (suc a) h = absurd (omega arith)
digits-same (suc n) zero h = refl
digits-same (suc n) (suc a) h =
    omega (arith, digits-same n (suc a / 2) (omega arith), differ_same (suc a % 2))
  where
    differ_same : (x : ℕ) → differ x x ≡ 0
    differ_same zero = refl
    differ_same (suc x) = differ_same x

bit_xor-zero : (a b : ℕ) → bit_xor a b ≡ 0 → a ≡ b
bit_xor-zero a b e = digits-differ a a b (omega arith) (omega (arith, bit_xor-bitwise a b))

bit_xor-same : (a : ℕ) → bit_xor a a ≡ 0
bit_xor-same a = omega (arith, bit_xor-bitwise a a, digits-same a a (omega arith))

bit_or-zero : (a b : ℕ) → bit_or a b ≡ 0 → (a ≡ 0) × (b ≡ 0)
bit_or-zero a b e = digits-max a a b (omega arith) (omega (arith, bit_or-bitwise a b))

diff_from-zero :
    (diff : ℕ) (a b : Bytes) → length a ≡ length b → diff_from diff a b ≡ 0 → (diff ≡ 0) × (a ≡ b)
unfolding diff_from
diff_from-zero diff [] [] h e = (e, refl)
diff_from-zero diff [] (y ∷ b) h e = absurd (omega arith)
diff_from-zero diff (x ∷ a) [] h e = absurd (omega arith)
diff_from-zero diff (x ∷ a) (y ∷ b) h e =
    let (mixed, rest) = diff_from-zero (bit_or diff (bit_xor x y)) a b (omega arith) e in
    let (before, here) = bit_or-zero diff (bit_xor x y) mixed in
    (before, cc (bit_xor-zero x y here, rest))

diff_from-same : (a : Bytes) → diff_from 0 a a ≡ 0
unfolding diff_from
diff_from-same [] = refl
diff_from-same (x ∷ a) = rw bit_xor-same (diff_from-same a)

-- The comparison of secrets says exactly whether they are the same text, at every length.
pub constant_time_compare_iff : (a b : Bytes) → (constant_time_compare a b ≡ true) ↔ (a ≡ b)
unfolding constant_time_compare
constant_time_compare_iff a b = (
  λ e. (diff_from-zero 0 a b (ground arith) (ground arith)).1,
  λ e. subst (λ (c : Bytes). constant_time_compare a c ≡ true) e (same a),
)
  where
    same : (c : Bytes) → constant_time_compare c c ≡ true
    same c = ground (arith, diff_from-same c)
