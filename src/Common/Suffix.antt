-- ===== src/Common/Suffix.antt =====
-- What HasSuffix and TrimSuffix say of a text.
use Prim.Native.Nat.{ℕ, ◌-◌}
use mathlib.Core.Path.{◌≡◌, refl}
use mathlib.Core.Bool.{true}
use mathlib.Core.List.{[], ◌∷◌, ◌++◌}
use native.Mathlib.Omega.{arith}
use vexlo.Common.Lists.{
  length, drop, length-append, take-length-append, drop-length-append, take-append-drop,
}
use vexlo.Common.Text.{Bytes, str_eq, str_eq_iff, has_suffix, trim_suffix}

-- A text with a suffix is the text without it, and the suffix.
pub has_suffix-split : (s p : Bytes) → has_suffix s p ≡ true → trim_suffix s p ++ p ≡ s
unfolding has_suffix trim_suffix
has_suffix-split s p h =
    let end : str_eq (drop (length s - length p) s) p ≡ true = ground arith in
    let same : drop (length s - length p) s ≡ p = (str_eq_iff _ p).0 end in
    rw h (rw same at (take-append-drop (length s - length p) s))

length_diff : (s p : Bytes) → length (s ++ p) - length p ≡ length s
length_diff s p = omega (arith, length-append s p)

pub has_suffix-append : (s p : Bytes) → has_suffix (s ++ p) p ≡ true
unfolding has_suffix
has_suffix-append s p = ground (
  arith,
  length_diff s p,
  length-append s p,
  drop-length-append s p,
  str_eq_iff (drop (length (s ++ p) - length p) (s ++ p)) p,
)

pub trim_suffix-append : (s p : Bytes) → trim_suffix (s ++ p) p ≡ s
unfolding trim_suffix
trim_suffix-append s p = rw (has_suffix-append s p, length_diff s p) (take-length-append s p)

-- Whether a text ends in a byte is decided by its last part.
pub has_suffix_byte :
    (s : Bytes) (b c : ℕ) (t : Bytes)
    → has_suffix (s ++ c ∷ t) (b ∷ []) ≡ has_suffix (c ∷ t) (b ∷ [])
unfolding has_suffix
has_suffix_byte [] b c t = refl
has_suffix_byte (x ∷ []) b c t = ground arith
has_suffix_byte (x ∷ y ∷ s) b c t = ground (arith, has_suffix_byte (y ∷ s) b c t)
