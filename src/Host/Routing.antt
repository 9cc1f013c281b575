-- ===== src/Host/Routing.antt =====
-- What FindByHost takes a Host header for.
use vexlo.Common.{
  ◌≡◌, ◌≢◌, refl, ap, sym, Bytes, true, false, [], ◌∷◌, ◌++◌, some, arith, ◌==◌, str_eq, str_eq_iff,
  has_byte, has_suffix, trim_suffix, to_lower, lower_byte, length, length-append, Bool-cases, inl,
  inr, has_suffix-split, has_suffix-append, trim_suffix-append, has_suffix_byte,
}
use vexlo.Host.{strip_port, dot, normal_host, normal_base, subdomain_of, host_key}

-- The key is the single label in front of the base domain.
pub subdomain_of_sound :
    (base host sub : Bytes)
    → subdomain_of base host ≡ some sub
    → (host ≡ sub ++ b'.' ∷ base) × (has_byte b'.' sub ≡ false) × (sub ≢ [])
unfolding subdomain_of
subdomain_of_sound base host sub h =
    let suffix : has_suffix host (b'.' ∷ base) ≡ true = ground arith in
    let same : trim_suffix host (b'.' ∷ base) ≡ sub = ground arith in
    let label : (str_eq sub [] ≡ false) × (has_byte b'.' sub ≡ false) = ground (arith, same) in
    (
      rw same at (sym (has_suffix-split host (b'.' ∷ base) suffix)),
      label.1,
      λ e. cc (label.0, (str_eq_iff sub []).1 e),
    )

longer : (sub base : Bytes) → str_eq (sub ++ b'.' ∷ base) base ≡ false
longer sub base = elim (Bool-cases (str_eq (sub ++ b'.' ∷ base) base)) [
  | inl e ↦ absurd (
      omega (
        arith,
        ap length ((str_eq_iff (sub ++ b'.' ∷ base) base).0 e),
        length-append sub (b'.' ∷ base),
      ))
  | inr e ↦ e
]

subdomain_of_complete :
    (base sub : Bytes)
    → base ≢ []
    → sub ≢ []
    → has_byte b'.' sub ≡ false
    → subdomain_of base (sub ++ b'.' ∷ base) ≡ some sub
unfolding subdomain_of
subdomain_of_complete base sub b s h = ground (
  arith,
  longer sub base,
  has_suffix-append sub (b'.' ∷ base),
  trim_suffix-append sub (b'.' ∷ base),
  str_eq_iff base [],
  str_eq_iff sub [],
)

-- Lower-case text without a colon, as randomID's hexadecimal labels are.
abbrev pub IsPlain : Bytes → Type 0
IsPlain [] = Unit
IsPlain (c ∷ s) = (lower_byte c ≡ c) × ((c == b':') ≡ false) × IsPlain s

to_lower-plain : (s : Bytes) → IsPlain s → to_lower s ≡ s
unfolding to_lower
to_lower-plain [] p = refl
to_lower-plain (c ∷ s) p = ground (arith, to_lower-plain s p.2)

strip_port-plain : (s : Bytes) → IsPlain s → strip_port s ≡ s
unfolding strip_port
strip_port-plain [] p = refl
strip_port-plain (c ∷ s) p = ground (arith, strip_port-plain s p.2)

strip_port-port : (s port : Bytes) → IsPlain s → strip_port (s ++ b':' ∷ port) ≡ s
unfolding strip_port
strip_port-port [] port p = refl
strip_port-port (c ∷ s) port p = ground (arith, strip_port-port s port p.2)

IsPlain-append : (s t : Bytes) → IsPlain s → IsPlain t → IsPlain (s ++ t)
IsPlain-append [] t p q = q
IsPlain-append (c ∷ s) t p q = (p.0, p.1, IsPlain-append s t p.2 q)

dot-IsPlain : (s : Bytes) → IsPlain s → IsPlain (b'.' ∷ s)
unfolding lower_byte
dot-IsPlain s p = (refl, refl, p)

-- The public name of a tunnel, with or without a port, leads to the tunnel's key.
module _ (base_domain base sub : Bytes) where
  -- `base` is the base domain as it is compared, and `sub` is a label that a tunnel may have.
  pub record IsPublicName : Type 0 where
    pub normal : normal_base base_domain ≡ base
    pub base_plain : IsPlain base
    pub base_some : base ≢ []
    pub sub_plain : IsPlain sub
    pub sub_some : sub ≢ []
    pub sub_label : has_byte b'.' sub ≡ false

  abbrev pub public_name : Bytes
  public_name = sub ++ b'.' ∷ base

  name-IsPlain : IsPublicName → IsPlain public_name
  name-IsPlain p = IsPlain-append sub (b'.' ∷ base) p.sub_plain (dot-IsPlain base p.base_plain)

  key_of_name :
      (host : Bytes)
      → IsPublicName
      → normal_host host ≡ public_name
      → host_key base_domain host ≡ some sub
  unfolding host_key
  key_of_name host p e =
      rw (e, p.normal) (subdomain_of_complete base sub p.base_some p.sub_some p.sub_label)

  -- A tunnel's public name, of lower-case text without a colon and with a label without a dot,
  -- leads with a port behind it to the tunnel's subdomain, unless the port is written with a dot at
  -- its end.
  pub host_key-name_port :
      (port : Bytes)
      → IsPublicName
      → has_suffix (b':' ∷ port) dot ≡ false
      → host_key base_domain (public_name ++ b':' ∷ port) ≡ some sub
  host_key-name_port port p h = key_of_name _ p (
      unfold normal_host trim_suffix in
      rw
        (
          has_suffix_byte public_name b'.' b':' port,
          h,
          strip_port-port public_name port (name-IsPlain p),
        )
        (to_lower-plain public_name (name-IsPlain p)))

  pub host_key-name :
      IsPublicName
      → has_suffix public_name dot ≡ false
      → host_key base_domain public_name ≡ some sub
  host_key-name p h = key_of_name _ p (
      unfold normal_host trim_suffix in
      rw (h, strip_port-plain public_name (name-IsPlain p))
        (to_lower-plain public_name (name-IsPlain p)))
