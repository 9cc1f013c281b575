-- ===== src/Host/Certificates.antt =====
-- The certificate policy and the routing agree.
use vexlo.Common.{
  ◌≡◌, refl, Bytes, true, false, [], ◌∷◌, some, arith, ◌==◌, str_eq, has_suffix, trim_suffix,
  to_lower, trim_space, lower_byte, has_suffix-append, ℕ,
}
use vexlo.Host.{strip_port, dot, subdomain_of, host_key, host_policy}
use vexlo.Host.Routing.{subdomain_of_sound}

colon_lower : (c : ℕ) → (lower_byte c == b':') ≡ (c == b':')
unfolding lower_byte
colon_lower c = ground arith

strip_port-to_lower : (s : Bytes) → strip_port (to_lower s) ≡ to_lower (strip_port s)
unfolding strip_port to_lower
strip_port-to_lower [] = refl
strip_port-to_lower (c ∷ s) = ground (arith, colon_lower c, strip_port-to_lower s)

base_some : (base host sub : Bytes) → subdomain_of base host ≡ some sub → str_eq base [] ≡ false
unfolding subdomain_of
base_some base host sub h = ground arith

-- A host that leads to a tunnel may have a certificate, where neither the host nor the base domain
-- is written with a dot at its end.
pub host_policy-routed :
    (base_domain host sub : Bytes)
    → has_suffix host dot ≡ false
    → has_suffix (trim_space base_domain) dot ≡ false
    → host_key base_domain host ≡ some sub
    → host_policy base_domain host ≡ true
unfolding host_policy host_key trim_suffix
host_policy-routed base_domain host sub h k e =
    let b : Bytes = to_lower (trim_space base_domain) in
    let n : Bytes = to_lower (strip_port host) in
    let e' : subdomain_of b n ≡ some sub = rw (h, k) at e in
    let (name, label, some_) = subdomain_of_sound b n sub e' in
    ground (
      arith,
      base_some b n sub e',
      strip_port-to_lower host,
      name,
      has_suffix-append sub (b'.' ∷ b),
    )
