-- ===== src/Host.antt =====
-- Which tunnel a Host header names: the parsing in internal/server/tunnel.go, FindByHost, stripPort
-- and the certificate policy autocertHostPolicy in internal/server/tls.go. Host names are ASCII.
pub mod Routing
pub mod Certificates
pub mod Tls
use vexlo.Common.{
  ℕ, Bytes, codes, Bool, true, false, not, ◌&&◌, ◌||◌, List, [], ◌∷◌, ◌++◌, Option, none, some,
  ◌==◌, str_eq, if◌then◌else◌, has_byte, has_suffix, trim_suffix, to_lower, trim_space, lower_byte,
}

-- stripPort
unfoldable pub strip_port : Bytes → Bytes
strip_port [] = []
strip_port (c ∷ host) = let rest = strip_port host in if c == b':' then [] else c ∷ rest

abbrev pub dot : Bytes
dot = b'.' ∷ []

-- The host and the base domain as FindByHost compares them.
unfoldable pub normal_host : Bytes → Bytes
unfolding strip_port
normal_host host = to_lower (strip_port (trim_suffix host dot))

unfoldable pub normal_base : Bytes → Bytes
normal_base base_domain = to_lower (trim_suffix (trim_space base_domain) dot)

-- The part of the host in front of the base domain, if it is a single label.
unfoldable pub subdomain_of : Bytes → Bytes → Option Bytes
subdomain_of base host =
    if str_eq base [] || str_eq host base || not (has_suffix host (b'.' ∷ base))
    then none
    else (let subdomain = trim_suffix host (b'.' ∷ base) in
        if str_eq subdomain [] || has_byte b'.' subdomain then none else some subdomain)

-- The key under which FindByHost looks its tunnel up.
unfoldable pub host_key : Bytes → Bytes → Option Bytes
unfolding normal_host normal_base subdomain_of
host_key base_domain host = subdomain_of (normal_base base_domain) (normal_host host)

-- autocertHostPolicy: whether a certificate for the host may be asked for.
unfoldable pub host_policy : Bytes → Bytes → Bool
unfolding strip_port
host_policy base_domain host =
    let h = strip_port (to_lower host) in
    let base = to_lower (trim_space base_domain) in
    not (str_eq base [])
    && (str_eq h base || str_eq h (codes "www." ++ base) || has_suffix h (b'.' ∷ base))
