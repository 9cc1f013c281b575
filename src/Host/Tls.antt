-- ===== src/Host/Tls.antt =====
-- internal/server/tls.go: tunnelTLSConfig, and the target of serveTLS's redirect.
-- tls.LoadX509KeyPair is a parameter; `none` is its error. A certificate is whatever it returns.
use vexlo.Common.{
  ◌≡◌, refl, Bytes, codes, Bool, true, false, not, ◌&&◌, ◌||◌, List, [], ◌∷◌, ◌++◌, Option, none,
  some, str_eq, if◌then◌else◌, arith,
}
use vexlo.Host.{strip_port}
use vexlo.Protocol.{Result, ok, err}

-- A pair of files with the names of their flags.
pub record Pair : Type 0 where
  pub cert_file : Bytes
  pub key_file : Bytes
  pub cert_flag : Bytes
  pub key_flag : Bytes

pub data TlsError : Type 0 where
  both_required : Bytes → Bytes → TlsError
  not_loaded : TlsError
  no_certificate : TlsError

-- config.Certificates, and whether config.GetCertificate is autocert's.
pub record TlsConfig (A : Type 0) : Type 0 where
  pub certificates : List A
  pub is_automatic : Bool

module _ {A : Type 0} (load : Bytes → Bytes → Option A) where
  abbrev pub loaded : Option A → Result TlsError (List A) → Result TlsError (List A)
  loaded none rest = err not_loaded
  loaded (some cert) (err e) = err e
  loaded (some cert) (ok certs) = ok (cert ∷ certs)

  -- One of the pairs; `rest` is what the loop makes of those behind it, whose errors come later.
  unfoldable pub load_pair : Pair → Result TlsError (List A) → Result TlsError (List A)
  load_pair pair rest =
      if str_eq pair.cert_file [] && str_eq pair.key_file []
      then rest
      else (if str_eq pair.cert_file [] || str_eq pair.key_file []
          then err (both_required pair.cert_flag pair.key_flag)
          else loaded (load pair.cert_file pair.key_file) rest)

  -- The loop of tunnelTLSConfig.
  unfoldable pub load_pairs : List Pair → Result TlsError (List A)
  unfolding load_pair
  load_pairs [] = ok []
  load_pairs (pair ∷ pairs) = load_pair pair (load_pairs pairs)

  abbrev pub with_certificates : Bool → Result TlsError (List A) → Result TlsError (TlsConfig A)
  with_certificates enable_tls (err e) = err e
  with_certificates enable_tls (ok (cert ∷ certs)) =
      ok (record { certificates = cert ∷ certs; is_automatic = false })
  with_certificates enable_tls (ok []) =
      if enable_tls
      then ok (record { certificates = []; is_automatic = true })
      else err no_certificate

  -- Server.tunnelTLSConfig
  unfoldable pub tunnel_tls_config : Bool → List Pair → Result TlsError (TlsConfig A)
  unfolding load_pairs
  tunnel_tls_config enable_tls pairs = with_certificates enable_tls (load_pairs pairs)

  -- A configuration that tunnelTLSConfig returns has a certificate to show, or autocert gets one for
  -- it, and only where TLS is on.
  tunnel_tls_config_serves :
      (enable_tls : Bool) (pairs : List Pair) (config : TlsConfig A)
      → tunnel_tls_config enable_tls pairs ≡ ok config
      → config.certificates ≡ []
      → (config.is_automatic ≡ true) × (enable_tls ≡ true)
  unfolding tunnel_tls_config
  tunnel_tls_config_serves enable_tls pairs config h empty =
      by_result (load_pairs pairs) enable_tls h
    where
      by_result :
          (r : Result TlsError (List A)) (b : Bool)
          → with_certificates b r ≡ ok config
          → (config.is_automatic ≡ true) × (b ≡ true)
      by_result (err e) b h = absurd (ground arith)
      by_result (ok (cert ∷ certs)) b h = absurd (ground arith)
      by_result (ok []) true h = (ground arith, refl)
      by_result (ok []) false h = absurd (ground arith)

-- The target of serveTLS's redirect, for a URL with this path and query.
unfoldable pub redirect_target : Bytes → Bytes → Bytes → Bytes
redirect_target https_addr host request_uri =
    let port =
      if not (str_eq https_addr (codes ":443")) && not (str_eq https_addr [])
      then https_addr
      else [] in
    codes "https://" ++ strip_port host ++ port ++ request_uri
