-- ===== src/Server/Start.antt =====
-- internal/server/server.go: Start, with serveTLS and autocertManager's part in it of
-- internal/server/tls.go, as the sequence of what it does. `load` is tls.LoadX509KeyPair, which gives both
-- calls of tunnelTLSConfig one answer for a pair of files; whether
-- net.Listen, os.MkdirAll and the last call of ListenAndServe succeed are arguments, the last one `true`
-- also for ErrServerClosed. The other fields of http.Server and tls.Config and the log lines are left out.
use vexlo.Common.{
  ◌≡◌, refl, Bytes, codes, Bool, true, false, not, ◌&&◌, List, [], ◌∷◌, ◌++◌, Option, str_eq, arith,
  if◌then◌else◌,
}
use vexlo.Config.{Config, is_refused}
use vexlo.Protocol.{Result, ok, err}
use vexlo.Host.Tls.{Pair, TlsError, TlsConfig, tunnel_tls_config}

-- What Start starts: the goroutines of the hub, the writer and the retention, the listener for tunnels,
-- its end on an error, its wrapping by TLS, acceptBinary, the goroutine that calls shutdown, the
-- directory of certificates, the server that redirects, and the one that serves routes.
pub data Action (A : Type 0) : Type 0 where
  runs_hub runs_writer runs_retention closes_tcp accepts_binary awaits_shutdown : Action A
  listens_tcp makes_dir redirects serves_http : Bytes → Action A
  wraps_tls : TlsConfig A → Action A
  serves_https : Bytes → TlsConfig A → Action A

-- The pairs of tunnelTLSConfig
abbrev pub pairs : Config → List Pair
pairs cfg =
    record {
      cert_file = cfg.tls_cert_file;
      key_file = cfg.tls_key_file;
      cert_flag = codes "--tls-cert";
      key_flag = codes "--tls-key";
    }
    ∷ record {
      cert_file = cfg.tls_extra_cert_file;
      key_file = cfg.tls_extra_key_file;
      cert_flag = codes "--tls-extra-cert";
      key_flag = codes "--tls-extra-key";
    }
    ∷ []

module _ {A : Type 0} where
  abbrev pub then_do : List (Action A) → List (Action A) × Bool → List (Action A) × Bool
  then_do actions (rest, succeeded) = (actions ++ rest, succeeded)

  -- GetCertificate is autocert's without a first certificate, whatever other there is.
  abbrev pub with_autocert : Config → TlsConfig A → TlsConfig A
  with_autocert cfg c = if str_eq cfg.tls_cert_file [] then record c { is_automatic = true } else c

  abbrev pub serve_configured :
      Config → Bool → Result TlsError (TlsConfig A) → List (Action A) × Bool
  serve_configured cfg served (err e) = ([], false)
  serve_configured cfg served (ok c) =
      (serves_https cfg.https_addr (with_autocert cfg c) ∷ [], served)

  -- Server.serveTLS
  unfoldable pub serve_tls : Config → Bool → Result TlsError (TlsConfig A) → List (Action A) × Bool
  serve_tls cfg served tls =
      then_do (redirects cfg.http_addr ∷ []) (serve_configured cfg served tls)

  -- Start, from acceptBinary on
  abbrev pub serve : Config → Bool → Bool → Result TlsError (TlsConfig A) → List (Action A) × Bool
  unfolding serve_tls
  serve cfg made_dir served tls = then_do (accepts_binary ∷ awaits_shutdown ∷ []) (
      if cfg.enable_tls
      then then_do (makes_dir cfg.acme_cache ∷ [])
          (if made_dir then serve_tls cfg served tls else ([], false))
      else (serves_http cfg.http_addr ∷ [], served))

  -- Start, once it has the listener
  abbrev pub listening :
      Config → Bool → Bool → Result TlsError (TlsConfig A) → List (Action A) × Bool
  unfolding serve
  listening cfg made_dir served (err e) =
      if cfg.enable_tunnel_tls then (closes_tcp ∷ [], false) else serve cfg made_dir served (err e)
  listening cfg made_dir served (ok c) =
      if cfg.enable_tunnel_tls
      then then_do (wraps_tls c ∷ []) (serve cfg made_dir served (ok c))
      else serve cfg made_dir served (ok c)

  -- Server.Start, and whether it returns no error
  unfoldable pub start :
      (Bytes → Bytes → Option A) → Config → Bool → Bool → Bool → List (Action A) × Bool
  unfolding listening tunnel_tls_config
  start load cfg listened made_dir served = then_do (runs_hub ∷ runs_writer ∷ runs_retention ∷ []) (
      if listened
      then then_do (listens_tcp cfg.tcp_addr ∷ [])
          (listening cfg made_dir served (tunnel_tls_config load cfg.enable_tls (pairs cfg)))
      else ([], false))

  -- No tunnel is accepted before its listener speaks TLS, and the routes are served over TLS only.
  abbrev pub is_encrypted : Bool → List (Action A) → Bool
  is_encrypted wrapped [] = true
  is_encrypted wrapped (accepts_binary ∷ rest) = wrapped && is_encrypted wrapped rest
  is_encrypted wrapped (serves_http addr ∷ rest) = false
  is_encrypted wrapped (wraps_tls c ∷ rest) = is_encrypted true rest
  is_encrypted wrapped (listens_tcp addr ∷ rest) = is_encrypted false rest
  is_encrypted wrapped (action ∷ rest) = is_encrypted wrapped rest

  -- Every listener for tunnels is closed again or its tunnels are accepted.
  abbrev pub is_attended : Bool → List (Action A) → Bool
  is_attended waits [] = not waits
  is_attended waits (listens_tcp addr ∷ rest) = not waits && is_attended true rest
  is_attended waits (closes_tcp ∷ rest) = is_attended false rest
  is_attended waits (accepts_binary ∷ rest) = is_attended false rest
  is_attended waits (action ∷ rest) = is_attended waits rest

  -- With a configuration that New accepts, and whichever of Start's calls fail, Start accepts tunnels
  -- only from a listener that speaks TLS, serves the routes over TLS only, and leaves no listener for
  -- tunnels open that nobody accepts from.
  pub start-encrypted :
      (load : Bytes → Bytes → Option A) (cfg : Config) (listened made_dir served : Bool)
      → is_refused cfg ≡ false
      → (is_encrypted false (start load cfg listened made_dir served).0 ≡ true)
        × (is_attended false (start load cfg listened made_dir served).0 ≡ true)
  unfolding start serve_tls is_refused
  start-encrypted load cfg listened made_dir served accepted =
      let tls : cfg.enable_tls ≡ true = ground arith in
      let tunnel_tls : cfg.enable_tunnel_tls ≡ true = ground arith in
      by_result listened made_dir (tunnel_tls_config load cfg.enable_tls (pairs cfg)) tls tunnel_tls
    where
      started : Bool → Bool → Result TlsError (TlsConfig A) → List (Action A)
      started listened made_dir r =
          (then_do (runs_hub ∷ runs_writer ∷ runs_retention ∷ []) (
            if listened
            then then_do (listens_tcp cfg.tcp_addr ∷ []) (listening cfg made_dir served r)
            else ([], false))).0

      by_result :
          (listened made_dir : Bool) (r : Result TlsError (TlsConfig A))
          → cfg.enable_tls ≡ true
          → cfg.enable_tunnel_tls ≡ true
          → (is_encrypted false (started listened made_dir r) ≡ true)
            × (is_attended false (started listened made_dir r) ≡ true)
      by_result false made_dir r tls tunnel_tls = (refl, refl)
      by_result true made_dir (err e) tls tunnel_tls = rw tunnel_tls (refl, refl)
      by_result true false (ok c) tls tunnel_tls = rw (tunnel_tls, tls) (refl, refl)
      by_result true true (ok c) tls tunnel_tls = rw (tunnel_tls, tls) (refl, refl)
