-- ===== src/Client/Run/Command.antt =====
-- What the command connects to.
use vexlo.Common.{
  ℕ, ℤ, ◌≡◌, refl, sym, ap, subst, Bytes, codes, Bool, true, false, ◌||◌, List, [], ◌∷◌, Option,
  none, some, str_eq, str_eq_iff, int_le, int_gt, if◌then◌else◌,
}
use vexlo.Model.{Register}
use vexlo.Tunnels.{TunnelManager}
use vexlo.Tunnels.Register.{ok, validate_resume, validate_registration}
use vexlo.Client.{ResumeState, registration}
use vexlo.Client.Run.{
  ClientConfig, Dial, secure, dial_server, Invocation, usage, bad_port, runs, invoke_port, main,
}

-- An argument that the command runs with.
invoke_port-runs :
    (o : Option ℤ) (cfg : ClientConfig)
    → invoke_port o ≡ runs cfg
    → (o ≡ some cfg.local_port)
      × ((int_le cfg.local_port 0 || int_gt cfg.local_port 65535) ≡ false)
      × (cfg.enable_tls ≡ true)
      × (cfg.server_addr ≡ codes "vexlo.duckdns.org:9000")
      × (cfg.server_name ≡ codes "vexlo.duckdns.org")
invoke_port-runs none cfg h = absurd (cc)
invoke_port-runs (some port) cfg h = by_range (int_le port 0 || int_gt port 65535) refl h
  where
    config : ClientConfig
    config = record vexlo.Client.Run.default_client_config {
      local_port = port;
      server_addr = codes "vexlo.duckdns.org:9000";
      enable_tls = true;
      server_name = codes "vexlo.duckdns.org";
    }

    by_range :
        (b : Bool)
        → (int_le port 0 || int_gt port 65535) ≡ b
        → (if b then bad_port else runs config) ≡ runs cfg
        → (some port ≡ some cfg.local_port)
          × ((int_le cfg.local_port 0 || int_gt cfg.local_port 65535) ≡ false)
          × (cfg.enable_tls ≡ true)
          × (cfg.server_addr ≡ codes "vexlo.duckdns.org:9000")
          × (cfg.server_name ≡ codes "vexlo.duckdns.org")
    by_range true e h = absurd (cc)
    by_range false e h =
        let same : config ≡ cfg = cc in
        (
          ap (λ (x : ClientConfig). some x.local_port) same,
          subst (λ (x : ClientConfig). (int_le x.local_port 0 || int_gt x.local_port 65535) ≡ false)
              same e,
          ap (λ (x : ClientConfig). x.enable_tls) (sym same),
          ap (λ (x : ClientConfig). x.server_addr) (sym same),
          ap (λ (x : ClientConfig). x.server_name) (sym same),
        )

main-port :
    (atoi : Bytes → Option ℤ) (args : List Bytes) (cfg : ClientConfig)
    → main atoi args ≡ runs cfg
    → (program : Bytes) × (port : Bytes) × (args ≡ program ∷ codes "http" ∷ port ∷ [])
      × (invoke_port (atoi port) ≡ runs cfg)
unfolding main
main-port atoi [] cfg h = absurd (cc)
main-port atoi (a ∷ []) cfg h = absurd (cc)
main-port atoi (a ∷ b ∷ []) cfg h = absurd (cc)
main-port atoi (program ∷ verb ∷ port ∷ []) cfg h = by_verb (str_eq verb (codes "http")) refl h
  where
    by_verb :
        (b : Bool)
        → str_eq verb (codes "http") ≡ b
        → (if b then invoke_port (atoi port) else usage) ≡ runs cfg
        → (p : Bytes) × (q : Bytes) × (program ∷ verb ∷ port ∷ [] ≡ p ∷ codes "http" ∷ q ∷ [])
          × (invoke_port (atoi q) ≡ runs cfg)
    by_verb true e h =
        let same : verb ≡ codes "http" = (str_eq_iff verb (codes "http")).0 e in
        (program, port, ap (λ (v : Bytes). program ∷ v ∷ port ∷ []) same, h)
    by_verb false e h = absurd (cc)
main-port atoi (a ∷ b ∷ c ∷ d ∷ rest) cfg h = absurd (cc)

module _ (sha256_hex : Bytes → Bytes) where
  -- The server's check of a port that is in range, and of a client that asks for a quick tunnel.
  valid-passes :
      (down : Bool) (now : ℕ) (reg : Register) (m : TunnelManager)
      → (int_le reg.local_port 0 || int_gt reg.local_port 65535) ≡ false
      → reg.quick ≡ true
      → validate_registration sha256_hex down now reg m
        ≡ (if str_eq reg.session_id [] then ok tt else validate_resume sha256_hex down now reg m)
  unfolding validate_registration
  valid-passes down now reg m in_range quick = rw (in_range, quick) refl

  -- If the command runs, it was given `http` and a port of which Atoi makes a number from 1 to 65535; it
  -- dials the service over TLS under the service's own name; and whatever session it asks for, the
  -- server's checks of its registration are those of the session alone.
  pub main_passes :
      (atoi : Bytes → Option ℤ) (split_host_port : Bytes → Option (Bytes × Bytes))
      (args : List Bytes) (cfg : ClientConfig) (down : Bool) (now : ℕ) (c : ResumeState)
      (m : TunnelManager)
      → main atoi args ≡ runs cfg
      → ((program : Bytes) × (port : Bytes) × (args ≡ program ∷ codes "http" ∷ port ∷ [])
          × (atoi port ≡ some cfg.local_port))
        × ((int_le cfg.local_port 0 || int_gt cfg.local_port 65535) ≡ false)
        × (dial_server split_host_port cfg
            ≡ some (secure (codes "vexlo.duckdns.org:9000") (codes "vexlo.duckdns.org")))
        × (validate_registration sha256_hex down now (registration cfg.local_port c) m ≡ (
            if str_eq c.session_id []
            then ok tt
            else validate_resume sha256_hex down now (registration cfg.local_port c) m))
  unfolding registration dial_server str_eq
  main_passes atoi split_host_port args cfg down now c m h =
      let (program, port, given, invoked) = main-port atoi args cfg h in
      let (number, in_range, tls, address, name) = invoke_port-runs (atoi port) cfg invoked in
      (
        (program, port, given, number),
        in_range,
        rw (tls, address, name) refl,
        valid-passes down now (registration cfg.local_port c) m in_range refl,
      )
