-- ===== src/Tunnels/Register.antt =====
-- internal/server/tunnel.go: Register, over the checks of Checks.
mod Checks
unfoldable pub use Checks.*
use vexlo.Common.{
  ℕ, zero, suc, ◌+◌, ◌*◌, ℤ, Bytes, codes, Bool, true, false, not, ◌&&◌, ◌||◌, [], ◌++◌, Option,
  none, some, ltb, length, str_eq, if◌then◌else◌, int_le, int_gt, count_values,
}
use vexlo.Model.{Session, Register, Registered}
use vexlo.Config.{Config, has_passed}
use vexlo.RateLimit.{
  second, Verdict, allowed, global_limit, table_full, ip_limit, check_registration_rate,
}
use vexlo.Storage.{
  Db, hash_hosted_secret, upsert_session, get_session, subdomain_exists, count_requests,
}
use vexlo.Compare.{constant_time_compare}
use vexlo.Tunnels.{TunnelManager, new_tunnel}
use vexlo.Tunnels.Registry.{install_tunnel}
use vexlo.Tunnels.Handoff.{new_dashboard_handoff}

-- TunnelManager.publicURL
unfoldable pub public_url : Bytes → Config → Bytes
public_url subdomain cfg = codes "https://" ++ subdomain ++ codes "." ++ cfg.base_domain

module _ (sha256_hex : Bytes → Bytes) where
  -- TunnelManager.registered
  unfoldable pub registered : Session → Bytes → ℕ → TunnelManager → TunnelManager × Registered
  unfolding new_dashboard_handoff public_url
  registered session raw now m = (
    new_dashboard_handoff sha256_hex session.id raw now m,
    record {
      session_id = session.id;
      subdomain = session.subdomain;
      connect_url = public_url session.subdomain m.cfg;
      dashboard_url =
          m.cfg.host_url ++ codes "/app#session=" ++ session.id ++ codes "&handoff=" ++ raw;
      connection_type = session.connection_type;
      started_at = session.started_at;
      tunnel_token = session.tunnel_token;
    },
  )

  -- The end of Register: the tunnel, with the requests that its session has in the table, takes
  -- its place, and is announced. The result has its address.
  unfoldable pub start_counted :
      Draws
      → Bytes
      → ℕ
      → Session
      → Option ℕ
      → TunnelManager
      → TunnelManager × Result RegisterError (Registered × ℕ)
  unfolding new_tunnel install_tunnel registered
  start_counted draws source_ip now session none m = (m, err storage_failed)
  start_counted draws source_ip now session (some count) m =
      let (m', reply) =
        registered session draws.handoff now
          (install_tunnel (new_tunnel session source_ip count) m) in
      (m', ok (reply, m.next))

  unfoldable pub start_stored :
      Outages
      → Draws
      → Bytes
      → ℕ
      → Session
      → Option Db
      → TunnelManager
      → TunnelManager × Result RegisterError (Registered × ℕ)
  unfolding start_counted
  start_stored outages draws source_ip now session none m = (m, err storage_failed)
  start_stored outages draws source_ip now session (some db) m =
      start_counted draws source_ip now session (count_requests outages.count session.id db)
        (record m { storage = db })

  -- What Register does with the session that it has settled on.
  unfoldable pub start_session :
      Outages
      → Draws
      → Bytes
      → ℕ
      → Session
      → TunnelManager
      → TunnelManager × Result RegisterError (Registered × ℕ)
  unfolding start_stored
  start_session outages draws source_ip now session m =
      start_stored outages draws source_ip now session
        (upsert_session sha256_hex outages.upsert session m.storage) m

  abbrev pub start_resolved :
      Outages
      → Draws
      → Bytes
      → ℕ
      → Result RegisterError Session
      → TunnelManager
      → TunnelManager × Result RegisterError (Registered × ℕ)
  start_resolved outages draws source_ip now (err e) m = (m, err e)
  start_resolved outages draws source_ip now (ok session) m =
      start_session outages draws source_ip now session m

  -- The checks of Register that need no more than to read the manager.
  unfoldable pub settle :
      Outages → Draws → ℕ → Register → TunnelManager → Result RegisterError Session
  unfolding validate_registration resolve_session
  settle outages draws now reg m = do
    validate_registration sha256_hex outages.validate now reg m
    resolve_session outages draws now reg m

  abbrev pub register_admitted :
      Outages
      → Draws
      → Bytes
      → ℕ
      → Register
      → Option RegisterError
      → TunnelManager
      → TunnelManager × Result RegisterError (Registered × ℕ)
  register_admitted outages draws source_ip now reg (some e) m = (m, err e)
  register_admitted outages draws source_ip now reg none m =
      start_resolved outages draws source_ip now (settle outages draws now reg m) m

  -- TunnelManager.Register, from the source address
  unfoldable pub register :
      Outages
      → Draws
      → Bytes
      → ℕ
      → Register
      → TunnelManager
      → TunnelManager × Result RegisterError (Registered × ℕ)
  unfolding admit_hosted settle start_session
  register outages draws source_ip now reg m =
      let (m', refusal) = admit_hosted source_ip (str_eq reg.session_id []) now m in
      register_admitted outages draws source_ip now reg refusal m'
