-- ===== src/Tunnels/Registry.antt =====
-- internal/server/tunnel.go: installTunnel, removeTunnel, closeTunnel, the lookups, and the two
-- operations that hang up on tunnels, revokeHosted and expireHostedTunnels.
use vexlo.Common.{
  ℕ, suc, Bytes, Bool, true, false, [], ◌∷◌, Option, none, some, ◌==◌, length, if◌then◌else◌, Map,
  get, put, delete,
}
use vexlo.Storage.{Db, end_session, revoke_session}
use vexlo.Config.{has_passed}
use vexlo.Host.{host_key}
use vexlo.Tunnels.{Tunnel, TunnelManager, update}

-- t.conn.Close()
unfoldable pub hang_up : ℕ → TunnelManager → TunnelManager
hang_up r m = record m { heap = update m.heap r (record (m.heap r) { is_connected = false }) }

abbrev pub hang_up_found : Option ℕ → TunnelManager → TunnelManager
hang_up_found none m = m
hang_up_found (some r) m = hang_up r m

-- TunnelManager.installTunnel, with the allocation of the tunnel; its address is the old `next`.
unfoldable pub install_tunnel : Tunnel → TunnelManager → TunnelManager
unfolding hang_up
install_tunnel t m =
    let m' = hang_up_found (get t.session.id m.by_session) m in
    record m' {
      tunnels = put t.subdomain m.next m.tunnels;
      by_session = put t.session.id m.next m.by_session;
      heap = update m'.heap m.next t;
      next = suc m.next;
    }

abbrev pub is_at : ℕ → Option ℕ → Bool
is_at r none = false
is_at r (some s) = s == r

-- The part of removeTunnel under the mutex, and whether the tunnel was in its place.
unfoldable pub unlink : ℕ → TunnelManager → TunnelManager × Bool
unlink r m =
    let t = m.heap r in
    if is_at r (get t.session.id m.by_session)
    then (
      record m {
        tunnels = delete t.subdomain m.tunnels;
        by_session = delete t.session.id m.by_session;
      },
      true,
    )
    else (m, false)

-- m.storage.EndSession
unfoldable pub end_stored : Bool → ℕ → ℕ → TunnelManager → TunnelManager
end_stored down r now m = record m {
  storage = end_session down (m.heap r).session.id now m.storage;
}

-- TunnelManager.removeTunnel
unfoldable pub remove_tunnel : Bool → ℕ → ℕ → TunnelManager → TunnelManager
unfolding unlink end_stored
remove_tunnel down r now m =
    let (m', linked) = unlink r m in if linked then end_stored down r now m' else m'

-- TunnelManager.closeTunnel
unfoldable pub close_tunnel : Bool → ℕ → ℕ → TunnelManager → TunnelManager
unfolding remove_tunnel
close_tunnel down r now m =
    remove_tunnel down r now
      (record m { heap = update m.heap r (record (m.heap r) { is_closed = true }) })

-- TunnelManager.FindBySession
unfoldable pub find_by_session : Bytes → TunnelManager → Option ℕ
find_by_session session_id m = get session_id m.by_session

abbrev pub look_up : Option Bytes → TunnelManager → Option ℕ
look_up none m = none
look_up (some subdomain) m = get subdomain m.tunnels

-- TunnelManager.FindByHost
unfoldable pub find_by_host : Bytes → TunnelManager → Option ℕ
find_by_host host m = look_up (host_key m.cfg.base_domain host) m

-- TunnelManager.ActiveTunnelCount
unfoldable pub active_tunnel_count : TunnelManager → ℕ
active_tunnel_count m = length m.by_session

unfoldable pub hang_up_revoked : Bytes → TunnelManager → Option Db → TunnelManager × Bool
unfolding hang_up find_by_session
hang_up_revoked id m none = (m, false)
hang_up_revoked id m (some db) =
    let m' = record m { storage = db } in (hang_up_found (find_by_session id m') m', true)

-- TunnelManager.revokeHosted, and whether it returned no error
unfoldable pub revoke_hosted : Bool → Bytes → ℕ → TunnelManager → TunnelManager × Bool
unfolding hang_up_revoked
revoke_hosted down id now m = hang_up_revoked id m (revoke_session down id now m.storage)

-- The tunnels of the map that have lived their time.
abbrev pub hang_up_expired : ℕ → Map ℕ → TunnelManager → TunnelManager
hang_up_expired now [] m = m
hang_up_expired now ((id, r) ∷ rest) m =
    hang_up_expired now rest (
      if has_passed m.cfg.hosted_lifetime (m.heap r).session.started_at now then hang_up r m else m)

-- TunnelManager.expireHostedTunnels
unfoldable pub expire_hosted_tunnels : ℕ → TunnelManager → TunnelManager
unfolding hang_up
expire_hosted_tunnels now m = hang_up_expired now m.by_session m
