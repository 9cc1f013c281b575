-- ===== src/Replay/Meanwhile.antt =====
-- The operations of the tunnel manager that run between requests leave the places and the counts.
use vexlo.Common.{
  ℕ, ◌≤◌, ◌≡◌, refl, ◌∙◌, Bytes, Bool, true, false, [], ◌∷◌, Option, none, some, arith, ==_iff,
  if◌then◌else◌, get, delete, Map,
}
use vexlo.Config.{has_passed}
use vexlo.Storage.{Db, revoke_session}
use vexlo.Tunnels.{Tunnel, TunnelManager, update}
use vexlo.Tunnels.Registry.{
  hang_up, hang_up_found, install_tunnel, is_at, unlink, end_stored, remove_tunnel, close_tunnel,
  find_by_session, hang_up_revoked, revoke_hosted, hang_up_expired, expire_hosted_tunnels,
}
use vexlo.Replay.Traffic.{LeavesTraffic}

stays : (m : TunnelManager) → LeavesTraffic m m
stays m = record { all = refl; of_tunnel = λ r. refl; captures = λ r. omega arith; cfg = refl }

both : (m n k : TunnelManager) → LeavesTraffic m n → LeavesTraffic n k → LeavesTraffic m k
both m n k f g = record {
  all = g.all ∙ f.all;
  of_tunnel = λ r. g.of_tunnel r ∙ f.of_tunnel r;
  captures = λ r. omega (arith, f.captures r, g.captures r);
  cfg = g.cfg ∙ f.cfg;
}

hang_up-LeavesTraffic : (r : ℕ) (m : TunnelManager) → LeavesTraffic m (hang_up r m)
unfolding hang_up
hang_up-LeavesTraffic r m = record {
  all = refl;
  of_tunnel = λ s. ground (arith, ==_iff r s);
  captures = λ s. ground (arith, ==_iff r s);
  cfg = refl;
}

hang_up_found-LeavesTraffic :
    (o : Option ℕ) (m : TunnelManager) → LeavesTraffic m (hang_up_found o m)
hang_up_found-LeavesTraffic none m = stays m
hang_up_found-LeavesTraffic (some r) m = hang_up-LeavesTraffic r m

-- The end of a tunnel's connection.
pub close_tunnel-LeavesTraffic :
    (down : Bool) (r now : ℕ) (m : TunnelManager) → LeavesTraffic m (close_tunnel down r now m)
unfolding close_tunnel remove_tunnel unlink end_stored
close_tunnel-LeavesTraffic down r now m =
    both m closed _
      (record {
        all = refl;
        of_tunnel = λ s. ground (arith, ==_iff r s);
        captures = λ s. ground (arith, ==_iff r s);
        cfg = refl;
      })
      (removed (is_at r (get (closed.heap r).session.id closed.by_session)))
  where
    closed : TunnelManager
    closed = record m { heap = update m.heap r (record (m.heap r) { is_closed = true }) }

    without : TunnelManager
    without = record closed {
      tunnels = delete (closed.heap r).subdomain closed.tunnels;
      by_session = delete (closed.heap r).session.id closed.by_session;
    }

    removed :
        (b : Bool)
        → LeavesTraffic closed (
            let p : TunnelManager × Bool = if b then (without, true) else (closed, false) in
            if p.1 then end_stored down r now p.0 else p.0)
    removed true = record {
      all = refl;
      of_tunnel = λ s. refl;
      captures = λ s. omega arith;
      cfg = refl;
    }
    removed false = stays closed

revoked-LeavesTraffic :
    (id : Bytes) (o : Option Db) (m : TunnelManager) → LeavesTraffic m (hang_up_revoked id m o).0
unfolding hang_up_revoked find_by_session
revoked-LeavesTraffic id none m = stays m
revoked-LeavesTraffic id (some db) m =
    both m (record m { storage = db }) _
      (record { all = refl; of_tunnel = λ s. refl; captures = λ s. omega arith; cfg = refl })
      (hang_up_found-LeavesTraffic (get id m.by_session) (record m { storage = db }))

-- The operator's revocation of a session.
pub revoke_hosted-LeavesTraffic :
    (down : Bool) (id : Bytes) (now : ℕ) (m : TunnelManager)
    → LeavesTraffic m (revoke_hosted down id now m).0
unfolding revoke_hosted
revoke_hosted-LeavesTraffic down id now m =
    revoked-LeavesTraffic id (revoke_session down id now m.storage) m

expired-LeavesTraffic :
    (now : ℕ) (tunnels : Map ℕ) (m : TunnelManager)
    → LeavesTraffic m (hang_up_expired now tunnels m)
expired-LeavesTraffic now [] m = stays m
expired-LeavesTraffic now ((id, r) ∷ rest) m =
    let old : Bool = has_passed m.cfg.hosted_lifetime (m.heap r).session.started_at now in
    both m _ _ (by_age old) (expired-LeavesTraffic now rest (if old then hang_up r m else m))
  where
    by_age : (b : Bool) → LeavesTraffic m (if b then hang_up r m else m)
    by_age true = hang_up-LeavesTraffic r m
    by_age false = stays m

-- The expiry of the retention loop.
pub expire_hosted_tunnels-LeavesTraffic :
    (now : ℕ) (m : TunnelManager) → LeavesTraffic m (expire_hosted_tunnels now m)
unfolding expire_hosted_tunnels
expire_hosted_tunnels-LeavesTraffic now m = expired-LeavesTraffic now m.by_session m

-- A tunnel that starts, at an address that was not given out.
pub install_tunnel-LeavesTraffic :
    (t : Tunnel) (m : TunnelManager)
    → t.in_flight ≡ 0
    → (m.heap m.next).in_flight ≡ 0
    → (m.heap m.next).capture_count ≤ t.capture_count
    → LeavesTraffic m (install_tunnel t m)
unfolding install_tunnel
install_tunnel-LeavesTraffic t m idle unused fresh =
    let n : TunnelManager = hang_up_found (get t.session.id m.by_session) m in
    let l : LeavesTraffic m n = hang_up_found-LeavesTraffic (get t.session.id m.by_session) m in
    record {
      all = l.all;
      of_tunnel = λ s. ground (arith, ==_iff m.next s, l.of_tunnel s);
      captures = λ s. ground (arith, ==_iff m.next s, l.captures s);
      cfg = l.cfg;
    }
